-- ===== src/Handler/Marks.antt =====
-- Handler: an event that was run is marked as executed.
use hardhat_ignition.Prelude.{
  ◌≡◌, ◌∙◌, inl, inr, refl, sym, ap, String, true, false, Option, none, some, List, if◌then◌else◌,
  ℤ, lookup, Option-cases,
}
use hardhat_ignition.Types.{
  Text, StatefulEvent, Element, Result, ok, err, Check, Error, cli_error, event_execution_error,
}
use hardhat_ignition.Effects.{Eff, put, each, change_error, >>=-eq-ok}
use hardhat_ignition.Repo.{Repo, convert_event, get_module_state, event_in, finish_current_event}
use hardhat_ignition.Repo.Finish.{finish_current_event-executed, finish-throws}
use hardhat_ignition.Handler.{
  World, in_world, on_repo, check_dependency, is_own_error, execute_hook, finish_event,
  handle_event,
}
use hardhat_ignition.Handler.Runs.{handle_event-runs, checks-repo}

-- An event under a name that is executed.
unfoldable pub IsExecuted : Option StatefulEvent → Type 0
IsExecuted o = (e : StatefulEvent) × (o ≡ some e) × (e.executed ≡ true)

abbrev pub event_of : Option Element → Option StatefulEvent
event_of (some (Element.event e)) = some e
event_of _ = none

event_of-eq :
    (o : Option Element) (e : StatefulEvent) → event_of o ≡ some e → o ≡ some (Element.event e)
event_of-eq none e h = absurd (cc)
event_of-eq (some (Element.contract b)) e h = absurd (cc)
event_of-eq (some (Element.event d)) e h = cc

change_error-ok :
    {A S : Type 0} (change : Error → Error) (p : Result A × S) {a : A} {t : S}
    → change_error change p ≡ (ok a, t)
    → p ≡ (ok a, t)
change_error-ok change (ok v, s) h = h
change_error-ok change (err e, s) h = absurd (let q : err (change e) ≡ ok _ = ap (λ p. p.0) h in cc)

module _ (hex : ℤ → Text) (hook : String → Eff World (Unit {0})) (M : String) where
  on_repo-ok :
      {A : Type 0} (call : Eff Repo A) (w u : World) (a : A)
      → on_repo call w ≡ (ok a, u)
      → (call w.repo ≡ (ok a, u.repo)) × (u.live ≡ w.live)
  on_repo-ok call w u a h = in_world-ok (call w.repo) w u a h
    where
      in_world-ok :
          {A : Type 0} (p : Result A × Repo) (w u : World) (a : A)
          → in_world w p ≡ (ok a, u)
          → (p ≡ (ok a, u.repo)) × (u.live ≡ w.live)
      in_world-ok (r, s) w u a h = (λ i. ((h i).0, (h i).1.repo), sym (ap (λ q. q.1.live) h))

  finish_event-marks :
      (name : String) (w w' : World)
      → w.repo.current_module_name ≡ M
      → finish_event hex M name w ≡ (ok tt, w')
      → IsExecuted (event_of (lookup name w'.live))
        × IsExecuted (event_in name (get_module_state hex M w'.repo).0)
  unfolding finish_event IsExecuted
  finish_event-marks name w w' c h =
      let (a, v, q, r) =
        >>=-eq-ok (on_repo (finish_current_event hex M w.live name))
          (λ l. put (λ x. record x { live = l })) w h in
      let (p, l) = on_repo-ok (finish_current_event hex M w.live name) w v a q in
      elim (Option-cases (event_in name (get_module_state hex M w.repo).0)) [
        | inl n ↦ absurd (
            let z = finish-throws hex M w.live name w.repo n in
            let y : err cli_error ≡ ok a = ap (λ x. x.0) (sym z ∙ p) in cc)
        | inr (e, n) ↦
            let (st, s1, s2, s3) = finish_current_event-executed hex M w.live name w.repo e c n in
            let y : st ≡ a = let z : ok st ≡ ok a = sym s1 ∙ ap (λ x. x.0) p in cc in
            let live : a ≡ w'.live = ap (λ x. x.1.live) r in
            let repo : (finish_current_event hex M w.live name w.repo).1 ≡ w'.repo =
              ap (λ x. x.1) p ∙ ap (λ x. x.1.repo) r in
            (
              (
                record e { executed = true },
                ap event_of (ap (lookup name) (sym live ∙ sym y) ∙ s2),
                refl,
              ),
              (
                record (convert_event e) { executed = true },
                ap (λ x. event_in name (get_module_state hex M x).0) (sym repo) ∙ s3,
                refl,
              ),
            )
      ]

  hook-current :
      (name : String) (w w' : World)
      → ((x : World) → (hook name x).1.repo.current_module_name ≡ x.repo.current_module_name)
      → execute_hook hook name w ≡ (ok tt, w')
      → w'.repo.current_module_name ≡ w.repo.current_module_name
  unfolding execute_hook
  hook-current name w w' k h =
      let w0 : World = record w { repo = record w.repo { current_event_name = name } } in
      sym (
        ap (λ p. p.1.repo.current_module_name)
          (change_error-ok (λ e. if is_own_error e then e else event_execution_error name)
            (hook name w0) h))
      ∙ k w0

  -- Where handling an event, behind any of the three tests of its dependencies, succeeds, it was not executed before, and
  -- its hook leaves the current module's name alone, then it is executed in the live module state and in what
  -- is read of the stored state of its module.
  pub handle_event-marks :
      (test : Option Element → Check) (name : String) (deps : List String) (e : StatefulEvent)
      (w w' : World)
      → ((x : World) → (hook name x).1.repo.current_module_name ≡ x.repo.current_module_name)
      → w.repo.current_module_name ≡ M
      → lookup name w.live ≡ some (Element.event e)
      → e.executed ≡ false
      → handle_event hex hook test M name (some deps) w ≡ (ok tt, w')
      → IsExecuted (event_of (lookup name w'.live))
        × IsExecuted (event_in name (get_module_state hex M w'.repo).0)
  handle_event-marks test name deps e w w' k c h x r =
      let (w1, w2, q, q2, q3) = handle_event-runs hex hook M test name deps e w w' h x r in
      finish_event-marks name w2 w'
        (hook-current name w1 w2 k q2
          ∙ (sym (ap (λ z. z.current_module_name) (checks-repo hex hook M test name deps w w1 q))
              ∙ c))
        q3

  executed_again :
      (hook' : String → Eff World (Unit {0})) (test : Option Element → Check) (M' name : String)
      (deps : Option (List String)) (w : World)
      → IsExecuted (event_of (lookup name w.live))
      → handle_event hex hook' test M' name deps w ≡ (ok tt, w)
  unfolding handle_event IsExecuted
  executed_again hook' test M' name deps w (e, q, x) =
      rw (event_of-eq (lookup name w.live) e q, x) refl

  -- A hook is run once. Where handling an event of the current module that was not executed succeeds, and its hook leaves the current
  -- module's name alone, handling an event of this name on what that has left, behind any test and
  -- dependencies, succeeds and changes nothing, whatever its hook would now do.
  pub handle_event-again :
      (hook' : String → Eff World (Unit {0})) (test test' : Option Element → Check) (name : String)
      (deps : List String) (deps' : Option (List String)) (e : StatefulEvent) (w w' : World)
      → ((x : World) → (hook name x).1.repo.current_module_name ≡ x.repo.current_module_name)
      → w.repo.current_module_name ≡ M
      → lookup name w.live ≡ some (Element.event e)
      → e.executed ≡ false
      → handle_event hex hook test M name (some deps) w ≡ (ok tt, w')
      → handle_event hex hook' test' M name deps' w' ≡ (ok tt, w')
  handle_event-again hook' test test' name deps deps' e w w' k c h x r =
      executed_again hook' test' M name deps' w'
        (handle_event-marks test name deps e w w' k c h x r).0

  -- Where the hook of an event throws, behind its checks, handling the event throws: an error of the program's own is
  -- passed on, another is wrapped under the event's name. The world is the one that the hook left: nothing marks the event.
  pub handle_event-throws :
      (test : Option Element → Check) (name : String) (deps : List String) (e : StatefulEvent)
      (w w1 w2 : World) (x : Error)
      → lookup name w.live ≡ some (Element.event e)
      → e.executed ≡ false
      → each (check_dependency test name) deps w ≡ (ok tt, w1)
      → hook name (record w1 { repo = record w1.repo { current_event_name = name } }) ≡ (err x, w2)
      → handle_event hex hook test M name (some deps) w
        ≡ (err (if is_own_error x then x else event_execution_error name), w2)
  unfolding handle_event execute_hook
  handle_event-throws test name deps e w w1 w2 x h y c k = rw (h, y, c, k)
