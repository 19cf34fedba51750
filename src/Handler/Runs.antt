-- ===== src/Handler/Runs.antt =====
-- Handler: a hook runs once, behind its dependencies, and is marked when it has returned.
use hardhat_ignition.Prelude.{
  ◌≡◌, ◌∙◌, ◌⊎◌, inl, inr, refl, sym, subst, ap, String, true, false, Option, none, some, List, [],
  ◌∷◌, ℤ, lookup, lookup-insert_self, lookup-insert_ne, name_dec, All, All-map, arith, Option-cases,
}
use hardhat_ignition.Types.{
  Text, EventType, Event, event_name, event_type_of, deps_of, StatefulEvent, ContractBinding,
  Element, ok, err, Check, passes, cli_error,
}
use hardhat_ignition.Effects.{Eff, put, lift, each, ◌>>◌, >>-eq-ok}
use hardhat_ignition.Handler.{
  World, is_deployed, mark_deployed, mark_dependency, check_dependency, execute_hook, finish_event,
  handle_event, handle_module_event, dispatch, store_dependencies, is_unknown, execute_event,
}

-- The contract that a name stands for, with an address.
unfoldable pub HasAddress : Option Element → Type 0
HasAddress o =
    (b : ContractBinding) × (o ≡ some (Element.contract b))
    × (a : String) × (b.deploy_meta_data.contract_address ≡ some a)

module _ (hex : ℤ → Text) (hook : String → Eff World (Unit {0})) (M : String) where
  dispatch-executed :
      (v : Event) (t : EventType) (e : StatefulEvent) (w : World)
      → lookup (event_name v) w.live ≡ some (Element.event e)
      → e.executed ≡ true
      → is_unknown t ≡ false
      → dispatch hex hook M v t w ≡ (ok tt, w)
  unfolding dispatch handle_event handle_module_event
  dispatch-executed v EventType.deploy e w h x u = cc
  dispatch-executed v EventType.before_deploy_event e w h x u = rw (h, x)
  dispatch-executed v EventType.after_deploy_event e w h x u = rw (h, x)
  dispatch-executed v EventType.before_compile_event e w h x u = rw (h, x)
  dispatch-executed v EventType.after_compile_event e w h x u = rw (h, x)
  dispatch-executed v EventType.on_change_event e w h x u = rw (h, x)
  dispatch-executed v EventType.on_start e w h x u = rw (h, x)
  dispatch-executed v EventType.on_completion e w h x u = rw (h, x)
  dispatch-executed v EventType.on_success e w h x u = rw (h, x)
  dispatch-executed v EventType.on_fail e w h x u = rw (h, x)

  -- An event that the live module state holds as executed is not run again: whatever its hook would do, its
  -- execution only stores its dependencies.
  pub execute_event-once :
      (s : StatefulEvent) (e : StatefulEvent) (w : World)
      → lookup (event_name s.event) w.live ≡ some (Element.event e)
      → e.executed ≡ true
      → is_unknown (event_type_of s.event) ≡ false
      → execute_event hex hook M s w ≡ store_dependencies hex s.event w
  unfolding execute_event
  execute_event-once s e w h x u =
      rw (u, dispatch-executed s.event (event_type_of s.event) e w h x u)

  is_deployed-HasAddress : (o : Option Element) → is_deployed o ≡ passes → HasAddress o
  unfolding HasAddress
  is_deployed-HasAddress none h = cc
  is_deployed-HasAddress (some (Element.event e)) h = cc
  is_deployed-HasAddress (some (Element.contract b)) h =
      elim (Option-cases b.deploy_meta_data.contract_address) [
        | inl q ↦ absurd (let p : err cli_error ≡ passes = rw q at h in cc)
        | inr (a, q) ↦ (b, refl, a, q)
      ]

  mark_deployed-address :
      (event : String) (b : ContractBinding)
      → (mark_deployed event b).deploy_meta_data.contract_address
        ≡ b.deploy_meta_data.contract_address
  mark_deployed-address event b = elim (Option-cases b.deploy_meta_data.last_event_name) [
    | inl q ↦ rw q
    | inr (last, q) ↦ rw q (ground arith)
  ]

  is_deployed-mark_deployed :
      (event : String) (b : ContractBinding)
      → is_deployed (some (Element.contract (mark_deployed event b)))
        ≡ is_deployed (some (Element.contract b))
  is_deployed-mark_deployed event b = rw (mark_deployed-address event b, is_deployed)

  is_deployed-mark_dependency :
      (event dep x : String) (w : World)
      → is_deployed (lookup x (mark_dependency event dep w).live) ≡ is_deployed (lookup x w.live)
  is_deployed-mark_dependency event dep x w = elim (Option-cases (lookup dep w.live)) [
    | inl q ↦ rw (q, mark_dependency)
    | inr (Element.event e, q) ↦ rw (q, mark_dependency)
    | inr (Element.contract b, q) ↦ elim (name_dec dep x) [
      | yes y ↦
          subst
            (λ z.
              is_deployed (lookup z (mark_dependency event dep w).live)
              ≡ is_deployed (lookup z w.live))
            y
            (rw
              (
                q,
                mark_dependency,
                lookup-insert_self dep (Element.contract (mark_deployed event b)) w.live,
              )
              (is_deployed-mark_deployed event b))
      | no n ↦ rw (
        q,
        mark_dependency,
        lookup-insert_ne dep x (Element.contract (mark_deployed event b)) w.live n,
      )
    ]
  ]

  mark_dependency-repo :
      (event dep : String) (w : World) → (mark_dependency event dep w).repo ≡ w.repo
  mark_dependency-repo event dep w = elim (Option-cases (lookup dep w.live)) [
    | inl q ↦ rw (q, mark_dependency)
    | inr (Element.event e, q) ↦ rw (q, mark_dependency)
    | inr (Element.contract b, q) ↦ rw (q, mark_dependency)
  ]

  check_dependency-ok :
      (test : Option Element → Check) (event d : String) (w u : World)
      → check_dependency test event d w ≡ (ok tt, u)
      → (test (lookup d w.live) ≡ passes) × (mark_dependency event d w ≡ u)
  unfolding check_dependency
  check_dependency-ok test event d w u h =
      let (a, s, q, r) =
        >>-eq-ok (lift (test (lookup d w.live))) (put (mark_dependency event d)) w h in
      (
        ap (λ p. p.0) q,
        subst (λ v. mark_dependency event d v ≡ u) (sym (ap (λ p. p.1) q)) (ap (λ p. p.1) r),
      )

  -- Checking leaves the repository alone
  pub checks-repo :
      (test : Option Element → Check) (event : String) (deps : List String) (w w' : World)
      → each (check_dependency test event) deps w ≡ (ok tt, w')
      → w.repo ≡ w'.repo
  checks-repo test event [] w w' h = ap (λ p. p.1.repo) h
  checks-repo test event (d ∷ deps) w w' h =
      let (a, u, q, r) =
        >>-eq-ok (check_dependency test event d) (each (check_dependency test event) deps) w h in
      sym (mark_dependency-repo event d w)
      ∙ (ap (λ v. v.repo) (check_dependency-ok test event d w u q).1
          ∙ checks-repo test event deps u w' r)

  checks-deployed :
      (event : String) (deps : List String) (w w' : World)
      → each (check_dependency is_deployed event) deps w ≡ (ok tt, w')
      → All (λ d. is_deployed (lookup d w.live) ≡ passes) deps
  checks-deployed event [] w w' h = tt
  checks-deployed event (d ∷ deps) w w' h =
      let (a, u, q, r) =
        >>-eq-ok (check_dependency is_deployed event d)
          (each (check_dependency is_deployed event) deps) w h in
      let (t, m) = check_dependency-ok is_deployed event d w u q in
      (
        t,
        All-map (λ x. is_deployed (lookup x u.live) ≡ passes)
            (λ x. is_deployed (lookup x w.live) ≡ passes) deps
            (λ x p.
              sym (is_deployed-mark_dependency event d x w)
              ∙ (ap (λ v. is_deployed (lookup x v.live)) m ∙ p))
            (checks-deployed event deps u w' r),
      )

  pub handle_event-runs :
      (test : Option Element → Check) (name : String) (deps : List String) (e : StatefulEvent)
      (w w' : World)
      → lookup name w.live ≡ some (Element.event e)
      → e.executed ≡ false
      → handle_event hex hook test M name (some deps) w ≡ (ok tt, w')
      → (w1 : World) × (w2 : World) × (each (check_dependency test name) deps w ≡ (ok tt, w1))
        × (execute_hook hook name w1 ≡ (ok tt, w2))
        × (finish_event hex M name w2 ≡ (ok tt, w'))
  unfolding handle_event
  handle_event-runs test name deps e w w' h x k =
      let p : (each (check_dependency test name) deps
              >> (execute_hook hook name >> (finish_event hex M name >> lift passes)))
            w
          ≡ (ok tt, w') =
        rw (h, x) at k in
      let (a, w1, q, r) =
        >>-eq-ok (each (check_dependency test name) deps)
          (execute_hook hook name >> (finish_event hex M name >> lift passes)) w p in
      let (b, w2, q2, r2) =
        >>-eq-ok (execute_hook hook name) (finish_event hex M name >> lift passes) w1 r in
      let (c, w3, q3, r3) = >>-eq-ok (finish_event hex M name) (lift passes) w2 r2 in
      (w1, w2, q, q2, q3 ∙ r3)

  -- Where the execution of an event that is to run after a deployment, or on a change, succeeds and the event was not
  -- executed before, every contract that it depends on was deployed when the execution began: the live module
  -- state had the contract with its address.
  pub execute_event-deployed :
      (s e : StatefulEvent) (deps : List String) (w w' : World)
      → (event_type_of s.event ≡ EventType.after_deploy_event)
        ⊎ (event_type_of s.event ≡ EventType.on_change_event)
      → deps_of s.event ≡ some deps
      → lookup (event_name s.event) w.live ≡ some (Element.event e)
      → e.executed ≡ false
      → execute_event hex hook M s w ≡ (ok tt, w')
      → All (λ d. HasAddress (lookup d w.live)) deps
  unfolding execute_event dispatch
  execute_event-deployed s e deps w w' t d h x k =
      let (a, u, q, r) =
        >>-eq-ok (handle_event hex hook is_deployed M (event_name s.event) (some deps))
          (store_dependencies hex s.event) w (known t) in
      let (w1, w2, c, _, _) = handle_event-runs is_deployed (event_name s.event) deps e w u h x q in
      All-map (λ n. is_deployed (lookup n w.live) ≡ passes) (λ n. HasAddress (lookup n w.live)) deps
        (λ n p. is_deployed-HasAddress (lookup n w.live) p)
        (checks-deployed (event_name s.event) deps w w1 c)
    where
      known :
          (event_type_of s.event ≡ EventType.after_deploy_event)
            ⊎ (event_type_of s.event ≡ EventType.on_change_event)
          → (handle_event hex hook is_deployed M (event_name s.event) (some deps)
                >> store_dependencies hex s.event)
              w
            ≡ (ok tt, w')
      known (inl y) = rw (y, d) at k
      known (inr y) = rw (y, d) at k
