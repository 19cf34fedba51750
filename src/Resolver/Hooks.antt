-- ===== src/Resolver/Hooks.antt =====
-- Resolver: the hooks of a contract that run before its deployment, given that the recursive calls are safe.
use hardhat_ignition.Prelude.{
  ◌≡◌, ◌∙◌, inl, inr, sym, String, true, false, Option, none, some, List, lookup, All, In,
  In-append_left, In-append_right,
}
use hardhat_ignition.Types.{
  StatefulEvent, event_type_of, deps_of, event_deps_of, event_usage_of, ContractBinding,
  EventsDepRef, Bindings, Events, type_error, ok, or_fail, ◌>>=◌,
}
use hardhat_ignition.Resolver.{
  Step, mark, for_each, unless_resolved, add_event_slot, before_event_dep, require_resolved,
  before_event_usage, add_before_event, resolve_before_deploy_events,
}
use hardhat_ignition.Resolver.Invariant.{IsResolved, is_after}
use hardhat_ignition.Resolver.Steps.{
  Ensures, Ensures-or_fail, IsResolved-cases, Becomes, IsSafe, for_each-IsSafe, Resolves,
  Ensures-event_at,
}
use hardhat_ignition.Resolver.Loops.{
  early_events, IsWellFormed, add_event_slot-IsSafe, resolve_and_mark-IsSafe, forget,
  resolve_loop-IsSafe, scan_then, once,
}

module _ (bindings : Bindings) (events : Events) (wf : IsWellFormed bindings events) where
  module _ (resolve : String → Step) (resolve_event : String → String → Step)
      (safe : (x : String) → Resolves bindings events resolve x)
      (safe_event : (owner x : String) → Resolves bindings events (resolve_event owner) x) where
    before_event_dep-IsSafe :
        (name x : String)
        → IsSafe bindings events
            (before_event_dep bindings events resolve resolve_event name x)
            (λ _. Unit)
    unfolding before_event_dep
    before_event_dep-IsSafe name x st good =
        Ensures-event_at bindings events (Becomes bindings events st (λ _. Unit)) x _
          λ e found. branch e (event_deps_of e.event)
      where
        marked : String → Step
        marked b s = resolve b s >>= λ s'. ok (mark b name s')

        branch :
            (e : StatefulEvent) (o : Option (List String))
            → Ensures (Becomes bindings events st (λ _. Unit)) (elim o [
              | none ↦ ok st
              | some _ ↦ or_fail (deps_of e.event) type_error >>= λ deps.
                  for_each (unless_resolved marked) deps st
            ])
        branch e none = (good, (λ y s. s), tt)
        branch e (some _) =
            Ensures-or_fail (Becomes bindings events st (λ _. Unit)) (deps_of e.event) type_error _
              λ deps q.
                forget bindings events wf resolve resolve_event safe safe_event
                  (λ st'. All (IsResolved st') deps) st (for_each (unless_resolved marked) deps st)
                  (resolve_loop-IsSafe bindings events wf resolve resolve_event safe safe_event
                    (unless_resolved marked) deps
                    (λ y. once bindings events wf resolve resolve_event safe safe_event marked y (
                      resolve_and_mark-IsSafe bindings events wf resolve resolve_event safe
                        safe_event y name y))
                    st good)

    pub require_resolved-IsSafe :
        (x : String)
        → IsSafe bindings events
            (require_resolved bindings events resolve resolve_event x)
            (λ _. Unit)
    unfolding require_resolved
    require_resolved-IsSafe x st good = elim (IsResolved-cases st x) [
      | inl (t, _) ↦ rw t (good, (λ y s. s), tt)
      | inr f ↦ rw f tt
    ]

    before_event_usage-IsSafe :
        (x : String)
        → IsSafe bindings events
            (before_event_usage bindings events resolve resolve_event x)
            (λ _. Unit)
    unfolding before_event_usage
    before_event_usage-IsSafe x st good =
        Ensures-event_at bindings events (Becomes bindings events st (λ _. Unit)) x _
          λ e found. branch e (event_deps_of e.event)
      where
        required : String → Step
        required = require_resolved bindings events resolve resolve_event

        branch :
            (e : StatefulEvent) (o : Option (List String))
            → Ensures (Becomes bindings events st (λ _. Unit)) (elim o [
              | none ↦ ok st
              | some _ ↦ or_fail (deps_of e.event) type_error >>= λ deps. for_each required deps st
            ])
        branch e none = (good, (λ y s. s), tt)
        branch e (some _) =
            Ensures-or_fail (Becomes bindings events st (λ _. Unit)) (deps_of e.event) type_error _
              λ deps q.
                forget bindings events wf resolve resolve_event safe safe_event
                  (λ _. All (λ _. Unit {0}) deps) st (for_each required deps st)
                  (for_each-IsSafe bindings events required (λ _ _. Unit) deps (λ _ _ _ _ u. u)
                    (λ y _. require_resolved-IsSafe y) st good)

    add_before_event-IsSafe :
        (name : String)
        → ((e : StatefulEvent)
            → lookup name events ≡ some e
            → is_after (event_type_of e.event) ≡ false)
        → IsSafe bindings events
            (add_before_event bindings events resolve resolve_event name)
            (λ _. Unit)
    unfolding add_before_event
    add_before_event-IsSafe name early st good = elim (IsResolved-cases st name) [
      | inl (t, _) ↦ rw t (good, (λ y s. s), tt)
      | inr f ↦ rw f (
          Ensures-event_at bindings events (Becomes bindings events st (λ _. Unit)) name _
            λ e found.
              Ensures-or_fail (Becomes bindings events st (λ _. Unit)) (event_deps_of e.event)
                type_error _
                λ event_deps q₁.
                  scan_then bindings events wf resolve resolve_event safe safe_event (λ _. Unit)
                    (before_event_dep bindings events resolve resolve_event name) event_deps st _
                    good (λ x _. before_event_dep-IsSafe name x)
                    λ st₁ good₁ _.
                      Ensures-or_fail (Becomes bindings events st₁ (λ _. Unit))
                        (event_usage_of e.event) type_error _
                        λ event_usage q₂.
                          scan_then bindings events wf resolve resolve_event safe safe_event
                            (λ _. Unit) (before_event_usage bindings events resolve resolve_event)
                            event_usage st₁ _ good₁ (λ x _. before_event_usage-IsSafe x)
                            λ st₂ good₂ _.
                              forget bindings events wf resolve resolve_event safe safe_event
                                (λ st'. IsResolved st' name) st₂
                                (add_event_slot bindings events name st₂)
                                (add_event_slot-IsSafe bindings events wf name e st₂ found
                                  (λ a. absurd (let r : true ≡ false = sym a ∙ early e found in cc))
                                  good₂))
    ]

    pub resolve_before_deploy_events-IsSafe :
        (n : String) (b : ContractBinding)
        → lookup n bindings ≡ some b
        → IsSafe bindings events
            (resolve_before_deploy_events bindings events resolve resolve_event b)
            (λ _. Unit)
    unfolding resolve_before_deploy_events
    resolve_before_deploy_events-IsSafe n b found st good =
        scan_then bindings events wf resolve resolve_event safe safe_event (λ _. Unit) add
          r.before_compile st _ good (λ x i. safe_early x (In-append_left x r.before_compile _ i))
          λ st₁ good₁ _.
            scan_then bindings events wf resolve resolve_event safe safe_event (λ _. Unit) add
              r.after_compile st₁ (for_each add r.before_deploy) good₁
              (λ x i.
                safe_early x
                  (In-append_right x r.before_compile _ (In-append_left x r.after_compile _ i)))
              λ st₂ good₂ _.
                forget bindings events wf resolve resolve_event safe safe_event
                  (λ _. All (λ _. Unit {0}) r.before_deploy) st₂ (for_each add r.before_deploy st₂)
                  (for_each-IsSafe bindings events add (λ _ _. Unit) r.before_deploy
                    (λ _ _ _ _ u. u)
                    (λ x i. safe_early x (
                      In-append_right x r.before_compile _ (In-append_right x r.after_compile _ i)))
                    st₂ good₂)
      where
        r : EventsDepRef
        r = b.events_deps

        add : String → Step
        add = add_before_event bindings events resolve resolve_event

        safe_early :
            (x : String) → In x (early_events r) → IsSafe bindings events (add x) (λ _. Unit)
        safe_early x i = add_before_event-IsSafe x (wf.early n b found x i)
