-- ===== src/Resolver/Entries.antt =====
-- Resolver: the events that are entered behind what they need, given that the recursive calls are safe.
use hardhat_ignition.Prelude.{inl, inr, String, lookup, All}
use hardhat_ignition.Types.{
  deps_of, event_deps_of, usage_of, event_usage_of, Bindings, Events, type_error, ok, ◌>>=◌,
}
use hardhat_ignition.Resolver.{
  Resolution, Step, mark, for_each, unless_resolved, single_event_body, add_event_dep,
  require_bound, add_event_usage, add_event,
}
use hardhat_ignition.Resolver.Invariant.{IsResolved}
use hardhat_ignition.Resolver.Steps.{
  Ensures-or_fail, Grows-trans, IsResolved-cases, Becomes, IsSafe, then_step, for_each-IsSafe,
  Resolves, Ensures-event_at,
}
use hardhat_ignition.Resolver.Loops.{
  IsWellFormed, add_event_slot-IsSafe, resolve_and_mark-IsSafe, IsResolved-field, forget, loop_then,
  scan_then, once,
}
use hardhat_ignition.Resolver.Hooks.{require_resolved-IsSafe}

module _ (bindings : Bindings) (events : Events) (wf : IsWellFormed bindings events) where
  module _ (resolve : String → Step) (resolve_event : String → String → Step)
      (safe : (x : String) → Resolves bindings events resolve x)
      (safe_event : (owner x : String) → Resolves bindings events (resolve_event owner) x) where
    pub single_event_body-IsSafe :
        (owner name : String)
        → Resolves bindings events
            (single_event_body bindings events resolve resolve_event owner)
            name
    unfolding single_event_body
    single_event_body-IsSafe owner name st good =
        Ensures-event_at bindings events (Becomes bindings events st Done) name _ λ e found.
          Ensures-or_fail (Becomes bindings events st Done) (deps_of e.event) type_error _ λ deps q.
            loop_then bindings events wf resolve resolve_event safe safe_event Done
              (unless_resolved marked) deps st _ good
              (λ x. once bindings events wf resolve resolve_event safe safe_event marked x (
                resolve_and_mark-IsSafe bindings events wf resolve resolve_event safe safe_event
                  owner name x))
              λ st₁ good₁ g₁ d₁.
                Ensures-or_fail (Becomes bindings events st₁ Done) (event_deps_of e.event)
                  type_error _
                  λ event_deps q₂.
                    loop_then bindings events wf resolve resolve_event safe safe_event Done
                      (resolve_event owner) event_deps st₁ _ good₁ (safe_event owner)
                      λ st₂ good₂ g₂ d₂.
                        Ensures-or_fail (Becomes bindings events st₂ Done) (usage_of e.event)
                          type_error _
                          λ usage q₃.
                            loop_then bindings events wf resolve resolve_event safe safe_event Done
                              (unless_resolved resolve) usage st₂ _ good₂
                              (λ x.
                                once bindings events wf resolve resolve_event safe safe_event
                                  resolve x (safe x))
                              λ st₃ good₃ g₃ d₃.
                                Ensures-or_fail (Becomes bindings events st₃ Done)
                                  (event_usage_of e.event) type_error _
                                  λ event_usage q₄.
                                    loop_then bindings events wf resolve resolve_event safe
                                      safe_event Done (resolve_event owner) event_usage st₃ _ good₃
                                      (safe_event owner)
                                      λ st₄ good₄ g₄ d₄.
                                        add_event_slot-IsSafe bindings events wf name e st₄ found
                                          (λ _. (
                                            IsResolved-field bindings events wf resolve
                                                resolve_event safe safe_event (deps_of e.event) deps
                                                st₁ st₄ q
                                                (Grows-trans st₁ st₂ st₄ g₂
                                                  (Grows-trans st₂ st₃ st₄ g₃ g₄))
                                                d₁,
                                            IsResolved-field bindings events wf resolve
                                                resolve_event safe safe_event
                                                (event_deps_of e.event) event_deps st₂ st₄ q₂
                                                (Grows-trans st₂ st₃ st₄ g₃ g₄) d₂,
                                            IsResolved-field bindings events wf resolve
                                                resolve_event safe safe_event (usage_of e.event)
                                                usage st₃ st₄ q₃ g₄ d₃,
                                          ))
                                          good₄
      where
        Done : Resolution → Type 0
        Done st' = IsResolved st' name

        marked : String → Step
        marked dep s = resolve dep s >>= λ s'. ok (mark owner name s')

    add_event_dep-IsSafe :
        (owner x : String)
        → Resolves bindings events (add_event_dep bindings events resolve resolve_event owner) x
    unfolding add_event_dep
    add_event_dep-IsSafe owner x st good =
        Ensures-event_at bindings events (Becomes bindings events st (λ st'. IsResolved st' x)) x _
          λ e found.
            then_step bindings events (λ st'. IsResolved st' x) (λ st'. IsResolved st' x) st
              (resolve_event owner x) _ good (safe_event owner x)
              λ st₁ good₁ _ r. elim (IsResolved-cases st₁ x) [
                | inl (t, _) ↦ rw t (good₁, (λ y s. s), r)
                | inr f ↦ rw f tt
              ]

    add_event_usage-IsSafe :
        (x : String)
        → IsSafe bindings events
            (add_event_usage bindings events resolve resolve_event x)
            (λ _. Unit)
    unfolding add_event_usage require_bound
    add_event_usage-IsSafe x st good =
        Ensures-event_at bindings events (Becomes bindings events st (λ _. Unit)) x _ λ e found.
          Ensures-or_fail (Becomes bindings events st (λ _. Unit)) (deps_of e.event) type_error _
            λ deps q.
              forget bindings events wf resolve resolve_event safe safe_event
                (λ _. All (λ _. Unit {0}) deps) st
                (for_each (require_bound bindings events resolve resolve_event) deps st)
                (for_each-IsSafe bindings events
                  (require_bound bindings events resolve resolve_event) (λ _ _. Unit) deps
                  (λ _ _ _ _ u. u)
                  (λ y _ st₁ good₁.
                    Ensures-or_fail (Becomes bindings events st₁ (λ _. Unit)) (lookup y bindings)
                      type_error _
                      λ _ _.
                        require_resolved-IsSafe bindings events wf resolve resolve_event safe
                          safe_event y st₁ good₁)
                  st good)

    pub add_event-IsSafe :
        (owner name : String)
        → Resolves bindings events (add_event bindings events resolve resolve_event owner) name
    unfolding add_event
    add_event-IsSafe owner name st good =
        Ensures-event_at bindings events (Becomes bindings events st Done) name _ λ e found.
          Ensures-or_fail (Becomes bindings events st Done) (deps_of e.event) type_error _ λ deps q.
            loop_then bindings events wf resolve resolve_event safe safe_event Done
              (unless_resolved resolve) deps st _ good
              (λ x.
                once bindings events wf resolve resolve_event safe safe_event resolve x (safe x))
              λ st₁ good₁ g₁ d₁.
                Ensures-or_fail (Becomes bindings events st₁ Done) (event_deps_of e.event)
                  type_error _
                  λ event_deps q₂.
                    loop_then bindings events wf resolve resolve_event safe safe_event Done
                      (add_event_dep bindings events resolve resolve_event owner) event_deps st₁ _
                      good₁ (add_event_dep-IsSafe owner)
                      λ st₂ good₂ g₂ d₂.
                        Ensures-or_fail (Becomes bindings events st₂ Done) (usage_of e.event)
                          type_error _
                          λ usage q₃.
                            loop_then bindings events wf resolve resolve_event safe safe_event Done
                              (unless_resolved resolve) usage st₂ _ good₂
                              (λ x.
                                once bindings events wf resolve resolve_event safe safe_event
                                  resolve x (safe x))
                              λ st₃ good₃ g₃ d₃.
                                Ensures-or_fail (Becomes bindings events st₃ Done)
                                  (event_usage_of e.event) type_error _
                                  λ event_usage q₄.
                                    scan_then bindings events wf resolve resolve_event safe
                                      safe_event Done
                                      (add_event_usage bindings events resolve resolve_event)
                                      event_usage st₃ _ good₃ (λ x _. add_event_usage-IsSafe x)
                                      λ st₄ good₄ g₄.
                                        add_event_slot-IsSafe bindings events wf name e st₄ found
                                          (λ _. (
                                            IsResolved-field bindings events wf resolve
                                                resolve_event safe safe_event (deps_of e.event) deps
                                                st₁ st₄ q
                                                (Grows-trans st₁ st₂ st₄ g₂
                                                  (Grows-trans st₂ st₃ st₄ g₃ g₄))
                                                d₁,
                                            IsResolved-field bindings events wf resolve
                                                resolve_event safe safe_event
                                                (event_deps_of e.event) event_deps st₂ st₄ q₂
                                                (Grows-trans st₂ st₃ st₄ g₃ g₄) d₂,
                                            IsResolved-field bindings events wf resolve
                                                resolve_event safe safe_event (usage_of e.event)
                                                usage st₃ st₄ q₃ g₄ d₃,
                                          ))
                                          good₄
      where
        Done : Resolution → Type 0
        Done st' = IsResolved st' name
