-- ===== src/Planning/Events.antt =====
-- Planning: an event of an ordered module state is planned, and the plan keeps what it had.
use hardhat_ignition.Prelude.{
  sym, ap, subst, ℕ, ◌+◌, ◌≤◌, ◌≡◌, inl, inr, refl, String, some, List, [], ◌∷◌, lookup, All,
  All-map, In, arith, Option-cases, length,
}
use hardhat_ignition.Types.{
  StatefulEvent, Element, Event, BaseEvent, contract_event, module_event, meta_data_event,
  event_name, event_type_of,
}
use hardhat_ignition.Batcher.{
  batch_before, at, nan, Plan, place, handle_after_deploy_events, handle_before_deploy_events,
  module_event_handling, usage_and_dep, sink_present, climb_present,
}
use hardhat_ignition.Batcher.Levels.{IsBefore, IsPresent}
use hardhat_ignition.Batcher.Order.{requirements, deepest_dep-Reaches, deepest_dep_total}
use hardhat_ignition.Planning.Ordered.{
  Kind, kind_of, EventFits, Inv, length-push_at, not-known, place-Inv, lookup-place, place-Extends,
  IsBefore-Extends, EventStands, EventStep, handle_after, handle_before, handle_module,
}

module _ (e : StatefulEvent) (seen bound : List String) (p : Plan) (v : Inv seen bound p)
    (fresh : ¬ In (event_name e.event) seen) where
  after_step :
      (b : BaseEvent)
      → e.event ≡ contract_event b
      → kind_of (event_type_of e.event) ≡ Kind.after
      → All (λ x. In x bound) (requirements b)
      → EventStep Kind.after e seen bound p
  unfolding handle_after_deploy_events
  after_step b q k fits =
      let present =
        All-map (λ x. In x bound) (IsPresent p.numbers) (requirements b)
          (λ x i. let (m, r) = v.numbered x i in (at m, r)) fits in
      let (d, r) = deepest_dep_total b p.numbers present in
      let (_, behind, _) = deepest_dep-Reaches b p.numbers v.clean r in
      (
        place (at (d + 1)) (Element.event e) (event_name e.event) p,
        rw (handle_after e.event e p k) (rw (q, r)),
        place-Inv p v (d + 1) (Element.event e) (event_name e.event) fresh,
        place-Extends p v (d + 1) (Element.event e) (event_name e.event) fresh,
        stands d behind,
      )
    where
      stands :
          (d : ℕ)
          → All (IsBefore p.numbers (d + 1)) (requirements b)
          → EventStands Kind.after e.event
              (place (at (d + 1)) (Element.event e) (event_name e.event) p)
      stands d behind =
          let p' = place (at (d + 1)) (Element.event e) (event_name e.event) p in
          subst (λ event. EventStands Kind.after event p') (sym q)
            (
              d + 1,
              subst (λ x. lookup x p'.numbers ≡ some (at (d + 1))) (ap event_name q)
                  (lookup-place p v (d + 1) (Element.event e) (event_name e.event) fresh),
              IsBefore-Extends p p'
                  (place-Extends p v (d + 1) (Element.event e) (event_name e.event) fresh) (d + 1)
                  (requirements b) behind,
            )

  climb_present-le_of :
      (xs : List String) (d : ℕ)
      → d ≤ length p.batches
      → climb_present p.numbers xs d ≤ length p.batches
  unfolding climb_present
  climb_present-le_of [] d h = h
  climb_present-le_of (x ∷ xs) d h = elim (Option-cases (lookup x p.numbers)) [
    | inl q ↦ rw (q, climb_present) (climb_present-le_of xs d h)
    | inr (nan, q) ↦ absurd (v.clean x q)
    | inr (at m, q) ↦
        rw (q, climb_present) (climb_present-le_of xs _ (ground (arith, v.inside x m q)))
  ]

  sink_present_unknown :
      (xs : List String) (s : ℕ) → All (λ x. ¬ In x seen) xs → sink_present p.numbers xs s ≡ s
  unfolding sink_present
  sink_present_unknown [] s h = refl
  sink_present_unknown (x ∷ xs) s (h, rest) =
      rw (not-known x v h, sink_present) (sink_present_unknown xs s rest)

  before_step :
      (b : BaseEvent)
      → e.event ≡ contract_event b
      → kind_of (event_type_of e.event) ≡ Kind.before
      → All (λ x. ¬ In x seen) b.deps × All (λ x. ¬ In x seen) b.event_deps
      → EventStep Kind.before e seen bound p
  unfolding handle_before_deploy_events usage_and_dep
  before_step b q k (fresh_deps, fresh_events) =
      let d = climb_present p.numbers b.event_usage (climb_present p.numbers b.usage 0) in
      let n = batch_before d (length p.batches) in
      let inside : d ≤ length p.batches =
        climb_present-le_of b.event_usage _ (climb_present-le_of b.usage 0 (omega arith)) in
      (
        place (at n) (Element.event e) (event_name e.event) p,
        rw (handle_before e.event e p k) (
            rw
              (
                q,
                sink_present_unknown b.deps (length p.batches) fresh_deps,
                sink_present_unknown b.event_deps (length p.batches) fresh_events,
              )
              (ground arith)),
        place-Inv p v n (Element.event e) (event_name e.event) fresh,
        place-Extends p v n (Element.event e) (event_name e.event) fresh,
        tt,
      )

  module_step :
      kind_of (event_type_of e.event) ≡ Kind.of_module → EventStep Kind.of_module e seen bound p
  unfolding module_event_handling
  module_step k = (
    module_event_handling e p,
    handle_module e.event e p k,
    record {
      known = λ x b q. inr (v.known x b q);
      numbered = v.numbered;
      clean = v.clean;
      inside = λ x m q. omega (arith, v.inside x m q, length-push_at 0 (Element.event e) p.batches);
    },
    (λ x b q. q),
    tt,
  )

  pub event_step :
      (k : Kind)
      → kind_of (event_type_of e.event) ≡ k
      → (event : Event) → e.event ≡ event
      → EventFits k event seen bound
      → EventStep k e seen bound p
  event_step Kind.after k (contract_event b) q fits = after_step b q k fits
  event_step Kind.before k (contract_event b) q fits = before_step b q k fits
  event_step Kind.of_module k event q fits = module_step k
  event_step Kind.after k (module_event b) q fits = absurd fits
  event_step Kind.after k (meta_data_event b) q fits = absurd fits
  event_step Kind.before k (module_event b) q fits = absurd fits
  event_step Kind.before k (meta_data_event b) q fits = absurd fits
  event_step Kind.unknown k event q fits = absurd fits
