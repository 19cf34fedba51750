-- ===== src/Resolver/Loops.antt =====
-- Resolver: the loops of a resolution, given that the recursive calls are safe.
use hardhat_ignition.Prelude.{
  ◌≡◌, String, true, false, Option, none, some, List, [], ◌++◌, lookup, or_else, All, All-map, In,
}
use hardhat_ignition.Types.{
  StatefulEvent, event_type_of, deps_of, event_deps_of, usage_of, ContractBinding, EventsDepRef,
  Bindings, Events, Result, ok, err, ◌>>=◌,
}
use hardhat_ignition.Resolver.{
  Slot.event, Resolution, Step, mark, for_each, unless_resolved, add_event_slot,
}
use hardhat_ignition.Resolver.Invariant.{IsResolved, IsGood, is_after, add_event-IsGood}
use hardhat_ignition.Resolver.Steps.{
  Ensures, Grows, add_slot-Grows, add_slot-IsResolved, Becomes, IsSafe, then_step, for_each-IsSafe,
  Resolves, IsResolved-IsStable, unless_resolved-IsSafe,
}

abbrev pub early_events : EventsDepRef → List String
early_events r = r.before_compile ++ (r.after_compile ++ r.before_deploy)

-- No event has the name of a contract, and the hooks before deployment
-- that a contract lists are events of the types for that.
pub record IsWellFormed (bindings : Bindings) (events : Events) : Type 0 where
  pub disjoint :
      (x : String) (e : StatefulEvent) → lookup x events ≡ some e → lookup x bindings ≡ none
  pub early :
      (n : String) (b : ContractBinding)
      → lookup n bindings ≡ some b
      → (x : String) → In x (early_events b.events_deps)
      → (e : StatefulEvent) → lookup x events ≡ some e
      → is_after (event_type_of e.event) ≡ false

module _ (bindings : Bindings) (events : Events) (wf : IsWellFormed bindings events) where
  -- The entry of an event whose needs are resolved.
  pub add_event_slot-IsSafe :
      (name : String) (e : StatefulEvent) (st : Resolution)
      → lookup name events ≡ some e
      → (is_after (event_type_of e.event) ≡ true
          → All (IsResolved st) (or_else (deps_of e.event) [])
            × All (IsResolved st) (or_else (event_deps_of e.event) [])
            × All (IsResolved st) (or_else (usage_of e.event) []))
      → IsGood bindings events st
      → Ensures
          (Becomes bindings events st (λ st'. IsResolved st' name))
          (add_event_slot bindings events name st)
  add_event_slot-IsSafe name e st found needs good = rw found (
    add_event-IsGood bindings events name e st (wf.disjoint name e found) found needs good,
    add_slot-Grows name (event e) st,
    add_slot-IsResolved name (event e) st,
  )

  module _ (resolve : String → Step) (resolve_event : String → String → Step)
      (safe : (x : String) → Resolves bindings events resolve x)
      (safe_event : (owner x : String) → Resolves bindings events (resolve_event owner) x) where
    pub resolve_and_mark-IsSafe :
        (owner name x : String)
        → IsSafe bindings events
            (λ s. resolve x s >>= λ s'. ok (mark owner name s'))
            (λ st. IsResolved st x)
    resolve_and_mark-IsSafe owner name x st good =
        then_step bindings events (λ st'. IsResolved st' x) (λ st'. IsResolved st' x) st (resolve x)
          (λ s'. ok (mark owner name s')) good (safe x) (λ st₁ good₁ _ r. (good₁, (λ y s. s), r))

    pub IsResolved-field :
        (o : Option (List String)) (xs : List String) (st st' : Resolution)
        → o ≡ some xs
        → Grows st st'
        → All (IsResolved st) xs
        → All (IsResolved st') (or_else o [])
    IsResolved-field o xs st st' q g h = rw q (All-map (IsResolved st) (IsResolved st') xs g h)

    pub forget :
        (P : Resolution → Type 0) (st : Resolution) (r : Result Resolution)
        → Ensures (Becomes bindings events st P) r
        → Ensures (Becomes bindings events st (λ _. Unit)) r
    forget P st (ok s) (a, b, c) = (a, b, tt)
    forget P st (err e) h = tt

    -- A loop that resolves each name.
    pub resolve_loop-IsSafe :
        (step : String → Step) (xs : List String)
        → ((x : String) → Resolves bindings events step x)
        → IsSafe bindings events (for_each step xs) (λ st. All (IsResolved st) xs)
    resolve_loop-IsSafe step xs s =
        for_each-IsSafe bindings events step (λ x st. IsResolved st x) xs
          (IsResolved-IsStable bindings events) (λ x _. s x)

    pub All-Grows :
        (xs : List String) (st st' : Resolution)
        → Grows st st'
        → All (IsResolved st) xs
        → All (IsResolved st') xs
    All-Grows xs st st' g = All-map (IsResolved st) (IsResolved st') xs g

    -- A loop, and what follows it.
    pub loop_then :
        (Q : Resolution → Type 0) (step : String → Step) (xs : List String) (st : Resolution)
        (k : Step)
        → IsGood bindings events st
        → ((x : String) → Resolves bindings events step x)
        → ((st₁ : Resolution)
            → IsGood bindings events st₁
            → Grows st st₁
            → All (IsResolved st₁) xs
            → Ensures (Becomes bindings events st₁ Q) (k st₁))
        → Ensures (Becomes bindings events st Q) (for_each step xs st >>= k)
    loop_then Q step xs st k good s f =
        then_step bindings events (λ st'. All (IsResolved st') xs) Q st (for_each step xs) k good
          (resolve_loop-IsSafe step xs s) f

    -- The same for a loop of which nothing but its safety is used.
    pub scan_then :
        (Q : Resolution → Type 0) (step : String → Step) (xs : List String) (st : Resolution)
        (k : Step)
        → IsGood bindings events st
        → ((x : String) → In x xs → IsSafe bindings events (step x) (λ _. Unit))
        → ((st₁ : Resolution)
            → IsGood bindings events st₁
            → Grows st st₁
            → Ensures (Becomes bindings events st₁ Q) (k st₁))
        → Ensures (Becomes bindings events st Q) (for_each step xs st >>= k)
    scan_then Q step xs st k good s f =
        then_step bindings events (λ st'. All (λ _. Unit {0}) xs) Q st (for_each step xs) k good
          (for_each-IsSafe bindings events step (λ _ _. Unit) xs (λ _ _ _ _ u. u) s)
          (λ st₁ good₁ grows _. f st₁ good₁ grows)

    pub once :
        (step : String → Step) (x : String)
        → Resolves bindings events step x
        → Resolves bindings events (unless_resolved step) x
    once = unless_resolved-IsSafe bindings events
