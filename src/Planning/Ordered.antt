-- ===== src/Planning/Ordered.antt =====
-- Planning: module states in the order of the resolver, and what a plan of their first elements keeps.
use hardhat_ignition.Prelude.{
  ℕ, zero, suc, ◌≤◌, ◌<◌, ◌≡◌, inl, inr, String, none, some, List, [], ◌∷◌, lookup, insert,
  lookup-insert, lookup-insert_self, All, All-map, In, arith, Option-cases, length, name_dec,
}
use hardhat_ignition.Types.{
  contract_refs, StatefulEvent, Element, EventType, Event, contract_event, event_name,
  event_type_of, ModuleState, ok,
}
use hardhat_ignition.Batcher.{
  BatchNumber, at, Batches, Plan, push_at, place, handle_event, base_event_handling,
  handle_after_deploy_events, handle_before_deploy_events, module_event_handling,
}
use hardhat_ignition.Batcher.Levels.{IsBefore, HasNoNan}
use hardhat_ignition.Batcher.Order.{requirements}

pub data Kind : Type 0 where
  before after of_module unknown : Kind

-- What _handleEvent makes of an event type.
abbrev pub kind_of : EventType → Kind
kind_of EventType.before_compile_event = Kind.before
kind_of EventType.after_compile_event = Kind.before
kind_of EventType.before_deploy_event = Kind.before
kind_of EventType.after_deploy_event = Kind.after
kind_of EventType.on_change_event = Kind.after
kind_of EventType.deploy = Kind.unknown
kind_of _ = Kind.of_module

-- What a module state from the resolver grants to an event: what a later event needs is planned
-- already, and what an earlier one depends on is not.
abbrev pub EventFits : Kind → Event → (seen bound : List String) → Type 0
EventFits Kind.after (contract_event e) seen bound = All (λ x. In x bound) (requirements e)
EventFits Kind.before (contract_event e) seen bound =
    All (λ x. ¬ In x seen) e.deps × All (λ x. ¬ In x seen) e.event_deps
EventFits Kind.of_module event seen bound = Unit
EventFits _ _ seen bound = ⊥

abbrev pub bind_event : Kind → String → List String → List String
bind_event Kind.of_module name bound = bound
bind_event _ name bound = name ∷ bound

-- The elements have names of their own, a contract comes behind the contracts among its arguments, and
-- each event fits. `seen` are the names before, `bound` those of them that have a batch.
abbrev pub IsOrdered : ModuleState → (seen bound : List String) → ModuleState → Type 0
IsOrdered state seen bound [] = Unit
IsOrdered state seen bound ((_, Element.contract b) ∷ rest) =
    (¬ In b.name seen)
    × All (λ n. In n bound × ((el : Element) × (lookup n state ≡ some el))) (contract_refs b.args)
    × IsOrdered state (b.name ∷ seen) (b.name ∷ bound) rest
IsOrdered state seen bound ((_, Element.event e) ∷ rest) =
    (¬ In (event_name e.event) seen)
    × EventFits (kind_of (event_type_of e.event)) e.event seen bound
    × IsOrdered state (event_name e.event ∷ seen)
        (bind_event (kind_of (event_type_of e.event)) (event_name e.event) bound) rest

pub record Inv (seen bound : List String) (p : Plan) : Type 0 where
  pub known : (x : String) (b : BatchNumber) → lookup x p.numbers ≡ some b → In x seen
  pub numbered : (x : String) → In x bound → (m : ℕ) × (lookup x p.numbers ≡ some (at m))
  pub clean : HasNoNan p.numbers
  pub inside : (x : String) (m : ℕ) → lookup x p.numbers ≡ some (at m) → m < length p.batches

abbrev pub Extends : Plan → Plan → Type 0
Extends p p' =
    (x : String) (b : BatchNumber) → lookup x p.numbers ≡ some b → lookup x p'.numbers ≡ some b

pub length-push_at :
    (n : ℕ) (el : Element) (bs : Batches)
    → (length bs ≤ length (push_at n el bs)) × (n < length (push_at n el bs))
unfolding push_at
length-push_at zero el [] = omega arith
length-push_at zero el (b ∷ bs) = omega arith
length-push_at (suc n) el [] = omega (arith, length-push_at n el [])
length-push_at (suc n) el (b ∷ bs) = omega (arith, length-push_at n el bs)

pub not-known :
    {seen bound : List String} {p : Plan} (x : String)
    → Inv seen bound p
    → ¬ In x seen
    → lookup x p.numbers ≡ none
not-known {seen} {bound} {p} x v fresh = elim (Option-cases (lookup x p.numbers)) [
  | inl e ↦ e
  | inr (b, e) ↦ absurd (fresh (v.known x b e))
]

module _ {seen bound : List String} (p : Plan) (v : Inv seen bound p) (n : ℕ) (el : Element)
    (name : String) (fresh : ¬ In name seen) where
  pub place-Inv : Inv (name ∷ seen) (name ∷ bound) (place (at n) el name p)
  unfolding place
  place-Inv = record {
    known = λ x b e. elim (name_dec name x) [
      | yes q ↦ inl q
      | no q ↦ inr (v.known x b (ground (arith, lookup-insert name x (at n) p.numbers)))
    ];
    numbered = numbered;
    clean = λ x e. ground (arith, lookup-insert name x (at n) p.numbers, v.clean x);
    inside = λ x m e.
        ground (
          arith,
          lookup-insert name x (at n) p.numbers,
          v.inside x m,
          length-push_at n el p.batches,
        );
  }
    where
      numbered :
          (x : String)
          → In x (name ∷ bound)
          → (m : ℕ) × (lookup x (insert name (at n) p.numbers) ≡ some (at m))
      numbered x i = elim (name_dec name x) [
        | yes q ↦ (n, ground (arith, lookup-insert name x (at n) p.numbers))
        | no q ↦ elim i [
          | inl q' ↦ absurd (q q')
          | inr j ↦
              let (m, e) = v.numbered x j in
              (m, ground (arith, lookup-insert name x (at n) p.numbers))
        ]
      ]

  pub lookup-place : lookup name (place (at n) el name p).numbers ≡ some (at n)
  unfolding place
  lookup-place = lookup-insert_self name (at n) p.numbers

  pub place-Extends : Extends p (place (at n) el name p)
  unfolding place
  place-Extends x b e = elim (name_dec name x) [
    | yes q ↦ absurd (fresh (v.known name b (ground arith)))
    | no q ↦ ground (arith, lookup-insert name x (at n) p.numbers)
  ]

pub IsBefore-Extends :
    (p p' : Plan)
    → Extends p p'
    → (n : ℕ) (xs : List String) → All (IsBefore p.numbers n) xs
    → All (IsBefore p'.numbers n) xs
IsBefore-Extends p p' ext n xs =
    All-map (IsBefore p.numbers n) (IsBefore p'.numbers n) xs
      (λ x (m, e, l). (m, ext x (at m) e, l))

-- Where an event that runs after deployment stands in the end.
abbrev pub EventStands : Kind → Event → Plan → Type 0
EventStands Kind.after (contract_event e) p =
    (n : ℕ) × (lookup e.name p.numbers ≡ some (at n)) × All (IsBefore p.numbers n) (requirements e)
EventStands _ _ p = Unit

abbrev pub EventStep : Kind → StatefulEvent → (seen bound : List String) → Plan → Type 0
EventStep k e seen bound p =
    (p' : Plan) × (handle_event e.event e p ≡ ok p')
    × Inv (event_name e.event ∷ seen) (bind_event k (event_name e.event) bound) p'
    × Extends p p'
    × EventStands k e.event p'

pub handle_after :
    (event : Event) (e : StatefulEvent) (p : Plan)
    → kind_of (event_type_of event) ≡ Kind.after
    → handle_event event e p ≡ handle_after_deploy_events event e p
unfolding handle_event base_event_handling
handle_after event e p h = ground arith

pub handle_before :
    (event : Event) (e : StatefulEvent) (p : Plan)
    → kind_of (event_type_of event) ≡ Kind.before
    → handle_event event e p ≡ handle_before_deploy_events event e p
unfolding handle_event base_event_handling
handle_before event e p h = ground arith

pub handle_module :
    (event : Event) (e : StatefulEvent) (p : Plan)
    → kind_of (event_type_of event) ≡ Kind.of_module
    → handle_event event e p ≡ ok (module_event_handling e p)
unfolding handle_event base_event_handling
handle_module event e p h = ground arith
