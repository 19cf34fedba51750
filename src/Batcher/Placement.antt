-- ===== src/Batcher/Placement.antt =====
-- Batcher: what a placement does to the batches, and the invariant that ties `elementsBatches` to the
-- array of batches.
use hardhat_ignition.Prelude.{
  subst, ◌+◌, In-append_left, In-append_last, ℕ, zero, suc, ◌≡◌, refl, String, some, List, [], ◌∷◌,
  ◌++◌, or_else, lookup, lookup-insert, name_dec, ite, if_pos, if_neg, ℕ_discrete, In, arith,
}
use hardhat_ignition.Types.{
  >>=-eq-ok, ok, Result, event_name, StatefulEvent, Event, EventType, event_type_of, Element,
  event_name,
}
use hardhat_ignition.Batcher.{
  batch_before, deepest_dep, usage_and_dep, handle_after_deploy_events, handle_before_deploy_events,
  handle_event, module_event_handling, base_event_handling, BatchNumber, at, nan, Batches, Plan,
  push_at, place,
}

-- The elements of a batch: none in a hole or past the end.
unfoldable pub batch_at : ℕ → Batches → List Element
batch_at n [] = []
batch_at zero (b ∷ bs) = or_else b []
batch_at (suc n) (b ∷ bs) = batch_at n bs

-- A push adds the element at the end of its batch, and leaves the others alone.
pub batch_at-push_at :
    (n m : ℕ) (el : Element) (bs : Batches)
    → batch_at m (push_at n el bs) ≡ ite (ℕ_discrete n m) (batch_at m bs ++ el ∷ []) (batch_at m bs)
unfolding batch_at push_at
batch_at-push_at zero zero el [] = ground arith
batch_at-push_at zero zero el (b ∷ bs) = ground arith
batch_at-push_at zero (suc m) el [] = ground arith
batch_at-push_at zero (suc m) el (b ∷ bs) = ground arith
batch_at-push_at (suc n) zero el [] = ground arith
batch_at-push_at (suc n) zero el (b ∷ bs) = ground arith
batch_at-push_at (suc n) (suc m) el [] = ground (arith, batch_at-push_at n m el [])
batch_at-push_at (suc n) (suc m) el (b ∷ bs) = ground (arith, batch_at-push_at n m el bs)

abbrev pub element_name : Element → String
element_name (Element.contract b) = b.name
element_name (Element.event e) = event_name e.event

-- The batch that is recorded for a name holds an element of that name.
abbrev pub IsPlaced : Plan → Type 0
IsPlaced p =
    (x : String) (n : ℕ)
    → lookup x p.numbers ≡ some (at n)
    → (el : Element) × In el (batch_at n p.batches) × (element_name el ≡ x)

In-push_at :
    (n m : ℕ) (el a : Element) (bs : Batches)
    → In a (batch_at m bs)
    → In a (batch_at m (push_at n el bs))
In-push_at n m el a bs h = rw (batch_at-push_at n m el bs) (elim (ℕ_discrete n m) [
  | yes e ↦ rw (if_pos _ e) (In-append_left a _ _ h)
  | no e ↦ rw (if_neg _ e) h
])

In-push_at_self : (n : ℕ) (el : Element) (bs : Batches) → In el (batch_at n (push_at n el bs))
In-push_at_self n el bs =
    rw (batch_at-push_at n n el bs, if_pos (ℕ_discrete n n) refl) (In-append_last el _)

pub place-IsPlaced :
    (b : BatchNumber) (el : Element) (p : Plan)
    → IsPlaced p
    → IsPlaced (place b el (element_name el) p)
unfolding place
place-IsPlaced (at n) el p h x m e = elim (name_dec (element_name el) x) [
  | yes q ↦
      let k : n ≡ m = ground (arith, lookup-insert (element_name el) x (at n) p.numbers) in
      (el, rw (← k) (In-push_at_self n el p.batches), q)
  | no q ↦
      let (a, i, r) = h x m (ground (arith, lookup-insert (element_name el) x (at n) p.numbers)) in
      (a, In-push_at n m el a p.batches i, r)
]
place-IsPlaced nan el p h x m e =
    h x m (ground (arith, lookup-insert (element_name el) x nan p.numbers))

-- Both kinds of contract event end in one placement of the event under its name.
after_deploy_places :
    (event : Event) (element : StatefulEvent) (p : Plan) {p' : Plan}
    → handle_after_deploy_events event element p ≡ ok p'
    → (b : BatchNumber) × (p' ≡ place b (Element.event element) (event_name event) p)
unfolding handle_after_deploy_events
after_deploy_places event element p h =
    let (d, _, e) = >>=-eq-ok (deepest_dep event p.numbers) _ h in (at (d + 1), cc)

before_deploy_places :
    (event : Event) (element : StatefulEvent) (p : Plan) {p' : Plan}
    → handle_before_deploy_events event element p ≡ ok p'
    → (b : BatchNumber) × (p' ≡ place b (Element.event element) (event_name event) p)
unfolding handle_before_deploy_events
before_deploy_places event element p h =
    let ((d, s), _, e) = >>=-eq-ok (usage_and_dep event p) _ h in
    (at (batch_before d s), ground arith)

abbrev Keeps : StatefulEvent → Plan → Result Plan → Type 0
Keeps element p r = (p' : Plan) → r ≡ ok p' → IsPlaced p'

module _ (element : StatefulEvent) (p : Plan) (h : IsPlaced p) where
  IsPlaced-keeps :
      {r : Plan}
      → (b : BatchNumber) × (r ≡ place b (Element.event element) (event_name element.event) p)
      → IsPlaced r
  IsPlaced-keeps (b, e) = rw e (place-IsPlaced b (Element.event element) p h)

  after_deploy-IsPlaced : Keeps element p (handle_after_deploy_events element.event element p)
  after_deploy-IsPlaced p' e = IsPlaced-keeps (after_deploy_places element.event element p e)

  before_deploy-IsPlaced : Keeps element p (handle_before_deploy_events element.event element p)
  before_deploy-IsPlaced p' e = IsPlaced-keeps (before_deploy_places element.event element p e)

  module_event-IsPlaced : IsPlaced (module_event_handling element p)
  unfolding module_event_handling
  module_event-IsPlaced x n e =
      let (a, i, q) = h x n e in (a, In-push_at 0 n (Element.event element) a p.batches i, q)

  -- Entering an event keeps that every numbered element stands in the batch of its number, whatever the type
  -- of the event.
  pub handle_event-IsPlaced : Keeps element p (handle_event element.event element p)
  unfolding handle_event base_event_handling
  handle_event-IsPlaced p' e = go (event_type_of element.event) refl
    where
      module_case : ok (module_event_handling element p) ≡ ok p' → IsPlaced p'
      module_case q =
          let r : module_event_handling element p ≡ p' = cc in
          subst IsPlaced r module_event-IsPlaced

      go : (t : EventType) → event_type_of element.event ≡ t → IsPlaced p'
      go EventType.after_deploy_event q = after_deploy-IsPlaced p' (ground arith)
      go EventType.on_change_event q = after_deploy-IsPlaced p' (ground arith)
      go EventType.before_compile_event q = before_deploy-IsPlaced p' (ground arith)
      go EventType.before_deploy_event q = before_deploy-IsPlaced p' (ground arith)
      go EventType.after_compile_event q = before_deploy-IsPlaced p' (ground arith)
      go EventType.on_start q = module_case (ground arith)
      go EventType.on_completion q = module_case (ground arith)
      go EventType.on_fail q = module_case (ground arith)
      go EventType.on_success q = module_case (ground arith)
      go EventType.deploy q = absurd (ground arith)
