-- ===== src/Planning/Whole.antt =====
-- Planning: the batches of a whole module state, _executeParallel.
use hardhat_ignition.Prelude.{
  sym, subst, ℕ, suc, ◌≡◌, ◌≢◌, refl, String, false, none, some, List, [], ◌∷◌, lookup,
  lookup-insert, lookup-insert_self, All, All-map, In, arith,
}
use hardhat_ignition.Types.{
  Value, contract_refs, ContractBinding, Element, Event, contract_event, module_event,
  meta_data_event, event_type_of, ModuleState, Result, ok,
}
use hardhat_ignition.Batcher.{BatchNumber, at, nan, Plan, push_at, place}
use hardhat_ignition.Batcher.Levels.{IsBefore}
use hardhat_ignition.Batcher.Order.{requirements}
use hardhat_ignition.Planning.{
  handle_contract, handle_args, handle_element, plan_elements, plan_libraries, plan_parallel,
  empty_plan,
}
use hardhat_ignition.Planning.Single.{IsReady, handle_contract_batch}
use hardhat_ignition.Planning.Ordered.{
  Kind, kind_of, IsOrdered, Inv, Extends, not-known, place-Inv, lookup-place, place-Extends,
  IsBefore-Extends, EventStands,
}
use hardhat_ignition.Planning.Events.{event_step}

-- Where an element stands in the end: a contract behind the contracts among its arguments.
abbrev pub Stands : Plan → Element → Type 0
Stands p (Element.contract b) =
    (n : ℕ) × (lookup b.name p.numbers ≡ some (at n))
    × All (IsBefore p.numbers n) (contract_refs b.args)
Stands p (Element.event e) = EventStands (kind_of (event_type_of e.event)) e.event p

EventStands-Extends :
    (p p' : Plan)
    → Extends p p'
    → (k : Kind) (event : Event) → EventStands k event p
    → EventStands k event p'
EventStands-Extends p p' ext Kind.after (contract_event e) (n, q, a) =
    (n, ext e.name (at n) q, IsBefore-Extends p p' ext n (requirements e) a)
EventStands-Extends p p' ext Kind.after (module_event e) h = tt
EventStands-Extends p p' ext Kind.after (meta_data_event e) h = tt
EventStands-Extends p p' ext Kind.before event h = tt
EventStands-Extends p p' ext Kind.of_module event h = tt
EventStands-Extends p p' ext Kind.unknown event h = tt

module _ (depth : ℕ) (state : ModuleState) where
  plan_elements_ordered :
      (rest : ModuleState) (seen bound : List String) (p : Plan)
      → Inv seen bound p
      → IsOrdered state seen bound rest
      → (p' : Plan) × (plan_elements (suc depth) state (at 0) rest p ≡ ok p')
        × Extends p p'
        × All (λ entry. Stands p' entry.1) rest
  unfolding plan_elements handle_element
  plan_elements_ordered [] seen bound p v h = (p, refl, (λ x b q. q), tt)
  plan_elements_ordered ((_, Element.contract b) ∷ rest) seen bound p v (fresh, args, h) =
      let ready =
        All-map (λ n. In n bound × ((el : Element) × (lookup n state ≡ some el))) (IsReady state p)
          (contract_refs b.args) (λ x (i, found). (found, v.numbered x i)) args in
      let (n, q, _, a) = handle_contract_batch depth state 0 b p (not-known b.name v fresh) ready in
      let p₁ = place (at n) (Element.contract b) b.name p in
      let ext = place-Extends p v n (Element.contract b) b.name fresh in
      let (p', r, ext', s) =
        plan_elements_ordered rest (b.name ∷ seen) (b.name ∷ bound) p₁
          (place-Inv p v n (Element.contract b) b.name fresh) h in
      (
        p',
        rw q r,
        (λ x c t. ext' x c (ext x c t)),
        (
          (
            n,
            ext' b.name (at n) (lookup-place p v n (Element.contract b) b.name fresh),
            IsBefore-Extends p p' (λ x c t. ext' x c (ext x c t)) n (contract_refs b.args) a,
          ),
          s,
        ),
      )
  plan_elements_ordered ((_, Element.event e) ∷ rest) seen bound p v (fresh, fits, h) =
      let (p₁, q, v₁, ext, st) =
        event_step e seen bound p v fresh (kind_of (event_type_of e.event)) refl e.event refl
          fits in
      let (p', r, ext', s) = plan_elements_ordered rest _ _ p₁ v₁ h in
      (
        p',
        rw q r,
        (λ x c t. ext' x c (ext x c t)),
        (EventStands-Extends p₁ p' ext' (kind_of (event_type_of e.event)) e.event st, s),
      )

abbrev pub IsNoLibrary : Element → Type 0
IsNoLibrary (Element.contract b) = b.library ≡ false
IsNoLibrary (Element.event e) = Unit

plan_libraries_none :
    (depth : ℕ) (state rest : ModuleState) (p : Plan)
    → All (λ entry. IsNoLibrary entry.1) rest
    → plan_libraries depth state rest (p, false) ≡ ok (p, false)
unfolding plan_libraries
plan_libraries_none depth state [] p h = refl
plan_libraries_none depth state ((_, Element.contract b) ∷ rest) p (q, h) =
    rw q (plan_libraries_none depth state rest p h)
plan_libraries_none depth state ((_, Element.event e) ∷ rest) p (q, h) =
    plan_libraries_none depth state rest p h

empty_plan-Inv : Inv [] [] empty_plan
unfolding lookup
empty_plan-Inv = record {
  known = λ x b e. cc;
  numbered = λ x i. elim i [ ];
  clean = λ x e. cc;
  inside = λ x m e. cc;
}

-- A module state is planned, whatever the depth of calls, if it has no libraries, each element has a name of its own
-- and an event type that the executor knows, each contract stands behind the contracts among its arguments, which the state has under their names, each
-- event that runs after a deployment or on a change is the event of a contract and stands behind all that it depends on
-- or uses, none of which is a module event, and each event that runs before a deployment or around a
-- compilation is the event of a contract and stands before all that it depends on. In the plan each contract lies in a batch behind
-- those of all contracts among its arguments, and each event that runs after a deployment or on a change behind those of all
-- that it depends on or uses.
pub plan_parallel_ordered :
    (depth : ℕ) (state : ModuleState)
    → All (λ entry. IsNoLibrary entry.1) state
    → IsOrdered state [] [] state
    → (p : Plan) × (plan_parallel (suc depth) state ≡ ok p) × All (λ entry. Stands p entry.1) state
unfolding plan_parallel
plan_parallel_ordered depth state no_library ordered =
    let (p, q, _, s) =
      plan_elements_ordered depth state state [] [] empty_plan empty_plan-Inv ordered in
    (p, rw (plan_libraries_none (suc depth) state state empty_plan no_library) q, s)

-- A library whose one argument is another contract, without arguments, where neither has a batch yet: planning it
-- puts the argument into batch 0 and gives the library the batch NaN, so that the batches of the array have
-- the argument as their only new element, and not the library.
pub library_argument_is_lost :
    (depth : ℕ) (state : ModuleState) (b c : ContractBinding) (p : Plan)
    → b.args ≡ Value.binding c.name ∷ []
    → c.args ≡ []
    → c.name ≢ b.name
    → lookup c.name state ≡ some (Element.contract c)
    → lookup b.name p.numbers ≡ none
    → lookup c.name p.numbers ≡ none
    → (p' : Plan) × (handle_element (suc (suc depth)) state (at 0) (Element.contract b) p ≡ ok p')
      × (lookup b.name p'.numbers ≡ some nan)
      × (p'.batches ≡ push_at 0 (Element.contract c) p.batches)
unfolding handle_element handle_contract handle_args place
library_argument_is_lost depth state b c p args cargs ne found new cnew =
    (place nan (Element.contract b) b.name p₁, run, lookup-insert_self b.name nan p₁.numbers, refl)
  where
    p₁ : Plan
    p₁ = place (at 0) (Element.contract c) c.name p

    inner : handle_contract (handle_element depth state) state (at 0) c p ≡ ok p₁
    inner = rw (cnew, handle_contract, cargs)

    unnumbered : lookup b.name p₁.numbers ≡ none
    unnumbered = ground (arith, lookup-insert c.name b.name (at 0) p.numbers)

    again : BatchNumber → Element → Plan → Result Plan
    again = handle_element (suc depth) state

    loop : handle_args again state b.name (Value.binding c.name ∷ []) (at 0) p ≡ ok (nan, p₁)
    loop = rw (found, cnew, handle_args, inner, unnumbered)

    loop' : handle_args again state b.name b.args (at 0) p ≡ ok (nan, p₁)
    loop' =
        subst (λ args'. handle_args again state b.name args' (at 0) p ≡ ok (nan, p₁)) (sym args)
          loop

    run :
        handle_element (suc (suc depth)) state (at 0) (Element.contract b) p
        ≡ ok (place nan (Element.contract b) b.name p₁)
    run = rw (new, handle_contract, loop')
