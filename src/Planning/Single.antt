-- ===== src/Planning/Single.antt =====
-- Planning: _handleElement on one contract.
use hardhat_ignition.Prelude.{
  ℕ, zero, suc, ◌+◌, ◌≤◌, ◌<◌, ◌≡◌, inl, inr, refl, String, none, some, List, [], ◌∷◌, ltb,
  if◌then◌else◌, lookup, All, arith, subst, Option-cases,
}
use hardhat_ignition.Types.{
  Value, binding, meta_data, contract_ref, contract_refs, ContractBinding, Element, ModuleState,
  Result, ok, >>=-eq-ok,
}
use hardhat_ignition.Batcher.{BatchNumber, at, Plan, place}
use hardhat_ignition.Batcher.Levels.{IsBefore}
use hardhat_ignition.Batcher.Placement.{IsPlaced, place-IsPlaced, handle_event-IsPlaced}
use hardhat_ignition.Planning.{later, handle_args, handle_contract, handle_element}

-- A contract argument that is in the module state, and has a batch.
abbrev pub IsReady : ModuleState → Plan → String → Type 0
IsReady state p n =
    ((el : Element) × (lookup n state ≡ some el)) × ((m : ℕ) × (lookup n p.numbers ≡ some (at m)))

-- The batch behind both: `Math.max(c, m + 1)`.
abbrev past : ℕ → ℕ → ℕ
past c m = if ltb c (m + 1) then m + 1 else c

past_bounds : (c m : ℕ) → (c ≤ past c m) × (m < past c m)
past_bounds c m = ground arith

-- If all contract arguments are ready, the loop makes no call, and ends behind the batches of all.
abbrev ReadyResult : Plan → ℕ → List String → Result (BatchNumber × Plan) → Type 0
ReadyResult p c refs r = (n : ℕ) × (r ≡ ok (at n, p)) × (c ≤ n) × All (IsBefore p.numbers n) refs

pub handle_args_ready :
    (again : BatchNumber → Element → Plan → Result Plan) (state : ModuleState) (name : String)
    (args : List Value) (c : ℕ) (p : Plan)
    → All (IsReady state p) (contract_refs args)
    → ReadyResult p c (contract_refs args) (handle_args again state name args (at c) p)
unfolding handle_args
handle_args_ready again state name [] c p h = (c, refl, omega arith, tt)
handle_args_ready again state name (binding x ∷ args) c p (((el, q), (m, r)), rest) =
    let (n, e, l, a) = handle_args_ready again state name args (past c m) p rest in
    (
      n,
      rw (q, r, handle_args) e,
      omega (arith, past_bounds c m),
      ((m, r, omega (arith, past_bounds c m)), a),
    )
handle_args_ready again state name (meta_data x ∷ args) c p (((el, q), (m, r)), rest) =
    let (n, e, l, a) = handle_args_ready again state name args (past c m) p rest in
    (
      n,
      rw (q, r, handle_args) e,
      omega (arith, past_bounds c m),
      ((m, r, omega (arith, past_bounds c m)), a),
    )
handle_args_ready again state name (_ ∷ args) c p h = handle_args_ready again state name args c p h

-- A contract whose contract arguments all are in the module state and have a batch gets a batch at or
-- behind the given one, and behind the batch of each argument. No call is needed for that, so the
-- depth does not matter, and nothing else changes.
pub handle_contract_batch :
    (depth : ℕ) (state : ModuleState) (c : ℕ) (b : ContractBinding) (p : Plan)
    → lookup b.name p.numbers ≡ none
    → All (IsReady state p) (contract_refs b.args)
    → (n : ℕ) × (handle_element (suc depth) state (at c) (Element.contract b) p
        ≡ ok (place (at n) (Element.contract b) b.name p))
      × (c ≤ n)
      × All (IsBefore p.numbers n) (contract_refs b.args)
unfolding handle_element handle_contract
handle_contract_batch depth state c b p new ready =
    let (n, e, l, a) =
      handle_args_ready (handle_element depth state) state b.name b.args c p ready in
    (n, rw (new, handle_contract, e), l, a)

-- _handleElement keeps the ties between `elementsBatches` and the batches, at any depth.
module _ (state : ModuleState) where
  abbrev KeepsPlaced : (BatchNumber → Element → Plan → Result Plan) → Type 0
  KeepsPlaced f =
      (b : BatchNumber) (el : Element) (p p' : Plan) → IsPlaced p → f b el p ≡ ok p' → IsPlaced p'

  handle_args-IsPlaced :
      (again : BatchNumber → Element → Plan → Result Plan)
      → KeepsPlaced again
      → (name : String) (args : List Value) (c : BatchNumber) (p : Plan) (r : BatchNumber × Plan)
      → IsPlaced p
      → handle_args again state name args c p ≡ ok r
      → IsPlaced r.1
  unfolding handle_args
  handle_args-IsPlaced again keeps name [] c p r h e = let q : p ≡ r.1 = cc in subst IsPlaced q h
  handle_args-IsPlaced again keeps name (arg ∷ args) c p r h e =
      elim (Option-cases (contract_ref arg)) [
        | inl q ↦ handle_args-IsPlaced again keeps name args c p r h (rw (q, handle_args) at e)
        | inr (n, q) ↦ elim (Option-cases (lookup n state)) [
          | inl s ↦ absurd (ground arith)
          | inr (el, s) ↦ elim (Option-cases (lookup n p.numbers)) [
            | inr (b, t) ↦
                handle_args-IsPlaced again keeps name args (later c b) p r h
                  (rw (q, s, t, handle_args) at e)
            | inl t ↦
                let (p', u, v) = >>=-eq-ok (again c el p) _ (rw (q, s, t, handle_args) at e) in
                handle_args-IsPlaced again keeps name args _ p' r (keeps c el p p' h u) v
          ]
        ]
      ]

  -- Handling an element, with all the calls for its arguments and at any depth of them, keeps that every
  -- numbered element stands in the batch of its number.
  pub handle_element-IsPlaced : (depth : ℕ) → KeepsPlaced (handle_element depth state)
  unfolding handle_element handle_contract
  handle_element-IsPlaced zero c el p p' h e = cc
  handle_element-IsPlaced (suc depth) c (Element.event el) p p' h e =
      handle_event-IsPlaced el p h p' e
  handle_element-IsPlaced (suc depth) c (Element.contract b) p p' h e =
      elim (Option-cases (lookup b.name p.numbers)) [
        | inr (n, q) ↦ let r : p ≡ p' = ground arith in subst IsPlaced r h
        | inl q ↦
            let ((last, p₁), u, v) =
              >>=-eq-ok (handle_args (handle_element depth state) state b.name b.args c p) _
                (rw (q, handle_contract) at e) in
            let r : place last (Element.contract b) b.name p₁ ≡ p' = cc in
            subst IsPlaced r (
              place-IsPlaced last (Element.contract b) p₁ (
                handle_args-IsPlaced (handle_element depth state) (handle_element-IsPlaced depth)
                  b.name b.args c p (last, p₁) h u))
      ]
