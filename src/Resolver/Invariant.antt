-- ===== src/Resolver/Invariant.antt =====
-- Resolver: the order among the elements of a module state, and that an entry keeps it.
use hardhat_ignition.Prelude.{
  ◌≡◌, ◌⊎◌, inl, inr, sym, subst, String, Bool, true, false, none, some, List, [], ◌∷◌, ◌++◌, Dict,
  lookup, insert, keys, or_else, All, All-map, name_dec, if_pos, if_neg, arith,
}
use hardhat_ignition.Types.{
  EventType, ModuleEvent, event_type_of, StatefulEvent, deps_of, event_deps_of, usage_of,
  contract_refs, ContractBinding, Bindings, Events,
}
use hardhat_ignition.Resolver.{Slot, Slot.contract, Slot.event, Resolution, add_slot, spec_deps}

-- The events that run behind what they depend on.
abbrev pub is_after : EventType → Bool
is_after EventType.after_deploy_event = true
is_after EventType.on_change_event = true
is_after _ = false

-- All that a contract needs: the contracts among its arguments, its libraries and the dependencies of its
-- own deploy function.
abbrev pub contract_needs : ContractBinding → List String
contract_needs b =
    contract_refs b.args
    ++ (keys (or_else b.libraries []) ++ spec_deps b.deploy_meta_data.deployment_spec)

abbrev pub IsResolved : Resolution → String → Type 0
IsResolved st x = (slot : Slot) × (lookup x st.module_state ≡ some slot)

abbrev pub NothingSeen : String → Type 0
NothingSeen x = ⊥

module _ (bindings : Bindings) (events : Events) where
  abbrev pub IsBound : String → Type 0
  IsBound x = (b : ContractBinding) × (lookup x bindings ≡ some b)

  -- What stands before an element, `seen`, has all that the element needs: a contract's bound needs, and
  -- the dependencies and usages of an event that runs after them. The element is what the module
  -- has under that name.
  abbrev pub Fits : (String → Type 0) → String → Slot → Type 0
  Fits seen n contract =
      (b : ContractBinding) × (lookup n bindings ≡ some b)
      × All (λ x. IsBound x → seen x) (contract_needs b)
  Fits seen n (event e) =
      (lookup n bindings ≡ none)
      × ((e' : StatefulEvent) → lookup n events ≡ some e' → e' ≡ e)
      × (is_after (event_type_of e.event) ≡ true
          → All seen (or_else (deps_of e.event) [])
            × All seen (or_else (event_deps_of e.event) [])
            × All seen (or_else (usage_of e.event) []))

  -- Each element stands behind all that it needs.
  abbrev pub IsSorted : (String → Type 0) → Dict Slot → Type 0
  IsSorted seen [] = Unit
  IsSorted seen ((n, slot) ∷ rest) = Fits seen n slot × IsSorted (λ x. (n ≡ x) ⊎ seen x) rest

  Fits-mono :
      (P Q : String → Type 0) (n : String) (slot : Slot)
      → ((x : String) → P x → Q x)
      → Fits P n slot
      → Fits Q n slot
  Fits-mono P Q n contract f (b, e, h) = (
    b,
    e,
    All-map (λ x. IsBound x → P x) (λ x. IsBound x → Q x) (contract_needs b) (λ x g i. f x (g i)) h,
  )
  Fits-mono P Q n (event e) f (u, v, h) =
      (u, v, λ a. let (x, y, z) = h a in (All-map P Q _ f x, All-map P Q _ f y, All-map P Q _ f z))

  pub IsSorted-mono :
      (P Q : String → Type 0) (entries : Dict Slot)
      → ((x : String) → P x → Q x)
      → IsSorted P entries
      → IsSorted Q entries
  IsSorted-mono P Q [] f h = tt
  IsSorted-mono P Q ((n, slot) ∷ rest) f (a, h) = (
    Fits-mono P Q n slot f a,
    IsSorted-mono (λ x. (n ≡ x) ⊎ P x) (λ x. (n ≡ x) ⊎ Q x) rest
        (λ x. elim [ inl e ↦ inl e | inr p ↦ inr (f x p) ]) h,
  )

  abbrev pub IsIn : Dict Slot → String → Type 0
  IsIn entries x = (slot : Slot) × (lookup x entries ≡ some slot)

  pub IsSorted-insert :
      (entries : Dict Slot) (seen : String → Type 0) (n : String) (slot : Slot)
      → IsSorted seen entries
      → Fits (λ x. seen x ⊎ IsIn entries x) n slot
      → ((w : Slot) (s : String → Type 0) → Fits s n w → Fits s n slot)
      → IsSorted seen (insert n slot entries)
  unfolding insert lookup
  IsSorted-insert [] seen n slot h f same =
      (Fits-mono _ seen n slot (λ x. elim [ inl p ↦ p | inr (s, e) ↦ absurd (cc) ]) f, tt)
  IsSorted-insert ((j, w) ∷ rest) seen n slot (a, h) f same = elim (name_dec j n) [
    | yes e ↦
        rw (if_pos _ e)
          (subst (λ k. Fits seen k slot) (sym e) (same w seen (subst (λ k. Fits seen k w) e a)), h)
    | no e ↦ rw (if_neg _ e) (
      a,
      IsSorted-insert rest (λ x. (j ≡ x) ⊎ seen x) n slot h (Fits-mono _ _ n slot shift f) same,
    )
  ]
    where
      shift : (x : String) → (seen x ⊎ IsIn ((j, w) ∷ rest) x) → (((j ≡ x) ⊎ seen x) ⊎ IsIn rest x)
      shift x (inl p) = inl (inr p)
      shift x (inr (s, q)) = elim (name_dec j x) [
        | yes k ↦ inl (inl k)
        | no k ↦ inr (s, ground arith)
      ]

  abbrev pub IsGood : Resolution → Type 0
  IsGood st = IsSorted NothingSeen st.module_state

  pub add_contract-IsGood :
      (n : String) (b : ContractBinding) (st : Resolution)
      → lookup n bindings ≡ some b
      → All (λ x. IsBound x → IsResolved st x) (contract_needs b)
      → IsGood st
      → IsGood (add_slot n contract st)
  add_contract-IsGood n b st e needs good =
      IsSorted-insert st.module_state NothingSeen n contract good
        (
          b,
          e,
          All-map (λ x. IsBound x → IsResolved st x) (λ x. IsBound x → ⊥ ⊎ IsResolved st x)
              (contract_needs b) (λ x g i. inr (g i)) needs,
        )
        same
    where
      same : (w : Slot) (s : String → Type 0) → Fits s n w → Fits s n contract
      same contract s t = t
      same (event e') s (u, v, _) = absurd (ground arith)

  pub add_event-IsGood :
      (n : String) (e : StatefulEvent) (st : Resolution)
      → lookup n bindings ≡ none
      → lookup n events ≡ some e
      → (is_after (event_type_of e.event) ≡ true
          → All (IsResolved st) (or_else (deps_of e.event) [])
            × All (IsResolved st) (or_else (event_deps_of e.event) [])
            × All (IsResolved st) (or_else (usage_of e.event) []))
      → IsGood st
      → IsGood (add_slot n (event e) st)
  add_event-IsGood n e st free found needs good =
      IsSorted-insert st.module_state NothingSeen n (event e) good
        (
          free,
          (λ e' q. ground arith),
          λ a. let (x, y, z) = needs a in (lift _ x, lift _ y, lift _ z),
        )
        same
    where
      lift : (xs : List String) → All (IsResolved st) xs → All (λ x. ⊥ ⊎ IsResolved st x) xs
      lift xs = All-map (IsResolved st) (λ x. ⊥ ⊎ IsResolved st x) xs (λ x r. inr r)

      same : (w : Slot) (s : String → Type 0) → Fits s n w → Fits s n (event e)
      same contract s (b, t, _) = absurd (ground arith)
      same (event e') s f =
          let (u, v, _) = f in
          let q : e' ≡ e = sym (v e found) in subst (λ d. Fits s n (event d)) q f

  -- A module event needs nothing, and its name belongs to no contract and to no contract event.
  pub add_module_event-IsGood :
      (n : String) (e : StatefulEvent) (st : Resolution)
      → lookup n bindings ≡ none
      → lookup n events ≡ none
      → deps_of e.event ≡ none
      → event_deps_of e.event ≡ none
      → usage_of e.event ≡ none
      → IsGood st
      → IsGood (add_slot n (event e) st)
  add_module_event-IsGood n e st free unknown d ed u good =
      IsSorted-insert st.module_state NothingSeen n (event e) good
        (fits (λ x. ⊥ ⊎ IsIn st.module_state x)) (λ _ s _. fits s)
    where
      fits : (s : String → Type 0) → Fits s n (event e)
      fits s = (free, (λ e' q. absurd (ground arith)), λ _. (rw d tt, rw ed tt, rw u tt))

  -- The names of module events belong to no contract and to no contract event.
  abbrev pub AreFresh : Dict ModuleEvent → Type 0
  AreFresh module_events =
      All (λ x. (lookup x bindings ≡ none) × (lookup x events ≡ none)) (keys module_events)
