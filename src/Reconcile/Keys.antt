-- ===== src/Reconcile/Keys.antt =====
-- Reconcile: the result has the elements of the module, in their order.
use hardhat_ignition.Prelude.{
  ◌≡◌, ◌≢◌, ◌∙◌, inl, inr, refl, sym, ap, subst, ℕ, ◌==◌, true, false, Option, none, List, [], ◌∷◌,
  ◌++◌, String, All, Dict, lookup, insert, keys, lookup-insert_ne, keys-insert_new, name_dec,
  dec_test, if◌then◌else◌, Bool-cases, Option-cases,
}
use hardhat_ignition.Types.{
  Text, event_name, event_type_of, StatefulEvent, ContractBinding, ContractBindingMetaData, Element,
  FileElement, ModuleState, ModuleStateFile, Result-cases, ok-injective, ok, err, or_fail, ◌>>=◌,
  >>=-eq-ok, type_error, module_state_mismatch, element_name_mismatch, event_type_mismatch,
}
use hardhat_ignition.Reconcile.{
  Reconciliation, Source, Answers, in_file, add_resolved, set_element, is_missing, is_true,
  ask_network, probe, must_deploy, take_over, known_contract, type_code, known_event, new_element,
  reconcile_element, reconcile_all, start_with, invalidate_dependant,
}
use hardhat_ignition.Reconcile.Invalidation.{Only, invalidate_dependant-Only}

-- One element is added to the result.
unfoldable pub Adds : String → Reconciliation → Reconciliation → Type 0
Adds name st st' = (source : Source) × (st'.resolved ≡ insert name source st.resolved)

pub ask_network-resolved :
    (answers : Answers) (code : Option Text) (st st' : Reconciliation)
    → ask_network answers code st ≡ ok st'
    → st'.resolved ≡ st.resolved
unfolding ask_network
ask_network-resolved answers code st st' h = elim (Bool-cases (is_missing code)) [
  | inr f ↦ ap (λ z. z.resolved) (sym (ok-injective (rw f at h)))
  | inl t ↦ elim (Result-cases answers.wrong_network) [
    | inl (a, e) ↦ ap (λ z. z.resolved) (sym (ok-injective (rw (t, e) at h)))
    | inr (x, e) ↦ absurd (let q : err x ≡ ok st' = rw (t, e) at h in cc)
  ]
]

pub probe-resolved :
    (answers : Answers) (old : ContractBindingMetaData) (st st' : Reconciliation)
    → probe answers old st ≡ ok st'
    → st'.resolved ≡ st.resolved
unfolding probe
probe-resolved answers old st st' h = elim (Option-cases st.always) [
  | inr (a, e) ↦ ap (λ z. z.resolved) (sym (ok-injective (rw (e, probe) at h)))
  | inl e ↦ elim (Option-cases old.deploy_meta_data.contract_address) [
    | inl n ↦ ap (λ z. z.resolved) (sym (ok-injective (rw (e, n, probe) at h)))
    | inr (a, n) ↦ elim (Result-cases (answers.get_code a)) [
      | inl (code, c) ↦ ask_network-resolved answers code st st' (rw (e, n, c, probe) at h)
      | inr (x, c) ↦ absurd (let q : err x ≡ ok st' = rw (e, n, c, probe) at h in cc)
    ]
  ]
]

Only-resolved : (st st' : Reconciliation) → Only st st' → st'.resolved ≡ st.resolved
unfolding Only
Only-resolved st st' (o, p) = ap (λ z. z.resolved) p

known_contract-Adds :
    (depth : ℕ) (answers : Answers) (name : String) (old : ContractBindingMetaData)
    (b : ContractBinding) (st st' : Reconciliation)
    → known_contract depth answers name old b st ≡ ok st'
    → Adds name st st'
unfolding known_contract Adds
known_contract-Adds depth answers name old b st st' h =
    let wired : ContractBinding = record b { wired = true } in
    let (s, p, q) =
      >>=-eq-ok (probe answers old st)
        (λ s. must_deploy answers s.always old b >>= (λ deploy.
          if deploy
          then invalidate_dependant depth wired
              (add_resolved name Source.own (set_element name (Element.contract wired) s))
          else ok (
              add_resolved name Source.taken
                (set_element name (Element.contract (take_over old b)) s))))
        h in
    let r = probe-resolved answers old st s p in
    elim (Result-cases (must_deploy answers s.always old b)) [
      | inr (x, e) ↦ absurd (let z : err x ≡ ok st' = rw e at q in cc)
      | inl (true, e) ↦ (
        Source.own,
        Only-resolved (add_resolved name Source.own (set_element name (Element.contract wired) s))
              st' (invalidate_dependant-Only depth wired _ st' (rw e at q))
            ∙ ap (insert name Source.own) r,
      )
      | inl (false, e) ↦ (
        Source.taken,
        ap (λ z. z.resolved) (sym (ok-injective (rw e at q))) ∙ ap (insert name Source.taken) r,
      )
    ]

known_event-Adds :
    (name : String) (old e : StatefulEvent) (st st' : Reconciliation)
    → known_event name old e st ≡ ok st'
    → Adds name st st'
unfolding known_event Adds
known_event-Adds name old e st st' h =
    elim (Bool-cases (dec_test (name_dec (event_name old.event) (event_name e.event)))) [
      | inr f ↦ absurd (let q : err element_name_mismatch ≡ ok st' = rw f at h in cc)
      | inl t ↦
          elim (Bool-cases
            (type_code (event_type_of old.event) == type_code (event_type_of e.event))) [
              | inr f ↦ absurd (let q : err event_type_mismatch ≡ ok st' = rw (t, f) at h in cc)
              | inl u ↦
                  (Source.stored_event, ap (λ z. z.resolved) (sym (ok-injective (rw (t, u) at h))))
            ]
    ]

new_element-Adds :
    (name : String) (e : Element) (st : Reconciliation) → Adds name st (new_element name e st)
unfolding new_element Adds
new_element-Adds name (Element.contract b) st = (Source.own, refl)
new_element-Adds name (Element.event e) st = (Source.new_event, refl)

reconcile_element-Adds :
    (depth : ℕ) (answers : Answers) (name : String) (e : Element) (st st' : Reconciliation)
    → reconcile_element depth answers name e st ≡ ok st'
    → Adds name st st'
unfolding reconcile_element
reconcile_element-Adds depth answers name (Element.contract b) st st' h =
    elim (Option-cases (in_file st name)) [
      | inl e ↦
          subst (Adds name st) (ok-injective (rw (e, reconcile_element) at h))
            (new_element-Adds name (Element.contract b) st)
      | inr (FileElement.contract old, e) ↦
          known_contract-Adds depth answers name old b st st' (rw (e, reconcile_element) at h)
      | inr (FileElement.event old, e) ↦ elim (Bool-cases (is_true st.always)) [
        | inl t ↦
            subst (Adds name st) (ok-injective (rw (e, t, reconcile_element) at h))
              (new_element-Adds name (Element.contract b) st)
        | inr f ↦ absurd (let q : err type_error ≡ ok st' = rw (e, f, reconcile_element) at h in cc)
      ]
    ]
reconcile_element-Adds depth answers name (Element.event v) st st' h =
    elim (Option-cases (in_file st name)) [
      | inl e ↦
          subst (Adds name st) (ok-injective (rw (e, reconcile_element) at h))
            (new_element-Adds name (Element.event v) st)
      | inr (FileElement.contract old, e) ↦
          absurd (let q : err module_state_mismatch ≡ ok st' = rw (e, reconcile_element) at h in cc)
      | inr (FileElement.event old, e) ↦ elim (Bool-cases (is_true st.always)) [
        | inl t ↦
            subst (Adds name st) (ok-injective (rw (e, t, reconcile_element) at h))
              (new_element-Adds name (Element.event v) st)
        | inr f ↦ known_event-Adds name old v st st' (rw (e, f, reconcile_element) at h)
      ]
    ]

-- Names of which no two are the same.
unfoldable pub AreDistinct : List String → Type 0
AreDistinct [] = Unit
AreDistinct (x ∷ xs) = All (λ y. x ≢ y) xs × AreDistinct xs

append-assoc_one :
    (xs : List String) (x : String) (ys : List String) → (xs ++ x ∷ []) ++ ys ≡ xs ++ x ∷ ys
append-assoc_one [] x ys = refl
append-assoc_one (z ∷ zs) x ys = ap (λ l. z ∷ l) (append-assoc_one zs x ys)

still_new :
    (x : String) (source : Source) (d : Dict Source) (names : List String)
    → All (λ y. x ≢ y) names
    → All (λ n. lookup n d ≡ none) names
    → All (λ n. lookup n (insert x source d) ≡ none) names
still_new x source d [] n h = tt
still_new x source d (y ∷ ys) (n, ns) (h, hs) =
    (lookup-insert_ne x y source d n ∙ h, still_new x source d ys ns hs)

reconcile_names-keys :
    (depth : ℕ) (answers : Answers) (names : List String) (st st' : Reconciliation)
    → AreDistinct names
    → All (λ n. lookup n st.resolved ≡ none) names
    → reconcile_all depth answers names st ≡ ok st'
    → keys st'.resolved ≡ keys st.resolved ++ names
unfolding reconcile_all AreDistinct Adds
reconcile_names-keys depth answers [] st st' d n h =
    ap (λ z. keys z.resolved) (sym (ok-injective h)) ∙ append_nil (keys st.resolved)
  where
    append_nil : (xs : List String) → xs ≡ xs ++ []
    append_nil [] = refl
    append_nil (x ∷ xs) = ap (λ l. x ∷ l) (append_nil xs)
reconcile_names-keys depth answers (x ∷ xs) st st' (d, ds) (n, ns) h =
    let (e, p, q) =
      >>=-eq-ok (or_fail (lookup x st.live) type_error)
        (λ e. reconcile_element depth answers x e st >>= (λ s. reconcile_all depth answers xs s))
        h in
    let (s, p2, q2) =
      >>=-eq-ok (reconcile_element depth answers x e st) (λ s. reconcile_all depth answers xs s)
        q in
    let (source, r) = reconcile_element-Adds depth answers x e st s p2 in
    reconcile_names-keys depth answers xs s st' ds
      (subst (λ m. All (λ y. lookup y m ≡ none) xs) (sym r)
        (still_new x source st.resolved xs d ns))
      q2
    ∙ (ap (λ m. keys m ++ xs) r
        ∙ (ap (λ l. l ++ xs) (keys-insert_new x source st.resolved n)
            ∙ append-assoc_one (keys st.resolved) x xs))

none_resolved : (names : List String) → All (λ n. lookup {V = Source} n [] ≡ none) names
unfolding lookup
none_resolved [] = tt
none_resolved (x ∷ xs) = (refl, none_resolved xs)

-- Where the comparison with a state file succeeds, for elements with distinct names, its result has exactly these
-- elements, in their order, whatever the file has and the network, the user and `shouldRedeploy` answer.
pub reconcile_all-keys :
    (depth : ℕ) (answers : Answers) (elements : ModuleState) (file : ModuleStateFile)
    (st' : Reconciliation)
    → AreDistinct (keys elements)
    → reconcile_all depth answers (keys elements) (start_with elements file) ≡ ok st'
    → keys st'.resolved ≡ keys elements
reconcile_all-keys depth answers elements file st' d h =
    reconcile_names-keys depth answers (keys elements) (start_with elements file) st' d
      (none_resolved (keys elements)) h
