-- ===== src/Reconcile/Invalidation.antt =====
-- Reconcile: what an invalidation changes.
use hardhat_ignition.Prelude.{
  ◌≡◌, ◌∙◌, inl, inr, refl, sym, ap, subst, ℕ, zero, suc, Bool, true, false, Option, none, some,
  List, [], ◌∷◌, String, All, lookup, insert, lookup-insert_self, lookup-insert_ne, name_dec,
  if◌then◌else◌, Bool-cases, Option-cases,
}
use hardhat_ignition.Types.{
  StatefulEvent, Value, ContractBinding, FileElement, ModuleStateFile, Result, ok-injective, ok,
  err, ◌>>=◌, >>=-eq-ok, type_error, stack_overflow,
}
use hardhat_ignition.Reconcile.{
  Reconciliation, in_file, set_object, address_of, reset_event, invalidate_event, invalidate_events,
  events_in_order, forget_address, binding_of, invalidate_named, invalidate_arg, invalidate_args,
  invalidate_dependant,
}

-- Nothing but the file's objects differs.
unfoldable pub Only : Reconciliation → Reconciliation → Type 0
Only st st' = (o : ModuleStateFile) × (st' ≡ record st { objects = o })

pub Only-trans : (a b c : Reconciliation) → Only a b → Only b c → Only a c
unfolding Only
Only-trans a b c (o, p) (o', q) =
    (o', q ∙ ap {A = Reconciliation} (λ x. record x { objects = o' }) p)

Only-self : (st : Reconciliation) → Only st st
unfolding Only
Only-self st = (st.objects, refl)

invalidate_event-Only : (name : String) (st : Reconciliation) → Only st (invalidate_event name st)
unfolding invalidate_event Only
invalidate_event-Only name st = elim (Option-cases (in_file st name)) [
  | inl e ↦ rw (e, invalidate_event) (Only-self st)
  | inr (FileElement.event v, e) ↦ rw (e, invalidate_event) (_, refl)
  | inr (FileElement.contract m, e) ↦ rw (e, invalidate_event) (Only-self st)
]

invalidate_events-Only :
    (names : List String) (st : Reconciliation) → Only st (invalidate_events names st)
unfolding invalidate_events
invalidate_events-Only [] st = Only-self st
invalidate_events-Only (n ∷ ns) st =
    Only-trans st (invalidate_event n st) (invalidate_events ns (invalidate_event n st))
      (invalidate_event-Only n st) (invalidate_events-Only ns (invalidate_event n st))

forget_address-Only :
    (name : String) (st st' : Reconciliation) → forget_address name st ≡ ok st' → Only st st'
unfolding forget_address Only
forget_address-Only name st st' h = elim (Option-cases (in_file st name)) [
  | inl e ↦ absurd (let q : err type_error ≡ ok st' = rw (e, forget_address) at h in cc)
  | inr (FileElement.event v, e) ↦
      absurd (let q : err type_error ≡ ok st' = rw (e, forget_address) at h in cc)
  | inr (FileElement.contract m, e) ↦ (
    insert name
        (FileElement.contract
          (record m { deploy_meta_data = record m.deploy_meta_data { contract_address = none } }))
        st.objects,
    sym (ok-injective (rw (e, forget_address) at h)),
  )
]

-- An event that is not executed.
unfoldable pub IsPending : Option FileElement → Type 0
IsPending (some (FileElement.event e)) = e.executed ≡ false
IsPending _ = Unit

reset_event-executed : (e : StatefulEvent) → (reset_event e).executed ≡ false
reset_event-executed e = elim (Bool-cases e.executed) [
  | inl t ↦ rw (t, reset_event)
  | inr f ↦ rw (f, reset_event)
]

reset-IsPending_event : (e : StatefulEvent) → IsPending (some (FileElement.event (reset_event e)))
unfolding IsPending
reset-IsPending_event e = reset_event-executed e

emptied_cases :
    (emptied : Bool) (o : Option FileElement)
    → (emptied ≡ false → IsPending o)
    → IsPending (if emptied then none else o)
unfolding IsPending
emptied_cases true o f = tt
emptied_cases false o f = f refl

reset-IsPending :
    (name : String) (st : Reconciliation) (v : StatefulEvent)
    → IsPending (in_file (set_object name (FileElement.event (reset_event v)) st) name)
reset-IsPending name st v =
    emptied_cases st.emptied
      (lookup name (insert name (FileElement.event (reset_event v)) st.objects))
      (λ _.
        subst IsPending
          (sym (lookup-insert_self name (FileElement.event (reset_event v)) st.objects))
          (reset-IsPending_event v))

set-IsPending :
    (name x : String) (st : Reconciliation) (v : StatefulEvent)
    → IsPending (in_file st x)
    → IsPending (in_file (set_object name (FileElement.event (reset_event v)) st) x)
set-IsPending name x st v p =
    emptied_cases st.emptied (lookup x (insert name (FileElement.event (reset_event v)) st.objects))
      (λ f. elim (name_dec name x) [
        | yes y ↦
            subst
              (λ z.
                IsPending (lookup z (insert name (FileElement.event (reset_event v)) st.objects)))
              y
              (subst IsPending
                (sym (lookup-insert_self name (FileElement.event (reset_event v)) st.objects))
                (reset-IsPending_event v))
        | no n ↦
            subst IsPending
              (sym (lookup-insert_ne name x (FileElement.event (reset_event v)) st.objects n))
              (rw f at p)
      ])

invalidate_event-keeps :
    (name x : String) (st : Reconciliation)
    → IsPending (in_file st x)
    → IsPending (in_file (invalidate_event name st) x)
unfolding invalidate_event IsPending
invalidate_event-keeps name x st p = elim (Option-cases (in_file st name)) [
  | inl e ↦ rw (e, invalidate_event) p
  | inr (FileElement.contract m, e) ↦ rw (e, invalidate_event) p
  | inr (FileElement.event v, e) ↦ rw (e, invalidate_event) (set-IsPending name x st v p)
]

invalidate_event-resets :
    (name : String) (st : Reconciliation) → IsPending (in_file (invalidate_event name st) name)
unfolding invalidate_event IsPending
invalidate_event-resets name st = elim (Option-cases (in_file st name)) [
  | inl e ↦ rw (e, invalidate_event) (subst IsPending (sym e) tt)
  | inr (FileElement.contract m, e) ↦ rw (e, invalidate_event) (subst IsPending (sym e) tt)
  | inr (FileElement.event v, e) ↦ rw (e, invalidate_event) (reset-IsPending name st v)
]

invalidate_events-keeps :
    (names : List String) (x : String) (st : Reconciliation)
    → IsPending (in_file st x)
    → IsPending (in_file (invalidate_events names st) x)
unfolding invalidate_events
invalidate_events-keeps [] x st p = p
invalidate_events-keeps (n ∷ ns) x st p =
    invalidate_events-keeps ns x (invalidate_event n st) (invalidate_event-keeps n x st p)

pub invalidate_events-resets :
    (names : List String) (st : Reconciliation)
    → All (λ x. IsPending (in_file (invalidate_events names st) x)) names
unfolding invalidate_events
invalidate_events-resets [] st = tt
invalidate_events-resets (n ∷ ns) st = (
  invalidate_events-keeps ns n (invalidate_event n st) (invalidate_event-resets n st),
  invalidate_events-resets ns (invalidate_event n st),
)

module _ (call : ContractBinding → Reconciliation → Result Reconciliation)
    (frame : (b : ContractBinding) (st st' : Reconciliation)
      → call b st ≡ ok st'
      → Only st st') where
  invalidate_named-Only :
      (name : String) (st st' : Reconciliation)
      → invalidate_named call name st ≡ ok st'
      → Only st st'
  unfolding invalidate_named
  invalidate_named-Only name st st' h = elim (Option-cases (address_of st name)) [
    | inl e ↦ subst (Only st) (ok-injective (rw (e, invalidate_named) at h)) (Only-self st)
    | inr (a, e) ↦
        let k : (forget_address name st
              >>= (λ s. binding_of (lookup name s.live) >>= (λ b. call b s)))
            ≡ ok st' =
          rw (e, invalidate_named) at h in
        let (s, p, q) =
          >>=-eq-ok (forget_address name st)
            (λ s. binding_of (lookup name s.live) >>= (λ b. call b s)) k in
        let (b, p2, q2) = >>=-eq-ok (binding_of (lookup name s.live)) (λ b. call b s) q in
        Only-trans st s st' (forget_address-Only name st s p) (frame b s st' q2)
  ]

  invalidate_arg-Only :
      (v : Value) (st st' : Reconciliation) → invalidate_arg call v st ≡ ok st' → Only st st'
  unfolding invalidate_arg
  invalidate_arg-Only Value.undefined st st' h = cc
  invalidate_arg-Only Value.null st st' h = cc
  invalidate_arg-Only (Value.binding n) st st' h = invalidate_named-Only n st st' h
  invalidate_arg-Only (Value.meta_data n) st st' h = invalidate_named-Only n st st' h
  invalidate_arg-Only (Value.bool b) st st' h = subst (Only st) (ok-injective h) (Only-self st)
  invalidate_arg-Only (Value.number b) st st' h = subst (Only st) (ok-injective h) (Only-self st)
  invalidate_arg-Only (Value.big_number b) st st' h =
      subst (Only st) (ok-injective h) (Only-self st)
  invalidate_arg-Only (Value.big_number_json b) st st' h =
      subst (Only st) (ok-injective h) (Only-self st)
  invalidate_arg-Only (Value.string b) st st' h = subst (Only st) (ok-injective h) (Only-self st)
  invalidate_arg-Only (Value.array b) st st' h = subst (Only st) (ok-injective h) (Only-self st)

  invalidate_args-Only :
      (vs : List Value) (st st' : Reconciliation)
      → invalidate_args call vs st ≡ ok st'
      → Only st st'
  unfolding invalidate_args
  invalidate_args-Only [] st st' h = subst (Only st) (ok-injective h) (Only-self st)
  invalidate_args-Only (v ∷ vs) st st' h =
      let (s, p, q) = >>=-eq-ok (invalidate_arg call v st) (invalidate_args call vs) h in
      Only-trans st s st' (invalidate_arg-Only v st s p) (invalidate_args-Only vs s st' q)

pub invalidate_dependant-Only :
    (depth : ℕ) (b : ContractBinding) (st st' : Reconciliation)
    → invalidate_dependant depth b st ≡ ok st'
    → Only st st'
unfolding invalidate_dependant
invalidate_dependant-Only zero b st st' h = absurd (let q : err stack_overflow ≡ ok st' = h in cc)
invalidate_dependant-Only (suc depth) b st st' h =
    let (s, p, q) =
      >>=-eq-ok (invalidate_args (invalidate_dependant depth) b.args st)
        (λ s. ok (invalidate_events (events_in_order b.events_deps) s)) h in
    Only-trans st s st'
      (invalidate_args-Only (invalidate_dependant depth) (invalidate_dependant-Only depth) b.args st
        s p)
      (subst (Only s) (ok-injective q) (invalidate_events-Only (events_in_order b.events_deps) s))

-- The events that depend on the contract wait again.
pub invalidate_dependant-resets :
    (depth : ℕ) (b : ContractBinding) (st st' : Reconciliation)
    → invalidate_dependant depth b st ≡ ok st'
    → All (λ x. IsPending (in_file st' x)) (events_in_order b.events_deps)
unfolding invalidate_dependant
invalidate_dependant-resets zero b st st' h = absurd (let q : err stack_overflow ≡ ok st' = h in cc)
invalidate_dependant-resets (suc depth) b st st' h =
    let (s, p, q) =
      >>=-eq-ok (invalidate_args (invalidate_dependant depth) b.args st)
        (λ s. ok (invalidate_events (events_in_order b.events_deps) s)) h in
    subst (λ z. All (λ x. IsPending (in_file z x)) (events_in_order b.events_deps)) (ok-injective q)
      (invalidate_events-resets (events_in_order b.events_deps) s)
