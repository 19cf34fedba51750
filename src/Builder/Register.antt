-- ===== src/Builder/Register.antt =====
-- Builder: the registration of an event keeps that all hooks stand for events of the module.
use hardhat_ignition.Prelude.{
  ◌≡◌, ◌∙◌, inl, inr, refl, subst, sym, String, false, none, List, [], ◌∷◌, if◌then◌else◌, includes,
  lookup, insert, lookup-insert_self, In, Bool-cases,
}
use hardhat_ignition.Types.{
  BaseEvent, contract_event, new_stateful_event, StatefulEvent, ContractBinding, Events, Result, ok,
  err, type_error, event_name_exists, or_fail, >>=-eq-ok, or_fail-eq-ok,
}
use hardhat_ignition.Builder.{
  ModuleBuilder, Dependency, Hook, type_of, hooks, binding_names, generate_base_event, set_binding,
  add_event, with_hook, binding_hook, push_hooks, group_hook,
}
use hardhat_ignition.Builder.Hooks.{
  IsEventOf, IsHooked, IsHooked-add_event, IsHooked-with_hook, add_event-eq-ok,
}

abbrev pub HasHooks : ModuleBuilder → Type 0
HasHooks m = IsHooked m.bindings m.contract_events

pub binding_hook-HasHooks :
    (h : Hook) (owner x : String) (usages : List Dependency) (m m' : ModuleBuilder)
    → HasHooks m
    → binding_hook h owner x usages m ≡ ok m'
    → HasHooks m'
unfolding binding_hook generate_base_event
binding_hook-HasHooks h owner x usages m m' hooked e =
    let (b, e₁, e₂) = >>=-eq-ok (or_fail (lookup owner m.bindings) type_error) next e in
    elim (Bool-cases (includes (hooks h b.events_deps) x)) [
      | inl t ↦ absurd (let q : err (event_name_exists x) ≡ ok m' = rw t at e₂ in cc)
      | inr f ↦
          let (fresh, q) = add_event-eq-ok x _ _ m' (rw f at e₂) in
          subst HasHooks (sym q) (
            IsHooked-with_hook h x owner b m.bindings _ (or_fail-eq-ok _ _ e₁)
              (IsHooked-add_event x _ m.bindings m.contract_events fresh hooked)
              (_, lookup-insert_self x _ m.contract_events, refl, inl refl))
    ]
  where
    next : ContractBinding → Result ModuleBuilder
    next b =
        if includes (hooks h b.events_deps) x
        then err (event_name_exists x)
        else add_event x
            (contract_event
              (generate_base_event x (type_of h) (Dependency.binding owner ∷ []) usages m))
            (set_binding owner (with_hook h x b) m)

push_hooks-contract_events :
    (h : Hook) (x : String) (ds : List Dependency) (m m' : ModuleBuilder)
    → push_hooks h x ds m ≡ ok m'
    → m'.contract_events ≡ m.contract_events
unfolding push_hooks
push_hooks-contract_events h x [] m m' e = cc
push_hooks-contract_events h x (Dependency.event n ∷ ds) m m' e =
    push_hooks-contract_events h x ds m m' e
push_hooks-contract_events h x (Dependency.binding n ∷ ds) m m' e =
    let (b, e₁, e₂) = >>=-eq-ok (or_fail (lookup n m.bindings) type_error) next e in
    push_hooks-contract_events h x ds (step b) m' e₂ ∙ same b
  where
    step : ContractBinding → ModuleBuilder
    step b = if includes (hooks h b.events_deps) x then m else set_binding n (with_hook h x b) m

    next : ContractBinding → Result ModuleBuilder
    next b = push_hooks h x ds (step b)

    same : (b : ContractBinding) → (step b).contract_events ≡ m.contract_events
    same b = elim (Bool-cases (includes (hooks h b.events_deps) x)) [ inl t ↦ rw t | inr f ↦ rw f ]

-- The pushes of a grouped hook keep to events among which the new one stands.
push_hooks-IsHooked :
    (h : Hook) (x : String) (ds : List Dependency) (m m' : ModuleBuilder) (events : Events)
    → IsHooked m.bindings events
    → ((n : String) → In n (binding_names ds) → IsEventOf events n h x)
    → push_hooks h x ds m ≡ ok m'
    → IsHooked m'.bindings events
unfolding push_hooks
push_hooks-IsHooked h x [] m m' events hooked new e =
    let q : m ≡ m' = cc in subst (λ k. IsHooked k.bindings events) q hooked
push_hooks-IsHooked h x (Dependency.event n ∷ ds) m m' events hooked new e =
    push_hooks-IsHooked h x ds m m' events hooked new e
push_hooks-IsHooked h x (Dependency.binding n ∷ ds) m m' events hooked new e =
    let (b, e₁, e₂) = >>=-eq-ok (or_fail (lookup n m.bindings) type_error) next e in
    elim (Bool-cases (includes (hooks h b.events_deps) x)) [
      | inl t ↦ push_hooks-IsHooked h x ds m m' events hooked (λ k i. new k (inr i)) (rw t at e₂)
      | inr f ↦
          push_hooks-IsHooked h x ds (set_binding n (with_hook h x b) m) m' events
            (IsHooked-with_hook h x n b m.bindings events (or_fail-eq-ok _ _ e₁) hooked
              (new n (inl refl)))
            (λ k i. new k (inr i)) (rw f at e₂)
    ]
  where
    next : ContractBinding → Result ModuleBuilder
    next b =
        push_hooks h x ds
          (if includes (hooks h b.events_deps) x then m else set_binding n (with_hook h x b) m)

pub group_hook-HasHooks :
    (h : Hook) (ds : List Dependency) (x : String) (usages : List Dependency) (m m' : ModuleBuilder)
    → HasHooks m
    → group_hook h ds x usages m ≡ ok m'
    → HasHooks m'
unfolding group_hook generate_base_event
group_hook-HasHooks h ds x usages m m' hooked e =
    let (m₁, e₁, e₂) = >>=-eq-ok (push_hooks h x ds m) next e in
    let (fresh, q) = add_event-eq-ok x (contract_event ev) m₁ m' e₂ in
    let same : m₁.contract_events ≡ m.contract_events = push_hooks-contract_events h x ds m m₁ e₁ in
    let fresh' : lookup x m.contract_events ≡ none =
      subst (λ events. lookup x events ≡ none) same fresh in
    let pushed : IsHooked m₁.bindings (insert x s m.contract_events) =
      push_hooks-IsHooked h x ds m m₁ (insert x s m.contract_events)
        (IsHooked-add_event x s m.bindings m.contract_events fresh' hooked)
        (λ n i. (s, lookup-insert_self x s m.contract_events, refl, i)) e₁ in
    subst HasHooks (sym q)
      (subst (λ events. IsHooked m₁.bindings (insert x s events)) (sym same) pushed)
  where
    ev : BaseEvent
    ev = generate_base_event x (type_of h) ds usages m

    s : StatefulEvent
    s = new_stateful_event (contract_event ev) false []

    next : ModuleBuilder → Result ModuleBuilder
    next m₁ = add_event x (contract_event ev) m₁
