-- ===== src/Builder/Hooks.antt =====
-- Builder: what stands in the hooks of a contract is an event of the module.
use hardhat_ignition.Prelude.{
  ◌≡◌, ◌⊎◌, inl, inr, refl, subst, sym, String, false, none, some, List, [], ◌∷◌, ◌++◌, lookup,
  insert, lookup-insert, name_dec, or_else, In, arith, Option-cases,
}
use hardhat_ignition.Types.{
  Event, event_type_of, deps_of, new_stateful_event, StatefulEvent, EventsDepRef, ContractBinding,
  Bindings, Events, ok,
}
use hardhat_ignition.Builder.{ModuleBuilder, Hook, type_of, hooks, push_hook, add_event, with_hook}

-- An event of the module of the hook's type, which depends on the contract.
abbrev pub IsEventOf : Events → String → Hook → String → Type 0
IsEventOf events n h x =
    (e : StatefulEvent) × (lookup x events ≡ some e)
    × (event_type_of e.event ≡ type_of h)
    × In n (or_else (deps_of e.event) [])

-- Every hook that a contract lists is such an event.
abbrev pub IsHooked : Bindings → Events → Type 0
IsHooked bindings events =
    (n : String) (b : ContractBinding)
    → lookup n bindings ≡ some b
    → (h : Hook) (x : String) → In x (hooks h b.events_deps)
    → IsEventOf events n h x

In-append_one : (x y : String) (xs : List String) → In y (xs ++ x ∷ []) → In y xs ⊎ (x ≡ y)
In-append_one x y [] (inl e) = inr e
In-append_one x y [] (inr i) = elim i [ ]
In-append_one x y (z ∷ xs) (inl e) = inl (inl e)
In-append_one x y (z ∷ xs) (inr i) = elim (In-append_one x y xs i) [
  | inl j ↦ inl (inr j)
  | inr e ↦ inr e
]

In-push_hook :
    (h k : Hook) (x y : String) (r : EventsDepRef)
    → In y (hooks k (push_hook h x r))
    → In y (hooks k r) ⊎ ((h ≡ k) × (x ≡ y))
In-push_hook h k x y r i = split h k i
  where
    same : (h : Hook) → In y (hooks h r ++ x ∷ []) → In y (hooks h r) ⊎ ((h ≡ h) × (x ≡ y))
    same h i = elim (In-append_one x y (hooks h r) i) [ inl j ↦ inl j | inr e ↦ inr (refl, e) ]

    split : (h k : Hook) → In y (hooks k (push_hook h x r)) → In y (hooks k r) ⊎ ((h ≡ k) × (x ≡ y))
    split Hook.before_compile Hook.before_compile i = same Hook.before_compile i
    split Hook.after_compile Hook.after_compile i = same Hook.after_compile i
    split Hook.before_deploy Hook.before_deploy i = same Hook.before_deploy i
    split Hook.after_deploy Hook.after_deploy i = same Hook.after_deploy i
    split Hook.on_change Hook.on_change i = same Hook.on_change i
    split _ _ i = inl i

pub IsHooked-insert :
    (n : String) (b : ContractBinding) (bindings : Bindings) (events : Events)
    → IsHooked bindings events
    → ((h : Hook) (x : String) → In x (hooks h b.events_deps) → IsEventOf events n h x)
    → IsHooked (insert n b bindings) events
IsHooked-insert n b bindings events hooked new m c found h x i = elim (name_dec n m) [
  | yes e ↦
      let q : b ≡ c = ground (arith, lookup-insert n m b bindings) in
      subst (λ k. IsEventOf events k h x) e
        (new h x (subst (λ d. In x (hooks h d.events_deps)) (sym q) i))
  | no e ↦ hooked m c (ground (arith, lookup-insert n m b bindings)) h x i
]

-- A new event takes nothing from the others.
pub IsHooked-add_event :
    (x : String) (e : StatefulEvent) (bindings : Bindings) (events : Events)
    → lookup x events ≡ none
    → IsHooked bindings events
    → IsHooked bindings (insert x e events)
IsHooked-add_event x e bindings events fresh hooked n b found h y i =
    let (e', q, t, d) = hooked n b found h y i in
    (e', ground (arith, lookup-insert x y e events), t, d)

-- One more hook of a binding, whose event is there.
pub IsHooked-with_hook :
    (h : Hook) (x n : String) (b : ContractBinding) (bindings : Bindings) (events : Events)
    → lookup n bindings ≡ some b
    → IsHooked bindings events
    → IsEventOf events n h x
    → IsHooked (insert n (with_hook h x b) bindings) events
IsHooked-with_hook h x n b bindings events found hooked new =
    IsHooked-insert n (with_hook h x b) bindings events hooked λ k y i.
      elim (In-push_hook h k x y b.events_deps i) [
        | inl j ↦ hooked n b found k y j
        | inr (q, r) ↦ subst (λ k. IsEventOf events n k y) q (subst (IsEventOf events n h) r new)
      ]

pub add_event-eq-ok :
    (x : String) (e : Event) (m m' : ModuleBuilder)
    → add_event x e m ≡ ok m'
    → (lookup x m.contract_events ≡ none)
      × (m' ≡ record m {
        contract_events = insert x (new_stateful_event e false []) m.contract_events;
      })
unfolding add_event
add_event-eq-ok x e m m' h = elim (Option-cases (lookup x m.contract_events)) [
  | inl q ↦ (q, ground arith)
  | inr (a, q) ↦ absurd (ground arith)
]
