-- ===== src/Builder/Resolve.antt =====
-- Builder: a module that is built, compiled and resolved comes out in order.
use hardhat_ignition.Prelude.{
  ◌≡◌, ◌⊎◌, inl, inr, refl, subst, sym, String, false, none, some, List, [], ◌∷◌, ◌++◌, lookup,
  keys, All, All-In, lookup-In, In, arith,
}
use hardhat_ignition.Types.{
  event_type_of, StatefulEvent, EventsDepRef, ContractBinding, Bindings, Events,
}
use hardhat_ignition.Resolver.Invariant.{is_after}
use hardhat_ignition.Resolver.Loops.{IsWellFormed, early_events}
use hardhat_ignition.Builder.{Hook, hooks, type_of}
use hardhat_ignition.Builder.Hooks.{IsHooked}

In-append_cases : {A : Type 0} (a : A) (xs ys : List A) → In a (xs ++ ys) → In a xs ⊎ In a ys
In-append_cases a [] ys i = inr i
In-append_cases a (x ∷ xs) ys (inl e) = inl (inl e)
In-append_cases a (x ∷ xs) ys (inr i) = elim (In-append_cases a xs ys i) [
  | inl j ↦ inl (inr j)
  | inr j ↦ inr j
]

-- The early events of a contract are the events of three of its hooks.
early_hook :
    (r : EventsDepRef) (x : String)
    → In x (early_events r)
    → (h : Hook) × In x (hooks h r) × (is_after (type_of h) ≡ false)
early_hook r x i =
    elim (In-append_cases x r.before_compile (r.after_compile ++ r.before_deploy) i) [
      | inl j ↦ (Hook.before_compile, j, refl)
      | inr j ↦ elim (In-append_cases x r.after_compile r.before_deploy j) [
        | inl k ↦ (Hook.after_compile, k, refl)
        | inr k ↦ (Hook.before_deploy, k, refl)
      ]
    ]

-- No event has the name of a contract. The builder does not see to this.
abbrev pub HaveOwnNames : Bindings → Events → Type 0
HaveOwnNames bindings events =
    (x : String) (e : StatefulEvent) → lookup x events ≡ some e → lookup x bindings ≡ none

pub HaveOwnNames-keys :
    (bindings : Bindings) (events : Events)
    → All (λ x. lookup x bindings ≡ none) (keys events)
    → HaveOwnNames bindings events
HaveOwnNames-keys bindings events h x e q =
    All-In (λ x. lookup x bindings ≡ none) (keys events) x h (lookup-In x e events q)

pub IsHooked-IsWellFormed :
    (bindings bindings' : Bindings) (events : Events)
    → IsHooked bindings events
    → HaveOwnNames bindings' events
    → ((n : String) (b' : ContractBinding)
        → lookup n bindings' ≡ some b'
        → (b : ContractBinding) × (lookup n bindings ≡ some b) × (b'.events_deps ≡ b.events_deps))
    → IsWellFormed bindings' events
IsHooked-IsWellFormed bindings bindings' events hooked own old = record {
  disjoint = own;
  early = λ n b' found x i e q.
      let (b, found', same) = old n b' found in
      let (h, j, f) = early_hook b.events_deps x (subst (λ r. In x (early_events r)) same i) in
      let (e', q', t, d) = hooked n b found' h x j in
      let p : e ≡ e' = ground arith in
      subst (λ k. is_after (event_type_of k.event) ≡ false) (sym p)
        (subst (λ k. is_after k ≡ false) (sym t) f);
}
