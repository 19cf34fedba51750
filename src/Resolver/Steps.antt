-- ===== src/Resolver/Steps.antt =====
-- Resolver: rules for the steps of the resolution, which may throw. A safe step keeps the order of the
-- module state, resolves nothing anew that was resolved, and ends with its postcondition.
use hardhat_ignition.Prelude.{
  ◌≡◌, ◌⊎◌, inl, inr, refl, subst, sym, String, true, false, Option, none, some, List, [], ◌∷◌,
  lookup, lookup-insert, lookup-insert_self, name_dec, All, In, arith, Option-cases,
}
use hardhat_ignition.Types.{
  Event, StatefulEvent, Bindings, Events, Error, Result, ok, err, or_fail, ◌>>=◌,
}
use hardhat_ignition.Resolver.{
  Slot, Resolution, Step, add_slot, is_resolved, for_each, unless_resolved, if_bound, event_at,
}
use hardhat_ignition.Resolver.Invariant.{IsResolved, IsGood, IsBound}

abbrev pub Ensures : (Resolution → Type 0) → Result Resolution → Type 0
Ensures Q (ok st) = Q st
Ensures Q (err e) = Unit

pub Ensures-bind :
    (P Q : Resolution → Type 0) (r : Result Resolution) (k : Step)
    → Ensures P r
    → ((st : Resolution) → P st → Ensures Q (k st))
    → Ensures Q (r >>= k)
Ensures-bind P Q (ok st) k h f = f st h
Ensures-bind P Q (err e) k h f = tt

pub Ensures-or_fail :
    {A : Type 0} (Q : Resolution → Type 0) (o : Option A) (e : Error) (k : A → Result Resolution)
    → ((a : A) → o ≡ some a → Ensures Q (k a))
    → Ensures Q (or_fail o e >>= k)
Ensures-or_fail Q none e k f = tt
Ensures-or_fail Q (some a) e k f = f a refl

pub Ensures-eq :
    (Q : Resolution → Type 0) (r : Result Resolution) (st : Resolution)
    → r ≡ ok st
    → Ensures Q r
    → Q st
Ensures-eq Q r st e h = rw e at h

abbrev pub Grows : Resolution → Resolution → Type 0
Grows st st' = (x : String) → IsResolved st x → IsResolved st' x

pub Grows-trans : (st₁ st₂ st₃ : Resolution) → Grows st₁ st₂ → Grows st₂ st₃ → Grows st₁ st₃
Grows-trans st₁ st₂ st₃ f g x r = g x (f x r)

pub add_slot-Grows : (n : String) (slot : Slot) (st : Resolution) → Grows st (add_slot n slot st)
add_slot-Grows n slot st x (s, e) = elim (name_dec n x) [
  | yes q ↦ (slot, ground (arith, lookup-insert n x slot st.module_state))
  | no q ↦ (s, ground (arith, lookup-insert n x slot st.module_state))
]

pub add_slot-IsResolved :
    (n : String) (slot : Slot) (st : Resolution) → IsResolved (add_slot n slot st) n
add_slot-IsResolved n slot st = (slot, lookup-insert_self n slot st.module_state)

pub IsResolved-cases :
    (st : Resolution) (x : String)
    → (is_resolved st x ≡ true) × IsResolved st x ⊎ (is_resolved st x ≡ false)
IsResolved-cases st x = elim (Option-cases (lookup x st.module_state)) [
  | inl e ↦ inr (rw (e, is_resolved))
  | inr (s, e) ↦ inl (rw (e, is_resolved), (s, e))
]

module _ (bindings : Bindings) (events : Events) where
  -- The result of a step from `st`.
  abbrev pub Becomes : Resolution → (Resolution → Type 0) → Resolution → Type 0
  Becomes st Q st' = IsGood bindings events st' × Grows st st' × Q st'

  abbrev pub IsSafe : Step → (Resolution → Type 0) → Type 0
  IsSafe step Q = (st : Resolution) → IsGood bindings events st → Ensures (Becomes st Q) (step st)

  abbrev pub IsStable : (Resolution → Type 0) → Type 0
  IsStable P = (st st' : Resolution) → Grows st st' → P st → P st'

  -- One safe step after another.
  pub then_step :
      (P Q : Resolution → Type 0) (st : Resolution) (step k : Step)
      → IsGood bindings events st
      → IsSafe step P
      → ((st₁ : Resolution)
          → IsGood bindings events st₁
          → Grows st st₁
          → P st₁
          → Ensures (Becomes st₁ Q) (k st₁))
      → Ensures (Becomes st Q) (step st >>= k)
  then_step P Q st step k good safe f =
      Ensures-bind (Becomes st P) (Becomes st Q) (step st) k (safe st good)
        (λ st₁ (good₁, grows, p). widen st₁ grows (k st₁) (f st₁ good₁ grows p))
    where
      widen :
          (st₁ : Resolution)
          → Grows st st₁
          → (r : Result Resolution) → Ensures (Becomes st₁ Q) r
          → Ensures (Becomes st Q) r
      widen st₁ grows (ok st₂) (a, b, c) = (a, Grows-trans st st₁ st₂ grows b, c)
      widen st₁ grows (err e) h = tt

  pub for_each-IsSafe :
      (step : String → Step) (P : String → Resolution → Type 0) (xs : List String)
      → ((x : String) → IsStable (P x))
      → ((x : String) → In x xs → IsSafe (step x) (P x))
      → IsSafe (for_each step xs) (λ st. All (λ x. P x st) xs)
  unfolding for_each
  for_each-IsSafe step P [] stable safe st good = (good, (λ x r. r), tt)
  for_each-IsSafe step P (x ∷ xs) stable safe st good =
      then_step (P x) (λ st'. All (λ y. P y st') (x ∷ xs)) st (step x) (for_each step xs) good
        (safe x (inl refl))
        (λ st₁ good₁ _ p.
          keep st₁ p (for_each step xs st₁)
            (for_each-IsSafe step P xs stable (λ y i. safe y (inr i)) st₁ good₁))
    where
      keep :
          (st₁ : Resolution)
          → P x st₁
          → (r : Result Resolution) → Ensures (Becomes st₁ (λ st'. All (λ y. P y st') xs)) r
          → Ensures (Becomes st₁ (λ st'. All (λ y. P y st') (x ∷ xs))) r
      keep st₁ p (ok st₂) (a, b, c) = (a, b, (stable x st₁ st₂ b p, c))
      keep st₁ p (err e) h = tt

  abbrev pub Resolves : (String → Step) → String → Type 0
  Resolves step x = IsSafe (step x) (λ st. IsResolved st x)

  pub IsResolved-IsStable : (x : String) → IsStable (λ st. IsResolved st x)
  IsResolved-IsStable x st st' g r = g x r

  pub unless_resolved-IsSafe :
      (step : String → Step) (x : String) → Resolves step x → Resolves (unless_resolved step) x
  unfolding unless_resolved
  unless_resolved-IsSafe step x safe st good = elim (IsResolved-cases st x) [
    | inl (t, r) ↦ rw t (good, (λ y s. s), r)
    | inr f ↦ rw f (safe st good)
  ]

  pub if_bound-IsSafe :
      (step : String → Step) (x : String)
      → Resolves step x
      → IsSafe (if_bound bindings events step x) (λ st. IsBound bindings events x → IsResolved st x)
  unfolding if_bound
  if_bound-IsSafe step x safe st good = elim (Option-cases (lookup x bindings)) [
    | inl e ↦ rw (e, if_bound) (good, (λ y s. s), λ (b, q). absurd (cc))
    | inr (b, e) ↦
        let same : if_bound bindings events step x st ≡ step x st = rw (e, if_bound) in
        subst (Ensures (Becomes st (λ st. IsBound bindings events x → IsResolved st x))) (sym same)
          (weaken (step x st) (safe st good))
  ]
    where
      weaken :
          (r : Result Resolution)
          → Ensures (Becomes st (λ st. IsResolved st x)) r
          → Ensures (Becomes st (λ st. IsBound bindings events x → IsResolved st x)) r
      weaken (ok st') (a, b, c) = (a, b, λ _. c)
      weaken (err e) h = tt

  pub Ensures-event_at :
      (Q : Resolution → Type 0) (name : String) (k : Event → Result Resolution)
      → ((e : StatefulEvent) → lookup name events ≡ some e → Ensures Q (k e.event))
      → Ensures Q (event_at bindings events name >>= k)
  Ensures-event_at Q name k f = elim (Option-cases (lookup name events)) [
    | inl e ↦ rw e tt
    | inr (a, e) ↦ rw e (f a e)
  ]
