-- ===== src/Prelude/Lists.antt =====
-- Lists with native lengths and positions, and predicates on all members.
use Prim.Native.Nat.{ℕ, zero, suc, ◌+◌}
use Prim.Native.String.{String}
use mathlib.Core.Path.{◌≡◌, refl, subst}
use mathlib.Core.Logic.{◌⊎◌, inl, inr, ite}
use mathlib.Core.Bool.{Bool, true, false}
use mathlib.Core.Option.{Option, none, some}
use mathlib.Core.List.{List, [], ◌∷◌, ◌++◌}
use native.Mathlib.Omega.{arith}
use hardhat_ignition.Prelude.Tests.{name_dec}

module _ {ℓ} {A : Type ℓ} where
  abbrev pub length : List A → ℕ
  length [] = 0
  length (x ∷ xs) = suc (length xs)

  abbrev pub get_elem? : List A → ℕ → Option A
  get_elem? [] i = none
  get_elem? (x ∷ xs) zero = some x
  get_elem? (x ∷ xs) (suc i) = get_elem? xs i

  -- `slice(0, n)` and `slice(n)`
  abbrev pub take : ℕ → List A → List A
  take zero xs = []
  take (suc n) [] = []
  take (suc n) (x ∷ xs) = x ∷ take n xs

  abbrev pub drop : ℕ → List A → List A
  drop zero xs = xs
  drop (suc n) [] = []
  drop (suc n) (x ∷ xs) = drop n xs

  pub length-append : (xs ys : List A) → length (xs ++ ys) ≡ length xs + length ys
  length-append [] ys = omega arith
  length-append (x ∷ xs) ys = omega (arith, length-append xs ys)

-- The value, or the default in its absence: `o ?? d`.
abbrev pub or_else {ℓ} : {A : Type ℓ} → Option A → A → A
or_else none d = d
or_else (some a) d = a

-- Every member satisfies the predicate.
abbrev pub All {ν ξ} : {Member : Type ν} → (Member → Type ξ) → List Member → Type ξ
All P (member ∷ others) = P member × All P others
All P [] = Unit

-- Membership by recursion.
abbrev pub In : {A : Type 0} → A → List A → Type 0
In a [] = ⊥
In a (x ∷ xs) = (x ≡ a) ⊎ In a xs

pub In-append_left : {A : Type 0} (a : A) (xs ys : List A) → In a xs → In a (xs ++ ys)
In-append_left a [] ys h = elim h [ ]
In-append_left a (x ∷ xs) ys (inl e) = inl e
In-append_left a (x ∷ xs) ys (inr h) = inr (In-append_left a xs ys h)

pub In-append_right : {A : Type 0} (a : A) (xs ys : List A) → In a ys → In a (xs ++ ys)
In-append_right a [] ys h = h
In-append_right a (x ∷ xs) ys h = inr (In-append_right a xs ys h)

pub In-append_last : {A : Type 0} (a : A) (xs : List A) → In a (xs ++ a ∷ [])
In-append_last a [] = inl refl
In-append_last a (x ∷ xs) = inr (In-append_last a xs)

module _ {κ μ} {A : Type κ} (P : A → Type μ) where
  pub All-append : (front back : List A) → All P front → All P back → All P (front ++ back)
  All-append [] back _ q = q
  All-append (a ∷ front) back (p, ps) q = (p, All-append front back ps q)

  pub All-split : (front back : List A) → All P (front ++ back) → All P front × All P back
  All-split [] back q = (tt, q)
  All-split (a ∷ front) back (p, ps) = let (x, y) = All-split front back ps in ((p, x), y)

  pub All-map {ν} :
      (Q : A → Type ν) (members : List A) → ((a : A) → P a → Q a) → All P members → All Q members
  All-map Q [] f ps = tt
  All-map Q (a ∷ members) f (p, ps) = (f a p, All-map Q members f ps)

-- `xs.includes(name)`
unfoldable pub includes : List String → String → Bool
includes [] n = false
includes (x ∷ xs) n = ite (name_dec x n) true (includes xs n)

pub includes-eq-false : (xs : List String) (a : String) → includes xs a ≡ false → ¬ In a xs
unfolding includes
includes-eq-false [] a h i = elim i [ ]
includes-eq-false (x ∷ xs) a h (inl e) = ground arith
includes-eq-false (x ∷ xs) a h (inr i) = absurd (includes-eq-false xs a (ground arith) i)

pub includes-eq-true : (xs : List String) (a : String) → includes xs a ≡ true → In a xs
unfolding includes
includes-eq-true [] a h = absurd (ground arith)
includes-eq-true (x ∷ xs) a h = elim (name_dec x a) [
  | yes e ↦ inl e
  | no ne ↦ inr (includes-eq-true xs a (ground arith))
]

pub All-In {κ} : {A : Type 0} (P : A → Type κ) (xs : List A) (a : A) → All P xs → In a xs → P a
All-In P [] a h i = elim i [ ]
All-In P (x ∷ xs) a h (inl e) = subst P e h.0
All-In P (x ∷ xs) a h (inr i) = All-In P xs a h.1 i
