-- ===== src/Batcher/Levels.antt =====
-- The loops over the names that an event depends on: what the number they reach says of each name.
use hardhat_ignition.Prelude.{
  All-append, All-map, In-append_left, In-append_right, ℕ, ◌+◌, ◌≤◌, ◌<◌, ◌≡◌, ◌≢◌, ◌⊎◌, inl, inr,
  refl, String, none, some, List, [], ◌∷◌, ◌++◌, ltb, Dict, lookup, All, In, arith, Option-cases,
  Bool-cases,
}
use hardhat_ignition.Types.{Error, ok, err}
use hardhat_ignition.Batcher.{
  BatchNumber, at, nan, climb, sink, climb_required, climb_present, sink_present,
}

-- `x` has a batch, and it comes before batch `n`.
abbrev pub IsBefore : Dict BatchNumber → ℕ → String → Type 0
IsBefore numbers n x = (m : ℕ) × (lookup x numbers ≡ some (at m)) × (m < n)

abbrev pub HasNoNan : Dict BatchNumber → Type 0
HasNoNan numbers = (x : String) → lookup x numbers ≢ some nan

abbrev pub IsPresent : Dict BatchNumber → String → Type 0
IsPresent numbers x = (b : BatchNumber) × (lookup x numbers ≡ some b)

pub IsBefore-mono :
    (numbers : Dict BatchNumber) (m n : ℕ) (x : String)
    → m ≤ n
    → IsBefore numbers m x
    → IsBefore numbers n x
IsBefore-mono numbers m n x h (k, e, l) = (k, e, omega arith)

climb_bounds : (n d : ℕ) → (d ≤ climb (at n) d) × (n ≤ climb (at n) d)
climb_bounds n d = ground arith

sink_bounds : (n s : ℕ) → (sink (at n) s ≤ s) × (sink (at n) s ≤ n)
sink_bounds n s = ground arith

-- What a loop from `d` to `d'` says of the names it read: all lie before `d' + 1`, and `d'` is `d` or
-- the batch of one of them.
abbrev pub Reaches : Dict BatchNumber → List String → ℕ → ℕ → Type 0
Reaches numbers xs d d' =
    (d ≤ d')
    × All (IsBefore numbers (d' + 1)) xs
    × ((d' ≡ d) ⊎ ((x : String) × In x xs × (lookup x numbers ≡ some (at d'))))

pub Reaches-append :
    (numbers : Dict BatchNumber) (xs ys : List String) (d₁ d₂ d₃ : ℕ)
    → Reaches numbers xs d₁ d₂
    → Reaches numbers ys d₂ d₃
    → Reaches numbers (xs ++ ys) d₁ d₃
Reaches-append numbers xs ys d₁ d₂ d₃ (l, a, r) (m, b, s) = (
  omega arith,
  All-append (IsBefore numbers (d₃ + 1)) xs ys
      (All-map _ (IsBefore numbers (d₃ + 1)) xs
        (λ x. IsBefore-mono numbers (d₂ + 1) (d₃ + 1) x (omega arith)) a)
      b,
  attained s r,
)
  where
    attained :
        (d₃ ≡ d₂) ⊎ ((x : String) × In x ys × (lookup x numbers ≡ some (at d₃)))
        → (d₂ ≡ d₁) ⊎ ((x : String) × In x xs × (lookup x numbers ≡ some (at d₂)))
        → (d₃ ≡ d₁) ⊎ ((x : String) × In x (xs ++ ys) × (lookup x numbers ≡ some (at d₃)))
    attained (inr (x, i, e)) _ = inr (x, In-append_right x xs ys i, e)
    attained (inl p) (inl q) = inl (omega arith)
    attained (inl p) (inr (x, i, e)) = inr (x, In-append_left x xs ys i, rw p e)

pub climb_required-Reaches :
    (missing : String → Error) (numbers : Dict BatchNumber)
    → HasNoNan numbers
    → (xs : List String) (d : ℕ) {d' : ℕ} → climb_required missing numbers xs d ≡ ok d'
    → Reaches numbers xs d d'
unfolding climb_required
climb_required-Reaches missing numbers clean [] d h = (ground arith, tt, inl (ground arith))
climb_required-Reaches missing numbers clean (x ∷ xs) d {d'} h =
    elim (Option-cases (lookup x numbers)) [
      | inl e ↦ absurd (ground arith)
      | inr (nan, e) ↦ absurd (clean x e)
      | inr (at n, e) ↦
          let ih =
            climb_required-Reaches missing numbers clean xs (climb (at n) d)
              (rw (e, climb_required) at h) in
          Reaches-append numbers (x ∷ []) xs d (climb (at n) d) d' (first n e) ih
    ]
  where
    first : (n : ℕ) → lookup x numbers ≡ some (at n) → Reaches numbers (x ∷ []) d (climb (at n) d)
    first n e = elim (Bool-cases (ltb d n)) [
      | inl t ↦ (ground arith, ((n, e, ground arith), tt), inr (x, inl refl, ground arith))
      | inr f ↦ (ground arith, ((n, e, ground arith), tt), inl (ground arith))
    ]

-- The loop throws just where a name has no batch.
pub climb_required_total :
    (missing : String → Error) (numbers : Dict BatchNumber) (xs : List String) (d : ℕ)
    → All (IsPresent numbers) xs
    → (d' : ℕ) × (climb_required missing numbers xs d ≡ ok d')
unfolding climb_required
climb_required_total missing numbers [] d h = (d, refl)
climb_required_total missing numbers (x ∷ xs) d ((b, e), rest) =
    rw (e, climb_required) (climb_required_total missing numbers xs (climb b d) rest)

pub climb_required_missing :
    (missing : String → Error) (numbers : Dict BatchNumber) (xs : List String) (x : String)
    (ys : List String) (d : ℕ)
    → All (IsPresent numbers) xs
    → lookup x numbers ≡ none
    → climb_required missing numbers (xs ++ x ∷ ys) d ≡ err (missing x)
unfolding climb_required
climb_required_missing missing numbers [] x ys d h e = rw (e, climb_required)
climb_required_missing missing numbers (z ∷ xs) x ys d ((b, q), rest) e =
    rw (q, climb_required) (climb_required_missing missing numbers xs x ys (climb b d) rest e)

-- The names that have a batch do not come after it.
abbrev pub IsAtMost : Dict BatchNumber → ℕ → String → Type 0
IsAtMost numbers d x = (m : ℕ) → lookup x numbers ≡ some (at m) → m ≤ d

abbrev pub IsAtLeast : Dict BatchNumber → ℕ → String → Type 0
IsAtLeast numbers s x = (m : ℕ) → lookup x numbers ≡ some (at m) → s ≤ m

module _ (numbers : Dict BatchNumber) where
  climb_present-le : (xs : List String) (d : ℕ) → d ≤ climb_present numbers xs d
  unfolding climb_present
  climb_present-le [] d = omega arith
  climb_present-le (x ∷ xs) d = elim (Option-cases (lookup x numbers)) [
    | inl e ↦ rw (e, climb_present) (climb_present-le xs d)
    | inr (nan, e) ↦ rw (e, climb_present) (climb_present-le xs d)
    | inr (at n, e) ↦
        rw (e, climb_present)
          (omega (arith, climb_bounds n d, climb_present-le xs (climb (at n) d)))
  ]

  pub climb_present-IsAtMost :
      (xs : List String) (d e : ℕ)
      → climb_present numbers xs d ≤ e
      → (d ≤ e) × All (IsAtMost numbers e) xs
  unfolding climb_present
  climb_present-IsAtMost [] d e h = (h, tt)
  climb_present-IsAtMost (x ∷ xs) d e h = elim (Option-cases (lookup x numbers)) [
    | inl q ↦
        let ih = climb_present-IsAtMost xs d e (rw (q, climb_present) at h) in
        (ih.0, ((λ m r. cc), ih.1))
    | inr (nan, q) ↦
        let ih = climb_present-IsAtMost xs d e (rw (q, climb_present) at h) in
        (ih.0, ((λ m r. cc), ih.1))
    | inr (at n, q) ↦
        let ih = climb_present-IsAtMost xs (climb (at n) d) e (rw (q, climb_present) at h) in
        (omega (arith, climb_bounds n d), ((λ m r. ground (arith, climb_bounds n d)), ih.1))
  ]

  pub sink_present-IsAtLeast :
      (xs : List String) (s e : ℕ)
      → e ≤ sink_present numbers xs s
      → (e ≤ s) × All (IsAtLeast numbers e) xs
  unfolding sink_present
  sink_present-IsAtLeast [] s e h = (h, tt)
  sink_present-IsAtLeast (x ∷ xs) s e h = elim (Option-cases (lookup x numbers)) [
    | inl q ↦
        let ih = sink_present-IsAtLeast xs s e (rw (q, sink_present) at h) in
        (ih.0, ((λ m r. cc), ih.1))
    | inr (nan, q) ↦
        let ih = sink_present-IsAtLeast xs s e (rw (q, sink_present) at h) in
        (ih.0, ((λ m r. cc), ih.1))
    | inr (at n, q) ↦
        let ih = sink_present-IsAtLeast xs (sink (at n) s) e (rw (q, sink_present) at h) in
        (omega (arith, sink_bounds n s), ((λ m r. ground (arith, sink_bounds n s)), ih.1))
  ]
