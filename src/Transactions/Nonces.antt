-- ===== src/Transactions/Nonces.antt =====
-- Transactions: the nonces that the transaction manager hands out.
use hardhat_ignition.Prelude.{
  ℕ, zero, suc, ◌≡◌, ◌≢◌, ◌∙◌, refl, String, none, some, List, [], ◌∷◌, lookup, insert,
  lookup-insert, lookup-insert_ne, name_dec, ite, if_pos, if_neg, length, ap, or_else, arith,
  Option-cases, inl, inr,
}
use hardhat_ignition.Transactions.{
  NonceMap, known_nonce, first_nonce, get_and_increment, nonces_for,
}

-- The n, n + 1, ... of a given length.
abbrev pub consecutive : ℕ → ℕ → List ℕ
consecutive n zero = []
consecutive n (suc k) = n ∷ consecutive (suc n) k

known_next :
    (b : String) (count n : ℕ) (m : NonceMap)
    → lookup b m ≡ some n
    → get_and_increment b count m ≡ (n, insert b (suc n) m)
unfolding get_and_increment known_nonce
known_next b count n m e = ground arith

known_first :
    (b : String) (count : ℕ) (m : NonceMap)
    → lookup b m ≡ none
    → get_and_increment b count m ≡ (count, insert b (suc count) m)
unfolding get_and_increment known_nonce first_nonce
known_first b count m e = ground arith

get_and_increment_other :
    (a b : String) (count : ℕ) (m : NonceMap)
    → b ≢ a
    → lookup a (get_and_increment b count m).1 ≡ lookup a m
get_and_increment_other a b count m h = elim (Option-cases (lookup b m)) [
  | inl e ↦ rw (known_first b count m e) (lookup-insert_ne b a (suc count) m h)
  | inr (n, e) ↦ rw (known_next b count n m e) (lookup-insert_ne b a (suc n) m h)
]

-- The answer of the node that a's first nonce is.
abbrev pub first_count : String → List (String × ℕ) → ℕ
first_count a [] = 0
first_count a ((b, count) ∷ rest) = ite (name_dec b a) count (first_count a rest)

-- When a is known, the requests of others between those of a change nothing.
known_consecutive :
    (a : String) (requests : List (String × ℕ)) (m : NonceMap) (n : ℕ)
    → lookup a m ≡ some n
    → nonces_for a requests m ≡ consecutive n (length (nonces_for a requests m))
unfolding nonces_for
known_consecutive a [] m n e = refl
known_consecutive a ((b, count) ∷ rest) m n e = elim (name_dec b a) [
  | yes p ↦
      let now : get_and_increment b count m ≡ (n, insert b (suc n) m) =
        known_next b count n m (rw p e) in
      let later =
        known_consecutive a rest (insert b (suc n) m) (suc n)
          (ground (arith, lookup-insert b a (suc n) m)) in
      rw (if_pos (name_dec b a) p, now) (ap (λ ns. n ∷ ns) later)
  | no p ↦ rw (if_neg (name_dec b a) p) (
      known_consecutive a rest (get_and_increment b count m).1 n
        (get_and_increment_other a b count m p ∙ e))
]

-- However the requests for the nonces of several addresses follow one another, the nonces of one address
-- are consecutive. They begin with the one that is known, or else with what the node answered to the
-- first request for the address; no later answer of the node changes them.
pub nonces_consecutive :
    (a : String) (requests : List (String × ℕ)) (m : NonceMap)
    → nonces_for a requests m
      ≡ consecutive
          (or_else (lookup a m) (first_count a requests))
          (length (nonces_for a requests m))
unfolding nonces_for
nonces_consecutive a [] m = refl
nonces_consecutive a ((b, count) ∷ rest) m = elim (Option-cases (lookup a m)) [
  | inr (n, e) ↦ rw e (known_consecutive a ((b, count) ∷ rest) m n e)
  | inl e ↦ elim (name_dec b a) [
    | yes p ↦
        let now : get_and_increment b count m ≡ (count, insert b (suc count) m) =
          known_first b count m (rw p e) in
        let later =
          known_consecutive a rest (insert b (suc count) m) (suc count)
            (ground (arith, lookup-insert b a (suc count) m)) in
        let start : first_count a ((b, count) ∷ rest) ≡ count =
          if_pos (name_dec b a) p count (first_count a rest) in
        rw (e, start, if_pos (name_dec b a) p, now) (ap (λ ns. count ∷ ns) later)
    | no p ↦
        let same : lookup a (get_and_increment b count m).1 ≡ none =
          get_and_increment_other a b count m p ∙ e in
        let later = nonces_consecutive a rest (get_and_increment b count m).1 in
        let start : first_count a ((b, count) ∷ rest) ≡ first_count a rest =
          if_neg (name_dec b a) p count (first_count a rest) in
        rw (e, start, if_neg (name_dec b a) p) (rw same at later)
  ]
]
