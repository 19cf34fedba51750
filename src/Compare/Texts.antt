-- ===== src/Compare/Texts.antt =====
-- Compare: texts and bytecode.
use hardhat_ignition.Prelude.{
  ◌≡◌, ◌↔◌, inl, inr, refl, ap, ℕ, ◌≤◌, true, some, [], ◌∷◌, length, Bool-cases, Option-cases,
  arith,
}
use hardhat_ignition.Types.{Text}
use hardhat_ignition.Checker.{starts_with, same_text}
use hardhat_ignition.Compare.{metadata_length, cut_substr, cut_slice, is_same_bytecode}

starts_with-both : (a b : Text) → starts_with a b ≡ true → starts_with b a ≡ true → a ≡ b
unfolding starts_with
starts_with-both [] [] p q = refl
starts_with-both [] (y ∷ ys) p q = cc
starts_with-both (x ∷ xs) [] p q = cc
starts_with-both (x ∷ xs) (y ∷ ys) p q = ground (arith, starts_with-both xs ys)

starts_with_self : (a : Text) → starts_with a a ≡ true
unfolding starts_with
starts_with_self [] = refl
starts_with_self (x ∷ xs) = ground (arith, starts_with_self xs)

pub same_text_iff : (a b : Text) → (same_text a b ≡ true) ↔ (a ≡ b)
unfolding same_text
same_text_iff a b = ground (arith, starts_with-both a b, starts_with_self a)

-- The text is at least as long as the metadata at its end says that they are.
unfoldable pub HoldsMetadata : Text → Type 0
HoldsMetadata b = (m : ℕ) → metadata_length b ≡ some m → m ≤ length b

cut_slice-cut_substr :
    (b : Text)
    → HoldsMetadata b
    → cut_slice b (metadata_length b) ≡ cut_substr b (metadata_length b)
unfolding HoldsMetadata
cut_slice-cut_substr b h = elim (Option-cases (metadata_length b)) [
  | inl e ↦ rw e
  | inr (m, e) ↦ let l = h m e in rw e (ground arith)
]

-- Two bytecodes of which the second is at least as long as its metadata are the same exactly where what stands before
-- the metadata is the same text; for the second, this is what stands before its own metadata.
pub is_same_bytecode_iff :
    (one two : Text)
    → HoldsMetadata two
    → (is_same_bytecode one two ≡ true)
      ↔ (cut_substr one (metadata_length one) ≡ cut_substr two (metadata_length two))
unfolding is_same_bytecode
is_same_bytecode_iff one two h = elim (Bool-cases (same_text one two)) [
  | inl t ↦ (
    (λ _. ap (λ x. cut_substr x (metadata_length x)) ((same_text_iff one two).0 t)),
    (λ _. rw (t, is_same_bytecode)),
  )
  | inr f ↦
      rw (f, is_same_bytecode, cut_slice-cut_substr two h)
        (same_text_iff (cut_substr one (metadata_length one))
          (cut_substr two (metadata_length two)))
]
