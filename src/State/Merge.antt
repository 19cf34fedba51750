-- ===== src/State/Merge.antt =====
-- State: what a merge of state files has.
use hardhat_ignition.Prelude.{
  ◌≡◌, ◌∙◌, inl, inr, refl, sym, subst, ap, String, Option, none, some, List, [], ◌∷◌, ◌++◌, All,
  All-map, lookup, insert, lookup-insert, lookup-insert_ne, lookup-insert_self, keys,
  keys-insert_new, name_dec, if_pos, if_neg, arith, Option-cases,
}
use hardhat_ignition.Types.{FileElement, ModuleStateFile, ok, err, bindings_conflict}
use hardhat_ignition.State.{merge_states}

-- The first that is there.
abbrev pub first_of : {A : Type 0} → Option A → Option A → Option A
first_of none o = o
first_of (some a) o = some a

snoc-append : {A : Type 0} (xs ys : List A) (y : A) → (xs ++ y ∷ []) ++ ys ≡ xs ++ (y ∷ ys)
snoc-append [] ys y = refl
snoc-append (x ∷ xs) ys y = ap (λ zs. x ∷ zs) (snoc-append xs ys y)

abbrev Merged : (main new st : ModuleStateFile) → Type 0
Merged main new st =
    (keys st ≡ keys main ++ keys new)
    × ((x : String) → lookup x st ≡ first_of (lookup x main) (lookup x new))
    × All (λ x. lookup x main ≡ none) (keys new)

merge_step :
    (main rest st : ModuleStateFile) (n : String) (e : FileElement)
    → lookup n main ≡ none
    → Merged (insert n e main) rest st
    → Merged main ((n, e) ∷ rest) st
unfolding lookup
merge_step main rest st n e fresh (ks, found, apart) = (
  ks
      ∙ (ap (λ names. names ++ keys rest) (keys-insert_new n e main fresh)
          ∙ snoc-append (keys main) (keys rest) n),
  looked,
  (
    fresh,
    All-map (λ x. lookup x (insert n e main) ≡ none) (λ x. lookup x main ≡ none) (keys rest)
        before_too apart,
  ),
)
  where
    looked : (x : String) → lookup x st ≡ first_of (lookup x main) (lookup x ((n, e) ∷ rest))
    looked x = elim (name_dec n x) [
      | yes p ↦
          let h : lookup x (insert n e main) ≡ some e =
            subst (λ k. lookup k (insert n e main) ≡ some e) p (lookup-insert_self n e main) in
          let f : lookup x main ≡ none = subst (λ k. lookup k main ≡ none) p fresh in
          let g : lookup x ((n, e) ∷ rest) ≡ some e =
            if_pos (name_dec n x) p (some e) (lookup x rest) in
          found x ∙ rw (h, f, g) refl
      | no p ↦
          let h : lookup x (insert n e main) ≡ lookup x main = lookup-insert_ne n x e main p in
          let g : lookup x ((n, e) ∷ rest) ≡ lookup x rest =
            if_neg (name_dec n x) p (some e) (lookup x rest) in
          found x ∙ rw (h, g) refl
    ]

    before_too : (x : String) → lookup x (insert n e main) ≡ none → lookup x main ≡ none
    before_too x h = ground (arith, lookup-insert n x e main)

Merged-nil : (main : ModuleStateFile) → Merged main [] main
unfolding lookup
Merged-nil main = (append_nil (keys main), (λ x. first_none (lookup x main)), tt)
  where
    append_nil : (xs : List String) → xs ≡ xs ++ []
    append_nil [] = refl
    append_nil (x ∷ xs) = ap (λ zs. x ∷ zs) (append_nil xs)

    first_none : (o : Option FileElement) → o ≡ first_of o none
    first_none none = refl
    first_none (some a) = refl

-- A merge that does not throw has the elements of the main file and then those of the new file, in their
-- order and each under its name; no name of the new file is one of the main file.
pub merge_states-Merged :
    (main new st : ModuleStateFile)
    → merge_states main new ≡ ok st
    → (keys st ≡ keys main ++ keys new)
      × ((x : String) → lookup x st ≡ first_of (lookup x main) (lookup x new))
      × All (λ x. lookup x main ≡ none) (keys new)
unfolding merge_states
merge_states-Merged main [] st e =
    let q : main ≡ st = cc in subst (Merged main []) q (Merged-nil main)
merge_states-Merged main ((n, el) ∷ rest) st e = elim (Option-cases (lookup n main)) [
  | inr (a, q) ↦ absurd (
      let r : merge_states main ((n, el) ∷ rest) ≡ err bindings_conflict = rw (q, merge_states) in
      cc)
  | inl q ↦
      let r : merge_states main ((n, el) ∷ rest) ≡ merge_states (insert n el main) rest =
        rw (q, merge_states) in
      merge_step main rest st n el q (merge_states-Merged (insert n el main) rest st (sym r ∙ e))
]
