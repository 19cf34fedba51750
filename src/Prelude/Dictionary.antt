-- ===== src/Prelude/Dictionary.antt =====
-- JavaScript objects used as dictionaries from names: entries in the order of their first insertion.
-- An assignment to a present name keeps its place.
use Prim.Native.String.{String}
use mathlib.Core.Path.{◌≡◌, refl, subst}
use mathlib.Core.Logic.{◌≢◌, inl, inr, ite}
use mathlib.Core.Option.{Option, none, some}
use mathlib.Core.List.{List, [], ◌∷◌, ◌++◌}
use native.Mathlib.Omega.{arith}
use hardhat_ignition.Prelude.Tests.{name_dec}
use hardhat_ignition.Prelude.Lists.{All, In}

abbrev pub Dict {ℓ} : Type ℓ → Type ℓ
Dict V = List (String × V)

module _ {ℓ} {V : Type ℓ} where
  unfoldable pub lookup : String → Dict V → Option V
  lookup k [] = none
  lookup k ((j, v) ∷ m) = ite (name_dec j k) (some v) (lookup k m)

  unfoldable pub insert : String → V → Dict V → Dict V
  insert k v [] = (k, v) ∷ []
  insert k v ((j, w) ∷ m) = ite (name_dec j k) ((j, v) ∷ m) ((j, w) ∷ insert k v m)

  -- `delete d[k]`
  unfoldable pub remove : String → Dict V → Dict V
  remove k [] = []
  remove k ((j, w) ∷ m) = ite (name_dec j k) (remove k m) ((j, w) ∷ remove k m)

  abbrev pub keys : Dict V → List String
  keys [] = []
  keys ((j, v) ∷ m) = j ∷ keys m

  pub lookup-insert :
      (k j : String) (v : V) (m : Dict V)
      → lookup j (insert k v m) ≡ ite (name_dec k j) (some v) (lookup j m)
  unfolding lookup insert
  lookup-insert k j v [] = refl
  lookup-insert k j v ((i, w) ∷ m) = ground (arith, lookup-insert k j v m)

  pub lookup-insert_self : (k : String) (v : V) (m : Dict V) → lookup k (insert k v m) ≡ some v
  lookup-insert_self k v m = ground (arith, lookup-insert k k v m)

  pub lookup-insert_ne :
      (k j : String) (v : V) (m : Dict V) → k ≢ j → lookup j (insert k v m) ≡ lookup j m
  lookup-insert_ne k j v m h = ground (arith, lookup-insert k j v m)

  pub lookup-remove :
      (k j : String) (m : Dict V) → lookup j (remove k m) ≡ ite (name_dec k j) none (lookup j m)
  unfolding lookup remove
  lookup-remove k j [] = ground arith
  lookup-remove k j ((i, w) ∷ m) = ground (arith, lookup-remove k j m)

  -- A new name goes to the end.
  pub keys-insert_new :
      (k : String) (v : V) (m : Dict V) → lookup k m ≡ none → keys (insert k v m) ≡ keys m ++ k ∷ []
  unfolding lookup insert
  keys-insert_new k v [] h = refl
  keys-insert_new k v ((i, w) ∷ m) h = ground (arith, keys-insert_new k v m)

  pub keys-insert_old :
      (k : String) (v w : V) (m : Dict V) → lookup k m ≡ some w → keys (insert k v m) ≡ keys m
  unfolding lookup insert
  keys-insert_old k v w [] h = cc
  keys-insert_old k v w ((i, u) ∷ m) h = ground (arith, keys-insert_old k v w m)

pub lookup-In : {V : Type 0} (k : String) (v : V) (m : Dict V) → lookup k m ≡ some v → In k (keys m)
unfolding lookup
lookup-In k v [] h = absurd (cc)
lookup-In k v ((j, w) ∷ m) h = elim (name_dec j k) [
  | yes e ↦ inl e
  | no e ↦ inr (lookup-In k v m (ground arith))
]

-- What holds of every entry holds of the one that is found.
pub All-lookup {κ} :
    {V : Type 0} (P : String → V → Type κ) (k : String) (v : V) (m : Dict V)
    → All (λ entry. P entry.0 entry.1) m
    → lookup k m ≡ some v
    → P k v
unfolding lookup
All-lookup P k v [] h e = absurd (cc)
All-lookup P k v ((j, w) ∷ m) (p, h) e = elim (name_dec j k) [
  | yes q ↦ subst (P k) (let r : w ≡ v = ground arith in r) (subst (λ i. P i w) q p)
  | no q ↦ All-lookup P k v m h (ground arith)
]
