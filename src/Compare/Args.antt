-- ===== src/Compare/Args.antt =====
-- Compare: arguments and inputs.
use hardhat_ignition.Prelude.{
  ◌≡◌, ◌↔◌, inl, inr, refl, ap, subst, ◌==◌, ==_iff, Bool, true, false, ◌&&◌, List, [], ◌∷◌, ℤ, pos,
  negsuc, All, length, if◌then◌else◌, Bool-cases, arith,
}
use hardhat_ignition.Types.{Value, Result, ok, err, type_error}
use hardhat_ignition.Compare.{
  same_int, same_bool, strict_equal, every_equal, array_equals, is_nothing, args_loop, check_args,
}
use hardhat_ignition.Compare.Texts.{same_text_iff}

-- A value that is no object, and one of which a field can be read besides.
unfoldable pub IsPrimitive : Value → Type 0
IsPrimitive Value.undefined = Unit
IsPrimitive Value.null = Unit
IsPrimitive (Value.bool b) = Unit
IsPrimitive (Value.number n) = Unit
IsPrimitive (Value.string t) = Unit
IsPrimitive _ = ⊥

unfoldable pub IsReadable : Value → Type 0
IsReadable (Value.bool b) = Unit
IsReadable (Value.number n) = Unit
IsReadable (Value.string t) = Unit
IsReadable _ = ⊥

and_parts : (b c : Bool) → (b && c) ≡ true → (b ≡ true) × (c ≡ true)
and_parts true c h = (refl, h)
and_parts false c h = cc

readable :
    (a : Value) (rest : Result Bool)
    → IsPrimitive a
    → (if is_nothing a then err type_error else rest) ≡ ok true
    → IsReadable a × (rest ≡ ok true)
unfolding IsPrimitive IsReadable
readable Value.undefined rest p h = cc
readable Value.null rest p h = cc
readable (Value.bool b) rest p h = (tt, h)
readable (Value.number n) rest p h = (tt, h)
readable (Value.string t) rest p h = (tt, h)
readable _ rest p h = elim p [ ]

readable-IsPrimitive : (a : Value) → IsReadable a → IsPrimitive a
unfolding IsPrimitive IsReadable
readable-IsPrimitive (Value.bool b) p = tt
readable-IsPrimitive (Value.number n) p = tt
readable-IsPrimitive (Value.string t) p = tt
readable-IsPrimitive Value.undefined p = tt
readable-IsPrimitive Value.null p = tt
readable-IsPrimitive _ p = elim p [ ]

readable-something : (a : Value) → IsReadable a → is_nothing a ≡ false
unfolding IsReadable
readable-something Value.undefined p = elim p [ ]
readable-something Value.null p = elim p [ ]
readable-something _ p = refl

same_int_iff : (m n : ℤ) → (same_int m n ≡ true) ↔ (m ≡ n)
same_int_iff (pos m) (pos n) = ground arith
same_int_iff (negsuc m) (negsuc n) = ground arith
same_int_iff (pos m) (negsuc n) = ground arith
same_int_iff (negsuc m) (pos n) = ground arith

same_bool_iff : (b c : Bool) → (same_bool b c ≡ true) ↔ (b ≡ c)
same_bool_iff true true = ground arith
same_bool_iff true false = ground arith
same_bool_iff false true = ground arith
same_bool_iff false false = ground arith

strict_equal-eq : (a b : Value) → strict_equal a b ≡ true → (a ≡ b) × IsPrimitive a
unfolding strict_equal IsPrimitive
strict_equal-eq Value.undefined Value.undefined h = (refl, tt)
strict_equal-eq Value.null Value.null h = (refl, tt)
strict_equal-eq (Value.bool b) (Value.bool c) h = (ap Value.bool ((same_bool_iff b c).0 h), tt)
strict_equal-eq (Value.number b) (Value.number c) h = (ap Value.number ((same_int_iff b c).0 h), tt)
strict_equal-eq (Value.string b) (Value.string c) h =
    (ap Value.string ((same_text_iff b c).0 h), tt)
strict_equal-eq _ _ h = cc

strict_equal_self : (a : Value) → IsPrimitive a → strict_equal a a ≡ true
unfolding strict_equal IsPrimitive
strict_equal_self Value.undefined p = refl
strict_equal_self Value.null p = refl
strict_equal_self (Value.bool b) p = (same_bool_iff b b).1 refl
strict_equal_self (Value.number n) p = (same_int_iff n n).1 refl
strict_equal_self (Value.string t) p = (same_text_iff t t).1 refl
strict_equal_self (Value.big_number n) p = elim p [ ]
strict_equal_self (Value.big_number_json n) p = elim p [ ]
strict_equal_self (Value.array n) p = elim p [ ]
strict_equal_self (Value.binding n) p = elim p [ ]
strict_equal_self (Value.meta_data n) p = elim p [ ]

every_equal-eq :
    (a b : List Value) → length a ≡ length b → every_equal a b ≡ true → (a ≡ b) × All IsPrimitive a
unfolding every_equal
every_equal-eq [] [] l h = (refl, tt)
every_equal-eq [] (b ∷ bs) l h = absurd (omega (arith, l))
every_equal-eq (a ∷ as_) [] l h = absurd (omega (arith, l))
every_equal-eq (a ∷ as_) (b ∷ bs) l h =
    let (p, q) = and_parts (strict_equal a b) (every_equal as_ bs) h in
    let (e, v) = strict_equal-eq a b p in
    let (es, vs) = every_equal-eq as_ bs (omega (arith, l)) q in ((λ i. e i ∷ es i), (v, vs))

every_equal_self : (a : List Value) → All IsPrimitive a → every_equal a a ≡ true
unfolding every_equal
every_equal_self [] p = refl
every_equal_self (a ∷ as_) (p, ps) = rw (strict_equal_self a p) (every_equal_self as_ ps)

-- Two arrays are equal to arrayEquals exactly where they have the same values in the same order and none of
-- them is an object.
pub array_equals_iff :
    (a b : List Value) → (array_equals a b ≡ true) ↔ ((a ≡ b) × All IsPrimitive a)
unfolding array_equals
array_equals_iff a b = (
  λ h.
      let (p, q) = and_parts (length a == length b) (every_equal a b) h in
      every_equal-eq a b ((==_iff (length a) (length b)).0 p) q,
  λ (e, v).
      subst (λ c. array_equals a c ≡ true) e
        (rw ((==_iff (length a) (length a)).1 refl, array_equals) (every_equal_self a v)),
)

args_loop-eq :
    (a b : List Value) → length a ≡ length b → args_loop a b ≡ ok true → (a ≡ b) × All IsReadable a
unfolding args_loop IsPrimitive IsReadable
args_loop-eq [] [] l h = (refl, tt)
args_loop-eq [] (b ∷ bs) l h = absurd (omega (arith, l))
args_loop-eq (a ∷ as_) [] l h = absurd (omega (arith, l))
args_loop-eq (a ∷ as_) (b ∷ bs) l h = elim (Bool-cases (strict_equal a b)) [
  | inr f ↦ absurd (let q : ok false ≡ ok true = rw f at h in cc)
  | inl t ↦
      let (e, v) = strict_equal-eq a b t in
      let k : (if is_nothing a then err type_error else args_loop as_ bs) ≡ ok true = rw t at h in
      let (r, k2) = readable a (args_loop as_ bs) v k in
      let (es, vs) = args_loop-eq as_ bs (omega (arith, l)) k2 in ((λ i. e i ∷ es i), (r, vs))
]

args_loop_self : (a : List Value) → All IsReadable a → args_loop a a ≡ ok true
unfolding args_loop
args_loop_self [] p = refl
args_loop_self (a ∷ as_) (p, ps) =
    rw (strict_equal_self a (readable-IsPrimitive a p), readable-something a p)
      (args_loop_self as_ ps)

-- checkArgs answers that nothing has changed exactly where the arguments are the same values in the same order and
-- each of them is a Boolean, a number or a text: with any object among them, such as a contract or a
-- BigNumber, the arguments always count as changed.
pub check_args_iff : (a b : List Value) → (check_args a b ≡ ok true) ↔ ((a ≡ b) × All IsReadable a)
unfolding check_args
check_args_iff a b = (
  λ h. elim (Bool-cases (length a == length b)) [
    | inl t ↦ args_loop-eq a b ((==_iff (length a) (length b)).0 t) (rw t at h)
    | inr f ↦ absurd (let q : ok false ≡ ok true = rw f at h in cc)
  ],
  λ (e, v).
      subst (λ c. check_args a c ≡ ok true) e
        (rw ((==_iff (length a) (length a)).1 refl, check_args) (args_loop_self a v)),
)
