-- ===== src/Effects.antt =====
-- Calls that read and write a state and may throw. What was written before a throw stays written.
use hardhat_ignition.Prelude.{◌≡◌, refl, ap, Bool, Option, none, some, List, [], ◌∷◌, if◌then◌else◌}
use hardhat_ignition.Types.{Result, ok, err, Error}

abbrev pub Eff : Type 0 → Type 0 → Type 0
Eff S A = S → Result A × S

module _ {S : Type 0} where
  abbrev pub return : {A : Type 0} → A → Eff S A
  return value s = (ok value, s)

  abbrev pub throw : {A : Type 0} → Error → Eff S A
  throw e s = (err e, s)

  abbrev pub get : {A : Type 0} → (S → A) → Eff S A
  get view s = (ok (view s), s)

  abbrev pub put : (S → S) → Eff S (Unit {0})
  put change s = (ok tt, change s)

  -- A function that answers and changes the state.
  abbrev pub run : {A : Type 0} → (S → A × S) → Eff S A
  run call s = (ok (call s).0, (call s).1)

  abbrev pub need : {A : Type 0} → Option A → Error → Eff S A
  need (some value) e = return value
  need none e = throw e

  -- The answer of a function that changes nothing.
  abbrev pub lift : {A : Type 0} → Result A → Eff S A
  lift result s = (result, s)

  abbrev pub change_error : {A : Type 0} → (Error → Error) → Result A × S → Result A × S
  change_error change (ok value, s) = (ok value, s)
  change_error change (err e, s) = (err (change e), s)

  -- `try { … } catch (e) { throw change(e) }`
  abbrev pub catching : {A : Type 0} → (Error → Error) → Eff S A → Eff S A
  catching change call s = change_error change (call s)

  abbrev pub throw_if : Bool → Error → Eff S (Unit {0})
  throw_if test e s = (if test then err e else ok tt, s)

  abbrev pub follow : {A B : Type 0} → (A → Eff S B) → Result A × S → Result B × S
  follow next (ok value, s) = next value s
  follow next (err e, s) = (err e, s)

  infixl 5 ◌>>=◌ ◌>>◌
  abbrev pub ◌>>=◌ : {A B : Type 0} → Eff S A → (A → Eff S B) → Eff S B
  ◌>>=◌ call next s = follow next (call s)

  abbrev pub ◌>>◌ : {A B : Type 0} → Eff S A → Eff S B → Eff S B
  ◌>>◌ call next s = follow (λ _. next) (call s)

  -- A loop over a list.
  abbrev pub each : {A : Type 0} → (A → Eff S (Unit {0})) → List A → Eff S (Unit {0})
  each body [] = return tt
  each body (a ∷ as_) = body a >> each body as_

module _ {S A B : Type 0} where
  follow-eq-ok :
      (next : A → Eff S B) (before : Result A × S) {b : B} {t : S}
      → follow next before ≡ (ok b, t)
      → (a : A) × (s : S) × (before ≡ (ok a, s)) × (next a s ≡ (ok b, t))
  follow-eq-ok next (ok a, s) e = (a, s, refl, e)
  follow-eq-ok next (err x, s) e = absurd (let q : err x ≡ ok _ = ap (λ p. p.0) e in cc)

  -- A sequence that succeeds succeeds in both its parts.
  pub >>=-eq-ok :
      (call : Eff S A) (next : A → Eff S B) (s : S) {b : B} {t : S}
      → (call >>= next) s ≡ (ok b, t)
      → (a : A) × (u : S) × (call s ≡ (ok a, u)) × (next a u ≡ (ok b, t))
  >>=-eq-ok call next s e = follow-eq-ok next (call s) e

  pub >>-eq-ok :
      (call : Eff S A) (next : Eff S B) (s : S) {b : B} {t : S}
      → (call >> next) s ≡ (ok b, t)
      → (a : A) × (u : S) × (call s ≡ (ok a, u)) × (next u ≡ (ok b, t))
  >>-eq-ok call next s e = follow-eq-ok (λ _. next) (call s) e
