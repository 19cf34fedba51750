-- ===== src/Compare/Differences.antt =====
-- Compare: what counts as a difference of a module from its stored state.
use hardhat_ignition.Prelude.{
  ◌≡◌, ◌↔◌, ◌⊎◌, inl, inr, refl, ap, suc, String, ◌==◌, ==_iff, Bool, true, false, ◌&&◌, not, some,
  [], ◌∷◌, length, name_dec, dec_test, Bool-cases, Option-cases, arith,
}
use hardhat_ignition.Types.{
  event_name, ContractBinding, ContractBindingMetaData, Element, FileElement, ModuleState,
  ModuleStateFile, Result-cases, ok, err,
}
use hardhat_ignition.Compare.{
  is_same_bytecode, check_args, contracts_differ, elements_differ, diff_loop, check_if_diff,
}

-- A contract with the same bytecode and arguments that was deployed, or an event with the same name or executed.
unfoldable pub IsUnchanged : FileElement → Element → Type 0
IsUnchanged (FileElement.contract old) (Element.contract new) =
    (is_same_bytecode old.bytecode new.bytecode ≡ true)
    × (check_args old.args new.args ≡ ok true)
    × ((a : String) × (old.deploy_meta_data.contract_address ≡ some a))
IsUnchanged (FileElement.event old) (Element.event new) =
    (event_name old.event ≡ event_name new.event) ⊎ (new.executed ≡ true)
IsUnchanged _ _ = ⊥

-- The elements at the same positions, of lists of the same length.
unfoldable pub AreUnchanged : ModuleStateFile → ModuleState → Type 0
AreUnchanged [] [] = Unit
AreUnchanged ((_, old) ∷ olds) ((_, new) ∷ news) = IsUnchanged old new × AreUnchanged olds news
AreUnchanged _ _ = ⊥

contracts_differ-IsUnchanged :
    (old : ContractBindingMetaData) (new : ContractBinding)
    → contracts_differ old new ≡ ok false
    → IsUnchanged (FileElement.contract old) (Element.contract new)
unfolding contracts_differ IsUnchanged
contracts_differ-IsUnchanged old new h =
    elim (Bool-cases (is_same_bytecode old.bytecode new.bytecode)) [
      | inr f ↦ absurd (let q : ok true ≡ ok false = rw f at h in cc)
      | inl t ↦ elim (Result-cases (check_args old.args new.args)) [
        | inr (x, e) ↦ absurd (let q : err x ≡ ok false = rw (t, e) at h in cc)
        | inl (false, e) ↦ absurd (let q : ok true ≡ ok false = rw (t, e) at h in cc)
        | inl (true, e) ↦ elim (Option-cases old.deploy_meta_data.contract_address) [
          | inl n ↦ absurd (let q : ok true ≡ ok false = rw (t, e, n) at h in cc)
          | inr (a, n) ↦ (t, e, (a, n))
        ]
      ]
    ]

event_test_iff :
    (a b : String) (x : Bool)
    → (ok (not (dec_test (name_dec a b)) && not x) ≡ ok false) ↔ ((a ≡ b) ⊎ (x ≡ true))
event_test_iff a b true = ground arith
event_test_iff a b false = elim (name_dec a b) [
  | yes e ↦ ((λ _. inl e), λ _. ground (arith, e))
  | no n ↦ (
    (λ h. absurd (
        let q : dec_test (name_dec a b) ≡ false = ground (arith, n) in
        let r : ok true ≡ ok false = rw q at h in cc)),
    λ o. elim o [ inl e ↦ absurd (n e) | inr t ↦ cc ],
  )
]

elements_differ_iff :
    (old : FileElement) (new : Element) → (elements_differ old new ≡ ok false) ↔ IsUnchanged old new
unfolding elements_differ contracts_differ IsUnchanged
elements_differ_iff (FileElement.contract old) (Element.contract new) =
    (contracts_differ-IsUnchanged old new, λ (s, a, (d, e)). rw (s, a, e))
elements_differ_iff (FileElement.event old) (Element.event new) =
    event_test_iff (event_name old.event) (event_name new.event) new.executed
elements_differ_iff (FileElement.contract old) (Element.event new) = ((λ h. cc), λ x. elim x [ ])
elements_differ_iff (FileElement.event old) (Element.contract new) = ((λ h. cc), λ x. elim x [ ])

diff_loop-AreUnchanged :
    (old : ModuleStateFile) (new : ModuleState)
    → length old ≡ length new
    → diff_loop old new ≡ ok false
    → AreUnchanged old new
unfolding diff_loop AreUnchanged
diff_loop-AreUnchanged [] [] l h = tt
diff_loop-AreUnchanged [] (n ∷ ns) l h = absurd (omega (arith, l))
diff_loop-AreUnchanged (o ∷ os) [] l h = absurd (omega (arith, l))
diff_loop-AreUnchanged ((j, o) ∷ os) ((k, n) ∷ ns) l h = elim (Result-cases (elements_differ o n)) [
  | inr (x, e) ↦ absurd (let q : err x ≡ ok false = rw (e, diff_loop) at h in cc)
  | inl (true, e) ↦ absurd (let q : ok true ≡ ok false = rw (e, diff_loop) at h in cc)
  | inl (false, e) ↦ (
    (elements_differ_iff o n).0 e,
    diff_loop-AreUnchanged os ns (omega (arith, l)) (rw (e, diff_loop) at h),
  )
]

AreUnchanged-diff_loop :
    (old : ModuleStateFile) (new : ModuleState)
    → AreUnchanged old new
    → (length old ≡ length new) × (diff_loop old new ≡ ok false)
unfolding diff_loop AreUnchanged
AreUnchanged-diff_loop [] [] u = (refl, refl)
AreUnchanged-diff_loop [] (n ∷ ns) u = elim u [ ]
AreUnchanged-diff_loop (o ∷ os) [] u = elim u [ ]
AreUnchanged-diff_loop ((j, o) ∷ os) ((k, n) ∷ ns) (p, ps) =
    let (l, d) = AreUnchanged-diff_loop os ns ps in
    (ap suc l, rw ((elements_differ_iff o n).1 p, diff_loop) d)

-- checkIfDiff answers that there is no difference exactly where the stored state and the new one have equally many
-- elements and those at the same positions are unchanged: two contracts with the same bytecode up to its metadata, arguments that
-- checkArgs finds equal and a known address, or two events that have the same name or of which the new one is executed.
pub check_if_diff_iff :
    (old : ModuleStateFile) (new : ModuleState)
    → (check_if_diff old new ≡ ok false) ↔ AreUnchanged old new
unfolding check_if_diff
check_if_diff_iff old new = (
  (λ h. elim (Bool-cases (length old == length new)) [
    | inl t ↦ diff_loop-AreUnchanged old new ((==_iff (length old) (length new)).0 t) (rw t at h)
    | inr f ↦ absurd (let q : ok true ≡ ok false = rw f at h in cc)
  ]),
  λ u.
      let (l, d) = AreUnchanged-diff_loop old new u in
      rw ((==_iff (length old) (length new)).1 l, check_if_diff) d,
)
