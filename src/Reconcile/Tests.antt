-- ===== src/Reconcile/Tests.antt =====
-- Reconcile: an exchange that was deployed before.
use hardhat_ignition.Prelude.{
  ◌≡◌, refl, true, false, Option, none, some, [], ◌∷◌, String, All, keys, lookup, insert, name_dec,
  names_differ,
}
use hardhat_ignition.Types.{
  ContractBinding, ContractBindingMetaData, Element, FileElement, StatefulEvent, ModuleState,
  ModuleStateFile, Result, ok, err, type_error,
}
use hardhat_ignition.Samples.{token, set_up, pending, no_events}
use hardhat_ignition.Checker.{starts_with, same_text}
use hardhat_ignition.Repo.{convert_binding_to_meta_data}
use hardhat_ignition.Compare.{
  hex_digit, read_digits, parse_digits, parse_hex, metadata_length, is_same_bytecode,
}
use hardhat_ignition.Reconcile.{
  Reconciliation, Source, Answers, in_file, address_of, invalidate_event, invalidate_events,
  forget_address, invalidate_named, invalidate_arg, invalidate_args, invalidate_dependant,
  ask_network, probe, must_deploy, known_contract, known_event, new_element, reconcile_element,
  reconcile_all, start_with, result_elements,
}
use hardhat_ignition.Reconcile.Invalidation.{IsPending}
use hardhat_ignition.Reconcile.Keys.{AreDistinct, reconcile_all-keys}
use hardhat_ignition.Reconcile.Kept.{IsKept, reconcile_element-IsKept}
use hardhat_ignition.Reconcile.Takeover.{reconcile_element-unchanged, reconcile_element-changed}

program : Unit {0}
unfolding lookup insert name_dec starts_with same_text hex_digit read_digits parse_digits parse_hex
    metadata_length is_same_bytecode invalidate_event invalidate_events forget_address
    invalidate_named invalidate_arg invalidate_args invalidate_dependant ask_network probe
    must_deploy known_contract known_event new_element reconcile_element reconcile_all
    result_elements AreDistinct
program = tt

abbrev answers : Answers
answers = record {
  get_code = λ address. ok (some (1 ∷ []));
  wrong_network = ok false;
  should_redeploy = λ name old b. ok false;
}

-- A network without the contracts, and a user who does not want to go on.
abbrev elsewhere : Answers
elsewhere = record answers { get_code = λ address. ok none }

abbrev deployed_at : String → ContractBinding → ContractBinding
deployed_at address b = record b {
  deploy_meta_data = record b.deploy_meta_data { contract_address = some address };
}

abbrev old_token : ContractBindingMetaData
old_token = convert_binding_to_meta_data (deployed_at "0x1" token)

abbrev done_event : StatefulEvent
done_event = record (pending set_up) { executed = true }

abbrev file : ModuleStateFile
file = ("Token", FileElement.contract old_token) ∷ ("setUp", FileElement.event done_event) ∷ []

abbrev elements : ModuleState
elements = ("Token", Element.contract token) ∷ ("setUp", Element.event (pending set_up)) ∷ []

abbrev state_of : Result Reconciliation → Reconciliation
state_of (ok st) = st
state_of (err e) = start_with elements file

abbrev result_of : ModuleState → Reconciliation
result_of es = state_of (reconcile_all 5 answers (keys es) (start_with es file))

abbrev address_after : Result Reconciliation → String → Option String
address_after r name = address_of (state_of r) name

reconcile_all-keys_example : keys (result_of elements).resolved ≡ "Token" ∷ "setUp" ∷ []
unfolding program
reconcile_all-keys_example =
    reconcile_all-keys 5 answers elements file (result_of elements)
      ((names_differ "Token" "setUp" refl, tt), (tt, tt)) refl

token_kept :
    (st' : Reconciliation) × (reconcile_element 5 answers "Token"
        (Element.contract token)
        (start_with elements file)
      ≡ ok st')
    × (lookup "Token" st'.resolved ≡ some Source.taken)
    × (address_of st' "Token" ≡ some "0x1")
unfolding program
token_kept =
    reconcile_element-unchanged 5 answers "Token" old_token token "0x1" (some (1 ∷ []))
      (start_with elements file) refl refl refl refl refl refl refl refl

reconcile_element-IsKept_example :
    IsKept answers
      (state_of (
        reconcile_element 5 answers "Token"
          (Element.contract token)
          (start_with elements file))).always
      old_token
      token
unfolding program
reconcile_element-IsKept_example =
    reconcile_element-IsKept 5 answers "Token" old_token token (start_with elements file)
      (state_of
        (reconcile_element 5 answers "Token" (Element.contract token) (start_with elements file)))
      refl refl refl

-- The token changes, on which the hook depends.
abbrev new_token : ContractBinding
new_token = record token {
  bytecode = 54 ∷ 48 ∷ 48 ∷ 54 ∷ 99 ∷ 99 ∷ 48 ∷ 48 ∷ 48 ∷ 49 ∷ [];
  events_deps = record no_events { after_deploy = "setUp" ∷ [] };
}

abbrev changed : Reconciliation
changed =
    state_of
      (reconcile_element 5 answers "Token" (Element.contract new_token) (start_with elements file))

reconcile_element-changed_example :
    (lookup "Token" changed.resolved ≡ some Source.own)
    × (address_of changed "Token" ≡ none)
    × All (λ ev. IsPending (in_file changed ev)) ("setUp" ∷ [])
unfolding program
reconcile_element-changed_example =
    reconcile_element-changed 5 answers "Token" old_token new_token (start_with elements file)
      changed refl refl refl

-- Where the network has no code and the user does not want to go on, the old address is taken over all the same.
elsewhere-taken :
    address_after
      (reconcile_element 5 elsewhere "Token" (Element.contract token) (start_with elements file))
      "Token"
    ≡ some "0x1"
unfolding program
elsewhere-taken = refl

-- A contract where the file has an event: the error that is meant is not built.
mismatch-throws :
    reconcile_element 5 answers "setUp" (Element.contract token) (start_with elements file)
    ≡ err type_error
unfolding program
mismatch-throws = refl
