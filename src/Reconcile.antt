-- ===== src/Reconcile.antt =====
-- services/modules/module-resolver.ts: the second part of `resolve`, which compares the ordered elements with the
-- module's state file, and the invalidation of what depends on a contract that is deployed again.
--
-- The program shares objects: a contract that is taken over holds the file's `deployMetaData`, and a stored event is
-- the file's object, so that a later invalidation reaches both. `objects` are the file's objects, `emptied` tells
-- that `moduleStateFile` was assigned an empty object since, and `resolved` tells for each element of the
-- result which objects it holds. Arguments of the module's bindings are bindings.
mod Invalidate
pub mod Keys
pub mod Takeover
pub mod Kept
pub mod Invalidation
mod Tests
unfoldable pub use Invalidate.*
use hardhat_ignition.Prelude.{
  ℕ, zero, suc, ◌==◌, Bool, true, false, not, ◌&&◌, ◌||◌, Option, none, some, List, [], ◌∷◌, ◌++◌,
  String, Dict, lookup, insert, keys, name_dec, dec_test, if◌then◌else◌,
}
use hardhat_ignition.Types.{
  Text, EventType, Event, event_name, event_type_of, StatefulEvent, Value, EventsDepRef, Deployed,
  ContractBinding, ContractBindingMetaData, Element, FileElement, ModuleState, ModuleStateFile,
  Bindings, Events, Result, ok, err, Error, or_fail, ◌>>=◌, type_error, stack_overflow,
  module_state_mismatch, element_name_mismatch, event_type_mismatch,
}
use hardhat_ignition.Compare.{is_same_bytecode}
use hardhat_ignition.Resolver.{Slot, Resolution, ModuleEvents, resolve_elements}

-- What the node, the prompt and `shouldRedeploy` answer.
pub record Answers : Type 0 where
  pub get_code : (address : String) → Result (Option Text)
  pub wrong_network : Result Bool
  pub should_redeploy : String → ContractBindingMetaData → ContractBinding → Result Bool

-- `!checkIfExist(code) || code === "0x"`
abbrev pub is_missing : Option Text → Bool
is_missing none = true
is_missing (some (c ∷ d ∷ [])) = (c == 48) && (d == 120)
is_missing (some _) = false

abbrev pub is_true : Option Bool → Bool
is_true (some true) = true
is_true _ = false

-- The user is asked once, where a stored contract has no code on the network.
unfoldable pub ask_network : Answers → Option Text → Reconciliation → Result Reconciliation
ask_network answers code st =
    if is_missing code
    then elim answers.wrong_network [
      | err e ↦ err e
      | ok answer ↦ ok (record st { always = some answer; emptied = st.emptied || not answer })
    ]
    else ok st

unfoldable pub probe : Answers → ContractBindingMetaData → Reconciliation → Result Reconciliation
probe answers old st = elim st.always [
  | some _ ↦ ok st
  | none ↦ elim old.deploy_meta_data.contract_address [
    | none ↦ ok st
    | some address ↦ elim (answers.get_code address) [
      | err e ↦ err e
      | ok code ↦ ask_network answers code st
    ]
  ]
]

-- The condition under which a contract is deployed again, in the order of its evaluation.
unfoldable pub must_deploy :
    Answers → Option Bool → ContractBindingMetaData → ContractBinding → Result Bool
must_deploy answers always old b =
    if is_true always || (b.force_flag || not (is_same_bytecode old.bytecode b.bytecode))
    then ok true
    else elim (if b.deploy_meta_data.should_redeploy
        then answers.should_redeploy b.name old b
        else ok false) [
          | err e ↦ err e
          | ok true ↦ ok true
          | ok false ↦ elim old.deploy_meta_data.contract_address [
            | none ↦ ok true
            | some _ ↦ ok false
          ]
        ]

-- The fields that a contract takes over.
abbrev pub take_over : ContractBindingMetaData → ContractBinding → ContractBinding
take_over old b = record b {
  bytecode = old.bytecode;
  abi = old.abi;
  libraries = old.libraries;
  deploy_meta_data = old.deploy_meta_data;
  tx_data = old.tx_data;
  wired = true;
}

abbrev pub set_element : String → Element → Reconciliation → Reconciliation
set_element name e st = record st { live = insert name e st.live }

-- A contract that the state file has.
unfoldable pub known_contract :
    ℕ
    → Answers
    → String
    → ContractBindingMetaData
    → ContractBinding
    → Reconciliation
    → Result Reconciliation
known_contract depth answers name old b st = do
  st' ← probe answers old st
  deploy ← must_deploy answers st'.always old b
  let wired : ContractBinding = record b { wired = true }
  if deploy
      then invalidate_dependant depth wired
          (add_resolved name Source.own (set_element name (Element.contract wired) st'))
      else ok (
          add_resolved name Source.taken
            (set_element name (Element.contract (take_over old b)) st'))

abbrev type_code : EventType → ℕ
type_code EventType.on_change_event = 0
type_code EventType.before_deploy_event = 1
type_code EventType.after_deploy_event = 2
type_code EventType.after_compile_event = 3
type_code EventType.before_compile_event = 4
type_code EventType.on_start = 5
type_code EventType.on_fail = 6
type_code EventType.on_completion = 7
type_code EventType.on_success = 8
type_code EventType.deploy = 9

-- An event that the state file has.
unfoldable pub known_event :
    String → StatefulEvent → StatefulEvent → Reconciliation → Result Reconciliation
known_event name old e st =
    if not (dec_test (name_dec (event_name old.event) (event_name e.event)))
    then err element_name_mismatch
    else if not (type_code (event_type_of old.event) == type_code (event_type_of e.event))
    then err event_type_mismatch
    else ok (
        add_resolved name Source.stored_event
          (set_object name (FileElement.event (record old { event = e.event })) st))

-- An element that is not compared.
unfoldable pub new_element : String → Element → Reconciliation → Reconciliation
new_element name (Element.contract b) st =
    add_resolved name Source.own
      (set_element name (Element.contract (record b { wired = true })) st)
new_element name (Element.event e) st = add_resolved name Source.new_event st

-- The loop's body. For a contract where the file has an event, the arguments of the error are read of a
-- contract's `event`, which is `undefined`.
unfoldable pub reconcile_element :
    ℕ → Answers → String → Element → Reconciliation → Result Reconciliation
reconcile_element depth answers name e st = elim (in_file st name) [
  | none ↦ ok (new_element name e st)
  | some (FileElement.contract old) ↦ elim e [
    | Element.event _ ↦ err module_state_mismatch
    | Element.contract b ↦ known_contract depth answers name old b st
  ]
  | some (FileElement.event old) ↦
      if is_true st.always then ok (new_element name e st) else elim e [
        | Element.contract _ ↦ err type_error
        | Element.event v ↦ known_event name old v st
      ]
]

-- The loop over the names of the ordered elements, each read where it stands by then.
unfoldable pub reconcile_all : ℕ → Answers → List String → Reconciliation → Result Reconciliation
reconcile_all depth answers [] st = ok st
reconcile_all depth answers (name ∷ names) st = do
  e ← or_fail (lookup name st.live) type_error
  st' ← reconcile_element depth answers name e st
  reconcile_all depth answers names st'

-- The elements of the result, with the objects that they hold.
abbrev pub stored_deploy : Option FileElement → Deployed → Deployed
stored_deploy (some (FileElement.contract m)) d = m.deploy_meta_data
stored_deploy _ d = d

abbrev pub with_stored : Option FileElement → Element → Element
with_stored o (Element.contract b) =
    Element.contract (record b { deploy_meta_data = stored_deploy o b.deploy_meta_data })
with_stored o (Element.event e) = Element.event e

abbrev pub stored_or : Option FileElement → Element → Element
stored_or (some (FileElement.event e)) old = Element.event e
stored_or _ old = old

abbrev pub element_at : Reconciliation → String → Source → Element → Element
element_at st name Source.own e = e
element_at st name Source.new_event e = e
element_at st name Source.taken e = with_stored (lookup name st.objects) e
element_at st name Source.stored_event e = stored_or (lookup name st.objects) e

unfoldable pub result_elements : Reconciliation → Dict Source → ModuleState
result_elements st [] = []
result_elements st ((name, source) ∷ rest) = elim (lookup name st.live) [
  | none ↦ result_elements st rest
  | some e ↦ (name, element_at st name source e) ∷ result_elements st rest
]

abbrev pub start_with : ModuleState → ModuleStateFile → Reconciliation
start_with elements file = record {
  objects = file;
  emptied = false;
  always = none;
  live = elements;
  resolved = [];
}

-- The elements that the first part of `resolve` leaves, with what it changed in the bindings.
abbrev marked : Option String → ContractBinding → ContractBinding
marked none b = b
marked (some event) b = record b {
  deploy_meta_data = record b.deploy_meta_data {
    last_event_name = some event;
    logically_deployed = some false;
  };
}

unfoldable pub elements_of : Bindings → Dict String → Dict Slot → Result ModuleState
elements_of bindings marks [] = ok []
elements_of bindings marks ((name, Slot.event e) ∷ rest) = do
  elements ← elements_of bindings marks rest
  ok ((name, Element.event e) ∷ elements)
elements_of bindings marks ((name, Slot.contract) ∷ rest) = do
  b ← or_fail (lookup name bindings) type_error
  elements ← elements_of bindings marks rest
  ok ((name, Element.contract (marked (lookup name marks) b)) ∷ elements)

-- resolve
unfoldable pub resolve :
    ℕ → Answers → Bindings → Events → ModuleEvents → ModuleStateFile → Result ModuleState
resolve depth answers bindings events module_events file = do
  st ← resolve_elements depth bindings events module_events
  elements ← elements_of bindings st.marks st.module_state
  final ← reconcile_all depth answers (keys elements) (start_with elements file)
  ok (result_elements final final.resolved)
