-- ===== src/Execution/Settled.antt =====
-- Execution: a module that is deployed already sends nothing.
use hardhat_ignition.Prelude.{
  ◌≡◌, ◌∙◌, Option, none, inl, inr, refl, sym, ap, String, true, false, some, List, [], ◌∷◌, ℤ, All,
  All-map, lookup, insert, lookup-insert_self, lookup-insert_ne, dec_test, name_dec, Option-cases,
  Bool-cases,
}
use hardhat_ignition.Types.{
  Text, Event, event_name, event_type_of, deps_of, StatefulEvent, ContractBinding, Element,
  ModuleState, Result-cases, Error, ok, err, type_error, cli_error,
}
use hardhat_ignition.Effects.{Eff, get, throw, throw_if, each, follow, ◌>>=◌, ◌>>◌}
use hardhat_ignition.Repo.{touch_binding, get_state_if_exist, store_single_binding}
use hardhat_ignition.Handler.{World, on_repo, is_unknown, store_dependency, store_dependencies}
use hardhat_ignition.Handler.Runs.{HasAddress, execute_event-once}
use hardhat_ignition.Execution.{Outside, execute_contract, execute_element, execute_sync}

-- The address of the contract that a name stands for.
abbrev pub address_in : Option Element → Option String
address_in none = none
address_in (some (Element.event e)) = none
address_in (some (Element.contract b)) = b.deploy_meta_data.contract_address

address_in-HasAddress : (o : Option Element) (a : String) → address_in o ≡ some a → HasAddress o
unfolding HasAddress
address_in-HasAddress none a h = absurd (cc)
address_in-HasAddress (some (Element.event e)) a h = absurd (cc)
address_in-HasAddress (some (Element.contract b)) a h = (b, refl, a, h)

HasAddress-address_in : (o : Option Element) → HasAddress o → (a : String) × (address_in o ≡ some a)
unfolding HasAddress
HasAddress-address_in o (b, e, a, h) = (a, ap address_in e ∙ h)

-- What stays: the transactions, the addresses of contracts, and the events.
pub record Keeps (w w' : World) : Type 0 where
  pub sent : w'.sent ≡ w.sent
  pub contracts :
      (k a : String)
      → address_in (lookup k w.live) ≡ some a
      → address_in (lookup k w'.live) ≡ some a
  pub events :
      (k : String) (d : StatefulEvent)
      → lookup k w.live ≡ some (Element.event d)
      → lookup k w'.live ≡ some (Element.event d)

pub same_live : (w w' : World) → w'.sent ≡ w.sent → w'.live ≡ w.live → Keeps w w'
same_live w w' s l = record {
  sent = s;
  contracts = λ k a h. ap (λ m. address_in (lookup k m)) l ∙ h;
  events = λ k d h. ap (lookup k) l ∙ h;
}

pub Keeps-trans : (w w1 w2 : World) → Keeps w w1 → Keeps w1 w2 → Keeps w w2
Keeps-trans w w1 w2 p q = record {
  sent = q.sent ∙ p.sent;
  contracts = λ k a h. q.contracts k a (p.contracts k a h);
  events = λ k d h. q.events k d (p.events k d h);
}

touched :
    (k : String) (b : ContractBinding) (w w' : World)
    → lookup k w.live ≡ some (Element.contract b)
    → w'.sent ≡ w.sent
    → w'.live ≡ insert k (Element.contract (touch_binding b)) w.live
    → Keeps w w'
touched k b w w' h s l = record {
  sent = s;
  contracts = λ j a t. elim (name_dec k j) [
    | yes y ↦
        let before : b.deploy_meta_data.contract_address ≡ some a =
          ap address_in (sym h) ∙ (ap (λ i. address_in (lookup i w.live)) y ∙ t) in
        ap (λ i. address_in (lookup i w'.live)) (sym y)
        ∙ (ap (λ m. address_in (lookup k m)) l
            ∙ (ap address_in (lookup-insert_self k (Element.contract (touch_binding b)) w.live)
                ∙ before))
    | no n ↦
        ap (λ m. address_in (lookup j m)) l
        ∙ (ap address_in (lookup-insert_ne k j (Element.contract (touch_binding b)) w.live n) ∙ t)
  ];
  events = λ j d e. elim (name_dec k j) [
    | yes y ↦ absurd (
        let q : lookup k w.live ≡ some (Element.event d) = ap (λ i. lookup i w.live) y ∙ e in
        let r : some (Element.contract b) ≡ some (Element.event d) = sym h ∙ q in cc)
    | no n ↦
        ap (lookup j) l ∙ (lookup-insert_ne k j (Element.contract (touch_binding b)) w.live n ∙ e)
  ];
}

pub continue_eq :
    {A : Type 0} (body : A → Eff World (Unit {0})) (d : A) (ds : List A) (w : World) (u : Unit {0})
    → (body d w).0 ≡ ok u
    → each body (d ∷ ds) w ≡ each body ds (body d w).1
continue_eq body d ds w u q = ap (λ r. follow (λ _. each body ds) (r, (body d w).1)) q

pub stop_eq :
    {A : Type 0} (body : A → Eff World (Unit {0})) (d : A) (ds : List A) (w : World) (x : Error)
    → (body d w).0 ≡ err x
    → each body (d ∷ ds) w ≡ (err x, (body d w).1)
stop_eq body d ds w x q = ap (λ r. follow (λ _. each body ds) (r, (body d w).1)) q

module _ (hex : ℤ → Text) where
  unstored : Eff World (Unit {0})
  unstored = do
    name ← get (λ w. w.repo.current_module_name)
    throw_if (dec_test (name_dec name "")) cli_error
    on_repo (get_state_if_exist hex name)
    throw type_error

  unstored-Keeps : (w : World) → Keeps w (unstored w).1
  unfolding unstored get_state_if_exist
  unstored-Keeps w = elim (Bool-cases (dec_test (name_dec w.repo.current_module_name ""))) [
    | inl t ↦ rw (t, unstored) (same_live w _ refl refl)
    | inr f ↦ rw (f, unstored) (same_live w _ refl refl)
  ]

  store_dependency-Keeps : (dep : String) (w : World) → Keeps w (store_dependency hex dep w).1
  unfolding store_dependency unstored
  store_dependency-Keeps dep w = elim (Option-cases (lookup dep w.live)) [
    | inl e ↦ rw (e, store_dependency) (unstored-Keeps w)
    | inr (Element.event d, e) ↦ rw (e, store_dependency) (unstored-Keeps w)
    | inr (Element.contract b, e) ↦ elim (Result-cases (store_single_binding hex b w.repo).0) [
      | inl (u, q) ↦ rw (e, store_dependency, q) (touched dep b w _ e refl refl)
      | inr (x, q) ↦ rw (e, store_dependency, q) (same_live w _ refl refl)
    ]
  ]

  each-Keeps :
      (body : String → Eff World (Unit {0}))
      → ((d : String) (w : World) → Keeps w (body d w).1)
      → (ds : List String) (w : World) → Keeps w (each body ds w).1
  each-Keeps body k [] w = same_live w w refl refl
  each-Keeps body k (d ∷ ds) w = elim (Result-cases (body d w).0) [
    | inl (u, q) ↦ rw (continue_eq body d ds w u q) (
        Keeps-trans w (body d w).1 (each body ds (body d w).1).1 (k d w)
          (each-Keeps body k ds (body d w).1))
    | inr (x, q) ↦ rw (stop_eq body d ds w x q) (k d w)
  ]

  pub store_dependencies-Keeps : (e : Event) (w : World) → Keeps w (store_dependencies hex e w).1
  store_dependencies-Keeps e w = elim (Option-cases (deps_of e)) [
    | inl q ↦ rw (q, store_dependencies) (same_live w w refl refl)
    | inr (ds, q) ↦
        rw (q, store_dependencies) (each-Keeps (store_dependency hex) store_dependency-Keeps ds w)
  ]

-- An element with nothing left to do: a contract with its address, or an event of a type that is run, executed.
unfoldable pub IsSettled : World → String × Element → Type 0
IsSettled w (key, Element.contract b) = HasAddress (lookup key w.live)
IsSettled w (key, Element.event e) =
    (is_unknown (event_type_of e.event) ≡ false)
    × ((d : StatefulEvent) × (lookup (event_name e.event) w.live ≡ some (Element.event d))
        × (d.executed ≡ true))

IsSettled-Keeps :
    (w w' : World) → Keeps w w' → (x : String × Element) → IsSettled w x → IsSettled w' x
unfolding IsSettled
IsSettled-Keeps w w' k (key, Element.contract b) h =
    let (a, e) = HasAddress-address_in (lookup key w.live) h in
    address_in-HasAddress (lookup key w'.live) a (k.contracts key a e)
IsSettled-Keeps w w' k (key, Element.event e) (u, (d, l, x)) =
    (u, (d, k.events (event_name e.event) d l, x))

module _ (o : Outside) (M : String) where
  execute_contract-settled :
      (key : String) (w : World)
      → HasAddress (lookup key w.live)
      → (execute_contract o M key w).1 ≡ w
  unfolding execute_contract HasAddress
  execute_contract-settled key w (b, e, a, h) = rw (e, h) refl

  execute_element-Keeps :
      (x : String × Element) (w : World) → IsSettled w x → Keeps w (execute_element o M x w).1
  unfolding execute_element IsSettled
  execute_element-Keeps (key, Element.contract b) w h =
      rw (execute_contract-settled key w h) (same_live w w refl refl)
  execute_element-Keeps (key, Element.event e) w (u, (d, l, x)) =
      rw (execute_event-once o.hex o.hook M e d w l x u) (store_dependencies-Keeps o.hex e.event w)

  -- Where every element of a module state is settled, which means that each contract has an address and each
  -- event is executed and of a type that the executor runs, executing the module sends no transaction,
  -- whether it succeeds or throws. Every address of a contract in the live module state stays the same, and
  -- all elements are settled afterwards as well.
  pub execute_sync-IsSettled :
      (entries : ModuleState) (w : World)
      → All (IsSettled w) entries
      → ((execute_sync o M entries w).1.sent ≡ w.sent)
        × ((key address : String)
            → address_in (lookup key w.live) ≡ some address
            → address_in (lookup key (execute_sync o M entries w).1.live) ≡ some address)
        × All (IsSettled (execute_sync o M entries w).1) entries
  unfolding execute_sync
  execute_sync-IsSettled entries w h =
      let k = go entries w h in
      (
        k.sent,
        k.contracts,
        All-map (IsSettled w) (IsSettled (each (execute_element o M) entries w).1) entries
            (IsSettled-Keeps w (each (execute_element o M) entries w).1 k) h,
      )
    where
      go :
          (entries : ModuleState) (w : World)
          → All (IsSettled w) entries
          → Keeps w (each (execute_element o M) entries w).1
      go [] w h = same_live w w refl refl
      go (x ∷ xs) w (p, ps) = elim (Result-cases (execute_element o M x w).0) [
        | inl (u, q) ↦ rw (continue_eq (execute_element o M) x xs w u q) (
            Keeps-trans w (execute_element o M x w).1
              (each (execute_element o M) xs (execute_element o M x w).1).1
              (execute_element-Keeps x w p)
              (go xs (execute_element o M x w).1 (
                All-map (IsSettled w) (IsSettled (execute_element o M x w).1) xs
                  (IsSettled-Keeps w (execute_element o M x w).1 (execute_element-Keeps x w p))
                  ps)))
        | inr (y, q) ↦ rw (stop_eq (execute_element o M) x xs w y q) (execute_element-Keeps x w p)
      ]
