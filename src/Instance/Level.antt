-- ===== src/Instance/Level.antt =====
-- Instance: the calls of a hook in its first run.
use hardhat_ignition.Prelude.{
  ◌≡◌, ◌∙◌, inl, inr, refl, ap, ℕ, suc, ◌+◌, ltb, ◌||◌, String, false, Option, none, some, List, [],
  ◌∷◌, ◌++◌, All, length, length-append, get_elem?, lookup, lookup-insert_self, or_else, Bool-cases,
  arith, All-map, name_dec, insert, lookup-insert_ne, sym, subst,
}
use hardhat_ignition.Types.{
  Text, Value, Response, Receipt, ContractInput, EventTransactionData, ContractBinding, Element,
  ModuleState, ok, passes,
}
use hardhat_ignition.Effects.{>>-eq-ok, ◌>>◌}
use hardhat_ignition.Repo.{
  Repo, copy_inputs, option_list, get_event_transaction_data, store_event_transaction_data,
}
use hardhat_ignition.Repo.Events.{
  get_event_transaction_data-store_event_transaction_data, get_event-again,
}
use hardhat_ignition.Transactions.{NonceMap, fetch_tx_data, get_and_increment}
use hardhat_ignition.Handler.{World, set_live}
use hardhat_ignition.Execution.{Outside, prompted}
use hardhat_ignition.Instance.{
  format_contract, format_arg, cons_result, format_args, progress_of, set_progress, earlier_receipt,
  is_same_input, without_overrides, wrapped_function, receipt_of, send_call, send_new,
  call_function,
}
use hardhat_ignition.Instance.Ahead.{call_each}

get_elem?-length : {A : Type 0} (xs : List A) → get_elem? xs (length xs) ≡ none
get_elem?-length [] = refl
get_elem?-length (x ∷ xs) = get_elem?-length xs

module _ (o : Outside) (data_of : String → String → List Value → ℕ → ℕ → Text)
    (event key : String) where
  -- The contract has made as many calls as receipts are stored for it in the event.
  unfoldable pub IsLevel : World → Type 0
  IsLevel w =
      (b : ContractBinding) × (d : EventTransactionData) × (lookup key w.live
        ≡ some (Element.contract b))
      × ((get_event_transaction_data o.hex b.name event w.repo).0 ≡ ok d)
      × (progress_of b ≡ length d.contract_output)

  -- The user confirms every transaction, the node accepts and confirms it, and no backoff is set for the gas price.
  unfoldable pub Accepts : Type 0
  Accepts =
      (o.backoff ≡ none)
      × ((sent : List Text) → prompted o.skip_confirmation (o.answer_execute key sent) ≡ passes)
      × ((sent : List Text) (t : Text) → (r : Response) × (o.send sent t ≡ ok r))
      × ((r : Response) (n : ℕ) → (a : Receipt) × (o.wait r n ≡ ok a))

  -- A call with as many arguments as the function has inputs, or one more, of which each contract has an address.
  unfoldable pub IsFitting : ModuleState → String × ℕ × List Value → Type 0
  IsFitting state (name, inputs, given) =
      ((ltb (inputs + 1) (length given) || ltb (length given) inputs) ≡ false)
      × ((args : List Value) × (format_args o.read state (without_overrides inputs given)
            ≡ ok args))

  -- A call of a contract changes no address.
  format_contract-insert :
      (b : ContractBinding) (n : ℕ) (j : String) (v : Value) (state : ModuleState)
      → lookup key state ≡ some (Element.contract b)
      → format_contract o.read (lookup j (insert key (Element.contract (set_progress n b)) state)) v
        ≡ format_contract o.read (lookup j state) v
  format_contract-insert b n j v state h = elim (name_dec key j) [
    | yes y ↦
        let c = Element.contract (set_progress n b) in
        let p : lookup j (insert key c state) ≡ some c =
          subst (λ i. lookup i (insert key c state) ≡ some c) y (lookup-insert_self key c state) in
        let q : lookup j state ≡ some (Element.contract b) = ap (λ i. lookup i state) (sym y) ∙ h in
        ap (λ e. format_contract o.read e v) p ∙ sym (ap (λ e. format_contract o.read e v) q)
    | no z ↦
        ap (λ e. format_contract o.read e v)
          (lookup-insert_ne key j (Element.contract (set_progress n b)) state z)
  ]

  format_args-insert :
      (b : ContractBinding) (n : ℕ) (state : ModuleState)
      → lookup key state ≡ some (Element.contract b)
      → (vs : List Value)
      → format_args o.read (insert key (Element.contract (set_progress n b)) state) vs
        ≡ format_args o.read state vs
  unfolding format_args
  format_args-insert b n state h [] = refl
  format_args-insert b n state h (v ∷ vs) =
      λ i. cons_result (format_arg-insert v i) (format_args-insert b n state h vs i)
    where
      format_arg-insert :
          (v : Value)
          → format_arg o.read (insert key (Element.contract (set_progress n b)) state) v
            ≡ format_arg o.read state v
      format_arg-insert (Value.binding name) =
          format_contract-insert b n name (Value.binding name) state h
      format_arg-insert (Value.meta_data name) =
          format_contract-insert b n name (Value.meta_data name) state h
      format_arg-insert _ = refl

  IsFitting-insert :
      (b : ContractBinding) (n : ℕ) (state : ModuleState)
      → lookup key state ≡ some (Element.contract b)
      → (call : String × ℕ × List Value) → IsFitting state call
      → IsFitting (insert key (Element.contract (set_progress n b)) state) call
  unfolding IsFitting
  IsFitting-insert b n state h (name, inputs, given) (t, (args, e)) =
      (t, (args, format_args-insert b n state h (without_overrides inputs given) ∙ e))

  earlier-none :
      (d : EventTransactionData) (i : ℕ) (name : String) (args : List Value)
      → i ≡ length d.contract_output
      → earlier_receipt d i name args ≡ none
  unfolding earlier_receipt
  earlier-none d i name args h =
      let t : ltb i (length d.contract_output) ≡ false = ground (arith, h) in
      let g : get_elem? d.contract_output i ≡ none =
        ap (get_elem? d.contract_output) h ∙ get_elem?-length d.contract_output in
      elim (Bool-cases (is_same_input (get_elem? d.contract_input i) name args)) [
        | inl s ↦ rw (t, s, g, earlier_receipt)
        | inr s ↦ rw (t, s, earlier_receipt)
      ]

  -- Storing succeeds where reading does.
  store-then :
      (binding : String) (i : Option ContractInput) (a : Option Receipt) (r : Repo)
      (d : EventTransactionData)
      → (get_event_transaction_data o.hex binding event r).0 ≡ ok d
      → (r2 : Repo) × (store_event_transaction_data o.hex binding i a event r ≡ (ok tt, r2))
        × ((get_event_transaction_data o.hex binding event r2).0
            ≡ ok (record {
              contract_input = d.contract_input ++ copy_inputs o.hex (option_list i);
              contract_output = d.contract_output ++ option_list a;
            }))
  store-then binding i a r d h =
      let rt =
        get_event_transaction_data-store_event_transaction_data o.hex binding i a event r d h in
      let (u, r2, s, q) =
        >>-eq-ok (store_event_transaction_data o.hex binding i a event)
          (get_event_transaction_data o.hex binding event) r
          (λ k. (
            rt k,
            ((store_event_transaction_data o.hex binding i a event
                  >> get_event_transaction_data o.hex binding event)
                r).1,
          )) in
      (r2, s, ap (λ x. x.0) q)

  send_call-sends :
      (name : String) (args : List Value) (b : ContractBinding) (w : World)
      → Accepts
      → (r : Response) × (nonces : NonceMap) × (t : Text) × (send_call o data_of event key name args
            b w
          ≡ (ok r, record w { nonces = nonces; sent = w.sent ++ t ∷ [] }))
  unfolding send_call fetch_tx_data Accepts
  send_call-sends name args b w (k, _, s, _) =
      let who = or_else (o.signer b.name) o.address in
      let (nonce, nonces) = get_and_increment who (o.count w.sent who) w.nonces in
      let t = data_of b.name name args (o.prices 0) nonce in
      let (r, e) = s w.sent t in (r, nonces, t, rw (k, e, send_call))

  new_call-eq :
      (name : String) (inputs : ℕ) (given args : List Value) (w : World) (b : ContractBinding)
      (d : EventTransactionData) (r1 r2 r3 : Repo) (nonces : NonceMap) (t : Text) (resp : Response)
      (a1 a : Receipt)
      → ((sent : List Text) → prompted o.skip_confirmation (o.answer_execute key sent) ≡ passes)
      → (ltb (inputs + 1) (length given) || ltb (length given) inputs) ≡ false
      → format_args o.read w.live (without_overrides inputs given) ≡ ok args
      → lookup key w.live ≡ some (Element.contract b)
      → get_event_transaction_data o.hex b.name event w.repo ≡ (ok d, r1)
      → earlier_receipt d (progress_of b) name args ≡ none
      → send_call o data_of event key name args b (record w { repo = r1 })
        ≡ (ok resp, record w { repo = r1; nonces = nonces; sent = w.sent ++ t ∷ [] })
      → store_event_transaction_data o.hex b.name (some (ContractInput.sent resp)) none event r1
        ≡ (ok tt, r2)
      → o.wait resp 1 ≡ ok a1
      → o.wait resp o.confirmations ≡ ok a
      → store_event_transaction_data o.hex b.name none (some a) event r2 ≡ (ok tt, r3)
      → call_function o data_of event key name inputs given w ≡ (
        ok a,
        set_live key
            (Element.contract (set_progress (suc (progress_of b)) b))
            (record w { repo = r3; nonces = nonces; sent = w.sent ++ t ∷ [] }),
      )
  unfolding call_function wrapped_function receipt_of send_new
  new_call-eq name inputs given args w b d r1 r2 r3 nonces t resp a1 a confirmed ta f h g e c s1 w1
        w2 s2 =
      rw (
        ta,
        f,
        h,
        g,
        e,
        confirmed w.sent,
        c,
        s1,
        h,
        w1,
        w2,
        lookup-insert_self key (Element.contract (set_progress (suc (progress_of b)) b)) w.live,
        s2,
      )

  IsLevel-call :
      (name : String) (inputs : ℕ) (given : List Value) (w : World)
      → Accepts
      → IsFitting w.live (name, inputs, given)
      → IsLevel w
      → (a : Receipt) × (w' : World) × (call_function o data_of event key name inputs given w
          ≡ (ok a, w'))
        × (length w'.sent ≡ suc (length w.sent))
        × IsLevel w'
        × ((call : String × ℕ × List Value) → IsFitting w.live call → IsFitting w'.live call)
  unfolding IsFitting IsLevel Accepts
  IsLevel-call name inputs given w acc (ta, (args, f)) (b, d, h, g, p) =
      let r1 = (get_event_transaction_data o.hex b.name event w.repo).1 in
      let n = get_event-again o.hex b.name event w.repo d g in
      let (resp, nonces, t, c) = send_call-sends name args b (record w { repo = r1 }) acc in
      let (k, confirmed, s, wt) = acc in
      let (r2, s1, g2) = store-then b.name (some (ContractInput.sent resp)) none r1 d n in
      let (a1, w1) = wt resp 1 in
      let (a, w2) = wt resp o.confirmations in
      let (r3, s2, g3) = store-then b.name none (some a) r2 _ g2 in
      let b' = set_progress (suc (progress_of b)) b in
      (
        a,
        set_live key (Element.contract b')
            (record w { repo = r3; nonces = nonces; sent = w.sent ++ t ∷ [] }),
        new_call-eq name inputs given args w b d r1 r2 r3 nonces t resp a1 a confirmed ta f h
            (λ i. (g i, r1)) (earlier-none d (progress_of b) name args p) c s1 w1 w2 s2,
        length-append w.sent (t ∷ []) ∙ omega arith,
        (
          b',
          _,
          lookup-insert_self key (Element.contract b') w.live,
          g3,
          grown d.contract_output a (progress_of b) p,
        ),
        IsFitting-insert b (suc (progress_of b)) w.live h,
      )
    where
      grown :
          (xs : List Receipt) (a : Receipt) (n : ℕ)
          → n ≡ length xs
          → suc n ≡ length ((xs ++ []) ++ a ∷ [])
      grown xs a n h = omega (arith, h, length-append (xs ++ []) (a ∷ []), length-append xs [])

  -- Where as many receipts are stored for a contract in an event as it has made calls, where the user confirms
  -- every transaction, the node accepts and confirms it, no backoff is set for the gas price, and each call
  -- has as many arguments as its function has inputs, or one more, with an address for each contract among
  -- them, all calls of the hook succeed and send exactly one transaction each, and as many receipts as calls are
  -- stored afterwards as well.
  pub call_each-sends_every :
      (calls : List (String × ℕ × List Value)) (w : World)
      → Accepts
      → All (IsFitting w.live) calls
      → IsLevel w
      → ((call_each o data_of event key calls w).0 ≡ ok tt)
        × (length (call_each o data_of event key calls w).1.sent ≡ length w.sent + length calls)
        × IsLevel (call_each o data_of event key calls w).1
  call_each-sends_every [] w acc c l = (refl, omega arith, l)
  call_each-sends_every ((name, inputs, given) ∷ calls) w acc (c, cs) l =
      let (a, w', e, s, l', keep) = IsLevel-call name inputs given w acc c l in
      let (r, n, m) =
        call_each-sends_every calls w' acc
          (All-map (IsFitting w.live) (IsFitting w'.live) calls keep cs) l' in
      rw e (r, n ∙ omega (arith, s), m)
