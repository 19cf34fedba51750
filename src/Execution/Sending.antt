-- ===== src/Execution/Sending.antt =====
-- Execution: the response to a transaction is stored before its confirmations are waited for.
use hardhat_ignition.Prelude.{
  ◌≡◌, ◌≢◌, ◌∙◌, ◌⊎◌, inl, inr, refl, sym, subst, ap, ℕ, zero, suc, ◌-◌, String, some, List, [],
  ◌∷◌, ◌++◌, lookup, lookup-insert_self,
}
use hardhat_ignition.Types.{
  Text, TxInput, TransactionData, Response, Receipt, ContractBinding, Element, Result-cases, Error,
  ok, err,
}
use hardhat_ignition.Effects.{Eff, lift, return, ◌>>=◌, ◌>>◌}
use hardhat_ignition.Repo.{Repo, touch_binding, get_module_state, store_file}
use hardhat_ignition.Repo.Reads.{get_module_state-current}
use hardhat_ignition.Handler.{World, set_live, store_dependency}
use hardhat_ignition.Execution.{
  Outside, set_output, set_input, send_transaction, record_response, record_receipt, confirm,
  await_transaction, send_and_wait,
}
use hardhat_ignition.Execution.Stored.{
  IsRecorded, stored_binding, store_dependency-eq, stored_binding-IsRecorded,
}

-- The contract under a key has the response, in a world of a module and a list of sent transactions.
unfoldable HoldsResponse : (M key name : String) → Response → List Text → World → Type 0
HoldsResponse M key name response sent w =
    (b : ContractBinding) × (t : TransactionData) × (lookup key w.live ≡ some (Element.contract b))
    × (b.name ≡ name)
    × (b.tx_data ≡ some t)
    × (t.input ≡ some (TxInput.response response))
    × (w.repo.current_module_name ≡ M)
    × (w.sent ≡ sent)

module _ (o : Outside) (M key name : String) (response : Response) (sent : List Text)
    (n : M ≢ "") where
  abbrev Held : World → Type 0
  Held w =
      HoldsResponse M key name response sent w
      × IsRecorded response (lookup name (get_module_state o.hex M w.repo).0)

  stored-current :
      (b : ContractBinding) (r : Repo)
      → r.current_module_name ≡ M
      → (stored_binding o.hex M b r).current_module_name ≡ M
  unfolding store_file
  stored-current b r c = get_module_state-current o.hex M r ∙ c

  store_dependency-Held :
      (w : World)
      → HoldsResponse M key name response sent w
      → (w' : World) × (store_dependency o.hex key w ≡ (ok tt, w')) × Held w'
  unfolding HoldsResponse
  store_dependency-Held w (b, t, h, m, x, i, c, s) =
      let r = stored_binding-IsRecorded o.hex M b w.repo t response x i in
      (
        set_live key (Element.contract (touch_binding b))
            (record w { repo = stored_binding o.hex M b w.repo }),
        store_dependency-eq o.hex M key b w h c n,
        (
          (
            touch_binding b,
            t,
            lookup-insert_self key (Element.contract (touch_binding b)) w.live,
            m,
            x,
            i,
            stored-current b w.repo c,
            s,
          ),
          subst
              (λ z.
                IsRecorded response
                  (lookup z (get_module_state o.hex M (stored_binding o.hex M b w.repo)).0))
              m r,
        ),
      )

  record_receipt-Held :
      (receipt : Receipt) (w : World)
      → HoldsResponse M key name response sent w
      → (w' : World) × (record_receipt o key receipt w ≡ (ok tt, w')) × Held w'
  unfolding record_receipt HoldsResponse
  record_receipt-Held receipt w (b, t, h, m, x, i, c, s) =
      let b' = set_output receipt t b in
      let (w', e, k) = store_dependency-Held (set_live key (Element.contract b') w) (
        b',
        record t { output = some receipt },
        lookup-insert_self key (Element.contract b') w.live,
        m,
        refl,
        i,
        c,
        s,
      ) in
      (w', rw (h, x, h) e, k)

  confirm-cases :
      (i rounds : ℕ) (w : World)
      → (confirm o response i rounds w ≡ (ok tt, w))
        ⊎ ((x : Error) × (confirm o response i rounds w ≡ (err x, w)))
  unfolding confirm
  confirm-cases i zero w = inl refl
  confirm-cases i (suc rounds) w = elim (Result-cases (o.wait response i)) [
    | inl (a, e) ↦ rw (e, confirm) (confirm-cases (suc i) rounds w)
    | inr (x, e) ↦ inr (x, rw (e, confirm))
  ]

  last_receipt : Eff World Receipt
  last_receipt = do
    receipt ← lift (o.wait response o.confirmations)
    record_receipt o key receipt
    return receipt

  last_receipt-Held : (w : World) → Held w → Held (last_receipt w).1
  unfolding last_receipt
  last_receipt-Held w k = elim (Result-cases (o.wait response o.confirmations)) [
    | inr (x, e) ↦ rw (e, last_receipt) k
    | inl (a, e) ↦ let (w2, e2, k2) = record_receipt-Held a w k.0 in rw (e, e2, last_receipt) k2
  ]

  confirm-Held :
      (w : World) → Held w → Held ((confirm o response 2 (o.confirmations - 2) >> last_receipt) w).1
  confirm-Held w k = elim (confirm-cases 2 (o.confirmations - 2) w) [
    | inl e ↦ rw e (last_receipt-Held w k)
    | inr (x, e) ↦ rw e k
  ]

  await_transaction-Held : (w : World) → Held w → Held (await_transaction o key response w).1
  unfolding await_transaction last_receipt
  await_transaction-Held w k = elim (Result-cases (o.wait response 1)) [
    | inr (x, e) ↦ rw (e, await_transaction) k
    | inl (a, e) ↦
        let (w2, e2, k2) = record_receipt-Held a w k.0 in
        rw (e, await_transaction, e2) (confirm-Held w2 k2)
  ]

  record_response-Held :
      (w : World) (b : ContractBinding) (t : TransactionData)
      → lookup key w.live ≡ some (Element.contract b)
      → b.name ≡ name
      → b.tx_data ≡ some t
      → w.repo.current_module_name ≡ M
      → w.sent ≡ sent
      → (w' : World) × (record_response o key response w ≡ (ok tt, w')) × Held w'
  unfolding record_response HoldsResponse
  record_response-Held w b t h m x c s =
      let b' = set_input response t b in
      let (w', e, k) = store_dependency-Held (set_live key (Element.contract b') w) (
        b',
        record t { input = some (TxInput.response response) },
        lookup-insert_self key (Element.contract b') w.live,
        m,
        refl,
        refl,
        c,
        s,
      ) in
      (w', rw (h, x, h) e, k)

send_transaction-eq :
    (o : Outside) (signed : Text) (response : Response) (w : World)
    → o.send w.sent signed ≡ ok response
    → send_transaction o signed w ≡ (ok response, record w { sent = w.sent ++ signed ∷ [] })
unfolding send_transaction
send_transaction-eq o signed response w a = rw (a, send_transaction)

send_and_wait-eq :
    (o : Outside) (key : String) (signed : Text) (response : Response) (w w2 : World)
    → o.send w.sent signed ≡ ok response
    → record_response o key response (record w { sent = w.sent ++ signed ∷ [] }) ≡ (ok tt, w2)
    → send_and_wait o key signed w ≡ await_transaction o key response w2
unfolding send_and_wait
send_and_wait-eq o key signed response w w2 a e = rw (send_transaction-eq o signed response w a, e)

-- Where the node accepts the transaction of a contract that the live module state holds with its transaction data, the
-- current module being known, exactly this transaction is sent, and what is read of the stored state
-- afterwards has the node's response, also where a later wait for a confirmation throws.
pub send_and_wait-IsRecorded :
    (o : Outside) (key : String) (signed : Text) (response : Response) (b : ContractBinding)
    (t : TransactionData) (w : World)
    → w.repo.current_module_name ≢ ""
    → lookup key w.live ≡ some (Element.contract b)
    → b.tx_data ≡ some t
    → o.send w.sent signed ≡ ok response
    → ((send_and_wait o key signed w).1.sent ≡ w.sent ++ signed ∷ [])
      × IsRecorded response (
          lookup b.name
            (get_module_state o.hex w.repo.current_module_name
              (send_and_wait o key signed w).1.repo).0)
unfolding HoldsResponse
send_and_wait-IsRecorded o key signed response b t w n h x a =
    let w1 : World = record w { sent = w.sent ++ signed ∷ [] } in
    let (w2, e, k) =
      record_response-Held o w.repo.current_module_name key b.name response w1.sent n w1 b t h refl
        x refl refl in
    let (c, r) =
      await_transaction-Held o w.repo.current_module_name key b.name response w1.sent n w2 k in
    let (_, _, _, _, _, _, _, s) = c in
    let q = send_and_wait-eq o key signed response w w2 a e in
    (
      ap (λ p. p.1.sent) q ∙ s,
      subst
          (λ p.
            IsRecorded response
              (lookup b.name (get_module_state o.hex w.repo.current_module_name p.1.repo).0))
          (sym q) r,
    )
