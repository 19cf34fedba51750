-- ===== src/Instance/Ahead.antt =====
-- Instance: a hook that is run again after a failure, with more receipts stored than calls made.
use hardhat_ignition.Prelude.{
  ◌≡◌, ◌∙◌, inl, inr, refl, ap, ℕ, zero, suc, ◌+◌, ◌<◌, ltb, ◌||◌, String, true, false, none, some,
  List, [], ◌∷◌, ◌++◌, length, length-append, get_elem?, lookup, lookup-insert_self, Bool-cases,
  arith,
}
use hardhat_ignition.Types.{
  Text, Value, Receipt, EventTransactionData, ContractBinding, Element, Result, Result-cases, ok,
  err,
}
use hardhat_ignition.Effects.{Eff, each, return, follow, >>-eq-ok, ◌>>◌}
use hardhat_ignition.Repo.{
  Repo, copy_inputs, option_list, get_event_transaction_data, store_event_transaction_data,
}
use hardhat_ignition.Repo.Events.{
  get_event_transaction_data-store_event_transaction_data, get_event-again,
}
use hardhat_ignition.Handler.{World, set_live}
use hardhat_ignition.Execution.{Outside}
use hardhat_ignition.Instance.{
  format_args, progress_of, set_progress, earlier_receipt, without_overrides, wrapped_function,
  receipt_of, call_function,
}

get_elem?-lt :
    {A : Type 0} (xs : List A) (i : ℕ) → i < length xs → (a : A) × (get_elem? xs i ≡ some a)
get_elem?-lt [] i h = absurd (omega (arith, h))
get_elem?-lt (x ∷ xs) zero h = (x, refl)
get_elem?-lt (x ∷ xs) (suc i) h = get_elem?-lt xs i (omega (arith, h))

module _ (o : Outside) (data_of : String → String → List Value → ℕ → ℕ → Text)
    (event key : String) where
  -- The contract has made fewer calls in this run than receipts are stored for it in the event.
  unfoldable pub IsAhead : World → Type 0
  IsAhead w =
      (b : ContractBinding) × (d : EventTransactionData) × (lookup key w.live
        ≡ some (Element.contract b))
      × ((get_event_transaction_data o.hex b.name event w.repo).0 ≡ ok d)
      × (progress_of b < length d.contract_output)

  earlier-found :
      (b : ContractBinding) (d : EventTransactionData) (name : String) (args : List Value)
      → progress_of b < length d.contract_output
      → (a : Receipt) × (earlier_receipt d (progress_of b) name args ≡ some a)
  unfolding earlier_receipt
  earlier-found b d name args h =
      let (a, e) = get_elem?-lt d.contract_output (progress_of b) h in
      let t : ltb (progress_of b) (length d.contract_output) ≡ true = ground (arith, h) in
      (a, rw (t, earlier_receipt) e)

  call-eq :
      (name : String) (inputs : ℕ) (given args : List Value) (w : World) (b : ContractBinding)
      (d : EventTransactionData) (r1 r2 : Repo) (a : Receipt)
      → (ltb (inputs + 1) (length given) || ltb (length given) inputs) ≡ false
      → format_args o.read w.live (without_overrides inputs given) ≡ ok args
      → lookup key w.live ≡ some (Element.contract b)
      → get_event_transaction_data o.hex b.name event w.repo ≡ (ok d, r1)
      → earlier_receipt d (progress_of b) name args ≡ some a
      → store_event_transaction_data o.hex b.name none (some a) event r1 ≡ (ok tt, r2)
      → call_function o data_of event key name inputs given w ≡ (
        ok a,
        set_live key
            (Element.contract (set_progress (suc (progress_of b)) b))
            (record w { repo = r2 }),
      )
  unfolding call_function wrapped_function receipt_of
  call-eq name inputs given args w b d r1 r2 a t f h g e s = rw (
    t,
    f,
    h,
    g,
    e,
    h,
    lookup-insert_self key (Element.contract (set_progress (suc (progress_of b)) b)) w.live,
    s,
  )

  grown_length :
      (xs : List Receipt) (a : Receipt) (n : ℕ) → n < length xs → suc n < length (xs ++ a ∷ [])
  grown_length xs a n h = omega (arith, h, length-append xs (a ∷ []))

  IsAhead-steps :
      (name : String) (inputs : ℕ) (given : List Value) (w : World)
      → IsAhead w
      → ((call_function o data_of event key name inputs given w).1.sent ≡ w.sent)
        × IsAhead (call_function o data_of event key name inputs given w).1
  unfolding call_function wrapped_function IsAhead
  IsAhead-steps name inputs given w (b, d, h, g, p) =
      elim (Bool-cases (ltb (inputs + 1) (length given) || ltb (length given) inputs)) [
        | inl t ↦ rw (t, call_function, wrapped_function) (refl, (b, d, h, g, p))
        | inr t ↦ elim (Result-cases (format_args o.read w.live (without_overrides inputs given))) [
          | inr (x, f) ↦ rw (t, f, call_function, wrapped_function) (refl, (b, d, h, g, p))
          | inl (args, f) ↦
              let r1 = (get_event_transaction_data o.hex b.name event w.repo).1 in
              let (a, e) = earlier-found b d name args p in
              let n = get_event-again o.hex b.name event w.repo d g in
              let rt =
                get_event_transaction_data-store_event_transaction_data o.hex b.name none (some a)
                  event r1 d n in
              let (u, r2, s, q) =
                >>-eq-ok (store_event_transaction_data o.hex b.name none (some a) event)
                  (get_event_transaction_data o.hex b.name event) r1
                  (λ i. (
                    rt i,
                    ((store_event_transaction_data o.hex b.name none (some a) event
                          >> get_event_transaction_data o.hex b.name event)
                        r1).1,
                  )) in
              let c = call-eq name inputs given args w b d r1 r2 a t f h (λ i. (g i, r1)) e s in
              let b' = set_progress (suc (progress_of b)) b in
              rw c (
                refl,
                (
                  b',
                  record {
                    contract_input = d.contract_input ++ copy_inputs o.hex (option_list none);
                    contract_output = d.contract_output ++ option_list (some a);
                  },
                  lookup-insert_self key (Element.contract b') w.live,
                  ap (λ x. x.0) q,
                  grown_length d.contract_output a (progress_of b) p,
                ),
              )
        ]
      ]

  -- A hook's calls of the contract's functions: their names, numbers of inputs and arguments.
  abbrev pub call_each : List (String × ℕ × List Value) → Eff World (Unit {0})
  call_each calls =
      each
        (λ (name, inputs, given). call_function o data_of event key name inputs given >> return tt)
        calls

  rest_sends_nothing :
      (calls : List (String × ℕ × List Value))
      → ((v : World)
          → IsAhead v
          → ((call_each calls v).1.sent ≡ v.sent) × IsAhead (call_each calls v).1)
      → (w : World) (p : Result Receipt × World) → p.1.sent ≡ w.sent
      → IsAhead p.1
      → let after =
          (follow
            (λ _. call_each calls)
            (follow {S = World} {A = Receipt} {B = Unit {0}} (λ _. return tt) p)).1 in
        (after.sent ≡ w.sent) × IsAhead after
  rest_sends_nothing calls next w (ok b, v) s k = let (t, l) = next v k in (t ∙ s, l)
  rest_sends_nothing calls next w (err x, v) s k = (s, k)

  -- Once more receipts are stored for a contract in an event than it has made calls in this run, no call of its
  -- functions in the hook sends a transaction, whichever functions are called, however often and whether they
  -- succeed or throw, and more receipts than calls are stored afterwards as well.
  pub call_each-sends_nothing :
      (calls : List (String × ℕ × List Value)) (w : World)
      → IsAhead w
      → ((call_each calls w).1.sent ≡ w.sent) × IsAhead (call_each calls w).1
  call_each-sends_nothing [] w h = (refl, h)
  call_each-sends_nothing ((name, inputs, given) ∷ calls) w h =
      let (s, k) = IsAhead-steps name inputs given w h in
      rest_sends_nothing calls (call_each-sends_nothing calls) w
        (call_function o data_of event key name inputs given w) s k
