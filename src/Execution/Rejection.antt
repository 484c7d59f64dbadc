-- ===== src/Execution/Rejection.antt =====
-- An order that the venue accepts and then rejects, in services/layer5_execution/engine.py.
use mathlib.Core.Path.{ap, ◌∙◌}
use mathlib.Core.Option.{none-ne-some}
use algo_trading_platform.Base.{ℕ, suc, ◌≡◌, refl, arith, [], ◌∷◌, some, String}
use algo_trading_platform.Base.Dict.{lookup, lookup-insert_self, string_eq, Dict}
use algo_trading_platform.Base.Outcome.{returned}
use algo_trading_platform.Float.{Float, nought}
use algo_trading_platform.Store.{
  PersistedOrder, OrderStore, insert_order, mark_confirmed, update_status, get_order,
}
use algo_trading_platform.Execution.{
  OrderPayload, OrderStatus, OrderStatusResult, ExecutedOrder, Adapter, FillResult, rejected_note,
}
use algo_trading_platform.Execution.Engine.{
  ExecutionEngine, SubmitContext, with_store, poll, terminal, record_fill,
}
use algo_trading_platform.Execution.Attempts.{max_attempts, count_close_all}
use algo_trading_platform.Execution.Submit.{client_order_id, pending_order, place}
use algo_trading_platform.Execution.Marks.{Holds, store-terminal}
use algo_trading_platform.Execution.Resubmission.{attempts-returned, attempt-sent}

module _ {M F : Type 0} where
  lookup-update_status_self :
      (status id : String) (po : PersistedOrder M F) (rows : Dict String (PersistedOrder M F))
      → (lookup id rows ≡ some po)
      → lookup id (update_status status id rows) ≡ some (record po { status = status })
  unfolding update_status
  lookup-update_status_self status id po [] h = absurd (none-ne-some po h)
  lookup-update_status_self status id po ((k, q) ∷ rows) h =
      ground (arith, h, string_eq.beq_iff k id, lookup-update_status_self status id po rows)

module _ {S M F : Type 0} ⦃fl : Float F⦄ where
  terminal-rejected :
      (id : String) (st : OrderStatusResult F) (x : ExecutedOrder F) (e : ExecutionEngine S M F)
      → (st.status ≡ OrderStatus.rejected)
      → (terminal id st x e).0 ≡ (record {
        order_id = id;
        filled_pct = nought;
        avg_fill_price = nought;
        fee_paid = nought;
        slippage_pct = nought;
        note = rejected_note st.note;
      })
  unfolding terminal
  terminal-rejected id st x e h = rw (h) refl

module _ {S M F : Type 0} ⦃fl : Float F⦄ (adapter : Adapter S F) where
  poll-rejected :
      (rounds : ℕ) (id : String) (x : ExecutedOrder F) (st : OrderStatusResult F) (s : S)
      (e : ExecutionEngine S M F)
      → (adapter.query_status id e.adapter_state ≡ (some st, s))
      → (st.status ≡ OrderStatus.rejected)
      → poll adapter (suc rounds) id x e ≡ terminal id st x (record e { adapter_state = s })
  unfolding poll
  poll-rejected rounds id x st s e h is_rejected = rw (h, is_rejected) refl

module _ {S M F : Type 0} ⦃fl : Float F⦄ (adapter : Adapter S F)
    (make_client_order_id : (symbol direction : String)
      → F
      → (timestamp_ms : ℕ) → (session_id : String) → String) where
  -- When the adapter fills an order at the first attempt and the status that is polled next is REJECTED,
  -- the returned execution has a rejection as its note and no filled part, but the order stands in the
  -- store with the status CONFIRMED.
  pub rejected_order_stays_confirmed :
      (ctx : SubmitContext M) (order : OrderPayload F) (price : F) (fill : FillResult F)
      (st : OrderStatusResult F) (sent asked : S) (store : OrderStore M F)
      (e : ExecutionEngine S M F)
      → let id = client_order_id make_client_order_id ctx order in
        let po = pending_order make_client_order_id ctx order in
        (e.store ≡ some store)
        → (adapter.execute order id e.portfolio_value price e.adapter_state ≡ (returned fill, sent))
        → (adapter.query_status id sent ≡ (some st, asked))
        → (st.status ≡ OrderStatus.rejected)
        → let r = place adapter make_client_order_id ctx order price e in
          (r.0
            ≡ returned (record {
              order_id = id;
              filled_pct = nought;
              avg_fill_price = nought;
              fee_paid = nought;
              slippage_pct = nought;
              note = rejected_note st.note;
            }))
          × Holds (λ s. get_order id s ≡ some (record po { status = "CONFIRMED" })) r.1.store
  unfolding record_fill mark_confirmed insert_order
  rejected_order_stays_confirmed ctx order price fill st sent asked store e stored h q is_rejected =
      let id = client_order_id make_client_order_id ctx order in
      let po = pending_order make_client_order_id ctx order in
      let pending = with_store (insert_order po) e in
      let r =
        record_fill id fill (count_close_all order (record pending { adapter_state = sent })) in
      let end = terminal id st r.0 (record r.1 { adapter_state = asked }) in
      let ends : place adapter make_client_order_id ctx order price e ≡ (returned end.0, end.1) =
        attempts-returned adapter max_attempts ctx order id price _ pending _ (
          attempt-sent adapter order id price pending _ _ h
          ∙ ap (λ p. (returned p.0, p.1))
              (poll-rejected adapter 59 id r.0 st asked r.1 q is_rejected)) in
      let last = record r.1 { adapter_state = asked } in
      let row =
        lookup-update_status_self "CONFIRMED" id po _ (lookup-insert_self id po store.orders) in
      let kept : Holds (λ s. get_order id s ≡ some (record po { status = "CONFIRMED" }))
          end.1.store =
        rw (store-terminal id st r.0 last, stored) row in
      let shown = ap returned (terminal-rejected id st r.0 last is_rejected) in
      rw (ends) (shown, kept)
