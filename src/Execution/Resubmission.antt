-- ===== src/Execution/Resubmission.antt =====
-- An order that is submitted again to the engine of services/layer5_execution/engine.py over the simulated
-- adapter of adapters.py.
use mathlib.Core.Path.{ap, ap₂, ◌∙◌}
use algo_trading_platform.Base.{
  ℕ, ◌+◌, ◌≡◌, refl, zero, suc, false, true, Bool, ◌||◌, none, some, String, arith,
}
use algo_trading_platform.Base.Dict.{string_eq, lookup, insert, lookup-insert, lookup-insert_self}
use algo_trading_platform.Base.Outcome.{Outcome, returned, raised, duplicate_order_error}
use algo_trading_platform.Float.{Float}
use algo_trading_platform.Store.{OrderStore, insert_order, mark_duplicate}
use algo_trading_platform.Execution.{
  OrderPayload, OrderStatus, OrderStatusResult, ExecutedOrder, Adapter, FillResult,
}
use algo_trading_platform.Execution.Simulated.{
  SimulatedExecutionAdapter, simulated, fill_of, status_of, execute_simulated,
}
use algo_trading_platform.Execution.Engine.{
  ExecutionEngine, SubmitContext, SubmitOptions, is_settled, is_duplicate, with_store, poll,
  terminal, record_fill, status_result_to_execution,
}
use algo_trading_platform.Execution.Attempts.{
  attempts, attempt, after_send, or_give_up, or_retry, before_retry, count_retry, count_close_all,
  count_duplicate, max_attempts, found_or, settle_with,
}
use algo_trading_platform.Execution.Submit.{
  price_of, refusal, client_order_id, submit_with, submit_order, place, count_submitted,
  pending_order,
}

-- What two executions have in common when they report one fill.
abbrev pub IsSameFill : {F : Type 0} → (x y : ExecutedOrder F) → Type 0
IsSameFill x y =
    (x.order_id ≡ y.order_id)
    × (x.filled_pct ≡ y.filled_pct)
    × (x.avg_fill_price ≡ y.avg_fill_price)
    × (x.fee_paid ≡ y.fee_paid)

-- Two executions with their own identifiers that report as much, at the same price.
abbrev IsRefill : {F : Type 0} → (id id' : String) → (x y : ExecutedOrder F) → Type 0
IsRefill id id' x y =
    (x.order_id ≡ id)
    × (y.order_id ≡ id')
    × (x.filled_pct ≡ y.filled_pct)
    × (x.avg_fill_price ≡ y.avg_fill_price)
    × (x.fee_paid ≡ y.fee_paid)

-- The outcome is the execution that `P` holds of.
abbrev pub IsReturned : {A : Type 0} → (A → Type 0) → Outcome A → Type 0
IsReturned P (returned x) = P x
IsReturned P (raised err) = ⊥

module _ {F : Type 0} ⦃fl : Float F⦄ where
  execute_simulated-known :
      (order : OrderPayload F) (id : String) (value price : F) (a : SimulatedExecutionAdapter F)
      (st : OrderStatusResult F)
      → (string_eq.beq id "" ≡ false)
      → (lookup id a.status ≡ some st)
      → execute_simulated order id value price a ≡ (raised duplicate_order_error, a)
  unfolding execute_simulated
  execute_simulated-known order id value price a st named known = rw (named, known) refl

  execute_simulated-fresh :
      (order : OrderPayload F) (id : String) (value price : F) (a : SimulatedExecutionAdapter F)
      → (string_eq.beq id "" ≡ false)
      → (lookup id a.status ≡ none)
      → let fill = fill_of order value price a in
        execute_simulated order id value price a
        ≡ (returned fill, record a { status = insert id (status_of id fill) a.status })
  unfolding execute_simulated
  execute_simulated-fresh order id value price a named fresh = rw (named, fresh) refl

module _ {M F : Type 0} ⦃fl : Float F⦄ where
  poll-filled :
      (rounds : ℕ) (id : String) (x : ExecutedOrder F) (st : OrderStatusResult F)
      (e : ExecutionEngine (SimulatedExecutionAdapter F) M F)
      → (lookup id e.adapter_state.status ≡ some st)
      → (st.status ≡ OrderStatus.filled)
      → poll simulated (suc rounds) id x e ≡ (x, e)
  unfolding poll terminal
  poll-filled rounds id x st e known is_filled = rw (known, is_filled) refl

module _ {S M F : Type 0} ⦃fl : Float F⦄ where
  settle_with-found :
      (wanted : OrderStatus → Bool) (mark : OrderStore M F → OrderStore M F)
      (st : OrderStatusResult F) (e : ExecutionEngine S M F)
      → (wanted st.status ≡ true)
      → let r = status_result_to_execution st (with_store mark e) in
        settle_with wanted mark (some st) e ≡ (some r.0, r.1)
  settle_with-found wanted mark st e h = rw (h) refl

module _ {S M F : Type 0} ⦃fl : Float F⦄ (adapter : Adapter S F) where
  pub attempts-returned :
      (n : ℕ) (ctx : SubmitContext M) (order : OrderPayload F) (id : String) (price : F)
      (x : ExecutedOrder F) (e e' : ExecutionEngine S M F)
      → (attempt adapter order id price e ≡ (returned x, e'))
      → attempts adapter n ctx order id price e ≡ (returned x, e')
  unfolding attempts
  attempts-returned zero ctx order id price x e e' h = ap (or_give_up ctx id) h
  attempts-returned (suc n) ctx order id price x e e' h =
      ap
        (λ r.
          or_retry r (before_retry adapter id r.1)
            (attempts adapter n ctx order id price (count_retry (before_retry adapter id r.1).1)))
        h

  pub attempt-sent :
      (order : OrderPayload F) (id : String) (price : F) (e : ExecutionEngine S M F)
      (r : Outcome (FillResult F)) (s : S)
      → (adapter.execute order id e.portfolio_value price e.adapter_state ≡ (r, s))
      → attempt adapter order id price e
        ≡ after_send adapter id r (count_close_all order (record e { adapter_state = s }))
  attempt-sent order id price e r s h =
      ap (λ q. after_send adapter id q.0 (count_close_all order (record e { adapter_state = q.1 })))
        h

module _ {M F : Type 0} ⦃fl : Float F⦄
    (make_client_order_id : (symbol direction : String)
      → F
      → (timestamp_ms : ℕ) → (session_id : String) → String) where
  -- An order that is priced and not refused is placed.
  submit_order-place :
      (ctx : SubmitContext M) (opts : SubmitOptions F) (order : OrderPayload F) (price : F)
      (e : ExecutionEngine (SimulatedExecutionAdapter F) M F)
      → (price_of order opts ≡ some price)
      → (refusal opts e ≡ none)
      → submit_order simulated make_client_order_id ctx opts order e
        ≡ place simulated make_client_order_id ctx order price (count_submitted e)
  unfolding submit_order
  submit_order-place ctx opts order price e priced free =
      ap₂ (λ p q. submit_with simulated make_client_order_id ctx order p q (count_submitted e))
        priced free

  -- The engine before an order is sent.
  abbrev ready :
      SubmitContext M
      → OrderPayload F
      → ExecutionEngine (SimulatedExecutionAdapter F) M F
      → ExecutionEngine (SimulatedExecutionAdapter F) M F
  ready ctx order e =
      count_close_all order
        (with_store (insert_order (pending_order make_client_order_id ctx order)) e)

  -- A known order is answered from the adapter's record.
  place-known :
      (ctx : SubmitContext M) (order : OrderPayload F) (price : F) (st : OrderStatusResult F)
      (e : ExecutionEngine (SimulatedExecutionAdapter F) M F)
      → let id = client_order_id make_client_order_id ctx order in
        (string_eq.beq id "" ≡ false)
        → (lookup id e.adapter_state.status ≡ some st)
        → (st.status ≡ OrderStatus.filled)
        → let r =
            status_result_to_execution st
              (with_store (mark_duplicate id) (count_duplicate (ready ctx order e))) in
          place simulated make_client_order_id ctx order price e ≡ (returned r.0, r.1)
  place-known ctx order price st e named known is_filled =
      let id = client_order_id make_client_order_id ctx order in
      let pending = with_store (insert_order (pending_order make_client_order_id ctx order)) e in
      let found : OrderStatus → Bool = λ st. is_settled st || is_duplicate st in
      let sent =
        execute_simulated-known order id e.portfolio_value price e.adapter_state st named known in
      attempts-returned simulated max_attempts ctx order id price _ pending _ (
        attempt-sent simulated order id price pending _ _ sent
        ∙ ap
            (λ o.
              found_or duplicate_order_error
                (settle_with found (mark_duplicate id) o (count_duplicate (ready ctx order e))))
            known
        ∙ ap (found_or duplicate_order_error)
            (settle_with-found found (mark_duplicate id) st _ (ap found is_filled)))

  -- A fresh order with the fill that the adapter keeps.
  abbrev filled_by :
      SubmitContext M
      → OrderPayload F
      → F
      → ExecutionEngine (SimulatedExecutionAdapter F) M F
      → ExecutedOrder F × ExecutionEngine (SimulatedExecutionAdapter F) M F
  filled_by ctx order price e =
      let id = client_order_id make_client_order_id ctx order in
      let fill = fill_of order e.portfolio_value price e.adapter_state in
      let kept : SimulatedExecutionAdapter F = record e.adapter_state {
        status = insert id (status_of id fill) e.adapter_state.status;
      } in
      record_fill id fill (record (ready ctx order (count_submitted e)) { adapter_state = kept })

  -- A fresh order is filled, and the adapter keeps the fill.
  place-fresh :
      (ctx : SubmitContext M) (order : OrderPayload F) (price : F)
      (e : ExecutionEngine (SimulatedExecutionAdapter F) M F)
      → let id = client_order_id make_client_order_id ctx order in
        let fill = fill_of order e.portfolio_value price e.adapter_state in
        let kept : SimulatedExecutionAdapter F = record e.adapter_state {
          status = insert id (status_of id fill) e.adapter_state.status;
        } in
        (string_eq.beq id "" ≡ false)
        → (lookup id e.adapter_state.status ≡ none)
        → let r = record_fill id fill (record (ready ctx order e) { adapter_state = kept }) in
          place simulated make_client_order_id ctx order price e ≡ (returned r.0, r.1)
  unfolding record_fill
  place-fresh ctx order price e named fresh =
      let id = client_order_id make_client_order_id ctx order in
      let fill = fill_of order e.portfolio_value price e.adapter_state in
      let pending = with_store (insert_order (pending_order make_client_order_id ctx order)) e in
      let sent =
        execute_simulated-fresh order id e.portfolio_value price e.adapter_state named fresh in
      attempts-returned simulated max_attempts ctx order id price _ pending _ (
        attempt-sent simulated order id price pending _ _ sent
        ∙ ap (λ p. (returned p.0, p.1))
            (poll-filled 59 id _ (status_of id fill) _
              (lookup-insert_self id (status_of id fill) e.adapter_state.status) refl))

  -- A fresh order that has a price and is not refused is filled by the simulated adapter, and when the same
  -- order is submitted again by a call that derives the same identifier (with the `make_client_order_id` of
  -- the source, in the same millisecond of the same session), the second call reports the same fill from the
  -- adapter's record, leaves the adapter as it was and counts a duplicate.
  pub resubmission_fills_once :
      (ctx again : SubmitContext M) (opts : SubmitOptions F) (order : OrderPayload F) (price : F)
      (e : ExecutionEngine (SimulatedExecutionAdapter F) M F)
      → let id = client_order_id make_client_order_id ctx order in
        (client_order_id make_client_order_id again order ≡ id)
        → (string_eq.beq id "" ≡ false)
        → (lookup id e.adapter_state.status ≡ none)
        → (price_of order opts ≡ some price)
        → (refusal opts e ≡ none)
        → let one = submit_order simulated make_client_order_id ctx opts order e in
          let two = submit_order simulated make_client_order_id again opts order one.1 in
          IsReturned (λ x. IsReturned (λ y. IsSameFill x y) two.0) one.0
          × (two.1.adapter_state ≡ one.1.adapter_state)
          × (two.1.telemetry.duplicate_orders ≡ one.1.telemetry.duplicate_orders + 1)
  unfolding record_fill status_result_to_execution
  resubmission_fills_once ctx again opts order price e same named fresh priced free =
      let id = client_order_id make_client_order_id ctx order in
      let fill = fill_of order e.portfolio_value price e.adapter_state in
      let filled = filled_by ctx order price e in
      let one =
        submit_order-place ctx opts order price e priced free
        ∙ place-fresh ctx order price (count_submitted e) named fresh in
      let known =
        ap (λ k. lookup k filled.1.adapter_state.status) same
        ∙ lookup-insert_self id (status_of id fill) e.adapter_state.status in
      let two =
        submit_order-place again opts order price filled.1 priced free
        ∙ place-known again order price (status_of id fill) (count_submitted filled.1)
            (ap (λ k. string_eq.beq k "") same ∙ named) known refl in
      rw (one, two) ((refl, refl, refl, refl), refl, refl)

  -- When a fresh order that has a price and is not refused is submitted to the simulated adapter and then
  -- again by a call that derives another identifier, unknown to the adapter (in the source, a call in another
  -- millisecond), both calls return executions of the same size and the second counts as executed once more:
  -- the order is filled twice.
  resubmission_fills_again :
      (ctx again : SubmitContext M) (opts : SubmitOptions F) (order : OrderPayload F) (price : F)
      (e : ExecutionEngine (SimulatedExecutionAdapter F) M F)
      → let id = client_order_id make_client_order_id ctx order in
        let id' = client_order_id make_client_order_id again order in
        (string_eq.beq id id' ≡ false)
        → (string_eq.beq id "" ≡ false)
        → (string_eq.beq id' "" ≡ false)
        → (lookup id e.adapter_state.status ≡ none)
        → (lookup id' e.adapter_state.status ≡ none)
        → (price_of order opts ≡ some price)
        → (refusal opts e ≡ none)
        → let one = submit_order simulated make_client_order_id ctx opts order e in
          let two = submit_order simulated make_client_order_id again opts order one.1 in
          IsReturned (λ x. IsReturned (λ y. IsRefill id id' x y) two.0) one.0
          × (two.1.telemetry.executed_orders ≡ e.telemetry.executed_orders + 2)
          × (two.1.telemetry.duplicate_orders ≡ e.telemetry.duplicate_orders)
  unfolding record_fill fill_of
  resubmission_fills_again ctx again opts order price e other named named' fresh fresh' priced
        free =
      let id = client_order_id make_client_order_id ctx order in
      let id' = client_order_id make_client_order_id again order in
      let fill = fill_of order e.portfolio_value price e.adapter_state in
      let filled = filled_by ctx order price e in
      let one =
        submit_order-place ctx opts order price e priced free
        ∙ place-fresh ctx order price (count_submitted e) named fresh in
      let unknown : lookup id' filled.1.adapter_state.status ≡ none =
        lookup-insert id id' (status_of id fill) e.adapter_state.status ∙ rw other fresh' in
      let two =
        submit_order-place again opts order price filled.1 priced free
        ∙ place-fresh again order price (count_submitted filled.1) named' unknown in
      rw (one, two) ((refl, refl, refl, refl, refl), omega arith, refl)
