-- ===== src/Execution/Submit.antt =====
-- services/layer5_execution/engine.py: `submit_order` and `reconcile_pending_orders`.
use algo_trading_platform.Base.{ℕ, ◌+◌, Option, none, some, List, [], ◌∷◌, String, if◌then◌else◌}
use algo_trading_platform.Base.Dict.{string_eq}
use algo_trading_platform.Base.Outcome.{Outcome, returned, raised, value_error}
use algo_trading_platform.Float.{Float, nought}
use algo_trading_platform.Store.{
  PersistedOrder, OrderStore, insert_order, mark_confirmed, mark_duplicate, fetch_pending,
}
use algo_trading_platform.Execution.{
  OrderPayload, OrderStatusResult, ExecutedOrder, divergence_note, DivergenceReason, Adapter,
  check_execution_divergence,
}
use algo_trading_platform.Execution.Engine.{
  ExecutionEngine, SubmitContext, SubmitOptions, is_settled, is_duplicate, with_store,
  record_execution, count, query, status_result_to_execution,
}
use algo_trading_platform.Execution.Attempts.{max_attempts, attempts}

-- The reference price, or else the entry price of the order.
abbrev pub price_of : {F : Type 0} → OrderPayload F → SubmitOptions F → Option F
price_of order opts = elim opts.reference_price [ none ↦ order.entry_price | some p ↦ some p ]

module _ {S M F : Type 0} where
  abbrev pub count_submitted : ExecutionEngine S M F → ExecutionEngine S M F
  count_submitted e = count (λ t. record t { submitted_orders = t.submitted_orders + 1 }) e

module _ {S M F : Type 0} ⦃fl : Float F⦄ where
  -- The reason why the divergence check refuses an order, when both its inputs are given.
  abbrev pub refusal : SubmitOptions F → ExecutionEngine S M F → Option DivergenceReason
  refusal opts e = elim opts.consensus_price [
    | none ↦ none
    | some consensus ↦ elim opts.execution_venue_prices [
      | none ↦ none
      | some prices ↦
          let check =
            check_execution_divergence e.max_divergence_bps consensus prices opts.execution_venue in
          if check.0 then none else some check.2
    ]
  ]

-- `make_client_order_id` is a SHA-256 of its arguments.
module _ {M F : Type 0}
    (make_client_order_id : (symbol direction : String)
      → F
      → (timestamp_ms : ℕ) → (session_id : String) → String) where
  abbrev pub client_order_id : SubmitContext M → OrderPayload F → String
  client_order_id ctx order =
      make_client_order_id order.symbol order.direction order.size_pct ctx.timestamp_ms
        ctx.session_id

  abbrev pub pending_order : SubmitContext M → OrderPayload F → PersistedOrder M F
  pending_order ctx order = record {
    client_order_id = client_order_id ctx order;
    symbol = order.symbol;
    direction = order.direction;
    size_pct = order.size_pct;
    timestamp_utc = ctx.timestamp_ms;
    session_id = ctx.session_id;
    status = "PENDING";
    metadata = ctx.metadata;
  }

module _ {S M F : Type 0} ⦃fl : Float F⦄
    (make_client_order_id : (symbol direction : String)
      → F
      → (timestamp_ms : ℕ) → (session_id : String) → String) where
  abbrev pub refuse :
      DivergenceReason
      → SubmitContext M
      → OrderPayload F
      → ExecutionEngine S M F
      → Outcome (ExecutedOrder F) × ExecutionEngine S M F
  refuse reason ctx order e =
      let refused : ExecutedOrder F = record {
        order_id = client_order_id make_client_order_id ctx order;
        filled_pct = nought;
        avg_fill_price = nought;
        fee_paid = nought;
        slippage_pct = nought;
        note = divergence_note reason;
      } in
      (
        returned refused,
        record_execution refused
            (count (λ t. record t { divergence_rejections = t.divergence_rejections + 1 }) e),
      )

-- `submit_order` and the reconciliation at a restart.
module _ {S M F : Type 0} ⦃fl : Float F⦄ (adapter : Adapter S F)
    (make_client_order_id : (symbol direction : String)
      → F
      → (timestamp_ms : ℕ) → (session_id : String) → String) where
  -- An order that is stored as pending and then sent.
  abbrev pub place :
      SubmitContext M
      → OrderPayload F
      → F
      → ExecutionEngine S M F
      → Outcome (ExecutedOrder F) × ExecutionEngine S M F
  place ctx order price e =
      attempts adapter max_attempts ctx order (client_order_id make_client_order_id ctx order) price
        (with_store (insert_order (pending_order make_client_order_id ctx order)) e)

  -- `submit_order` once the price and the refusal are known.
  abbrev pub submit_with :
      SubmitContext M
      → OrderPayload F
      → Option F
      → Option DivergenceReason
      → ExecutionEngine S M F
      → Outcome (ExecutedOrder F) × ExecutionEngine S M F
  submit_with ctx order none refused e = (raised value_error, e)
  submit_with ctx order (some price) (some reason) e =
      refuse make_client_order_id reason ctx order e
  submit_with ctx order (some price) none e = place ctx order price e

  unfoldable pub submit_order :
      SubmitContext M
      → SubmitOptions F
      → OrderPayload F
      → ExecutionEngine S M F
      → Outcome (ExecutedOrder F) × ExecutionEngine S M F
  submit_order ctx opts order e =
      submit_with ctx order (price_of order opts) (refusal opts e) (count_submitted e)

-- The orders to reconcile: none without a store.
abbrev pub pending_of : {M F : Type 0} → Option (OrderStore M F) → List (PersistedOrder M F)
pending_of none = []
pending_of (some s) = fetch_pending s

module _ {S M F : Type 0} ⦃fl : Float F⦄ where
  -- What becomes of one pending order, with the answer of the adapter.
  abbrev pub reconcile_with :
      PersistedOrder M F
      → Option (OrderStatusResult F)
      → ExecutionEngine S M F
      → ExecutionEngine S M F
  reconcile_with pending none e = e
  reconcile_with pending (some st) e =
      let id = pending.client_order_id in
      if is_settled st.status
      then (status_result_to_execution st (with_store (mark_confirmed id) e)).1
      else if is_duplicate st.status
      then (status_result_to_execution st (with_store (mark_duplicate id) e)).1
      else e

module _ {S M F : Type 0} ⦃fl : Float F⦄ (adapter : Adapter S F) where
  abbrev pub reconcile : PersistedOrder M F → ExecutionEngine S M F → ExecutionEngine S M F
  reconcile pending e =
      let asked = query adapter pending.client_order_id e in reconcile_with pending asked.0 asked.1

  abbrev pub reconcile_all :
      List (PersistedOrder M F) → ExecutionEngine S M F → ExecutionEngine S M F
  reconcile_all [] e = e
  reconcile_all (pending ∷ rest) e = reconcile_all rest (reconcile pending e)

  unfoldable pub reconcile_pending_orders : ExecutionEngine S M F → ExecutionEngine S M F
  reconcile_pending_orders e = reconcile_all (pending_of e.store) e
