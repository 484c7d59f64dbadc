-- ===== src/Execution/Engine.antt =====
-- services/layer5_execution/engine.py: `ExecutionEngine` over any adapter. The clock, the session, the
-- client order id, which is a SHA-256, and the metadata that is stored with an order are parameters. An
-- audit event is not modelled: that of a dead letter is never emitted, since the call raises a TypeError
-- that is caught.
use mathlib.Core.Option.{map as option_map}
use algo_trading_platform.Base.{
  ℕ, zero, suc, ◌+◌, Bool, true, false, Option, none, some, List, [], ◌∷◌, ◌++◌, String,
  if◌then◌else◌,
}
use algo_trading_platform.Base.Dict.{Dict, insert, string_eq}
use algo_trading_platform.Float.{Float, nought}
use algo_trading_platform.Store.{OrderStore, mark_confirmed}
use algo_trading_platform.Execution.{
  OrderStatusResult, OrderStatus, filled, accepted, confirmed, duplicate, cancelled, rejected,
  FillResult, ExecutedOrder, fill_note, status_note, rejected_note, cancelled_note, Adapter,
  ExecutionTelemetry,
}

pub record ExecutionEngine (S M F : Type 0) : Type 0 where
  pub adapter_state : S
  pub portfolio_value : F
  pub max_divergence_bps : F
  pub executions : Dict String (ExecutedOrder F)
  pub telemetry : ExecutionTelemetry
  pub store : Option (OrderStore M F)
  -- a rejection event, without its symbol and direction, is the execution that it reports
  pub has_publisher : Bool
  pub published : List (ExecutedOrder F)

-- What one call takes from elsewhere: the time, the session, the stored metadata, the empty metadata and
-- the time of SQLite at a failure.
pub record SubmitContext (M : Type 0) : Type 0 where
  pub timestamp_ms : ℕ
  pub session_id : String
  pub metadata : M
  pub empty_metadata : M
  pub failed_at : ℕ

-- The optional arguments of `submit_order`.
pub record SubmitOptions (F : Type 0) : Type 0 where
  pub reference_price : Option F
  pub consensus_price : Option F
  pub execution_venue_prices : Option (Dict String F)
  pub execution_venue : String

-- status in {"FILLED", "ACCEPTED", "CONFIRMED"}
abbrev pub is_settled : OrderStatus → Bool
is_settled filled = true
is_settled accepted = true
is_settled confirmed = true
is_settled _ = false

abbrev pub is_duplicate : OrderStatus → Bool
is_duplicate duplicate = true
is_duplicate _ = false

-- status in {"FILLED", "CANCELLED", "REJECTED"}
abbrev pub is_terminal : OrderStatus → Bool
is_terminal filled = true
is_terminal cancelled = true
is_terminal rejected = true
is_terminal _ = false

module _ {S M F : Type 0} where
  abbrev pub with_store :
      (OrderStore M F → OrderStore M F) → ExecutionEngine S M F → ExecutionEngine S M F
  with_store f e = record e { store = option_map f e.store }

  abbrev pub record_execution : ExecutedOrder F → ExecutionEngine S M F → ExecutionEngine S M F
  record_execution x e = record e { executions = insert x.order_id x e.executions }

  abbrev pub count :
      (ExecutionTelemetry → ExecutionTelemetry) → ExecutionEngine S M F → ExecutionEngine S M F
  count f e = record e { telemetry = f e.telemetry }

module _ {S M F : Type 0} ⦃fl : Float F⦄ where
  -- `_status_result_to_execution`
  unfoldable pub status_result_to_execution :
      OrderStatusResult F → ExecutionEngine S M F → ExecutedOrder F × ExecutionEngine S M F
  status_result_to_execution status e =
      let executed : ExecutedOrder F = record {
        order_id = status.client_order_id;
        filled_pct = status.filled_pct;
        avg_fill_price = status.avg_fill_price;
        fee_paid = status.fee_paid;
        slippage_pct = nought;
        note = status_note status.note status.status;
      } in
      (
        executed,
        count (λ t. record t { executed_orders = t.executed_orders + 1 })
            (record_execution executed e),
      )

  -- What `_send_to_adapter_and_record` does with a fill.
  unfoldable pub record_fill :
      String → FillResult F → ExecutionEngine S M F → ExecutedOrder F × ExecutionEngine S M F
  record_fill id fill e =
      let executed : ExecutedOrder F = record {
        order_id = id;
        filled_pct = fill.filled_pct;
        avg_fill_price = fill.avg_fill_price;
        fee_paid = fill.fee_paid;
        slippage_pct = fill.slippage_pct;
        note = fill_note fill.note;
      } in
      (
        executed,
        count (λ t. record t { executed_orders = t.executed_orders + 1 })
            (record_execution executed (with_store (mark_confirmed id) e)),
      )

  -- The end of the polling loop at a terminal status.
  unfoldable pub terminal :
      String
      → OrderStatusResult F
      → ExecutedOrder F
      → ExecutionEngine S M F
      → ExecutedOrder F × ExecutionEngine S M F
  terminal id status executed e =
      let refused : ExecutedOrder F = record {
        order_id = id;
        filled_pct = nought;
        avg_fill_price = nought;
        fee_paid = nought;
        slippage_pct = nought;
        note = rejected_note status.note;
      } in
      let stopped : ExecutedOrder F = record {
        order_id = id;
        filled_pct = status.filled_pct;
        avg_fill_price = status.avg_fill_price;
        fee_paid = status.fee_paid;
        slippage_pct = nought;
        note = cancelled_note;
      } in
      elim status.status [
        | rejected ↦ (
          refused,
          record_execution refused
              (if e.has_publisher then record e { published = e.published ++ refused ∷ [] } else e),
        )
        | cancelled ↦ (stopped, record_execution stopped e)
        | _ ↦ (executed, e)
      ]

  -- One round of the polling loop; `again` is what the further rounds give.
  abbrev pub poll_round :
      String
      → Option (OrderStatusResult F)
      → ExecutedOrder F
      → ExecutionEngine S M F
      → ExecutedOrder F × ExecutionEngine S M F
      → ExecutedOrder F × ExecutionEngine S M F
  poll_round id none executed e again = (executed, e)
  poll_round id (some status) executed e again =
      if is_terminal status.status then terminal id status executed e else again

module _ {S M F : Type 0} (adapter : Adapter S F) where
  -- `_query_adapter_status`
  abbrev pub query :
      String → ExecutionEngine S M F → Option (OrderStatusResult F) × ExecutionEngine S M F
  query id e = (
    (adapter.query_status id e.adapter_state).0,
    record e { adapter_state = (adapter.query_status id e.adapter_state).1 },
  )

module _ {S M F : Type 0} ⦃fl : Float F⦄ (adapter : Adapter S F) where
  -- The polling loop, with the rounds that are left of `max_poll_attempts`.
  unfoldable pub poll :
      ℕ → String → ExecutedOrder F → ExecutionEngine S M F → ExecutedOrder F × ExecutionEngine S M F
  poll zero id executed e = (executed, e)
  poll (suc rounds) id executed e =
      let asked = query adapter id e in
      poll_round id asked.0 executed asked.1 (poll rounds id executed asked.1)
