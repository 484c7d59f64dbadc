-- ===== src/Execution.antt =====
-- services/layer5_execution/engine.py and adapters.py: orders, fills and the interface of an adapter. The
-- engine is in Engine, Attempts and Submit, the simulated adapter in Simulated.
pub mod Simulated
pub mod Engine
pub mod Attempts
pub mod Submit
mod Tests
pub mod Accounting
pub mod Marks
pub mod Orders
pub mod Reconciliation
pub mod Rejection
pub mod Resubmission
use algo_trading_platform.Base.{
  ℕ, Bool, true, false, Option, none, some, List, [], ◌∷◌, String, if◌then◌else◌,
}
use algo_trading_platform.Base.Dict.{Dict, lookup, string_eq}
use algo_trading_platform.Base.Outcome.{Outcome}
use algo_trading_platform.Float.{Float, nought}

-- The fields of an approved order that the layer reads.
pub record OrderPayload (F : Type 0) : Type 0 where
  pub symbol : String
  pub direction : String
  pub size_pct : F
  pub entry_price : Option F
  pub exchange_id : String

-- "FILLED", "ACCEPTED", "CONFIRMED", "DUPLICATE", "CANCELLED", "REJECTED", and any other text
pub data OrderStatus : Type 0 where
  filled accepted confirmed duplicate cancelled rejected other : OrderStatus

pub record OrderStatusResult (F : Type 0) : Type 0 where
  pub client_order_id : String
  pub status : OrderStatus
  pub filled_pct : F
  pub avg_fill_price : F
  pub fee_paid : F
  pub note : Option String

pub record FillResult (F : Type 0) : Type 0 where
  pub filled_pct : F
  pub avg_fill_price : F
  pub fee_paid : F
  pub slippage_pct : F
  pub note : Option String

pub data DivergenceReason : Type 0 where
  no_venue_prices venue_not_in_consensus invalid_consensus_price exceeds_max acceptable :
      DivergenceReason

-- The note of an execution.
pub data ExecutionNote : Type 0 where
  fill_note : Option String → ExecutionNote
  status_note : Option String → OrderStatus → ExecutionNote
  divergence_note : DivergenceReason → ExecutionNote
  rejected_note : Option String → ExecutionNote
  cancelled_note : ExecutionNote

pub record ExecutedOrder (F : Type 0) : Type 0 where
  pub order_id : String
  pub filled_pct : F
  pub avg_fill_price : F
  pub fee_paid : F
  pub slippage_pct : F
  pub note : ExecutionNote

-- An adapter over a state `S`, which may be the outside world: a call of `execute` with the order, its
-- client order id, the portfolio value and the price, and a query that finds no status, or raises, as `none`.
pub record Adapter (S F : Type 0) : Type 0 where
  pub execute :
      OrderPayload F → String → (portfolio_value price : F) → S → Outcome (FillResult F) × S
  pub query_status : String → S → Option (OrderStatusResult F) × S

pub record ExecutionTelemetry : Type 0 where
  pub submitted_orders : ℕ
  pub executed_orders : ℕ
  pub duplicate_orders : ℕ
  pub retry_attempts : ℕ
  pub failed_submissions : ℕ
  pub close_all_orders : ℕ
  pub divergence_rejections : ℕ

module _ {F : Type 0} ⦃fl : Float F⦄ where
  open fl use {decimal, sub, mul, div, abs, lt, le}

  -- `check_execution_divergence`: whether the price is acceptable, the divergence in basis points, where
  -- `none` is infinity, and the reason.
  unfoldable pub check_execution_divergence :
      (max_divergence_bps consensus_price : F)
      → Dict String F
      → String
      → Bool × Option F × DivergenceReason
  check_execution_divergence max consensus [] venue = (true, some nought, no_venue_prices)
  check_execution_divergence max consensus (p ∷ prices) venue = elim (lookup venue (p ∷ prices)) [
    | none ↦ (false, none, venue_not_in_consensus)
    | some price ↦
        let bps : F = mul (div (abs (sub price consensus)) consensus) (decimal 10_000 0) in
        if le consensus nought
        then (false, none, invalid_consensus_price)
        else if lt max bps
        then (false, some bps, exceeds_max)
        else (true, some bps, acceptable)
  ]
