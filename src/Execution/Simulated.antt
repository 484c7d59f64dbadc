-- ===== src/Execution/Simulated.antt =====
-- services/layer5_execution/adapters.py: `SimulatedExecutionAdapter`. The latency, which is only reported,
-- is left out. A negated float is nought less it, which differs in the sign of zero only.
use algo_trading_platform.Base.{not, ◌&&◌, none, some, is_some, String, if◌then◌else◌}
use algo_trading_platform.Base.Dict.{Dict, lookup, insert, string_eq}
use algo_trading_platform.Base.Outcome.{Outcome, returned, raised, duplicate_order_error}
use algo_trading_platform.Float.{Float, nought, one, minimum}
use algo_trading_platform.Execution.{
  OrderPayload, OrderStatusResult, OrderStatus, FillResult, Adapter,
}

pub record SimulatedExecutionAdapter (F : Type 0) : Type 0 where
  pub slippage_pct : F
  pub fee_pct : F
  pub partial_fill_threshold : F
  pub partial_fill_ratio : F
  pub fee_schedule : Dict String F
  pub status : Dict String (OrderStatusResult F)

module _ {F : Type 0} ⦃fl : Float F⦄ where
  open fl use {add, sub, mul, abs, lt}

  -- `_fee_pct_for`
  abbrev pub fee_pct_for : OrderPayload F → SimulatedExecutionAdapter F → F
  fee_pct_for order a = elim (lookup order.exchange_id a.fee_schedule) [
    | none ↦ a.fee_pct
    | some fee ↦ fee
  ]

  -- The fill that `execute` computes.
  unfoldable pub fill_of :
      OrderPayload F → (portfolio_value price : F) → SimulatedExecutionAdapter F → FillResult F
  fill_of order portfolio_value price a =
      let is_long = string_eq.beq order.direction "LONG" in
      let partial = lt a.partial_fill_threshold order.size_pct in
      let excess : F = sub order.size_pct a.partial_fill_threshold in
      let filled : F =
        if partial
        then minimum order.size_pct (add a.partial_fill_threshold (mul excess a.partial_fill_ratio))
        else order.size_pct in
      record {
        filled_pct = filled;
        avg_fill_price =
            if is_long
            then mul price (add one a.slippage_pct)
            else mul price (sub one a.slippage_pct);
        fee_paid = mul (abs (mul filled portfolio_value)) (fee_pct_for order a);
        slippage_pct = if is_long then a.slippage_pct else sub nought a.slippage_pct;
        note = if partial then some "partial" else some "full";
      }

  abbrev pub status_of : String → FillResult F → OrderStatusResult F
  status_of id fill = record {
    client_order_id = id;
    status = OrderStatus.filled;
    filled_pct = fill.filled_pct;
    avg_fill_price = fill.avg_fill_price;
    fee_paid = fill.fee_paid;
    note = fill.note;
  }

  unfoldable pub execute_simulated :
      OrderPayload F
      → String
      → (portfolio_value price : F) → SimulatedExecutionAdapter F
      → Outcome (FillResult F) × SimulatedExecutionAdapter F
  execute_simulated order id portfolio_value price a =
      let fill = fill_of order portfolio_value price a in
      let has_id = not (string_eq.beq id "") in
      if has_id && is_some (lookup id a.status) then (raised duplicate_order_error, a) else (
        returned fill,
        (if has_id then record a { status = insert id (status_of id fill) a.status } else a),
      )

  abbrev pub simulated : Adapter (SimulatedExecutionAdapter F) F
  simulated = record { execute = execute_simulated; query_status = λ id a. (lookup id a.status, a) }
