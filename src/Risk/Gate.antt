-- ===== src/Risk/Gate.antt =====
-- services/layer4_risk/engine.py: `evaluate_signal`, which turns a signal into an approved order or
-- rejects it, with the private methods that it calls.
pub mod Bounds
pub mod Blocking
pub mod Counters
mod Tests
use algo_trading_platform.Base.{
  ℕ, ◌+◌, Bool, true, false, ◌&&◌, not, Option, none, some, List, [], ◌∷◌, ◌++◌, if◌then◌else◌,
}
use algo_trading_platform.Float.{Float, nought, maximum, minimum}
use algo_trading_platform.Schema.{
  CircuitBreakerState, SignalDirection, TradeSignal, ApprovedOrder, OrderDirection, OrderReason,
  RiskAdjustment, is_hold, is_close_all, is_halt, is_degraded,
}
use algo_trading_platform.Risk.{
  RiskManagerConfig, RiskEngine, StateReason, RejectReason, hold_signal, breaker_halted,
  upstream_state_halt, upstream_state_degraded, trust_floor_breached, missing_atr, invalid_price,
  same_direction, invalid_atr_risk, exposure_cap, non_positive_size, count_reason,
}

pub record RiskDecision (F : Type 0) : Type 0 where
  pub approved : Bool
  pub circuit_breaker_state : CircuitBreakerState
  -- The rejection's reason; an approval's is in its order.
  pub reason : Option RejectReason
  pub approved_order : Option (ApprovedOrder F)
  pub adjusted_size_pct : F
  pub stop_loss_price : Option F
  pub take_profit_price : Option F
  pub alerts : List StateReason

abbrev pub is_halted : CircuitBreakerState → Bool
is_halted CircuitBreakerState.halted = true
is_halted _ = false

abbrev pub is_reduced : CircuitBreakerState → Bool
is_reduced CircuitBreakerState.reduced = true
is_reduced _ = false

-- `last is not None and direction == last`
abbrev pub repeats_loss : Option SignalDirection → SignalDirection → Bool
repeats_loss (some SignalDirection.long) SignalDirection.long = true
repeats_loss (some SignalDirection.short) SignalDirection.short = true
repeats_loss (some SignalDirection.hold) SignalDirection.hold = true
repeats_loss (some SignalDirection.close_all) SignalDirection.close_all = true
repeats_loss _ _ = false

-- `direction if direction in {"LONG", "SHORT"} else "CLOSE_ALL"`
abbrev pub order_direction : SignalDirection → OrderDirection
order_direction SignalDirection.long = OrderDirection.long
order_direction SignalDirection.short = OrderDirection.short
order_direction _ = OrderDirection.close_all

-- `"approved" if not risk_adjustments else "; ".join(risk_adjustments)`
abbrev pub order_reason : List RiskAdjustment → OrderReason
order_reason [] = OrderReason.approved
order_reason (a ∷ as') = OrderReason.adjusted (a ∷ as')

module _ {F : Type 0} ⦃fl : Float F⦄ where
  open fl use {decimal, add, sub, mul, div, abs, lt, le}

  -- `_reject`
  reject : RiskEngine F → RejectReason → RiskEngine F × RiskDecision F
  reject e r = (
    record e {
      telemetry = record (e.telemetry) {
        rejected_orders = e.telemetry.rejected_orders + 1;
        rejection_reasons = count_reason r e.telemetry.rejection_reasons;
      };
    },
    record {
      approved = false;
      circuit_breaker_state = e.state.circuit_breaker_state;
      reason = some r;
      approved_order = none;
      adjusted_size_pct = nought;
      stop_loss_price = none;
      take_profit_price = none;
      alerts = e.state.alert_events;
    },
  )

  -- The state checks, in the order of the code; `none` lets the signal through.
  blocked : RiskEngine F → TradeSignal F → Option RejectReason
  blocked e sig =
      if is_hold sig.direction
      then some hold_signal
      else if is_halted e.state.circuit_breaker_state
      then some breaker_halted
      else if is_halt sig.system_state
      then some upstream_state_halt
      else if is_degraded sig.system_state && not (is_close_all sig.direction)
      then some upstream_state_degraded
      else if not (is_close_all sig.direction) && lt sig.trust_score e.config.trust_floor
      then some trust_floor_breached
      else none

  -- `_build_close_all_decision`
  build_close_all : RiskEngine F → TradeSignal F → F → ℕ → RiskEngine F × RiskDecision F
  build_close_all e sig exposure now =
      let order : ApprovedOrder F = record {
        symbol = sig.symbol;
        direction = OrderDirection.close_all;
        size_pct = maximum nought (minimum exposure e.config.max_portfolio_exposure_pct);
        signal_strength = sig.signal_strength;
        confluence = sig.confluence;
        ofi = sig.ofi;
        trust_score = sig.trust_score;
        timestamp_utc = now;
        entry_price = nought;
        stop_loss_price = none;
        take_profit_price = none;
        atr = none;
        system_state = sig.system_state;
        circuit_breaker_state = e.state.circuit_breaker_state;
        portfolio_exposure_pct = exposure;
        indicator_snapshots = sig.indicator_snapshots;
        candle_reliability = sig.candle_reliability;
        risk_adjustments = RiskAdjustment.close_all ∷ [];
        reason = OrderReason.approved_close_all;
      } in
      (
        record e { state = record (e.state) { last_approved_order = some order } },
        record {
          approved = true;
          circuit_breaker_state = e.state.circuit_breaker_state;
          reason = none;
          approved_order = some order;
          adjusted_size_pct = order.size_pct;
          stop_loss_price = none;
          take_profit_price = none;
          alerts = e.state.alert_events;
        },
      )

  -- `_extract_primary_atr`
  extract_primary_atr : TradeSignal F → Option F
  extract_primary_atr sig = elim sig.indicator_snapshots [ none ↦ none | some f ↦ f.primary.atr ]

  -- `_compute_stops`: the stop-loss and the take-profit price
  compute_stops : SignalDirection → F → F → F × F
  compute_stops SignalDirection.long price atr =
      (sub price (mul (decimal 15 1) atr), add price (mul (decimal 25 1) atr))
  compute_stops _ price atr =
      (add price (mul (decimal 15 1) atr), sub price (mul (decimal 25 1) atr))

  -- The size after the cap and the cut of the REDUCED state.
  base_size : RiskEngine F → TradeSignal F → F
  base_size e sig =
      let capped = minimum sig.size_pct e.config.max_position_size_pct in
      if is_reduced e.state.circuit_breaker_state
      then mul capped e.config.reduced_state_size_multiplier
      else capped

  -- `per_unit_loss_pct`
  unit_loss : F → F → F
  unit_loss price stop = div (abs (sub price stop)) price

  -- The size after the cap on the loss of one trade.
  final_size : RiskManagerConfig F → F → F → F
  final_size c size per_unit =
      let loss = mul size per_unit in
      if lt c.max_trade_loss_pct loss then mul size (div c.max_trade_loss_pct loss) else size

  -- `risk_adjustments`
  adjustments : RiskEngine F → TradeSignal F → F → List RiskAdjustment
  adjustments e sig per_unit =
      (if lt e.config.max_position_size_pct sig.size_pct
        then RiskAdjustment.size_capped ∷ []
        else [])
      ++ (if is_reduced e.state.circuit_breaker_state then RiskAdjustment.reduced_cut ∷ [] else [])
      ++ (if lt e.config.max_trade_loss_pct (mul (base_size e sig) per_unit)
          then RiskAdjustment.loss_resized ∷ []
          else [])

  -- The approving end of `evaluate_signal`.
  approve :
      RiskEngine F
      → TradeSignal F
      → (price atr exposure size per_unit : F) → ℕ
      → RiskEngine F × RiskDecision F
  approve e sig price atr exposure size per_unit now =
      let stops = compute_stops sig.direction price atr in
      let made = adjustments e sig per_unit in
      let order : ApprovedOrder F = record {
        symbol = sig.symbol;
        direction = order_direction sig.direction;
        size_pct = size;
        signal_strength = sig.signal_strength;
        confluence = sig.confluence;
        ofi = sig.ofi;
        trust_score = sig.trust_score;
        timestamp_utc = now;
        entry_price = price;
        stop_loss_price = some (stops.0);
        take_profit_price = some (stops.1);
        atr = some atr;
        system_state = sig.system_state;
        circuit_breaker_state = e.state.circuit_breaker_state;
        portfolio_exposure_pct = add exposure size;
        indicator_snapshots = sig.indicator_snapshots;
        candle_reliability = sig.candle_reliability;
        risk_adjustments = made;
        reason = order_reason made;
      } in
      (
        record e {
          telemetry = record (e.telemetry) { approved_orders = e.telemetry.approved_orders + 1 };
          state = record (e.state) { last_approved_order = some order };
        },
        record {
          approved = true;
          circuit_breaker_state = e.state.circuit_breaker_state;
          reason = none;
          approved_order = some order;
          adjusted_size_pct = size;
          stop_loss_price = some (stops.0);
          take_profit_price = some (stops.1);
          alerts = e.state.alert_events;
        },
      )

  -- The size after all adjustments, and the loss per unit that it was computed from.
  sized : RiskEngine F → TradeSignal F → (price atr : F) → F × F
  sized e sig price atr =
      let per_unit = unit_loss price (compute_stops sig.direction price atr).0 in
      (final_size e.config (base_size e sig) per_unit, per_unit)

  -- The numeric checks for a LONG or a SHORT signal, in the order of the code; `none` approves it.
  refused : RiskEngine F → TradeSignal F → (price atr exposure : F) → Option RejectReason
  refused e sig price atr exposure =
      let (size, per_unit) = sized e sig price atr in
      if le atr nought
      then some missing_atr
      else if le price nought
      then some invalid_price
      else if is_reduced e.state.circuit_breaker_state
          && repeats_loss e.state.last_loss_direction sig.direction
      then some same_direction
      else if lt e.config.max_trade_loss_pct (mul (base_size e sig) per_unit) && le per_unit nought
      then some invalid_atr_risk
      else if lt e.config.max_portfolio_exposure_pct (add exposure size)
      then some exposure_cap
      else if le size nought
      then some non_positive_size
      else none

  size_trade :
      RiskEngine F → TradeSignal F → (price atr exposure : F) → ℕ → RiskEngine F × RiskDecision F
  size_trade e sig price atr exposure now =
      let (size, per_unit) = sized e sig price atr in
      elim (refused e sig price atr exposure) [
        | some r ↦ reject e r
        | none ↦ approve e sig price atr exposure size per_unit now
      ]

  -- `self.telemetry.signals_evaluated += 1`
  count_evaluated : RiskEngine F → RiskEngine F
  count_evaluated e = record e {
    telemetry = record (e.telemetry) { signals_evaluated = e.telemetry.signals_evaluated + 1 };
  }

  -- `self.telemetry.close_all_orders += 1`
  count_close_all : RiskEngine F → RiskEngine F
  count_close_all e = record e {
    telemetry = record (e.telemetry) { close_all_orders = e.telemetry.close_all_orders + 1 };
  }

  -- `signal.timestamp_utc if timestamp_utc is None else timestamp_utc`
  abbrev pub effective_time : TradeSignal F → Option ℕ → ℕ
  effective_time sig none = sig.timestamp_utc
  effective_time sig (some t) = t

  -- The checks after the state checks.
  admit : RiskEngine F → TradeSignal F → (price exposure : F) → ℕ → RiskEngine F × RiskDecision F
  admit e sig price exposure now =
      if is_close_all sig.direction
      then build_close_all (count_close_all e) sig exposure now
      else elim (extract_primary_atr sig) [
        | none ↦ reject e missing_atr
        | some atr ↦ size_trade e sig price atr exposure now
      ]

  pub evaluate_signal :
      TradeSignal F → (price exposure : F) → Option ℕ → RiskEngine F → RiskEngine F × RiskDecision F
  evaluate_signal sig price exposure now e =
      let counted = count_evaluated e in
      elim (blocked counted sig) [
        | some r ↦ reject counted r
        | none ↦ admit counted sig price exposure (effective_time sig now)
      ]
