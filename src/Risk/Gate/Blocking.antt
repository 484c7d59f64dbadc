-- ===== src/Risk/Gate/Blocking.antt =====
-- Which signals `evaluate_signal` of services/layer4_risk/engine.py rejects, and what it leaves alone.
use algo_trading_platform.Base.{true, ◌||◌, ℕ, ◌≡◌, false, Option, none, arith}
use algo_trading_platform.Float.{Float}
use algo_trading_platform.Schema.{CircuitBreakerState, is_hold, is_halt, TradeSignal}
use algo_trading_platform.Risk.{RiskEngine}
use algo_trading_platform.Risk.Gate.{
  evaluate_signal, count_evaluated, blocked, admit, reject, count_close_all, build_close_all,
  size_trade, approve,
}

module _ {F : Type 0} ⦃fl : Float F⦄ (sig : TradeSignal F) (price exposure : F) (now : Option ℕ)
    (e : RiskEngine F) where
  -- A HALTED breaker approves nothing, a CLOSE_ALL signal included.
  pub evaluate_signal_halted :
      e.state.circuit_breaker_state ≡ CircuitBreakerState.halted
      → let d = (evaluate_signal sig price exposure now e).1 in
        (d.approved ≡ false) × (d.approved_order ≡ none)
  unfolding evaluate_signal count_evaluated blocked reject
  evaluate_signal_halted h = ground arith

  -- Evaluating a signal changes nothing of the state but the last approved order.
  pub evaluate_signal_state :
      let s = (evaluate_signal sig price exposure now e).0.state in
      (s.circuit_breaker_state ≡ e.state.circuit_breaker_state)
      × (s.daily_loss_halted ≡ e.state.daily_loss_halted)
      × (s.alert_events ≡ e.state.alert_events)
      × ((evaluate_signal sig price exposure now e).0.config ≡ e.config)
  unfolding evaluate_signal count_evaluated admit reject count_close_all build_close_all size_trade
      approve
  evaluate_signal_state = ground arith

  -- A HOLD signal and a signal of the upstream state HALT are rejected.
  pub evaluate_signal_idle :
      (is_hold sig.direction || is_halt sig.system_state) ≡ true
      → let d = (evaluate_signal sig price exposure now e).1 in
        (d.approved ≡ false) × (d.approved_order ≡ none)
  unfolding evaluate_signal count_evaluated blocked reject
  evaluate_signal_idle h = ground arith
