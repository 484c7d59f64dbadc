-- ===== src/Risk/History/Latch.antt =====
-- The daily loss latch over sequences of calls of services/layer4_risk/engine.py.
use algo_trading_platform.Base.{ℕ, ◌≡◌, true, false, none, Option, List, [], ◌∷◌, ◌∙◌}
use algo_trading_platform.Float.{Float}
use algo_trading_platform.Schema.{CircuitBreakerState, SystemState, TradeSignal}
use algo_trading_platform.Risk.{RiskEngine}
use algo_trading_platform.Risk.Breaker.{observe_market}
use algo_trading_platform.Risk.Breaker.States.{
  refreshed, observe_market_latched, observe_market_daily_loss, register_closed_trade_latched,
}
use algo_trading_platform.Risk.Gate.{evaluate_signal}
use algo_trading_platform.Risk.Gate.Blocking.{evaluate_signal_halted, evaluate_signal_state}
use algo_trading_platform.Risk.History.{RiskCall, observe, close_trade, evaluate, call, run}

module _ {F : Type 0} ⦃fl : Float F⦄ where
  abbrev IsLatched : RiskEngine F → Type 0
  IsLatched e =
      (e.state.daily_loss_halted ≡ true)
      × (e.state.circuit_breaker_state ≡ CircuitBreakerState.halted)

  call-IsLatched : (c : RiskCall F) (e : RiskEngine F) → IsLatched e → IsLatched (call c e)
  call-IsLatched (observe now equity upstream) e h =
      observe_market_latched now equity upstream e h.0
  call-IsLatched (close_trade pnl d now) e h = register_closed_trade_latched pnl d now e h.0
  call-IsLatched (evaluate sig price exposure now) e h =
      let kept = evaluate_signal_state sig price exposure now e in (kept.1 ∙ h.0, kept.0 ∙ h.1)

  run-IsLatched : (cs : List (RiskCall F)) (e : RiskEngine F) → IsLatched e → IsLatched (run cs e)
  run-IsLatched [] e h = h
  run-IsLatched (c ∷ cs) e h = run-IsLatched cs (call c e) (call-IsLatched c e h)

  -- Once an observation reaches the daily loss limit, no later signal is approved: the breaker is
  -- HALTED after any further calls, and every signal evaluated then is rejected without an order.
  pub daily_loss_blocks :
      (now : ℕ) (equity : F) (upstream : SystemState) (e : RiskEngine F) (later : List (RiskCall F))
      (sig : TradeSignal F) (price exposure : F) (time : Option ℕ)
      → (refreshed equity e).daily_loss_halted ≡ true
      → let e' = run later (observe_market now equity upstream e) in
        let d = (evaluate_signal sig price exposure time e').1 in
        (e'.state.circuit_breaker_state ≡ CircuitBreakerState.halted)
        × (d.approved ≡ false)
        × (d.approved_order ≡ none)
  daily_loss_blocks now equity upstream e later sig price exposure time h =
      let e' = run later (observe_market now equity upstream e) in
      let latched =
        run-IsLatched later (observe_market now equity upstream e)
          (observe_market_daily_loss now equity upstream e h) in
      let rejected = evaluate_signal_halted sig price exposure time e' latched.1 in
      (latched.1, rejected.0, rejected.1)
