-- ===== src/Risk/Breaker/States.antt =====
-- The states that the circuit breaker of services/layer4_risk/engine.py takes.
use algo_trading_platform.Base.{
  some, ℕ, ◌≡◌, inl, inr, true, false, ◌≢◌, arith, Bool-cases, ◌≤◌, ◌<◌, ◌+◌,
}
use algo_trading_platform.Float.{Float, nought}
use algo_trading_platform.Schema.{CircuitBreakerState, SignalDirection, SystemState}
use algo_trading_platform.Risk.{RiskEngine, RiskState}
use algo_trading_platform.Risk.Breaker.{
  refresh_capital, observe_market, register_closed_trade, cooldown_elapsed,
}

module _ {F : Type 0} ⦃fl : Float F⦄ where
  open fl use {decimal, lt, le}

  -- The capital figures that an observation of `equity` leaves.
  abbrev pub refreshed : F → RiskEngine F → RiskState F
  refreshed equity e = refresh_capital e.config equity e.state

  pub observe_market_latched :
      (now : ℕ) (equity : F) (upstream : SystemState) (e : RiskEngine F)
      → e.state.daily_loss_halted ≡ true
      → ((observe_market now equity upstream e).state.daily_loss_halted ≡ true)
        × ((observe_market now equity upstream e).state.circuit_breaker_state
            ≡ CircuitBreakerState.halted)
  unfolding observe_market
  observe_market_latched now equity upstream e h = ground arith

  pub register_closed_trade_latched :
      (pnl : F) (d : SignalDirection) (now : ℕ) (e : RiskEngine F)
      → e.state.daily_loss_halted ≡ true
      → ((register_closed_trade pnl d now e).state.daily_loss_halted ≡ true)
        × ((register_closed_trade pnl d now e).state.circuit_breaker_state
            ≡ CircuitBreakerState.halted)
  unfolding register_closed_trade
  register_closed_trade_latched pnl d now e h = elim (Bool-cases (lt pnl nought)) [
    | inl p ↦ observe_market_latched now _ _ _ (rw p h)
    | inr p ↦ observe_market_latched now _ _ _ (rw p h)
  ]

  pub observe_market_daily_loss :
      (now : ℕ) (equity : F) (upstream : SystemState) (e : RiskEngine F)
      → (refreshed equity e).daily_loss_halted ≡ true
      → ((observe_market now equity upstream e).state.daily_loss_halted ≡ true)
        × ((observe_market now equity upstream e).state.circuit_breaker_state
            ≡ CircuitBreakerState.halted)
  unfolding observe_market
  observe_market_daily_loss now equity upstream e h = ground arith

  -- An upstream HALT halts the breaker, whatever its state was.
  pub observe_market_upstream_halt :
      (now : ℕ) (equity : F) (e : RiskEngine F)
      → (observe_market now equity SystemState.halt e).state.circuit_breaker_state
        ≡ CircuitBreakerState.halted
  unfolding observe_market
  observe_market_upstream_halt now equity e = ground arith

  -- With a loss streak that reaches the threshold, an observation leaves HALTED only by a recovery:
  -- to NORMAL, once the cooldown is over, enough ticks qualified and the drawdown is released.
  observe_market_loss_streak :
      (now : ℕ) (equity : F) (upstream : SystemState) (e : RiskEngine F)
      → e.config.consecutive_loss_pause_threshold ≤ e.state.consecutive_losing_trades
      → (observe_market now equity upstream e).state.circuit_breaker_state
        ≢ CircuitBreakerState.halted
      → ((observe_market now equity upstream e).state.circuit_breaker_state
          ≡ CircuitBreakerState.normal)
        × (cooldown_elapsed e.state now ≡ true)
        × (e.config.consecutive_loss_recovery_ticks ≤ e.state.normal_tick_streak + 1)
        × (lt (refreshed equity e).latest_drawdown_pct e.config.drawdown_release_threshold_pct
            ≡ true)
  unfolding observe_market
  observe_market_loss_streak now equity upstream e h awake = ground arith

  module _ (until now : ℕ) (equity : F) (e : RiskEngine F)
      (streak : e.config.consecutive_loss_pause_threshold ≤ e.state.consecutive_losing_trades)
      (paused : e.state.pause_until_utc ≡ some until) where
    pub observe_market_paused :
        (upstream : SystemState)
        → now < until
        → let e' = observe_market now equity upstream e in
          (e'.config.consecutive_loss_pause_threshold ≤ e'.state.consecutive_losing_trades)
          × (e'.state.pause_until_utc ≡ some until)
          × (e'.state.circuit_breaker_state ≡ CircuitBreakerState.halted)
    unfolding observe_market
    observe_market_paused upstream early = ground arith

    -- A calm observation after the pause either adds to the streak of ticks or ends the pause.
    module _ (late : until ≤ now) (fine : (refreshed equity e).daily_loss_halted ≡ false)
        (released : lt
            (refreshed equity e).latest_drawdown_pct
            e.config.drawdown_release_threshold_pct
          ≡ true) where
      pub observe_market_waits :
          e.state.normal_tick_streak + 1 < e.config.consecutive_loss_recovery_ticks
          → let e' = observe_market now equity SystemState.normal e in
            (e'.config.consecutive_loss_pause_threshold ≤ e'.state.consecutive_losing_trades)
            × (e'.state.pause_until_utc ≡ some until)
            × (e'.state.normal_tick_streak ≡ e.state.normal_tick_streak + 1)
            × (e'.config.consecutive_loss_recovery_ticks ≡ e.config.consecutive_loss_recovery_ticks)
      unfolding observe_market
      observe_market_waits few = ground arith

      pub observe_market_recovers :
          e.config.consecutive_loss_recovery_ticks ≤ e.state.normal_tick_streak + 1
          → let s = (observe_market now equity SystemState.normal e).state in
            (s.circuit_breaker_state ≡ CircuitBreakerState.normal)
            × (s.consecutive_losing_trades ≡ 0)
      unfolding observe_market
      observe_market_recovers enough = ground arith
