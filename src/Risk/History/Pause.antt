-- ===== src/Risk/History/Pause.antt =====
-- The pause after a loss streak in services/layer4_risk/engine.py, over sequences of observations.
use algo_trading_platform.Base.{
  ℕ, ◌+◌, ◌≡◌, ◌≢◌, refl, true, false, ◌≤◌, ◌<◌, some, List, [], ◌∷◌, length, All, arith,
}
use algo_trading_platform.Float.{Float}
use algo_trading_platform.Schema.{CircuitBreakerState, SystemState}
use algo_trading_platform.Risk.{RiskEngine}
use algo_trading_platform.Risk.Breaker.{observe_market}
use algo_trading_platform.Risk.Breaker.States.{
  refreshed, observe_market_paused, observe_market_waits, observe_market_recovers,
}

-- A time, the equity and the upstream state.
abbrev pub Observation : Type 0 → Type 0
Observation F = ℕ × F × SystemState

module _ {F : Type 0} ⦃fl : Float F⦄ where
  open fl use {lt}

  abbrev pub observe_all : List (Observation F) → RiskEngine F → RiskEngine F
  observe_all [] e = e
  observe_all ((now, equity, upstream) ∷ os) e =
      observe_all os (observe_market now equity upstream e)

  -- While a loss streak that reaches the threshold is paused until `until`, observations made before
  -- that time leave the breaker HALTED, whatever equity and upstream state they bring.
  pub pause_holds :
      (until : ℕ) (os : List (Observation F)) (e : RiskEngine F)
      → e.config.consecutive_loss_pause_threshold ≤ e.state.consecutive_losing_trades
      → e.state.pause_until_utc ≡ some until
      → e.state.circuit_breaker_state ≡ CircuitBreakerState.halted
      → All (λ o. o.0 < until) os
      → (observe_all os e).state.circuit_breaker_state ≡ CircuitBreakerState.halted
  pause_holds until [] e streak paused halted early = halted
  pause_holds until ((now, equity, upstream) ∷ os) e streak paused halted (first, early) =
      let (s, p, h) = observe_market_paused until now equity e streak paused upstream first in
      pause_holds until os (observe_market now equity upstream e) s p h early

  -- Each observation is made at or after `until`, finds no daily loss and a released drawdown.
  abbrev pub AllCalm : ℕ → List (ℕ × F) → RiskEngine F → Type 0
  AllCalm until [] e = Unit
  AllCalm until ((now, equity) ∷ os) e =
      (until ≤ now)
      × ((refreshed equity e).daily_loss_halted ≡ false)
      × (lt (refreshed equity e).latest_drawdown_pct e.config.drawdown_release_threshold_pct ≡ true)
      × AllCalm until os (observe_market now equity SystemState.normal e)

  abbrev pub observe_calm : List (ℕ × F) → RiskEngine F → RiskEngine F
  observe_calm [] e = e
  observe_calm ((now, equity) ∷ os) e =
      observe_calm os (observe_market now equity SystemState.normal e)

  -- A paused loss streak ends: once as many NORMAL observations after the pause, each without a daily
  -- loss and with a released drawdown, have come in a row as the configuration asks for, counting those
  -- before, the breaker is NORMAL and the losses are forgotten.
  pub pause_ends :
      (until : ℕ) (os : List (ℕ × F)) (e : RiskEngine F)
      → e.config.consecutive_loss_pause_threshold ≤ e.state.consecutive_losing_trades
      → e.state.pause_until_utc ≡ some until
      → os ≢ []
      → e.state.normal_tick_streak + length os ≡ e.config.consecutive_loss_recovery_ticks
      → AllCalm until os e
      → let s = (observe_calm os e).state in
        (s.circuit_breaker_state ≡ CircuitBreakerState.normal) × (s.consecutive_losing_trades ≡ 0)
  pause_ends until [] e streak paused some_os enough calm = absurd (some_os refl)
  pause_ends until ((now, equity) ∷ []) e streak paused some_os enough
        (late, fine, released, rest) =
      observe_market_recovers until now equity e streak paused late fine released (omega arith)
  pause_ends until ((now, equity) ∷ o ∷ os) e streak paused some_os enough
        (late, fine, released, rest) =
      let (s, p, t, c) =
        observe_market_waits until now equity e streak paused late fine released (omega arith) in
      pause_ends until (o ∷ os) (observe_market now equity SystemState.normal e) s p (cc)
        (omega arith) rest
