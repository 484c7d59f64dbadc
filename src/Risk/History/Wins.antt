-- ===== src/Risk/History/Wins.antt =====
-- What a trade without a loss does to the pause of services/layer4_risk/engine.py.
use algo_trading_platform.Base.{ℕ, ◌≡◌, refl, false, ◌<◌, none, some, List, [], ◌∷◌, All, arith}
use algo_trading_platform.Float.{Float, nought}
use algo_trading_platform.Schema.{CircuitBreakerState, SignalDirection, SystemState, is_halt}
use algo_trading_platform.Risk.{RiskEngine}
use algo_trading_platform.Risk.Breaker.{observe_market, register_closed_trade, refresh_capital}
use algo_trading_platform.Risk.Breaker.States.{refreshed}
use algo_trading_platform.Risk.History.Pause.{Observation, observe_all}

module _ {F : Type 0} ⦃fl : Float F⦄ where
  open fl use {decimal, add, lt, le}

  -- With this equity there is no daily loss, and the drawdown is under three per cent and within the limit.
  abbrev pub IsMild : F → RiskEngine F → Type 0
  IsMild equity e =
      ((refreshed equity e).daily_loss_halted ≡ false)
      × (le (decimal 3 2) (refreshed equity e).latest_drawdown_pct ≡ false)
      × (lt e.config.drawdown_reduce_threshold_pct (refreshed equity e).latest_drawdown_pct ≡ false)

  -- Each observation is mild where it is made, and none comes with an upstream HALT.
  abbrev pub AllMild : List (Observation F) → RiskEngine F → Type 0
  AllMild [] e = Unit
  AllMild ((now, equity, upstream) ∷ os) e =
      (is_halt upstream ≡ false)
      × IsMild equity e
      × AllMild os (observe_market now equity upstream e)

  -- The breaker is NORMAL and counts no loss, with the pause until `until` still in its state.
  abbrev pub IsLifted : ℕ → RiskEngine F → Type 0
  IsLifted until e =
      (e.state.circuit_breaker_state ≡ CircuitBreakerState.normal)
      × (e.state.consecutive_losing_trades ≡ 0)
      × (e.state.pause_until_utc ≡ some until)

  observe_market-IsLifted :
      (until now : ℕ) (equity : F) (upstream : SystemState) (e : RiskEngine F)
      → 0 < e.config.consecutive_loss_pause_threshold
      → e.state.consecutive_losing_trades ≡ 0
      → e.state.pause_until_utc ≡ some until
      → now < until
      → is_halt upstream ≡ false
      → IsMild equity e
      → IsLifted until (observe_market now equity upstream e)
        × ((observe_market now equity upstream e).config ≡ e.config)
  unfolding observe_market
  observe_market-IsLifted until now equity upstream e some_losses won paused early open_state
        (no_loss, small, within) =
      ground arith

  observe_all-IsLifted :
      (until : ℕ) (os : List (Observation F)) (e : RiskEngine F)
      → 0 < e.config.consecutive_loss_pause_threshold
      → IsLifted until e
      → All (λ o. o.0 < until) os
      → AllMild os e
      → IsLifted until (observe_all os e)
  observe_all-IsLifted until [] e some_losses lifted early mild = lifted
  observe_all-IsLifted until ((now, equity, upstream) ∷ os) e some_losses (n, won, paused)
        (first, early) (open_state, here, mild) =
      let (lifted, same) =
        observe_market-IsLifted until now equity upstream e some_losses won paused first open_state
          here in
      observe_all-IsLifted until os (observe_market now equity upstream e) (rw same some_losses)
        lifted early mild

  -- Before a pause ends, one closed trade without a loss makes the breaker NORMAL, whatever state it was in,
  -- and observations before the end of the pause leave it NORMAL, although the pause is still in its state:
  -- as long as the threshold of losses is above nought, no upstream HALT comes, no daily loss is reached and
  -- the drawdown stays under three per cent and within the configured limit.
  pub win_lifts_pause :
      (until now : ℕ) (pnl : F) (d : SignalDirection) (os : List (Observation F)) (e : RiskEngine F)
      → 0 < e.config.consecutive_loss_pause_threshold
      → e.state.pause_until_utc ≡ some until
      → now < until
      → lt pnl nought ≡ false
      → IsMild (add e.state.current_equity pnl) e
      → All (λ o. o.0 < until) os
      → AllMild os (register_closed_trade pnl d now e)
      → IsLifted until (observe_all os (register_closed_trade pnl d now e))
  unfolding register_closed_trade refresh_capital
  win_lifts_pause until now pnl d os e some_losses paused early won mild later calm =
      let (lifted, same) =
        observe_market-IsLifted until now (add e.state.current_equity pnl) SystemState.normal
          (record e {
            state = record e.state {
              consecutive_losing_trades = 0;
              last_loss_direction = none;
              current_equity = add e.state.current_equity pnl;
            };
          })
          some_losses refl paused early refl mild in
      observe_all-IsLifted until os (register_closed_trade pnl d now e)
        (rw won (rw same some_losses)) (rw won lifted) later calm
