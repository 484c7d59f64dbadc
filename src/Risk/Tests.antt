-- ===== src/Risk/Tests.antt =====
-- Runs of the circuit breaker of services/layer4_risk/engine.py, and its theorems at concrete inputs.
use algo_trading_platform.Base.{ℕ, ◌≡◌, refl, false, none, some, List, [], ◌∷◌, arith}
use algo_trading_platform.Base.Int.{ℤ, pos, negsuc}
use algo_trading_platform.Float.Fixed.{fixed_float}
use algo_trading_platform.Schema.{
  CircuitBreakerState, SignalDirection, ConfluenceLevel, SystemState, TradeSignal, SignalReason,
}
use algo_trading_platform.Risk.{
  RiskEngine, fresh_state, fresh_telemetry, default_risk_manager_config,
}
use algo_trading_platform.Risk.Breaker.{observe_market, refresh_capital, register_closed_trade}
use algo_trading_platform.Risk.Gate.{evaluate_signal}
use algo_trading_platform.Risk.History.{RiskCall, close_trade, run}
use algo_trading_platform.Risk.History.Latch.{daily_loss_blocks}
use algo_trading_platform.Risk.History.Counters.{IsConsistent, run-IsConsistent}
use algo_trading_platform.Risk.History.Pause.{observe_all, observe_calm, pause_holds, pause_ends}
use algo_trading_platform.Risk.History.Wins.{IsLifted, win_lifts_pause}

abbrev engine : RiskEngine ℤ
engine = record {
  config = default_risk_manager_config;
  state = fresh_state (pos 1_000_000);
  telemetry = fresh_telemetry;
}

abbrev buy : TradeSignal ℤ
buy = record {
  symbol = "BTC-USDT";
  direction = SignalDirection.long;
  size_pct = pos 200_000;
  signal_strength = pos 500_000;
  confluence = ConfluenceLevel.full;
  ofi = pos 300_000;
  system_state = SystemState.normal;
  timestamp_utc = 1000;
  indicator_snapshots = none;
  candle_reliability = none;
  trust_score = pos 900_000;
  reason = SignalReason.long_signal;
}

-- Five losses in a row halt the breaker for half an hour.
abbrev losing : List (RiskCall ℤ)
losing =
    close_trade (negsuc 999) SignalDirection.long 1000
    ∷ close_trade (negsuc 999) SignalDirection.long 2000
    ∷ close_trade (negsuc 999) SignalDirection.long 3000
    ∷ close_trade (negsuc 999) SignalDirection.long 4000
    ∷ close_trade (negsuc 999) SignalDirection.long 5000
    ∷ []

halted_after_five :
    ((run losing engine).state.circuit_breaker_state ≡ CircuitBreakerState.halted)
    × ((run losing engine).state.pause_until_utc ≡ some 1_803_000)
unfolding register_closed_trade observe_market
halted_after_five = (refl, refl)

daily_loss_blocks_example :
    let e' = run losing (observe_market 10 (pos 910_000) SystemState.normal engine) in
    let d = (evaluate_signal buy (pos 5_000_000) (pos 0) none e').1 in
    (e'.state.circuit_breaker_state ≡ CircuitBreakerState.halted)
    × (d.approved ≡ false)
    × (d.approved_order ≡ none)
unfolding refresh_capital
daily_loss_blocks_example =
    daily_loss_blocks 10 (pos 910_000) SystemState.normal engine losing buy (pos 5_000_000) (pos 0)
      none refl

run-IsConsistent_example : IsConsistent (run losing engine)
run-IsConsistent_example =
    run-IsConsistent default_risk_manager_config (pos 1_000_000) losing {e = engine} refl

-- A pause of a loss streak until 2000, with the streak of ticks at `ticks`.
abbrev paused : ℕ → RiskEngine ℤ
paused ticks = record engine {
  state = record (fresh_state (pos 1_000_000)) {
    circuit_breaker_state = CircuitBreakerState.halted;
    pause_until_utc = some 2000;
    consecutive_losing_trades = 5;
    normal_tick_streak = ticks;
  };
}

pause_holds_example :
    (observe_all
      ((1000, pos 999_000, SystemState.normal) ∷ (1500, pos 980_000, SystemState.halt) ∷ [])
      (paused 0)).state.circuit_breaker_state
    ≡ CircuitBreakerState.halted
pause_holds_example =
    pause_holds 2000
      ((1000, pos 999_000, SystemState.normal) ∷ (1500, pos 980_000, SystemState.halt) ∷ [])
      (paused 0) (omega arith) refl refl (omega arith)

pause_ends_example :
    let s = (observe_calm ((2000, pos 999_000) ∷ (2100, pos 998_000) ∷ []) (paused 8)).state in
    (s.circuit_breaker_state ≡ CircuitBreakerState.normal) × (s.consecutive_losing_trades ≡ 0)
unfolding observe_market refresh_capital
pause_ends_example =
    pause_ends 2000 ((2000, pos 999_000) ∷ (2100, pos 998_000) ∷ []) (paused 8) (omega arith) refl
      (cc) refl (omega arith, refl, refl, (omega arith, refl, refl, tt))

win_lifts_pause_example : IsLifted 2000 (
    observe_all
      ((1500, pos 990_000, SystemState.degraded) ∷ [])
      (register_closed_trade (pos 0) SignalDirection.long 1000 (paused 0)))
unfolding refresh_capital register_closed_trade observe_market
win_lifts_pause_example =
    win_lifts_pause 2000 1000 (pos 0) SignalDirection.long
      ((1500, pos 990_000, SystemState.degraded) ∷ []) (paused 0) (omega arith) refl (omega arith)
      refl (refl, refl, refl) (omega arith, tt) (refl, (refl, refl, refl), tt)
