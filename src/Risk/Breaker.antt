-- ===== src/Risk/Breaker.antt =====
-- services/layer4_risk/engine.py: the circuit breaker, `observe_market` and `register_closed_trade`
-- with the private methods that they call. Times are milliseconds since the epoch.
pub mod States
pub mod Alerts
pub mod Observations
use algo_trading_platform.Base.{
  ℕ, ◌+◌, ◌*◌, Bool, true, false, not, ◌&&◌, ◌||◌, none, some, [], ◌∷◌, ◌++◌, ltb, leb,
  if◌then◌else◌,
}
use algo_trading_platform.Float.{Float, nought, one, maximum}
use algo_trading_platform.Schema.{
  CircuitBreakerState, SignalDirection, SystemState, is_halt, is_normal,
}
use algo_trading_platform.Risk.{
  RiskManagerConfig, RiskState, RiskEngine, Telemetry, StateReason, daily_loss_limit, upstream_halt,
  loss_streak_pause, loss_streak_reduced, drawdown_reduced, normal_market, recovered, contains,
}

module _ {F : Type 0} where
  -- `_set_state`
  set_state : CircuitBreakerState → StateReason → RiskState F → RiskState F
  set_state c r s = record s {
    circuit_breaker_state = c;
    last_state_reason = some r;
    alert_events = if contains r s.alert_events then s.alert_events else s.alert_events ++ r ∷ [];
  }

  -- `_recover_from_pause`
  recover_from_pause : RiskState F → RiskState F
  recover_from_pause s = record s {
    circuit_breaker_state = CircuitBreakerState.normal;
    pause_until_utc = none;
    consecutive_losing_trades = 0;
    normal_tick_streak = 0;
    last_loss_direction = none;
    last_state_reason = some recovered;
  }

  -- `if self.state.pause_until_utc is None: ...`
  begin_pause : RiskManagerConfig F → ℕ → RiskState F → RiskState F
  begin_pause c now s = elim s.pause_until_utc [
    | none ↦ record s { pause_until_utc = some (now + c.pause_duration_minutes * 60_000) }
    | some _ ↦ s
  ]

  -- `pause_until_utc is None or timestamp_utc >= pause_until_utc`
  abbrev pub cooldown_elapsed : RiskState F → ℕ → Bool
  cooldown_elapsed s now = elim s.pause_until_utc [ none ↦ true | some t ↦ leb t now ]

-- The transition counters of `_record_market_observation`.
count_transition : CircuitBreakerState → CircuitBreakerState → Telemetry → Telemetry
count_transition CircuitBreakerState.normal CircuitBreakerState.reduced t = record t {
  transition_normal_to_reduced = t.transition_normal_to_reduced + 1;
}
count_transition CircuitBreakerState.normal CircuitBreakerState.halted t = record t {
  transition_normal_to_halted = t.transition_normal_to_halted + 1;
}
count_transition CircuitBreakerState.reduced CircuitBreakerState.normal t = record t {
  transition_reduced_to_normal = t.transition_reduced_to_normal + 1;
}
count_transition CircuitBreakerState.reduced CircuitBreakerState.halted t = record t {
  transition_reduced_to_halted = t.transition_reduced_to_halted + 1;
}
count_transition CircuitBreakerState.halted CircuitBreakerState.normal t = record t {
  transition_halted_to_normal = t.transition_halted_to_normal + 1;
}
count_transition CircuitBreakerState.halted CircuitBreakerState.reduced t = record t {
  transition_halted_to_reduced = t.transition_halted_to_reduced + 1;
}
count_transition _ _ t = t

count_state : CircuitBreakerState → Telemetry → Telemetry
count_state CircuitBreakerState.normal t = record t { state_normal = t.state_normal + 1 }
count_state CircuitBreakerState.reduced t = record t { state_reduced = t.state_reduced + 1 }
count_state CircuitBreakerState.halted t = record t { state_halted = t.state_halted + 1 }

-- `_record_market_observation`, from the state before and the state after
record_market_observation : CircuitBreakerState → CircuitBreakerState → Telemetry → Telemetry
unfolding count_transition count_state
record_market_observation previous current t =
    count_transition previous current
      (count_state current (record t { market_observations = t.market_observations + 1 }))

-- `circuit_breaker_state in {"REDUCED", "HALTED"}`
abbrev pub is_restricted : CircuitBreakerState → Bool
is_restricted CircuitBreakerState.normal = false
is_restricted _ = true

module _ {F : Type 0} ⦃fl : Float F⦄ where
  open fl use {decimal, add, sub, mul, div, lt, le}

  -- `_drawdown_pct`
  drawdown_pct : RiskState F → F → F
  drawdown_pct s equity =
      if le s.peak_equity nought
      then nought
      else maximum nought (div (sub s.peak_equity equity) s.peak_equity)

  -- `_drawdown_in_reduced_band`
  drawdown_in_reduced_band : RiskManagerConfig F → RiskState F → Bool
  drawdown_in_reduced_band c s =
      le (decimal 3 2) s.latest_drawdown_pct
      && le s.latest_drawdown_pct c.drawdown_reduce_threshold_pct

  -- `_needs_reduced_state`
  needs_reduced_state : RiskManagerConfig F → RiskState F → Bool
  unfolding drawdown_in_reduced_band
  needs_reduced_state c s =
      leb 3 s.consecutive_losing_trades
        && ltb s.consecutive_losing_trades c.consecutive_loss_pause_threshold
      || lt c.drawdown_reduce_threshold_pct s.latest_drawdown_pct
      || drawdown_in_reduced_band c s

  -- `_reduced_reason`
  reduced_reason : RiskState F → StateReason
  reduced_reason s =
      if leb 3 s.consecutive_losing_trades then loss_streak_reduced else drawdown_reduced

  -- `_can_recover`
  can_recover : RiskManagerConfig F → RiskState F → ℕ → Bool
  can_recover c s now =
      cooldown_elapsed s now
      && leb c.consecutive_loss_recovery_ticks s.normal_tick_streak
      && lt s.latest_drawdown_pct c.drawdown_release_threshold_pct
      && not s.daily_loss_halted

  recover_if_able : RiskManagerConfig F → ℕ → RiskState F → RiskState F
  unfolding can_recover recover_from_pause
  recover_if_able c now s = if can_recover c s now then recover_from_pause s else s

  -- `qualifying_normal`
  qualifying_normal : RiskManagerConfig F → RiskState F → ℕ → SystemState → Bool
  qualifying_normal c s now upstream =
      is_normal upstream
      && not s.daily_loss_halted
      && lt s.latest_drawdown_pct c.drawdown_release_threshold_pct
      && cooldown_elapsed s now

  -- The first part of `observe_market`: equity, drawdown and the daily loss latch.
  unfoldable pub refresh_capital : RiskManagerConfig F → F → RiskState F → RiskState F
  unfolding drawdown_pct
  refresh_capital c equity s =
      let peaked = record s {
        current_equity = equity;
        peak_equity = maximum s.peak_equity equity;
      } in
      record peaked {
        latest_drawdown_pct = drawdown_pct peaked equity;
        daily_loss_halted =
            if le equity (mul s.session_start_equity (sub one c.daily_loss_limit_pct))
            then true
            else s.daily_loss_halted;
      }

  -- The second part: the streak of qualifying ticks.
  refresh_streak : RiskManagerConfig F → ℕ → SystemState → RiskState F → RiskState F
  unfolding qualifying_normal
  refresh_streak c now upstream s = record s {
    normal_tick_streak = if qualifying_normal c s now upstream then s.normal_tick_streak + 1 else 0;
  }

  -- The third part: the guards that choose the next state.
  transition : RiskManagerConfig F → ℕ → SystemState → RiskState F → RiskState F
  transition c now upstream s =
      if s.daily_loss_halted
      then set_state CircuitBreakerState.halted daily_loss_limit s
      else if is_halt upstream
      then set_state CircuitBreakerState.halted upstream_halt s
      else if leb c.consecutive_loss_pause_threshold s.consecutive_losing_trades
      then recover_if_able c now
          (set_state CircuitBreakerState.halted loss_streak_pause (begin_pause c now s))
      else if needs_reduced_state c s
      then recover_if_able c now
          (set_state CircuitBreakerState.reduced (reduced_reason s) (begin_pause c now s))
      else if is_restricted s.circuit_breaker_state && can_recover c s now
      then recover_from_pause s
      else set_state CircuitBreakerState.normal normal_market s

  unfoldable pub observe_market : ℕ → F → SystemState → RiskEngine F → RiskEngine F
  unfolding refresh_capital refresh_streak transition set_state recover_if_able begin_pause
      can_recover recover_from_pause needs_reduced_state reduced_reason record_market_observation
  observe_market now equity upstream e =
      let c = e.config in
      let next =
        transition c now upstream
          (refresh_streak c now upstream (refresh_capital c equity e.state)) in
      record e {
        state = next;
        telemetry =
            record_market_observation e.state.circuit_breaker_state next.circuit_breaker_state
              e.telemetry;
      }

  -- The streak counters of `register_closed_trade`.
  count_trade : F → SignalDirection → RiskState F → RiskState F
  count_trade pnl direction s =
      if lt pnl nought
      then record s {
        consecutive_losing_trades = s.consecutive_losing_trades + 1;
        last_loss_direction = some direction;
      }
      else record s { consecutive_losing_trades = 0; last_loss_direction = none }

  unfoldable pub register_closed_trade : F → SignalDirection → ℕ → RiskEngine F → RiskEngine F
  unfolding count_trade
  register_closed_trade pnl direction now e =
      let s = count_trade pnl direction e.state in
      let equity = add s.current_equity pnl in
      observe_market now equity SystemState.normal
        (record e { state = record s { current_equity = equity } })
