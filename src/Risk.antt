-- ===== src/Risk.antt =====
-- services/layer4_risk/engine.py: the state of `Layer4RiskEngine` and its small methods.
-- `Breaker` has the circuit breaker, `Gate` the pre-execution checks and `History` sequences of calls.
pub mod Breaker
pub mod Gate
pub mod History
mod Tests
use mathlib.Core.Bool.{decide, decide_iff}
use algo_trading_platform.Base.{
  ℕ, ◌+◌, Bool, false, ◌||◌, Option, none, some, List, [], ◌∷◌, if◌then◌else◌,
}
use algo_trading_platform.Base.Dict.{Dict, Eq, lookup, insert}
use algo_trading_platform.Float.{Float, nought}
use algo_trading_platform.Schema.{CircuitBreakerState, SignalDirection, ApprovedOrder}

pub record RiskManagerConfig (F : Type 0) : Type 0 where
  pub trust_floor : F
  pub max_position_size_pct : F
  pub max_trade_loss_pct : F
  pub max_portfolio_exposure_pct : F
  pub consecutive_loss_pause_threshold : ℕ
  pub consecutive_loss_recovery_ticks : ℕ
  pub pause_duration_minutes : ℕ
  pub daily_loss_limit_pct : F
  pub drawdown_reduce_threshold_pct : F
  pub drawdown_release_threshold_pct : F
  pub reduced_state_size_multiplier : F

pub data StateReason : Type 0 where
  daily_loss_limit upstream_halt loss_streak_pause loss_streak_reduced : StateReason
  drawdown_reduced normal_market recovered : StateReason

pub data RejectReason : Type 0 where
  hold_signal breaker_halted upstream_state_halt upstream_state_degraded : RejectReason
  trust_floor_breached missing_atr invalid_price same_direction : RejectReason
  invalid_atr_risk exposure_cap non_positive_size : RejectReason

StateReason-discrete : Discrete StateReason
StateReason-discrete = hlevel

RejectReason-discrete : Discrete RejectReason
RejectReason-discrete = hlevel

instance abbrev pub state_reason_eq : Eq StateReason
unfolding StateReason-discrete decide
state_reason_eq = record {
  beq = λ a b. decide (StateReason-discrete a b);
  beq_iff = λ a b. decide_iff (StateReason-discrete a b);
}

instance abbrev pub reject_reason_eq : Eq RejectReason
unfolding RejectReason-discrete decide
reject_reason_eq = record {
  beq = λ a b. decide (RejectReason-discrete a b);
  beq_iff = λ a b. decide_iff (RejectReason-discrete a b);
}

pub record RiskState (F : Type 0) : Type 0 where
  pub circuit_breaker_state : CircuitBreakerState
  pub pause_until_utc : Option ℕ
  pub consecutive_losing_trades : ℕ
  pub normal_tick_streak : ℕ
  pub session_start_equity : F
  pub current_equity : F
  pub peak_equity : F
  pub latest_drawdown_pct : F
  pub daily_loss_halted : Bool
  pub last_loss_direction : Option SignalDirection
  pub last_state_reason : Option StateReason
  pub last_approved_order : Option (ApprovedOrder F)
  pub alert_events : List StateReason

pub record Telemetry : Type 0 where
  pub market_observations : ℕ
  pub state_normal : ℕ
  pub state_reduced : ℕ
  pub state_halted : ℕ
  pub signals_evaluated : ℕ
  pub approved_orders : ℕ
  pub rejected_orders : ℕ
  pub close_all_orders : ℕ
  pub transition_normal_to_reduced : ℕ
  pub transition_normal_to_halted : ℕ
  pub transition_reduced_to_normal : ℕ
  pub transition_reduced_to_halted : ℕ
  pub transition_halted_to_normal : ℕ
  pub transition_halted_to_reduced : ℕ
  pub rejection_reasons : Dict RejectReason ℕ

pub record RiskEngine (F : Type 0) : Type 0 where
  pub config : RiskManagerConfig F
  pub state : RiskState F
  pub telemetry : Telemetry

abbrev pub fresh_telemetry : Telemetry
fresh_telemetry = record {
  market_observations = 0;
  state_normal = 0;
  state_reduced = 0;
  state_halted = 0;
  signals_evaluated = 0;
  approved_orders = 0;
  rejected_orders = 0;
  close_all_orders = 0;
  transition_normal_to_reduced = 0;
  transition_normal_to_halted = 0;
  transition_reduced_to_normal = 0;
  transition_reduced_to_halted = 0;
  transition_halted_to_normal = 0;
  transition_halted_to_reduced = 0;
  rejection_reasons = [];
}

-- `x in xs`
abbrev pub contains : StateReason → List StateReason → Bool
contains r [] = false
contains r (x ∷ xs) = state_reason_eq.beq x r || contains r xs

-- `x + 1` in `telemetry.rejection_reasons`, from 0 where the reason is new
abbrev pub count_reason : RejectReason → Dict RejectReason ℕ → Dict RejectReason ℕ
count_reason r d = insert r (elim (lookup r d) [ none ↦ 0 | some n ↦ n ] + 1) d

module _ {F : Type 0} ⦃fl : Float F⦄ where
  open fl use {decimal, le}

  abbrev pub default_risk_manager_config : RiskManagerConfig F
  default_risk_manager_config = record {
    trust_floor = decimal 40 2;
    max_position_size_pct = decimal 20 2;
    max_trade_loss_pct = decimal 2 2;
    max_portfolio_exposure_pct = decimal 60 2;
    consecutive_loss_pause_threshold = 5;
    consecutive_loss_recovery_ticks = 10;
    pause_duration_minutes = 30;
    daily_loss_limit_pct = decimal 8 2;
    drawdown_reduce_threshold_pct = decimal 5 2;
    drawdown_release_threshold_pct = decimal 3 2;
    reduced_state_size_multiplier = decimal 5 1;
  }

  -- `RiskState(session_start_equity=e, current_equity=e, peak_equity=e)`
  abbrev pub fresh_state : F → RiskState F
  fresh_state equity = record {
    circuit_breaker_state = CircuitBreakerState.normal;
    pause_until_utc = none;
    consecutive_losing_trades = 0;
    normal_tick_streak = 0;
    session_start_equity = equity;
    current_equity = equity;
    peak_equity = equity;
    latest_drawdown_pct = nought;
    daily_loss_halted = false;
    last_loss_direction = none;
    last_state_reason = none;
    last_approved_order = none;
    alert_events = [];
  }

  -- `Layer4RiskEngine.__init__`; `none` is its `ValueError`.
  abbrev pub start : RiskManagerConfig F → F → Option (RiskEngine F)
  start config equity =
      if le equity nought
      then none
      else some
          (record { config = config; state = fresh_state equity; telemetry = fresh_telemetry })
