-- ===== src/Strategy/Signal.antt =====
-- services/layer3_strategy/signals.py: `evaluate_dual_timeframe_signal`.
pub mod Trades
pub mod Tests
use algo_trading_platform.Base.{
  ℕ, Bool, true, false, not, ◌&&◌, ◌||◌, Option, none, some, List, [], ◌∷◌, String, get_last?,
  last_slice, ltb, ◌==◌, if◌then◌else◌,
}
use algo_trading_platform.Base.Dict.{string_eq}
use algo_trading_platform.Base.Outcome.{Outcome, returned, raised, value_error, ◌>>=◌}
use algo_trading_platform.Float.{Float, nought}
use algo_trading_platform.Schema.{
  SystemState, SignalDirection, ConfluenceLevel, IndicatorSnapshot, TradeSignal, Frames,
  SignalReason, is_halt, is_degraded,
}
use algo_trading_platform.Strategy.{SignalThresholds, OfiSnapshot}
use algo_trading_platform.Strategy.Gates.{
  Side, long_side, short_side, passes, failing, primary_long_gate, primary_short_gate,
  higher_timeframe_confluence_long, higher_timeframe_confluence_short,
}
use algo_trading_platform.Strategy.Strength.{signal_strength}

-- The arguments of the call.
pub record Inputs (F : Type 0) : Type 0 where
  pub symbol : String
  pub primary_snapshots : List (IndicatorSnapshot F)
  pub higher_snapshots : List (IndicatorSnapshot F)
  pub ofi_snapshot : OfiSnapshot F
  pub trust_score : F
  pub system_state : SystemState
  pub thresholds : SignalThresholds F

abbrev max_ℕ : ℕ → ℕ → ℕ
max_ℕ a b = if ltb a b then b else a

abbrev direction_of : Side → SignalDirection
direction_of long_side = SignalDirection.long
direction_of short_side = SignalDirection.short

abbrev reason_of : Side → SignalReason
reason_of long_side = SignalReason.long_signal
reason_of short_side = SignalReason.short_signal

module _ {F : Type 0} ⦃fl : Float F⦄ where
  open fl use {le}

  -- `_hold_signal` and `_close_all_signal`
  pub plain_signal : SignalDirection → Inputs F → SignalReason → TradeSignal F
  plain_signal direction i reason = record {
    symbol = i.symbol;
    direction = direction;
    size_pct = nought;
    signal_strength = nought;
    confluence = ConfluenceLevel.nil;
    ofi = i.ofi_snapshot.ofi;
    system_state = i.system_state;
    timestamp_utc = 0;
    indicator_snapshots = none;
    candle_reliability = none;
    trust_score = i.trust_score;
    reason = reason;
  }

  abbrev hold : Inputs F → SignalReason → Outcome (TradeSignal F)
  hold i reason = returned (plain_signal SignalDirection.hold i reason)

  -- The branch of a primary gate that passed: the confluence, the strength and the signal.
  confirm :
      Side
      → Inputs F
      → (primary higher : IndicatorSnapshot F) → List (IndicatorSnapshot F)
      → ℕ
      → Outcome (TradeSignal F)
  confirm side i primary higher window confluence =
      if ltb confluence 2 then hold i SignalReason.higher_disagreement else do
        strength ← signal_strength side i.thresholds primary window
        returned (record {
          symbol = i.symbol;
          direction = direction_of side;
          size_pct = nought;
          signal_strength = strength;
          confluence = if confluence == 3 then ConfluenceLevel.full else ConfluenceLevel.partial;
          ofi = i.ofi_snapshot.ofi;
          system_state = i.system_state;
          timestamp_utc = max_ℕ primary.candle_end_time_utc higher.candle_end_time_utc;
          indicator_snapshots = some (record { primary = primary; higher = higher });
          candle_reliability =
              some (record { primary = primary.candle_reliable; higher = higher.candle_reliable });
          trust_score = i.trust_score;
          reason = reason_of side;
        })

  -- The gates, for inputs whose latest snapshots are `primary` and `higher`.
  decide_gates : Inputs F → (primary higher : IndicatorSnapshot F) → Outcome (TradeSignal F)
  decide_gates i primary higher =
      let t = i.thresholds in
      let window = last_slice t.ema_cross_window i.primary_snapshots in
      let higher_window = last_slice 2 i.higher_snapshots in
      let long_gate = primary_long_gate primary window t i.system_state in
      let short_gate = primary_short_gate primary window t i.system_state in
      if passes long_gate && le i.ofi_snapshot.ofi t.ofi_long_threshold
      then hold i SignalReason.ofi_long_failed
      else if passes short_gate && le t.ofi_short_threshold i.ofi_snapshot.ofi
      then hold i SignalReason.ofi_short_failed
      else if passes long_gate
      then confirm long_side i primary higher window
          (higher_timeframe_confluence_long higher higher_window t)
      else if passes short_gate
      then confirm short_side i primary higher window
          (higher_timeframe_confluence_short higher higher_window t)
      else hold i (SignalReason.primary_gate_failed (failing long_gate))

  -- The checks on the state and on the reliability of the candle.
  decide_state : Inputs F → (primary higher : IndicatorSnapshot F) → Outcome (TradeSignal F)
  decide_state i primary higher =
      if is_halt i.system_state
      then returned (plain_signal SignalDirection.close_all i SignalReason.state_halt)
      else if is_degraded i.system_state
      then hold i SignalReason.state_degraded
      else if not primary.candle_reliable
      then hold i SignalReason.primary_unreliable
      else decide_gates i primary higher

  pub evaluate_dual_timeframe_signal : Inputs F → Outcome (TradeSignal F)
  evaluate_dual_timeframe_signal i =
      if not (string_eq.beq i.ofi_snapshot.symbol i.symbol)
      then raised value_error
      else elim (get_last? i.primary_snapshots) [
        | none ↦ hold i SignalReason.missing_primary
        | some primary ↦ elim (get_last? i.higher_snapshots) [
          | none ↦ hold i SignalReason.missing_higher
          | some higher ↦
              if not (string_eq.beq primary.symbol i.symbol)
                || not (string_eq.beq higher.symbol i.symbol)
              then raised value_error
              else decide_state i primary higher
        ]
      ]
