-- ===== src/Strategy/Signal/Trades.antt =====
-- Which signals `evaluate_dual_timeframe_signal` of services/layer3_strategy/signals.py returns.
use algo_trading_platform.Base.{
  ℕ, ◌≡◌, ◌≢◌, refl, true, false, ◌≤◌, ◌||◌, some, inl, inr, List, arith, Option-cases, is_some,
  ltb, get_last?, last_slice, if◌then◌else◌,
}
use mathlib.Core.Path.{subst}
use algo_trading_platform.Base.Dict.{string_eq}
use algo_trading_platform.Base.Outcome.{Outcome, returned, raised, attribute_error}
use algo_trading_platform.Float.{Float}
use algo_trading_platform.Schema.{
  SignalDirection, IndicatorSnapshot, TradeSignal, SignalReason, is_hold, is_halt, is_degraded,
}
use algo_trading_platform.Strategy.Gates.{
  Side, long_side, short_side, passes, primary_long_gate, primary_short_gate, long_gate-rsi,
  short_gate-rsi, higher_timeframe_confluence_long, higher_timeframe_confluence_short,
}
use algo_trading_platform.Strategy.Strength.{signal_strength_raises}
use algo_trading_platform.Strategy.Signal.{
  Inputs, plain_signal, hold, confirm, decide_gates, decide_state, evaluate_dual_timeframe_signal,
}

module _ {F : Type 0} ⦃fl : Float F⦄ (i : Inputs F) where
  open fl use {lt, le}

  confirm_lem :
      (side : Side) (primary higher : IndicatorSnapshot F) (window : List (IndicatorSnapshot F))
      (n : ℕ)
      → is_some primary.rsi ≡ true
      → confirm side i primary higher window n
        ≡ (if ltb n 2 then hold i SignalReason.higher_disagreement else raised attribute_error)
  unfolding confirm
  confirm_lem side primary higher window n h = elim (Option-cases primary.rsi) [
    | inl e ↦ ground arith
    | inr (r, e) ↦ rw (signal_strength_raises side i.thresholds primary window e) refl
  ]

  -- Neither a HOLD nor a signal of the state HALT.
  abbrev IsIdle : Outcome (TradeSignal F) → Type 0
  IsIdle (returned sig) =
      ((is_hold sig.direction || is_halt sig.system_state) ≡ true)
      × (sig.direction ≢ SignalDirection.long)
      × (sig.direction ≢ SignalDirection.short)
  IsIdle (raised e) = Unit

  confirm-IsIdle :
      (side : Side) (primary higher : IndicatorSnapshot F) (window : List (IndicatorSnapshot F))
      (n : ℕ)
      → is_some primary.rsi ≡ true
      → IsIdle (confirm side i primary higher window n)
  unfolding plain_signal
  confirm-IsIdle side primary higher window n h =
      ground (arith, confirm_lem side primary higher window n h)

  decide_gates-IsIdle :
      (primary higher : IndicatorSnapshot F) → IsIdle (decide_gates i primary higher)
  unfolding decide_gates plain_signal
  decide_gates-IsIdle primary higher =
      let t = i.thresholds in
      let window = last_slice t.ema_cross_window i.primary_snapshots in
      let higher_window = last_slice 2 i.higher_snapshots in
      ground (
        arith,
        long_gate-rsi primary window t i.system_state,
        short_gate-rsi primary window t i.system_state,
        confirm-IsIdle long_side primary higher window
            (higher_timeframe_confluence_long higher higher_window t),
        confirm-IsIdle short_side primary higher window
            (higher_timeframe_confluence_short higher higher_window t),
      )

  decide_state-IsIdle :
      (primary higher : IndicatorSnapshot F) → IsIdle (decide_state i primary higher)
  unfolding decide_state plain_signal
  decide_state-IsIdle primary higher = ground (arith, decide_gates-IsIdle primary higher)

  evaluate-IsIdle : IsIdle (evaluate_dual_timeframe_signal i)
  unfolding evaluate_dual_timeframe_signal plain_signal
  evaluate-IsIdle = grind (arith, decide_state-IsIdle)

  -- Every signal that the call returns is a HOLD, or a CLOSE_ALL in the state HALT: it is never LONG
  -- and never SHORT.
  pub no_trade_signal :
      {sig : TradeSignal F}
      → evaluate_dual_timeframe_signal i ≡ returned sig
      → ((is_hold sig.direction || is_halt sig.system_state) ≡ true)
        × (sig.direction ≢ SignalDirection.long)
        × (sig.direction ≢ SignalDirection.short)
  no_trade_signal e = subst IsIdle e evaluate-IsIdle

  -- Where the primary LONG gate passes on a reliable candle, the state is neither HALT nor DEGRADED, the
  -- order flow is above its threshold, the SHORT gate fails and two or more conditions of the higher
  -- timeframe agree, the call raises an AttributeError.
  long_setup_raises :
      {primary higher : IndicatorSnapshot F}
      → string_eq.beq i.ofi_snapshot.symbol i.symbol ≡ true
      → get_last? i.primary_snapshots ≡ some primary
      → get_last? i.higher_snapshots ≡ some higher
      → string_eq.beq primary.symbol i.symbol ≡ true
      → string_eq.beq higher.symbol i.symbol ≡ true
      → is_halt i.system_state ≡ false
      → is_degraded i.system_state ≡ false
      → primary.candle_reliable ≡ true
      → passes (
          primary_long_gate primary
            (last_slice i.thresholds.ema_cross_window i.primary_snapshots)
            i.thresholds
            i.system_state)
        ≡ true
      → passes (
          primary_short_gate primary
            (last_slice i.thresholds.ema_cross_window i.primary_snapshots)
            i.thresholds
            i.system_state)
        ≡ false
      → le i.ofi_snapshot.ofi i.thresholds.ofi_long_threshold ≡ false
      → 2 ≤ higher_timeframe_confluence_long higher (last_slice 2 i.higher_snapshots) i.thresholds
      → evaluate_dual_timeframe_signal i ≡ raised attribute_error
  unfolding evaluate_dual_timeframe_signal decide_state decide_gates
  long_setup_raises {primary} {higher} sym last_p last_h sp sh nh nd reliable long short flow
        agree =
      let t = i.thresholds in
      let window = last_slice t.ema_cross_window i.primary_snapshots in
      let n = higher_timeframe_confluence_long higher (last_slice 2 i.higher_snapshots) t in
      ground (
        arith,
        confirm_lem long_side primary higher window n
            (long_gate-rsi primary window t i.system_state long),
      )
