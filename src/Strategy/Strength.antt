-- ===== src/Strategy/Strength.antt =====
-- services/layer3_strategy/signals.py: the signal strength, the mean of four scores clipped to [0, 1].
-- The rsi score reads `thresholds.long_rsi_max` or `thresholds.short_rsi_min`, which
-- `SignalThresholds` does not define, and so raises an AttributeError.
use algo_trading_platform.Base.{
  ◌≡◌, Bool, ◌||◌, Option, none, some, List, get_last?, get_previous?, if◌then◌else◌,
}
use algo_trading_platform.Base.Outcome.{
  Outcome, returned, raised, attribute_error, index_error, ◌>>=◌,
}
use algo_trading_platform.Float.{Float, nought, one}
use algo_trading_platform.Schema.{IndicatorSnapshot}
use algo_trading_platform.Strategy.{SignalThresholds, clip01}
use algo_trading_platform.Strategy.Gates.{
  Side, long_side, short_side, any_cross, equal, ema_distance,
}

module _ {F : Type 0} ⦃fl : Float F⦄ where
  open fl use {decimal, add, sub, div, abs, lt, le}

  -- `rsi_score`
  rsi_score : Option F → Outcome F
  rsi_score none = returned nought
  rsi_score (some rsi) = raised attribute_error

  -- The test of `_macd_strength_long` or `_macd_strength_short` that gives 0.0.
  abbrev no_momentum : Side → F → F → Bool
  no_momentum long_side h p = le h nought || le h p
  no_momentum short_side h p = le nought h || le p h

  abbrev momentum : Side → F → F → F
  momentum long_side h p = sub h p
  momentum short_side h p = sub p h

  -- `_macd_strength_long` and `_macd_strength_short`
  macd_strength : Side → List (IndicatorSnapshot F) → Outcome F
  macd_strength side recent = elim (get_last? recent) [
    | none ↦ raised index_error
    | some latest ↦ elim (get_previous? recent) [
      | none ↦ raised index_error
      | some previous ↦ elim latest.macd_histogram [
        | none ↦ returned nought
        | some h ↦ elim previous.macd_histogram [
          | none ↦ returned nought
          | some p ↦ returned (
              if no_momentum side h p
              then nought
              else if equal (add (abs h) (abs p)) nought
              then one
              else clip01 (div (momentum side h p) (add (abs h) (abs p))))
        ]
      ]
    ]
  ]

  -- The band and the distance beyond it, `_bollinger_strength_long` and `_bollinger_strength_short`
  bollinger_strength : Side → SignalThresholds F → IndicatorSnapshot F → F
  bollinger_strength long_side t latest = elim latest.bollinger_lower [
    | none ↦ nought
    | some b ↦
        if equal b nought
        then nought
        else clip01 (
            div (add (div (sub b latest.close) b) t.bollinger_buffer_pct)
              (add t.bollinger_strong_pct t.bollinger_buffer_pct))
  ]
  bollinger_strength short_side t latest = elim latest.bollinger_upper [
    | none ↦ nought
    | some b ↦
        if equal b nought
        then nought
        else clip01 (
            div (add (div (sub latest.close b) b) t.bollinger_buffer_pct)
              (add t.bollinger_strong_pct t.bollinger_buffer_pct))
  ]

  -- `_ema_strength`
  ema_strength : Side → SignalThresholds F → IndicatorSnapshot F → List (IndicatorSnapshot F) → F
  ema_strength side t latest recent =
      if any_cross side recent then one else elim (ema_distance latest.ema_fast latest.ema_slow) [
        | none ↦ nought
        | some d ↦
            if le t.ema_cross_margin_pct d
            then nought
            else clip01 (sub one (div d t.ema_cross_margin_pct))
      ]

  -- `_signal_strength_long` and `_signal_strength_short`
  pub signal_strength :
      Side → SignalThresholds F → IndicatorSnapshot F → List (IndicatorSnapshot F) → Outcome F
  unfolding rsi_score macd_strength bollinger_strength ema_strength
  signal_strength side t latest recent = do
    rsi ← rsi_score latest.rsi
    macd ← macd_strength side recent
    returned (
        clip01 (
          div
            (add (add (add rsi macd) (bollinger_strength side t latest))
              (ema_strength side t latest recent))
            (decimal 4 0)))

  -- With an rsi the strength is never computed.
  pub signal_strength_raises :
      (side : Side) (t : SignalThresholds F) (latest : IndicatorSnapshot F)
      (recent : List (IndicatorSnapshot F)) {rsi : F}
      → latest.rsi ≡ some rsi
      → signal_strength side t latest recent ≡ raised attribute_error
  unfolding signal_strength
  signal_strength_raises side t latest recent e = rw (e, rsi_score)
