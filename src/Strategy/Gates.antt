-- ===== src/Strategy/Gates.antt =====
-- services/layer3_strategy/signals.py: the conditions of the primary timeframe and the confluence of
-- the higher one. `recent` is never empty where the code calls these; on an empty list, where the code
-- would raise an IndexError, they are false.
use algo_trading_platform.Base.{
  ◌≡◌, arith, ℕ, ◌+◌, Bool, true, false, ◌&&◌, ◌||◌, Option, none, some, List, [], ◌∷◌, ◌++◌,
  get_last?, get_previous?, is_some, if◌then◌else◌,
}
use algo_trading_platform.Float.{Float, nought, one}
use algo_trading_platform.Schema.{
  SystemState, EmaCross, bullish, bearish, IndicatorSnapshot, GateCondition, rsi_ok, macd_ok,
  bollinger_ok, ema_ok, is_conservative,
}
use algo_trading_platform.Strategy.{SignalThresholds}

-- The argument `direction` of the helpers that serve both sides.
pub data Side : Type 0 where
  long_side short_side : Side

-- `snapshot.ema_cross == ("bullish" if direction == "LONG" else "bearish")`
abbrev crosses : Side → Option EmaCross → Bool
crosses long_side (some bullish) = true
crosses short_side (some bearish) = true
crosses _ _ = false

-- `x is not None and test(x)`
abbrev holds : {F : Type 0} → Option F → (F → Bool) → Bool
holds none p = false
holds (some x) p = p x

-- The four entries of a breakdown.
pub record Breakdown : Type 0 where
  pub rsi : Bool
  pub macd : Bool
  pub bollinger : Bool
  pub ema : Bool

abbrev pub passes : Breakdown → Bool
passes b = b.rsi && b.macd && b.bollinger && b.ema

-- `[k for k, v in breakdown.items() if not v]`
abbrev pub failing : Breakdown → List GateCondition
failing b =
    (if b.rsi then [] else rsi_ok ∷ [])
    ++ ((if b.macd then [] else macd_ok ∷ [])
        ++ ((if b.bollinger then [] else bollinger_ok ∷ []) ++ (if b.ema then [] else ema_ok ∷ [])))

-- A term of `sum(1 for condition in conditions if condition)`
abbrev count : Bool → ℕ
count b = if b then 1 else 0

module _ {F : Type 0} ⦃fl : Float F⦄ where
  open fl use {add, sub, mul, div, abs, lt, le}

  -- `x == y` of two floats
  abbrev pub equal : F → F → Bool
  equal x y = le x y && le y x

  pub any_cross : Side → List (IndicatorSnapshot F) → Bool
  any_cross side [] = false
  any_cross side (s ∷ ss) = crosses side s.ema_cross || any_cross side ss

  -- The histogram of the latest and of the previous snapshot, where both are there.
  histograms : List (IndicatorSnapshot F) → Option (F × F)
  histograms recent = elim (get_last? recent) [
    | none ↦ none
    | some latest ↦ elim latest.macd_histogram [
      | none ↦ none
      | some h ↦ elim (get_previous? recent) [
        | none ↦ none
        | some previous ↦ elim previous.macd_histogram [ none ↦ none | some p ↦ some (h, p) ]
      ]
    ]
  ]

  -- `_histogram_trending_up`
  histogram_trending_up : Side → List (IndicatorSnapshot F) → Bool
  unfolding histograms
  histogram_trending_up side recent = elim (histograms recent) [
    | none ↦ false
    | some (h, p) ↦ elim side [
      | long_side ↦ lt nought h && lt p h || lt p nought && le nought h
      | short_side ↦ lt h nought && lt h p || lt nought p && le h nought
    ]
  ]

  -- `abs(fast - slow) / abs(slow)`, where both are there and `slow` is not 0.0
  pub ema_distance : Option F → Option F → Option F
  ema_distance none slow = none
  ema_distance (some f) none = none
  ema_distance (some f) (some s) =
      if equal s nought then none else some (div (abs (sub f s)) (abs s))

  -- `_ema_alignment_ok`
  ema_alignment_ok : Side → SignalThresholds F → List (IndicatorSnapshot F) → Bool
  unfolding any_cross ema_distance
  ema_alignment_ok side t recent = any_cross side recent || elim (get_last? recent) [
    | none ↦ false
    | some latest ↦
        holds (ema_distance latest.ema_fast latest.ema_slow) λ d. le d t.ema_cross_margin_pct
  ]

  module _ (latest : IndicatorSnapshot F) (recent : List (IndicatorSnapshot F))
      (t : SignalThresholds F) where
    -- `_primary_long_gate`
    unfoldable pub primary_long_gate : SystemState → Breakdown
    unfolding histogram_trending_up ema_alignment_ok
    primary_long_gate state = record {
      rsi =
          holds latest.rsi λ r.
            lt r (if is_conservative state then t.conservative_rsi_long else t.normal_rsi_long);
      macd = histogram_trending_up long_side recent;
      bollinger =
          holds latest.bollinger_lower
            λ b. le latest.close (mul b (add one t.bollinger_buffer_pct));
      ema = ema_alignment_ok long_side t recent;
    }

    -- `_primary_short_gate`
    unfoldable pub primary_short_gate : SystemState → Breakdown
    unfolding histogram_trending_up ema_alignment_ok
    primary_short_gate state = record {
      rsi = holds latest.rsi λ r.
          lt (if is_conservative state then t.conservative_rsi_short else t.normal_rsi_short) r;
      macd = histogram_trending_up short_side recent;
      bollinger =
          holds latest.bollinger_upper
            λ b. le (mul b (sub one t.bollinger_buffer_pct)) latest.close;
      ema = ema_alignment_ok short_side t recent;
    }

  -- `previous is not None and previous.macd_histogram is not None and test(previous.macd_histogram)`
  previous_holds : List (IndicatorSnapshot F) → (F → Bool) → Bool
  previous_holds recent p = elim (get_previous? recent) [
    | none ↦ false
    | some q ↦ holds q.macd_histogram p
  ]

  -- `_higher_timeframe_histogram_turning_long` and `_higher_timeframe_histogram_turning_short`
  turning : Side → List (IndicatorSnapshot F) → Bool
  unfolding previous_holds
  turning side recent = elim (get_last? recent) [
    | none ↦ false
    | some latest ↦ holds latest.macd_histogram λ h. elim side [
      | long_side ↦ lt nought h || previous_holds recent λ p. lt p nought && le nought h
      | short_side ↦ lt h nought || previous_holds recent λ p. lt nought p && le h nought
    ]
  ]

  module _ (latest : IndicatorSnapshot F) (recent : List (IndicatorSnapshot F))
      (t : SignalThresholds F) where
    -- `_higher_timeframe_confluence_long`
    unfoldable pub higher_timeframe_confluence_long : ℕ
    unfolding turning
    higher_timeframe_confluence_long =
        count (holds latest.rsi λ r. lt r t.higher_long_rsi_max)
        + count (turning long_side recent)
        + count (holds latest.bollinger_middle λ m. lt latest.close m)

    -- `_higher_timeframe_confluence_short`
    pub higher_timeframe_confluence_short : ℕ
    unfolding turning
    higher_timeframe_confluence_short =
        count (holds latest.rsi λ r. lt t.higher_short_rsi_min r)
        + count (turning short_side recent)
        + count (holds latest.bollinger_middle λ m. lt m latest.close)

    -- A gate that passes has an rsi.
    pub long_gate-rsi :
        (state : SystemState)
        → passes (primary_long_gate latest recent t state) ≡ true
        → is_some latest.rsi ≡ true
    unfolding primary_long_gate
    long_gate-rsi state h = ground arith

    pub short_gate-rsi :
        (state : SystemState)
        → passes (primary_short_gate latest recent t state) ≡ true
        → is_some latest.rsi ≡ true
    unfolding primary_short_gate
    short_gate-rsi state h = ground arith
