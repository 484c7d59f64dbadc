-- ===== src/Candles.antt =====
-- services/layer3_strategy/candles.py: `CandleAggregator` and `CandleAggregationManager`. The mean of the
-- statistics library and the sum of floats, whose rounding is theirs, are parameters.
pub mod Buckets
pub mod Stream
pub mod Shape
pub mod Manager
pub mod Tests
use algo_trading_platform.Base.{
  ℕ, ◌+◌, ◌*◌, ◌/◌, Bool, true, false, ◌&&◌, Option, none, some, List, [], ◌∷◌, ◌++◌, map, length,
  String, leb, ltb, ◌==◌, if◌then◌else◌,
}
use algo_trading_platform.Base.Dict.{string_eq}
use algo_trading_platform.Base.Outcome.{Outcome, returned, raised, value_error, ◌>>=◌}
use algo_trading_platform.Float.{Float, nought, maximum, minimum}
use algo_trading_platform.Schema.{SystemState}

-- The fields of a `ScoredTick` that the aggregation reads.
pub record ScoredTick (F : Type 0) : Type 0 where
  pub symbol : String
  pub mid_price : F
  pub volume_24h : Option F
  pub trust_score : F
  pub timestamp_utc : ℕ
  pub anomaly_score : F

pub record Candle (F : Type 0) : Type 0 where
  pub symbol : String
  pub timeframe : String
  pub start_time_utc : ℕ
  pub end_time_utc : ℕ
  pub open_price : F
  pub high : F
  pub low : F
  pub close : F
  pub volume : F
  pub tick_count : ℕ
  pub avg_trust_score : F
  pub max_anomaly_score : F
  pub is_reliable : Bool
  pub consecutive_unreliable_candles : ℕ
  pub discarded : Bool
  pub system_state_override : Option SystemState

-- `_BucketState`, with its first tick and those after it in order: a bucket starts with a tick.
pub record Bucket (F : Type 0) : Type 0 where
  pub start_time_utc : ℕ
  pub first : ScoredTick F
  pub later : List (ScoredTick F)

pub record CandleAggregator (F : Type 0) : Type 0 where
  pub symbol : String
  pub timeframe : String
  pub timeframe_ms : ℕ
  pub reliability_trust_floor : F
  pub reliability_anomaly_ceiling : F
  pub unreliable_streak_to_degrade : ℕ
  pub bucket : Option (Bucket F)
  pub consecutive_unreliable_candles : ℕ

-- `TIMEFRAME_TO_MS`
abbrev pub timeframe_to_ms : String → Option ℕ
timeframe_to_ms t =
    if string_eq.beq t "5m"
    then some 300_000
    else if string_eq.beq t "1h"
    then some 3_600_000
    else none

abbrev pub bucket_start : ℕ → ℕ → ℕ
bucket_start t ms = (t / ms) * ms

module _ {F : Type 0} ⦃fl : Float F⦄ where
  open fl use {decimal, le}

  -- `__init__` with the default thresholds
  abbrev pub new_aggregator : String → String → Outcome (CandleAggregator F)
  new_aggregator symbol timeframe = elim (timeframe_to_ms timeframe) [
    | none ↦ raised value_error
    | some ms ↦ returned (record {
      symbol = symbol;
      timeframe = timeframe;
      timeframe_ms = ms;
      reliability_trust_floor = decimal 5 1;
      reliability_anomaly_ceiling = decimal 8 1;
      unreliable_streak_to_degrade = 50;
      bucket = none;
      consecutive_unreliable_candles = 0;
    })
  ]

  -- `max(xs)`, `min(xs)` and `xs[-1]` of a list that starts with `x`
  abbrev pub greatest : F → List F → F
  greatest x [] = x
  greatest x (y ∷ ys) = greatest (maximum x y) ys

  abbrev pub least : F → List F → F
  least x [] = x
  least x (y ∷ ys) = least (minimum x y) ys

  abbrev pub final : F → List F → F
  final x [] = x
  final x (y ∷ ys) = final y ys

  -- `max(0.0, float(t.volume_24h or 0.0))`
  abbrev pub volume_of : ScoredTick F → F
  volume_of t = elim t.volume_24h [
    | none ↦ maximum nought nought
    | some v ↦ maximum nought (if le v nought && le nought v then nought else v)
  ]

  module _ (mean sum : List F → F) where
    -- The test of `_finalize_current_bucket`.
    unfoldable pub reliable : CandleAggregator F → Bucket F → Bool
    reliable a b =
        let ticks = b.first ∷ b.later in
        leb 3 (length ticks)
        && (le a.reliability_trust_floor (mean (map (λ t. t.trust_score) ticks))
            && le (greatest b.first.anomaly_score (map (λ t. t.anomaly_score) b.later))
                a.reliability_anomaly_ceiling)

    -- The streak after the bucket.
    unfoldable pub next_streak : CandleAggregator F → Bucket F → ℕ
    next_streak a b = if reliable a b then 0 else a.consecutive_unreliable_candles + 1

    unfoldable pub make_candle : CandleAggregator F → Bucket F → Candle F
    make_candle a b =
        let ticks = b.first ∷ b.later in
        let prices = map (λ t. t.mid_price) b.later in
        record {
          symbol = a.symbol;
          timeframe = a.timeframe;
          start_time_utc = b.start_time_utc;
          end_time_utc = b.start_time_utc + a.timeframe_ms;
          open_price = b.first.mid_price;
          high = greatest b.first.mid_price prices;
          low = least b.first.mid_price prices;
          close = final b.first.mid_price prices;
          volume = sum (map volume_of ticks);
          tick_count = length ticks;
          avg_trust_score = mean (map (λ t. t.trust_score) ticks);
          max_anomaly_score = greatest b.first.anomaly_score (map (λ t. t.anomaly_score) b.later);
          is_reliable = reliable a b;
          consecutive_unreliable_candles = next_streak a b;
          discarded = ltb (length ticks) 3;
          system_state_override =
              if leb a.unreliable_streak_to_degrade (next_streak a b)
              then some SystemState.degraded
              else none;
        }

    -- `_finalize_current_bucket` of the bucket `b`: the candle and the new streak.
    unfoldable pub finalize_current_bucket :
        CandleAggregator F → Bucket F → CandleAggregator F × List (Candle F)
    finalize_current_bucket a b =
        (record a { consecutive_unreliable_candles = next_streak a b }, make_candle a b ∷ [])

    -- `process` for a tick of the aggregator's symbol.
    unfoldable pub ingest : ScoredTick F → CandleAggregator F → CandleAggregator F × List (Candle F)
    ingest t a =
        let start = bucket_start t.timestamp_utc a.timeframe_ms in
        let opened : Bucket F = record { start_time_utc = start; first = t; later = [] } in
        elim a.bucket [
          | none ↦ (record a { bucket = some opened }, [])
          | some b ↦
              if start == b.start_time_utc
              then (record a { bucket = some (record b { later = b.later ++ t ∷ [] }) }, [])
              else (
                record ((finalize_current_bucket a b).0) { bucket = some opened },
                (finalize_current_bucket a b).1,
              )
        ]

    unfoldable pub process :
        ScoredTick F → CandleAggregator F → Outcome (CandleAggregator F × List (Candle F))
    process t a =
        if string_eq.beq t.symbol a.symbol then returned (ingest t a) else raised value_error

    unfoldable pub flush : CandleAggregator F → CandleAggregator F × List (Candle F)
    flush a = elim a.bucket [
      | none ↦ (a, [])
      | some b ↦ (
        record ((finalize_current_bucket a b).0) { bucket = none },
        (finalize_current_bucket a b).1,
      )
    ]

    -- Ticks in turn, with the candles that they finalize in order.
    unfoldable pub process_all :
        List (ScoredTick F) → CandleAggregator F → Outcome (CandleAggregator F × List (Candle F))
    process_all [] a = returned (a, [])
    process_all (t ∷ ts) a =
        process t a >>= λ r. process_all ts r.0 >>= λ more. returned (more.0, r.1 ++ more.1)
