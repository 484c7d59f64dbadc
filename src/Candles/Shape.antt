-- ===== src/Candles/Shape.antt =====
-- The candles themselves in services/layer3_strategy/candles.py: their intervals and their reliability.
use algo_trading_platform.Base.{
  ℕ, ◌+◌, ◌≤◌, ◌<◌, ◌≡◌, refl, true, false, ◌&&◌, ◌==◌, none, some, is_some, List, [], ◌∷◌, ◌++◌,
  All, All-append, leb, ltb, arith, inl, inr, Bool-cases, Option-cases, sym, ◌∙◌,
}
use mathlib.Core.List.{append_assoc}
use mathlib.Core.Path.{subst}
use algo_trading_platform.Float.{Float}
use algo_trading_platform.Base.Outcome.{returned}
use algo_trading_platform.Candles.{
  ScoredTick, Candle, Bucket, CandleAggregator, bucket_start, reliable, next_streak, make_candle,
  finalize_current_bucket, ingest, flush, process_all,
}
use algo_trading_platform.Candles.Buckets.{bucket_start_step}
use algo_trading_platform.Candles.Stream.{HasSymbol, process_all_lem, ingest_all, ingest-keeps}

module _ {F : Type 0} where
  -- A candle has a tick, spans one interval, is never both reliable and discarded, is reliable exactly
  -- when it ends a streak, and asks for the state DEGRADED exactly when the streak reaches the limit.
  abbrev pub IsWellFormed : ℕ → ℕ → Candle F → Type 0
  IsWellFormed ms limit c =
      (c.end_time_utc ≡ c.start_time_utc + ms)
      × (1 ≤ c.tick_count)
      × (c.discarded ≡ ltb c.tick_count 3)
      × ((c.is_reliable && c.discarded) ≡ false)
      × (c.is_reliable ≡ (c.consecutive_unreliable_candles == 0))
      × (is_some c.system_state_override ≡ leb limit c.consecutive_unreliable_candles)

  -- The candles of a list follow one another from the time `from` on without overlap.
  abbrev pub IsChronological : ℕ → List (Candle F) → Type 0
  IsChronological from [] = Unit
  IsChronological from (c ∷ cs) = (from ≤ c.start_time_utc) × IsChronological c.end_time_utc cs

  -- No tick is older than the one before it.
  abbrev pub IsSorted : ℕ → List (ScoredTick F) → Type 0
  IsSorted now [] = Unit
  IsSorted now (t ∷ ts) = (now ≤ t.timestamp_utc) × IsSorted t.timestamp_utc ts

module _ {F : Type 0} ⦃fl : Float F⦄ (mean sum : List F → F) where
  make_candle-IsWellFormed :
      (a : CandleAggregator F) (b : Bucket F)
      → IsWellFormed a.timeframe_ms a.unreliable_streak_to_degrade (make_candle mean sum a b)
  unfolding make_candle next_streak reliable
  make_candle-IsWellFormed a b = (refl, omega arith, refl, ground arith, ground arith, ground arith)

  ingest-IsWellFormed :
      (t : ScoredTick F) (a : CandleAggregator F)
      → All (IsWellFormed a.timeframe_ms a.unreliable_streak_to_degrade) (ingest mean sum t a).1
  unfolding ingest finalize_current_bucket make_candle reliable next_streak
  ingest-IsWellFormed t a = elim (Option-cases a.bucket) [
    | inl e ↦ rw e tt
    | inr (b, e) ↦
        elim (Bool-cases (bucket_start t.timestamp_utc a.timeframe_ms == b.start_time_utc)) [
          | inl same ↦ rw (e, same) tt
          | inr other ↦ rw (e, other) (make_candle-IsWellFormed a b, tt)
        ]
  ]

  flush-IsWellFormed :
      (a : CandleAggregator F)
      → All (IsWellFormed a.timeframe_ms a.unreliable_streak_to_degrade) (flush mean sum a).1
  unfolding flush finalize_current_bucket make_candle reliable next_streak
  flush-IsWellFormed a = elim (Option-cases a.bucket) [
    | inl e ↦ rw e tt
    | inr (b, e) ↦ rw e (make_candle-IsWellFormed a b, tt)
  ]

  ingest_all-IsWellFormed :
      (ts : List (ScoredTick F)) (a : CandleAggregator F) (ms limit : ℕ)
      → a.timeframe_ms ≡ ms
      → a.unreliable_streak_to_degrade ≡ limit
      → let r = ingest_all mean sum ts a in
        All (IsWellFormed ms limit) (r.1 ++ (flush mean sum r.0).1)
  unfolding ingest_all
  ingest_all-IsWellFormed [] a ms limit e f = rw (sym e, sym f) (flush-IsWellFormed a)
  ingest_all-IsWellFormed (t ∷ ts) a ms limit e f =
      let r = ingest mean sum t a in
      let (_, m, l) = ingest-keeps mean sum t a in
      let here : All (IsWellFormed ms limit) r.1 = rw (sym e, sym f) (ingest-IsWellFormed t a) in
      let later = ingest_all-IsWellFormed ts r.0 ms limit (m ∙ e) (l ∙ f) in
      rw
        (append_assoc r.1 (ingest_all mean sum ts r.0).1
          (flush mean sum (ingest_all mean sum ts r.0).0).1)
        (All-append (IsWellFormed ms limit) r.1 _ here later)

  -- The open bucket is that of the time `now`.
  abbrev IsCurrent : ℕ → CandleAggregator F → Bucket F → Type 0
  IsCurrent now a b = (a.bucket ≡ some b) × (b.start_time_utc ≡ bucket_start now a.timeframe_ms)

  ingest_same :
      (t : ScoredTick F) (a : CandleAggregator F) (b : Bucket F)
      → a.bucket ≡ some b
      → (bucket_start t.timestamp_utc a.timeframe_ms == b.start_time_utc) ≡ true
      → ingest mean sum t a
        ≡ (record a { bucket = some (record b { later = b.later ++ t ∷ [] }) }, [])
  unfolding ingest
  ingest_same t a b e same = rw (e, same) refl

  ingest_next :
      (t : ScoredTick F) (a : CandleAggregator F) (b : Bucket F)
      → a.bucket ≡ some b
      → (bucket_start t.timestamp_utc a.timeframe_ms == b.start_time_utc) ≡ false
      → ingest mean sum t a ≡ (
        record a {
          consecutive_unreliable_candles = next_streak mean sum a b;
          bucket = some (record {
            start_time_utc = bucket_start t.timestamp_utc a.timeframe_ms;
            first = t;
            later = [];
          });
        },
        make_candle mean sum a b ∷ [],
      )
  unfolding ingest finalize_current_bucket
  ingest_next t a b e other = rw (e, other) refl

  ingest_all-IsChronological :
      (ts : List (ScoredTick F)) (a : CandleAggregator F) (b : Bucket F) (from now : ℕ)
      → 0 < a.timeframe_ms
      → IsCurrent now a b
      → IsSorted now ts
      → from ≤ b.start_time_utc
      → let r = ingest_all mean sum ts a in IsChronological from (r.1 ++ (flush mean sum r.0).1)
  unfolding ingest_all flush finalize_current_bucket make_candle
  ingest_all-IsChronological [] a b from now ms (e, s) sorted low = rw e (low, tt)
  ingest_all-IsChronological (t ∷ ts) a b from now ms (e, s) (next, sorted) low =
      let start = bucket_start t.timestamp_utc a.timeframe_ms in
      let apart : (start == b.start_time_utc) ≡ false → b.start_time_utc + a.timeframe_ms ≤ start =
        λ o.
          subst (λ x. x + a.timeframe_ms ≤ start) (sym s)
            (bucket_start_step a.timeframe_ms ms now t.timestamp_utc next
              (subst (λ x. (start == x) ≡ false) s o)) in
      elim (Bool-cases (start == b.start_time_utc)) [
        | inl same ↦ rw (ingest_same t a b e same) (
            ingest_all-IsChronological ts _ _ from t.timestamp_utc ms (refl, ground (arith, same))
              sorted low)
        | inr other ↦ rw (ingest_next t a b e other) (
          low,
          ingest_all-IsChronological ts _ _ (b.start_time_utc + a.timeframe_ms) t.timestamp_utc ms
              (refl, refl) sorted (apart other),
        )
      ]

  ingest_first :
      (t : ScoredTick F) (a : CandleAggregator F)
      → a.bucket ≡ none
      → ingest mean sum t a ≡ (
        record a {
          bucket = some (record {
            start_time_utc = bucket_start t.timestamp_utc a.timeframe_ms;
            first = t;
            later = [];
          });
        },
        [],
      )
  unfolding ingest
  ingest_first t a e = rw e refl

  ingest_all-sorted :
      (ts : List (ScoredTick F)) (a : CandleAggregator F)
      → a.bucket ≡ none
      → 0 < a.timeframe_ms
      → IsSorted 0 ts
      → let r = ingest_all mean sum ts a in IsChronological 0 (r.1 ++ (flush mean sum r.0).1)
  unfolding ingest_all flush
  ingest_all-sorted [] a e ms h = rw e tt
  ingest_all-sorted (t ∷ ts) a e ms (_, sorted) =
      let opened : Bucket F = record {
        start_time_utc = bucket_start t.timestamp_utc a.timeframe_ms;
        first = t;
        later = [];
      } in
      rw (ingest_first t a e) (
        ingest_all-IsChronological ts (record a { bucket = some opened }) opened 0 t.timestamp_utc
          ms (refl, refl) sorted (omega arith))

  -- From an aggregator without an open bucket, ticks of its symbol that come in the order of time give,
  -- with a flush at the end, candles that each span one interval of the timeframe, hold at least one
  -- tick, are never both reliable and discarded, are reliable exactly when the unreliable streak is
  -- zero and ask for DEGRADED exactly from the streak's limit on; and none starts before the last ended.
  pub process_all-IsChronological :
      (ts : List (ScoredTick F)) (a : CandleAggregator F)
      → a.bucket ≡ none
      → 0 < a.timeframe_ms
      → All (HasSymbol a) ts
      → IsSorted 0 ts
      → (a' : CandleAggregator F) × (cs : List (Candle F)) × (process_all mean sum ts a
          ≡ returned (a', cs))
        × All
            (IsWellFormed a.timeframe_ms a.unreliable_streak_to_degrade)
            (cs ++ (flush mean sum a').1)
        × IsChronological 0 (cs ++ (flush mean sum a').1)
  process_all-IsChronological ts a closed ms own sorted =
      let r = ingest_all mean sum ts a in
      (
        r.0,
        r.1,
        process_all_lem mean sum ts a own,
        ingest_all-IsWellFormed ts a a.timeframe_ms a.unreliable_streak_to_degrade refl refl,
        ingest_all-sorted ts a closed ms sorted,
      )
