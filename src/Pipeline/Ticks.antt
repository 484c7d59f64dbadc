-- ===== src/Pipeline/Ticks.antt =====
-- The front of Layer 3: scored ticks through `CandleAggregator` of services/layer3_strategy/candles.py and its
-- candles through `TimeframeIndicatorState` of services/layer3_strategy/indicators.py.
use algo_trading_platform.Base.{
  ◌≡◌, refl, ◌∙◌, List, [], ◌∷◌, All, All-append, map, inl, inr, Option-cases, if_intro, Bool, ◌==◌,
}
use algo_trading_platform.Base.Dict.{string_eq}
use algo_trading_platform.Base.Outcome.{returned}
use algo_trading_platform.Float.{Float}
use algo_trading_platform.Schema.{IndicatorSnapshot}
use algo_trading_platform.Candles.{
  ScoredTick, Candle, CandleAggregator, ingest, finalize_current_bucket, make_candle, process_all,
  bucket_start,
}
use algo_trading_platform.Candles.Stream.{HasSymbol, ingest_all, ingest-keeps, process_all_lem}
use algo_trading_platform.Indicators.State.{TimeframeIndicatorState, series_of}
use algo_trading_platform.Indicators.Rows.{columns}
use algo_trading_platform.Indicators.Batch.{IsRunnable}
use algo_trading_platform.Indicators.Stream.{
  kept_candles, Matches, process_candles, process_candles-IsBatch,
}

module _ {F : Type 0} where
  -- The candle has the symbol and the timeframe of the state.
  abbrev IsFor : TimeframeIndicatorState F → Candle F → Type 0
  IsFor s c = (c.symbol ≡ s.symbol) × (c.timeframe ≡ s.timeframe)

  Matches-All :
      (s : TimeframeIndicatorState F) (cs : List (Candle F)) → All (IsFor s) cs → All (Matches s) cs
  Matches-All s [] h = tt
  Matches-All s (c ∷ cs) ((p, q), h) = (
    ((string_eq.beq_iff c.symbol s.symbol).1 p, (string_eq.beq_iff c.timeframe s.timeframe).1 q),
    Matches-All s cs h,
  )

module _ {F : Type 0} ⦃fl : Float F⦄ (mean pstdev sum : List F → F) (is_nought : F → Bool) where
  ingest-IsFor :
      (t : ScoredTick F) (a : CandleAggregator F) (s : TimeframeIndicatorState F)
      → a.symbol ≡ s.symbol
      → a.timeframe ≡ s.timeframe
      → All (IsFor s) (ingest mean sum t a).1 × ((ingest mean sum t a).0.timeframe ≡ a.timeframe)
  unfolding ingest finalize_current_bucket make_candle
  ingest-IsFor t a s p q = elim (Option-cases a.bucket) [
    | inl e ↦ rw e (tt, refl)
    | inr (b, e) ↦ rw e (
        if_intro
          (λ (r : CandleAggregator F × List (Candle F)).
            All (IsFor s) r.1 × (r.0.timeframe ≡ a.timeframe))
          (bucket_start t.timestamp_utc a.timeframe_ms == b.start_time_utc) (λ _. (tt, refl))
          (λ _. (((p, q), tt), refl)))
  ]

  ingest_all-IsFor :
      (ts : List (ScoredTick F)) (a : CandleAggregator F) (s : TimeframeIndicatorState F)
      → a.symbol ≡ s.symbol
      → a.timeframe ≡ s.timeframe
      → All (IsFor s) (ingest_all mean sum ts a).1
  unfolding ingest_all
  ingest_all-IsFor [] a s p q = tt
  ingest_all-IsFor (t ∷ ts) a s p q =
      let r = ingest mean sum t a in
      let (here, frame) = ingest-IsFor t a s p q in
      All-append (IsFor s) r.1 (ingest_all mean sum ts r.0).1 here
        (ingest_all-IsFor ts r.0 s ((ingest-keeps mean sum t a).0 ∙ p) (frame ∙ q))

  -- Ticks of the symbol of an aggregator give candles that an indicator state of the same symbol and
  -- timeframe, without history and with valid periods, accepts: neither call raises, and each candle that
  -- is not discarded gives one snapshot, in order, whose values are those of the series of all these candles.
  pub ticks_to_snapshots :
      (ts : List (ScoredTick F)) (a : CandleAggregator F) (s : TimeframeIndicatorState F)
      → All (HasSymbol a) ts
      → a.symbol ≡ s.symbol
      → a.timeframe ≡ s.timeframe
      → IsRunnable s
      → s.candles ≡ []
      → (b : CandleAggregator F) × (cs : List (Candle F)) × (rows : List (IndicatorSnapshot F))
        × (process_all mean sum ts a ≡ returned (b, cs))
        × ((process_candles mean pstdev sum is_nought cs s).1 ≡ returned rows)
        × (series_of mean pstdev sum is_nought s (kept_candles cs) ≡ returned (columns rows))
        × (map (λ row. row.candle_end_time_utc) rows ≡ map (λ c. c.end_time_utc) (kept_candles cs))
  ticks_to_snapshots ts a s known p q v start =
      let (b, cs) = ingest_all mean sum ts a in
      let (rows, x, y, z) =
        process_candles-IsBatch mean pstdev sum is_nought cs s v start
          (Matches-All s cs (ingest_all-IsFor ts a s p q)) in
      (b, cs, rows, process_all_lem mean sum ts a known, x, y, z)
