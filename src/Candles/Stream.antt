-- ===== src/Candles/Stream.antt =====
-- Candles that a stream of ticks gives in services/layer3_strategy/candles.py.
use algo_trading_platform.Base.{
  ℕ, suc, ◌+◌, ◌≡◌, refl, true, none, some, List, [], ◌∷◌, ◌++◌, length, length-append, All, arith,
  inl, inr, Option-cases,
}
use algo_trading_platform.Base.Dict.{string_eq}
use algo_trading_platform.Base.Outcome.{returned}
use algo_trading_platform.Float.{Float}
use algo_trading_platform.Candles.{
  ScoredTick, Candle, CandleAggregator, make_candle, finalize_current_bucket, ingest, process,
  flush, process_all,
}

module _ {F : Type 0} where
  -- The ticks of the open bucket, and those of a list of candles.
  abbrev pub pending : CandleAggregator F → ℕ
  pending a = elim a.bucket [ none ↦ 0 | some b ↦ suc (length b.later) ]

  abbrev pub counted : List (Candle F) → ℕ
  counted [] = 0
  counted (c ∷ cs) = c.tick_count + counted cs

abbrev pub HasSymbol : {F : Type 0} → CandleAggregator F → ScoredTick F → Type 0
HasSymbol a t = string_eq.beq t.symbol a.symbol ≡ true

module _ {F : Type 0} ⦃fl : Float F⦄ (mean sum : List F → F) where
  -- The aggregator and the candles after ticks of its symbol.
  unfoldable pub ingest_all :
      List (ScoredTick F) → CandleAggregator F → CandleAggregator F × List (Candle F)
  ingest_all [] a = (a, [])
  ingest_all (t ∷ ts) a =
      let r = ingest mean sum t a in let more = ingest_all ts r.0 in (more.0, r.1 ++ more.1)

  pub ingest-keeps :
      (t : ScoredTick F) (a : CandleAggregator F)
      → let a' = (ingest mean sum t a).0 in
        (a'.symbol ≡ a.symbol)
        × (a'.timeframe_ms ≡ a.timeframe_ms)
        × (a'.unreliable_streak_to_degrade ≡ a.unreliable_streak_to_degrade)
  unfolding ingest finalize_current_bucket
  ingest-keeps t a = ground arith

  HasSymbol-All :
      (ts : List (ScoredTick F)) (a b : CandleAggregator F)
      → a.symbol ≡ b.symbol
      → All (HasSymbol b) ts
      → All (HasSymbol a) ts
  HasSymbol-All [] a b e h = h
  HasSymbol-All (t ∷ ts) a b e (h, hs) = (rw e h, HasSymbol-All ts a b e hs)

  pub process_all_lem :
      (ts : List (ScoredTick F)) (a : CandleAggregator F)
      → All (HasSymbol a) ts
      → process_all mean sum ts a ≡ returned (ingest_all ts a)
  unfolding process_all process ingest_all
  process_all_lem [] a h = refl
  process_all_lem (t ∷ ts) a (h, hs) =
      let r = ingest mean sum t a in
      rw (h, process_all_lem ts r.0 (HasSymbol-All ts r.0 a ((ingest-keeps t a).0) hs)) refl

  counted-append : (cs ds : List (Candle F)) → counted (cs ++ ds) ≡ counted cs + counted ds
  counted-append [] ds = omega arith
  counted-append (c ∷ cs) ds = omega (arith, counted-append cs ds)

  ingest-counted :
      (t : ScoredTick F) (a : CandleAggregator F)
      → let (a', cs) = ingest mean sum t a in counted cs + pending a' ≡ pending a + 1
  unfolding ingest finalize_current_bucket make_candle
  ingest-counted t a = elim (Option-cases a.bucket) [
    | inl e ↦ ground arith
    | inr (b, e) ↦ ground (arith, length-append b.later (t ∷ []))
  ]

  ingest_all-counted :
      (ts : List (ScoredTick F)) (a : CandleAggregator F)
      → let (a', cs) = ingest_all ts a in counted cs + pending a' ≡ pending a + length ts
  unfolding ingest_all
  ingest_all-counted [] a = omega arith
  ingest_all-counted (t ∷ ts) a =
      let r = ingest mean sum t a in
      omega (
        arith,
        ingest-counted t a,
        ingest_all-counted ts r.0,
        counted-append r.1 (ingest_all ts r.0).1,
      )

  flush-counted : (a : CandleAggregator F) → counted (flush mean sum a).1 ≡ pending a
  unfolding flush finalize_current_bucket make_candle
  flush-counted a = ground arith

  -- Ticks of the aggregator's symbol are all accepted, and none is lost or counted twice: the candles
  -- finalized by them, and by a flush after them, count the ticks of the open bucket and all of these.
  process_all-counted :
      (ts : List (ScoredTick F)) (a : CandleAggregator F)
      → All (HasSymbol a) ts
      → (a' : CandleAggregator F) × (cs : List (Candle F)) × (process_all mean sum ts a
          ≡ returned (a', cs))
        × (counted (cs ++ (flush mean sum a').1) ≡ pending a + length ts)
  process_all-counted ts a h =
      let r = ingest_all ts a in
      (
        r.0,
        r.1,
        process_all_lem ts a h,
        omega (
          arith,
          counted-append r.1 (flush mean sum r.0).1,
          flush-counted r.0,
          ingest_all-counted ts a,
        ),
      )
