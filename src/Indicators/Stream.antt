-- ===== src/Indicators/Stream.antt =====
-- `TimeframeIndicatorState.process` of services/layer3_strategy/indicators.py over a stream of candles.
use algo_trading_platform.Base.{
  ◌≡◌, refl, sym, ap, ◌∙◌, Bool, true, false, Option, none, some, List, [], ◌∷◌, ◌++◌, All, map,
  if◌then◌else◌, Bool-cases, inl, inr,
}
use mathlib.Core.List.{append_assoc, append-nil}
use algo_trading_platform.Base.Dict.{string_eq}
use algo_trading_platform.Base.Outcome.{Outcome, returned, raised, value_error, ◌>>=◌}
use algo_trading_platform.Float.{Float}
use algo_trading_platform.Schema.{IndicatorSnapshot}
use algo_trading_platform.Candles.{Candle}
use algo_trading_platform.Indicators.State.{
  TimeframeIndicatorState, snapshot_of, series_of, process, process_kept, with_snapshot,
}
use algo_trading_platform.Indicators.Rows.{columns}
use algo_trading_platform.Indicators.Batch.{IsRunnable, series_of-next, series_of-empty}

module _ {F : Type 0} where
  -- The candles that are not discarded.
  abbrev pub kept_candles : List (Candle F) → List (Candle F)
  kept_candles [] = []
  kept_candles (c ∷ cs) = let rest = kept_candles cs in if c.discarded then rest else c ∷ rest

  kept-in :
      (c : Candle F) (cs : List (Candle F))
      → c.discarded ≡ false
      → kept_candles (c ∷ cs) ≡ c ∷ kept_candles cs
  kept-in c cs d = ap (λ b. if b then kept_candles cs else c ∷ kept_candles cs) d

  -- The candle has the state's symbol and timeframe.
  abbrev pub Matches : TimeframeIndicatorState F → Candle F → Type 0
  Matches s c =
      (string_eq.beq c.symbol s.symbol ≡ true) × (string_eq.beq c.timeframe s.timeframe ≡ true)

  abbrev with_option :
      Option (IndicatorSnapshot F) → List (IndicatorSnapshot F) → List (IndicatorSnapshot F)
  with_option none rest = rest
  with_option (some row) rest = row ∷ rest

  -- The rest of a run after a call that returned or raised.
  abbrev followed :
      TimeframeIndicatorState F
      → Outcome (Option (IndicatorSnapshot F))
      → TimeframeIndicatorState F × Outcome (List (IndicatorSnapshot F))
      → TimeframeIndicatorState F × Outcome (List (IndicatorSnapshot F))
  followed s (raised e) more = (s, raised e)
  followed s (returned row) more = (more.0, more.1 >>= λ rest. returned (with_option row rest))

module _ {F : Type 0} ⦃fl : Float F⦄ (mean pstdev sum : List F → F) (is_nought : F → Bool) where
  -- Candles in turn, with the snapshots that they give in order.
  unfoldable pub process_candles :
      List (Candle F)
      → TimeframeIndicatorState F
      → TimeframeIndicatorState F × Outcome (List (IndicatorSnapshot F))
  process_candles [] s = (s, returned [])
  process_candles (c ∷ cs) s =
      let step = process mean pstdev sum is_nought c s in
      followed step.0 step.1 (process_candles cs step.0)

  process_candles-step :
      (c : Candle F) (cs : List (Candle F)) (s t : TimeframeIndicatorState F)
      (row : Option (IndicatorSnapshot F)) (rows : List (IndicatorSnapshot F))
      → process mean pstdev sum is_nought c s ≡ (t, returned row)
      → (process_candles cs t).1 ≡ returned rows
      → (process_candles (c ∷ cs) s).1 ≡ returned (with_option row rows)
  unfolding process_candles
  process_candles-step c cs s t row rows e h =
      ap (λ r. (followed r.0 r.1 (process_candles cs r.0)).1) e
      ∙ ap (λ o. o >>= λ rest. returned (with_option row rest)) h

  -- The history and the latest snapshot are no parameters of the series.
  with_history :
      TimeframeIndicatorState F
      → List (Candle F)
      → Option (IndicatorSnapshot F)
      → TimeframeIndicatorState F
  with_history s candles snapshot = record s { candles = candles; latest_snapshot = snapshot }

  series_of-with_history :
      (s : TimeframeIndicatorState F) (h : List (Candle F)) (l : Option (IndicatorSnapshot F))
      (cs : List (Candle F))
      → series_of mean pstdev sum is_nought (with_history s h l) cs
        ≡ series_of mean pstdev sum is_nought s cs
  unfolding series_of with_history
  series_of-with_history s h l cs = refl

  with_history-IsRunnable :
      {s : TimeframeIndicatorState F} (h : List (Candle F)) (l : Option (IndicatorSnapshot F))
      → IsRunnable s
      → IsRunnable (with_history s h l)
  unfolding with_history
  with_history-IsRunnable h l v = record {
    some_rsi = v.some_rsi;
    some_fast = v.some_fast;
    fast_slow = v.fast_slow;
    some_signal = v.some_signal;
    some_bollinger = v.some_bollinger;
    some_ema_fast = v.some_ema_fast;
    some_ema_slow = v.some_ema_slow;
    some_atr = v.some_atr;
    some_adx = v.some_adx;
  }

  process-discarded :
      (c : Candle F) (s : TimeframeIndicatorState F)
      → Matches s c
      → c.discarded ≡ true
      → process mean pstdev sum is_nought c s ≡ (s, returned none)
  unfolding process
  process-discarded c s m d = rw (m.0, m.1, d) refl

  -- A candle that is not discarded joins the history and gives the snapshot of the series.
  process-kept :
      (c : Candle F) (s : TimeframeIndicatorState F) (row : IndicatorSnapshot F)
      → Matches s c
      → c.discarded ≡ false
      → let t = with_history s (s.candles ++ c ∷ []) s.latest_snapshot in
        (series_of mean pstdev sum is_nought t t.candles >>= λ series. snapshot_of t c series)
          ≡ returned row
        → process mean pstdev sum is_nought c s
          ≡ (with_history s (s.candles ++ c ∷ []) (some row), returned (some row))
  unfolding process process_kept with_history
  process-kept c s row m d e =
      (λ i.
        if m.0 i
        then if m.1 i
          then if d i then (s, returned none) else process_kept mean pstdev sum is_nought c s
          else (s, raised value_error)
        else (s, raised value_error))
      ∙ ap (with_snapshot (with_history s (s.candles ++ c ∷ []) s.latest_snapshot)) e

  process_candles-columns :
      (cs : List (Candle F)) (s : TimeframeIndicatorState F) (past : List (IndicatorSnapshot F))
      → IsRunnable s
      → All (Matches s) cs
      → series_of mean pstdev sum is_nought s s.candles ≡ returned (columns past)
      → (rows : List (IndicatorSnapshot F)) × ((process_candles cs s).1 ≡ returned rows)
        × (series_of mean pstdev sum is_nought s (s.candles ++ kept_candles cs)
            ≡ returned (columns (past ++ rows)))
        × (map (λ row. row.candle_end_time_utc) rows ≡ map (λ c. c.end_time_utc) (kept_candles cs))
  unfolding process_candles with_history
  process_candles-columns [] s past v m h =
      ([], refl, rw (append-nil s.candles, append-nil past) h, refl)
  process_candles-columns (c ∷ cs) s past v (m, ms) h = elim (Bool-cases c.discarded) [
    | inl d ↦
        let (rows, a, b, e) = process_candles-columns cs s past v ms h in
        (
          rows,
          process_candles-step c cs s s none rows (process-discarded c s m d) a,
          rw d b,
          rw d e,
        )
    | inr d ↦
        let joined = with_history s (s.candles ++ c ∷ []) s.latest_snapshot in
        let (row, p, q, time) =
          series_of-next mean pstdev sum is_nought joined
            (with_history-IsRunnable (s.candles ++ c ∷ []) s.latest_snapshot v) s.candles c past
            (series_of-with_history s (s.candles ++ c ∷ []) s.latest_snapshot s.candles ∙ h) in
        let t = with_history s (s.candles ++ c ∷ []) (some row) in
        let (rows, a, b, e) =
          process_candles-columns cs t (past ++ row ∷ [])
            (with_history-IsRunnable (s.candles ++ c ∷ []) (some row) v) ms
            (series_of-with_history s (s.candles ++ c ∷ []) (some row) (s.candles ++ c ∷ [])
              ∙ sym (
                  series_of-with_history s (s.candles ++ c ∷ []) s.latest_snapshot
                    (s.candles ++ c ∷ []))
              ∙ q) in
        (
          row ∷ rows,
          process_candles-step c cs s t (some row) rows (process-kept c s row m d p) a,
          ap (series_of mean pstdev sum is_nought s) (
                ap (λ r. s.candles ++ r) (kept-in c cs d)
                ∙ sym (append_assoc s.candles (c ∷ []) (kept_candles cs)))
              ∙ sym (
                  series_of-with_history s (s.candles ++ c ∷ []) (some row)
                    ((s.candles ++ c ∷ []) ++ kept_candles cs))
              ∙ b
              ∙ ap (λ r. returned (columns r)) (append_assoc past (row ∷ []) rows),
          (λ i. time i ∷ e i) ∙ ap (map (λ c. c.end_time_utc)) (sym (kept-in c cs d)),
        )
  ]

  -- Candles of its symbol and timeframe that a state without history processes one by one, with periods that
  -- are positive and a fast MACD period below the slow one, all return; the snapshots are one for each candle that is
  -- not discarded, in order, and field by field they are the series computed at once of all those candles: no
  -- value changes when later candles arrive.
  pub process_candles-IsBatch :
      (cs : List (Candle F)) (s : TimeframeIndicatorState F)
      → IsRunnable s
      → s.candles ≡ []
      → All (Matches s) cs
      → (rows : List (IndicatorSnapshot F)) × ((process_candles cs s).1 ≡ returned rows)
        × (series_of mean pstdev sum is_nought s (kept_candles cs) ≡ returned (columns rows))
        × (map (λ row. row.candle_end_time_utc) rows ≡ map (λ c. c.end_time_utc) (kept_candles cs))
  process_candles-IsBatch cs s v start ms =
      let (rows, a, b, e) = process_candles-columns cs s [] v ms (
        ap (series_of mean pstdev sum is_nought s) start
        ∙ series_of-empty mean pstdev sum is_nought s v) in
      (
        rows,
        a,
        ap (λ h. series_of mean pstdev sum is_nought s (h ++ kept_candles cs)) (sym start) ∙ b,
        e,
      )
