-- ===== src/Indicators/Rows.antt =====
-- Snapshots as the rows of the series of services/layer3_strategy/indicators.py: the lists of a set of series
-- by field, and a set that grows by one value each.
use algo_trading_platform.Base.{
  ◌≡◌, refl, sym, ap, ◌∙◌, Option, none, some, List, [], ◌∷◌, ◌++◌, map, get_last?,
}
use mathlib.Core.List.{map-append}
use algo_trading_platform.Base.Outcome.{returned, raised, index_error}
use algo_trading_platform.Float.{Float}
use algo_trading_platform.Schema.{IndicatorSnapshot}
use algo_trading_platform.Candles.{Candle}
use algo_trading_platform.Indicators.State.{
  TimeframeIndicatorState, SeriesSet, latest_of, previous_of, ema_alignment, ema_cross, regime_of,
  snapshot_of,
}

get_last?-snoc {ℓ} : {A : Type ℓ} (xs : List A) (x : A) → get_last? (xs ++ x ∷ []) ≡ some x
get_last?-snoc [] x = refl
get_last?-snoc (y ∷ []) x = refl
get_last?-snoc (y ∷ z ∷ ys) x = get_last?-snoc (z ∷ ys) x

latest_of-snoc {ℓ} :
    {A : Type ℓ} {xs : List (Option A)} (ys : List (Option A)) (x : Option A)
    → xs ≡ ys ++ x ∷ []
    → latest_of xs ≡ returned x
latest_of-snoc {A} ys x e =
    ap latest_of e
    ∙ ap (λ o. elim o [ none ↦ raised index_error | some v ↦ returned v ]) (get_last?-snoc ys x)

column :
    {A B : Type 0} (f : A → B) {before after : List B} (past : List A) (x : A)
    → before ≡ map f past
    → after ≡ before ++ f x ∷ []
    → after ≡ map f (past ++ x ∷ [])
column f past x h e = e ∙ ap (λ r. r ++ f x ∷ []) h ∙ sym (map-append f past (x ∷ []))

module _ {F : Type 0} where
  -- The values of the snapshots, by field.
  abbrev pub columns : List (IndicatorSnapshot F) → SeriesSet F
  columns snapshots = record {
    rsi = map (λ s. s.rsi) snapshots;
    macd = record {
      line = map (λ s. s.macd) snapshots;
      signal = map (λ s. s.macd_signal) snapshots;
      histogram = map (λ s. s.macd_histogram) snapshots;
    };
    bollinger = record {
      middle = map (λ s. s.bollinger_middle) snapshots;
      upper = map (λ s. s.bollinger_upper) snapshots;
      lower = map (λ s. s.bollinger_lower) snapshots;
    };
    ema_fast = map (λ s. s.ema_fast) snapshots;
    ema_slow = map (λ s. s.ema_slow) snapshots;
    atr = map (λ s. s.atr) snapshots;
    adx = map (λ s. s.adx) snapshots;
  }

  -- One value more in each list, those of the snapshot.
  pub record Grows (before after : SeriesSet F) (row : IndicatorSnapshot F) : Type 0 where
    pub rsi : after.rsi ≡ before.rsi ++ row.rsi ∷ []
    pub line : after.macd.line ≡ before.macd.line ++ row.macd ∷ []
    pub signal : after.macd.signal ≡ before.macd.signal ++ row.macd_signal ∷ []
    pub histogram : after.macd.histogram ≡ before.macd.histogram ++ row.macd_histogram ∷ []
    pub middle : after.bollinger.middle ≡ before.bollinger.middle ++ row.bollinger_middle ∷ []
    pub upper : after.bollinger.upper ≡ before.bollinger.upper ++ row.bollinger_upper ∷ []
    pub lower : after.bollinger.lower ≡ before.bollinger.lower ++ row.bollinger_lower ∷ []
    pub ema_fast : after.ema_fast ≡ before.ema_fast ++ row.ema_fast ∷ []
    pub ema_slow : after.ema_slow ≡ before.ema_slow ++ row.ema_slow ∷ []
    pub atr : after.atr ≡ before.atr ++ row.atr ∷ []
    pub adx : after.adx ≡ before.adx ++ row.adx ∷ []

  pub columns-Grows :
      {before after : SeriesSet F} (past : List (IndicatorSnapshot F)) (row : IndicatorSnapshot F)
      → before ≡ columns past
      → Grows before after row
      → after ≡ columns (past ++ row ∷ [])
  columns-Grows past row h g = λ i. record {
    rsi = column (λ s. s.rsi) past row (ap (λ t. t.rsi) h) g.rsi i;
    macd = record {
      line = column (λ s. s.macd) past row (ap (λ t. t.macd.line) h) g.line i;
      signal = column (λ s. s.macd_signal) past row (ap (λ t. t.macd.signal) h) g.signal i;
      histogram =
          column (λ s. s.macd_histogram) past row (ap (λ t. t.macd.histogram) h) g.histogram i;
    };
    bollinger = record {
      middle =
          column (λ s. s.bollinger_middle) past row (ap (λ t. t.bollinger.middle) h) g.middle i;
      upper = column (λ s. s.bollinger_upper) past row (ap (λ t. t.bollinger.upper) h) g.upper i;
      lower = column (λ s. s.bollinger_lower) past row (ap (λ t. t.bollinger.lower) h) g.lower i;
    };
    ema_fast = column (λ s. s.ema_fast) past row (ap (λ t. t.ema_fast) h) g.ema_fast i;
    ema_slow = column (λ s. s.ema_slow) past row (ap (λ t. t.ema_slow) h) g.ema_slow i;
    atr = column (λ s. s.atr) past row (ap (λ t. t.atr) h) g.atr i;
    adx = column (λ s. s.adx) past row (ap (λ t. t.adx) h) g.adx i;
  }

module _ {F : Type 0} ⦃fl : Float F⦄ where
  -- What `process` derives from the values and the averages before.
  pub record IsRow (s : TimeframeIndicatorState F) (c : Candle F) (after : SeriesSet F)
      (row : IndicatorSnapshot F) : Type 0 where
    pub same : row ≡ record row {
      symbol = s.symbol;
      timeframe = s.timeframe;
      candle_start_time_utc = c.start_time_utc;
      candle_end_time_utc = c.end_time_utc;
      close = c.close;
      ema_alignment = ema_alignment row.ema_fast row.ema_slow;
      ema_cross =
          ema_cross row.ema_fast row.ema_slow
            (previous_of after.ema_fast)
            (previous_of after.ema_slow);
      regime = regime_of row.adx;
      candle_reliable = c.is_reliable;
    }

  pub snapshot_of-Grows :
      {s : TimeframeIndicatorState F} {c : Candle F} (before after : SeriesSet F)
      (row : IndicatorSnapshot F)
      → Grows before after row
      → IsRow s c after row
      → snapshot_of s c after ≡ returned row
  unfolding snapshot_of
  snapshot_of-Grows {s} {c} before after row g r =
      rw
        (
          latest_of-snoc before.ema_fast row.ema_fast g.ema_fast,
          latest_of-snoc before.ema_slow row.ema_slow g.ema_slow,
          latest_of-snoc before.adx row.adx g.adx,
          latest_of-snoc before.rsi row.rsi g.rsi,
          latest_of-snoc before.macd.line row.macd g.line,
          latest_of-snoc before.macd.signal row.macd_signal g.signal,
          latest_of-snoc before.macd.histogram row.macd_histogram g.histogram,
          latest_of-snoc before.bollinger.middle row.bollinger_middle g.middle,
          latest_of-snoc before.bollinger.upper row.bollinger_upper g.upper,
          latest_of-snoc before.bollinger.lower row.bollinger_lower g.lower,
          latest_of-snoc before.atr row.atr g.atr,
        )
        (ap returned (sym r.same))
