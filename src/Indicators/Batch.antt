-- ===== src/Indicators/Batch.antt =====
-- `TimeframeIndicatorState` of services/layer3_strategy/indicators.py candle by candle, and its series over
-- all candles at once.
use algo_trading_platform.Base.{
  ℕ, ◌+◌, ◌-◌, ◌<◌, length, ◌≡◌, refl, sym, ap, ◌∙◌, Bool, Option, List, [], ◌∷◌, ◌++◌, map,
}
use algo_trading_platform.Base.Dict.{string_eq}
use algo_trading_platform.Base.Outcome.{returned, ◌>>=◌}
use algo_trading_platform.Float.{Float}
use algo_trading_platform.Schema.{IndicatorSnapshot}
use algo_trading_platform.Candles.{Candle}
use algo_trading_platform.Indicators.{ema_series, rsi_series}
use algo_trading_platform.Indicators.State.{
  TimeframeIndicatorState, SeriesSet, previous_of, ema_alignment, ema_cross, regime_of, snapshot_of,
  series_of,
}
use algo_trading_platform.Indicators.Rows.{columns, Grows, IsRow, columns-Grows, snapshot_of-Grows}
use algo_trading_platform.Indicators.Online.{
  IsOnline, IsReady, length-IsOnline, IsSeries, IsOnline-compose, map-IsOnline,
}
use algo_trading_platform.Indicators.Series.{
  ema_series-IsSeries, macd_values, macd_values-IsOnline, macd_values-IsReady, macd_series-returns,
}
use algo_trading_platform.Indicators.Oscillators.{
  atr_series-IsSeries, adx_series-IsSeries, rsi_series-IsSeries, band_values-IsOnline,
  band_values-IsReady, bands_values, bollinger_series-returns,
}

module _ {F : Type 0} where
  -- One entry for each candle, of which exactly the first `after` are absent.
  abbrev pub IsWarm : ℕ → List (Candle F) → List (Option F) → Type 0
  IsWarm after cs xs = IsReady after xs × (length xs ≡ length cs)

  -- The periods that the series accept.
  pub record IsRunnable (s : TimeframeIndicatorState F) : Type 0 where
    pub some_rsi : 0 < s.rsi_period
    pub some_fast : 0 < s.macd_fast_period
    pub fast_slow : s.macd_fast_period < s.macd_slow_period
    pub some_signal : 0 < s.macd_signal_period
    pub some_bollinger : 0 < s.bollinger_period
    pub some_ema_fast : 0 < s.ema_fast_period
    pub some_ema_slow : 0 < s.ema_slow_period
    pub some_atr : 0 < s.atr_period
    pub some_adx : 0 < s.adx_period

returned-injective {ℓ} : {A : Type ℓ} {a b : A} → returned a ≡ returned b → a ≡ b
returned-injective {A} {a} {b} e = cc

module _ {F : Type 0} ⦃fl : Float F⦄ (mean pstdev sum : List F → F) (is_nought : F → Bool) where
  open fl use {add, sub}

  module _ (s : TimeframeIndicatorState F) (valid : IsRunnable s) where
    open valid use {
      some_rsi, some_fast, fast_slow, some_signal, some_bollinger, some_ema_fast, some_ema_slow,
      some_atr, some_adx,
    }

    closes : List (Candle F) → List F
    closes cs = map (λ c. c.close) cs

    abbrev rsi_is : IsSeries s.rsi_period (λ xs. rsi_series mean is_nought xs s.rsi_period)
    rsi_is = rsi_series-IsSeries mean s.rsi_period some_rsi is_nought

    abbrev fast_is : IsSeries (s.ema_fast_period - 1) (λ xs. ema_series mean xs s.ema_fast_period)
    fast_is = ema_series-IsSeries mean s.ema_fast_period some_ema_fast

    abbrev slow_is : IsSeries (s.ema_slow_period - 1) (λ xs. ema_series mean xs s.ema_slow_period)
    slow_is = ema_series-IsSeries mean s.ema_slow_period some_ema_slow

    series_values : List (Candle F) → SeriesSet F
    series_values cs = record {
      rsi = rsi_is.value (closes cs);
      macd =
          macd_values mean s.macd_fast_period s.macd_slow_period s.macd_signal_period (closes cs);
      bollinger =
          bands_values mean s.bollinger_period some_bollinger pstdev s.bollinger_std_dev
            (closes cs);
      ema_fast = fast_is.value (closes cs);
      ema_slow = slow_is.value (closes cs);
      atr = (atr_series-IsSeries mean s.atr_period some_atr).value cs;
      adx = (adx_series-IsSeries mean s.adx_period some_adx sum).value cs;
    }

    series_of-values :
        (cs : List (Candle F))
        → series_of mean pstdev sum is_nought s cs ≡ returned (series_values cs)
    unfolding series_of series_values closes
    series_of-values cs =
        rw
          (
            rsi_is.returns (closes cs),
            macd_series-returns mean s.macd_fast_period s.macd_slow_period s.macd_signal_period
                some_fast fast_slow some_signal (closes cs),
            bollinger_series-returns mean s.bollinger_period some_bollinger pstdev
                s.bollinger_std_dev (closes cs),
            fast_is.returns (closes cs),
            slow_is.returns (closes cs),
            (atr_series-IsSeries mean s.atr_period some_atr).returns cs,
            (adx_series-IsSeries mean s.adx_period some_adx sum).returns cs,
          )
          refl

    closes-IsOnline : IsOnline closes
    unfolding closes
    closes-IsOnline = map-IsOnline (λ c. c.close)

    over_closes : {v : List F → List (Option F)} → IsOnline v → IsOnline (λ cs. v (closes cs))
    over_closes o = IsOnline-compose closes-IsOnline o

    series_values-Grows :
        (cs : List (Candle F)) (c : Candle F)
        → (row : IndicatorSnapshot F) × Grows (series_values cs) (series_values (cs ++ c ∷ [])) row
          × IsRow s c (series_values (cs ++ c ∷ [])) row
    unfolding series_values
    series_values-Grows cs c =
        let (macd_line, macd_signal, macd_histogram) =
          macd_values-IsOnline mean s.macd_fast_period s.macd_slow_period s.macd_signal_period
            some_fast fast_slow some_signal in
        let band =
          band_values-IsOnline mean s.bollinger_period some_bollinger pstdev s.bollinger_std_dev in
        let (rsi, e_rsi) = (over_closes rsi_is.online).next cs c in
        let (macd, e_line) = (over_closes macd_line).next cs c in
        let (signal, e_signal) = (over_closes macd_signal).next cs c in
        let (histogram, e_histogram) = (over_closes macd_histogram).next cs c in
        let (middle, e_middle) = (over_closes (band (λ center width. center))).next cs c in
        let (upper, e_upper) = (over_closes (band add)).next cs c in
        let (lower, e_lower) = (over_closes (band sub)).next cs c in
        let (fast, e_fast) = (over_closes fast_is.online).next cs c in
        let (slow, e_slow) = (over_closes slow_is.online).next cs c in
        let (atr, e_atr) = (atr_series-IsSeries mean s.atr_period some_atr).online.next cs c in
        let (adx, e_adx) = (adx_series-IsSeries mean s.adx_period some_adx sum).online.next cs c in
        (
          record {
            symbol = s.symbol;
            timeframe = s.timeframe;
            candle_start_time_utc = c.start_time_utc;
            candle_end_time_utc = c.end_time_utc;
            close = c.close;
            rsi = rsi;
            macd = macd;
            macd_signal = signal;
            macd_histogram = histogram;
            bollinger_middle = middle;
            bollinger_upper = upper;
            bollinger_lower = lower;
            ema_fast = fast;
            ema_slow = slow;
            ema_alignment = ema_alignment fast slow;
            ema_cross =
                ema_cross fast slow (previous_of (fast_is.value (closes (cs ++ c ∷ []))))
                  (previous_of (slow_is.value (closes (cs ++ c ∷ []))));
            atr = atr;
            adx = adx;
            regime = regime_of adx;
            candle_reliable = c.is_reliable;
          },
          record {
            rsi = e_rsi;
            line = e_line;
            signal = e_signal;
            histogram = e_histogram;
            middle = e_middle;
            upper = e_upper;
            lower = e_lower;
            ema_fast = e_fast;
            ema_slow = e_slow;
            atr = e_atr;
            adx = e_adx;
          },
          record { same = refl },
        )

    pub series_of-empty : series_of mean pstdev sum is_nought s [] ≡ returned (columns [])
    unfolding series_values
    series_of-empty =
        let (macd_line, macd_signal, macd_histogram) =
          macd_values-IsOnline mean s.macd_fast_period s.macd_slow_period s.macd_signal_period
            some_fast fast_slow some_signal in
        let band =
          band_values-IsOnline mean s.bollinger_period some_bollinger pstdev s.bollinger_std_dev in
        series_of-values [] ∙ λ i. returned (record {
          rsi = (over_closes rsi_is.online).empty i;
          macd = record {
            line = (over_closes macd_line).empty i;
            signal = (over_closes macd_signal).empty i;
            histogram = (over_closes macd_histogram).empty i;
          };
          bollinger = record {
            middle = (over_closes (band (λ center width. center))).empty i;
            upper = (over_closes (band add)).empty i;
            lower = (over_closes (band sub)).empty i;
          };
          ema_fast = (over_closes fast_is.online).empty i;
          ema_slow = (over_closes slow_is.online).empty i;
          atr = (atr_series-IsSeries mean s.atr_period some_atr).online.empty i;
          adx = (adx_series-IsSeries mean s.adx_period some_adx sum).online.empty i;
        })

    -- One candle more gives one snapshot more, its values at the end of each series.
    pub series_of-next :
        (cs : List (Candle F)) (c : Candle F) (past : List (IndicatorSnapshot F))
        → series_of mean pstdev sum is_nought s cs ≡ returned (columns past)
        → (row : IndicatorSnapshot F) × ((series_of mean pstdev sum is_nought s (cs ++ c ∷ [])
              >>= λ series. snapshot_of s c series)
            ≡ returned row)
          × (series_of mean pstdev sum is_nought s (cs ++ c ∷ [])
              ≡ returned (columns (past ++ row ∷ [])))
          × (row.candle_end_time_utc ≡ c.end_time_utc)
    series_of-next cs c past h =
        let (row, g, r) = series_values-Grows cs c in
        let same : series_values cs ≡ columns past =
          returned-injective (sym (series_of-values cs) ∙ h) in
        (
          row,
          ap (λ o. o >>= λ series. snapshot_of s c series) (series_of-values (cs ++ c ∷ []))
              ∙ snapshot_of-Grows (series_values cs) (series_values (cs ++ c ∷ [])) row g r,
          series_of-values (cs ++ c ∷ []) ∙ ap returned (columns-Grows past row same g),
          ap (λ t. t.candle_end_time_utc) r.same,
        )

    -- The series of any candles, with periods that are positive and a fast MACD period below the slow one, are
    -- returned with one entry for each candle, and exactly the first entries are absent, as many as: the period for the
    -- RSI; the slow period less one for the MACD, and the signal period less one more for its signal and histogram;
    -- the period less one for the Bollinger bands, each EMA and the ATR; twice the period less one for the ADX.
    pub series_of-IsWarm :
        (cs : List (Candle F))
        → (series : SeriesSet F) × (series_of mean pstdev sum is_nought s cs ≡ returned series)
          × IsWarm s.rsi_period cs series.rsi
          × IsWarm (s.macd_slow_period - 1) cs series.macd.line
          × IsWarm (s.macd_slow_period - 1 + (s.macd_signal_period - 1)) cs series.macd.signal
          × IsWarm (s.macd_slow_period - 1 + (s.macd_signal_period - 1)) cs series.macd.histogram
          × IsWarm (s.bollinger_period - 1) cs series.bollinger.middle
          × IsWarm (s.bollinger_period - 1) cs series.bollinger.upper
          × IsWarm (s.bollinger_period - 1) cs series.bollinger.lower
          × IsWarm (s.ema_fast_period - 1) cs series.ema_fast
          × IsWarm (s.ema_slow_period - 1) cs series.ema_slow
          × IsWarm (s.atr_period - 1) cs series.atr
          × IsWarm (s.adx_period + (s.adx_period - 1)) cs series.adx
    unfolding series_values
    series_of-IsWarm cs =
        let (line, signal, histogram) =
          macd_values-IsReady mean s.macd_fast_period s.macd_slow_period s.macd_signal_period
            some_fast fast_slow some_signal (closes cs) in
        let (o_line, o_signal, o_histogram) =
          macd_values-IsOnline mean s.macd_fast_period s.macd_slow_period s.macd_signal_period
            some_fast fast_slow some_signal in
        let band =
          band_values-IsReady mean s.bollinger_period some_bollinger pstdev s.bollinger_std_dev in
        let o_band = λ (f : F → F → F).
          length-IsOnline
            (over_closes (
              band_values-IsOnline mean s.bollinger_period some_bollinger pstdev s.bollinger_std_dev
                f))
            cs in
        let atr = atr_series-IsSeries mean s.atr_period some_atr in
        let adx = adx_series-IsSeries mean s.adx_period some_adx sum in
        (
          series_values cs,
          series_of-values cs,
          (rsi_is.ready (closes cs), length-IsOnline (over_closes rsi_is.online) cs),
          (line, length-IsOnline (over_closes o_line) cs),
          (signal, length-IsOnline (over_closes o_signal) cs),
          (histogram, length-IsOnline (over_closes o_histogram) cs),
          (band (λ center width. center) (closes cs), o_band (λ center width. center)),
          (band add (closes cs), o_band add),
          (band sub (closes cs), o_band sub),
          (fast_is.ready (closes cs), length-IsOnline (over_closes fast_is.online) cs),
          (slow_is.ready (closes cs), length-IsOnline (over_closes slow_is.online) cs),
          (atr.ready cs, length-IsOnline atr.online cs),
          (adx.ready cs, length-IsOnline adx.online cs),
        )
