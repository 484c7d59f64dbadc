-- ===== src/Indicators/Series.antt =====
-- `_ema_series` and `_macd_series` of services/layer3_strategy/indicators.py as functions that grow at the end.
use algo_trading_platform.Base.{
  ℕ, ◌+◌, ◌-◌, ◌<◌, ◌≡◌, refl, sym, ap, ◌∙◌, Option, none, List, length, ltb, replicate, arith,
  if_intro,
}
use mathlib.Core.Path.{ap₂}
use algo_trading_platform.Base.Outcome.{returned}
use algo_trading_platform.Float.{Float}
use algo_trading_platform.Indicators.{
  warmed, from_period, compact, spread, Macd, ema_step, ema_series, with_signal, macd_series,
}
use algo_trading_platform.Indicators.Online.{
  IsReady, IsSeries, IsOnline, length-IsOnline, IsOnline-compose,
}
use algo_trading_platform.Indicators.Parts.{warmed-IsLate, from_period-IsOnline, from_period-early}
use algo_trading_platform.Indicators.Ready.{from_period-IsReady, subtracted-IsReady, spread-IsReady}
use algo_trading_platform.Indicators.Divergence.{
  subtracted, spread-absent, spread-IsOnline, subtracted-IsOnline, macd_line-subtracted,
  histogram_of-subtracted, subtracted-absent,
}

module _ {F : Type 0} ⦃fl : Float F⦄ (mean : List F → F) where
  open fl use {sub}

  abbrev pub ema_values : ℕ → List F → List (Option F)
  ema_values p xs = from_period p xs (warmed p mean (ema_step p) xs)

  ema_values-IsOnline : (p : ℕ) → 0 < p → IsOnline (ema_values p)
  ema_values-IsOnline p some_p =
      from_period-IsOnline p some_p (warmed-IsLate p mean (ema_step p) some_p)

  ema_values-IsReady : (p : ℕ) → 0 < p → (xs : List F) → IsReady (p - 1) (ema_values p xs)
  ema_values-IsReady p some_p xs = from_period-IsReady p xs (warmed p mean (ema_step p) xs) some_p

  ema_series-returns :
      (p : ℕ) → 0 < p → (xs : List F) → ema_series mean xs p ≡ returned (ema_values p xs)
  unfolding ema_series
  ema_series-returns p some_p xs = ground arith

  pub ema_series-IsSeries : (p : ℕ) → 0 < p → IsSeries (p - 1) (λ xs. ema_series mean xs p)
  ema_series-IsSeries p some_p = record {
    value = ema_values p;
    returns = ema_series-returns p some_p;
    online = ema_values-IsOnline p some_p;
    ready = ema_values-IsReady p some_p;
  }

  module _ (fast slow signal : ℕ) where
    abbrev pub line_values : List F → List (Option F)
    line_values xs = subtracted (ema_values fast xs) (ema_values slow xs)

    abbrev pub signal_values : List F → List (Option F)
    signal_values xs = spread (line_values xs) (ema_values signal (compact (line_values xs)))

    abbrev pub macd_values : List F → Macd F
    macd_values xs = record {
      line = line_values xs;
      signal = signal_values xs;
      histogram = subtracted (line_values xs) (signal_values xs);
    }

    module _ (some_fast : 0 < fast) (fast_slow : fast < slow) (some_signal : 0 < signal) where
      line_values-IsOnline : IsOnline line_values
      line_values-IsOnline =
          subtracted-IsOnline (ema_values-IsOnline fast some_fast)
            (ema_values-IsOnline slow (omega arith))

      signal_values-IsOnline : IsOnline signal_values
      signal_values-IsOnline =
          IsOnline-compose line_values-IsOnline
            (spread-IsOnline (ema_values-IsOnline signal some_signal))

      line_values-IsReady : (xs : List F) → IsReady (slow - 1) (line_values xs)
      line_values-IsReady xs =
          subtracted-IsReady (fast - 1) (slow - 1) (ema_values fast xs) (ema_values slow xs)
            (omega arith) (ema_values-IsReady fast some_fast xs)
            (ema_values-IsReady slow (omega arith) xs)

      signal_values-IsReady : (xs : List F) → IsReady (slow - 1 + (signal - 1)) (signal_values xs)
      signal_values-IsReady xs =
          spread-IsReady (slow - 1) (signal - 1) (line_values xs)
            (ema_values signal (compact (line_values xs))) (line_values-IsReady xs)
            (ema_values-IsReady signal some_signal (compact (line_values xs)))
            (length-IsOnline (ema_values-IsOnline signal some_signal) (compact (line_values xs)))

      pub macd_values-IsReady :
          (xs : List F)
          → IsReady (slow - 1) (macd_values xs).line
            × IsReady (slow - 1 + (signal - 1)) (macd_values xs).signal
            × IsReady (slow - 1 + (signal - 1)) (macd_values xs).histogram
      macd_values-IsReady xs = (
        line_values-IsReady xs,
        signal_values-IsReady xs,
        subtracted-IsReady (slow - 1) (slow - 1 + (signal - 1)) (line_values xs) (signal_values xs)
            (omega arith) (line_values-IsReady xs) (signal_values-IsReady xs),
      )

      pub macd_values-IsOnline :
          IsOnline (λ xs. (macd_values xs).line)
          × IsOnline (λ xs. (macd_values xs).signal)
          × IsOnline (λ xs. (macd_values xs).histogram)
      macd_values-IsOnline = (
        line_values-IsOnline,
        signal_values-IsOnline,
        subtracted-IsOnline line_values-IsOnline signal_values-IsOnline,
      )

      with_signal-returns :
          (line : List (Option F))
          → let signals = spread line (ema_values signal (compact line)) in
            with_signal mean (length line) line signal
            ≡ returned
                (record { line = line; signal = signals; histogram = subtracted line signals })
      unfolding with_signal
      with_signal-returns line =
          let signals = spread line (ema_values signal (compact line)) in
          if_intro
            (λ o.
              o
              ≡ returned
                  (record { line = line; signal = signals; histogram = subtracted line signals }))
            (ltb (length (compact line)) signal)
            (λ h.
              let absent : signals ≡ replicate (length line) none =
                ap (spread line) (from_period-early signal (compact line) _ (ground arith))
                ∙ spread-absent line in
              ap₂ (λ s g. returned (record { line = line; signal = s; histogram = g })) (sym absent)
                (sym (ap (subtracted line) absent ∙ subtracted-absent line)))
            (λ h.
              rw
                (
                  ema_series-returns signal some_signal (compact line),
                  histogram_of-subtracted line signals,
                )
                refl)

      pub macd_series-returns :
          (xs : List F) → macd_series mean xs fast slow signal ≡ returned (macd_values xs)
      unfolding macd_series
      macd_series-returns xs =
          let same : length (ema_values fast xs) ≡ length (ema_values slow xs) =
            length-IsOnline (ema_values-IsOnline fast some_fast) xs
            ∙ sym (length-IsOnline (ema_values-IsOnline slow (omega arith)) xs) in
          let size : length xs ≡ length (line_values xs) =
            sym (length-IsOnline line_values-IsOnline xs) in
          rw
            (
              ema_series-returns fast some_fast xs,
              ema_series-returns slow (omega arith) xs,
              macd_line-subtracted (ema_values fast xs) (ema_values slow xs) same,
            )
            (ground (
              arith,
              ap (λ n. with_signal mean n (line_values xs) signal) size
                  ∙ with_signal-returns (line_values xs),
            ))
