-- ===== src/Indicators/Oscillators.antt =====
-- `_rsi_series`, `_bollinger_series`, `_atr_series` and `_adx_series` of
-- services/layer3_strategy/indicators.py as functions that grow at the end; the last two are over candles, from
-- which the code takes their three lists.
use algo_trading_platform.Base.{
  ℕ, suc, ◌+◌, ◌-◌, ◌<◌, ◌≡◌, refl, ap, Bool, Option, none, some, List, [], ◌∷◌, ◌++◌, map, length,
  replicate, arith, length-map,
}
use mathlib.Core.Path.{subst}
use algo_trading_platform.Base.Outcome.{Outcome, returned}
use algo_trading_platform.Float.{Float}
use algo_trading_platform.Candles.{Candle}
use algo_trading_platform.Indicators.{
  warmed, from_period, windows, Bands, Move, atr_series, adx_series, rsi_series, bollinger_series,
  smoothed, true_ranges, moves, move, range_of, deltas, pairs, di_differences, di_difference,
  smoothed_move, sum_moves, compute_rsi, first_averages, next_averages,
}
use algo_trading_platform.Indicators.Online.{
  IsReady, IsSeries, IsOnline, IsLate, IsOnline-compose, map-IsLate, IsLate-compose,
}
use algo_trading_platform.Indicators.Ready.{from_period-IsReady, delayed-IsReady}
use algo_trading_platform.Indicators.Parts.{
  warmed-IsLate, pairs-IsLate, windows-IsLate, from_period-IsOnline, from_period-early, delayed,
  delayed-IsOnline,
}

module _ {F : Type 0} ⦃fl : Float F⦄ where
  open fl use {sub, add, mul}

  -- `closes[index - 1] if index > 0 else None`, with the close before the first candle
  abbrev ranges_from : Option F → List (Candle F) → List F
  ranges_from before [] = []
  ranges_from before (c ∷ cs) = range_of c.high c.low before ∷ ranges_from (some c.close) cs

  ranges_from-next :
      (before : Option F) (cs : List (Candle F)) (c : Candle F)
      → (r : F) × (ranges_from before (cs ++ c ∷ []) ≡ ranges_from before cs ++ r ∷ [])
  ranges_from-next before [] c = (range_of c.high c.low before, refl)
  ranges_from-next before (d ∷ cs) c =
      let (r, e) = ranges_from-next (some d.close) cs c in
      (r, ap (λ rs. range_of d.high d.low before ∷ rs) e)

  ranges_from-IsOnline : IsOnline (ranges_from none)
  ranges_from-IsOnline = record { empty = refl; next = ranges_from-next none }

  true_ranges-returns :
      (before : Option F) (cs : List (Candle F))
      → true_ranges before (map (λ c. c.high) cs) (map (λ c. c.low) cs) (map (λ c. c.close) cs)
        ≡ returned (ranges_from before cs)
  true_ranges-returns before [] = refl
  true_ranges-returns before (c ∷ cs) = rw (true_ranges-returns (some c.close) cs) refl

  move_between : Candle F → Candle F → Move F
  move_between c d = move c.high c.low c.close d.high d.low

  moves-returns :
      (cs : List (Candle F))
      → moves (map (λ c. c.high) cs) (map (λ c. c.low) cs) (map (λ c. c.close) cs)
        ≡ returned (pairs move_between cs)
  unfolding move_between
  moves-returns [] = refl
  moves-returns (c ∷ []) = refl
  moves-returns (c ∷ d ∷ cs) = rw (moves-returns (d ∷ cs)) refl

  module _ (mean : List F → F) (p : ℕ) (some_p : 0 < p) where
    smooth : List F → List (Option F)
    smooth rs = from_period p rs (warmed p mean (smoothed p) rs)

    smooth-early : (rs : List F) → length rs < p → smooth rs ≡ replicate (length rs) none
    unfolding smooth
    smooth-early rs h = from_period-early p rs (warmed p mean (smoothed p) rs) h

    smooth-IsReady : (rs : List F) → IsReady (p - 1) (smooth rs)
    unfolding smooth
    smooth-IsReady rs = from_period-IsReady p rs (warmed p mean (smoothed p) rs) some_p

    smooth-IsOnline : IsOnline smooth
    unfolding smooth
    smooth-IsOnline = from_period-IsOnline p some_p (warmed-IsLate p mean (smoothed p) some_p)

    candle_atr : List (Candle F) → Outcome (List (Option F))
    candle_atr cs =
        atr_series mean (map (λ c. c.high) cs) (map (λ c. c.low) cs) (map (λ c. c.close) cs) p

    candle_atr-returns :
        (cs : List (Candle F)) → candle_atr cs ≡ returned (smooth (ranges_from none cs))
    unfolding candle_atr smooth atr_series
    candle_atr-returns cs = rw (true_ranges-returns none cs) (ground arith)

    pub atr_series-IsSeries : IsSeries {A = Candle F} (p - 1) (λ cs.
        atr_series mean (map (λ c. c.high) cs) (map (λ c. c.low) cs) (map (λ c. c.close) cs) p)
    unfolding candle_atr
    atr_series-IsSeries = record {
      value = λ cs. smooth (ranges_from none cs);
      returns = candle_atr-returns;
      online = IsOnline-compose ranges_from-IsOnline smooth-IsOnline;
      ready = λ cs. smooth-IsReady (ranges_from none cs);
    }

    module _ (sum : List F → F) where
      differences : List (Candle F) → List F
      differences cs = di_differences sum p (pairs move_between cs)

      differences-IsLate : IsLate (suc p) differences
      unfolding differences di_differences
      differences-IsLate =
          let same : 2 + p - 1 ≡ suc p = omega arith in
          subst (λ n. IsLate n differences) same
            (IsLate-compose 2 p (omega arith) some_p (pairs-IsLate move_between) (
              map-IsLate p di_difference
                (warmed-IsLate p (sum_moves sum) (smoothed_move p) some_p)))

      candle_adx : List (Candle F) → Outcome (List (Option F))
      candle_adx cs =
          adx_series mean sum (map (λ c. c.high) cs) (map (λ c. c.low) cs) (map (λ c. c.close) cs) p

      adx_values : List (Candle F) → List (Option F)
      adx_values = delayed (suc p) p differences smooth

      adx_values-IsOnline : IsOnline adx_values
      unfolding adx_values
      adx_values-IsOnline =
          delayed-IsOnline (suc p) p differences smooth (omega arith) differences-IsLate
            smooth-IsOnline absent
        where
          absent : (ys : List F) → p + length ys < suc p → smooth ys ≡ replicate (length ys) none
          absent ys h = smooth-early ys (omega arith)

      adx_values-IsReady : (cs : List (Candle F)) → IsReady (p + (p - 1)) (adx_values cs)
      unfolding adx_values
      adx_values-IsReady cs =
          delayed-IsReady (suc p) p (p - 1) differences smooth cs (omega arith)
            (smooth-IsReady (differences cs))

      candle_adx-returns : (cs : List (Candle F)) → candle_adx cs ≡ returned (adx_values cs)
      unfolding candle_adx adx_values differences smooth adx_series
      candle_adx-returns cs =
          rw (moves-returns cs, length-map (λ (c : Candle F). c.high) cs) (ground arith)

      pub adx_series-IsSeries : IsSeries {A = Candle F} (p + (p - 1)) (λ cs.
          adx_series mean sum
            (map (λ c. c.high) cs)
            (map (λ c. c.low) cs)
            (map (λ c. c.close) cs)
            p)
      unfolding candle_adx
      adx_series-IsSeries = record {
        value = adx_values;
        returns = candle_adx-returns;
        online = adx_values-IsOnline;
        ready = adx_values-IsReady;
      }

    module _ (is_nought : F → Bool) where
      rsi_of_deltas : List F → List (Option F)
      rsi_of_deltas ds =
          from_period p ds
            (map (compute_rsi is_nought) (warmed p (first_averages mean) (next_averages p) ds))

      rsi_of_deltas-early :
          (ds : List F) → 1 + length ds < suc p → rsi_of_deltas ds ≡ replicate (length ds) none
      unfolding rsi_of_deltas
      rsi_of_deltas-early ds h = from_period-early p ds _ (omega arith)

      rsi_of_deltas-IsOnline : IsOnline rsi_of_deltas
      unfolding rsi_of_deltas
      rsi_of_deltas-IsOnline = from_period-IsOnline p some_p (
          map-IsLate p (compute_rsi is_nought)
            (warmed-IsLate p (first_averages mean) (next_averages p) some_p))

      rsi_values : List F → List (Option F)
      rsi_values = delayed (suc p) 1 deltas rsi_of_deltas

      rsi_values-IsOnline : IsOnline rsi_values
      unfolding rsi_values
      rsi_values-IsOnline =
          delayed-IsOnline (suc p) 1 deltas rsi_of_deltas (omega arith)
            (pairs-IsLate (λ x y. sub y x)) rsi_of_deltas-IsOnline rsi_of_deltas-early

      rsi_of_deltas-IsReady : (ds : List F) → IsReady (p - 1) (rsi_of_deltas ds)
      unfolding rsi_of_deltas
      rsi_of_deltas-IsReady ds =
          from_period-IsReady p ds
            (map (compute_rsi is_nought) (warmed p (first_averages mean) (next_averages p) ds))
            some_p

      rsi_values-IsReady : (xs : List F) → IsReady p (rsi_values xs)
      unfolding rsi_values
      rsi_values-IsReady xs =
          let same : 1 + (p - 1) ≡ p = omega arith in
          subst (λ n. IsReady n (delayed (suc p) 1 deltas rsi_of_deltas xs)) same
            (delayed-IsReady (suc p) 1 (p - 1) deltas rsi_of_deltas xs (omega arith)
              (rsi_of_deltas-IsReady (deltas xs)))

      rsi_values-returns : (xs : List F) → rsi_series mean is_nought xs p ≡ returned (rsi_values xs)
      unfolding rsi_series rsi_values rsi_of_deltas
      rsi_values-returns xs = ground arith

      pub rsi_series-IsSeries : IsSeries p (λ xs. rsi_series mean is_nought xs p)
      rsi_series-IsSeries = record {
        value = rsi_values;
        returns = rsi_values-returns;
        online = rsi_values-IsOnline;
        ready = rsi_values-IsReady;
      }

    module _ (pstdev : List F → F) (multiplier : F) where
      abbrev pub band_values : (F → F → F) → List F → List (Option F)
      band_values f xs =
          from_period p xs (map (λ w. f (mean w) (mul multiplier (pstdev w))) (windows p xs))

      pub band_values-IsOnline : (f : F → F → F) → IsOnline (band_values f)
      band_values-IsOnline f =
          from_period-IsOnline p some_p
            (map-IsLate p (λ w. f (mean w) (mul multiplier (pstdev w))) (windows-IsLate p some_p))

      pub band_values-IsReady : (f : F → F → F) (xs : List F) → IsReady (p - 1) (band_values f xs)
      band_values-IsReady f xs =
          from_period-IsReady p xs
            (map (λ w. f (mean w) (mul multiplier (pstdev w))) (windows p xs)) some_p

      abbrev pub bands_values : List F → Bands F
      bands_values xs = record {
        middle = band_values (λ center width. center) xs;
        upper = band_values add xs;
        lower = band_values sub xs;
      }

      pub bollinger_series-returns :
          (xs : List F) → bollinger_series mean pstdev xs p multiplier ≡ returned (bands_values xs)
      unfolding bollinger_series
      bollinger_series-returns xs = ground arith
