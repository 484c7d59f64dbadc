-- ===== src/Indicators.antt =====
-- services/layer3_strategy/indicators.py: the series of indicator values over a list of prices or candles.
-- A list of floats and `None` that is filled by index is built from its front. The functions `mean` and
-- `pstdev` of the statistics library and `isclose` of the mathematics library are parameters, and a period is
-- a natural number. A negated float is nought less it, which differs in the sign of zero only.
pub mod State
pub mod Online
pub mod Parts
pub mod Divergence
pub mod Series
pub mod Oscillators
pub mod Rows
pub mod Batch
pub mod Stream
pub mod Ready
pub mod Tests
use algo_trading_platform.Base.{
  ℕ, ◌+◌, ◌-◌, Bool, ◌||◌, Option, none, some, List, [], ◌∷◌, ◌++◌, map, length, take, drop,
  replicate, ltb, leb, ◌==◌, if◌then◌else◌,
}
use algo_trading_platform.Base.Outcome.{Outcome, returned, raised, value_error, index_error, ◌>>=◌}
use algo_trading_platform.Float.{Float, nought, one, maximum}

-- What a warmed recurrence gives: `seed` of the first `period` inputs, then one value for each input more;
-- nothing before `period` inputs.
abbrev pub scan {ℓ κ} : {A : Type ℓ} {S : Type κ} → (S → A → S) → S → List A → List S
scan step s [] = s ∷ []
scan step s (x ∷ xs) = s ∷ scan step (step s x) xs

unfoldable pub warmed {ℓ κ} :
    {A : Type ℓ} {S : Type κ} → ℕ → (List A → S) → (S → A → S) → List A → List S
warmed period seed step xs =
    if ltb (length xs) period then [] else scan step (seed (take period xs)) (drop period xs)

-- `[None] * len(xs)` with the values `ys` written from index `period - 1`
unfoldable pub from_period {ℓ κ} : {A : Type ℓ} {B : Type κ} → ℕ → List A → List B → List (Option B)
from_period period xs ys =
    if ltb (length xs) period
    then replicate (length xs) none
    else replicate (period - 1) none ++ map some ys

-- The slices of `period` prices, the first at the front.
abbrev pub windows {ℓ} : {A : Type ℓ} → ℕ → List A → List (List A)
windows period [] = []
windows period (x ∷ xs) =
    let rest = windows period xs in
    if ltb (length (x ∷ xs)) period then [] else take period (x ∷ xs) ∷ rest

-- `f` of each entry and the next.
abbrev pub pairs {ℓ κ} : {A : Type ℓ} {B : Type κ} → (A → A → B) → List A → List B
pairs f [] = []
pairs f (x ∷ []) = []
pairs f (x ∷ y ∷ ys) = f x y ∷ pairs f (y ∷ ys)

-- The two differences of a candle from the one before, with its true range.
pub record Move (F : Type 0) : Type 0 where
  pub plus_dm : F
  pub minus_dm : F
  pub true_range : F

-- `average_gain` and `average_loss`
pub record Averages (F : Type 0) : Type 0 where
  pub gain : F
  pub loss : F

pub record Bands (F : Type 0) : Type 0 where
  pub middle : List (Option F)
  pub upper : List (Option F)
  pub lower : List (Option F)

pub record Macd (F : Type 0) : Type 0 where
  pub line : List (Option F)
  pub signal : List (Option F)
  pub histogram : List (Option F)

-- The values that are not `None`, in order.
abbrev pub compact {ℓ} : {A : Type ℓ} → List (Option A) → List A
compact [] = []
compact (none ∷ xs) = compact xs
compact (some x ∷ xs) = x ∷ compact xs

-- The compact series `ys` at the indexes where `xs` has a value.
abbrev pub spread {ℓ} : {A : Type ℓ} → List (Option A) → List (Option A) → List (Option A)
spread [] ys = []
spread (none ∷ xs) ys = none ∷ spread xs ys
spread (some x ∷ xs) [] = none ∷ spread xs []
spread (some x ∷ xs) (y ∷ ys) = y ∷ spread xs ys

module _ {F : Type 0} ⦃fl : Float F⦄ where
  open fl use {decimal, add, sub, mul, div, abs, lt}

  -- `((average * (period - 1)) + value) / period`
  abbrev pub smoothed : ℕ → F → F → F
  smoothed period average value =
      div (add (mul average (decimal (period - 1) 0)) value) (decimal period 0)

  abbrev pub ema_step : ℕ → F → F → F
  ema_step period ema_value value =
      let smoothing : F = div (decimal 20 1) (add (decimal period 0) one) in
      add (mul (sub value ema_value) smoothing) ema_value

  -- `_true_range`
  abbrev pub range_of : F → F → Option F → F
  range_of high low none = sub high low
  range_of high low (some previous_close) =
      maximum (maximum (sub high low) (abs (sub high previous_close)))
        (abs (sub low previous_close))

  -- `values[index] - values[index - 1]`
  abbrev pub deltas : List F → List F
  deltas = pairs (λ x y. sub y x)

  -- `zip(highs, lows, closes, strict=True)` with the close before
  abbrev pub true_ranges : Option F → List F → List F → List F → Outcome (List F)
  true_ranges before [] [] [] = returned []
  true_ranges before (h ∷ hs) (l ∷ ls) (c ∷ cs) =
      true_ranges (some c) hs ls cs >>= λ rest. returned (range_of h l before ∷ rest)
  true_ranges before hs ls cs = raised value_error

  abbrev pub move : F → F → F → F → F → Move F
  move high low close next_high next_low =
      let high_diff : F = sub next_high high in
      let low_diff : F = sub low next_low in
      record {
        plus_dm = if lt low_diff high_diff then maximum high_diff nought else nought;
        minus_dm = if lt high_diff low_diff then maximum low_diff nought else nought;
        true_range = range_of next_high next_low (some close);
      }

  -- The first loop of `_adx_series`.
  abbrev pub moves : List F → List F → List F → Outcome (List (Move F))
  moves (h ∷ h' ∷ hs) (l ∷ l' ∷ ls) (c ∷ cs) =
      moves (h' ∷ hs) (l' ∷ ls) cs >>= λ rest. returned (move h l c h' l' ∷ rest)
  moves (h ∷ h' ∷ hs) ls cs = raised index_error
  moves hs ls cs = returned []

  abbrev pub smoothed_move : ℕ → Move F → Move F → Move F
  smoothed_move period sums m = record {
    plus_dm = smoothed period sums.plus_dm m.plus_dm;
    minus_dm = smoothed period sums.minus_dm m.minus_dm;
    true_range = smoothed period sums.true_range m.true_range;
  }

  -- The entry of `di_diff_list` for the three sums.
  abbrev pub di_difference : Move F → F
  di_difference sums =
      let scaled = λ (dm : F). div (mul (decimal 100 0) dm) sums.true_range in
      let plus_di : F = if lt nought sums.true_range then scaled sums.plus_dm else nought in
      let minus_di : F = if lt nought sums.true_range then scaled sums.minus_dm else nought in
      let total : F = add plus_di minus_di in
      let di_sum : F = if lt nought total then total else one in
      if lt nought di_sum
      then div (mul (decimal 100 0) (abs (sub plus_di minus_di))) di_sum
      else nought

  -- `macd_line`: the difference where both averages have a value, of lists of one length
  abbrev pub macd_line : List (Option F) → List (Option F) → Outcome (List (Option F))
  macd_line [] [] = returned []
  macd_line (some f ∷ fs) (some s ∷ ss) =
      macd_line fs ss >>= λ rest. returned (some (sub f s) ∷ rest)
  macd_line (f ∷ fs) (s ∷ ss) = macd_line fs ss >>= λ rest. returned (none ∷ rest)
  macd_line fs ss = raised value_error

  -- `macd_line[index] - signal_value` where both have a value
  abbrev pub histogram_of : List (Option F) → List (Option F) → List (Option F)
  histogram_of (some m ∷ ms) (some s ∷ ss) = some (sub m s) ∷ histogram_of ms ss
  histogram_of (m ∷ ms) (s ∷ ss) = none ∷ histogram_of ms ss
  histogram_of ms ss = []

  -- `_compute_rsi`; `is_nought x` is `isclose(x, 0.0)`.
  abbrev pub compute_rsi : (is_nought : F → Bool) → Averages F → F
  compute_rsi is_nought averages =
      if is_nought averages.loss
      then if is_nought averages.gain then decimal 50 0 else decimal 100 0
      else let relative_strength : F = div averages.gain averages.loss in
        sub (decimal 100 0) (div (decimal 100 0) (add one relative_strength))

  -- `max(delta, 0.0)` and `max(-delta, 0.0)`
  abbrev pub gain_of : F → F
  gain_of delta = maximum delta nought

  abbrev pub loss_of : F → F
  loss_of delta = maximum (sub nought delta) nought

  abbrev pub next_averages : ℕ → Averages F → F → Averages F
  next_averages period a delta = record {
    gain = smoothed period a.gain (gain_of delta);
    loss = smoothed period a.loss (loss_of delta);
  }

  module _ (sum : List F → F) where
    abbrev pub sum_moves : List (Move F) → Move F
    sum_moves ms = record {
      plus_dm = sum (map (λ m. m.plus_dm) ms);
      minus_dm = sum (map (λ m. m.minus_dm) ms);
      true_range = sum (map (λ m. m.true_range) ms);
    }

    unfoldable pub di_differences : ℕ → List (Move F) → List F
    di_differences period ms = map di_difference (warmed period sum_moves (smoothed_move period) ms)

  module _ (mean : List F → F) where
    unfoldable pub ema_series : List F → ℕ → Outcome (List (Option F))
    ema_series values period =
        if period == 0
        then raised value_error
        else returned (from_period period values (warmed period mean (ema_step period) values))

    unfoldable pub atr_series : List F → List F → List F → ℕ → Outcome (List (Option F))
    atr_series highs lows closes period =
        if period == 0
        then raised value_error
        else true_ranges none highs lows closes >>= λ ranges.
            returned (from_period period ranges (warmed period mean (smoothed period) ranges))

    -- The end of `_macd_series`, for `count` prices and their line.
    unfoldable pub with_signal : ℕ → List (Option F) → ℕ → Outcome (Macd F)
    with_signal count line signal_period =
        if ltb (length (compact line)) signal_period
        then returned (record {
          line = line;
          signal = replicate count none;
          histogram = replicate count none;
        })
        else ema_series (compact line) signal_period >>= λ signal. returned (record {
          line = line;
          signal = spread line signal;
          histogram = histogram_of line (spread line signal);
        })

    unfoldable pub macd_series : List F → ℕ → ℕ → ℕ → Outcome (Macd F)
    macd_series values fast_period slow_period signal_period =
        if (fast_period == 0) || (slow_period == 0) || (signal_period == 0)
        then raised value_error
        else if leb slow_period fast_period
        then raised value_error
        else ema_series values fast_period >>= λ fast. ema_series values slow_period >>= λ slow.
            macd_line fast slow >>= λ line. with_signal (length values) line signal_period

    module _ (sum : List F → F) where
      unfoldable pub adx_series : List F → List F → List F → ℕ → Outcome (List (Option F))
      adx_series highs lows closes period =
          if period == 0
          then raised value_error
          else if ltb (length highs) (period + 1)
          then returned (replicate (length highs) none)
          else moves highs lows closes >>= λ ms. returned (
              replicate period none
              ++ from_period period (di_differences sum period ms)
                  (warmed period mean (smoothed period) (di_differences sum period ms)))

    abbrev pub first_averages : List F → Averages F
    first_averages ds = record { gain = mean (map gain_of ds); loss = mean (map loss_of ds) }

    unfoldable pub rsi_series : (is_nought : F → Bool) → List F → ℕ → Outcome (List (Option F))
    rsi_series is_nought values period =
        if period == 0
        then raised value_error
        else if leb (length values) period
        then returned (replicate (length values) none)
        else returned (
            replicate 1 none
            ++ from_period period (deltas values) (
                map (compute_rsi is_nought)
                  (warmed period first_averages (next_averages period) (deltas values))))

    module _ (pstdev : List F → F) where
      unfoldable pub bollinger_series : List F → ℕ → F → Outcome (Bands F)
      bollinger_series values period multiplier =
          if period == 0
          then raised value_error
          else let band = λ (f : F → F → F).
            from_period period values
              (map (λ w. f (mean w) (mul multiplier (pstdev w))) (windows period values)) in
            returned (record {
              middle = band (λ center width. center);
              upper = band add;
              lower = band sub;
            })
