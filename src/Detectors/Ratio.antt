-- ===== src/Detectors/Ratio.antt =====
-- The volatility ratio of services/layer2_anomaly/detectors/volatility_ratio.py: both volatilities are roots of
-- sums, not of means, and the long window holds the short one.
use algo_trading_platform.Base.{
  ℕ, zero, suc, ◌-◌, ◌≤◌, ◌≡◌, refl, sym, true, false, List, [], ◌∷◌, ◌++◌, All, map, length, drop,
  ltb, if_intro, All-append, Bool-cases, inl, inr,
}
use mathlib.Core.Path.{subst}
use algo_trading_platform.Float.{Float, IsOrdered, nought, one}
use algo_trading_platform.Fusion.{DetectorResult}
use algo_trading_platform.Detectors.Windows.{IsSuffix, pushed-IsSuffix}
use algo_trading_platform.Detectors.{
  pushed, min_samples, VolatilityRatioDetector, realized_volatility, score_ratio, update_volatility,
}

-- What the square root and the sum of floats promise of values that are not NaN.
pub record HasRoots (F : Type 0) ⦃fl : Float F⦄ (sqrt : F → F) (sum : List F → F) : Type 0 where
  pub square_positive : (x : F) → fl.le x x ≡ true → fl.le nought (fl.mul x x) ≡ true
  -- A sum of values from zero is from zero and no greater with more of them in front.
  pub sum_positive :
      (xs : List F) → All (λ x. fl.le nought x ≡ true) xs → fl.le nought (sum xs) ≡ true
  pub sum_grows :
      (x : F) (xs : List F)
      → fl.le nought x ≡ true
      → All (λ y. fl.le nought y ≡ true) xs
      → fl.le (sum xs) (sum (x ∷ xs)) ≡ true
  pub sqrt_positive : (x : F) → fl.le nought x ≡ true → fl.le nought (sqrt x) ≡ true
  pub sqrt_mono :
      (x y : F) → fl.le nought x ≡ true → fl.le x y ≡ true → fl.le (sqrt x) (sqrt y) ≡ true
  -- The literals 1e-12 and 1e-8.
  pub tiny_small : fl.le (fl.decimal 1 12) (fl.decimal 1 8) ≡ true
  pub quotient_below :
      (x y : F) → fl.le nought x ≡ true → fl.le x y ≡ true → fl.lt one (fl.div x y) ≡ false

module _ {F : Type 0} ⦃fl : Float F⦄ where
  -- Not NaN.
  abbrev pub IsNumber : F → Type 0
  IsNumber x = fl.le x x ≡ true

  All-drop : (P : F → Type 0) (n : ℕ) (xs : List F) → All P xs → All P (drop n xs)
  All-drop P zero xs h = h
  All-drop P (suc n) [] h = tt
  All-drop P (suc n) (x ∷ xs) (p, h) = All-drop P n xs h

  All-suffix : (P : F → Type 0) (front xs : List F) → All P (front ++ xs) → All P xs
  All-suffix P [] xs h = h
  All-suffix P (y ∷ front) xs (p, h) = All-suffix P front xs h

  -- The windows hold numbers, and the long one the short one.
  pub record IsNested (d : VolatilityRatioDetector F) : Type 0 where
    pub windows : d.short_window ≤ d.long_window
    pub numbers : All IsNumber d.long_buf
    pub nested : IsSuffix d.short_buf d.long_buf
    pub above_one : fl.lt one d.spike_ratio ≡ true
    pub spike_extreme : fl.le d.spike_ratio d.extreme_ratio ≡ true

  -- The results of the detector for returns in turn
  abbrev pub volatility_results :
      (sqrt : F → F) (sum : List F → F)
      → List F
      → VolatilityRatioDetector F
      → List (DetectorResult F)
  volatility_results sqrt sum [] d = []
  volatility_results sqrt sum (r ∷ rs) d =
      let (next, result) = update_volatility sqrt sum r d in
      result ∷ volatility_results sqrt sum rs next

  module _ (ordered : IsOrdered F) (sqrt : F → F) (sum : List F → F)
      (roots : HasRoots F sqrt sum) where
    squares : List F → List F
    squares xs = map (λ x. fl.mul x x) xs

    squares-positive :
        (xs : List F) → All IsNumber xs → All (λ x. fl.le nought x ≡ true) (squares xs)
    unfolding squares
    squares-positive [] h = tt
    squares-positive (x ∷ xs) (p, h) = (roots.square_positive x p, squares-positive xs h)

    sum_squares-grows :
        (front xs : List F)
        → All IsNumber (front ++ xs)
        → fl.le (sum (squares xs)) (sum (squares (front ++ xs))) ≡ true
    unfolding squares
    sum_squares-grows [] xs h =
        (ordered.refl_of_le _ _ (roots.sum_positive (squares xs) (squares-positive xs h))).1
    sum_squares-grows (y ∷ front) xs (p, h) =
        ordered.le_trans _ _ _ (sum_squares-grows front xs h) (
          roots.sum_grows (fl.mul y y) (squares (front ++ xs)) (roots.square_positive y p)
            (squares-positive (front ++ xs) h))

    root : List F → F
    root xs = sqrt (sum (squares xs))

    root-positive : (xs : List F) → All IsNumber xs → fl.le nought (root xs) ≡ true
    unfolding root
    root-positive xs h =
        roots.sqrt_positive _ (roots.sum_positive (squares xs) (squares-positive xs h))

    volatility-positive :
        (xs : List F) → All IsNumber xs → fl.le nought (realized_volatility sqrt sum xs) ≡ true
    unfolding root squares
    volatility-positive [] h = (ordered.refl_of_le _ _ (root-positive [] h)).0
    volatility-positive (x ∷ xs) h = root-positive (x ∷ xs) h

    volatility-grows :
        (front xs : List F)
        → All IsNumber (front ++ xs)
        → fl.le (realized_volatility sqrt sum xs) (realized_volatility sqrt sum (front ++ xs))
          ≡ true
    unfolding root squares
    volatility-grows front [] h = volatility-positive (front ++ []) h
    volatility-grows [] (x ∷ xs) h = (ordered.refl_of_le _ _ (volatility-positive (x ∷ xs) h)).1
    volatility-grows (y ∷ front) (x ∷ xs) h =
        roots.sqrt_mono _ _
          (roots.sum_positive (squares (x ∷ xs))
            (squares-positive (x ∷ xs) (All-suffix IsNumber (y ∷ front) (x ∷ xs) h)))
          (sum_squares-grows (y ∷ front) (x ∷ xs) h)

    below_spike : (s q : F) → fl.lt one s ≡ true → fl.lt one q ≡ false → fl.le s q ≡ false
    below_spike s q above below = elim (Bool-cases (fl.le s q)) [
      | inr no_spike ↦ no_spike
      | inl spike ↦
          let ones = (ordered.refl_of_le one s (ordered.le_of_lt one s above)).0 in
          let q_one = ordered.le_of_not_lt one q ones (ordered.refl_of_le s q spike).1 below in
          let other = ordered.not_lt_of_le one s (ordered.le_trans s q one spike q_one) in
          cc (above, other)
    ]

    score_ratio-quiet :
        (d : VolatilityRatioDetector F) (rv_short rv_long : F)
        → IsNested d
        → fl.le nought rv_short ≡ true
        → fl.le rv_short rv_long ≡ true
        → (score_ratio sqrt sum d rv_short rv_long).triggered ≡ false
    score_ratio-quiet d rv_short rv_long n positive below =
        let q = fl.div rv_short rv_long in
        let no_spike : fl.le d.spike_ratio q ≡ false =
          below_spike d.spike_ratio q n.above_one
            (roots.quotient_below rv_short rv_long positive below) in
        let no_explosion : fl.le d.extreme_ratio q ≡ false =
          elim (Bool-cases (fl.le d.extreme_ratio q)) [
            | inr quiet ↦ quiet
            | inl loud ↦ cc (no_spike, ordered.le_trans _ _ _ n.spike_extreme loud)
          ] in
        let no_move = λ (flat : fl.lt rv_long (fl.decimal 1 12) ≡ true).
          ordered.not_lt_of_le (fl.decimal 1 8) rv_short (
            ordered.le_trans _ _ _ below
              (ordered.le_trans _ _ _ (ordered.le_of_lt _ _ flat) roots.tiny_small)) in
        if_intro (λ (r : DetectorResult F). r.triggered ≡ false) (fl.lt rv_long (fl.decimal 1 12))
          (λ flat. rw (no_move flat) refl) (λ _. rw (no_explosion, no_spike) refl)

    update_volatility-IsNested :
        (r : F) (d : VolatilityRatioDetector F)
        → IsNumber r
        → IsNested d
        → IsNested (update_volatility sqrt sum r d).0
          × ((update_volatility sqrt sum r d).1.triggered ≡ false)
    unfolding update_volatility
    update_volatility-IsNested r d number n =
        let long = d.long_buf ++ r ∷ [] in
        let numbers =
          All-drop IsNumber (length long - d.long_window) long
            (All-append IsNumber d.long_buf (r ∷ []) n.numbers (number, tt)) in
        let (front, e) =
          pushed-IsSuffix d.short_window d.long_window r d.short_buf d.long_buf n.windows
            n.nested in
        let short = pushed d.short_window r d.short_buf in
        (
          record {
            windows = n.windows;
            numbers = numbers;
            nested = (front, e);
            above_one = n.above_one;
            spike_extreme = n.spike_extreme;
          },
          if_intro (λ (o : DetectorResult F). o.triggered ≡ false) (ltb (length short) min_samples)
              (λ _. refl)
              (λ _.
                let behind : All IsNumber (front ++ short) = subst (All IsNumber) e numbers in
                score_ratio-quiet d _ _ n
                  (volatility-positive short (All-suffix IsNumber front short behind))
                  (subst
                    (λ l.
                      fl.le (realized_volatility sqrt sum short) (realized_volatility sqrt sum l)
                      ≡ true)
                    (sym e) (volatility-grows front short behind))),
        )

    -- With a short window that is not longer than the long one, a spike ratio above one that does not
    -- exceed the extreme ratio, and no NaN among the returns, the volatility ratio detector never triggers, whatever
    -- returns it is given in turn: neither on a spike nor on an explosion nor on a rise from nought.
    pub volatility_never_triggers :
        (rs : List F) (d : VolatilityRatioDetector F)
        → All IsNumber rs
        → IsNested d
        → All (λ r. r.triggered ≡ false) (volatility_results sqrt sum rs d)
    volatility_never_triggers [] d h n = tt
    volatility_never_triggers (r ∷ rs) d (p, h) n =
        let (next, quiet) = update_volatility-IsNested r d p n in
        (quiet, volatility_never_triggers rs (update_volatility sqrt sum r d).0 h next)
