-- ===== src/Detectors/Armed.antt =====
-- The accumulators of services/layer2_anomaly/detectors/cusum_detector.py over ticks.
use algo_trading_platform.Base.{
  ◌+◌, ◌≡◌, ◌∙◌, refl, sym, ap, arith, true, false, List, ltb, if◌then◌else◌, if_intro, Bool-cases,
  inl, inr,
}
use algo_trading_platform.Float.{Float, IsOrdered, nought, maximum}
use algo_trading_platform.Fusion.{DetectorResult}
use algo_trading_platform.Detectors.{CusumDetector, min_samples}
use algo_trading_platform.Detectors.Drift.{judge, update_cusum}

module _ {F : Type 0} ⦃fl : Float F⦄ where
  -- Both accumulators are from nought and below the threshold, which is above nought.
  pub record IsArmed (d : CusumDetector F) : Type 0 where
    pub threshold : fl.le d.threshold nought ≡ false
    pub pos_positive : fl.le nought d.cusum_pos ≡ true
    pub neg_positive : fl.le nought d.cusum_neg ≡ true
    pub pos_below : fl.le d.threshold d.cusum_pos ≡ false
    pub neg_below : fl.le d.threshold d.cusum_neg ≡ false

  -- A result that triggers leaves both accumulators at nought.
  abbrev pub IsReset : CusumDetector F × DetectorResult F → Type 0
  IsReset (d, result) = result.triggered ≡ true → (d.cusum_pos ≡ nought) × (d.cusum_neg ≡ nought)

  module _ (ordered : IsOrdered F) where
    maximum-positive : (x : F) → fl.le nought nought ≡ true → fl.le nought (maximum nought x) ≡ true
    maximum-positive x number =
        if_intro (λ m. fl.le nought m ≡ true) (fl.lt nought x) (ordered.le_of_lt nought x)
          (λ _. number)

    not_below : (t a b : F) → fl.le t b ≡ false → fl.le a b ≡ true → fl.le t a ≡ false
    not_below t a b miss less = elim (Bool-cases (fl.le t a)) [
      | inl below ↦ cc (miss, ordered.le_trans t a b below less)
      | inr other ↦ other
    ]

    -- A bound that the greater of two numbers misses is missed by both.
    missed :
        (t a b : F)
        → fl.le a a ≡ true
        → fl.le b b ≡ true
        → fl.le t (maximum a b) ≡ false
        → (fl.le t a ≡ false) × (fl.le t b ≡ false)
    missed t a b number_a number_b h = elim (Bool-cases (fl.lt a b)) [
      | inl less ↦
          let miss_b : fl.le t b ≡ false = ap (λ c. fl.le t (if c then b else a)) (sym less) ∙ h in
          (not_below t a b miss_b (ordered.le_of_lt a b less), miss_b)
      | inr other ↦
          let miss_a : fl.le t a ≡ false = ap (λ c. fl.le t (if c then b else a)) (sym other) ∙ h in
          (miss_a, not_below t b a miss_a (ordered.le_of_not_lt a b number_a number_b other))
    ]

    judge-IsArmed :
        (d : CusumDetector F)
        → fl.le d.threshold nought ≡ false
        → fl.le nought d.cusum_pos ≡ true
        → fl.le nought d.cusum_neg ≡ true
        → IsArmed (judge d).0 × IsReset (judge d)
    unfolding judge
    judge-IsArmed d threshold pos neg =
        let (zero_number, pos_number) = ordered.refl_of_le nought d.cusum_pos pos in
        if_intro (λ r. IsArmed r.0 × IsReset r)
          (fl.le d.threshold (maximum d.cusum_pos d.cusum_neg))
          (λ _. (
            record {
              threshold = threshold;
              pos_positive = zero_number;
              neg_positive = zero_number;
              pos_below = threshold;
              neg_below = threshold;
            },
            λ _. (refl, refl),
          ))
          (λ quiet.
            let (below_pos, below_neg) =
              missed d.threshold d.cusum_pos d.cusum_neg pos_number
                (ordered.refl_of_le nought d.cusum_neg neg).1 quiet in
            (
              record {
                threshold = threshold;
                pos_positive = pos;
                neg_positive = neg;
                pos_below = below_pos;
                neg_below = below_neg;
              },
              λ e. absurd (ground (arith, e)),
            ))

    -- An update keeps both accumulators of the CUSUM detector from nought and below the threshold, whatever the
    -- tick, and one that triggers sets both to nought.
    pub update_cusum-IsArmed :
        (mean stdev : List F → F) (price spread volume : F) (d : CusumDetector F)
        → IsArmed d
        → IsArmed (update_cusum mean stdev price spread volume d).0
          × IsReset (update_cusum mean stdev price spread volume d)
    unfolding update_cusum
    update_cusum-IsArmed mean stdev price spread volume d a =
        let zero_number = (ordered.refl_of_le nought d.cusum_pos a.pos_positive).0 in
        if_intro (λ r. IsArmed r.0 × IsReset r) (ltb (d.ticks + 1) min_samples)
          (λ _. (
            record {
              threshold = a.threshold;
              pos_positive = a.pos_positive;
              neg_positive = a.neg_positive;
              pos_below = a.pos_below;
              neg_below = a.neg_below;
            },
            λ e. absurd (ground (arith, e)),
          ))
          (λ _.
            judge-IsArmed _ a.threshold (maximum-positive _ zero_number)
              (maximum-positive _ zero_number))
