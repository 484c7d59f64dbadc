-- ===== src/Fusion/Caps.antt =====
-- The range of the fused score of services/layer2_anomaly/fusion.py.
use algo_trading_platform.Base.{
  leb, length, Bool, ◌≡◌, true, false, List, [], ◌∷◌, All, if◌then◌else◌, if_intro,
}
use algo_trading_platform.Float.{Float, IsOrdered, minimum}
use algo_trading_platform.Fusion.{
  DetectorResult, Detector, absolute, mad, vol_ratio, cusum, ewma, coincidence_cap, normal_cap,
  top_of, fuse, max_name, max_score, triggered_of, detectors,
}

module _ {F : Type 0} ⦃fl : Float F⦄ (ordered : IsOrdered F) where
  minimum-capped : (cap x : F) → fl.le cap cap ≡ true → fl.lt cap (minimum cap x) ≡ false
  minimum-capped cap x number =
      if_intro (λ m. fl.lt cap m ≡ false) (fl.lt x cap)
        (λ below. ordered.not_lt_of_le cap x (ordered.le_of_lt x cap below))
        (λ _. ordered.not_lt_of_le cap cap number)

  tier-capped :
      (many : Bool) {high low x y : F}
      → fl.lt high x ≡ false
      → fl.lt low y ≡ false
      → fl.lt (if many then high else low) (if many then x else y) ≡ false
  tier-capped true h l = h
  tier-capped false h l = l

  module _ (results : Detector → DetectorResult F)
      (numbers : (d : Detector) → fl.le (results d).score (results d).score ≡ true) where
    abbrev IsBelow : Detector → Detector → Type 0
    IsBelow top d = fl.le (results d).score (results top).score ≡ true

    top_of-IsBelow :
        (leader : Detector) (ds : List Detector)
        → IsBelow (top_of results leader ds) leader × All (IsBelow (top_of results leader ds)) ds
    top_of-IsBelow leader [] = (numbers leader, tt)
    top_of-IsBelow leader (d ∷ ds) =
        if_intro
          (λ next.
            IsBelow (top_of results next ds) leader
            × (IsBelow (top_of results next ds) d × All (IsBelow (top_of results next ds)) ds))
          (fl.lt (results leader).score (results d).score)
          (λ above.
            let (first, rest) = top_of-IsBelow d ds in
            (ordered.le_trans _ _ _ (ordered.le_of_lt _ _ above) first, (first, rest)))
          (λ other.
            let (first, rest) = top_of-IsBelow leader ds in
            (
              first,
              (
                ordered.le_trans _ _ _ (ordered.le_of_not_lt _ _ (numbers leader) (numbers d) other)
                    first,
                rest,
              ),
            ))

    top_scores :
        IsBelow (max_name results) absolute
        × All (IsBelow (max_name results)) (mad ∷ vol_ratio ∷ cusum ∷ ewma ∷ [])
    top_scores = top_of-IsBelow absolute (mad ∷ vol_ratio ∷ cusum ∷ ewma ∷ [])

    below_top : (d : Detector) → fl.le (results d).score (max_score results) ≡ true
    below_top absolute = top_scores.0
    below_top mad = top_scores.1.0
    below_top vol_ratio = top_scores.1.1.0
    below_top cusum = top_scores.1.1.1.0
    below_top ewma = top_scores.1.1.1.1.0

    -- With ordered floats, scores that are not NaN and caps that are not NaN: the fused score is not above
    -- 0.85, and not above 0.70 when fewer than two detectors are triggered, and the greatest detector score
    -- is at least the score of every detector.
    pub fuse-IsCapped :
        (sum : List F → F)
        → fl.le coincidence_cap coincidence_cap ≡ true
        → fl.le normal_cap normal_cap ≡ true
        → let r = fuse results sum in
          (fl.lt (if leb 2 r.triggered_count then coincidence_cap else normal_cap) r.anomaly_score
            ≡ false)
          × ((d : Detector) → fl.le (r.component_score d) r.max_detector_score ≡ true)
    unfolding fuse
    fuse-IsCapped sum high low = (
      tier-capped (leb 2 (length (triggered_of results detectors)))
          (minimum-capped coincidence_cap _ high) (minimum-capped normal_cap _ low),
      below_top,
    )
