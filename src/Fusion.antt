-- ===== src/Fusion.antt =====
-- services/layer2_anomaly/fusion.py: one score from five detectors. The sum of floats is a parameter, and a
-- reason is kept by its parts.
pub mod Caps
mod Tests
use algo_trading_platform.Base.{
  ℕ, ltb, leb, Bool, true, false, List, [], ◌∷◌, map, length, String, if◌then◌else◌,
}
use algo_trading_platform.Float.{Float, nought, minimum, maximum}

pub record DetectorResult (F : Type 0) : Type 0 where
  pub score : F
  pub triggered : Bool
  pub reason : String

pub data Detector : Type 0 where
  absolute mad vol_ratio cusum ewma : Detector

pub data FusionReason : Type 0 where
  coincidence : List String → FusionReason
  detector_reason : String → FusionReason
  normal : FusionReason

pub record FusionResult (F : Type 0) : Type 0 where
  pub anomaly_score : F
  pub reason : FusionReason
  pub triggered_count : ℕ
  pub max_detector_score : F
  -- `absolute_score`, `mad_score`, `vol_ratio_score`, `cusum_score` and `ewma_score`
  pub component_score : Detector → F

abbrev pub detectors : List Detector
detectors = absolute ∷ mad ∷ vol_ratio ∷ cusum ∷ ewma ∷ []

module _ {F : Type 0} ⦃fl : Float F⦄ where
  open fl use {decimal, mul, div, lt}

  -- `_WEIGHTS`
  abbrev pub weight : Detector → F
  weight absolute = decimal 35 2
  weight mad = decimal 30 2
  weight vol_ratio = decimal 15 2
  weight cusum = decimal 10 2
  weight ewma = decimal 10 2

  -- The caps of the two tiers.
  abbrev pub coincidence_cap : F
  coincidence_cap = decimal 85 2

  abbrev pub normal_cap : F
  normal_cap = decimal 70 2

  module _ (results : Detector → DetectorResult F) where
    abbrev pub triggered_of : List Detector → List Detector
    triggered_of [] = []
    triggered_of (d ∷ ds) =
        let rest = triggered_of ds in if (results d).triggered then d ∷ rest else rest

    -- The first detector with the greatest score, from the one that leads so far.
    abbrev pub top_of : Detector → List Detector → Detector
    top_of leader [] = leader
    top_of leader (d ∷ ds) =
        top_of (if lt (results leader).score (results d).score then d else leader) ds

    -- `max(scores, key=...)`, whose score is `max(scores.values())`
    abbrev pub max_name : Detector
    max_name = top_of absolute (mad ∷ vol_ratio ∷ cusum ∷ ewma ∷ [])

    abbrev pub max_score : F
    max_score = (results max_name).score

    module _ (sum : List F → F) where
      abbrev pub total_weight : List Detector → F
      total_weight ds = sum (map weight ds)

      abbrev pub weighted_sum : List Detector → F
      weighted_sum ds = sum (map (λ d. mul (weight d) (results d).score) ds)

      abbrev pub coincidence_score : F
      coincidence_score =
          let triggered = triggered_of detectors in
          minimum coincidence_cap (
            if lt nought (total_weight triggered)
            then div (weighted_sum triggered) (total_weight triggered)
            else max_score)

      abbrev pub normal_score : F
      normal_score = minimum normal_cap (div (weighted_sum detectors) (total_weight detectors))

      -- The reason of the normal tier.
      abbrev pub normal_reason : List Detector → FusionReason
      normal_reason (d ∷ []) = detector_reason (results d).reason
      normal_reason _ =
          if lt max_score (decimal 20 2) then normal else detector_reason (results max_name).reason

      unfoldable pub fuse : FusionResult F
      fuse =
          let triggered = triggered_of detectors in
          let many = leb 2 (length triggered) in
          record {
            anomaly_score = if many then coincidence_score else normal_score;
            reason =
                if many
                then coincidence (map (λ d. (results d).reason) triggered)
                else normal_reason triggered;
            triggered_count = length triggered;
            max_detector_score = max_score;
            component_score = λ d. (results d).score;
          }
