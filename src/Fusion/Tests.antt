-- ===== src/Fusion/Tests.antt =====
-- The fusion of services/layer2_anomaly/fusion.py at concrete scores.
use algo_trading_platform.Base.{leb, ◌≡◌, refl, true, false, List, [], ◌∷◌, if◌then◌else◌}
use algo_trading_platform.Base.Int.{ℤ, pos, ◌+ℤ◌}
use algo_trading_platform.Float.Fixed.{fixed_float, Fixed-IsOrdered}
use algo_trading_platform.Fusion.{
  DetectorResult, Detector, absolute, mad, vol_ratio, cusum, ewma, coincidence, coincidence_cap,
  normal_cap, fuse,
}
use algo_trading_platform.Fusion.Caps.{fuse-IsCapped}

abbrev total : List ℤ → ℤ
total [] = pos 0
total (x ∷ xs) = x +ℤ total xs

-- A crash that two detectors see.
abbrev crash : Detector → DetectorResult ℤ
crash absolute = record { score = pos 1_000_000; triggered = true; reason = "flash_crash_price" }
crash mad = record { score = pos 900_000; triggered = true; reason = "mad_outlier" }
crash _ = record { score = pos 100_000; triggered = false; reason = "low" }

crash_is_coincidence :
    (fuse crash total).reason ≡ coincidence ("flash_crash_price" ∷ "mad_outlier" ∷ [])
unfolding fuse
crash_is_coincidence = refl

own_score : (d : Detector) → fixed_float.le (crash d).score (crash d).score ≡ true
own_score absolute = refl
own_score mad = refl
own_score vol_ratio = refl
own_score cusum = refl
own_score ewma = refl

fuse-IsCapped_example :
    let r = fuse crash total in
    (fixed_float.lt
        (if leb 2 r.triggered_count then coincidence_cap else normal_cap)
        r.anomaly_score
      ≡ false)
    × ((d : Detector) → fixed_float.le (r.component_score d) r.max_detector_score ≡ true)
fuse-IsCapped_example = fuse-IsCapped Fixed-IsOrdered crash own_score total refl refl
