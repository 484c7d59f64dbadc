-- ===== src/Strategy.antt =====
-- services/layer3_strategy: the thresholds and the order flow figures that the signal decision reads.
-- `Gates` has the conditions of signals.py, `Strength` its scores, `Signal` the decision and `Sizing`
-- the position size of sizing.py.
pub mod Gates
pub mod Strength
pub mod Signal
pub mod Sizing
use algo_trading_platform.Base.{ℕ, String, if◌then◌else◌}
use algo_trading_platform.Float.{Float, nought, one, maximum, minimum}

-- The fields of `SignalThresholds`. It has none of the names `long_rsi_max`, `long_rsi_min`,
-- `short_rsi_max` and `short_rsi_min`.
pub record SignalThresholds (F : Type 0) : Type 0 where
  pub normal_rsi_long : F
  pub normal_rsi_short : F
  pub conservative_rsi_long : F
  pub conservative_rsi_short : F
  pub bollinger_buffer_pct : F
  pub bollinger_strong_pct : F
  pub ema_cross_window : ℕ
  pub ema_cross_margin_pct : F
  pub ofi_long_threshold : F
  pub ofi_short_threshold : F
  pub higher_long_rsi_max : F
  pub higher_short_rsi_min : F

-- The fields of `OrderFlowImbalanceSnapshot` that signals.py reads.
pub record OfiSnapshot (F : Type 0) : Type 0 where
  pub symbol : String
  pub ofi : F

module _ {F : Type 0} ⦃fl : Float F⦄ where
  open fl use {decimal}

  abbrev pub default_thresholds : SignalThresholds F
  default_thresholds = record {
    normal_rsi_long = decimal 350 1;
    normal_rsi_short = decimal 650 1;
    conservative_rsi_long = decimal 300 1;
    conservative_rsi_short = decimal 700 1;
    bollinger_buffer_pct = decimal 1 2;
    bollinger_strong_pct = decimal 1 2;
    ema_cross_window = 3;
    ema_cross_margin_pct = decimal 5 3;
    ofi_long_threshold = decimal 10 2;
    ofi_short_threshold = decimal 10 2;
    higher_long_rsi_max = decimal 550 1;
    higher_short_rsi_min = decimal 450 1;
  }

  -- `_clip01`
  abbrev pub clip01 : F → F
  clip01 value = maximum nought (minimum one value)
