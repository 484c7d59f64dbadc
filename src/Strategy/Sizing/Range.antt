-- ===== src/Strategy/Sizing/Range.antt =====
-- The sizes that `size_trade_signal` of services/layer3_strategy/sizing.py gives.
use algo_trading_platform.Base.{◌≡◌, true, ◌||◌, arith}
use algo_trading_platform.Float.{Float, nought, one, IsOrdered}
use algo_trading_platform.Schema.{TradeSignal, is_hold, is_halt}
use algo_trading_platform.Strategy.{clip01}
use algo_trading_platform.Strategy.Sizing.{PositionSizingConfig, size_trade_signal, raw_size}

module _ {F : Type 0} ⦃fl : Float F⦄ where
  open fl use {lt, le}

  -- The direction and the state of the signal stay.
  pub size_trade_signal_keeps :
      (c : PositionSizingConfig F) (sig : TradeSignal F)
      → (is_hold sig.direction || is_halt sig.system_state) ≡ true
      → let sized = (size_trade_signal c sig).signal in
        (is_hold sized.direction || is_halt sized.system_state) ≡ true
  unfolding size_trade_signal
  size_trade_signal_keeps c sig h = ground arith

  clip01_range :
      IsOrdered F
      → le nought one ≡ true
      → (x : F) → (le nought (clip01 x) ≡ true) × (le (clip01 x) one ≡ true)
  clip01_range laws h x =
      ground (arith, laws.refl_of_le nought one h, laws.le_of_lt x one, laws.le_of_lt nought x)

  -- With floats ordered as IEEE 754 orders them, the size is from 0 to 1 for every strength and
  -- configuration, NaN included, and the result and its signal carry the same size.
  size_trade_signal_range :
      (c : PositionSizingConfig F) (sig : TradeSignal F)
      → IsOrdered F
      → le nought one ≡ true
      → let r = size_trade_signal c sig in
        (le nought r.size_pct ≡ true)
        × (le r.size_pct one ≡ true)
        × (r.signal.size_pct ≡ r.size_pct)
  unfolding size_trade_signal
  size_trade_signal_range c sig laws h =
      ground (arith, clip01_range laws h (raw_size c sig), (laws.refl_of_le nought one h).0)
