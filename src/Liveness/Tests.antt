-- ===== src/Liveness/Tests.antt =====
-- The monitor of services/layer1_validated/liveness.py at concrete calls.
use algo_trading_platform.Base.{List, [], ◌∷◌}
use algo_trading_platform.Base.Int.{ℤ, pos}
use algo_trading_platform.Float.Fixed.{fixed_float}
use algo_trading_platform.Liveness.{new_monitor}
use algo_trading_platform.Liveness.Alerts.{
  LivenessCall, tick_seen, checked, liveness_run, IsBalanced, liveness_run-IsBalanced,
}

abbrev calls : List (LivenessCall ℤ)
calls =
    tick_seen (pos 0) "binance"
    ∷ checked (pos 3_000_000_000)
    ∷ checked (pos 4_000_000_000)
    ∷ tick_seen (pos 5_000_000_000) "binance"
    ∷ []

liveness_run-IsBalanced_example :
    IsBalanced "binance" (liveness_run calls (new_monitor ("binance" ∷ "kraken" ∷ [])))
liveness_run-IsBalanced_example =
    liveness_run-IsBalanced ("binance" ∷ "kraken" ∷ []) calls "binance"
