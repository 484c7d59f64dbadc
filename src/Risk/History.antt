-- ===== src/Risk/History.antt =====
-- Sequences of calls of a `Layer4RiskEngine` (services/layer4_risk/engine.py), in any order: market
-- observations, closed trades and signals.
pub mod Latch
pub mod Counters
pub mod Pause
pub mod Wins
use algo_trading_platform.Base.{ℕ, Option, List, [], ◌∷◌}
use algo_trading_platform.Float.{Float}
use algo_trading_platform.Schema.{SignalDirection, SystemState, TradeSignal}
use algo_trading_platform.Risk.{RiskEngine}
use algo_trading_platform.Risk.Breaker.{observe_market, register_closed_trade}
use algo_trading_platform.Risk.Gate.{evaluate_signal}

pub data RiskCall (F : Type 0) : Type 0 where
  observe : ℕ → F → SystemState → RiskCall F
  close_trade : F → SignalDirection → ℕ → RiskCall F
  evaluate : TradeSignal F → (price exposure : F) → Option ℕ → RiskCall F

module _ {F : Type 0} ⦃fl : Float F⦄ where
  abbrev pub call : RiskCall F → RiskEngine F → RiskEngine F
  call (observe now equity upstream) e = observe_market now equity upstream e
  call (close_trade pnl d now) e = register_closed_trade pnl d now e
  call (evaluate sig price exposure now) e = (evaluate_signal sig price exposure now e).0

  abbrev pub run : List (RiskCall F) → RiskEngine F → RiskEngine F
  run [] e = e
  run (c ∷ cs) e = run cs (call c e)
