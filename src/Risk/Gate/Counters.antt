-- ===== src/Risk/Gate/Counters.antt =====
-- The counters that `evaluate_signal` of services/layer4_risk/engine.py keeps.
use algo_trading_platform.Base.{ℕ, ◌+◌, ◌≡◌, Option, none, some, [], ◌∷◌, arith, ap}
use algo_trading_platform.Base.Dict.{Dict, insert, lookup}
use algo_trading_platform.Float.{Float}
use algo_trading_platform.Schema.{TradeSignal}
use algo_trading_platform.Risk.{RiskEngine, Telemetry, RejectReason, reject_reason_eq, count_reason}
use algo_trading_platform.Risk.Breaker.Observations.{Flows, SameSignals}
use algo_trading_platform.Risk.Gate.{
  evaluate_signal, count_evaluated, admit, reject, count_close_all, build_close_all, size_trade,
  approve,
}

-- The sum of the rejections over all reasons.
abbrev pub total_rejections : Dict RejectReason ℕ → ℕ
total_rejections [] = 0
total_rejections ((r, n) ∷ d) = n + total_rejections d

abbrev value_or_zero : Option ℕ → ℕ
value_or_zero none = 0
value_or_zero (some n) = n

total_rejections-insert :
    (r : RejectReason) (n : ℕ) (d : Dict RejectReason ℕ)
    → total_rejections (insert r n d) + value_or_zero (lookup r d) ≡ total_rejections d + n
total_rejections-insert r n [] = omega arith
total_rejections-insert r n ((k, m) ∷ d) = ground (arith, total_rejections-insert r n d)

pub total_rejections-count_reason :
    (r : RejectReason) (d : Dict RejectReason ℕ)
    → total_rejections (count_reason r d) ≡ total_rejections d + 1
total_rejections-count_reason r d =
    ground (arith, total_rejections-insert r (value_or_zero (lookup r d) + 1) d)

-- Each signal evaluated is counted once: as approved, as rejected or as a CLOSE_ALL order; and the
-- rejections by reason add up to the rejections.
pub record IsAccounted (t : Telemetry) : Type 0 where
  pub signals : t.signals_evaluated ≡ t.approved_orders + t.rejected_orders + t.close_all_orders
  pub reasons : t.rejected_orders ≡ total_rejections t.rejection_reasons

-- One more signal has been decided, and nothing else is counted.
record Decides (t t' : Telemetry) : Type 0 where
  same_signals : t'.signals_evaluated ≡ t.signals_evaluated
  one_more :
      t'.approved_orders + t'.rejected_orders + t'.close_all_orders
      ≡ t.approved_orders + t.rejected_orders + t.close_all_orders + 1
  keeps_reasons :
      t'.rejected_orders + total_rejections t.rejection_reasons
      ≡ t.rejected_orders + total_rejections t'.rejection_reasons

module _ {F : Type 0} ⦃fl : Float F⦄ where
  reject-Decides :
      (e : RiskEngine F) (r : RejectReason) → Decides e.telemetry (reject e r).0.telemetry
  unfolding reject
  reject-Decides e r = ground (arith, total_rejections-count_reason r e.telemetry.rejection_reasons)

  approve-Decides :
      (e : RiskEngine F) (sig : TradeSignal F) (price atr exposure size per_unit : F) (now : ℕ)
      → Decides e.telemetry (approve e sig price atr exposure size per_unit now).0.telemetry
  unfolding approve
  approve-Decides e sig price atr exposure size per_unit now = ground arith

  close_all-Decides :
      (e : RiskEngine F) (sig : TradeSignal F) (exposure : F) (now : ℕ)
      → Decides e.telemetry (build_close_all (count_close_all e) sig exposure now).0.telemetry
  unfolding build_close_all count_close_all
  close_all-Decides e sig exposure now = ground arith

  size_trade-Decides :
      (e : RiskEngine F) (sig : TradeSignal F) (price atr exposure : F) (now : ℕ)
      → Decides e.telemetry (size_trade e sig price atr exposure now).0.telemetry
  unfolding size_trade
  size_trade-Decides e sig price atr exposure now = grind (arith, reject-Decides, approve-Decides)

  admit-Decides :
      (e : RiskEngine F) (sig : TradeSignal F) (price exposure : F) (now : ℕ)
      → Decides e.telemetry (admit e sig price exposure now).0.telemetry
  unfolding admit
  admit-Decides e sig price exposure now =
      grind (arith, reject-Decides, size_trade-Decides, close_all-Decides)

module _ {F : Type 0} ⦃fl : Float F⦄ (sig : TradeSignal F) (price exposure : F) (now : Option ℕ)
    (e : RiskEngine F) where
  pub evaluate_signal-IsAccounted :
      IsAccounted e.telemetry → IsAccounted ((evaluate_signal sig price exposure now e).0.telemetry)
  unfolding evaluate_signal count_evaluated
  evaluate_signal-IsAccounted h = grind (arith, reject-Decides, admit-Decides)

  pub evaluate_signal-Flows : Flows e → Flows ((evaluate_signal sig price exposure now e).0)
  unfolding evaluate_signal count_evaluated admit reject count_close_all build_close_all size_trade
      approve
  evaluate_signal-Flows h = ground arith

pub SameSignals-IsAccounted : (t t' : Telemetry) → SameSignals t t' → IsAccounted t → IsAccounted t'
SameSignals-IsAccounted t t' s h = ground (arith, ap total_rejections s.reasons)
