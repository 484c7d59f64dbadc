-- ===== src/Risk/History/Counters.antt =====
-- The counters of services/layer4_risk/engine.py and its alert list, over sequences of calls.
use algo_trading_platform.Base.{◌≡◌, some, List, [], ◌∷◌, arith}
use algo_trading_platform.Float.{Float}
use algo_trading_platform.Risk.{RiskEngine, RiskManagerConfig, start}
use algo_trading_platform.Risk.Breaker.Observations.{
  IsFlow, observe_market-Flows, register_closed_trade-Flows, observe_market-SameSignals,
  register_closed_trade-SameSignals,
}
use algo_trading_platform.Risk.Breaker.Alerts.{
  IsDistinct, observe_market-IsDistinct, register_closed_trade-IsDistinct,
}
use algo_trading_platform.Risk.Gate.Counters.{
  IsAccounted, SameSignals-IsAccounted, evaluate_signal-IsAccounted, evaluate_signal-Flows,
}
use algo_trading_platform.Risk.Gate.Blocking.{evaluate_signal_state}
use algo_trading_platform.Risk.History.{RiskCall, observe, close_trade, evaluate, call, run}

module _ {F : Type 0} ⦃fl : Float F⦄ where
  -- What the counters and the alert list satisfy between calls.
  pub record IsConsistent (e : RiskEngine F) : Type 0 where
    pub flow : IsFlow e.state.circuit_breaker_state e.telemetry
    pub accounted : IsAccounted e.telemetry
    pub distinct : IsDistinct e.state.alert_events

  call-IsConsistent : (c : RiskCall F) (e : RiskEngine F) → IsConsistent e → IsConsistent (call c e)
  call-IsConsistent (observe now equity upstream) e h = record {
    flow = observe_market-Flows now equity upstream e h.flow;
    accounted =
        SameSignals-IsAccounted e.telemetry _ (observe_market-SameSignals now equity upstream e)
          h.accounted;
    distinct = observe_market-IsDistinct now equity upstream e h.distinct;
  }
  call-IsConsistent (close_trade pnl d now) e h = record {
    flow = register_closed_trade-Flows pnl d now e h.flow;
    accounted =
        SameSignals-IsAccounted e.telemetry _ (register_closed_trade-SameSignals pnl d now e)
          h.accounted;
    distinct = register_closed_trade-IsDistinct pnl d now e h.distinct;
  }
  call-IsConsistent (evaluate sig price exposure now) e h = record {
    flow = evaluate_signal-Flows sig price exposure now e h.flow;
    accounted = evaluate_signal-IsAccounted sig price exposure now e h.accounted;
    distinct = rw (evaluate_signal_state sig price exposure now e).2 h.distinct;
  }

  -- From a new engine, after any sequence of calls: every observation is counted under one state, the
  -- transition counters account for the present state, every signal evaluated is counted once as
  -- approved, rejected or CLOSE_ALL, the rejections by reason add up to the rejections, and no alert
  -- stands twice in the list.
  pub run-IsConsistent :
      (config : RiskManagerConfig F) (equity : F) (cs : List (RiskCall F)) {e : RiskEngine F}
      → start config equity ≡ some e
      → IsConsistent (run cs e)
  run-IsConsistent config equity cs made = go cs _ (fresh config equity made)
    where
      fresh :
          (c : RiskManagerConfig F) (q : F) {e : RiskEngine F} → start c q ≡ some e → IsConsistent e
      fresh c q h = ground arith

      go : (cs : List (RiskCall F)) (e : RiskEngine F) → IsConsistent e → IsConsistent (run cs e)
      go [] e h = h
      go (c ∷ cs) e h = go cs (call c e) (call-IsConsistent c e h)
