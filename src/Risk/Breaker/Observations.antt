-- ===== src/Risk/Breaker/Observations.antt =====
-- The counters that `_record_market_observation` of services/layer4_risk/engine.py keeps.
use algo_trading_platform.Base.{ℕ, ◌+◌, ◌≡◌, inl, inr, arith, Bool-cases}
use algo_trading_platform.Float.{Float, nought}
use algo_trading_platform.Schema.{CircuitBreakerState, SignalDirection, SystemState}
use algo_trading_platform.Risk.{RiskEngine, Telemetry}
use algo_trading_platform.Risk.Breaker.{
  observe_market, register_closed_trade, record_market_observation,
}

abbrev pub is_in : CircuitBreakerState → CircuitBreakerState → ℕ
is_in CircuitBreakerState.normal CircuitBreakerState.normal = 1
is_in CircuitBreakerState.reduced CircuitBreakerState.reduced = 1
is_in CircuitBreakerState.halted CircuitBreakerState.halted = 1
is_in _ _ = 0

-- Every observation is counted under one state, and the transitions into and out of each state
-- account for the state that the breaker is in, from a start in NORMAL.
pub record IsFlow (c : CircuitBreakerState) (t : Telemetry) : Type 0 where
  pub observed : t.market_observations ≡ t.state_normal + t.state_reduced + t.state_halted
  pub normal_flow :
      t.transition_normal_to_reduced
        + t.transition_normal_to_halted
        + is_in CircuitBreakerState.normal c
      ≡ t.transition_reduced_to_normal + t.transition_halted_to_normal + 1
  pub reduced_flow :
      t.transition_reduced_to_normal
        + t.transition_reduced_to_halted
        + is_in CircuitBreakerState.reduced c
      ≡ t.transition_normal_to_reduced + t.transition_halted_to_reduced
  pub halted_flow :
      t.transition_halted_to_normal
        + t.transition_halted_to_reduced
        + is_in CircuitBreakerState.halted c
      ≡ t.transition_normal_to_halted + t.transition_reduced_to_halted

record_market_observation-IsFlow :
    (previous current : CircuitBreakerState) (t : Telemetry)
    → IsFlow previous t
    → IsFlow current (record_market_observation previous current t)
unfolding record_market_observation
record_market_observation-IsFlow previous current t h = ground arith

module _ {F : Type 0} ⦃fl : Float F⦄ where
  open fl use {lt}

  abbrev pub Flows : RiskEngine F → Type 0
  Flows e = IsFlow e.state.circuit_breaker_state e.telemetry

  pub observe_market-Flows :
      (now : ℕ) (equity : F) (upstream : SystemState) (e : RiskEngine F)
      → Flows e
      → Flows (observe_market now equity upstream e)
  unfolding observe_market
  observe_market-Flows now equity upstream e h = record_market_observation-IsFlow _ _ e.telemetry h

  pub register_closed_trade-Flows :
      (pnl : F) (d : SignalDirection) (now : ℕ) (e : RiskEngine F)
      → Flows e
      → Flows (register_closed_trade pnl d now e)
  unfolding register_closed_trade
  register_closed_trade-Flows pnl d now e h = elim (Bool-cases (lt pnl nought)) [
    | inl p ↦ observe_market-Flows now _ _ _ (rw p h)
    | inr p ↦ observe_market-Flows now _ _ _ (rw p h)
  ]

-- The counters of signals, which the breaker's own calls leave alone.
pub record SameSignals (t t' : Telemetry) : Type 0 where
  pub signals : t'.signals_evaluated ≡ t.signals_evaluated
  pub approved : t'.approved_orders ≡ t.approved_orders
  pub rejected : t'.rejected_orders ≡ t.rejected_orders
  pub close_all : t'.close_all_orders ≡ t.close_all_orders
  pub reasons : t'.rejection_reasons ≡ t.rejection_reasons

record_market_observation-SameSignals :
    (previous current : CircuitBreakerState) (t : Telemetry)
    → SameSignals t (record_market_observation previous current t)
unfolding record_market_observation
record_market_observation-SameSignals previous current t = ground arith

module _ {F : Type 0} ⦃fl : Float F⦄ where
  open fl use {lt}

  pub observe_market-SameSignals :
      (now : ℕ) (equity : F) (upstream : SystemState) (e : RiskEngine F)
      → SameSignals e.telemetry (observe_market now equity upstream e).telemetry
  unfolding observe_market
  observe_market-SameSignals now equity upstream e =
      record_market_observation-SameSignals _ _ e.telemetry

  pub register_closed_trade-SameSignals :
      (pnl : F) (d : SignalDirection) (now : ℕ) (e : RiskEngine F)
      → SameSignals e.telemetry (register_closed_trade pnl d now e).telemetry
  unfolding register_closed_trade
  register_closed_trade-SameSignals pnl d now e = elim (Bool-cases (lt pnl nought)) [
    | inl p ↦ observe_market-SameSignals now _ _ _
    | inr p ↦ observe_market-SameSignals now _ _ _
  ]
