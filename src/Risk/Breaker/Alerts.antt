-- ===== src/Risk/Breaker/Alerts.antt =====
-- The alert list and the counters of an observation, services/layer4_risk/engine.py.
use algo_trading_platform.Base.{
  ℕ, inl, inr, Bool-cases, ◌≡◌, refl, false, List, [], ◌∷◌, ◌++◌, ◌||◌, arith,
}
use algo_trading_platform.Risk.{
  RiskEngine, RiskManagerConfig, RiskState, StateReason, contains, state_reason_eq,
}
use algo_trading_platform.Float.{Float, nought}
use algo_trading_platform.Schema.{CircuitBreakerState, SignalDirection, SystemState}
use algo_trading_platform.Risk.Breaker.{
  set_state, recover_if_able, begin_pause, transition, recover_from_pause, observe_market,
  register_closed_trade,
}

-- No reason stands twice.
abbrev pub IsDistinct : List StateReason → Type 0
IsDistinct [] = Unit
IsDistinct (r ∷ rs) = (contains r rs ≡ false) × IsDistinct rs

contains-append :
    (a r : StateReason) (rs : List StateReason)
    → contains a (rs ++ r ∷ []) ≡ (contains a rs || state_reason_eq.beq r a)
contains-append a r [] = ground arith
contains-append a r (x ∷ rs) = ground (arith, contains-append a r rs)

IsDistinct-append :
    (r : StateReason) (rs : List StateReason)
    → contains r rs ≡ false
    → IsDistinct rs
    → IsDistinct (rs ++ r ∷ [])
IsDistinct-append r [] new d = (refl, tt)
IsDistinct-append r (x ∷ rs) new d = ground (
  arith,
  contains-append x r rs,
  IsDistinct-append r rs,
  state_reason_eq.beq_iff r x,
  state_reason_eq.beq_iff x r,
)

module _ {F : Type 0} where
  set_state-IsDistinct :
      (c : CircuitBreakerState) (r : StateReason) (s : RiskState F)
      → IsDistinct s.alert_events
      → IsDistinct (set_state c r s).alert_events
  unfolding set_state
  set_state-IsDistinct c r s d = ground (arith, IsDistinct-append r s.alert_events)

module _ {F : Type 0} ⦃fl : Float F⦄ where
  open fl use {lt}

  recover_if_able-alerts :
      (c : RiskManagerConfig F) (now : ℕ) (s : RiskState F)
      → (recover_if_able c now s).alert_events ≡ s.alert_events
  unfolding recover_if_able
  recover_if_able-alerts c now s = ground arith

  begin_pause-alerts :
      (c : RiskManagerConfig F) (now : ℕ) (s : RiskState F)
      → (begin_pause c now s).alert_events ≡ s.alert_events
  unfolding begin_pause
  begin_pause-alerts c now s = ground arith

  transition-IsDistinct :
      (c : RiskManagerConfig F) (now : ℕ) (upstream : SystemState) (s : RiskState F)
      → IsDistinct s.alert_events
      → IsDistinct (transition c now upstream s).alert_events
  unfolding transition recover_from_pause
  transition-IsDistinct c now upstream s d =
      grind (arith, set_state-IsDistinct, recover_if_able-alerts, begin_pause-alerts)

  pub observe_market-IsDistinct :
      (now : ℕ) (equity : F) (upstream : SystemState) (e : RiskEngine F)
      → IsDistinct e.state.alert_events
      → IsDistinct (observe_market now equity upstream e).state.alert_events
  unfolding observe_market
  observe_market-IsDistinct now equity upstream e d =
      transition-IsDistinct e.config now upstream _ d

  pub register_closed_trade-IsDistinct :
      (pnl : F) (d : SignalDirection) (now : ℕ) (e : RiskEngine F)
      → IsDistinct e.state.alert_events
      → IsDistinct (register_closed_trade pnl d now e).state.alert_events
  unfolding register_closed_trade
  register_closed_trade-IsDistinct pnl d now e h = elim (Bool-cases (lt pnl nought)) [
    | inl p ↦ observe_market-IsDistinct now _ _ _ (rw p h)
    | inr p ↦ observe_market-IsDistinct now _ _ _ (rw p h)
  ]
