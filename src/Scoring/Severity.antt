-- ===== src/Scoring/Severity.antt =====
-- How severe the state of `DecisionGate` of services/layer2_anomaly/engine.py is after a tick.
use algo_trading_platform.Base.{ℕ, suc, ◌≤◌, ◌<◌, ◌≡◌, arith, true, ◌||◌}
use algo_trading_platform.Float.{Float}
use algo_trading_platform.Schema.{SystemState, is_halt, is_normal}
use algo_trading_platform.Scoring.Gate.{DecisionGate, severity, advance, base_state, update}

module _ {F : Type 0} where
  -- The state after is as severe as the tick asks for or more. It is less severe than before only when the
  -- streak ends with this tick, and a gate in HALT goes to NORMAL or stays; a streak is shorter than required.
  pub record IsGuarded (base : SystemState) (g h : DecisionGate F) : Type 0 where
    pub severe : severity base ≤ severity h.state
    pub earned : severity h.state < severity g.state → g.streak_required ≤ suc g.upgrade_streak
    pub from_halt : is_halt g.state ≡ true → (is_halt h.state || is_normal h.state) ≡ true
    pub paced : h.upgrade_streak < h.streak_required
    pub same_required : h.streak_required ≡ g.streak_required

  -- With at least one tick required for an upgrade and a streak below it, the gate after a tick is guarded.
  advance-IsGuarded :
      (base : SystemState) (g : DecisionGate F)
      → 0 < g.streak_required
      → g.upgrade_streak < g.streak_required
      → IsGuarded base g (advance base g)
  unfolding advance
  advance-IsGuarded base g some_required paced = record {
    severe = ground arith;
    earned = λ h. ground arith;
    from_halt = λ h. ground arith;
    paced = ground arith;
    same_required = ground arith;
  }

-- With at least one tick required for an upgrade and a streak below the requirement, an update leaves the gate
-- in a state as severe as the trust, the anomaly score and the regime of the tick ask for, or more severe; in a less
-- severe state than before only when the streak with this tick reaches the requirement; from HALT
-- only in HALT or NORMAL; and with a streak that is again below the requirement.
pub update-IsGuarded :
    {F : Type 0} ⦃fl : Float F⦄ (trust anomaly : F) (regime : ℕ) (g : DecisionGate F)
    → 0 < g.streak_required
    → g.upgrade_streak < g.streak_required
    → IsGuarded (base_state trust anomaly regime g) g (update trust anomaly regime g)
unfolding update
update-IsGuarded trust anomaly regime g some_required paced =
    advance-IsGuarded (base_state trust anomaly regime g) g some_required paced
