-- ===== src/Scoring/Gate.antt =====
-- `DecisionGate` of services/layer2_anomaly/engine.py: four states with hysteresis.
use algo_trading_platform.Base.{
  ℕ, ◌+◌, Bool, false, not, ◌&&◌, Option, none, some, leb, ltb, ◌==◌, if◌then◌else◌,
}
use algo_trading_platform.Float.{Float}
use algo_trading_platform.Schema.{
  SystemState, normal, conservative, degraded, halt, is_halt, is_normal,
}

pub record DecisionGate (F : Type 0) : Type 0 where
  pub trust_thr : F
  pub anomaly_thr : F
  pub streak_required : ℕ
  pub regime_adj : F
  pub state : SystemState
  pub upgrade_target : Option SystemState
  pub upgrade_streak : ℕ

-- `_SEVERITY`
abbrev pub severity : SystemState → ℕ
severity normal = 0
severity conservative = 1
severity degraded = 2
severity halt = 3

-- `self._upgrade_target == base`
abbrev pub is_target : Option SystemState → SystemState → Bool
is_target none base = false
is_target (some t) base = severity t == severity base

module _ {F : Type 0} where
  -- A gate in the state HALT
  abbrev pub leave_halt : SystemState → DecisionGate F → DecisionGate F
  leave_halt base g =
      let streak = if is_normal base then g.upgrade_streak + 1 else 0 in
      if leb g.streak_required streak
      then record g { state = normal; upgrade_streak = 0 }
      else record g { upgrade_streak = streak }

  -- A gate for which a tick asks for a less severe state
  abbrev pub upgrade : SystemState → DecisionGate F → DecisionGate F
  upgrade base g =
      let streak = if is_target g.upgrade_target base then g.upgrade_streak + 1 else 1 in
      if leb g.streak_required streak
      then record g { state = base; upgrade_target = none; upgrade_streak = 0 }
      else record g { upgrade_target = some base; upgrade_streak = streak }

  -- `update`, once the state that the tick asks for is known
  unfoldable pub advance : SystemState → DecisionGate F → DecisionGate F
  advance base g =
      if ltb (severity g.state) (severity base)
      then record g { state = base; upgrade_target = none; upgrade_streak = 0 }
      else if is_halt g.state
      then leave_halt base g
      else if ltb (severity base) (severity g.state)
      then upgrade base g
      else record g { upgrade_target = none; upgrade_streak = 0; state = base }

module _ {F : Type 0} ⦃fl : Float F⦄ where
  open fl use {decimal, add, sub, le}

  -- `__init__` with the default arguments
  abbrev pub new_gate : DecisionGate F
  new_gate = record {
    trust_thr = decimal 60 2;
    anomaly_thr = decimal 55 2;
    streak_required = 10;
    regime_adj = decimal 10 2;
    state = normal;
    upgrade_target = none;
    upgrade_streak = 0;
  }

  -- `_base_state`
  unfoldable pub base_state : F → F → ℕ → DecisionGate F → SystemState
  base_state trust anomaly regime g =
      let high_trust = le g.trust_thr trust in
      let threshold : F =
        if regime == 0 then sub g.anomaly_thr g.regime_adj else add g.anomaly_thr g.regime_adj in
      let high_anomaly = le threshold anomaly in
      if high_trust && not high_anomaly
      then normal
      else if high_trust && high_anomaly
      then conservative
      else if not high_trust && not high_anomaly
      then degraded
      else halt

  unfoldable pub update : F → F → ℕ → DecisionGate F → DecisionGate F
  update trust anomaly regime g = advance (base_state trust anomaly regime g) g
