-- ===== src/Scoring/Tick.antt =====
-- `score_tick` of services/layer2_anomaly/engine.py: the state that a tick leaves.
use algo_trading_platform.Base.{◌≡◌, ◌<◌, refl, List}
use algo_trading_platform.Float.{Float}
use algo_trading_platform.Scoring.{HmmRegime, Layer2ScoringEngine, TickInput, score_tick}
use algo_trading_platform.Scoring.Gate.{base_state}
use algo_trading_platform.Scoring.Severity.{IsGuarded, update-IsGuarded}

-- With at least one tick required for an upgrade and a streak below the requirement, whatever the regime
-- model and the detectors answer, score_tick reports the state of its gate, and that state is as severe as the trust
-- score, the anomaly score that it reports and the regime ask for, or more severe; it is less severe than before the
-- tick only when the streak with this tick reaches the requirement; from HALT it is HALT or NORMAL; and
-- the streak is again below the requirement.
pub score_tick-IsGuarded :
    {H F : Type 0} ⦃fl : Float F⦄ (hmm : F → H → H × HmmRegime F)
    (mean stdev median sum : List F → F) (sqrt log : F → F) (t : TickInput F)
    (e : Layer2ScoringEngine H F)
    → 0 < e.gate.streak_required
    → e.gate.upgrade_streak < e.gate.streak_required
    → let (next, result) = score_tick hmm mean stdev median sum sqrt log t e in
      IsGuarded
        (base_state t.trust_score result.anomaly_score result.regime.regime e.gate)
        e.gate
        next.gate
      × (result.system_state ≡ next.gate.state)
unfolding score_tick
score_tick-IsGuarded hmm mean stdev median sum sqrt log t e required paced =
    (update-IsGuarded t.trust_score _ _ e.gate required paced, refl)
