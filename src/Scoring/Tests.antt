-- ===== src/Scoring/Tests.antt =====
-- The decision gate and the scoring of services/layer2_anomaly/engine.py at concrete ticks.
use algo_trading_platform.Base.{ℕ, ◌+◌, ◌≡◌, refl, none, some, List, [], ◌∷◌, replicate, arith}
use algo_trading_platform.Base.Int.{ℤ, pos}
use algo_trading_platform.Float.Fixed.{fixed_float}
use algo_trading_platform.Schema.{normal, conservative, degraded, halt}
use algo_trading_platform.Scoring.{
  HmmRegime, Layer2ScoringEngine, TickInput, add_return, score_tick,
}
use algo_trading_platform.Scoring.Gate.{DecisionGate, new_gate, base_state, advance, update}
use algo_trading_platform.Scoring.Severity.{IsGuarded}
use algo_trading_platform.Scoring.Tick.{score_tick-IsGuarded}
use algo_trading_platform.Detectors.{new_absolute, new_mad, new_volatility}
use algo_trading_platform.Detectors.Drift.{new_cusum, new_ewma}
use algo_trading_platform.Scoring.Calm.{advance_all, halt_holds, calm_ends}

abbrev gate_in_halt : DecisionGate ℤ
gate_in_halt = record new_gate { state = halt; streak_required = 3 }

-- The return of the time 0 has left the window of 1000 ms.
return_expires :
    (add_return
      (λ x. x)
      1500
      (pos 2_000_000)
      (record {
        window_ms = 1000;
        rets = (0, pos 1_000_000) ∷ (600, pos 3_000_000) ∷ [];
        sum_sq = pos 10_000_000;
      })).1
    ≡ pos 13_000_000
unfolding add_return
return_expires = refl

low_trust_halts : (update (pos 400_000) (pos 700_000) 1 (new_gate {F = ℤ})).state ≡ halt
unfolding update base_state advance
low_trust_halts = refl

halted_recovers :
    (advance_all (normal ∷ normal ∷ degraded ∷ normal ∷ normal ∷ normal ∷ []) gate_in_halt).state
    ≡ normal
unfolding advance
halted_recovers = refl

halt_holds_example :
    (advance_all (normal ∷ normal ∷ degraded ∷ normal ∷ normal ∷ []) gate_in_halt).state ≡ halt
halt_holds_example =
    halt_holds (normal ∷ normal ∷ degraded ∷ normal ∷ normal ∷ []) gate_in_halt refl
      (omega arith, (omega arith, (omega arith, (omega arith, (omega arith, tt)))))

abbrev recovering : DecisionGate ℤ
recovering = record new_gate {
  state = degraded;
  upgrade_target = some conservative;
  upgrade_streak = 4;
}

calm_ends_example : (advance_all (replicate 10 normal) recovering).state ≡ normal
calm_ends_example = calm_ends 10 recovering (omega arith) (omega arith)

abbrev engine : Layer2ScoringEngine ℕ ℤ
engine = record {
  rv = record { window_ms = 1_800_000; rets = []; sum_sq = pos 0 };
  hmm = 0;
  prev_price = some (pos 100_000_000);
  absolute = new_absolute;
  mad = new_mad;
  vol_ratio = new_volatility;
  cusum = new_cusum;
  ewma = new_ewma;
  gate = gate_in_halt;
  vol_buf = [];
  vol_sum = pos 0;
  memory_window = 30;
  score_memory = [];
}

abbrev tick : TickInput ℤ
tick = record {
  ts_ms = 1000;
  mid_price = pos 101_000_000;
  trust_score = pos 900_000;
  volume_24h = some (pos 5_000_000);
  spread = none;
}

-- A regime model that counts the ticks and always names the high volatility.
abbrev counting : ℤ → ℕ → ℕ × HmmRegime ℤ
counting rv n = (n + 1, record { regime = 1; posterior = pos 0 ∷ pos 1_000_000 ∷ [] })

abbrev sum_of : List ℤ → ℤ
sum_of [] = pos 0
sum_of (x ∷ xs) = fixed_float.add x (sum_of xs)

score_tick-IsGuarded_example :
    let r = score_tick counting sum_of sum_of sum_of sum_of (λ x. x) (λ x. x) tick engine in
    IsGuarded
      (base_state (pos 900_000) r.1.anomaly_score r.1.regime.regime gate_in_halt)
      gate_in_halt
      r.0.gate
    × (r.1.system_state ≡ r.0.gate.state)
score_tick-IsGuarded_example =
    score_tick-IsGuarded counting sum_of sum_of sum_of sum_of (λ x. x) (λ x. x) tick engine
      (omega arith) (omega arith)
