-- ===== src/Scoring.antt =====
-- services/layer2_anomaly/engine.py: the decision gate and the scoring of a tick. The regime model is a
-- pickled one of another library: its answer to a volatility is a parameter with a state of its own, as are the
-- functions of the mathematics and statistics libraries.
pub mod Gate
pub mod Severity
pub mod Calm
pub mod Tick
mod Tests
use algo_trading_platform.Base.{
  ℕ, ◌+◌, ◌||◌, ◌==◌, Option, none, some, List, [], ◌∷◌, ◌++◌, length, ltb, if◌then◌else◌,
}
use algo_trading_platform.Float.{Float, nought, one, minimum, maximum}
use algo_trading_platform.Schema.{SystemState}
use algo_trading_platform.Fusion.{DetectorResult, Detector, FusionReason, FusionResult, fuse}
use algo_trading_platform.Detectors.{
  pushed, AbsoluteThresholdDetector, MadDetector, VolatilityRatioDetector, CusumDetector,
  EwmaDetector, update_absolute, update_mad, update_volatility, vol_sum_without_oldest,
}
use algo_trading_platform.Detectors.Drift.{update_cusum, update_ewma}
use algo_trading_platform.Scoring.Gate.{DecisionGate, update}

-- `RollingRV30m`
pub record RollingRv (F : Type 0) : Type 0 where
  pub window_ms : ℕ
  pub rets : List (ℕ × F)
  pub sum_sq : F

-- `HMMRegime`
pub record HmmRegime (F : Type 0) : Type 0 where
  pub regime : ℕ
  pub posterior : List F

pub record Layer2Scores (F : Type 0) : Type 0 where
  pub anomaly_score : F
  pub system_state : SystemState
  pub regime : HmmRegime F
  pub fusion : FusionResult F
  pub feature_return : F
  pub feature_rv30m : F
  pub feature_spread_bps : F
  pub feature_volume_ratio : F
  pub feature_price_jump_bps : F

-- `Layer2ScoringEngine`, with the state `H` of the regime model.
pub record Layer2ScoringEngine (H F : Type 0) : Type 0 where
  pub rv : RollingRv F
  pub hmm : H
  pub prev_price : Option F
  pub absolute : AbsoluteThresholdDetector F
  pub mad : MadDetector F
  pub vol_ratio : VolatilityRatioDetector F
  pub cusum : CusumDetector F
  pub ewma : EwmaDetector F
  pub gate : DecisionGate F
  pub vol_buf : List F
  pub vol_sum : F
  pub memory_window : ℕ
  pub score_memory : List F

-- The arguments of `score_tick`
pub record TickInput (F : Type 0) : Type 0 where
  pub ts_ms : ℕ
  pub mid_price : F
  pub trust_score : F
  pub volume_24h : Option F
  pub spread : Option F

-- The length of the engine's window of volumes
abbrev pub volume_window : ℕ
volume_window = 300

-- `x or default`
abbrev pub or_else {ℓ} : {A : Type ℓ} → A → Option A → A
or_else x none = x
or_else x (some y) = y

module _ {F : Type 0} ⦃fl : Float F⦄ where
  open fl use {decimal, add, sub, mul, div, lt, le}

  -- `max(xs)` of a list that starts with `x`
  abbrev pub top_score : F → List F → F
  top_score x [] = x
  top_score x (y ∷ ys) = top_score (maximum x y) ys

  abbrev pub final_score : F → List F → F
  final_score fallback [] = fallback
  final_score fallback (x ∷ xs) = top_score x xs

  -- The returns older than the cutoff, taken off the front and off the sum; `ts` is at the window or later.
  abbrev pub expire : ℕ → ℕ → List (ℕ × F) → F → List (ℕ × F) × F
  expire ts window [] total = ([], total)
  expire ts window ((t, r) ∷ rets) total =
      let rest = expire ts window rets (sub total (mul r r)) in
      if ltb (t + window) ts then rest else ((t, r) ∷ rets, total)

  unfoldable pub log_return : (log : F → F) → F → F → F
  log_return log before now =
      if le before nought || le now nought then nought else log (div now before)

  -- `RollingRV30m.add`
  unfoldable pub add_return : (sqrt : F → F) → ℕ → F → RollingRv F → RollingRv F × F
  add_return sqrt ts ret rv =
      let (rets, total) =
        expire ts rv.window_ms (rv.rets ++ (ts, ret) ∷ []) (add rv.sum_sq (mul ret ret)) in
      (record rv { rets = rets; sum_sq = total }, sqrt (maximum nought total))

  -- `_vol_avg`
  abbrev pub engine_vol_avg : {H : Type 0} → Layer2ScoringEngine H F → F
  engine_vol_avg e =
      if length e.vol_buf == 0 then one else div e.vol_sum (decimal (length e.vol_buf) 0)

  -- Prices and volumes of a tick as features, with the price before it
  abbrev pub price_jump : F → F → F
  price_jump before now =
      if lt nought before then mul (div (sub now before) before) (decimal 10_000 0) else nought

  abbrev pub spread_of : TickInput F → F
  spread_of t =
      if lt nought t.mid_price
      then mul (div (or_else nought t.spread) t.mid_price) (decimal 10_000 0)
      else nought

  abbrev pub volume_ratio : F → F → F
  volume_ratio volume average = if lt nought average then div volume average else one

  module _ {H : Type 0} (hmm : F → H → H × HmmRegime F) (mean stdev median sum : List F → F)
      (sqrt log : F → F) where
    unfoldable pub score_tick :
        TickInput F → Layer2ScoringEngine H F → Layer2ScoringEngine H F × Layer2Scores F
    score_tick t e =
        let before : F = or_else t.mid_price e.prev_price in
        let ret : F = log_return log before t.mid_price in
        let jump : F = price_jump before t.mid_price in
        let volume : F = or_else nought t.volume_24h in
        let spread_bps : F = spread_of t in
        let (rv, rv_30m) = add_return sqrt t.ts_ms ret e.rv in
        let (hmm_state, regime) = hmm rv_30m e.hmm in
        let (absolute, absolute_result) = update_absolute jump spread_bps volume e.absolute in
        let (mad, mad_result) = update_mad median ret regime.regime e.mad in
        let (vol_ratio, vol_result) = update_volatility sqrt sum ret e.vol_ratio in
        let (cusum, cusum_result) = update_cusum mean stdev jump spread_bps volume e.cusum in
        let (ewma, ewma_result) = update_ewma mean stdev sqrt jump spread_bps e.ewma in
        let fusion =
          fuse
            (λ d. elim d [
              | Detector.absolute ↦ absolute_result
              | Detector.mad ↦ mad_result
              | Detector.vol_ratio ↦ vol_result
              | Detector.cusum ↦ cusum_result
              | Detector.ewma ↦ ewma_result
            ])
            sum in
        let memory = pushed e.memory_window fusion.anomaly_score e.score_memory in
        let score : F = final_score fusion.anomaly_score memory in
        let gate = update t.trust_score score regime.regime e.gate in
        (
          record e {
            rv = rv;
            hmm = hmm_state;
            prev_price = some t.mid_price;
            absolute = absolute;
            mad = mad;
            vol_ratio = vol_ratio;
            cusum = cusum;
            ewma = ewma;
            gate = gate;
            vol_buf = pushed volume_window volume e.vol_buf;
            vol_sum = add (vol_sum_without_oldest volume_window e.vol_buf e.vol_sum) volume;
            score_memory = memory;
          },
          record {
            anomaly_score = score;
            system_state = gate.state;
            regime = regime;
            fusion = fusion;
            feature_return = ret;
            feature_rv30m = rv_30m;
            feature_spread_bps = spread_bps;
            feature_volume_ratio = volume_ratio volume (engine_vol_avg e);
            feature_price_jump_bps = jump;
          },
        )
