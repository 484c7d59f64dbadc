-- ===== src/Consensus/Engine.antt =====
-- services/layer1_consensus/engine.py: `ConsensusEngine`. An audit event is not modelled.
use algo_trading_platform.Base.{
  ℕ, ◌+◌, ◌==◌, leb, Bool, false, ◌||◌, Option, none, some, is_some, List, [], ◌∷◌, ◌++◌, map,
  length, String, if◌then◌else◌,
}
use algo_trading_platform.Base.Dict.{Dict, lookup, insert, erase, string_eq}
use algo_trading_platform.Base.Outcome.{Outcome, returned, raised}
use algo_trading_platform.Float.{Float}
use algo_trading_platform.Consensus.{
  ExchangeId, binance, bybit, coinbase, kraken, okx, exchange_eq, NormalizedTick, ConsensusConfig,
  mid, unweighted_median, volume_weighted_median, is_divergent,
}

pub record SymbolState (F : Type 0) : Type 0 where
  pub quarantined : Dict ExchangeId (NormalizedTick F)
  pub divergence_streak : Dict ExchangeId ℕ

pub record ConsensusEngine (F : Type 0) : Type 0 where
  pub config : ConsensusConfig F
  pub state : Dict String (SymbolState F)

pub record ConsensusOutput (F : Type 0) : Type 0 where
  pub symbol : String
  pub timestamp_ms : ℕ
  pub consensus_mid : Option F
  pub used_sources : List ExchangeId
  pub divergent_sources : List ExchangeId
  pub quarantined_sources : List ExchangeId
  pub escalated_sources : List ExchangeId

-- The variables of one call of `process_aligned`.
pub record Round (F : Type 0) : Type 0 where
  pub active_ticks : Dict ExchangeId (NormalizedTick F)
  pub quarantined : Dict ExchangeId (NormalizedTick F)
  pub divergence_streak : Dict ExchangeId ℕ
  pub divergent : List ExchangeId
  pub escalated : List ExchangeId
  pub streak_incremented : List ExchangeId

-- `ex in` a list
abbrev pub is_in : ExchangeId → List ExchangeId → Bool
is_in ex [] = false
is_in ex (x ∷ xs) = exchange_eq.beq x ex || is_in ex xs

abbrev pub keep : List ExchangeId → List ExchangeId → List ExchangeId
keep xs [] = []
keep xs (e ∷ es) = let rest = keep xs es in if is_in e xs then e ∷ rest else rest

abbrev pub alphabetical : List ExchangeId
alphabetical = binance ∷ bybit ∷ coinbase ∷ kraken ∷ okx ∷ []

-- `sorted(set(xs))`: the names in alphabetical order.
abbrev pub sorted_set : List ExchangeId → List ExchangeId
sorted_set xs = keep xs alphabetical

-- `divergence_streak[ex]` of a defaultdict
abbrev pub streak_of : ExchangeId → Dict ExchangeId ℕ → ℕ
streak_of ex d = elim (lookup ex d) [ none ↦ 0 | some n ↦ n ]

module _ {F : Type 0} where
  -- `divergence_streak[ex] += 1` and the escalation.
  abbrev pub advance_streak : ConsensusConfig F → ExchangeId → Round F → Round F
  advance_streak config ex r =
      let streak = streak_of ex r.divergence_streak + 1 in
      record r {
        divergence_streak = insert ex streak r.divergence_streak;
        escalated = if streak == config.escalate_after then r.escalated ++ ex ∷ [] else r.escalated;
      }

  -- The loop that parts the ticks into active and quarantined ones.
  abbrev pub part_ticks : List (ExchangeId × NormalizedTick F) → Round F → Round F
  part_ticks [] r = r
  part_ticks ((ex, t) ∷ ticks) r = part_ticks ticks (
      if is_some (lookup ex r.quarantined)
      then record r { quarantined = insert ex t r.quarantined }
      else record r { active_ticks = insert ex t r.active_ticks })

  -- What becomes of a divergent new tick.
  abbrev pub quarantine : ConsensusConfig F → ExchangeId → NormalizedTick F → Round F → Round F
  quarantine config ex t r = advance_streak config ex (record r {
    divergent = r.divergent ++ ex ∷ [];
    quarantined = insert ex t r.quarantined;
    streak_incremented = ex ∷ r.streak_incremented;
    active_ticks = erase ex r.active_ticks;
  })

  -- What becomes of a quarantined tick that is still divergent.
  abbrev pub hold : ConsensusConfig F → ExchangeId → Round F → Round F
  hold config ex r =
      let held : Round F = record r { divergent = r.divergent ++ ex ∷ [] } in
      if is_in ex r.streak_incremented then held else advance_streak config ex held

  abbrev pub release : ExchangeId → NormalizedTick F → Round F → Round F
  release ex t r = record r {
    quarantined = erase ex r.quarantined;
    divergence_streak = insert ex 0 r.divergence_streak;
    active_ticks = insert ex t r.active_ticks;
  }

module _ {F : Type 0} where
  abbrev pub kept : Round F → SymbolState F
  kept r = record { quarantined = r.quarantined; divergence_streak = r.divergence_streak }

  abbrev pub new_round : SymbolState F → Round F
  new_round s = record {
    active_ticks = [];
    quarantined = s.quarantined;
    divergence_streak = s.divergence_streak;
    divergent = [];
    escalated = [];
    streak_incremented = [];
  }

  abbrev pub output :
      String → ℕ → Round F → Outcome (Option F × List ExchangeId) → Outcome (ConsensusOutput F)
  output symbol now_ms r (returned (price, used)) = returned (record {
    symbol = symbol;
    timestamp_ms = now_ms;
    consensus_mid = price;
    used_sources = used;
    divergent_sources = sorted_set r.divergent;
    quarantined_sources = sorted_set (map (λ p. p.0) r.quarantined);
    escalated_sources = sorted_set r.escalated;
  })
  output symbol now_ms r (raised err) = raised err

  -- The state of a symbol, which `setdefault` makes.
  abbrev pub state_of : String → ConsensusEngine F → SymbolState F
  state_of symbol e = elim (lookup symbol e.state) [
    | none ↦ record { quarantined = []; divergence_streak = [] }
    | some s ↦ s
  ]

module _ {F : Type 0} ⦃fl : Float F⦄ where
  -- `[t.mid for t in d.values()]`
  abbrev pub mids : Dict ExchangeId (NormalizedTick F) → List F
  mids d = map (λ p. mid p.1) d

  -- 1) The new ticks against the raw median.
  abbrev pub evaluate_ticks :
      ConsensusConfig F → F → List (ExchangeId × NormalizedTick F) → Round F → Round F
  evaluate_ticks config raw_median [] r = r
  evaluate_ticks config raw_median ((ex, t) ∷ ticks) r = evaluate_ticks config raw_median ticks (
      if is_divergent (mid t) raw_median config.divergence_tolerance
      then quarantine config ex t r
      else r)

  -- 2) The quarantined ticks against the median of the others.
  abbrev pub recheck_ticks :
      ConsensusConfig F → F → List (ExchangeId × NormalizedTick F) → Round F → Round F
  recheck_ticks config recheck_median [] r = r
  recheck_ticks config recheck_median ((ex, qt) ∷ ticks) r =
      recheck_ticks config recheck_median ticks (
        if is_divergent (mid qt) recheck_median config.divergence_tolerance
        then hold config ex r
        else release ex qt r)

  -- The median of the active ticks, or of the quarantined ones where no tick is active.
  abbrev pub median_of : Round F → Outcome F
  median_of r = elim r.active_ticks [
    | [] ↦ unweighted_median (mids r.quarantined)
    | _ ↦ unweighted_median (mids r.active_ticks)
  ]

  -- The two passes over the ticks; an empty median raises a ValueError.
  abbrev pub second_pass : ConsensusConfig F → Round F → Outcome F → Outcome {0} Unit × Round F
  second_pass config r (returned median) =
      let r' = recheck_ticks config median r.quarantined r in (returned tt, r')
  second_pass config r (raised err) = (raised err, r)

  abbrev pub first_pass : ConsensusConfig F → Round F → Outcome F → Outcome {0} Unit × Round F
  first_pass config r (returned median) =
      let r' = evaluate_ticks config median r.active_ticks r in second_pass config r' (median_of r')
  first_pass config r (raised err) = (raised err, r)

  unfoldable pub settle_round :
      ConsensusConfig F
      → List (ExchangeId × NormalizedTick F)
      → SymbolState F
      → Outcome {0} Unit × Round F
  settle_round config ticks s =
      let r = part_ticks ticks (new_round s) in first_pass config r (median_of r)

  module _ (sum : List F → F) where
    -- 3) The consensus price and its sources, for the usable ticks.
    unfoldable pub consensus_of :
        ConsensusConfig F → List (NormalizedTick F) → Outcome (Option F × List ExchangeId)
    consensus_of config usable =
        if leb config.min_sources_for_consensus (length usable)
        then elim (volume_weighted_median sum usable) [
          | returned m ↦ returned (some m, sorted_set (map (λ t. t.exchange_id) usable))
          | raised err ↦ raised err
        ]
        else elim usable [
          | t ∷ [] ↦ returned (some (mid t), t.exchange_id ∷ [])
          | _ ↦ returned (none, [])
        ]

    abbrev pub report :
        ConsensusConfig F → String → ℕ → Round F → Outcome {0} Unit → Outcome (ConsensusOutput F)
    report config symbol now_ms r (returned done) =
        output symbol now_ms r (consensus_of config (map (λ p. p.1) r.active_ticks))
    report config symbol now_ms r (raised err) = raised err

    unfoldable pub process_aligned :
        String
        → ℕ
        → Dict ExchangeId (NormalizedTick F)
        → ConsensusEngine F
        → Outcome (ConsensusOutput F) × ConsensusEngine F
    process_aligned symbol now_ms ticks e =
        let p = settle_round e.config ticks (state_of symbol e) in
        (
          report e.config symbol now_ms p.1 p.0,
          record e { state = insert symbol (kept p.1) e.state },
        )
