-- ===== src/Consensus/Sources.antt =====
-- The sources that a call of `process_aligned` in services/layer1_consensus/engine.py uses, quarantines and
-- reports.
use algo_trading_platform.Base.{
  ◌≡◌, refl, false, ◌&&◌, List, [], ◌∷◌, arith, if_intro, if◌then◌else◌,
}
use algo_trading_platform.Base.Dict.{insert}
use algo_trading_platform.Base.Keys.{
  has, IsDict, has-insert, has-erase, insert-IsDict, erase-IsDict,
}
use algo_trading_platform.Base.Outcome.{Outcome, returned, raised}
use algo_trading_platform.Float.{Float}
use algo_trading_platform.Consensus.{
  ExchangeId, exchange_eq, NormalizedTick, ConsensusConfig, mid, is_divergent,
}
use algo_trading_platform.Consensus.Engine.{
  SymbolState, Round, is_in, part_ticks, quarantine, hold, release, evaluate_ticks, recheck_ticks,
  new_round, first_pass, second_pass, settle_round,
}

module _ {F : Type 0} where
  -- No exchange stands twice in a dict, and none is both active and quarantined.
  pub record IsSeparated (r : Round F) : Type 0 where
    pub actives : IsDict r.active_ticks
    pub quarantines : IsDict r.quarantined
    pub apart : (ex : ExchangeId) → has ex r.active_ticks && has ex r.quarantined ≡ false

  part_tick-IsSeparated :
      (ex : ExchangeId) (t : NormalizedTick F) (r : Round F)
      → IsSeparated r
      → IsSeparated (
          if has ex r.quarantined
          then record r { quarantined = insert ex t r.quarantined }
          else record r { active_ticks = insert ex t r.active_ticks })
  part_tick-IsSeparated ex t r s =
      if_intro IsSeparated (has ex r.quarantined)
        (λ old. record {
          actives = s.actives;
          quarantines = insert-IsDict ex t r.quarantined s.quarantines;
          apart = λ k. ground (
            arith,
            old,
            s.apart k,
            s.apart ex,
            exchange_eq.beq_iff ex k,
            has-insert ex k t r.quarantined,
          );
        })
        (λ new. record {
          actives = insert-IsDict ex t r.active_ticks s.actives;
          quarantines = s.quarantines;
          apart = λ k.
              ground
                (arith, new, s.apart k, exchange_eq.beq_iff ex k, has-insert ex k t r.active_ticks);
        })

  pub part_ticks-IsSeparated :
      (ticks : List (ExchangeId × NormalizedTick F)) (r : Round F)
      → IsSeparated r
      → IsSeparated (part_ticks ticks r)
  part_ticks-IsSeparated [] r s = s
  part_ticks-IsSeparated ((ex, t) ∷ ticks) r s =
      part_ticks-IsSeparated ticks _ (part_tick-IsSeparated ex t r s)

  quarantine-IsSeparated :
      (config : ConsensusConfig F) (ex : ExchangeId) (t : NormalizedTick F) (r : Round F)
      → IsSeparated r
      → IsSeparated (quarantine config ex t r)
  quarantine-IsSeparated config ex t r s = record {
    actives = erase-IsDict ex r.active_ticks s.actives;
    quarantines = insert-IsDict ex t r.quarantined s.quarantines;
    apart = λ k. ground (
      arith,
      s.apart k,
      has-erase ex k r.active_ticks s.actives,
      has-insert ex k t r.quarantined,
    );
  }

  pub release-IsSeparated :
      (ex : ExchangeId) (t : NormalizedTick F) (r : Round F)
      → IsSeparated r
      → IsSeparated (release ex t r)
  release-IsSeparated ex t r s = record {
    actives = insert-IsDict ex t r.active_ticks s.actives;
    quarantines = erase-IsDict ex r.quarantined s.quarantines;
    apart = λ k. ground (
      arith,
      s.apart k,
      has-erase ex k r.quarantined s.quarantines,
      has-insert ex k t r.active_ticks,
    );
  }

  pub hold-IsSeparated :
      (config : ConsensusConfig F) (ex : ExchangeId) (r : Round F)
      → IsSeparated r
      → IsSeparated (hold config ex r)
  hold-IsSeparated config ex r s =
      if_intro IsSeparated (is_in ex r.streak_incremented)
        (λ _. record { actives = s.actives; quarantines = s.quarantines; apart = s.apart })
        (λ _. record { actives = s.actives; quarantines = s.quarantines; apart = s.apart })

module _ {F : Type 0} ⦃fl : Float F⦄ (config : ConsensusConfig F) (median : F) where
  pub evaluate_ticks-IsSeparated :
      (ticks : List (ExchangeId × NormalizedTick F)) (r : Round F)
      → IsSeparated r
      → IsSeparated (evaluate_ticks config median ticks r)
  evaluate_ticks-IsSeparated [] r s = s
  evaluate_ticks-IsSeparated ((ex, t) ∷ ticks) r s = evaluate_ticks-IsSeparated ticks _ (
      if_intro IsSeparated (is_divergent (mid t) median config.divergence_tolerance)
        (λ _. quarantine-IsSeparated config ex t r s) (λ _. s))

  recheck_ticks-IsSeparated :
      (ticks : List (ExchangeId × NormalizedTick F)) (r : Round F)
      → IsSeparated r
      → IsSeparated (recheck_ticks config median ticks r)
  recheck_ticks-IsSeparated [] r s = s
  recheck_ticks-IsSeparated ((ex, t) ∷ ticks) r s = recheck_ticks-IsSeparated ticks _ (
      if_intro IsSeparated (is_divergent (mid t) median config.divergence_tolerance)
        (λ _. hold-IsSeparated config ex r s) (λ _. release-IsSeparated ex t r s))

module _ {F : Type 0} ⦃fl : Float F⦄ (config : ConsensusConfig F) where
  second_pass-IsSeparated :
      (r : Round F) (m : Outcome F) → IsSeparated r → IsSeparated (second_pass config r m).1
  second_pass-IsSeparated r (returned median) s =
      recheck_ticks-IsSeparated config median r.quarantined r s
  second_pass-IsSeparated r (raised err) s = s

  first_pass-IsSeparated :
      (r : Round F) (m : Outcome F) → IsSeparated r → IsSeparated (first_pass config r m).1
  first_pass-IsSeparated r (returned median) s =
      second_pass-IsSeparated _ _ (evaluate_ticks-IsSeparated config median r.active_ticks r s)
  first_pass-IsSeparated r (raised err) s = s

  -- Whatever ticks come, a call leaves no exchange twice among the active or the quarantined ticks and
  -- none in both, so that no quarantined tick enters the consensus, if no exchange was quarantined twice
  -- before.
  pub settle_round-IsSeparated :
      (ticks : List (ExchangeId × NormalizedTick F)) (s : SymbolState F)
      → IsDict s.quarantined
      → IsSeparated (settle_round config ticks s).1
  unfolding settle_round
  settle_round-IsSeparated ticks s h = first_pass-IsSeparated _ _ (
      part_ticks-IsSeparated ticks (new_round s)
        (record { actives = tt; quarantines = h; apart = λ k. refl }))
