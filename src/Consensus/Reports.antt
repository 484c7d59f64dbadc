-- ===== src/Consensus/Reports.antt =====
-- The sources that `process_aligned` in services/layer1_consensus/engine.py reports.
use mathlib.Core.Path.{subst, sym}
use algo_trading_platform.Base.{
  ℕ, ◌≡◌, refl, false, not, ◌&&◌, ◌||◌, Option, List, [], ◌∷◌, ◌++◌, map, arith, String, if_intro,
}
use algo_trading_platform.Base.Dict.{Dict, insert, lookup-insert_self, string_eq}
use algo_trading_platform.Base.Keys.{has, IsDict, has-erase}
use algo_trading_platform.Base.Outcome.{Outcome, returned, raised, IfReturned}
use algo_trading_platform.Float.{Float}
use algo_trading_platform.Consensus.{
  ExchangeId, binance, bybit, coinbase, kraken, okx, exchange_eq, NormalizedTick, ConsensusConfig,
  mid, is_divergent,
}
use algo_trading_platform.Consensus.Engine.{
  ConsensusEngine, ConsensusOutput, SymbolState, Round, is_in, keep, alphabetical, sorted_set, hold,
  release, evaluate_ticks, recheck_ticks, part_ticks, median_of, new_round, first_pass, second_pass,
  settle_round, process_aligned, report, output, consensus_of, state_of, kept,
}
use algo_trading_platform.Consensus.Sources.{
  IsSeparated, settle_round-IsSeparated, part_ticks-IsSeparated, evaluate_ticks-IsSeparated,
  hold-IsSeparated, release-IsSeparated,
}

is_in-append :
    (ex x : ExchangeId) (xs : List ExchangeId)
    → is_in ex (xs ++ x ∷ []) ≡ (is_in ex xs || exchange_eq.beq x ex)
is_in-append ex x [] = ground arith
is_in-append ex x (y ∷ ys) = ground (arith, is_in-append ex x ys)

is_in-keep :
    (ex : ExchangeId) (xs es : List ExchangeId)
    → is_in ex (keep xs es) ≡ (is_in ex es && is_in ex xs)
is_in-keep ex xs [] = refl
is_in-keep ex xs (e ∷ es) = ground (arith, exchange_eq.beq_iff e ex, is_in-keep ex xs es)

is_in-sorted_set : (ex : ExchangeId) (xs : List ExchangeId) → is_in ex (sorted_set xs) ≡ is_in ex xs
is_in-sorted_set binance xs = is_in-keep binance xs alphabetical
is_in-sorted_set bybit xs = is_in-keep bybit xs alphabetical
is_in-sorted_set coinbase xs = is_in-keep coinbase xs alphabetical
is_in-sorted_set kraken xs = is_in-keep kraken xs alphabetical
is_in-sorted_set okx xs = is_in-keep okx xs alphabetical

module _ {F : Type 0} where
  is_in-keys :
      (ex : ExchangeId) (d : Dict ExchangeId (NormalizedTick F))
      → is_in ex (map (λ p. p.0) d) ≡ has ex d
  is_in-keys ex [] = refl
  is_in-keys ex ((x, t) ∷ d) = ground (arith, is_in-keys ex d)

  -- Every quarantined exchange is reported, or stands among the ticks that are still to be checked.
  abbrev IsReported : List (ExchangeId × NormalizedTick F) → Round F → Type 0
  IsReported ticks r =
      (ex : ExchangeId)
      → has ex r.quarantined && not (is_in ex r.divergent) && not (has ex ticks) ≡ false

  hold-IsReported :
      (config : ConsensusConfig F) (ex : ExchangeId) (t : NormalizedTick F)
      (ticks : List (ExchangeId × NormalizedTick F)) (r : Round F)
      → IsReported ((ex, t) ∷ ticks) r
      → IsReported ticks (hold config ex r)
  hold-IsReported config ex t ticks r h =
      if_intro (IsReported ticks) (is_in ex r.streak_incremented)
        (λ _ k. ground (arith, h k, is_in-append k ex r.divergent))
        (λ _ k. ground (arith, h k, is_in-append k ex r.divergent))

  release-IsReported :
      (ex : ExchangeId) (t : NormalizedTick F) (ticks : List (ExchangeId × NormalizedTick F))
      (r : Round F)
      → IsDict r.quarantined
      → IsReported ((ex, t) ∷ ticks) r
      → IsReported ticks (release ex t r)
  release-IsReported ex t ticks r s h k = ground (arith, h k, has-erase ex k r.quarantined s)

module _ {F : Type 0} ⦃fl : Float F⦄ (config : ConsensusConfig F) where
  recheck_ticks-IsReported :
      (median : F) (ticks : List (ExchangeId × NormalizedTick F)) (r : Round F)
      → IsSeparated r
      → IsReported ticks r
      → IsReported [] (recheck_ticks config median ticks r)
  recheck_ticks-IsReported median [] r s h = h
  recheck_ticks-IsReported median ((ex, t) ∷ ticks) r s h =
      let divergent = is_divergent (mid t) median config.divergence_tolerance in
      recheck_ticks-IsReported median ticks _
        (if_intro IsSeparated divergent (λ _. hold-IsSeparated config ex r s)
          (λ _. release-IsSeparated ex t r s))
        (if_intro (IsReported ticks) divergent (λ _. hold-IsReported config ex t ticks r h)
          (λ _. release-IsReported ex t ticks r (s.quarantines) h))

  second_pass-IsReported :
      (r : Round F) (m : Outcome F)
      → IsSeparated r
      → IfReturned (λ _. IsReported [] (second_pass config r m).1) (second_pass config r m).0
  second_pass-IsReported r (returned median) s =
      recheck_ticks-IsReported median r.quarantined r s (λ k. ground arith)
  second_pass-IsReported r (raised err) s = tt

  first_pass-IsReported :
      (r : Round F) (m : Outcome F)
      → IsSeparated r
      → IfReturned (λ _. IsReported [] (first_pass config r m).1) (first_pass config r m).0
  first_pass-IsReported r (returned median) s =
      let r' = evaluate_ticks config median r.active_ticks r in
      second_pass-IsReported r' (median_of r')
        (evaluate_ticks-IsSeparated config median r.active_ticks r s)
  first_pass-IsReported r (raised err) s = tt

  settle_round-IsReported :
      (ticks : List (ExchangeId × NormalizedTick F)) (s : SymbolState F)
      → IsDict s.quarantined
      → IfReturned
          (λ _. IsReported [] (settle_round config ticks s).1)
          (settle_round config ticks s).0
  unfolding settle_round
  settle_round-IsReported ticks s h =
      let r = part_ticks ticks (new_round s) in
      first_pass-IsReported r (median_of r) (
        part_ticks-IsSeparated ticks (new_round s)
          (record { actives = tt; quarantines = h; apart = λ k. refl }))

module _ {F : Type 0} where
  -- The sources of an output: the quarantined ones are those of the round, and each is reported divergent.
  abbrev pub IsCandid : ConsensusOutput F → Dict ExchangeId (NormalizedTick F) → Type 0
  IsCandid out quarantined =
      (ex : ExchangeId)
      → (is_in ex out.quarantined_sources ≡ has ex quarantined)
        × (is_in ex out.quarantined_sources && not (is_in ex out.divergent_sources) ≡ false)

  output-IsCandid :
      (symbol : String) (now_ms : ℕ) (r : Round F) (c : Outcome (Option F × List ExchangeId))
      → IsReported [] r
      → IfReturned (λ out. IsCandid out r.quarantined) (output symbol now_ms r c)
  output-IsCandid symbol now_ms r (returned (price, used)) h = λ ex. ground (
    arith,
    h ex,
    is_in-sorted_set ex r.divergent,
    is_in-sorted_set ex (map (λ p. p.0) r.quarantined),
    is_in-keys ex r.quarantined,
  )
  output-IsCandid symbol now_ms r (raised err) h = tt

module _ {F : Type 0} ⦃fl : Float F⦄ (sum : List F → F) where
  report-IsCandid :
      (config : ConsensusConfig F) (symbol : String) (now_ms : ℕ) (r : Round F)
      (settled : Outcome {0} Unit)
      → IfReturned (λ _. IsReported [] r) settled
      → IfReturned (λ out. IsCandid out r.quarantined) (report sum config symbol now_ms r settled)
  report-IsCandid config symbol now_ms r (returned done) h =
      output-IsCandid symbol now_ms r (consensus_of sum config (map (λ p. p.1) r.active_ticks)) h
  report-IsCandid config symbol now_ms r (raised err) h = tt

  state_of-insert :
      (symbol : String) (s : SymbolState F) (e : ConsensusEngine F)
      → state_of symbol (record e { state = insert symbol s e.state }) ≡ s
  state_of-insert symbol s e = ground (arith, lookup-insert_self symbol s e.state)

  -- A call of `process_aligned` on a state in which no exchange is quarantined twice leaves such a state,
  -- and when it returns, its quarantined sources are those that the engine now keeps in quarantine for the
  -- symbol, and each of them is among the divergent sources.
  pub process_aligned-IsCandid :
      (symbol : String) (now_ms : ℕ) (ticks : Dict ExchangeId (NormalizedTick F))
      (e : ConsensusEngine F)
      → IsDict (state_of symbol e).quarantined
      → let r = process_aligned sum symbol now_ms ticks e in
        IsDict (state_of symbol r.1).quarantined
        × IfReturned (λ out. IsCandid out (state_of symbol r.1).quarantined) r.0
  unfolding process_aligned
  process_aligned-IsCandid symbol now_ms ticks e h =
      let p = settle_round e.config ticks (state_of symbol e) in
      subst
        (λ s.
          IsDict s.quarantined
          × IfReturned (λ out. IsCandid out s.quarantined)
              (report sum e.config symbol now_ms p.1 p.0))
        (sym (state_of-insert symbol (kept p.1) e))
        (
          (settle_round-IsSeparated e.config ticks (state_of symbol e) h).quarantines,
          report-IsCandid e.config symbol now_ms p.1 p.0
              (settle_round-IsReported e.config ticks (state_of symbol e) h),
        )
