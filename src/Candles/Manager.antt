-- ===== src/Candles/Manager.antt =====
-- `CandleAggregationManager` of services/layer3_strategy/candles.py: the aggregators of one symbol in the order
-- of their timeframes.
use algo_trading_platform.Base.{◌≡◌, refl, true, List, [], ◌∷◌, ◌++◌, All, map, String}
use algo_trading_platform.Base.Dict.{string_eq}
use algo_trading_platform.Base.Outcome.{Outcome, returned, raised, ◌>>=◌}
use algo_trading_platform.Float.{Float}
use algo_trading_platform.Candles.{
  ScoredTick, Candle, CandleAggregator, new_aggregator, ingest, process, flush,
}

abbrev pub Manager : Type 0 → Type 0
Manager F = List (CandleAggregator F)

module _ {F : Type 0} ⦃fl : Float F⦄ where
  -- `__init__` for these timeframes
  unfoldable pub new_manager : String → List String → Outcome (Manager F)
  new_manager symbol [] = returned []
  new_manager symbol (t ∷ ts) =
      new_aggregator symbol t >>= λ a. new_manager symbol ts >>= λ rest. returned (a ∷ rest)

  -- `__init__` with the default timeframes
  abbrev pub default_manager : String → Outcome (Manager F)
  default_manager symbol = new_manager symbol ("5m" ∷ "1h" ∷ [])

  module _ (mean sum : List F → F) where
    -- What an aggregator's call leaves, put before what the rest leave; where it raises the rest are not called.
    abbrev pub before_rest :
        CandleAggregator F
        → Outcome (CandleAggregator F × List (Candle F))
        → Manager F
        → Manager F × Outcome (List (Candle F))
        → Manager F × Outcome (List (Candle F))
    before_rest a (raised e) others rest = (a ∷ others, raised e)
    before_rest a (returned (b, candles)) others rest =
        (b ∷ rest.0, rest.1 >>= λ more. returned (candles ++ more))

    unfoldable pub process_manager :
        ScoredTick F → Manager F → Manager F × Outcome (List (Candle F))
    process_manager t [] = ([], returned [])
    process_manager t (a ∷ others) =
        before_rest a (process mean sum t a) others (process_manager t others)

    unfoldable pub flush_manager : Manager F → Manager F × List (Candle F)
    flush_manager [] = ([], [])
    flush_manager (a ∷ others) =
        let (b, candles) = flush mean sum a in
        let (rest, more) = flush_manager others in (b ∷ rest, candles ++ more)

    -- The candles of the aggregators, in their order
    abbrev pub ingest_each : ScoredTick F → Manager F → List (Candle F)
    ingest_each t [] = []
    ingest_each t (a ∷ others) = (ingest mean sum t a).1 ++ ingest_each t others

    -- A tick of the symbol of every aggregator goes to each of them alone, and the candles come in their order.
    process_manager-ingest :
        (t : ScoredTick F) (m : Manager F)
        → All (λ a. string_eq.beq t.symbol a.symbol ≡ true) m
        → process_manager t m ≡ (map (λ a. (ingest mean sum t a).0) m, returned (ingest_each t m))
    unfolding process_manager process
    process_manager-ingest t [] h = refl
    process_manager-ingest t (a ∷ others) (p, h) = rw (p, process_manager-ingest t others h) refl
