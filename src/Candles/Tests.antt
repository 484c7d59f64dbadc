-- ===== src/Candles/Tests.antt =====
-- The aggregation of services/layer3_strategy/candles.py at concrete ticks. The mean and the sum are those
-- of the fixed-point numbers.
use algo_trading_platform.Base.{
  ℕ, ◌*◌, ◌≡◌, refl, none, some, List, [], ◌∷◌, ◌++◌, All, length, arith,
}
use algo_trading_platform.Base.Int.{ℤ, pos}
use algo_trading_platform.Base.Outcome.{returned}
use algo_trading_platform.Float.Fixed.{fixed_float}
use algo_trading_platform.Candles.{ScoredTick, Candle, CandleAggregator, flush, process_all}
use algo_trading_platform.Candles.Stream.{HasSymbol}
use algo_trading_platform.Candles.Shape.{
  IsWellFormed, IsChronological, IsSorted, process_all-IsChronological,
}

abbrev pub sum_of : List ℤ → ℤ
sum_of [] = pos 0
sum_of (x ∷ xs) = fixed_float.add x (sum_of xs)

abbrev pub mean_of : List ℤ → ℤ
mean_of xs = fixed_float.div (sum_of xs) (pos (1_000_000 * length xs))

abbrev pub tick : ℕ → ℕ → ScoredTick ℤ
tick time price = record {
  symbol = "BTC-USDT";
  mid_price = pos price;
  volume_24h = some (pos 2_000_000);
  trust_score = pos 900_000;
  timestamp_utc = time;
  anomaly_score = pos 100_000;
}

abbrev pub aggregator : CandleAggregator ℤ
aggregator = record {
  symbol = "BTC-USDT";
  timeframe = "5m";
  timeframe_ms = 300_000;
  reliability_trust_floor = pos 500_000;
  reliability_anomaly_ceiling = pos 800_000;
  unreliable_streak_to_degrade = 50;
  bucket = none;
  consecutive_unreliable_candles = 0;
}

abbrev pub ticks : List (ScoredTick ℤ)
ticks =
    tick 1_000 100_000_000
    ∷ tick 2_000 101_000_000
    ∷ tick 299_999 99_000_000
    ∷ tick 300_000 102_000_000
    ∷ tick 900_001 103_000_000
    ∷ []

pub ticks-HasSymbol : All (HasSymbol aggregator) ticks
ticks-HasSymbol = (refl, (refl, (refl, (refl, (refl, tt)))))

ticks-IsSorted : IsSorted 0 ticks
ticks-IsSorted = (omega arith, (omega arith, (omega arith, (omega arith, (omega arith, tt)))))

process_all-IsChronological_example :
    (a' : CandleAggregator ℤ) × (cs : List (Candle ℤ)) × (process_all mean_of sum_of ticks
        aggregator
      ≡ returned (a', cs))
    × All (IsWellFormed 300_000 50) (cs ++ (flush mean_of sum_of a').1)
    × IsChronological 0 (cs ++ (flush mean_of sum_of a').1)
process_all-IsChronological_example =
    process_all-IsChronological mean_of sum_of ticks aggregator refl (omega arith) ticks-HasSymbol
      ticks-IsSorted
