-- ===== src/Consensus/Tests.antt =====
-- The consensus of services/layer1_consensus/engine.py at concrete ticks.
use algo_trading_platform.Base.{
  ℕ, ◌≡◌, ◌≤◌, arith, refl, false, some, List, [], ◌∷◌, map, All, String,
}
use algo_trading_platform.Base.Dict.{Dict}
use algo_trading_platform.Base.Int.{ℤ, pos, ◌+ℤ◌}
use algo_trading_platform.Base.Keys.{IsDict}
use algo_trading_platform.Base.Outcome.{returned, raised, value_error, IfReturned}
use algo_trading_platform.Float.Fixed.{fixed_float, Fixed-IsOrdered}
use algo_trading_platform.Consensus.{
  ExchangeId, binance, kraken, okx, NormalizedTick, ConsensusConfig, exchange_eq, unweighted_median,
  volume_weighted_median, is_divergent,
}
use algo_trading_platform.Consensus.Engine.{
  ConsensusEngine, settle_round, consensus_of, process_aligned, state_of,
}
use algo_trading_platform.Consensus.Align.{TickAligner, add, align, flush_due, is_late}
use algo_trading_platform.Consensus.Due.{IsTimed, add-IsTimed}
use algo_trading_platform.Consensus.Fresh.{AreDated, IsFiled, add-AreDated}
use algo_trading_platform.Consensus.Median.{
  weighed, IsWeightedMedian, volume_weighted_median-IsWeightedMedian,
}
use algo_trading_platform.Consensus.Reports.{IsCandid, process_aligned-IsCandid}

abbrev total : List ℤ → ℤ
total [] = pos 0
total (x ∷ xs) = x +ℤ total xs

abbrev tick : ExchangeId → ℕ → ℕ → NormalizedTick ℤ
tick ex price volume = record {
  exchange_id = ex;
  symbol = "BTC-USDT";
  bid = pos price;
  ask = pos price;
  volume_24h = pos volume;
  received_timestamp_ms = 1_000;
}

abbrev config : ConsensusConfig ℤ
config = record {
  divergence_tolerance = pos 3_000;
  escalate_after = 3;
  min_sources_for_consensus = 2;
}

abbrev engine : ConsensusEngine ℤ
engine = record {
  config = config;
  state =
      (
        "BTC-USDT",
        record {
          quarantined = (kraken, tick kraken 90_000_000 1) ∷ [];
          divergence_streak = (kraken, 2) ∷ [];
        },
      )
      ∷ [];
}

abbrev ticks : Dict ExchangeId (NormalizedTick ℤ)
ticks =
    (binance, tick binance 100_000_000 3_000_000)
    ∷ (okx, tick okx 100_100_000 1_000_000)
    ∷ (kraken, tick kraken 110_000_000 2_000_000)
    ∷ []

consensus_escalates :
    (process_aligned total "BTC-USDT" 1_000 ticks engine).0
    ≡ returned (record {
      symbol = "BTC-USDT";
      timestamp_ms = 1_000;
      consensus_mid = some (pos 100_000_000);
      used_sources = binance ∷ okx ∷ [];
      divergent_sources = kraken ∷ [];
      quarantined_sources = kraken ∷ [];
      escalated_sources = kraken ∷ [];
    })
unfolding process_aligned settle_round consensus_of is_divergent unweighted_median
    volume_weighted_median
consensus_escalates = refl

no_ticks_raise : (process_aligned total "ETH-USDT" 1_000 [] engine).0 ≡ raised value_error
unfolding process_aligned settle_round unweighted_median
no_ticks_raise = refl

process_aligned-IsCandid_example :
    let r = process_aligned total "BTC-USDT" 1_000 ticks engine in
    IsDict (state_of "BTC-USDT" r.1).quarantined
    × IfReturned (λ out. IsCandid out (state_of "BTC-USDT" r.1).quarantined) r.0
process_aligned-IsCandid_example =
    process_aligned-IsCandid total "BTC-USDT" 1_000 ticks engine (refl, tt)

abbrev two_ticks : List (NormalizedTick ℤ)
two_ticks = tick binance 100_000_000 3_000_000 ∷ tick okx 100_100_000 1_000_000 ∷ []

volume_weighted_median-IsWeightedMedian_example :
    IfReturned
      (IsWeightedMedian (pos 2_000_000) (map weighed two_ticks))
      (volume_weighted_median total two_ticks)
volume_weighted_median-IsWeightedMedian_example =
    volume_weighted_median-IsWeightedMedian Fixed-IsOrdered total
      (tick binance 100_000_000 3_000_000) (tick okx 100_100_000 1_000_000 ∷ []) refl
      (refl, (refl, tt))

abbrev new_aligner : TickAligner ℤ
new_aligner = record { buf = []; window_start_ms = []; lkv = [] }

abbrev fifty : String → ℕ
fifty symbol = 50

abbrev at_time : ℕ → ExchangeId → NormalizedTick ℤ
at_time time ex = record (tick ex 100_000_000 1_000_000) { received_timestamp_ms = time }

abbrev two_added : TickAligner ℤ
unfolding add flush_due
two_added = (add fifty (at_time 1_020 okx) (add fifty (at_time 1_000 binance) new_aligner).1).1

third_completes_window :
    map (λ w. map (λ p. p.0) w.by_ex) (add fifty (at_time 1_050 binance) two_added).0
    ≡ (binance ∷ okx ∷ []) ∷ []
unfolding add flush_due align
third_completes_window = refl

add-IsTimed_example :
    let r = add fifty (at_time 1_000 binance) new_aligner in
    IsTimed r.1 × ((s : String) → is_late fifty 1_000 r.1 s ≡ false)
add-IsTimed_example =
    add-IsTimed fifty (at_time 1_000 binance) new_aligner
      (record { buffers = tt; starts = tt; buffered = λ s. refl })

-- The buffered ticks are from the time 1000 on.
abbrev IsRecent : String → NormalizedTick ℤ → Type 0
IsRecent s t = 1_000 ≤ t.received_timestamp_ms

add-AreDated_example :
    let r = add fifty (at_time 1_050 binance) two_added in
    All (AreDated IsRecent 1_050) r.0 × IsFiled IsRecent r.1
unfolding add flush_due
add-AreDated_example =
    add-AreDated IsRecent fifty (at_time 1_050 binance) two_added (omega arith) (record {
      buffered = (((refl, omega arith), ((refl, omega arith), tt)), tt);
      known = (((refl, refl), ((refl, refl), tt)), tt);
    })

-- A tick that is 100 seconds old when the next one completes its window, noted with age nought.
abbrev waiting : TickAligner ℤ
unfolding add flush_due
waiting = (add fifty (at_time 1_000 okx) new_aligner).1

old_tick_counts_as_new :
    map (λ w. map (λ p. p.1) w.ticks_with_age) (add fifty (at_time 101_000 binance) waiting).0
    ≡ (pos 0 ∷ pos 0 ∷ []) ∷ []
unfolding add flush_due align
old_tick_counts_as_new = refl
