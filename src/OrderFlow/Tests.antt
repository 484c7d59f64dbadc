-- ===== src/OrderFlow/Tests.antt =====
-- The order flow imbalance of services/layer3_strategy/ofi.py at concrete ticks.
use algo_trading_platform.Base.{ℕ, ◌≡◌, refl, Option, none, some, List, [], ◌∷◌, map}
use algo_trading_platform.Base.Int.{ℤ, pos}
use algo_trading_platform.Base.Outcome.{returned}
use algo_trading_platform.Float.Fixed.{fixed_float}
use algo_trading_platform.Candles.{ScoredTick}
use algo_trading_platform.OrderFlow.{OrderFlowImbalanceSnapshot, empty_state, reset, take_in}
use algo_trading_platform.OrderFlow.Window.{
  signed_volumes_of, windowed, process_ticks, process_ticks-windowed,
}

abbrev sum_of : List ℤ → ℤ
sum_of [] = pos 0
sum_of (x ∷ xs) = fixed_float.add x (sum_of xs)

abbrev priced : ℕ → ScoredTick ℤ × Option ℤ
priced price = (
  record {
    symbol = "BTC-USDT";
    mid_price = pos price;
    volume_24h = some (pos 2_000_000);
    trust_score = pos 900_000;
    timestamp_utc = 1000;
    anomaly_score = pos 100_000;
  },
  none,
)

abbrev moves_of_price : List (ScoredTick ℤ × Option ℤ)
moves_of_price = priced 100 ∷ priced 102 ∷ priced 103 ∷ priced 103 ∷ []

-- A window of two: a rise, then two rises, then a rise and a price that stays.
ofi_runs :
    windowed sum_of 2 [] (signed_volumes_of none moves_of_price)
    ≡ (pos 0, 1) ∷ (pos 1_000_000, 2) ∷ (pos 1_000_000, 2) ∷ (pos 0, 2) ∷ []
ofi_runs = refl

-- What `reset` leaves of the history of the z-score.
reset_leaves_history :
    (reset
      ((take_in sum_of (λ x. x) ((priced 100).0) none (empty_state "BTC-USDT" 2 2)).0)).ofi_history
    ≡ pos 0 ∷ []
unfolding take_in
reset_leaves_history = refl

process_ticks-windowed_example :
    (snapshots : List (OrderFlowImbalanceSnapshot ℤ)) × ((process_ticks sum_of
        (λ x. x)
        moves_of_price
        (empty_state "BTC-USDT" 2 2)).1
      ≡ returned snapshots)
    × (map (λ o. (o.ofi, o.tick_count)) snapshots
        ≡ windowed sum_of 2 [] (signed_volumes_of none moves_of_price))
process_ticks-windowed_example =
    process_ticks-windowed sum_of (λ x. x) "BTC-USDT" 2 2 moves_of_price
      (refl, (refl, (refl, (refl, tt))))
