-- ===== src/Trust/Tests.antt =====
-- The scores of services/layer1_trust/scoring.py at concrete inputs. The function here in place of `exp`
-- is the constant one.
use algo_trading_platform.Base.{ℕ, ◌≤◌, ◌<◌, ◌≡◌, refl, true, false, some, none, arith}
use algo_trading_platform.Base.Int.{ℤ, pos}
use algo_trading_platform.Float.{one}
use algo_trading_platform.Float.Fixed.{fixed_float, Fixed-IsOrdered, Fixed-IsRounded}
use algo_trading_platform.Trust.{TrustWeights, compute_subscores, compute_trust_score}
use algo_trading_platform.Trust.Range.{IsScore, compute_trust_score-IsScore}

abbrev weights : TrustWeights ℤ
weights = record {
  w1_tls = pos 200_000;
  w2_consensus = pos 250_000;
  w3_freshness = pos 200_000;
  w4_sequence = pos 150_000;
  w5_hash_chain = pos 100_000;
  w_availability = pos 100_000;
}

decimal_above : (n : ℕ) → 2 ≤ n → n < 10 → fixed_float.lt one (fixed_float.decimal n 0) ≡ true
decimal_above n low high = ground arith

compute_trust_score-IsScore_example :
    let s =
      compute_subscores
        (λ _. one)
        (pos 1_386)
        (pos 693_147)
        true
        (pos 900_000)
        (pos 0)
        (some (pos 4))
        false
        none in
    IsScore s.t1
    × IsScore s.t2
    × IsScore s.t4
    × IsScore s.t5
    × IsScore (compute_trust_score weights s)
compute_trust_score-IsScore_example =
    compute_trust_score-IsScore Fixed-IsOrdered Fixed-IsRounded refl decimal_above (λ _. one)
      (pos 1_386) (pos 693_147) true false (pos 900_000) (pos 0) (some (pos 4)) none weights
