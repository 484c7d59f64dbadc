-- ===== src/Trust/Range.antt =====
-- The ranges of the scores of services/layer1_trust/scoring.py.
use algo_trading_platform.Base.{
  ℕ, zero, suc, ◌≤◌, ◌<◌, String, inl, inr, Bool-cases, leb, ◌≡◌, Bool, true, Option, none, some,
  arith, List,
}
use algo_trading_platform.Base.Int.{ℤ, pos, negsuc}
use algo_trading_platform.Float.{Float, nought, one, IsOrdered, IsRounded}
use algo_trading_platform.Trust.{
  TrustWeights, clamp, t4_sequence_integrity, compute_subscores, weighted_score,
  compute_trust_score,
}

module _ {F : Type 0} ⦃fl : Float F⦄ where
  open fl use {decimal, lt, le}

  -- A score from zero to one.
  abbrev pub IsScore : F → Type 0
  IsScore x = (le nought x ≡ true) × (le x one ≡ true)

  clamp-IsScore : IsOrdered F → le nought one ≡ true → (x : F) → IsScore (clamp x)
  clamp-IsScore laws h x =
      ground (arith, laws.refl_of_le nought one h, laws.le_of_lt x one, laws.le_of_lt nought x)

  t4_sequence_integrity-IsScore :
      IsOrdered F
      → IsRounded F
      → le nought one ≡ true
      → ((n : ℕ) → 2 ≤ n → n < 10 → lt one (decimal n 0) ≡ true)
      → (gap : Option ℤ) → IsScore (t4_sequence_integrity gap)
  unfolding t4_sequence_integrity
  t4_sequence_integrity-IsScore ol rl h above none = (h, (ol.refl_of_le nought one h).1)
  t4_sequence_integrity-IsScore ol rl h above (some (negsuc n)) =
      ((ol.refl_of_le nought one h).0, h)
  t4_sequence_integrity-IsScore ol rl h above (some (pos zero)) =
      ((ol.refl_of_le nought one h).0, h)
  t4_sequence_integrity-IsScore ol rl h above (some (pos (suc zero))) =
      (h, (ol.refl_of_le nought one h).1)
  t4_sequence_integrity-IsScore ol rl h above (some (pos (suc (suc n)))) =
      elim (Bool-cases (leb 10 (suc (suc n)))) [
        | inl many ↦ rw many ((ol.refl_of_le nought one h).0, h)
        | inr few ↦ rw few (
            rl.div_fraction one (decimal (suc (suc n)) 0) h
              (above (suc (suc n)) (omega arith) (ground arith)))
      ]

  -- With floats ordered and rounded as IEEE 754 does, the subscores T1, T2, T4 and T5 are from zero to
  -- one for any input, and so is the trust score for any weights and any freshness and availability.
  pub compute_trust_score-IsScore :
      IsOrdered F
      → IsRounded F
      → le nought one ≡ true
      → ((n : ℕ) → 2 ≤ n → n < 10 → lt one (decimal n 0) ≡ true)
      → (exp : F → F) (lambda log_2 : F) (tls_ok chain_ok : Bool) (t2 latency_ms : F)
        (gap : Option ℤ) (sets : Option (List String × List String)) (w : TrustWeights F)
      → let s = compute_subscores exp lambda log_2 tls_ok t2 latency_ms gap chain_ok sets in
        IsScore s.t1
        × IsScore s.t2
        × IsScore s.t4
        × IsScore s.t5
        × IsScore (compute_trust_score w s)
  unfolding compute_subscores compute_trust_score
  compute_trust_score-IsScore ol rl h above exp lambda log_2 tls_ok chain_ok t2 latency_ms gap sets
        w =
      let zero_one = ol.refl_of_le nought one h in
      (
        ground arith,
        clamp-IsScore ol h t2,
        t4_sequence_integrity-IsScore ol rl h above gap,
        ground arith,
        clamp-IsScore ol h (
            weighted_score w
              (compute_subscores exp lambda log_2 tls_ok t2 latency_ms gap chain_ok sets)),
      )
