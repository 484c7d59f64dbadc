-- ===== src/Trust.antt =====
-- services/layer1_trust/scoring.py: the subscores and the weighted trust score. `math.exp` and the two
-- constants made of `math.log(2.0)` are parameters; a set is a list without duplicates.
pub mod Range
mod Tests
use algo_trading_platform.Base.{
  ℕ, zero, suc, Bool, true, false, Option, none, some, List, [], ◌∷◌, String, length, leb,
  if◌then◌else◌,
}
use algo_trading_platform.Base.Int.{ℤ, pos, negsuc}
use algo_trading_platform.Base.Dict.{string_eq}
use algo_trading_platform.Float.{Float, nought, one, maximum, minimum}

pub record TrustWeights (F : Type 0) : Type 0 where
  pub w1_tls : F
  pub w2_consensus : F
  pub w3_freshness : F
  pub w4_sequence : F
  pub w5_hash_chain : F
  pub w_availability : F

-- The dict of subscores; T_availability may be absent.
pub record Subscores (F : Type 0) : Type 0 where
  pub t1 : F
  pub t2 : F
  pub t3 : F
  pub t4 : F
  pub t5 : F
  pub t_availability : Option F

-- The fields of a tick that `compute_t2` reads, with its age.
pub record AgedTick (F : Type 0) : Type 0 where
  pub exchange_id : String
  pub mid : F
  pub age_ms : F

abbrev pub is_member : String → List String → Bool
is_member x [] = false
is_member x (y ∷ ys) = if string_eq.beq x y then true else is_member x ys

-- The elements of the first set that the second contains.
abbrev pub common : List String → List String → ℕ
common [] ys = 0
common (x ∷ xs) ys = let n = common xs ys in if is_member x ys then suc n else n

module _ {F : Type 0} ⦃fl : Float F⦄ where
  open fl use {decimal, add, sub, mul, div, abs, lt, le}

  abbrev pub clamp : F → F
  clamp x = maximum nought (minimum one x)

  abbrev pub t1_tls_validity : Bool → F
  t1_tls_validity tls_ok = if tls_ok then one else nought

  pub t4_sequence_integrity : Option ℤ → F
  t4_sequence_integrity none = one
  t4_sequence_integrity (some (negsuc n)) = nought
  t4_sequence_integrity (some (pos zero)) = nought
  t4_sequence_integrity (some (pos (suc zero))) = one
  t4_sequence_integrity (some (pos (suc (suc n)))) =
      if leb 10 (suc (suc n)) then nought else div one (decimal (suc (suc n)) 0)

  abbrev pub t5_hash_chain_continuity : Bool → F
  t5_hash_chain_continuity chain_ok = if chain_ok then one else nought

  abbrev pub t_availability_of : List String → List String → F
  t_availability_of active [] = one
  t_availability_of active (c ∷ cs) =
      div (decimal (common (c ∷ cs) active) 0) (decimal (length (c ∷ cs)) 0)

  module _ (exp : F → F) (lambda log_2 : F) where
    -- The loop of `compute_t2`: the agreement and the weight of the ticks.
    pub agreement : F → F → List String → List (AgedTick F) → F × F → F × F
    agreement price tolerance active [] r = r
    agreement price tolerance active (t ∷ ts) (agreed, total) =
        let weight : F = exp (mul (div (sub nought t.age_ms) (decimal 7_500 0)) log_2) in
        let agrees : F = if le (abs (sub t.mid price)) tolerance then one else nought in
        agreement price tolerance active ts (
          if is_member t.exchange_id active
          then (add agreed (mul weight agrees), add total weight)
          else (agreed, total))

    pub compute_t2 : List (AgedTick F) → (price tolerance : F) → List String → F
    compute_t2 ticks price tolerance active =
        let (agreed, total) = agreement price tolerance active ticks (nought, nought) in
        if lt nought total then div agreed total else nought

    abbrev pub t3_latency_freshness : F → F
    t3_latency_freshness latency_ms = exp (mul (sub nought lambda) (maximum nought latency_ms))

    -- `sets` are the active and the configured exchanges, if the caller gives both.
    pub compute_subscores :
        Bool
        → (t2 latency_ms : F) → Option ℤ
        → Bool
        → Option (List String × List String)
        → Subscores F
    compute_subscores tls_ok t2 latency_ms gap chain_ok sets = record {
      t1 = t1_tls_validity tls_ok;
      t2 = clamp t2;
      t3 = t3_latency_freshness latency_ms;
      t4 = t4_sequence_integrity gap;
      t5 = t5_hash_chain_continuity chain_ok;
      t_availability = elim sets [
        | none ↦ none
        | some (active, configured) ↦ some (t_availability_of active configured)
      ];
    }

  -- The weighted sum, before it is clamped.
  pub weighted_score : TrustWeights F → Subscores F → F
  weighted_score w s =
      let availability : F = elim s.t_availability [ none ↦ one | some t ↦ t ] in
      add
        (add
          (add (add (add (mul w.w1_tls s.t1) (mul w.w2_consensus s.t2)) (mul w.w3_freshness s.t3))
            (mul w.w4_sequence s.t4))
          (mul w.w5_hash_chain s.t5))
        (mul w.w_availability availability)

  pub compute_trust_score : TrustWeights F → Subscores F → F
  compute_trust_score w s = clamp (weighted_score w s)
