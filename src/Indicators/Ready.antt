-- ===== src/Indicators/Ready.antt =====
-- From which candle on the series of services/layer3_strategy/indicators.py have values.
use algo_trading_platform.Base.{
  ℕ, zero, suc, ◌+◌, ◌-◌, ◌≤◌, ◌<◌, ◌≡◌, sym, Option, none, some, List, [], ◌∷◌, ◌++◌, map, length,
  replicate, arith,
}
use mathlib.Core.Path.{subst}
use native.Mathlib.Decide.{dec_lt}
use algo_trading_platform.Indicators.Online.{IsReady}
use algo_trading_platform.Float.{Float}
use algo_trading_platform.Indicators.{from_period, compact, spread}
use algo_trading_platform.Indicators.Parts.{
  from_period-early, from_period-ready, delayed, delayed-early, delayed-ready,
}
use algo_trading_platform.Indicators.Divergence.{subtracted}

replicate-IsReady {ℓ} : (A : Type ℓ) (n k : ℕ) → n ≤ k → IsReady k (replicate {A = Option A} n none)
unfolding IsReady
replicate-IsReady A zero k h = tt
replicate-IsReady A (suc n) zero h = absurd (omega arith)
replicate-IsReady A (suc n) (suc k) h = replicate-IsReady A n k (omega arith)

module _ {ℓ} {A : Type ℓ} where
  map-IsReady : (ys : List A) → IsReady 0 (map some ys)
  unfolding IsReady
  map-IsReady [] = tt
  map-IsReady (y ∷ ys) = map-IsReady ys

  absent-IsReady :
      (n k : ℕ) (xs : List (Option A)) → IsReady k xs → IsReady (n + k) (replicate n none ++ xs)
  unfolding IsReady
  absent-IsReady zero k xs h =
      let same : k ≡ 0 + k = omega arith in subst (λ m. IsReady m xs) same h
  absent-IsReady (suc n) k xs h =
      let same : suc (n + k) ≡ suc n + k = omega arith in
      subst (λ m. IsReady m (replicate (suc n) none ++ xs)) same (absent-IsReady n k xs h)

  spread_all :
      (j : ℕ) (xs ys : List (Option A))
      → IsReady 0 xs
      → IsReady j ys
      → length ys ≡ length (compact xs)
      → IsReady j (spread xs ys)
  unfolding IsReady
  spread_all j [] ys h g e = tt
  spread_all j (none ∷ xs) ys h g e = elim h [ ]
  spread_all j (some x ∷ xs) [] h g e = absurd (omega (arith, e))
  spread_all zero (some x ∷ xs) (none ∷ ys) h g e = elim g [ ]
  spread_all zero (some x ∷ xs) (some y ∷ ys) h g e = spread_all zero xs ys h g (omega (arith, e))
  spread_all (suc j) (some x ∷ xs) (none ∷ ys) h g e = spread_all j xs ys h g (omega (arith, e))
  spread_all (suc j) (some x ∷ xs) (some y ∷ ys) h g e = elim g [ ]

  pub spread-IsReady :
      (k j : ℕ) (xs ys : List (Option A))
      → IsReady k xs
      → IsReady j ys
      → length ys ≡ length (compact xs)
      → IsReady (k + j) (spread xs ys)
  unfolding IsReady
  spread-IsReady k j [] ys h g e = tt
  spread-IsReady zero j (x ∷ xs) ys h g e =
      let same : j ≡ zero + j = omega arith in
      subst (λ m. IsReady m (spread (x ∷ xs) ys)) same (spread_all j (x ∷ xs) ys h g e)
  spread-IsReady (suc k) j (none ∷ xs) ys h g e =
      let same : suc (k + j) ≡ suc k + j = omega arith in
      subst (λ m. IsReady m (spread (none ∷ xs) ys)) same (spread-IsReady k j xs ys h g e)
  spread-IsReady (suc k) j (some x ∷ xs) ys h g e = elim h [ ]

module _ {ℓ κ} {A : Type ℓ} {B : Type κ} where
  pub from_period-IsReady :
      (p : ℕ) (xs : List A) (ys : List B) → 0 < p → IsReady (p - 1) (from_period p xs ys)
  from_period-IsReady p xs ys some_p = elim (dec_lt (length xs) p) [
    | yes short ↦
        subst (IsReady (p - 1)) (sym (from_period-early p xs ys short))
          (replicate-IsReady _ (length xs) (p - 1) (omega arith))
    | no long ↦
        let same : p - 1 + 0 ≡ p - 1 = omega arith in
        subst (IsReady (p - 1)) (sym (from_period-ready p xs ys (omega arith))) (
          subst (λ m. IsReady m (replicate (p - 1) none ++ map some ys)) same
            (absent-IsReady (p - 1) 0 (map some ys) (map-IsReady ys)))
  ]

module _ {ℓ κ μ} {A : Type ℓ} {B : Type κ} {C : Type μ} where
  pub delayed-IsReady :
      (n k j : ℕ) (d : List A → List B) (h : List B → List (Option C)) (xs : List A)
      → n ≤ suc (k + j)
      → IsReady j (h (d xs))
      → IsReady (k + j) (delayed n k d h xs)
  delayed-IsReady n k j d h xs e r = elim (dec_lt (length xs) n) [
    | yes short ↦
        subst (IsReady (k + j)) (sym (delayed-early n k d h xs short))
          (replicate-IsReady _ (length xs) (k + j) (omega arith))
    | no long ↦
        subst (IsReady (k + j)) (sym (delayed-ready n k d h xs (omega arith)))
          (absent-IsReady k j (h (d xs)) r)
  ]

module _ {F : Type 0} ⦃fl : Float F⦄ where
  -- A difference is there where both are, here the later of the two.
  pub subtracted-IsReady :
      (k j : ℕ) (fs ss : List (Option F))
      → k ≤ j
      → IsReady k fs
      → IsReady j ss
      → IsReady j (subtracted fs ss)
  unfolding IsReady
  subtracted-IsReady k j [] ss h a b = tt
  subtracted-IsReady k j (f ∷ fs) [] h a b = tt
  subtracted-IsReady zero zero (some f ∷ fs) (some s ∷ ss) h a b =
      subtracted-IsReady zero zero fs ss h a b
  subtracted-IsReady zero (suc j) (some f ∷ fs) (none ∷ ss) h a b =
      subtracted-IsReady zero j fs ss (omega arith) a b
  subtracted-IsReady (suc k) (suc j) (none ∷ fs) (none ∷ ss) h a b =
      subtracted-IsReady k j fs ss (omega arith) a b
  subtracted-IsReady zero zero (none ∷ fs) (s ∷ ss) h a b = elim a [ ]
  subtracted-IsReady zero zero (some f ∷ fs) (none ∷ ss) h a b = elim b [ ]
  subtracted-IsReady zero (suc j) (none ∷ fs) (s ∷ ss) h a b = elim a [ ]
  subtracted-IsReady zero (suc j) (some f ∷ fs) (some s ∷ ss) h a b = elim b [ ]
  subtracted-IsReady (suc k) zero (f ∷ fs) (s ∷ ss) h a b = absurd (omega arith)
  subtracted-IsReady (suc k) (suc j) (none ∷ fs) (some s ∷ ss) h a b = elim b [ ]
  subtracted-IsReady (suc k) (suc j) (some f ∷ fs) (s ∷ ss) h a b = elim a [ ]
