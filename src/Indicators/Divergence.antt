-- ===== src/Indicators/Divergence.antt =====
-- `_ema_series` and `_macd_series` of services/layer3_strategy/indicators.py: the lists that they return, as
-- functions that grow at the end.
use algo_trading_platform.Base.{
  ◌≡◌, refl, sym, ap, ◌∙◌, Option, none, some, List, [], ◌∷◌, ◌++◌, length, replicate, arith,
}
use mathlib.Core.Path.{ap₂}
use algo_trading_platform.Base.Outcome.{returned, ◌>>=◌}
use algo_trading_platform.Float.{Float}
use algo_trading_platform.Indicators.{compact, spread, macd_line, histogram_of}
use algo_trading_platform.Indicators.Online.{IsOnline, length-IsOnline}

-- Where the values stand does not matter to the indexes with none.
module _ {ℓ} {A : Type ℓ} where
  compact-none : (xs : List (Option A)) → compact (xs ++ none ∷ []) ≡ compact xs
  compact-none [] = refl
  compact-none (none ∷ xs) = compact-none xs
  compact-none (some x ∷ xs) = ap (λ r. x ∷ r) (compact-none xs)

  compact-some : (xs : List (Option A)) (y : A) → compact (xs ++ some y ∷ []) ≡ compact xs ++ y ∷ []
  compact-some [] y = refl
  compact-some (none ∷ xs) y = compact-some xs y
  compact-some (some x ∷ xs) y = ap (λ r. x ∷ r) (compact-some xs y)

  spread-none :
      (xs ys : List (Option A))
      → length ys ≡ length (compact xs)
      → spread (xs ++ none ∷ []) ys ≡ spread xs ys ++ none ∷ []
  spread-none [] ys h = refl
  spread-none (none ∷ xs) ys h = ap (λ r. none ∷ r) (spread-none xs ys h)
  spread-none (some x ∷ xs) [] h = absurd (omega (arith, h))
  spread-none (some x ∷ xs) (y ∷ ys) h = ap (λ r. y ∷ r) (spread-none xs ys (omega (arith, h)))

  spread-some :
      (xs ys : List (Option A)) (x : A) (y : Option A)
      → length ys ≡ length (compact xs)
      → spread (xs ++ some x ∷ []) (ys ++ y ∷ []) ≡ spread xs ys ++ y ∷ []
  spread-some [] [] x y h = refl
  spread-some [] (z ∷ ys) x y h = absurd (omega (arith, h))
  spread-some (none ∷ xs) ys x y h = ap (λ r. none ∷ r) (spread-some xs ys x y h)
  spread-some (some w ∷ xs) [] x y h = absurd (omega (arith, h))
  spread-some (some w ∷ xs) (z ∷ ys) x y h =
      ap (λ r. z ∷ r) (spread-some xs ys x y (omega (arith, h)))

  pub spread-absent :
      (xs : List (Option A))
      → spread xs (replicate (length (compact xs)) none) ≡ replicate (length xs) none
  spread-absent [] = refl
  spread-absent (none ∷ xs) = ap (λ r. none ∷ r) (spread-absent xs)
  spread-absent (some x ∷ xs) = ap (λ r. none ∷ r) (spread-absent xs)

  pub spread-IsOnline :
      {e : List A → List (Option A)} → IsOnline e → IsOnline (λ xs. spread xs (e (compact xs)))
  spread-IsOnline {e} o = record { empty = refl; next = next }
    where
      next :
          (xs : List (Option A)) (x : Option A)
          → (y : Option A) × (spread (xs ++ x ∷ []) (e (compact (xs ++ x ∷ [])))
              ≡ spread xs (e (compact xs)) ++ y ∷ [])
      next xs none = (
        none,
        ap (λ r. spread (xs ++ none ∷ []) (e r)) (compact-none xs)
            ∙ spread-none xs (e (compact xs)) (length-IsOnline o (compact xs)),
      )
      next xs (some v) =
          let (y, p) = o.next (compact xs) v in
          (
            y,
            ap (λ r. spread (xs ++ some v ∷ []) (e r)) (compact-some xs v)
                ∙ ap (spread (xs ++ some v ∷ [])) p
                ∙ spread-some xs (e (compact xs)) v y (length-IsOnline o (compact xs)),
          )

module _ {F : Type 0} ⦃fl : Float F⦄ where
  open fl use {sub}

  abbrev pub both : Option F → Option F → Option F
  both (some f) (some s) = some (sub f s)
  both f s = none

  -- The two lists, of one length, subtracted.
  abbrev pub subtracted : List (Option F) → List (Option F) → List (Option F)
  subtracted [] ss = []
  subtracted (f ∷ fs) [] = []
  subtracted (f ∷ fs) (s ∷ ss) = both f s ∷ subtracted fs ss

  subtracted-snoc :
      (fs ss : List (Option F)) (f s : Option F)
      → length fs ≡ length ss
      → subtracted (fs ++ f ∷ []) (ss ++ s ∷ []) ≡ subtracted fs ss ++ both f s ∷ []
  subtracted-snoc [] [] f s h = refl
  subtracted-snoc [] (t ∷ ss) f s h = absurd (omega (arith, h))
  subtracted-snoc (g ∷ fs) [] f s h = absurd (omega (arith, h))
  subtracted-snoc (g ∷ fs) (t ∷ ss) f s h =
      ap (λ r. both g t ∷ r) (subtracted-snoc fs ss f s (omega (arith, h)))

  pub subtracted-IsOnline :
      {A : Type 0} {f g : List A → List (Option F)}
      → IsOnline f
      → IsOnline g
      → IsOnline (λ xs. subtracted (f xs) (g xs))
  subtracted-IsOnline {A} {f} {g} o u = record {
    empty = ap (λ r. subtracted r (g [])) o.empty;
    next = λ xs x.
        let (y, p) = o.next xs x in
        let (z, q) = u.next xs x in
        (
          both y z,
          ap₂ subtracted p q
              ∙ subtracted-snoc (f xs) (g xs) y z
                  (length-IsOnline o xs ∙ sym (length-IsOnline u xs)),
        );
  }

  pub macd_line-subtracted :
      (fs ss : List (Option F))
      → length fs ≡ length ss
      → macd_line fs ss ≡ returned (subtracted fs ss)
  macd_line-subtracted [] [] h = refl
  macd_line-subtracted [] (s ∷ ss) h = absurd (omega (arith, h))
  macd_line-subtracted (f ∷ fs) [] h = absurd (omega (arith, h))
  macd_line-subtracted (some f ∷ fs) (some s ∷ ss) h =
      ap (λ o. o >>= λ r. returned (some (sub f s) ∷ r))
        (macd_line-subtracted fs ss (omega (arith, h)))
  macd_line-subtracted (some f ∷ fs) (none ∷ ss) h =
      ap (λ o. o >>= λ r. returned (none ∷ r)) (macd_line-subtracted fs ss (omega (arith, h)))
  macd_line-subtracted (none ∷ fs) (s ∷ ss) h =
      ap (λ o. o >>= λ r. returned (none ∷ r)) (macd_line-subtracted fs ss (omega (arith, h)))

  pub histogram_of-subtracted : (ms ss : List (Option F)) → histogram_of ms ss ≡ subtracted ms ss
  histogram_of-subtracted [] ss = refl
  histogram_of-subtracted (none ∷ ms) [] = refl
  histogram_of-subtracted (some m ∷ ms) [] = refl
  histogram_of-subtracted (none ∷ ms) (s ∷ ss) = ap (λ r. none ∷ r) (histogram_of-subtracted ms ss)
  histogram_of-subtracted (some m ∷ ms) (none ∷ ss) =
      ap (λ r. none ∷ r) (histogram_of-subtracted ms ss)
  histogram_of-subtracted (some m ∷ ms) (some s ∷ ss) =
      ap (λ r. some (sub m s) ∷ r) (histogram_of-subtracted ms ss)

  pub subtracted-absent :
      (ms : List (Option F))
      → subtracted ms (replicate (length ms) none) ≡ replicate (length ms) none
  subtracted-absent [] = refl
  subtracted-absent (none ∷ ms) = ap (λ r. none ∷ r) (subtracted-absent ms)
  subtracted-absent (some m ∷ ms) = ap (λ r. none ∷ r) (subtracted-absent ms)
