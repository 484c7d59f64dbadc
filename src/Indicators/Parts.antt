-- ===== src/Indicators/Parts.antt =====
-- The parts from which the series of services/layer3_strategy/indicators.py are made, as functions that grow
-- at the end.
use algo_trading_platform.Base.{
  ℕ, suc, ◌+◌, ◌-◌, ◌≤◌, ◌<◌, ◌≡◌, refl, sym, ap, ◌∙◌, Option, none, some, List, [], ◌∷◌, ◌++◌, map,
  length, take, drop, replicate, ltb, if◌then◌else◌, arith, append-take, append-drop, drop-all,
  replicate-suc, replicate-add, length-snoc,
}
use mathlib.Core.Path.{ap₂}
use mathlib.Core.List.{append_assoc, append-nil, map-append}
use native.Mathlib.Decide.{dec_lt}
use algo_trading_platform.Indicators.{scan, warmed, from_period, windows, pairs}
use algo_trading_platform.Indicators.Online.{IsOnline, IsLate, length-IsLate}

module _ {ℓ κ} {A : Type ℓ} {S : Type κ} where
  pub scan-snoc :
      (step : S → A → S) (s : S) (xs : List A) (x : A)
      → (t : S) × (scan step s (xs ++ x ∷ []) ≡ scan step s xs ++ t ∷ [])
  scan-snoc step s [] x = (step s x, refl)
  scan-snoc step s (y ∷ xs) x =
      let (t, e) = scan-snoc step (step s y) xs x in (t, ap (λ r. s ∷ r) e)

  module _ (p : ℕ) (seed : List A → S) (step : S → A → S) where
    warmed-early : (xs : List A) → length xs < p → warmed p seed step xs ≡ []
    unfolding warmed
    warmed-early xs h = ground arith

    warmed-ready :
        (xs : List A)
        → p ≤ length xs
        → warmed p seed step xs ≡ scan step (seed (take p xs)) (drop p xs)
    unfolding warmed
    warmed-ready xs h = ground arith

    pub warmed-IsLate : 0 < p → IsLate p (warmed p seed step)
    warmed-IsLate some_p = record { early = warmed-early; next = next }
      where
        next :
            (xs : List A) (x : A)
            → p ≤ suc (length xs)
            → (t : S) × (warmed p seed step (xs ++ x ∷ []) ≡ warmed p seed step xs ++ t ∷ [])
        next xs x h = elim (dec_lt (length xs) p) [
          | yes short ↦ (
            seed (take p (xs ++ x ∷ [])),
            warmed-ready (xs ++ x ∷ []) (omega (arith, length-snoc xs x))
                ∙ ap (scan step (seed (take p (xs ++ x ∷ []))))
                    (drop-all p (xs ++ x ∷ []) (omega (arith, length-snoc xs x)))
                ∙ ap (λ r. r ++ seed (take p (xs ++ x ∷ [])) ∷ []) (sym (warmed-early xs short)),
          )
          | no long ↦
              let (t, e) = scan-snoc step (seed (take p xs)) (drop p xs) x in
              (
                t,
                warmed-ready (xs ++ x ∷ []) (omega (arith, length-snoc xs x))
                    ∙ ap₂ (λ a b. scan step (seed a) b) (append-take p xs (x ∷ []) (omega arith))
                        (append-drop p xs (x ∷ []) (omega arith))
                    ∙ e
                    ∙ ap (λ r. r ++ t ∷ []) (sym (warmed-ready xs (omega arith))),
              )
        ]

module _ {ℓ} {A : Type ℓ} (p : ℕ) (some_p : 0 < p) where
  windows-early : (xs : List A) → length xs < p → windows p xs ≡ []
  windows-early [] h = refl
  windows-early (x ∷ xs) h = ground arith

  windows-ready :
      (x : A) (xs : List A)
      → p ≤ suc (length xs)
      → windows p (x ∷ xs) ≡ take p (x ∷ xs) ∷ windows p xs
  windows-ready x xs h = ground arith

  windows-next :
      (xs : List A) (x : A)
      → p ≤ suc (length xs)
      → (w : List A) × (windows p (xs ++ x ∷ []) ≡ windows p xs ++ w ∷ [])
  windows-next [] x h = (take p (x ∷ []), windows-ready x [] h)
  windows-next (z ∷ xs) x h = elim (dec_lt (suc (length xs)) p) [
    | yes short ↦ (
      take p (z ∷ xs ++ x ∷ []),
      windows-ready z (xs ++ x ∷ []) (omega (arith, length-snoc xs x))
          ∙ ap (λ r. take p (z ∷ xs ++ x ∷ []) ∷ r)
              (windows-early (xs ++ x ∷ []) (omega (arith, length-snoc xs x)))
          ∙ ap (λ r. r ++ take p (z ∷ xs ++ x ∷ []) ∷ []) (sym (windows-early (z ∷ xs) short)),
    )
    | no long ↦
        let (w, e) = windows-next xs x (omega arith) in
        (
          w,
          windows-ready z (xs ++ x ∷ []) (omega (arith, length-snoc xs x))
              ∙ ap₂ (λ t r. t ∷ r) (append-take p (z ∷ xs) (x ∷ []) (omega arith)) e
              ∙ ap (λ r. r ++ w ∷ []) (sym (windows-ready z xs (omega arith))),
        )
  ]

  pub windows-IsLate : IsLate p (windows {A = A} p)
  windows-IsLate = record { early = windows-early; next = windows-next }

module _ {ℓ κ} {A : Type ℓ} {B : Type κ} where
  module _ (p : ℕ) where
    pub from_period-early :
        (xs : List A) (ys : List B)
        → length xs < p
        → from_period p xs ys ≡ replicate (length xs) none
    unfolding from_period
    from_period-early xs ys h = ground arith

    pub from_period-ready :
        (xs : List A) (ys : List B)
        → p ≤ length xs
        → from_period p xs ys ≡ replicate (p - 1) none ++ map some ys
    unfolding from_period
    from_period-ready xs ys h = ground arith

    from_period-settled :
        {g : List A → List B}
        → IsLate p g
        → (xs : List A) → p ≤ suc (length xs)
        → from_period p xs (g xs) ≡ replicate (p - 1) none ++ map some (g xs)
    from_period-settled {g} l xs h = elim (dec_lt (length xs) p) [
      | yes short ↦
          let full : length xs ≡ p - 1 = omega arith in
          from_period-early xs (g xs) short
          ∙ ap (λ n. replicate n none) full
          ∙ sym (append-nil (replicate (p - 1) none))
          ∙ ap (λ r. replicate (p - 1) none ++ map some r) (sym (l.early xs short))
      | no long ↦ from_period-ready xs (g xs) (omega arith)
    ]

    pub from_period-IsOnline :
        {g : List A → List B} → 0 < p → IsLate p g → IsOnline (λ xs. from_period p xs (g xs))
    from_period-IsOnline {g} some_p l = record {
      empty = from_period-early [] (g []) some_p;
      next = next;
    }
      where
        next :
            (xs : List A) (x : A)
            → (y : Option B) × (from_period p (xs ++ x ∷ []) (g (xs ++ x ∷ []))
                ≡ from_period p xs (g xs) ++ y ∷ [])
        next xs x = elim (dec_lt (suc (length xs)) p) [
          | yes early ↦ (
            none,
            from_period-early (xs ++ x ∷ []) _ (omega (arith, length-snoc xs x))
                ∙ ap (λ n. replicate n none) (length-snoc xs x)
                ∙ replicate-suc (length xs) none
                ∙ ap (λ r. r ++ none ∷ []) (sym (from_period-early xs _ (omega arith))),
          )
          | no there ↦
              let (y, e) = l.next xs x (omega arith) in
              (
                some y,
                from_period-settled l (xs ++ x ∷ []) (omega (arith, length-snoc xs x))
                    ∙ ap (λ r. replicate (p - 1) none ++ map some r) e
                    ∙ ap (λ r. replicate (p - 1) none ++ r) (map-append some (g xs) (y ∷ []))
                    ∙ sym (append_assoc (replicate (p - 1) none) (map some (g xs)) (some y ∷ []))
                    ∙ ap (λ r. r ++ some y ∷ []) (sym (from_period-settled l xs (omega arith))),
              )
        ]

module _ {ℓ κ} {A : Type ℓ} {B : Type κ} (f : A → A → B) where
  pairs-next :
      (xs : List A) (x y : A)
      → (b : B) × (pairs f ((x ∷ xs) ++ y ∷ []) ≡ pairs f (x ∷ xs) ++ b ∷ [])
  pairs-next [] x y = (f x y, refl)
  pairs-next (z ∷ xs) x y = let (b, e) = pairs-next xs z y in (b, ap (λ r. f x z ∷ r) e)

  pub pairs-IsLate : IsLate 2 (pairs f)
  pairs-IsLate = record { early = early; next = next }
    where
      early : (xs : List A) → length xs < 2 → pairs f xs ≡ []
      early [] h = refl
      early (x ∷ []) h = refl
      early (x ∷ y ∷ ys) h = absurd (omega arith)

      next :
          (xs : List A) (x : A)
          → 2 ≤ suc (length xs)
          → (b : B) × (pairs f (xs ++ x ∷ []) ≡ pairs f xs ++ b ∷ [])
      next [] x h = absurd (omega arith)
      next (y ∷ ys) x h = pairs-next ys y x

-- `g` behind `k` absent values, where there are at least `n` inputs.
module _ {ℓ κ μ} {A : Type ℓ} {B : Type κ} {C : Type μ} where
  abbrev pub delayed :
      (n k : ℕ) → (List A → List B) → (List B → List (Option C)) → List A → List (Option C)
  delayed n k d h xs =
      if ltb (length xs) n then replicate (length xs) none else replicate k none ++ h (d xs)

  module _ (n k : ℕ) (d : List A → List B) (h : List B → List (Option C)) where
    pub delayed-early :
        (xs : List A) → length xs < n → delayed n k d h xs ≡ replicate (length xs) none
    delayed-early xs e = ground arith

    pub delayed-ready :
        (xs : List A) → n ≤ length xs → delayed n k d h xs ≡ replicate k none ++ h (d xs)
    delayed-ready xs e = ground arith

    module _ (behind : k < n) (late : IsLate (suc k) d) (online : IsOnline h)
        (absent : (ys : List B) → k + length ys < n → h ys ≡ replicate (length ys) none) where
      delayed-settled :
          (xs : List A) → n ≤ suc (length xs) → delayed n k d h xs ≡ replicate k none ++ h (d xs)
      delayed-settled xs e = elim (dec_lt (length xs) n) [
        | yes short ↦
            let size : length (d xs) ≡ length xs - k =
              omega (arith, length-IsLate (suc k) (omega arith) late xs) in
            let sum : length xs ≡ k + length (d xs) = omega (arith, size) in
            delayed-early xs short
            ∙ ap (λ m. replicate m none) sum
            ∙ replicate-add k (length (d xs)) none
            ∙ ap (λ r. replicate k none ++ r) (sym (absent (d xs) (omega (arith, sum))))
        | no long ↦ delayed-ready xs (omega arith)
      ]

      pub delayed-IsOnline : IsOnline (delayed n k d h)
      delayed-IsOnline = record { empty = delayed-early [] (omega arith); next = next }
        where
          next :
              (xs : List A) (x : A)
              → (y : Option C) × (delayed n k d h (xs ++ x ∷ []) ≡ delayed n k d h xs ++ y ∷ [])
          next xs x = elim (dec_lt (suc (length xs)) n) [
            | yes early ↦ (
              none,
              delayed-early (xs ++ x ∷ []) (omega (arith, length-snoc xs x))
                  ∙ ap (λ m. replicate m none) (length-snoc xs x)
                  ∙ replicate-suc (length xs) none
                  ∙ ap (λ r. r ++ none ∷ []) (sym (delayed-early xs (omega arith))),
            )
            | no there ↦
                let (y, e) = late.next xs x (omega arith) in
                let (z, e') = online.next (d xs) y in
                (
                  z,
                  delayed-settled (xs ++ x ∷ []) (omega (arith, length-snoc xs x))
                      ∙ ap (λ r. replicate k none ++ h r) e
                      ∙ ap (λ r. replicate k none ++ r) e'
                      ∙ sym (append_assoc (replicate k none) (h (d xs)) (z ∷ []))
                      ∙ ap (λ r. r ++ z ∷ []) (sym (delayed-settled xs (omega arith))),
                )
          ]
