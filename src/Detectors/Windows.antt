-- ===== src/Detectors/Windows.antt =====
-- The bounded windows of services/layer2_anomaly/detectors: the last values that were pushed.
use algo_trading_platform.Base.{
  ℕ, zero, suc, ◌+◌, ◌-◌, ◌≤◌, ◌≡◌, refl, sym, ap, ◌∙◌, List, [], ◌∷◌, ◌++◌, length, take, drop,
  append-drop, arith, length-append,
}
use mathlib.Core.List.{append_assoc}
use native.Mathlib.Decide.{dec_lt}
use algo_trading_platform.Detectors.{pushed}

-- `ys` is `xs` behind some values.
abbrev pub IsSuffix {ℓ} : {A : Type ℓ} → List A → List A → Type ℓ
IsSuffix {A} xs ys = (front : List A) × (ys ≡ front ++ xs)

module _ {ℓ} {A : Type ℓ} where
  take-drop : (n : ℕ) (xs : List A) → xs ≡ take n xs ++ drop n xs
  take-drop zero xs = refl
  take-drop (suc n) [] = refl
  take-drop (suc n) (x ∷ xs) = ap (λ r. x ∷ r) (take-drop n xs)

  drop-past : (n : ℕ) (xs ys : List A) → length xs ≤ n → drop n (xs ++ ys) ≡ drop (n - length xs) ys
  drop-past n [] ys h = let same : n ≡ n - 0 = omega arith in ap (λ k. drop k ys) same
  drop-past zero (x ∷ xs) ys h = absurd (omega arith)
  drop-past (suc n) (x ∷ xs) ys h =
      let same : n - length xs ≡ suc n - suc (length xs) = omega arith in
      drop-past n xs ys (omega arith) ∙ ap (λ k. drop k ys) same

  drop-more : (n m : ℕ) (xs : List A) → n ≤ m → IsSuffix (drop m xs) (drop n xs)
  drop-more zero m xs h = (take m xs, take-drop m xs)
  drop-more (suc n) zero xs h = absurd (omega arith)
  drop-more (suc n) (suc m) [] h = ([], refl)
  drop-more (suc n) (suc m) (x ∷ xs) h = drop-more n m xs (omega arith)

  -- The longer window still holds the shorter one after a value.
  pub pushed-IsSuffix :
      (n m : ℕ) (x : A) (xs ys : List A)
      → n ≤ m
      → IsSuffix xs ys
      → IsSuffix (pushed n x xs) (pushed m x ys)
  pushed-IsSuffix n m x xs ys h (front, e) =
      let last = xs ++ x ∷ [] in
      let whole : ys ++ x ∷ [] ≡ front ++ last =
        ap (λ r. r ++ x ∷ []) e ∙ append_assoc front xs (x ∷ []) in
      let size : length (ys ++ x ∷ []) ≡ length front + length last =
        ap length whole ∙ length-append front last in
      let k = length (ys ++ x ∷ []) - m in
      elim (dec_lt (length front) k) [
        | yes past ↦
            let (more, p) =
              drop-more (k - length front) (length last - n) last (omega (arith, size)) in
            (more, ap (drop k) whole ∙ drop-past k front last (omega arith) ∙ p)
        | no within ↦
            let (more, p) = drop-more 0 (length last - n) last (omega arith) in
            (
              drop k front ++ more,
              ap (drop k) whole
                  ∙ append-drop k front last (omega arith)
                  ∙ ap (λ r. drop k front ++ r) p
                  ∙ sym (append_assoc (drop k front) more (drop (length last - n) last)),
            )
      ]
