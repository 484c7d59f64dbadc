-- ===== src/Base/Lists.antt =====
-- Lists measured by native numbers, and predicates on lists by recursion.
use Prim.Native.Nat.{ℕ, zero, suc, ◌+◌, ◌-◌, ◌≤◌}
use mathlib.Core.Path.{◌≡◌, refl, ap, ◌∙◌}
use mathlib.Core.Option.{Option, none, some}
use mathlib.Core.List.{List, [], ◌∷◌, ◌++◌, map}
use native.Mathlib.Omega.{arith}

module _ {ℓ} {A : Type ℓ} where
  abbrev pub length : List A → ℕ
  length [] = 0
  length (x ∷ xs) = suc (length xs)

  abbrev pub All {κ} : (A → Type κ) → List A → Type κ
  All P [] = Unit
  All P (x ∷ xs) = P x × All P xs

  pub length-append : (xs ys : List A) → length (xs ++ ys) ≡ length xs + length ys
  length-append [] ys = omega arith
  length-append (x ∷ xs) ys = omega (arith, length-append xs ys)

  pub All-append {κ} : (P : A → Type κ) (xs ys : List A) → All P xs → All P ys → All P (xs ++ ys)
  All-append P [] ys a b = b
  All-append P (x ∷ xs) ys (p, a) b = (p, All-append P xs ys a b)

module _ {ℓ} {A : Type ℓ} where
  abbrev pub drop : ℕ → List A → List A
  drop zero xs = xs
  drop (suc n) [] = []
  drop (suc n) (x ∷ xs) = drop n xs

  abbrev pub take : ℕ → List A → List A
  take zero xs = []
  take (suc n) [] = []
  take (suc n) (x ∷ xs) = x ∷ take n xs

  -- `[x] * n`
  abbrev pub replicate : ℕ → A → List A
  replicate zero x = []
  replicate (suc n) x = x ∷ replicate n x

  -- `xs[-1]`
  abbrev pub get_last? : List A → Option A
  get_last? [] = none
  get_last? (x ∷ []) = some x
  get_last? (x ∷ y ∷ ys) = get_last? (y ∷ ys)

  -- `xs[-2]`
  abbrev pub get_previous? : List A → Option A
  get_previous? [] = none
  get_previous? (x ∷ []) = none
  get_previous? (x ∷ y ∷ []) = some x
  get_previous? (x ∷ y ∷ z ∷ zs) = get_previous? (y ∷ z ∷ zs)

  -- `xs[-n:]`, which is all of `xs` where `n` is 0
  abbrev pub last_slice : ℕ → List A → List A
  last_slice zero xs = xs
  last_slice (suc n) xs = drop (length xs - suc n) xs

module _ {ℓ} {A : Type ℓ} where
  pub append-take : (p : ℕ) (xs ys : List A) → p ≤ length xs → take p (xs ++ ys) ≡ take p xs
  append-take zero xs ys h = refl
  append-take (suc p) [] ys h = absurd (omega arith)
  append-take (suc p) (x ∷ xs) ys h = ap (λ r. x ∷ r) (append-take p xs ys (omega arith))

  pub append-drop : (p : ℕ) (xs ys : List A) → p ≤ length xs → drop p (xs ++ ys) ≡ drop p xs ++ ys
  append-drop zero xs ys h = refl
  append-drop (suc p) [] ys h = absurd (omega arith)
  append-drop (suc p) (x ∷ xs) ys h = append-drop p xs ys (omega arith)

  pub drop-all : (p : ℕ) (xs : List A) → length xs ≤ p → drop p xs ≡ []
  drop-all zero [] h = refl
  drop-all zero (x ∷ xs) h = absurd (omega arith)
  drop-all (suc p) [] h = refl
  drop-all (suc p) (x ∷ xs) h = drop-all p xs (omega arith)

  pub replicate-suc : (n : ℕ) (x : A) → replicate (suc n) x ≡ replicate n x ++ x ∷ []
  replicate-suc zero x = refl
  replicate-suc (suc n) x = ap (λ r. x ∷ r) (replicate-suc n x)

  pub replicate-add : (n m : ℕ) (x : A) → replicate (n + m) x ≡ replicate n x ++ replicate m x
  replicate-add zero m x = let same : 0 + m ≡ m = omega arith in ap (λ k. replicate k x) same
  replicate-add (suc n) m x =
      let same : suc n + m ≡ suc (n + m) = omega arith in
      ap (λ k. replicate k x) same ∙ ap (λ r. x ∷ r) (replicate-add n m x)

  pub length-snoc : (xs : List A) (x : A) → length (xs ++ x ∷ []) ≡ suc (length xs)
  length-snoc xs x = omega (arith, length-append xs (x ∷ []))

module _ {ℓ κ} {A : Type ℓ} {B : Type κ} where
  pub length-map : (f : A → B) (xs : List A) → length (map f xs) ≡ length xs
  length-map f [] = refl
  length-map f (x ∷ xs) = ap suc (length-map f xs)
