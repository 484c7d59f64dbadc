-- ===== src/Indicators/Online.antt =====
-- Functions from lists to lists that grow at the end when their argument does, as the series of
-- services/layer3_strategy/indicators.py do.
use algo_trading_platform.Base.{
  ℕ, zero, suc, ◌+◌, ◌-◌, ◌≤◌, ◌<◌, ◌≡◌, refl, sym, ap, ◌∙◌, Option, none, some, List, [], ◌∷◌,
  ◌++◌, map, length, length-append, arith,
}
use algo_trading_platform.Base.Outcome.{Outcome, returned}
use mathlib.Core.Path.{subst}
use mathlib.Core.List.{append_assoc, append-nil, map-append}
use native.Mathlib.Decide.{dec_lt}

-- One value for each input, and no value changes when inputs are added.
pub record IsOnline {ℓ κ} {A : Type ℓ} {B : Type κ} (f : List A → List B) : Type (ℓ ⊔ κ) where
  pub empty : f [] ≡ []
  pub next : (xs : List A) (x : A) → (y : B) × (f (xs ++ x ∷ []) ≡ f xs ++ y ∷ [])

-- As `IsOnline`, with the first value at input `p`.
pub record IsLate {ℓ κ} (p : ℕ) {A : Type ℓ} {B : Type κ} (f : List A → List B) : Type (ℓ ⊔ κ) where
  pub early : (xs : List A) → length xs < p → f xs ≡ []
  pub next :
      (xs : List A) (x : A) → p ≤ suc (length xs) → (y : B) × (f (xs ++ x ∷ []) ≡ f xs ++ y ∷ [])

pub snoc_induction {ℓ κ} :
    {A : Type ℓ} (P : List A → Type κ)
    → P []
    → ((xs : List A) (x : A) → P xs → P (xs ++ x ∷ []))
    → (xs : List A) → P xs
snoc_induction {A} P base step xs = from [] xs base
  where
    from : (done rest : List A) → P done → P (done ++ rest)
    from done [] p = rw (append-nil done) p
    from done (x ∷ rest) p =
        subst P (append_assoc done (x ∷ []) rest) (from (done ++ x ∷ []) rest (step done x p))

module _ {ℓ κ} {A : Type ℓ} {B : Type κ} where
  pub length-IsOnline :
      {f : List A → List B} → IsOnline f → (xs : List A) → length (f xs) ≡ length xs
  length-IsOnline {f} o =
      snoc_induction (λ xs. length (f xs) ≡ length xs) (ap length o.empty)
        λ xs x ih.
          let (y, e) = o.next xs x in
          omega (arith, ap length e, ih, length-append (f xs) (y ∷ []), length-append xs (x ∷ []))

  pub length-IsLate :
      {f : List A → List B} (p : ℕ)
      → 0 < p
      → IsLate p f
      → (xs : List A) → length (f xs) ≡ suc (length xs) - p
  length-IsLate {f} p some_p l =
      snoc_induction (λ xs. length (f xs) ≡ suc (length xs) - p)
        (omega (arith, ap length (l.early [] some_p)))
        λ xs x ih. elim (dec_lt (suc (length xs)) p) [
          | yes short ↦
              let grown : length (xs ++ x ∷ []) ≡ suc (length xs) =
                omega (arith, length-append xs (x ∷ [])) in
              omega (arith, grown, ap length (l.early (xs ++ x ∷ []) (omega (arith, grown))))
          | no long ↦
              let (y, e) = l.next xs x (omega arith) in
              omega
                (arith, ap length e, ih, length-append (f xs) (y ∷ []), length-append xs (x ∷ []))
        ]

-- Compositions.
module _ {ℓ κ μ} {A : Type ℓ} {B : Type κ} {C : Type μ} where
  pub map-IsLate :
      {g : List A → List B} (p : ℕ) (f : B → C) → IsLate p g → IsLate p (λ xs. map f (g xs))
  map-IsLate {g} p f l = record {
    early = λ xs h. ap (map f) (l.early xs h);
    next =
        λ xs x h. let (y, e) = l.next xs x h in (f y, ap (map f) e ∙ map-append f (g xs) (y ∷ []));
  }

  pub IsOnline-IsLate :
      {f : List A → List B} {g : List B → List C} (p : ℕ)
      → IsOnline f
      → IsLate p g
      → IsLate p (λ xs. g (f xs))
  IsOnline-IsLate {f} {g} p o l = record {
    early = λ xs h. l.early (f xs) (omega (arith, length-IsOnline o xs));
    next = λ xs x h.
        let (y, e) = o.next xs x in
        let (z, e') = l.next (f xs) y (omega (arith, length-IsOnline o xs)) in (z, ap g e ∙ e');
  }

  pub IsLate-compose :
      {f : List A → List B} {g : List B → List C} (p q : ℕ)
      → 0 < p
      → 0 < q
      → IsLate p f
      → IsLate q g
      → IsLate (p + q - 1) (λ xs. g (f xs))
  IsLate-compose {f} {g} p q some_p some_q l m = record {
    early = λ xs h. m.early (f xs) (omega (arith, length-IsLate p some_p l xs));
    next = λ xs x h.
        let (y, e) = l.next xs x (omega arith) in
        let (z, e') = m.next (f xs) y (omega (arith, length-IsLate p some_p l xs)) in
        (z, ap g e ∙ e');
  }

  pub IsOnline-compose :
      {f : List A → List B} {g : List B → List C}
      → IsOnline f
      → IsOnline g
      → IsOnline (λ xs. g (f xs))
  IsOnline-compose {f} {g} o u = record {
    empty = ap g o.empty ∙ u.empty;
    next = λ xs x. let (y, e) = o.next xs x in let (z, e') = u.next (f xs) y in (z, ap g e ∙ e');
  }

module _ {ℓ κ} {A : Type ℓ} {B : Type κ} where
  pub map-IsOnline : (f : A → B) → IsOnline (map f)
  map-IsOnline f = record { empty = refl; next = λ xs x. (f x, map-append f xs (x ∷ [])) }

module _ {ℓ κ} {A : Type ℓ} {B : Type κ} where
  pub IsOnline-equal :
      {f g : List A → List B} → ((xs : List A) → f xs ≡ g xs) → IsOnline g → IsOnline f
  IsOnline-equal {f} {g} same o = record {
    empty = same [] ∙ o.empty;
    next = λ xs x.
        let (y, e) = o.next xs x in
        (y, same (xs ++ x ∷ []) ∙ e ∙ ap (λ r. r ++ y ∷ []) (sym (same xs)));
  }

-- The first `k` entries are absent and all others present.
unfoldable pub IsReady {ℓ} : {A : Type ℓ} → ℕ → List (Option A) → Type 0
IsReady k [] = Unit
IsReady zero (none ∷ xs) = ⊥
IsReady zero (some x ∷ xs) = IsReady zero xs
IsReady (suc k) (none ∷ xs) = IsReady k xs
IsReady (suc k) (some x ∷ xs) = ⊥

-- A call that returns, for every list, the value of a function that grows at the end and whose first `after`
-- entries alone are absent.
pub record IsSeries {ℓ κ} {A : Type ℓ} {B : Type κ} (after : ℕ)
    (call : List A → Outcome (List (Option B))) : Type (ℓ ⊔ κ) where
  pub value : List A → List (Option B)
  pub returns : (xs : List A) → call xs ≡ returned (value xs)
  pub online : IsOnline value
  pub ready : (xs : List A) → IsReady after (value xs)
