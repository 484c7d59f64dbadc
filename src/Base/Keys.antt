-- ===== src/Base/Keys.antt =====
-- The keys of a Python dict: `k in d`, and that no key stands twice.
use mathlib.Core.Path.{◌≡◌, refl}
use mathlib.Core.Bool.{Bool, false, not, ◌&&◌, ◌||◌}
use mathlib.Core.Option.{none}
use mathlib.Core.List.{[], ◌∷◌}
use native.Mathlib.Omega.{arith}
use algo_trading_platform.Base.Tests.{if◌then◌else◌, is_some}
use algo_trading_platform.Base.Dict.{Eq, Dict, lookup, insert, erase, lookup-insert}

module _ {ℓ κ} {K : Type ℓ} {V : Type κ} ⦃e : Eq K⦄ where
  -- `k in d`
  abbrev pub has : K → Dict K V → Bool
  has k d = is_some (lookup k d)

  -- No key stands twice.
  abbrev pub IsDict : Dict K V → Type 0
  IsDict [] = Unit
  IsDict ((k, v) ∷ d) = (has k d ≡ false) × IsDict d

  pub has-insert : (k j : K) (v : V) (d : Dict K V) → has j (insert k v d) ≡ (e.beq k j || has j d)
  has-insert k j v d = ground (arith, lookup-insert k j v d)

  pub has-erase :
      (k j : K) (d : Dict K V) → IsDict d → has j (erase k d) ≡ (not (e.beq k j) && has j d)
  has-erase k j [] h = ground arith
  has-erase k j ((i, w) ∷ d) (new, h) =
      ground (arith, new, e.beq_iff i k, e.beq_iff i j, e.beq_iff k j, has-erase k j d h)

  pub lookup-erase :
      (k j : K) (d : Dict K V)
      → IsDict d
      → lookup j (erase k d) ≡ (if e.beq k j then none else lookup j d)
  lookup-erase k j [] h = ground arith
  lookup-erase k j ((i, w) ∷ d) (new, h) =
      ground (arith, new, e.beq_iff i k, e.beq_iff i j, e.beq_iff k j, lookup-erase k j d h)

  pub insert-IsDict : (k : K) (v : V) (d : Dict K V) → IsDict d → IsDict (insert k v d)
  insert-IsDict k v [] h = (refl, tt)
  insert-IsDict k v ((i, w) ∷ d) (new, h) =
      ground
        (arith, new, h, e.beq_iff i k, e.beq_iff k i, has-insert k i v d, insert-IsDict k v d h)

  pub erase-IsDict : (k : K) (d : Dict K V) → IsDict d → IsDict (erase k d)
  erase-IsDict k [] h = tt
  erase-IsDict k ((i, w) ∷ d) (new, h) =
      ground (arith, new, h, has-erase k i d h, erase-IsDict k d h)
