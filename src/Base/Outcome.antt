-- ===== src/Base/Outcome.antt =====
-- A Python call that returns or raises.

pub data PyError : Type 0 where
  value_error attribute_error index_error key_error runtime_error duplicate_order_error : PyError

pub data Outcome {ℓ} (A : Type ℓ) : Type ℓ where
  returned : A → Outcome A
  raised : PyError → Outcome A

infixl 5 ◌>>=◌
abbrev pub ◌>>=◌ {ℓ κ} : {A : Type ℓ} {B : Type κ} → Outcome A → (A → Outcome B) → Outcome B
returned a >>= f = f a
raised e >>= f = raised e

-- A property of the result of a call that returns.
abbrev pub IfReturned {ℓ κ} : {A : Type ℓ} → (A → Type κ) → Outcome A → Type κ
IfReturned P (returned a) = P a
IfReturned P (raised e) = Unit
