-- ===== src/HashLog/Verify.antt =====
-- `verify_hash_chain` of services/layer1_hashlog/hash_chain.py, and what it accepts.
use algo_trading_platform.Base.{
  ℕ, ◌+◌, ◌≡◌, refl, Bool, true, false, Option, none, some, List, [], ◌∷◌, ◌++◌, leb, ltb, ◌&&◌,
  if◌then◌else◌, arith,
}
use algo_trading_platform.Base.Dict.{Eq}
use algo_trading_platform.HashLog.{
  TickBody, HashChainEntry, LogLine, logged, white, invalid, incomplete, last_hash,
}

-- The result and the message: the number of entries verified, or the failing line.
pub data ChainVerdict : Type 0 where
  verified : ℕ → ChainVerdict
  invalid_json missing_fields previous_mismatch tick_hash_mismatch : ℕ → ChainVerdict

abbrev pub is_ok : ChainVerdict → Bool
is_ok (verified n) = true
is_ok _ = false

-- `max_entries and entries_verified >= max_entries`
abbrev pub is_enough : Option ℕ → ℕ → Bool
is_enough none n = false
is_enough (some m) n = ltb 0 m && leb m n

module _ {H F : Type 0} ⦃eq : Eq H⦄ (digest : TickBody H F → H) where
  -- The test of the previous hash; the first entry sets it where the caller gives none.
  abbrev pub follows : Option H → HashChainEntry H F → Bool
  follows none e = true
  follows (some h) e = eq.beq e.body.previous_hash h

  -- The loop over the lines from line `idx` on, with `entries_verified` and `expected_prev`.
  unfoldable pub verify_hash_chain :
      Option ℕ → (idx entries_verified : ℕ) → Option H → List (LogLine H F) → ChainVerdict
  verify_hash_chain max idx n prev [] = verified n
  verify_hash_chain max idx n prev (white ∷ lines) =
      let rest = verify_hash_chain max (idx + 1) n prev lines in
      if is_enough max n then verified n else rest
  verify_hash_chain max idx n prev (invalid ∷ lines) =
      if is_enough max n then verified n else invalid_json idx
  verify_hash_chain max idx n prev (incomplete ∷ lines) =
      if is_enough max n then verified n else missing_fields idx
  verify_hash_chain max idx n prev (logged e ∷ lines) =
      let rest = verify_hash_chain max (idx + 1) (n + 1) (some e.tick_hash) lines in
      if is_enough max n
      then verified n
      else if follows prev e
      then if eq.beq e.tick_hash (digest e.body) then rest else tick_hash_mismatch idx
      else previous_mismatch idx

  -- The lines are a chain from the hash `prev` on, by recursion; Links says what that comes to.
  abbrev pub IsChain : Option H → List (LogLine H F) → Type 0
  IsChain prev [] = Unit
  IsChain prev (white ∷ lines) = IsChain prev lines
  IsChain prev (invalid ∷ lines) = ⊥
  IsChain prev (incomplete ∷ lines) = ⊥
  IsChain prev (logged e ∷ lines) =
      (follows prev e ≡ true) × (e.tick_hash ≡ digest e.body) × IsChain (some e.tick_hash) lines

  pub IsChain-accepted :
      (max : Option ℕ) (idx n : ℕ) (prev : Option H) (lines : List (LogLine H F))
      → IsChain prev lines
      → is_ok (verify_hash_chain max idx n prev lines) ≡ true
  unfolding verify_hash_chain
  IsChain-accepted max idx n prev [] c = refl
  IsChain-accepted max idx n prev (white ∷ lines) c =
      ground (arith, IsChain-accepted max (idx + 1) n prev lines c)
  IsChain-accepted max idx n prev (invalid ∷ lines) c = elim c [ ]
  IsChain-accepted max idx n prev (incomplete ∷ lines) c = elim c [ ]
  IsChain-accepted max idx n prev (logged e ∷ lines) (p, h, c) = ground (
    arith,
    eq.beq_iff e.tick_hash (digest e.body),
    IsChain-accepted max (idx + 1) (n + 1) (some e.tick_hash) lines c,
  )

  pub accepted-IsChain :
      (idx n : ℕ) (prev : Option H) (lines : List (LogLine H F))
      → is_ok (verify_hash_chain none idx n prev lines) ≡ true
      → IsChain prev lines
  unfolding verify_hash_chain
  accepted-IsChain idx n prev [] ok = tt
  accepted-IsChain idx n prev (white ∷ lines) ok = accepted-IsChain (idx + 1) n prev lines ok
  accepted-IsChain idx n prev (invalid ∷ lines) ok = cc
  accepted-IsChain idx n prev (incomplete ∷ lines) ok = cc
  accepted-IsChain idx n prev (logged e ∷ lines) ok = ground (
    arith,
    eq.beq_iff e.tick_hash (digest e.body),
    accepted-IsChain (idx + 1) (n + 1) (some e.tick_hash) lines,
  )

  pub IsChain-append :
      (h : H) (xs ys : List (LogLine H F))
      → IsChain (some h) xs
      → IsChain (some (last_hash h xs)) ys
      → IsChain (some h) (xs ++ ys)
  IsChain-append h [] ys a b = b
  IsChain-append h (white ∷ xs) ys a b = IsChain-append h xs ys a b
  IsChain-append h (invalid ∷ xs) ys a b = elim a [ ]
  IsChain-append h (incomplete ∷ xs) ys a b = elim a [ ]
  IsChain-append h (logged e ∷ xs) ys (p, q, a) b = (p, q, IsChain-append e.tick_hash xs ys a b)

  -- The two halves of a chain.
  pub IsChain-split :
      (h : H) (xs ys : List (LogLine H F))
      → IsChain (some h) (xs ++ ys)
      → IsChain (some h) xs × IsChain (some (last_hash h xs)) ys
  IsChain-split h [] ys c = (tt, c)
  IsChain-split h (white ∷ xs) ys c = IsChain-split h xs ys c
  IsChain-split h (invalid ∷ xs) ys c = elim c [ ]
  IsChain-split h (incomplete ∷ xs) ys c = elim c [ ]
  IsChain-split h (logged e ∷ xs) ys (p, q, c) =
      let (a, b) = IsChain-split e.tick_hash xs ys c in ((p, q, a), b)

  -- Without a hash expected for the first entry less is tested.
  pub IsChain-none : (h : H) (xs : List (LogLine H F)) → IsChain (some h) xs → IsChain none xs
  IsChain-none h [] c = tt
  IsChain-none h (white ∷ xs) c = IsChain-none h xs c
  IsChain-none h (invalid ∷ xs) c = elim c [ ]
  IsChain-none h (incomplete ∷ xs) c = elim c [ ]
  IsChain-none h (logged e ∷ xs) (p, q, c) = (refl, q, c)

module _ {H F : Type 0} where
  pub last_hash-append :
      (h : H) (xs ys : List (LogLine H F)) → last_hash h (xs ++ ys) ≡ last_hash (last_hash h xs) ys
  last_hash-append h [] ys = refl
  last_hash-append h (white ∷ xs) ys = last_hash-append h xs ys
  last_hash-append h (invalid ∷ xs) ys = last_hash-append h xs ys
  last_hash-append h (incomplete ∷ xs) ys = last_hash-append h xs ys
  last_hash-append h (logged e ∷ xs) ys = last_hash-append e.tick_hash xs ys
