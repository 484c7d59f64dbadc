-- ===== src/Audit/Verifier/Chain.antt =====
-- What `verify_chain` of services/layer6_audit/verifier.py accepts.
use algo_trading_platform.Base.{
  ℕ, ◌+◌, ◌≡◌, ◌≢◌, refl, zero, suc, drop, length, map, ap, sym, ◌∙◌, true, Option, none, some,
  List, [], ◌∷◌, ◌++◌, arith,
}
use mathlib.Core.Path.{ap₂}
use mathlib.Core.Option.{some-injective}
use algo_trading_platform.Base.Dict.{Eq}
use algo_trading_platform.Audit.{AuditBody, AuditEntry, Line, entry, blank, malformed}
use algo_trading_platform.Audit.Verifier.{intact, links, verify_lines}

module _ {H P F : Type 0} where
  -- The hash that the next entry must name: that of the last entry so far.
  abbrev pub tip : Option H → List (Line H P F) → Option H
  tip previous [] = previous
  tip previous (entry a ∷ lines) = tip (some a.current_hash) lines
  tip previous (_ ∷ lines) = tip previous lines

  pub tip-snoc :
      (p : Option H) (lines : List (Line H P F)) (a : AuditEntry H P F)
      → tip p (lines ++ entry a ∷ []) ≡ some a.current_hash
  tip-snoc p [] a = refl
  tip-snoc p (entry b ∷ lines) a = tip-snoc (some b.current_hash) lines a
  tip-snoc p (blank ∷ lines) a = tip-snoc p lines a
  tip-snoc p (malformed ∷ lines) a = tip-snoc p lines a

module _ {H P F : Type 0} ⦃e : Eq H⦄ (digest : AuditBody H P F → H) where
  -- An entry is accepted at the end of a log exactly when it names the log's last hash and carries its
  -- own.
  pub verify_lines-snoc :
      (n : ℕ) (p : Option H) (lines : List (Line H P F)) (a : AuditEntry H P F)
      → verify_lines digest n p lines ≡ intact
      → links (tip p lines) a ≡ true
      → a.current_hash ≡ digest a.body
      → verify_lines digest n p (lines ++ entry a ∷ []) ≡ intact
  unfolding verify_lines
  verify_lines-snoc n p [] a ok linked own =
      ground (arith, e.beq_iff a.current_hash (digest a.body))
  verify_lines-snoc n p (blank ∷ lines) a ok linked own =
      verify_lines-snoc (n + 1) p lines a ok linked own
  verify_lines-snoc n p (malformed ∷ lines) a ok linked own = cc
  verify_lines-snoc n p (entry b ∷ lines) a ok linked own =
      ground (arith, verify_lines-snoc (n + 1) (some b.current_hash) lines a)

  pub verify_lines-snoc_links :
      (n : ℕ) (p : Option H) (lines : List (Line H P F)) (a : AuditEntry H P F)
      → verify_lines digest n p (lines ++ entry a ∷ []) ≡ intact
      → links (tip p lines) a ≡ true
  unfolding verify_lines
  verify_lines-snoc_links n p [] a ok = ground arith
  verify_lines-snoc_links n p (blank ∷ lines) a ok = verify_lines-snoc_links (n + 1) p lines a ok
  verify_lines-snoc_links n p (malformed ∷ lines) a ok = cc
  verify_lines-snoc_links n p (entry b ∷ lines) a ok =
      ground (arith, verify_lines-snoc_links (n + 1) (some b.current_hash) lines a)

  -- The entry at the head of an accepted log.
  verify_lines-head :
      (n : ℕ) (p : Option H) (a : AuditEntry H P F) (lines : List (Line H P F))
      → verify_lines digest n p (entry a ∷ lines) ≡ intact
      → (a.current_hash ≡ digest a.body)
        × (links p a ≡ true)
        × (verify_lines digest (n + 1) (some a.current_hash) lines ≡ intact)
  unfolding verify_lines
  verify_lines-head n p a lines ok = ground (arith, e.beq_iff a.current_hash (digest a.body))

  verify_lines-shift :
      (n m : ℕ) (p : Option H) (lines : List (Line H P F))
      → verify_lines digest n p lines ≡ intact
      → verify_lines digest m p lines ≡ intact
  unfolding verify_lines
  verify_lines-shift n m p [] ok = refl
  verify_lines-shift n m p (blank ∷ lines) ok = verify_lines-shift (n + 1) (m + 1) p lines ok
  verify_lines-shift n m p (malformed ∷ lines) ok = cc
  verify_lines-shift n m p (entry b ∷ lines) ok =
      ground (arith, verify_lines-shift (n + 1) (m + 1) (some b.current_hash) lines)

  -- The first entry is linked to nothing, so a log without its first lines is accepted too.
  verify_lines-relax :
      (n m : ℕ) (p : Option H) (lines : List (Line H P F))
      → verify_lines digest n p lines ≡ intact
      → verify_lines digest m none lines ≡ intact
  unfolding verify_lines
  verify_lines-relax n m p [] ok = refl
  verify_lines-relax n m p (blank ∷ lines) ok = verify_lines-relax (n + 1) (m + 1) p lines ok
  verify_lines-relax n m p (malformed ∷ lines) ok = cc
  verify_lines-relax n m p (entry b ∷ lines) ok =
      ground (arith, verify_lines-shift (n + 1) (m + 1) (some b.current_hash) lines)

  -- Dropping any number of lines from the front of an accepted log leaves an accepted log.
  verify_lines-drop :
      (k n m : ℕ) (p : Option H) (lines : List (Line H P F))
      → verify_lines digest n p lines ≡ intact
      → verify_lines digest m none (drop k lines) ≡ intact
  unfolding verify_lines
  verify_lines-drop zero n m p lines ok = verify_lines-relax n m p lines ok
  verify_lines-drop (suc k) n m p [] ok = refl
  verify_lines-drop (suc k) n m p (blank ∷ lines) ok = verify_lines-drop k (n + 1) m p lines ok
  verify_lines-drop (suc k) n m p (malformed ∷ lines) ok = cc
  verify_lines-drop (suc k) n m p (entry b ∷ lines) ok =
      verify_lines-drop k (n + 1) m (some b.current_hash) lines
        ((verify_lines-head n p b lines ok).2)

  entry-eq : (x y : AuditEntry H P F) → x.body ≡ y.body → x.current_hash ≡ y.current_hash → x ≡ y
  entry-eq x y p q = λ i. record { body = p i; current_hash = q i }

  module _ (collision_free : (x y : AuditBody H P F) → digest x ≡ digest y → x ≡ y) where
    same_hash :
        (n m : ℕ) (p q : Option H) (a b : AuditEntry H P F) (xs ys : List (Line H P F))
        → verify_lines digest n p (entry a ∷ xs) ≡ intact
        → verify_lines digest m q (entry b ∷ ys) ≡ intact
        → a.current_hash ≡ b.current_hash
        → a ≡ b
    same_hash n m p q a b xs ys va vb h =
        let own_a = (verify_lines-head n p a xs va).0 in
        let own_b = (verify_lines-head m q b ys vb).0 in
        entry-eq a b (collision_free a.body b.body (sym own_a ∙ h ∙ own_b)) h

    -- The entry after `a` names the hash of `a`.
    named_hash :
        (n : ℕ) (p : Option H) (a b : AuditEntry H P F) (xs : List (Line H P F))
        → verify_lines digest n p (entry a ∷ entry b ∷ xs) ≡ intact
        → b.body.previous_hash ≡ a.current_hash
    named_hash n p a b xs ok =
        let rest = (verify_lines-head n p a (entry b ∷ xs) ok).2 in
        (e.beq_iff _ _).0 ((verify_lines-head (n + 1) (some a.current_hash) b xs rest).1)

    -- If `digest` has no collisions, an accepted log of entries, at least one, is determined by its last hash and its number of
    -- entries: no entry of it can be changed, exchanged or forged without changing the last hash.
    pub verify_lines_tamper_evident :
        (n m : ℕ) (p q : Option H) (xs ys : List (AuditEntry H P F))
        → verify_lines digest n p (map entry xs) ≡ intact
        → verify_lines digest m q (map entry ys) ≡ intact
        → length xs ≡ length ys
        → xs ≢ []
        → tip p (map entry xs) ≡ tip q (map entry ys)
        → xs ≡ ys
    verify_lines_tamper_evident n m p q [] ys vx vy len some_xs last = absurd (some_xs refl)
    verify_lines_tamper_evident n m p q (a ∷ xs) [] vx vy len some_xs last = absurd (omega arith)
    verify_lines_tamper_evident n m p q (a ∷ []) (b ∷ []) vx vy len some_xs last =
        ap (λ x. x ∷ []) (same_hash n m p q a b [] [] vx vy (some-injective _ _ last))
    verify_lines_tamper_evident n m p q (a ∷ []) (b ∷ b' ∷ ys) vx vy len some_xs last =
        absurd (omega arith)
    verify_lines_tamper_evident n m p q (a ∷ a' ∷ xs) (b ∷ []) vx vy len some_xs last =
        absurd (omega arith)
    verify_lines_tamper_evident n m p q (a ∷ a' ∷ xs) (b ∷ b' ∷ ys) vx vy len some_xs last =
        let tail_a = (verify_lines-head n p a _ vx).2 in
        let tail_b = (verify_lines-head m q b _ vy).2 in
        let rest : a' ∷ xs ≡ b' ∷ ys =
          verify_lines_tamper_evident (n + 1) (m + 1) (some a.current_hash) (some b.current_hash)
            (a' ∷ xs) (b' ∷ ys) tail_a tail_b (omega arith) (cc) last in
        let next : a' ≡ b' = cc in
        let here : a.current_hash ≡ b.current_hash =
          sym (named_hash n p a a' _ vx)
          ∙ ap (λ x. x.body.previous_hash) next
          ∙ named_hash m q b b' _ vy in
        ap₂ (λ x r. x ∷ r) (same_hash n m p q a b _ _ vx vy here) rest
