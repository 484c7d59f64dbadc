-- ===== src/Audit/Verifier.antt =====
-- services/layer6_audit/verifier.py: `verify_chain`.
pub mod Chain
pub mod Tests
use algo_trading_platform.Base.{
  ℕ, ◌+◌, Bool, true, Option, none, some, List, [], ◌∷◌, ◌++◌, String, if◌then◌else◌,
}
use algo_trading_platform.Base.Dict.{Eq, lookup, string_eq}
use algo_trading_platform.Audit.{
  AuditBody, AuditEntry, Line, entry, blank, malformed, Files, compute_hash,
}

-- (True, None), (False, entry_id) or (False, "line_<n>")
pub data Verdict : Type 0 where
  intact : Verdict
  broken_entry : String → Verdict
  broken_line : ℕ → Verdict

module _ {H P F : Type 0} ⦃e : Eq H⦄ where
  -- `previous_hash is not None and entry.previous_hash != previous_hash` does not hold
  abbrev pub links : Option H → AuditEntry H P F → Bool
  links none a = true
  links (some h) a = e.beq a.body.previous_hash h

  module _ (digest : AuditBody H P F → H) where
    -- The loop over the lines, from line `n` on, with `previous_hash`.
    pub verify_lines : ℕ → Option H → List (Line H P F) → Verdict
    verify_lines n previous [] = intact
    verify_lines n previous (blank ∷ lines) = verify_lines (n + 1) previous lines
    verify_lines n previous (malformed ∷ lines) = broken_line n
    verify_lines n previous (entry a ∷ lines) =
        let rest = verify_lines (n + 1) (some a.current_hash) lines in
        if e.beq a.current_hash (compute_hash digest a)
        then if links previous a then rest else broken_entry a.body.entry_id
        else broken_entry a.body.entry_id

    unfoldable pub verify_chain : String → Files H P F → Verdict
    unfolding verify_lines
    verify_chain path files = elim (lookup path files) [
      | none ↦ intact
      | some lines ↦ verify_lines 1 none lines
    ]
