-- ===== src/Audit/Service.antt =====
-- services/layer6_audit/service.py: the consumption loop of `main`, and one round of the background
-- verification of verifier.py (`start_background_verification`), which keeps the writer object and the
-- path of the start. `replaced` is `none` while the manager's `current_writer` is that first object.
pub mod Integrity
mod Tests
use algo_trading_platform.Base.{
  Bool, true, false, Option, none, some, List, [], ◌∷◌, String, if◌then◌else◌,
}
use algo_trading_platform.Base.Dict.{Eq}
use algo_trading_platform.Audit.{AuditBody, Files}
use algo_trading_platform.Audit.Writer.{
  AuditWriter, AuditEvent, RotationContext, new_writer, build_and_write, check_and_rotate,
}
use algo_trading_platform.Audit.Verifier.{Verdict, intact, broken_entry, broken_line, verify_chain}

pub record AuditService (H P F : Type 0) : Type 0 where
  pub first : AuditWriter H
  pub replaced : Option (AuditWriter H)
  pub files : Files H P F

module _ {H P F : Type 0} where
  -- `rotation_manager.current_writer`
  abbrev pub current_writer : AuditService H P F → AuditWriter H
  current_writer s = elim s.replaced [ none ↦ s.first | some w ↦ w ]

  -- A write through the object that `current_writer` names.
  abbrev pub update_writer : AuditService H P F → AuditWriter H → Files H P F → AuditService H P F
  update_writer s w files = elim s.replaced [
    | none ↦ record s { first = w; files = files }
    | some _ ↦ record s { replaced = some w; files = files }
  ]

  -- The manager, its first writer and no log file yet.
  abbrev pub new_service : H → String → AuditService H P F
  new_service genesis path = record { first = new_writer genesis path; replaced = none; files = [] }

  module _ (digest : AuditBody H P F → H) where
    -- One message: skipped while writes are halted, else written, with a rotation if it is due.
    unfoldable pub consume :
        RotationContext H P F → AuditEvent P F → AuditService H P F → AuditService H P F
    consume c v s =
        let (rotated, closed, opened, files') =
          check_and_rotate digest c (build_and_write digest v (current_writer s, s.files)) in
        let written = update_writer s closed files' in
        if (current_writer s).writes_halted
        then s
        else if rotated
        then record written { replaced = some opened }
        else written

    pub consume_all :
        List (RotationContext H P F × AuditEvent P F) → AuditService H P F → AuditService H P F
    consume_all [] s = s
    consume_all ((c, v) ∷ cs) s = consume_all cs (consume c v s)

    -- One round of `verification_loop`.
    unfoldable pub verify_round : ⦃e : Eq H⦄ → String → AuditService H P F → AuditService H P F
    unfolding verify_chain
    verify_round path s = elim (verify_chain digest path s.files) [
      | intact ↦ s
      | broken_entry id ↦ record s { first = record (s.first) { writes_halted = true } }
      | broken_line n ↦ record s { first = record (s.first) { writes_halted = true } }
    ]
