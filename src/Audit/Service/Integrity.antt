-- ===== src/Audit/Service/Integrity.antt =====
-- The hash chain over messages, restarts and verification rounds of services/layer6_audit.
use algo_trading_platform.Base.{
  ◌≡◌, ◌≢◌, refl, true, false, none, some, List, [], ◌∷◌, ◌++◌, String, arith, if◌then◌else◌, inl,
  inr, Bool-cases, sym, ◌∙◌,
}
use mathlib.Core.Path.{subst}
use algo_trading_platform.Base.Dict.{Eq, string_eq, lookup, lookup-insert}
use algo_trading_platform.Audit.{AuditBody, entry, Files, read, append_line}
use algo_trading_platform.Audit.Writer.{
  AuditWriter, AuditEvent, RotationContext, new_writer, build, build_and_write, check_and_rotate,
}
use algo_trading_platform.Audit.Verifier.{intact, links, verify_lines, verify_chain}
use algo_trading_platform.Audit.Verifier.Chain.{tip, verify_lines-snoc_links}
use algo_trading_platform.Audit.Service.{
  AuditService, new_service, current_writer, update_writer, consume, consume_all, verify_round,
}
use algo_trading_platform.Audit.Writer.Chain.{
  IsSound, read-append_self, build_and_write-IsSound, check_and_rotate-IsSound,
}

module _ {H P F : Type 0} ⦃e : Eq H⦄ (digest : AuditBody H P F → H) where
  kept-writer :
      (c : RotationContext H P F) (w : AuditWriter H) (files : Files H P F)
      → let (rotated, closed, current, files') = check_and_rotate digest c (w, files) in
        rotated ≡ false → current ≡ closed
  unfolding check_and_rotate
  kept-writer c w files = ground arith

  update_writer-files :
      (s : AuditService H P F) (w : AuditWriter H) (files : Files H P F)
      → (update_writer s w files).files ≡ files
  update_writer-files s w files = ground arith

  update_writer-current :
      (s : AuditService H P F) (w : AuditWriter H) (files : Files H P F)
      → current_writer (update_writer s w files) ≡ w
  update_writer-current s w files = ground arith

  lookup_written :
      (v : AuditEvent P F) (w : AuditWriter H) (files : Files H P F) (path : String)
      → lookup path files ≡ none
      → string_eq.beq w.file_path path ≡ false
      → lookup path (build_and_write digest v (w, files)).1 ≡ none
  unfolding build_and_write
  lookup_written v w files path fresh apart = ground (
    arith,
    lookup-insert w.file_path path (read w.file_path files ++ entry (build digest w v) ∷ []) files,
  )

  path_written :
      (v : AuditEvent P F) (w : AuditWriter H) (files : Files H P F) (path : String)
      → string_eq.beq w.file_path path ≡ false
      → string_eq.beq (build_and_write digest v (w, files)).0.file_path path ≡ false
  unfolding build_and_write
  path_written v w files path apart = apart

  -- The path of a rotation is not in use, and is not that of the writer.
  abbrev pub IsFresh : RotationContext H P F → AuditService H P F → Type 0
  IsFresh c s =
      (lookup c.new_path s.files ≡ none)
      × (string_eq.beq (current_writer s).file_path c.new_path ≡ false)

  consume-IsSound :
      (c : RotationContext H P F) (v : AuditEvent P F) (s : AuditService H P F)
      → IsFresh c s
      → IsSound digest (current_writer s, s.files)
      → IsSound digest (current_writer (consume digest c v s), (consume digest c v s).files)
  unfolding consume
  consume-IsSound c v s (fresh, apart) sound =
      let w = current_writer s in
      let (w', files) = build_and_write digest v (w, s.files) in
      let r = check_and_rotate digest c (w', files) in
      let wrote = build_and_write-IsSound digest v w s.files sound in
      let still : lookup c.new_path files ≡ none =
        lookup_written v w s.files c.new_path fresh apart in
      let after : IsSound digest (r.2, r.3) =
        check_and_rotate-IsSound digest c w' files still (path_written v w s.files c.new_path apart)
          wrote in
      elim (Bool-cases w.writes_halted) [
        | inl halted ↦ rw halted sound
        | inr run ↦ elim (Bool-cases r.0) [
          | inl rotated ↦ rw (run, rotated, update_writer-files s r.1 r.3) after
          | inr kept ↦
              rw (run, kept, update_writer-files s r.1 r.3, update_writer-current s r.1 r.3)
                (subst (λ x. IsSound digest (x, r.3)) (kept-writer c w' files kept) after)
        ]
      ]

  -- No rotation of the run goes to a path in use.
  abbrev pub AllFresh : List (RotationContext H P F × AuditEvent P F) → AuditService H P F → Type 0
  AllFresh [] s = Unit
  AllFresh ((c, v) ∷ cs) s = IsFresh c s × AllFresh cs (consume digest c v s)

  consume_all-IsSound :
      (cs : List (RotationContext H P F × AuditEvent P F)) (s : AuditService H P F)
      → AllFresh cs s
      → IsSound digest (current_writer s, s.files)
      → IsSound digest (current_writer (consume_all digest cs s), (consume_all digest cs s).files)
  unfolding consume_all
  consume_all-IsSound [] s fresh sound = sound
  consume_all-IsSound ((c, v) ∷ cs) s (now, later) sound =
      consume_all-IsSound cs (consume digest c v s) later (consume-IsSound c v s now sound)

  sound_empty : verify_lines digest 1 none [] ≡ intact
  unfolding verify_chain
  sound_empty = refl

  verify_chain_lem :
      (path : String) (files : Files H P F)
      → verify_chain digest path files ≡ verify_lines digest 1 none (read path files)
  unfolding verify_chain
  verify_chain_lem path files = ground arith

  module _ (genesis : H) (path : String) where
    -- From a service without log files, after any messages and with rotations only to paths that are not
    -- in use, the verifier accepts every log file.
    pub service_keeps_chain :
        (cs : List (RotationContext H P F × AuditEvent P F)) (log : String)
        → AllFresh cs (new_service genesis path)
        → verify_chain digest log (consume_all digest cs (new_service genesis path)).files ≡ intact
    service_keeps_chain cs log fresh =
        rw (verify_chain_lem log (consume_all digest cs (new_service genesis path)).files) (
          (consume_all-IsSound cs (new_service genesis path) fresh
              ((λ _. sound_empty), λ a _. refl)).0
            log)

    -- A new writer on a log whose last hash is not the genesis hash, as after a restart of the service,
    -- breaks the chain with its first entry: the verifier no longer accepts the log.
    pub restart_breaks_chain :
        (v : AuditEvent P F) (files : Files H P F) (last : H)
        → tip none (read path files) ≡ some last
        → last ≢ genesis
        → verify_chain digest path (build_and_write digest v (new_writer genesis path, files)).1
          ≢ intact
    unfolding build_and_write
    restart_breaks_chain v files last ends other ok =
        let w : AuditWriter H = new_writer genesis path in
        let a = build digest w v in
        let all : verify_lines digest 1 none (read path files ++ entry a ∷ []) ≡ intact =
          subst (λ x. verify_lines digest 1 none x ≡ intact)
            (read-append_self digest path (entry a) files)
            (sym (verify_chain_lem path (append_line path (entry a) files)) ∙ ok) in
        let linked : links (some last) a ≡ true =
          subst (λ x. links x a ≡ true) ends
            (verify_lines-snoc_links digest 1 none (read path files) a all) in
        other (sym ((e.beq_iff _ _).0 linked))

  consume-files :
      (c : RotationContext H P F) (v : AuditEvent P F) (s : AuditService H P F)
      → (consume digest c v s).files ≡ (
          if (current_writer s).writes_halted
          then s.files
          else (check_and_rotate digest c (build_and_write digest v (current_writer s, s.files))).3)
  unfolding consume
  consume-files c v s =
      let r = check_and_rotate digest c (build_and_write digest v (current_writer s, s.files)) in
      elim (Bool-cases (current_writer s).writes_halted) [
        | inl halted ↦ rw halted refl
        | inr run ↦ elim (Bool-cases r.0) [
          | inl rotated ↦ rw (run, rotated, update_writer-files s r.1 r.3)
          | inr kept ↦ rw (run, kept, update_writer-files s r.1 r.3)
        ]
      ]

  verify_round-keeps :
      (path : String) (s : AuditService H P F)
      → ((verify_round digest path s).files ≡ s.files)
        × ((verify_round digest path s).replaced ≡ s.replaced)
  unfolding verify_round verify_chain
  verify_round-keeps path s = ground arith

  verify_round-writer :
      (path : String) (s : AuditService H P F) {w : AuditWriter H}
      → s.replaced ≡ some w
      → current_writer (verify_round digest path s) ≡ current_writer s
  verify_round-writer path s rotated = rw ((verify_round-keeps path s).1, rotated)

  -- After a rotation the background check halts nothing: whatever it finds in the first file, the next
  -- message is written as if it had not run.
  verify_round_after_rotation :
      (path : String) (c : RotationContext H P F) (v : AuditEvent P F) (s : AuditService H P F)
      {w : AuditWriter H}
      → s.replaced ≡ some w
      → (consume digest c v (verify_round digest path s)).files ≡ (consume digest c v s).files
  verify_round_after_rotation path c v s rotated = rw (
    consume-files c v (verify_round digest path s),
    consume-files c v s,
    verify_round-writer path s rotated,
    (verify_round-keeps path s).0,
  )
