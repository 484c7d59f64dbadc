-- ===== src/Audit/Writer/Chain.antt =====
-- The hash chain over a write (services/layer6_audit/writer.py) and a rotation (rotation.py).
use algo_trading_platform.Base.{
  ◌≡◌, refl, true, false, none, some, [], ◌∷◌, ◌++◌, String, arith, ltb, if◌then◌else◌, inl, inr,
  Bool-cases,
}
use text.Mathlib.TextEquality.{eq_iff}
use text.Mathlib.TextPositions.{eq_refl}
use algo_trading_platform.Base.Dict.{Eq, string_eq, lookup, lookup-insert}
use algo_trading_platform.Audit.{AuditBody, AuditEntry, Line, entry, Files, read, append_line}
use algo_trading_platform.Audit.Writer.{
  AuditWriter, AuditEvent, RotationContext, new_writer, build, build_and_write, check_and_rotate,
}
use algo_trading_platform.Audit.Verifier.{intact, links, verify_lines}
use algo_trading_platform.Audit.Verifier.Chain.{tip, tip-snoc, verify_lines-snoc}

module _ {H P F : Type 0} ⦃e : Eq H⦄ (digest : AuditBody H P F → H) where
  -- `verify_chain` accepts every file.
  abbrev pub AllIntact : Files H P F → Type 0
  AllIntact files = (path : String) → verify_lines digest 1 none (read path files) ≡ intact

  -- The next entry of the writer fits at the end of its file.
  abbrev pub Continues : AuditWriter H → Files H P F → Type 0
  Continues w files =
      (a : AuditEntry H P F)
      → a.body.previous_hash ≡ w.last_hash
      → links (tip none (read w.file_path files)) a ≡ true

  abbrev pub IsSound : AuditWriter H × Files H P F → Type 0
  IsSound (w, files) = AllIntact files × Continues w files

  read-append_line :
      (path other : String) (line : Line H P F) (files : Files H P F)
      → read other (append_line path line files)
        ≡ (if string_eq.beq path other then read path files ++ line ∷ [] else read other files)
  read-append_line path other line files =
      ground (arith, lookup-insert path other (read path files ++ line ∷ []) files)

  pub read-append_self :
      (path : String) (line : Line H P F) (files : Files H P F)
      → read path (append_line path line files) ≡ read path files ++ line ∷ []
  read-append_self path line files = rw (read-append_line path path line files, eq_refl)

  build_and_write-AllIntact :
      (v : AuditEvent P F) (w : AuditWriter H) (files : Files H P F)
      → IsSound (w, files)
      → AllIntact (append_line w.file_path (entry (build digest w v)) files)
  build_and_write-AllIntact v w files (ok, fits) path =
      elim (Bool-cases (string_eq.beq w.file_path path)) [
        | inl same ↦
            rw (read-append_line w.file_path path (entry (build digest w v)) files, same)
              (verify_lines-snoc digest 1 none (read w.file_path files) (build digest w v)
                (ok w.file_path) (fits (build digest w v) refl) refl)
        | inr other ↦
            rw (read-append_line w.file_path path (entry (build digest w v)) files, other) (ok path)
      ]

  pub build_and_write-IsSound :
      (v : AuditEvent P F) (w : AuditWriter H) (files : Files H P F)
      → IsSound (w, files)
      → IsSound (build_and_write digest v (w, files))
  unfolding build_and_write
  build_and_write-IsSound v w files sound = (
    build_and_write-AllIntact v w files sound,
    λ a named.
        rw
          (
            read-append_self w.file_path (entry (build digest w v)) files,
            tip-snoc none (read w.file_path files) (build digest w v),
          )
          ((e.beq_iff _ _).1 named),
  )

  module _ (c : RotationContext H P F) (w : AuditWriter H) (files : Files H P F)
      (fresh : lookup c.new_path files ≡ none)
      (apart : string_eq.beq w.file_path c.new_path ≡ false) where
    abbrev pub closing : AuditEntry H P F
    closing = build digest w c.close_event

    read-new_path : read c.new_path (append_line w.file_path (entry closing) files) ≡ []
    read-new_path = ground (arith, read-append_line w.file_path c.new_path (entry closing) files)

    pub check_and_rotate-IsSound :
        IsSound (w, files)
        → let (rotated, closed, current, files') = check_and_rotate digest c (w, files) in
          IsSound (current, files')
    unfolding check_and_rotate
    check_and_rotate-IsSound sound =
        let closed = build_and_write-IsSound c.close_event w files sound in
        let opened : AuditWriter H = new_writer closing.current_hash c.new_path in
        let fits : Continues opened (append_line w.file_path (entry closing) files) =
          λ a named. rw read-new_path refl in
        let current = build_and_write-IsSound c.open_event opened _ (closed.0, fits) in
        elim (Bool-cases (ltb (c.file_size_bytes (read w.file_path files)) c.max_size_bytes)) [
          | inl small ↦ rw small sound
          | inr due ↦ rw due current
        ]

    -- When a file that has reached the size limit is rotated to a path that is not in use, the old file
    -- ends with the closing event, and the new file is one opening entry whose previous hash is the last
    -- hash of the old file.
    check_and_rotate_links :
        ltb (c.file_size_bytes (read w.file_path files)) c.max_size_bytes ≡ false
        → let (rotated, closed, current, files') = check_and_rotate digest c (w, files) in
          (rotated ≡ true)
          × (read w.file_path files' ≡ read w.file_path files ++ entry closing ∷ [])
          × (tip none (read w.file_path files') ≡ some closed.last_hash)
          × (read c.new_path files'
              ≡ entry (build digest (new_writer closed.last_hash c.new_path) c.open_event) ∷ [])
    unfolding check_and_rotate
    check_and_rotate_links due =
        let opening = build digest (new_writer closing.current_hash c.new_path) c.open_event in
        let files' = append_line w.file_path (entry closing) files in
        let swapped : string_eq.beq c.new_path w.file_path ≡ false =
          ground (arith, eq_iff c.new_path w.file_path, eq_iff w.file_path c.new_path) in
        let old : read w.file_path (append_line c.new_path (entry opening) files')
            ≡ read w.file_path files ++ entry closing ∷ [] =
          rw (read-append_line c.new_path w.file_path (entry opening) files', swapped)
            (read-append_self w.file_path (entry closing) files) in
        rw due (
          refl,
          old,
          rw (old, tip-snoc none (read w.file_path files) closing),
          rw (read-append_self c.new_path (entry opening) files', read-new_path),
        )
