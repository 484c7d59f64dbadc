-- ===== src/Audit/Writer.antt =====
-- services/layer6_audit/writer.py and rotation.py.
pub mod Chain
use algo_trading_platform.Base.{ℕ, Bool, true, false, String, ltb, if◌then◌else◌, List, []}
use algo_trading_platform.Base.Dict.{lookup, insert, string_eq}
use algo_trading_platform.Audit.{
  AuditBody, AuditEntry, Line, entry, Files, read, append_line, compute_hash,
}

pub record AuditWriter (H : Type 0) : Type 0 where
  pub file_path : String
  pub last_hash : H
  pub writes_halted : Bool

-- The arguments of `build_and_write`, with the id and the time that the call takes.
pub record AuditEvent (P F : Type 0) : Type 0 where
  pub entry_id : String
  pub timestamp_utc : ℕ
  pub event_type : String
  pub source_layer : ℕ
  pub payload : P
  pub trust_score : F
  pub anomaly_score : F
  pub system_state : String

-- What `check_and_rotate` takes from elsewhere: the limit, the size of a file in bytes, the path
-- f"{stem}_{timestamp}{suffix}", and the ids, times and payloads of the two ROTATION events.
pub record RotationContext (H P F : Type 0) : Type 0 where
  pub max_size_bytes : ℕ
  pub file_size_bytes : List (Line H P F) → ℕ
  pub new_path : String
  pub close_event : AuditEvent P F
  pub open_event : AuditEvent P F

-- `AuditWriter.__init__`
abbrev pub new_writer : {H : Type 0} → H → String → AuditWriter H
new_writer genesis path = record { file_path = path; last_hash = genesis; writes_halted = false }

module _ {H P F : Type 0} (digest : AuditBody H P F → H) where
  -- The entry that `build_and_write` makes.
  abbrev pub build : AuditWriter H → AuditEvent P F → AuditEntry H P F
  build w v =
      let body : AuditBody H P F = record {
        entry_id = v.entry_id;
        timestamp_utc = v.timestamp_utc;
        event_type = v.event_type;
        source_layer = v.source_layer;
        payload = v.payload;
        trust_score = v.trust_score;
        anomaly_score = v.anomaly_score;
        system_state = v.system_state;
        previous_hash = w.last_hash;
      } in
      record { body = body; current_hash = digest body }

  unfoldable pub build_and_write :
      AuditEvent P F → AuditWriter H × Files H P F → AuditWriter H × Files H P F
  build_and_write v (w, files) =
      let e = build w v in
      (record w { last_hash = e.current_hash }, append_line w.file_path (entry e) files)

  -- `check_and_rotate`: whether the log was rotated, the old writer, the current writer and the files.
  unfoldable pub check_and_rotate :
      RotationContext H P F
      → AuditWriter H × Files H P F
      → Bool × AuditWriter H × AuditWriter H × Files H P F
  unfolding build_and_write
  check_and_rotate c (w, files) =
      let (closed, files') = build_and_write c.close_event (w, files) in
      let opened : AuditWriter H = new_writer closed.last_hash c.new_path in
      let (current, files'') = build_and_write c.open_event (opened, files') in
      if ltb (c.file_size_bytes (read w.file_path files)) c.max_size_bytes
      then (false, w, w, files)
      else (true, closed, current, files'')
