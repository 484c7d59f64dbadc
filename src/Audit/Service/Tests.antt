-- ===== src/Audit/Service/Tests.antt =====
-- The consumption loop and the verification rounds of services/layer6_audit at concrete runs.
use algo_trading_platform.Base.{ℕ, ◌≡◌, ◌≢◌, refl, false, some, List, [], ◌∷◌, String, length, ◌*◌}
use algo_trading_platform.Base.Dict.{string_eq}
use algo_trading_platform.Audit.{Files, entry}
use algo_trading_platform.Audit.Writer.{
  AuditEvent, AuditWriter, RotationContext, new_writer, build_and_write, check_and_rotate,
}
use algo_trading_platform.Audit.Verifier.{intact, verify_chain}
use algo_trading_platform.Audit.Verifier.Tests.{Fields, keep, hash_eq, genesis, opened}
use algo_trading_platform.Audit.Service.{AuditService, new_service, consume, consume_all}
use algo_trading_platform.Audit.Service.Integrity.{
  AllFresh, service_keeps_chain, restart_breaks_chain,
}

abbrev event : String → ℕ → AuditEvent ℕ ℕ
event id time = record {
  entry_id = id;
  timestamp_utc = time;
  event_type = "ORDER_DECISION";
  source_layer = 4;
  payload = 7;
  trust_score = 1;
  anomaly_score = 0;
  system_state = "NORMAL";
}

-- Rotation once a file holds two lines of 200 bytes.
abbrev rotation : String → RotationContext (List Fields) ℕ ℕ
rotation path = record {
  max_size_bytes = 400;
  file_size_bytes = λ lines. 200 * length lines;
  new_path = path;
  close_event = record (event "close" 900) { event_type = "ROTATION" };
  open_event = record (event "open" 901) { event_type = "ROTATION" };
}

abbrev messages : List (RotationContext (List Fields) ℕ ℕ × AuditEvent ℕ ℕ)
messages =
    (rotation "audit_1.log", event "a" 1)
    ∷ (rotation "audit_2.log", event "b" 2)
    ∷ (rotation "audit_3.log", event "c" 3)
    ∷ []

messages-AllFresh : AllFresh keep messages (new_service genesis "audit.log")
unfolding consume check_and_rotate build_and_write
messages-AllFresh = ((refl, refl), ((refl, refl), ((refl, refl), tt)))

service_keeps_chain_example :
    verify_chain keep "audit.log"
      (consume_all keep messages (new_service genesis "audit.log")).files
    ≡ intact
service_keeps_chain_example =
    service_keeps_chain keep genesis "audit.log" messages "audit.log" messages-AllFresh

abbrev two_lines : Files (List Fields) ℕ ℕ
two_lines =
    (
      "audit.log",
      entry (record { body = opened; current_hash = keep opened })
          ∷ entry (record { body = opened; current_hash = keep opened })
          ∷ [],
    )
    ∷ []

abbrev writer : AuditWriter (List Fields)
writer = record { file_path = "audit.log"; last_hash = keep opened; writes_halted = false }

restart_breaks_chain_example :
    verify_chain keep "audit.log"
      (build_and_write keep (event "a" 1) (new_writer genesis "audit.log", two_lines)).1
    ≢ intact
restart_breaks_chain_example =
    restart_breaks_chain keep genesis "audit.log" (event "a" 1) two_lines (keep opened) refl
      (λ e. cc)

abbrev rotated_service : AuditService (List Fields) ℕ ℕ
rotated_service = record {
  first = writer;
  replaced = some (record writer { file_path = "audit_1.log" });
  files = two_lines;
}
