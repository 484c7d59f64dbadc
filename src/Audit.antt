-- ===== src/Audit.antt =====
-- services/layer6_audit: the entries and their hash (engine.py), `AuditWriter` (writer.py),
-- `RotationManager` (rotation.py), `AuditVerifier.verify_chain` (verifier.py) and the loop of
-- service.py. A log file is its list of lines: writing a line with `json.dumps` and reading it back with
-- `json.loads` gives the same entry. SHA-256 over the canonical JSON is the parameter `digest`, and
-- the size of a file in bytes, the new file's name and the ids and times of entries are parameters too.
pub mod Writer
pub mod Verifier
pub mod Service
use algo_trading_platform.Base.{ℕ, Bool, Option, none, some, List, [], ◌∷◌, ◌++◌, String}
use algo_trading_platform.Base.Dict.{Dict, lookup, insert, string_eq}

-- The fields of an `AuditEntry` but `current_hash`: what `compute_hash` serialises.
pub record AuditBody (H P F : Type 0) : Type 0 where
  pub entry_id : String
  pub timestamp_utc : ℕ
  pub event_type : String
  pub source_layer : ℕ
  pub payload : P
  pub trust_score : F
  pub anomaly_score : F
  pub system_state : String
  pub previous_hash : H

pub record AuditEntry (H P F : Type 0) : Type 0 where
  pub body : AuditBody H P F
  pub current_hash : H

-- A line of a log file: an entry, white space, or text that is not the JSON of an entry.
pub data Line (H P F : Type 0) : Type 0 where
  entry : AuditEntry H P F → Line H P F
  blank malformed : Line H P F

-- The log files by their paths.
abbrev pub Files : Type 0 → Type 0 → Type 0 → Type 0
Files H P F = Dict String (List (Line H P F))

module _ {H P F : Type 0} where
  abbrev pub read : String → Files H P F → List (Line H P F)
  read path files = elim (lookup path files) [ none ↦ [] | some lines ↦ lines ]

  -- `open(path, 'a')` and one `write`
  abbrev pub append_line : String → Line H P F → Files H P F → Files H P F
  append_line path line files = insert path (read path files ++ line ∷ []) files

  -- `compute_hash`
  abbrev pub compute_hash : (AuditBody H P F → H) → AuditEntry H P F → H
  compute_hash digest e = digest e.body
