-- ===== src/HashLog.antt =====
-- services/layer1_hashlog/hash_chain.py: the hash chain of validated ticks. A file is its list of lines, and
-- SHA-256 over the canonical JSON, the size of a file in bytes and the genesis hash are parameters. A write
-- to the open file succeeds, and the path of a new file is not in use.
pub mod Verify
pub mod Links
pub mod History
pub mod Reach
pub mod Faults
mod Tests
use algo_trading_platform.Base.{
  ℕ, suc, ◌+◌, Bool, true, false, ◌&&◌, Option, none, some, List, [], ◌∷◌, ◌++◌, String, length,
  map, ltb, leb, if◌then◌else◌,
}
use algo_trading_platform.Base.Dict.{Eq}

-- The fields of a `HashChainEntry` but `tick_hash`: what `compute_tick_hash` serialises.
pub record TickBody (H F : Type 0) : Type 0 where
  pub symbol : String
  pub primary_exchange : String
  pub primary_mid_price : F
  pub consensus_mid : F
  pub used_sources : List String
  pub divergent_sources : List String
  pub trust_score : F
  pub received_timestamp_ms : ℕ
  pub previous_hash : H

pub record HashChainEntry (H F : Type 0) : Type 0 where
  pub body : TickBody H F
  pub tick_hash : H

-- A line of a log file: an entry, white space, text that is not JSON, or JSON without a required field.
pub data LogLine (H F : Type 0) : Type 0 where
  logged : HashChainEntry H F → LogLine H F
  white invalid incomplete : LogLine H F

-- The arguments of `append`.
pub record AppendRequest (H F : Type 0) : Type 0 where
  pub symbol : String
  pub consensus_mid : F
  pub trust_score : F
  pub received_timestamp_ms : ℕ
  pub primary_exchange : Option String
  pub primary_mid_price : Option F
  pub used_sources : Option (List String)
  pub divergent_sources : Option (List String)
  pub previous_hash : Option H

-- The logger with the files of its directory: those that are closed, compressed by a rotation or left full
-- by a start, the latest first, and the latest file that is not compressed, if there is one.
pub record HashChainLogger (H F : Type 0) : Type 0 where
  pub closed : List (List (LogLine H F))
  pub current : Option (List (LogLine H F))
  pub is_open : Bool
  pub buffer_max : ℕ
  pub max_file_size_bytes : ℕ
  pub queue : List (HashChainEntry H F)
  pub tip : H
  pub total_entries : ℕ
  pub total_rotations : ℕ
  pub total_compressions : ℕ

module _ {A : Type 0} where
  abbrev pub or_default : Option A → A → A
  or_default none d = d
  or_default (some a) d = a

module _ {H F : Type 0} where
  abbrev pub lines_of : HashChainLogger H F → List (LogLine H F)
  lines_of l = or_default l.current []

  -- `__init__`, on a directory without log files
  abbrev pub new_logger : H → (buffer_max max_file_size_bytes : ℕ) → HashChainLogger H F
  new_logger genesis buffer_max max_file_size_bytes = record {
    closed = [];
    current = none;
    is_open = false;
    buffer_max = buffer_max;
    max_file_size_bytes = max_file_size_bytes;
    queue = [];
    tip = genesis;
    total_entries = 0;
    total_rotations = 0;
    total_compressions = 0;
  }

  -- The loop of `_load_tip_from_disk`: the `tick_hash` of the last line that is JSON and has one.
  abbrev pub last_hash : H → List (LogLine H F) → H
  last_hash h [] = h
  last_hash h (logged e ∷ lines) = last_hash e.tick_hash lines
  last_hash h (_ ∷ lines) = last_hash h lines

  -- `queue.Queue(maxsize)` takes no more, where 0 is no bound
  abbrev pub is_full : HashChainLogger H F → Bool
  is_full l = ltb 0 l.buffer_max && leb l.buffer_max (length l.queue)

  -- `_write_entry`
  unfoldable pub write_entry : HashChainEntry H F → HashChainLogger H F → HashChainLogger H F
  write_entry e l =
      if l.is_open
      then record l {
        current = some (lines_of l ++ logged e ∷ []);
        total_entries = l.total_entries + 1;
      }
      else l

  -- The flush of `stop`: every entry of the queue, in order.
  pub write_entries : List (HashChainEntry H F) → HashChainLogger H F → HashChainLogger H F
  write_entries [] l = l
  write_entries (e ∷ es) l = write_entries es (write_entry e l)

  unfoldable pub stop : HashChainLogger H F → HashChainLogger H F
  stop l = record (write_entries l.queue (record l { queue = [] })) { is_open = false }

  module _ (genesis : H) (file_size : List (LogLine H F) → ℕ) where
    -- `_load_tip_from_disk`
    abbrev pub load_tip_from_disk : HashChainLogger H F → H
    load_tip_from_disk l = last_hash genesis (lines_of l)

    -- `_rotate_if_needed`
    unfoldable pub rotate_if_needed : HashChainLogger H F → HashChainLogger H F
    rotate_if_needed l = elim l.current [
      | none ↦ l
      | some lines ↦
          if leb l.max_file_size_bytes (file_size lines)
          then record l {
            closed = lines ∷ l.closed;
            current = some [];
            is_open = true;
            total_compressions = l.total_compressions + 1;
            total_rotations = l.total_rotations + 1;
          }
          else l
    ]

    -- One round of `_run`.
    unfoldable pub run_once : HashChainLogger H F → HashChainLogger H F
    run_once l = elim l.queue [
      | [] ↦ l
      | e ∷ es ↦ rotate_if_needed (write_entry e (record l { queue = es }))
    ]

    -- `start`: the tip of the latest file, which is continued unless it is full.
    unfoldable pub start : HashChainLogger H F → HashChainLogger H F
    start l =
        let loaded : HashChainLogger H F = record l {
          tip = load_tip_from_disk l;
          is_open = true;
        } in
        elim l.current [
          | none ↦ record loaded { current = some [] }
          | some lines ↦
              if ltb (file_size lines) l.max_file_size_bytes
              then loaded
              else record loaded { closed = lines ∷ l.closed; current = some [] }
        ]

  module _ ⦃eq : Eq H⦄ (digest : TickBody H F → H) where
    -- The entry that `append` makes.
    abbrev pub make_entry : AppendRequest H F → H → HashChainEntry H F
    make_entry r prev =
        let body : TickBody H F = record {
          symbol = r.symbol;
          primary_exchange = or_default r.primary_exchange "binance";
          primary_mid_price = or_default r.primary_mid_price r.consensus_mid;
          consensus_mid = r.consensus_mid;
          used_sources = or_default r.used_sources [];
          divergent_sources = or_default r.divergent_sources [];
          trust_score = r.trust_score;
          received_timestamp_ms = r.received_timestamp_ms;
          previous_hash = prev;
        } in
        record { body = body; tick_hash = digest body }

    -- `append`: the logger, the hash and whether `previous_hash` is the tip.
    unfoldable pub append : AppendRequest H F → HashChainLogger H F → HashChainLogger H F × H × Bool
    append r l =
        let prev : H = or_default r.previous_hash l.tip in
        let e = make_entry r prev in
        let advanced : HashChainLogger H F = record l { tip = e.tick_hash } in
        (
          (if is_full l then advanced else record advanced { queue = l.queue ++ e ∷ [] }),
          e.tick_hash,
          eq.beq prev l.tip,
        )
