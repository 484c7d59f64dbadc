-- ===== src/HashLog/Tests.antt =====
-- The hash chain of services/layer1_hashlog/hash_chain.py at concrete runs. The digest here is a number.
use algo_trading_platform.Base.{
  ℕ, ◌+◌, ◌*◌, ◌==◌, ◌≡◌, ◌≢◌, ◌↔◌, refl, true, false, none, some, List, [], ◌∷◌, All, length,
  arith,
}
use algo_trading_platform.Base.Dict.{Eq}
use algo_trading_platform.HashLog.{
  TickBody, LogLine, AppendRequest, HashChainLogger, lines_of, new_logger, write_entry,
  rotate_if_needed, stop, write_entries, run_once, start, append, is_full,
}
use algo_trading_platform.HashLog.Verify.{verify_hash_chain, is_ok}
use algo_trading_platform.HashLog.Links.{IsSound, verify_hash_chain_iff}
use algo_trading_platform.HashLog.History.{appending, writing, written, history}
use algo_trading_platform.HashLog.Reach.{Reach, here, next, IsVerified, reachable_files-IsVerified}
use algo_trading_platform.HashLog.Faults.{
  has_entry, start-stop, restart_after_rotation_breaks_chain, dropped_entry_breaks_chain,
}

same_number : (a b : ℕ) → ((a == b) ≡ true) ↔ (a ≡ b)
same_number a b = ((λ h. ground arith), (λ h. ground arith))

instance abbrev number_eq : Eq ℕ
number_eq = record { beq = λ a b. a == b; beq_iff = same_number }

abbrev mix : TickBody ℕ ℕ → ℕ
mix b = 31 * b.previous_hash + b.received_timestamp_ms + b.consensus_mid + 1

abbrev bytes : List (LogLine ℕ ℕ) → ℕ
bytes lines = 100 * length lines

abbrev request : ℕ → AppendRequest ℕ ℕ
request time = record {
  symbol = "BTC-USDT";
  consensus_mid = 5;
  trust_score = 1;
  received_timestamp_ms = time;
  primary_exchange = none;
  primary_mid_price = none;
  used_sources = some ("binance" ∷ "okx" ∷ []);
  divergent_sources = none;
  previous_hash = none;
}

-- A queue of one entry and files of two.
abbrev started : HashChainLogger ℕ ℕ
started = start 0 bytes (new_logger 0 1 200)

abbrev after_one : HashChainLogger ℕ ℕ
after_one = (append mix (request 10) started).0

abbrev after_write : HashChainLogger ℕ ℕ
after_write = run_once 0 bytes after_one

abbrev after_two : HashChainLogger ℕ ℕ
after_two = (append mix (request 20) after_write).0

abbrev after_rotation : HashChainLogger ℕ ℕ
after_rotation = run_once 0 bytes after_two

one_reached : Reach mix 0 bytes started after_one
unfolding start
one_reached = next here (appending (request 10) refl refl refl)

write_reached : Reach mix 0 bytes started after_write
write_reached = next one_reached (writing refl)

two_reached : Reach mix 0 bytes started after_two
unfolding start append run_once rotate_if_needed write_entry
two_reached = next write_reached (appending (request 20) refl refl refl)

rotation_reached : Reach mix 0 bytes started after_rotation
rotation_reached = next two_reached (writing refl)

rotated_once : after_rotation.total_rotations ≡ 1
unfolding start append run_once rotate_if_needed write_entry
rotated_once = refl

verify_hash_chain_iff_example :
    (is_ok (verify_hash_chain mix none 1 0 none (lines_of after_two)) ≡ true)
    ↔ IsSound mix none (lines_of after_two)
verify_hash_chain_iff_example = verify_hash_chain_iff mix none (lines_of after_two)

reachable_files-IsVerified_example :
    All (IsVerified mix 0 bytes) after_rotation.closed
    × IsVerified mix 0 bytes (lines_of after_rotation)
    × (is_ok (verify_hash_chain mix none 1 0 (some 0) (written after_rotation)) ≡ true)
reachable_files-IsVerified_example = reachable_files-IsVerified mix 0 bytes 1 200 rotation_reached

two_stopped : has_entry (lines_of (stop after_two)) ≡ true
unfolding start append run_once rotate_if_needed write_entry stop write_entries
two_stopped = refl

start-stop_example :
    let l' = start 0 bytes (stop after_two) in
    (l'.tip ≡ after_two.tip) × (history l' ≡ history after_two)
start-stop_example = start-stop mix 0 bytes 1 200 two_reached two_stopped

rotated_empty : lines_of (stop after_rotation) ≡ []
unfolding start append run_once rotate_if_needed write_entry stop write_entries
rotated_empty = refl

rotated_tip : after_rotation.tip ≢ 0
unfolding start append run_once rotate_if_needed write_entry
rotated_tip e = omega arith

restart_after_rotation_breaks_chain_example :
    let l' = (append mix (request 30) (start 0 bytes (stop after_rotation))).0 in
    is_ok (verify_hash_chain mix none 1 0 (some 0) (history l')) ≡ false
restart_after_rotation_breaks_chain_example =
    restart_after_rotation_breaks_chain mix 0 bytes 1 200 rotation_reached (request 30) refl
      rotated_empty rotated_tip

one_full : is_full after_one ≡ true
unfolding start append
one_full = refl

dropped_tip : (append mix (request 20) after_one).0.tip ≢ after_one.tip
unfolding start append
dropped_tip e = omega arith

room_after : is_full (run_once 0 bytes (append mix (request 20) after_one).0) ≡ false
unfolding start append run_once rotate_if_needed write_entry
room_after = refl

dropped_entry_breaks_chain_example :
    let dropped = (append mix (request 20) after_one).0 in
    is_ok (
      verify_hash_chain mix none 1 0
        (some 0)
        (history (append mix (request 30) (run_once 0 bytes dropped)).0))
    ≡ false
dropped_entry_breaks_chain_example =
    dropped_entry_breaks_chain mix 0 bytes 1 200 one_reached (request 20) (request 30) refl one_full
      dropped_tip room_after
