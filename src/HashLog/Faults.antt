-- ===== src/HashLog/Faults.antt =====
-- Restarts and dropped entries in services/layer1_hashlog/hash_chain.py.
use algo_trading_platform.Base.{
  ℕ, ◌≡◌, ◌≢◌, refl, sym, ap, ◌∙◌, Bool, true, false, none, some, List, [], ◌∷◌, ◌++◌, map, inl,
  inr, Bool-cases, arith,
}
use mathlib.Core.List.{append-nil}
use algo_trading_platform.Base.Dict.{Eq}
use algo_trading_platform.HashLog.{
  TickBody, HashChainEntry, LogLine, logged, white, invalid, incomplete, AppendRequest,
  HashChainLogger, or_default, lines_of, new_logger, last_hash, is_full, write_entry, write_entries,
  stop, run_once, start, make_entry, append,
}
use algo_trading_platform.HashLog.Verify.{
  IsChain-split, accepted-IsChain, last_hash-append, verify_hash_chain, is_ok,
}
use algo_trading_platform.HashLog.History.{
  joined, written, history, run_once-keeps, write_entry-history, write_entry-keeps,
}
use algo_trading_platform.HashLog.Reach.{Reach, Reach-IsSound, start-IsSound, append-history}

module _ {H F : Type 0} where
  -- Some line of the file is an entry.
  abbrev pub has_entry : List (LogLine H F) → Bool
  has_entry [] = false
  has_entry (logged e ∷ lines) = true
  has_entry (_ ∷ lines) = has_entry lines

  last_hash_any :
      (h k : H) (lines : List (LogLine H F))
      → has_entry lines ≡ true
      → last_hash h lines ≡ last_hash k lines
  last_hash_any h k [] some_entry = cc
  last_hash_any h k (logged e ∷ lines) some_entry = refl
  last_hash_any h k (white ∷ lines) some_entry = last_hash_any h k lines some_entry
  last_hash_any h k (invalid ∷ lines) some_entry = last_hash_any h k lines some_entry
  last_hash_any h k (incomplete ∷ lines) some_entry = last_hash_any h k lines some_entry

  write_entries-history :
      (es : List (HashChainEntry H F)) (l : HashChainLogger H F)
      → l.is_open ≡ true
      → (written (write_entries es l) ≡ written l ++ map logged es)
        × ((write_entries es l).queue ≡ l.queue)
        × ((write_entries es l).tip ≡ l.tip)
  unfolding write_entries
  write_entries-history [] l h = (sym (append-nil (written l)), refl, refl)
  write_entries-history (e ∷ es) l h =
      let (q, t, o) = write_entry-keeps e l h in
      let (a, b, c) = write_entries-history es (write_entry e l) o in
      (a ∙ write_entry-history e es l h, b ∙ q, c ∙ t)

  -- A stop writes what is in the queue, and nothing else.
  stop-history :
      (l : HashChainLogger H F)
      → l.is_open ≡ true
      → (written (stop l) ≡ history l) × ((stop l).queue ≡ []) × ((stop l).tip ≡ l.tip)
  unfolding stop
  stop-history l h = write_entries-history l.queue (record l { queue = [] }) h

module _ {H F : Type 0} where
  empty_has_room : (l : HashChainLogger H F) → l.queue ≡ [] → is_full l ≡ false
  empty_has_room l e = ground arith

module _ {H F : Type 0} (genesis : H) (file_size : List (LogLine H F) → ℕ) where
  start-history :
      (l : HashChainLogger H F)
      → (written (start genesis file_size l) ≡ written l)
        × ((start genesis file_size l).queue ≡ l.queue)
        × ((start genesis file_size l).tip ≡ last_hash genesis (lines_of l))
  unfolding start
  start-history l =
      ground (arith, append-nil (joined l.closed ++ lines_of l), append-nil (joined l.closed))

module _ {H F : Type 0} ⦃eq : Eq H⦄ (digest : TickBody H F → H) (genesis : H)
    (file_size : List (LogLine H F) → ℕ) where
  -- A log whose last entry does not name the last hash before it is rejected.
  mismatch_rejected :
      (xs : List (LogLine H F)) (e : HashChainEntry H F)
      → e.body.previous_hash ≢ last_hash genesis xs
      → is_ok (verify_hash_chain digest none 1 0 (some genesis) (xs ++ logged e ∷ [])) ≡ false
  mismatch_rejected xs e other =
      elim (Bool-cases
        (is_ok (verify_hash_chain digest none 1 0 (some genesis) (xs ++ logged e ∷ [])))) [
          | inl ok ↦
              let c = accepted-IsChain digest 1 0 (some genesis) (xs ++ logged e ∷ []) ok in
              let link = (IsChain-split digest genesis xs (logged e ∷ []) c).1 in
              absurd (other ((eq.beq_iff _ _).0 (link.0)))
          | inr rejected ↦ rejected
        ]

  -- A plain request on a logger whose tip is not the last hash of its log.
  next_rejected :
      (r : AppendRequest H F) (l : HashChainLogger H F)
      → r.previous_hash ≡ none
      → is_full l ≡ false
      → l.tip ≢ last_hash genesis (history l)
      → is_ok (verify_hash_chain digest none 1 0 (some genesis) (history (append digest r l).0))
        ≡ false
  next_rejected r l plain room other =
      let e = make_entry digest r (or_default r.previous_hash l.tip) in
      let named : or_default r.previous_hash l.tip ≡ l.tip = rw plain refl in
      rw (append-history digest genesis file_size r l room)
        (mismatch_rejected (history l) e (λ p. other (sym named ∙ p)))

  append_full :
      (r : AppendRequest H F) (l : HashChainLogger H F)
      → is_full l ≡ true
      → (history (append digest r l).0 ≡ history l) × ((append digest r l).0.is_open ≡ l.is_open)
  unfolding append
  append_full r l full = (rw full refl, ground arith)

  module _ (buffer_max size : ℕ) {l : HashChainLogger H F}
      (reached : Reach digest genesis file_size
        (start genesis file_size (new_logger genesis buffer_max size))
        l) where
    -- A stop and a start restore the chain: where the latest file has an entry, the tip that is read back
    -- from disk is the tip before the stop, and the files hold what was written or waited in the queue.
    pub start-stop :
        has_entry (lines_of (stop l)) ≡ true
        → let l' = start genesis file_size (stop l) in (l'.tip ≡ l.tip) × (history l' ≡ history l)
    start-stop some_entry =
        let s =
          Reach-IsSound digest genesis file_size reached
            (start-IsSound digest genesis file_size buffer_max size) in
        let (w, q, t) = stop-history l s.opened in
        let (w', q', t') = start-history genesis file_size (stop l) in
        let all : last_hash genesis (written (stop l)) ≡ l.tip = rw w s.tipped in
        let here : last_hash genesis (lines_of (stop l)) ≡ l.tip =
          last_hash_any genesis (last_hash genesis (joined (stop l).closed)) (lines_of (stop l))
            some_entry
          ∙ sym (last_hash-append genesis (joined (stop l).closed) (lines_of (stop l)))
          ∙ all in
        (t' ∙ here, rw (w', q', q, w, append-nil (history l)) refl)

    -- Where the latest file is empty, as after a rotation, a stop and a start put the tip back to the
    -- genesis hash: unless that was the tip, the next entry breaks the chain of all the files in a row.
    pub restart_after_rotation_breaks_chain :
        (r : AppendRequest H F)
        → r.previous_hash ≡ none
        → lines_of (stop l) ≡ []
        → l.tip ≢ genesis
        → let l' = (append digest r (start genesis file_size (stop l))).0 in
          is_ok (verify_hash_chain digest none 1 0 (some genesis) (history l')) ≡ false
    restart_after_rotation_breaks_chain r plain empty other =
        let s =
          Reach-IsSound digest genesis file_size reached
            (start-IsSound digest genesis file_size buffer_max size) in
        let l1 = start genesis file_size (stop l) in
        let (w, q, t) = stop-history l s.opened in
        let (w', q', t') = start-history genesis file_size (stop l) in
        let same : history l1 ≡ history l = rw (w', q', q, w, append-nil (history l)) refl in
        let reset : l1.tip ≡ genesis = t' ∙ ap (last_hash genesis) empty in
        next_rejected r l1 plain (empty_has_room l1 (q' ∙ q))
          (λ p. other (sym s.tipped ∙ ap (last_hash genesis) (sym same) ∙ sym p ∙ reset))

    -- An entry that finds the queue full is dropped and still moves the tip: unless its hash is the old
    -- tip, the next entry that is taken breaks the chain.
    pub dropped_entry_breaks_chain :
        (r r' : AppendRequest H F)
        → r'.previous_hash ≡ none
        → is_full l ≡ true
        → let dropped = (append digest r l).0 in
          dropped.tip ≢ l.tip
          → is_full (run_once genesis file_size dropped) ≡ false
          → is_ok (
              verify_hash_chain digest none 1 0
                (some genesis)
                (history (append digest r' (run_once genesis file_size dropped)).0))
            ≡ false
    dropped_entry_breaks_chain r r' plain full other room =
        let s =
          Reach-IsSound digest genesis file_size reached
            (start-IsSound digest genesis file_size buffer_max size) in
        let dropped = (append digest r l).0 in
        let (same, still) = append_full r l full in
        let (h, t, o) = run_once-keeps genesis file_size dropped (still ∙ s.opened) in
        next_rejected r' (run_once genesis file_size dropped) plain room
          (λ p. other (sym t ∙ p ∙ ap (last_hash genesis) (h ∙ same) ∙ s.tipped))
