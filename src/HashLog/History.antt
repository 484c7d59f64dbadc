-- ===== src/HashLog/History.antt =====
-- The chain of services/layer1_hashlog/hash_chain.py over the steps of its two threads: the caller of
-- `append`, and the thread that writes and rotates.
use algo_trading_platform.Base.{
  ℕ, ◌≡◌, refl, ◌∙◌, true, false, none, List, [], ◌∷◌, ◌++◌, map, length, ltb, ◌&&◌, inl, inr,
  List-cases, arith,
}
use mathlib.Core.List.{append_assoc, append-nil}
use algo_trading_platform.Base.Dict.{Eq}
use algo_trading_platform.HashLog.{
  TickBody, HashChainEntry, LogLine, logged, AppendRequest, HashChainLogger, lines_of, is_full,
  write_entry, rotate_if_needed, run_once, append,
}

module _ {H F : Type 0} where
  -- The files of a list, the latest first, as one log.
  abbrev pub joined : List (List (LogLine H F)) → List (LogLine H F)
  joined [] = []
  joined (file ∷ files) = joined files ++ file

  -- The lines written so far, and those with the entries that wait in the queue.
  abbrev pub written : HashChainLogger H F → List (LogLine H F)
  written l = joined l.closed ++ lines_of l

  abbrev pub history : HashChainLogger H F → List (LogLine H F)
  history l = written l ++ map logged l.queue

  -- The open logger has a file, and its queue keeps to its bound.
  abbrev pub IsRunning : HashChainLogger H F → Type 0
  IsRunning l =
      (l.is_open ≡ true) × ((ltb 0 l.buffer_max && ltb l.buffer_max (length l.queue)) ≡ false)

  pub write_entry-history :
      (e : HashChainEntry H F) (es : List (HashChainEntry H F)) (l : HashChainLogger H F)
      → l.is_open ≡ true
      → written (write_entry e l) ++ map logged es ≡ written l ++ logged e ∷ map logged es
  unfolding write_entry
  write_entry-history e es l h = simp (h, append_assoc)

  pub write_entry-keeps :
      (e : HashChainEntry H F) (l : HashChainLogger H F)
      → l.is_open ≡ true
      → ((write_entry e l).queue ≡ l.queue)
        × ((write_entry e l).tip ≡ l.tip)
        × ((write_entry e l).is_open ≡ true)
  unfolding write_entry
  write_entry-keeps e l h = ground arith

  module _ (genesis : H) (file_size : List (LogLine H F) → ℕ) where
    rotate_if_needed-keeps :
        (l : HashChainLogger H F)
        → l.is_open ≡ true
        → let l' = rotate_if_needed genesis file_size l in
          (written l' ≡ written l) × (l'.queue ≡ l.queue) × (l'.tip ≡ l.tip) × (l'.is_open ≡ true)
    unfolding rotate_if_needed
    rotate_if_needed-keeps l h = ground (arith, append-nil (joined l.closed ++ lines_of l))

    run_once-queue :
        (l : HashChainLogger H F) (x : HashChainEntry H F) (xs : List (HashChainEntry H F))
        → l.queue ≡ x ∷ xs
        → run_once genesis file_size l
          ≡ rotate_if_needed genesis file_size (write_entry x (record l { queue = xs }))
    unfolding run_once
    run_once-queue l x xs e = ground arith

    pub run_once-keeps :
        (l : HashChainLogger H F)
        → l.is_open ≡ true
        → let l' = run_once genesis file_size l in
          (history l' ≡ history l) × (l'.tip ≡ l.tip) × (l'.is_open ≡ true)
    unfolding run_once
    run_once-keeps l h = elim (List-cases l.queue) [
      | inl e ↦ ground arith
      | inr (x, xs, e) ↦
          let rest : HashChainLogger H F = record l { queue = xs } in
          let (q, t, o) = write_entry-keeps x rest h in
          let (r0, r1, r2, r3) = rotate_if_needed-keeps (write_entry x rest) o in
          let moved = write_entry-history x xs rest h in
          simp (run_once-queue l x xs e) (rw (r0, r1, q, moved, e) refl, r2 ∙ t, r3)
    ]

    -- A step of the caller, with a request that names no previous hash and a queue that is not full, or of
    -- the writing thread.
    pub data OrderlyStep ⦃eq : Eq H⦄ (digest : TickBody H F → H) (l l' : HashChainLogger H F)
        : Type 0 where
      appending :
          (r : AppendRequest H F)
          → r.previous_hash ≡ none
          → is_full l ≡ false
          → l' ≡ (append digest r l).0
          → OrderlyStep digest l l'
      writing : l' ≡ run_once genesis file_size l → OrderlyStep digest l l'
