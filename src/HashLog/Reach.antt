-- ===== src/HashLog/Reach.antt =====
-- The states that services/layer1_hashlog/hash_chain.py reaches from a start on an empty directory.
use algo_trading_platform.Base.{
  ℕ, ◌≡◌, refl, sym, ◌∙◌, true, false, none, some, List, [], ◌∷◌, ◌++◌, map, arith, All,
}
use mathlib.Core.List.{append_assoc, map-append}
use algo_trading_platform.Base.Dict.{Eq}
use algo_trading_platform.HashLog.{
  TickBody, LogLine, logged, AppendRequest, HashChainLogger, or_default, lines_of, new_logger,
  last_hash, is_full, start, make_entry, append,
}
use algo_trading_platform.HashLog.Verify.{
  IsChain, IsChain-append, IsChain-split, IsChain-none, IsChain-accepted, last_hash-append,
  verify_hash_chain, is_ok,
}
use algo_trading_platform.HashLog.History.{
  joined, written, history, run_once-keeps, OrderlyStep, appending, writing,
}

module _ {H F : Type 0} ⦃eq : Eq H⦄ (digest : TickBody H F → H) (genesis : H)
    (file_size : List (LogLine H F) → ℕ) where
  pub data Reach (l : HashChainLogger H F) : HashChainLogger H F → Type 0 where
    here : Reach l l
    next :
        {k m : HashChainLogger H F}
        → Reach l k
        → OrderlyStep genesis file_size digest k m
        → Reach l m

  -- The whole log is a chain from the genesis hash, the tip is its last hash, and the file is open.
  pub record IsSound (l : HashChainLogger H F) : Type 0 where
    pub chained : IsChain digest (some genesis) (history l)
    pub tipped : last_hash genesis (history l) ≡ l.tip
    pub opened : l.is_open ≡ true

  pub append-history :
      (r : AppendRequest H F) (l : HashChainLogger H F)
      → is_full l ≡ false
      → history (append digest r l).0
        ≡ history l ++ logged (make_entry digest r (or_default r.previous_hash l.tip)) ∷ []
  unfolding append
  append-history r l room = simp (room, map-append, append_assoc)

  pub append-keeps :
      (r : AppendRequest H F) (l : HashChainLogger H F)
      → ((append digest r l).0.is_open ≡ l.is_open)
        × ((append digest r l).0.tip
            ≡ digest ((make_entry digest r (or_default r.previous_hash l.tip)).body))
        × (written (append digest r l).0 ≡ written l)
  unfolding append
  append-keeps r l = ground arith

  append-IsSound :
      (r : AppendRequest H F) (l : HashChainLogger H F)
      → r.previous_hash ≡ none
      → is_full l ≡ false
      → IsSound l
      → IsSound (append digest r l).0
  append-IsSound r l plain room s =
      let e = make_entry digest r (or_default r.previous_hash l.tip) in
      let own : eq.beq e.body.previous_hash (last_hash genesis (history l)) ≡ true =
        (eq.beq_iff _ _).1 (rw plain (sym s.tipped)) in
      let k = append-keeps r l in
      record {
        chained =
            rw (append-history r l room)
              (IsChain-append digest genesis (history l) (logged e ∷ []) s.chained (own, refl, tt));
        tipped =
            rw (append-history r l room, last_hash-append genesis (history l) (logged e ∷ []))
              (sym k.1);
        opened = k.0 ∙ s.opened;
      }

  step-IsSound :
      {l l' : HashChainLogger H F}
      → OrderlyStep genesis file_size digest l l'
      → IsSound l
      → IsSound l'
  step-IsSound {l} {l'} (appending r plain room e) s = rw e (append-IsSound r l plain room s)
  step-IsSound {l} {l'} (writing e) s =
      let (h, t, o) = run_once-keeps genesis file_size l s.opened in
      rw e (record { chained = rw h s.chained; tipped = rw (h, t) s.tipped; opened = o })

  pub Reach-IsSound : {l m : HashChainLogger H F} → Reach l m → IsSound l → IsSound m
  Reach-IsSound here s = s
  Reach-IsSound (next r st) s = step-IsSound st (Reach-IsSound r s)

  pub start-IsSound :
      (buffer_max size : ℕ) → IsSound (start genesis file_size (new_logger genesis buffer_max size))
  unfolding start
  start-IsSound buffer_max size = record { chained = tt; tipped = refl; opened = refl }

  closed-IsChain :
      (files : List (List (LogLine H F)))
      → IsChain digest (some genesis) (joined files)
      → All (IsChain digest none) files
  closed-IsChain [] c = tt
  closed-IsChain (file ∷ files) c =
      let (a, b) = IsChain-split digest genesis (joined files) file c in
      (IsChain-none digest _ file b, closed-IsChain files a)

  abbrev pub IsVerified : List (LogLine H F) → Type 0
  IsVerified file = is_ok (verify_hash_chain digest none 1 0 none file) ≡ true

  All-IsVerified :
      (files : List (List (LogLine H F))) → All (IsChain digest none) files → All IsVerified files
  All-IsVerified [] h = tt
  All-IsVerified (file ∷ files) (c, h) =
      (IsChain-accepted digest none 1 0 none file c, All-IsVerified files h)

  -- Whatever the order in which the two threads append and write, with requests that name no previous
  -- hash and a queue that is never full: every file on disk is accepted by the verifier, and so are all of
  -- them in a row from the genesis hash, across the rotations.
  pub reachable_files-IsVerified :
      (buffer_max size : ℕ) {l : HashChainLogger H F}
      → Reach (start genesis file_size (new_logger genesis buffer_max size)) l
      → All IsVerified l.closed
        × IsVerified (lines_of l)
        × (is_ok (verify_hash_chain digest none 1 0 (some genesis) (written l)) ≡ true)
  reachable_files-IsVerified buffer_max size {l} r =
      let s = Reach-IsSound r (start-IsSound buffer_max size) in
      let w = (IsChain-split digest genesis (written l) (map logged l.queue) s.chained).0 in
      let (a, b) = IsChain-split digest genesis (joined l.closed) (lines_of l) w in
      (
        All-IsVerified l.closed (closed-IsChain l.closed a),
        IsChain-accepted digest none 1 0 none (lines_of l) (IsChain-none digest _ (lines_of l) b),
        IsChain-accepted digest none 1 0 (some genesis) (written l) w,
      )
