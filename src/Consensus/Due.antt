-- ===== src/Consensus/Due.antt =====
-- The windows that `TickAligner` of services/layer1_consensus/engine.py leaves open.
use algo_trading_platform.Base.{
  ℕ, ◌≡◌, refl, Bool, false, not, ◌&&◌, ◌||◌, List, [], ◌∷◌, ◌++◌, map, String, arith, if_intro,
}
use algo_trading_platform.Base.Dict.{Dict, insert, string_eq}
use algo_trading_platform.Base.Keys.{
  has, IsDict, has-insert, has-erase, insert-IsDict, erase-IsDict, lookup-erase,
}
use algo_trading_platform.Consensus.{NormalizedTick}
use algo_trading_platform.Consensus.Align.{
  TickAligner, AlignedWindow, close, flush_symbol, flush_symbols, flush_due, receive, add,
  at_symbol, is_late,
}

abbrev is_listed : String → List String → Bool
is_listed s [] = false
is_listed s (x ∷ xs) = string_eq.beq x s || is_listed s xs

is_listed-keys :
    {V : Type 0} (s : String) (d : Dict String V) → is_listed s (map (λ p. p.0) d) ≡ has s d
is_listed-keys s [] = refl
is_listed-keys s ((k, v) ∷ d) = ground (arith, is_listed-keys s d)

module _ {F : Type 0} where
  -- No symbol stands twice, and a symbol whose window has a start has a buffer.
  pub record IsTimed (a : TickAligner F) : Type 0 where
    pub buffers : IsDict a.buf
    pub starts : IsDict a.window_start_ms
    pub buffered :
        (symbol : String) → has symbol a.window_start_ms && not (has symbol a.buf) ≡ false

  close-IsTimed : (symbol : String) (a : TickAligner F) → IsTimed a → IsTimed (close symbol a)
  close-IsTimed symbol a t = record {
    buffers = erase-IsDict symbol a.buf t.buffers;
    starts = erase-IsDict symbol a.window_start_ms t.starts;
    buffered = λ s. ground (
      arith,
      t.buffered s,
      has-erase symbol s a.buf t.buffers,
      has-erase symbol s a.window_start_ms t.starts,
    );
  }

  receive-IsTimed : (t : NormalizedTick F) (a : TickAligner F) → IsTimed a → IsTimed (receive t a)
  receive-IsTimed t a h =
      let buf' = insert t.symbol (at_symbol t.symbol a.buf ++ t ∷ []) a.buf in
      let started =
        if_intro {A = Dict String ℕ}
          (λ d. IsDict d × ((s : String) → has s d && not (has s buf') ≡ false))
          (has t.symbol a.window_start_ms)
          (λ _. (
            h.starts,
            λ s. ground (
              arith,
              h.buffered s,
              has-insert t.symbol s (at_symbol t.symbol a.buf ++ t ∷ []) a.buf,
            ),
          ))
          (λ _. (
            insert-IsDict t.symbol t.received_timestamp_ms a.window_start_ms h.starts,
            λ s. ground (
              arith,
              h.buffered s,
              has-insert t.symbol s (at_symbol t.symbol a.buf ++ t ∷ []) a.buf,
              has-insert t.symbol s t.received_timestamp_ms a.window_start_ms,
            ),
          )) in
      record {
        buffers = insert-IsDict t.symbol _ a.buf h.buffers;
        starts = started.0;
        buffered = started.1;
      }

module _ {F : Type 0} (get_window_ms : String → ℕ) (now_ms : ℕ) where
  late-close :
      (symbol s : String) (a : TickAligner F)
      → IsTimed a
      → is_late get_window_ms now_ms (close symbol a) s
        ≡ (not (string_eq.beq symbol s) && is_late get_window_ms now_ms a s)
  late-close symbol s a t = ground (arith, lookup-erase symbol s a.window_start_ms t.starts)

  -- Every window that is due belongs to a symbol that is still to be flushed.
  abbrev IsPending : List String → TickAligner F → Type 0
  IsPending symbols a =
      (s : String) → is_late get_window_ms now_ms a s && not (is_listed s symbols) ≡ false

  flush_symbol-IsPending :
      (symbol : String) (symbols : List String) (ready : List (AlignedWindow F)) (a : TickAligner F)
      → IsTimed a
      → IsPending (symbol ∷ symbols) a
      → let r = flush_symbol get_window_ms now_ms symbol (ready, a) in
        IsTimed r.1 × IsPending symbols r.1
  flush_symbol-IsPending symbol symbols ready a t h =
      if_intro {A = List (AlignedWindow F) × TickAligner F}
        (λ r. IsTimed r.1 × IsPending symbols r.1) (is_late get_window_ms now_ms a symbol)
        (λ _. (close-IsTimed symbol a t, λ s. ground (arith, h s, late-close symbol s a t)))
        (λ early. (t, λ s. ground (arith, h s, early, string_eq.beq_iff symbol s)))

  flush_symbols-IsPending :
      (symbols : List String) (r : List (AlignedWindow F) × TickAligner F)
      → IsTimed r.1
      → IsPending symbols r.1
      → let r' = flush_symbols get_window_ms now_ms symbols r in IsTimed r'.1 × IsPending [] r'.1
  flush_symbols-IsPending [] r t h = (t, h)
  flush_symbols-IsPending (symbol ∷ symbols) (ready, a) t h =
      let (t', h') = flush_symbol-IsPending symbol symbols ready a t h in
      flush_symbols-IsPending symbols (flush_symbol get_window_ms now_ms symbol (ready, a)) t' h'

  late-has :
      (a : TickAligner F) (s : String)
      → is_late get_window_ms now_ms a s && not (has s a.window_start_ms) ≡ false
  late-has a s = ground arith

  all-IsPending : (a : TickAligner F) → IsTimed a → IsPending (map (λ p. p.0) a.buf) a
  all-IsPending a t s = ground (arith, late-has a s, t.buffered s, is_listed-keys s a.buf)

module _ {F : Type 0} (get_window_ms : String → ℕ) where
  -- After a tick is added to an aligner in which no symbol stands twice and every started window has a
  -- buffer, the same holds again, and no symbol has an open window that is due at the time of the tick.
  pub add-IsTimed :
      (t : NormalizedTick F) (a : TickAligner F)
      → IsTimed a
      → let r = add get_window_ms t a in
        IsTimed r.1 × ((s : String) → is_late get_window_ms t.received_timestamp_ms r.1 s ≡ false)
  unfolding add flush_due
  add-IsTimed t a h =
      let a' = receive t a in
      let timed = receive-IsTimed t a h in
      let (kept, done) =
        flush_symbols-IsPending get_window_ms t.received_timestamp_ms (map (λ p. p.0) a'.buf)
          ([], a') timed (all-IsPending get_window_ms t.received_timestamp_ms a' timed) in
      (kept, λ s. ground (arith, done s))
