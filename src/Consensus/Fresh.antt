-- ===== src/Consensus/Fresh.antt =====
-- The ticks and the ages that `TickAligner` of services/layer1_consensus/engine.py puts into its windows.
use mathlib.Core.Path.{subst}
use algo_trading_platform.Base.{
  ℕ, ◌≡◌, refl, sym, ap, true, false, not, ◌&&◌, if◌then◌else◌, none, some, ◌⊎◌, inl, inr, List, [],
  ◌∷◌, ◌++◌, map, All, All-append, String, arith, if_intro,
}
use algo_trading_platform.Base.Dict.{Eq, Dict, lookup, insert, erase, string_eq}
use algo_trading_platform.Base.Int.{ℤ, pos, sub_ℕ, leb_ℤ}
use algo_trading_platform.Base.Keys.{has}
use algo_trading_platform.Consensus.{ExchangeId, exchange_eq, NormalizedTick}
use algo_trading_platform.Consensus.Align.{
  TickAligner, AlignedWindow, lkv_staleness_ms, fill_missing, last_ticks, at_symbol, align, is_late,
  close, flush_symbols, flush_due, receive, add,
}

-- A property of the entries of a dict.
module _ {K V : Type 0} ⦃e : Eq K⦄ (P : K → V → Type 0) where
  insert-All :
      (k : K) (v : V) (d : Dict K V)
      → P k v
      → All (λ x. P x.0 x.1) d
      → All (λ x. P x.0 x.1) (insert k v d)
  insert-All k v [] p h = (p, tt)
  insert-All k v ((j, w) ∷ d) p (q, h) =
      if_intro {A = Dict K V} (All (λ x. P x.0 x.1)) (e.beq j k)
        (λ same. (subst (λ i. P i v) (sym ((e.beq_iff j k).0 same)) p, h))
        (λ _. (q, insert-All k v d p h))

  erase-All : (k : K) (d : Dict K V) → All (λ x. P x.0 x.1) d → All (λ x. P x.0 x.1) (erase k d)
  erase-All k [] h = tt
  erase-All k ((j, w) ∷ d) (q, h) =
      if_intro {A = Dict K V} (All (λ x. P x.0 x.1)) (e.beq j k) (λ _. h)
        (λ _. (q, erase-All k d h))

module _ {A : Type 0} (P : String → List A → Type 0) where
  at_symbol-All :
      (s : String) (d : Dict String (List A))
      → P s []
      → All (λ x. P x.0 x.1) d
      → P s (at_symbol s d)
  at_symbol-All s [] p h = p
  at_symbol-All s ((j, xs) ∷ d) p (q, h) =
      elim (string_eq.beq j s)
          as (λ b.
            string_eq.beq j s ≡ b
            → P s (elim (if b then some xs else lookup s d) [ none ↦ [] | some ys ↦ ys ])) [
              | true ↦ λ same. subst (λ i. P i xs) ((string_eq.beq_iff j s).0 same) q
              | false ↦ λ _. at_symbol-All s d p h
            ]
        refl

module _ {F : Type 0} (P : String → NormalizedTick F → Type 0) where
  -- A buffered tick stands under its symbol and has the property.
  abbrev IsBuffered : String → List (NormalizedTick F) → Type 0
  IsBuffered s ticks = All (λ t. (t.symbol ≡ s) × P s t) ticks

  -- A last known value stands under its symbol, with its own time.
  abbrev IsKnown : String → List (ExchangeId × (NormalizedTick F × ℕ)) → Type 0
  IsKnown s known = All (λ x. (x.1.0.symbol ≡ s) × (x.1.0.received_timestamp_ms ≡ x.1.1)) known

  -- The ticks of the aligner stand where they belong.
  pub record IsFiled (a : TickAligner F) : Type 0 where
    pub buffered : All (λ x. IsBuffered x.0 x.1) a.buf
    pub known : All (λ x. IsKnown x.0 x.1) a.lkv

  -- A tick of the window of symbol `s` that is completed at `now_ms`, with the age noted: nought for a tick of
  -- the window, which has the property of those, or the time since the tick was received, which is at most 15
  -- seconds.
  abbrev IsDated : ℕ → String → NormalizedTick F × ℤ → Type 0
  IsDated now_ms s (t, age) =
      (t.symbol ≡ s)
      × (((age ≡ pos 0) × P s t)
          ⊎ ((age ≡ sub_ℕ now_ms t.received_timestamp_ms) × (leb_ℤ age (pos 15_000) ≡ true)))

  abbrev pub AreDated : ℕ → AlignedWindow F → Type 0
  AreDated now_ms w = (w.window_end_ms ≡ now_ms) × All (IsDated now_ms w.symbol) w.ticks_with_age

  last_ticks-IsBuffered :
      (s : String) (ticks : List (NormalizedTick F)) (d : Dict ExchangeId (NormalizedTick F))
      → IsBuffered s ticks
      → All (λ x. (x.1.symbol ≡ s) × P s x.1) d
      → All (λ x. (x.1.symbol ≡ s) × P s x.1) (last_ticks ticks d)
  last_ticks-IsBuffered s [] d h g = g
  last_ticks-IsBuffered s (t ∷ ticks) d (p, h) g =
      last_ticks-IsBuffered s ticks (insert t.exchange_id t d) h
        (insert-All (λ _ t. (t.symbol ≡ s) × P s t) t.exchange_id t d p g)

  window-IsDated :
      (now_ms : ℕ) (s : String) (d : Dict ExchangeId (NormalizedTick F))
      → All (λ x. (x.1.symbol ≡ s) × P s x.1) d
      → All (IsDated now_ms s) (map (λ p. (p.1, pos 0)) d)
  window-IsDated now_ms s [] h = tt
  window-IsDated now_ms s ((ex, t) ∷ d) ((p, q), h) =
      ((p, inl (refl, q)), window-IsDated now_ms s d h)

  fill_missing-IsDated :
      (now_ms : ℕ) (s : String) (window : Dict ExchangeId (NormalizedTick F))
      (known : List (ExchangeId × (NormalizedTick F × ℕ)))
      → IsKnown s known
      → All (IsDated now_ms s) (map (λ p. (p.1, p.2)) (fill_missing now_ms window known))
  fill_missing-IsDated now_ms s window [] h = tt
  fill_missing-IsDated now_ms s window ((ex, (t, ts)) ∷ known) ((p, q), h) =
      let rest = fill_missing-IsDated now_ms s window known h in
      if_intro (λ xs. All (IsDated now_ms s) (map (λ p. (p.1, p.2)) xs))
        (not (has ex window) && leb_ℤ (sub_ℕ now_ms ts) (pos lkv_staleness_ms))
        (λ taken. ((p, inr (ap (sub_ℕ now_ms) (sym q), ground (arith, taken))), rest)) (λ _. rest)

  align-AreDated :
      (now_ms : ℕ) (s : String) (a : TickAligner F) → IsFiled a → AreDated now_ms (align now_ms s a)
  unfolding align
  align-AreDated now_ms s a h =
      let window = last_ticks (at_symbol s a.buf) [] in
      let ticks = at_symbol-All IsBuffered s a.buf tt h.buffered in
      let known = at_symbol-All IsKnown s a.lkv tt h.known in
      (
        refl,
        All-append (IsDated now_ms s) _ _
            (window-IsDated now_ms s window
              (last_ticks-IsBuffered s (at_symbol s a.buf) [] ticks tt))
            (fill_missing-IsDated now_ms s window (at_symbol s a.lkv) known),
      )

  close-IsFiled : (s : String) (a : TickAligner F) → IsFiled a → IsFiled (close s a)
  close-IsFiled s a h = record {
    buffered = erase-All IsBuffered s a.buf h.buffered;
    known = h.known;
  }

  receive-IsFiled :
      (t : NormalizedTick F) (a : TickAligner F) → P t.symbol t → IsFiled a → IsFiled (receive t a)
  receive-IsFiled t a p h =
      let s = t.symbol in
      let ticks = at_symbol-All IsBuffered s a.buf tt h.buffered in
      let known = at_symbol-All IsKnown s a.lkv tt h.known in
      record {
        buffered =
            insert-All IsBuffered s (at_symbol s a.buf ++ t ∷ []) a.buf
              (All-append (λ u. (u.symbol ≡ s) × P s u) _ _ ticks ((refl, p), tt)) h.buffered;
        known =
            insert-All IsKnown s _ a.lkv
              (insert-All (λ _ v. (v.0.symbol ≡ s) × (v.0.received_timestamp_ms ≡ v.1))
                t.exchange_id (t, t.received_timestamp_ms) (at_symbol s a.lkv) (refl, refl) known)
              h.known;
      }

module _ {F : Type 0} (P : String → NormalizedTick F → Type 0) (get_window_ms : String → ℕ) where
  flush_symbols-AreDated :
      (now_ms : ℕ) (symbols : List String) (ready : List (AlignedWindow F)) (a : TickAligner F)
      → IsFiled P a
      → All (AreDated P now_ms) ready
      → let r = flush_symbols get_window_ms now_ms symbols (ready, a) in
        All (AreDated P now_ms) r.0 × IsFiled P r.1
  flush_symbols-AreDated now_ms [] ready a h g = (g, h)
  flush_symbols-AreDated now_ms (s ∷ symbols) ready a h g =
      if_intro {A = List (AlignedWindow F) × TickAligner F}
        (λ r.
          let r' = flush_symbols get_window_ms now_ms symbols r in
          All (AreDated P now_ms) r'.0 × IsFiled P r'.1)
        (is_late get_window_ms now_ms a s)
        (λ _.
          flush_symbols-AreDated now_ms symbols _ (close s a) (close-IsFiled P s a h)
            (All-append (AreDated P now_ms) ready _ g (align-AreDated P now_ms s a h, tt)))
        (λ _. flush_symbols-AreDated now_ms symbols ready a h g)

  -- When the buffered ticks and the last known values of an aligner stand under their symbols, the latter with
  -- their own times, and the buffered ticks and the added one have a property, the same holds after the tick is
  -- added, and every window that it completes ends at its time and holds ticks of its own symbol only: each is
  -- either noted with age nought and has the property of buffered ticks, or noted with the time since it was
  -- received, which is at most 15 seconds. How old a tick noted with age nought is, is not limited.
  pub add-AreDated :
      (t : NormalizedTick F) (a : TickAligner F)
      → P t.symbol t
      → IsFiled P a
      → let r = add get_window_ms t a in
        All (AreDated P t.received_timestamp_ms) r.0 × IsFiled P r.1
  unfolding add flush_due
  add-AreDated t a p h =
      let a' = receive t a in
      flush_symbols-AreDated t.received_timestamp_ms (map (λ p. p.0) a'.buf) [] a'
        (receive-IsFiled P t a p h) tt
