-- ===== src/Consensus/Align.antt =====
-- services/layer1_consensus/engine.py: `TickAligner`. The window of a symbol, which a configuration may give,
-- is a parameter. A Python set is a list here, in the order of the dict that it is made from. Ages are
-- integers: a tick may be newer than the time of a flush.
use algo_trading_platform.Base.{
  ℕ, ◌+◌, ltb, Bool, false, not, ◌&&◌, none, some, List, [], ◌∷◌, ◌++◌, map, String, if◌then◌else◌,
}
use algo_trading_platform.Base.Dict.{Dict, lookup, insert, erase, string_eq}
use algo_trading_platform.Base.Int.{ℤ, pos, sub_ℕ, leb_ℤ}
use algo_trading_platform.Base.Keys.{has}
use algo_trading_platform.Consensus.{ExchangeId, exchange_eq, NormalizedTick}

abbrev pub lkv_staleness_ms : ℕ
lkv_staleness_ms = 15_000

abbrev pub liveness_threshold_ms : ℕ
liveness_threshold_ms = 30_000

-- `_lkv` and `_lkv_ts` are one dict here, of the last tick of a source and its time.
pub record TickAligner (F : Type 0) : Type 0 where
  pub buf : Dict String (List (NormalizedTick F))
  pub window_start_ms : Dict String ℕ
  pub lkv : Dict String (Dict ExchangeId (NormalizedTick F × ℕ))

pub record AlignedWindow (F : Type 0) : Type 0 where
  pub symbol : String
  pub window_end_ms : ℕ
  pub by_ex : Dict ExchangeId (NormalizedTick F)
  pub ticks_with_age : List (NormalizedTick F × ℤ)
  pub active_sources : List ExchangeId

-- `d.get(symbol, {})`
abbrev pub at_symbol : {A : Type 0} → String → Dict String (List A) → List A
at_symbol symbol d = elim (lookup symbol d) [ none ↦ [] | some xs ↦ xs ]

-- `not (now_ms - start < window_ms)`
abbrev pub is_due : (String → ℕ) → (now_ms : ℕ) → String → (start : ℕ) → Bool
is_due get_window_ms now_ms symbol start = not (ltb now_ms (start + get_window_ms symbol))

module _ {F : Type 0} where
  -- The last tick of each exchange in the window.
  abbrev pub last_ticks :
      List (NormalizedTick F)
      → Dict ExchangeId (NormalizedTick F)
      → Dict ExchangeId (NormalizedTick F)
  last_ticks [] d = d
  last_ticks (t ∷ ticks) d = last_ticks ticks (insert t.exchange_id t d)

  -- The sources whose last tick is not too old and that the window lacks, with the ages.
  abbrev pub fill_missing :
      (now_ms : ℕ)
      → Dict ExchangeId (NormalizedTick F)
      → List (ExchangeId × (NormalizedTick F × ℕ))
      → List (ExchangeId × NormalizedTick F × ℤ)
  fill_missing now_ms window [] = []
  fill_missing now_ms window ((ex, (t, ts)) ∷ known) =
      let rest = fill_missing now_ms window known in
      let age = sub_ℕ now_ms ts in
      if not (has ex window) && leb_ℤ age (pos lkv_staleness_ms) then (ex, t, age) ∷ rest else rest

  abbrev pub merge :
      List (ExchangeId × NormalizedTick F × ℤ)
      → Dict ExchangeId (NormalizedTick F)
      → Dict ExchangeId (NormalizedTick F)
  merge [] d = d
  merge ((ex, t, age) ∷ filled) d = merge filled (insert ex t d)

  -- `active_sources`
  abbrev pub active_sources :
      (now_ms : ℕ) → List (ExchangeId × (NormalizedTick F × ℕ)) → List ExchangeId
  active_sources now_ms [] = []
  active_sources now_ms ((ex, (t, ts)) ∷ known) =
      let rest = active_sources now_ms known in
      if leb_ℤ (sub_ℕ now_ms ts) (pos liveness_threshold_ms) then ex ∷ rest else rest

  -- The window of a symbol that is due.
  unfoldable pub align : (now_ms : ℕ) → String → TickAligner F → AlignedWindow F
  align now_ms symbol a =
      let window = last_ticks (at_symbol symbol a.buf) [] in
      let known = at_symbol symbol a.lkv in
      let filled = fill_missing now_ms window known in
      record {
        symbol = symbol;
        window_end_ms = now_ms;
        by_ex = merge filled window;
        ticks_with_age = map (λ p. (p.1, pos 0)) window ++ map (λ p. (p.1, p.2)) filled;
        active_sources = active_sources now_ms known;
      }

  abbrev pub close : String → TickAligner F → TickAligner F
  close symbol a = record a {
    buf = erase symbol a.buf;
    window_start_ms = erase symbol a.window_start_ms;
  }

  -- The tick is buffered and becomes the last one of its source.
  abbrev pub receive : NormalizedTick F → TickAligner F → TickAligner F
  receive t a = record {
    buf = insert t.symbol (at_symbol t.symbol a.buf ++ t ∷ []) a.buf;
    window_start_ms =
        if has t.symbol a.window_start_ms
        then a.window_start_ms
        else insert t.symbol t.received_timestamp_ms a.window_start_ms;
    lkv =
        insert t.symbol
          (insert t.exchange_id (t, t.received_timestamp_ms) (at_symbol t.symbol a.lkv)) a.lkv;
  }

  module _ (get_window_ms : String → ℕ) where
    -- The window of the symbol has a start and is due.
    abbrev pub is_late : (now_ms : ℕ) → TickAligner F → String → Bool
    is_late now_ms a symbol = elim (lookup symbol a.window_start_ms) [
      | none ↦ false
      | some start ↦ is_due get_window_ms now_ms symbol start
    ]

    -- One symbol of `flush_due`.
    abbrev pub flush_symbol :
        (now_ms : ℕ)
        → String
        → List (AlignedWindow F) × TickAligner F
        → List (AlignedWindow F) × TickAligner F
    flush_symbol now_ms symbol (ready, a) =
        if is_late now_ms a symbol
        then (ready ++ align now_ms symbol a ∷ [], close symbol a)
        else (ready, a)

    abbrev pub flush_symbols :
        (now_ms : ℕ)
        → List String
        → List (AlignedWindow F) × TickAligner F
        → List (AlignedWindow F) × TickAligner F
    flush_symbols now_ms [] r = r
    flush_symbols now_ms (symbol ∷ symbols) r =
        flush_symbols now_ms symbols (flush_symbol now_ms symbol r)

    unfoldable pub flush_due : (now_ms : ℕ) → TickAligner F → List (AlignedWindow F) × TickAligner F
    flush_due now_ms a = flush_symbols now_ms (map (λ p. p.0) a.buf) ([], a)

    unfoldable pub add : NormalizedTick F → TickAligner F → List (AlignedWindow F) × TickAligner F
    add t a = flush_due t.received_timestamp_ms (receive t a)
