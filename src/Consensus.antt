-- ===== src/Consensus.antt =====
-- services/layer1_consensus/engine.py: the configuration, the medians and the test of divergence. The engine
-- is in Engine, the alignment of ticks in Align. The sum of floats, whose rounding is Python's, is a
-- parameter.
pub mod Engine
pub mod Sources
pub mod Reports
pub mod Median
pub mod Align
pub mod Due
pub mod Fresh
mod Tests
use algo_trading_platform.Base.{
  ℕ, zero, suc, ◌+◌, ◌-◌, ◌/◌, ◌%◌, ◌==◌, Bool, true, false, not, ◌&&◌, ◌||◌, Option, none, some,
  List, [], ◌∷◌, map, length, String, if◌then◌else◌, ◌↔◌, ◌≡◌, refl, arith,
}
use algo_trading_platform.Base.Dict.{Eq}
use algo_trading_platform.Base.Outcome.{Outcome, returned, raised, value_error, index_error}
use algo_trading_platform.Float.{Float, nought}

pub data ExchangeId : Type 0 where
  binance coinbase kraken okx bybit : ExchangeId

abbrev pub same_exchange : ExchangeId → ExchangeId → Bool
same_exchange binance binance = true
same_exchange coinbase coinbase = true
same_exchange kraken kraken = true
same_exchange okx okx = true
same_exchange bybit bybit = true
same_exchange a b = false

pub same_exchange_iff : (a b : ExchangeId) → (same_exchange a b ≡ true) ↔ (a ≡ b)
same_exchange_iff a b = ground arith

instance abbrev pub exchange_eq : Eq ExchangeId
exchange_eq = record { beq = same_exchange; beq_iff = same_exchange_iff }

-- The fields of a tick that the engine reads.
pub record NormalizedTick (F : Type 0) : Type 0 where
  pub exchange_id : ExchangeId
  pub symbol : String
  pub bid : F
  pub ask : F
  pub volume_24h : F
  pub received_timestamp_ms : ℕ

pub record ConsensusConfig (F : Type 0) : Type 0 where
  pub divergence_tolerance : F
  pub escalate_after : ℕ
  pub min_sources_for_consensus : ℕ

module _ {F : Type 0} ⦃fl : Float F⦄ where
  open fl use {decimal, add, sub, mul, div, abs, lt, le}

  -- `NormalizedTick.mid`
  abbrev pub mid : NormalizedTick F → F
  mid t = div (add t.bid t.ask) (decimal 2 0)

  -- `sorted` and `list.sort` are stable.
  abbrev pub insert_sorted : {A : Type 0} → (A → F) → A → List A → List A
  insert_sorted key x [] = x ∷ []
  insert_sorted key x (y ∷ ys) =
      let rest = insert_sorted key x ys in if lt (key y) (key x) then y ∷ rest else x ∷ y ∷ ys

  abbrev pub sort_by : {A : Type 0} → (A → F) → List A → List A
  sort_by key [] = []
  sort_by key (x ∷ xs) = insert_sorted key x (sort_by key xs)

  -- `values[i]`
  abbrev pub item : ℕ → List F → Outcome F
  item i [] = raised index_error
  item zero (x ∷ xs) = returned x
  item (suc i) (x ∷ xs) = item i xs

  abbrev average : Outcome F → Outcome F → Outcome F
  average (returned a) (returned b) = returned (div (add a b) (decimal 2 0))
  average (returned a) (raised err) = raised err
  average (raised err) b = raised err

  -- `_unweighted_median`
  unfoldable pub unweighted_median : List F → Outcome F
  unweighted_median [] = raised value_error
  unweighted_median (v ∷ vs) =
      let sorted_vals = sort_by (λ x. x) (v ∷ vs) in
      let n = length (v ∷ vs) in
      if n % 2 == 1
      then item (n / 2) sorted_vals
      else average (item (n / 2 - 1) sorted_vals) (item (n / 2) sorted_vals)

  -- `max(w, 0.0)`
  abbrev pub weighted_item : NormalizedTick F → F × F
  weighted_item t = (mid t, (if lt t.volume_24h nought then nought else t.volume_24h))

  -- The loop over the sorted items, with the weight so far; `last` is the price of the item before.
  abbrev pub cumulate : F → F → F → List (F × F) → F
  cumulate half cumulative last [] = last
  cumulate half cumulative last ((m, w) ∷ items) =
      let rest = cumulate half (add cumulative w) m items in
      if le half (add cumulative w) then m else rest

  unfoldable pub volume_weighted_median : (List F → F) → List (NormalizedTick F) → Outcome F
  volume_weighted_median sum [] = raised value_error
  volume_weighted_median sum (t ∷ ts) =
      let items = map weighted_item (t ∷ ts) in
      let total = sum (map (λ i. i.1) items) in
      if le total nought
      then unweighted_median (map (λ i. i.0) items)
      else returned (cumulate (div total (decimal 2 0)) nought nought (sort_by (λ i. i.0) items))

  -- `_is_divergent`
  unfoldable pub is_divergent : (value median tolerance : F) → Bool
  is_divergent value median tolerance =
      if le median nought && le nought median
      then false
      else lt tolerance (div (abs (sub value median)) (abs median))
