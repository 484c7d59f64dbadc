-- ===== src/OrderFlow.antt =====
-- services/layer3_strategy/ofi.py: the order flow imbalance of one symbol. The sum and the square root of floats
-- are parameters. A negated float is nought less it, which differs in the sign of zero only.
pub mod Window
mod Tests
use algo_trading_platform.Base.{
  ℕ, ◌-◌, Bool, ◌&&◌, Option, none, some, List, [], ◌∷◌, ◌++◌, length, drop, ltb, leb, ◌==◌, String,
  if◌then◌else◌, map,
}
use algo_trading_platform.Base.Dict.{string_eq}
use algo_trading_platform.Base.Outcome.{Outcome, returned, raised, value_error}
use algo_trading_platform.Float.{Float, nought, one}
use algo_trading_platform.Candles.{ScoredTick}

pub record OrderFlowImbalanceSnapshot (F : Type 0) : Type 0 where
  pub symbol : String
  pub timestamp_utc : ℕ
  pub mid_price : F
  pub ofi : F
  pub buy_volume : F
  pub sell_volume : F
  pub tick_count : ℕ
  pub window_size : ℕ
  pub ofi_zscore : F

pub record OrderFlowImbalanceState (F : Type 0) : Type 0 where
  pub symbol : String
  pub window_size : ℕ
  pub signed_volumes : List F
  pub previous_mid_price : Option F
  pub z_window_size : ℕ
  pub ofi_history : List F
  pub ofi_sum : F
  pub ofi_sumsq : F

-- `append`, and `popleft` where the deque is then longer than `n`
abbrev pub rolled {ℓ} : {A : Type ℓ} → ℕ → A → List A → List A
rolled n x xs = let ys = xs ++ x ∷ [] in if ltb n (length ys) then drop 1 ys else ys

module _ {F : Type 0} ⦃fl : Float F⦄ where
  open fl use {decimal, add, sub, mul, div, lt, le}

  abbrev pub empty_state : String → ℕ → ℕ → OrderFlowImbalanceState F
  empty_state symbol window_size z_window_size = record {
    symbol = symbol;
    window_size = window_size;
    signed_volumes = [];
    previous_mid_price = none;
    z_window_size = z_window_size;
    ofi_history = [];
    ofi_sum = nought;
    ofi_sumsq = nought;
  }

  -- `__init__`
  abbrev pub new_state : String → ℕ → Option ℕ → Outcome (OrderFlowImbalanceState F)
  new_state symbol window_size z_window_size =
      if window_size == 0
      then raised value_error
      else returned
          (empty_state symbol window_size (elim z_window_size [ none ↦ window_size | some z ↦ z ]))

  abbrev pub reset : OrderFlowImbalanceState F → OrderFlowImbalanceState F
  reset s = record s { signed_volumes = []; previous_mid_price = none }

  -- `_resolve_volume`
  abbrev pub positive_volume : Option F → F
  positive_volume none = one
  positive_volume (some v) = if lt nought v then v else nought

  abbrev pub resolve_volume : ScoredTick F → Option F → F
  resolve_volume t none = positive_volume t.volume_24h
  resolve_volume t (some v) = positive_volume (some v)

  -- The volume with the sign of the price move; a price that stays counts as one that falls.
  abbrev pub signed_volume : Option F → F → F → F
  signed_volume none mid volume = nought
  signed_volume (some before) mid volume = if lt before mid then volume else sub nought volume

  -- The positive values, and the negated negative ones
  abbrev pub buys : List F → List F
  buys [] = []
  buys (v ∷ vs) = let rest = buys vs in if lt nought v then v ∷ rest else rest

  abbrev pub sells : List F → List F
  sells [] = []
  sells (v ∷ vs) = let rest = sells vs in if lt v nought then sub nought v ∷ rest else rest

  abbrev pub is_zero : F → Bool
  is_zero x = le x nought && le nought x

  -- The running sum with the new value, less the oldest one of a full window
  abbrev pub rolled_sum : ℕ → F → F → List F → (F → F) → F
  rolled_sum n x total [] weigh =
      let grown : F = add total (weigh x) in if ltb n 1 then sub grown (weigh x) else grown
  rolled_sum n x total (oldest ∷ history) weigh =
      let grown : F = add total (weigh x) in
      if leb n (length (oldest ∷ history)) then sub grown (weigh oldest) else grown

  abbrev pub imbalance : (sum : List F → F) → List F → F
  imbalance sum volumes =
      let buy : F = sum (buys volumes) in
      let sell : F = sum (sells volumes) in
      if is_zero (add buy sell) then nought else div (sub buy sell) (add buy sell)

  -- The score of `ofi` against the `count` values of the history
  abbrev pub zscore_of : (sqrt : F → F) → ℕ → F → F → F → F
  zscore_of sqrt count ofi total squares =
      let n : F = decimal count 0 in
      let variance : F = div (sub squares (div (mul total total) n)) (decimal (count - 1) 0) in
      let deviation : F = if lt nought variance then sqrt variance else nought in
      if leb count 1
      then nought
      else if is_zero deviation
      then nought
      else div (sub ofi (div total n)) deviation

  module _ (sum : List F → F) (sqrt : F → F) where
    -- `process` for a tick of the state's symbol
    unfoldable pub take_in :
        ScoredTick F
        → Option F
        → OrderFlowImbalanceState F
        → OrderFlowImbalanceState F × OrderFlowImbalanceSnapshot F
    take_in t volume s =
        let signed : F = signed_volume s.previous_mid_price t.mid_price (resolve_volume t volume) in
        let volumes = rolled s.window_size signed s.signed_volumes in
        let ofi : F = imbalance sum volumes in
        let history = rolled s.z_window_size ofi s.ofi_history in
        let total : F = rolled_sum s.z_window_size ofi s.ofi_sum s.ofi_history (λ x. x) in
        let squares : F = rolled_sum s.z_window_size ofi s.ofi_sumsq s.ofi_history (λ x. mul x x) in
        (
          record s {
            signed_volumes = volumes;
            previous_mid_price = some t.mid_price;
            ofi_history = history;
            ofi_sum = total;
            ofi_sumsq = squares;
          },
          record {
            symbol = s.symbol;
            timestamp_utc = t.timestamp_utc;
            mid_price = t.mid_price;
            ofi = ofi;
            buy_volume = sum (buys volumes);
            sell_volume = sum (sells volumes);
            tick_count = length volumes;
            window_size = s.window_size;
            ofi_zscore = zscore_of sqrt (length history) ofi total squares;
          },
        )

    unfoldable pub process :
        ScoredTick F
        → Option F
        → OrderFlowImbalanceState F
        → OrderFlowImbalanceState F × Outcome (OrderFlowImbalanceSnapshot F)
    process t volume s =
        if string_eq.beq t.symbol s.symbol
        then ((take_in t volume s).0, returned ((take_in t volume s).1))
        else (s, raised value_error)
