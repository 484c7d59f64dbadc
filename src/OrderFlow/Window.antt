-- ===== src/OrderFlow/Window.antt =====
-- What the windows of services/layer3_strategy/ofi.py hold after ticks in turn.
use algo_trading_platform.Base.{
  ℕ, zero, suc, ◌-◌, ◌<◌, ◌≡◌, refl, sym, ap, ◌∙◌, arith, true, Option, none, some, List, [], ◌∷◌,
  ◌++◌, All, length, drop, append-drop, length-snoc, if◌then◌else◌, map, String,
}
use native.Mathlib.Decide.{dec_lt}
use algo_trading_platform.Base.Dict.{string_eq}
use algo_trading_platform.Base.Outcome.{Outcome, returned, raised, value_error, ◌>>=◌}
use algo_trading_platform.Float.{Float}
use algo_trading_platform.Candles.{ScoredTick}
use algo_trading_platform.OrderFlow.{
  OrderFlowImbalanceState, OrderFlowImbalanceSnapshot, empty_state, rolled, signed_volume,
  resolve_volume, imbalance, take_in, process,
}

-- The last `n` values, all where there are no more.
abbrev pub last_of {ℓ} : {A : Type ℓ} → ℕ → List A → List A
last_of n xs = drop (length xs - n) xs

module _ {ℓ} {A : Type ℓ} where
  drop-one : (k : ℕ) (xs : List A) → drop 1 (drop k xs) ≡ drop (suc k) xs
  drop-one zero [] = refl
  drop-one zero (x ∷ xs) = refl
  drop-one (suc k) [] = refl
  drop-one (suc k) (x ∷ xs) = drop-one k xs

  length-drop : (k : ℕ) (xs : List A) → length (drop k xs) ≡ length xs - k
  length-drop zero xs = omega arith
  length-drop (suc k) [] = omega arith
  length-drop (suc k) (x ∷ xs) = omega (arith, length-drop k xs)

  last_of_empty : (n : ℕ) → [] ≡ last_of {A = A} n []
  last_of_empty n = let same : 0 ≡ 0 - n = omega arith in ap (λ k. drop k []) same

  rolled-full :
      (n : ℕ) (x : A) (xs : List A) → length xs ≡ n → rolled n x xs ≡ drop 1 (xs ++ x ∷ [])
  rolled-full n x xs e = ground (arith, e, length-snoc xs x)

  rolled-room : (n : ℕ) (x : A) (xs : List A) → length xs < n → rolled n x xs ≡ xs ++ x ∷ []
  rolled-room n x xs h = ground (arith, length-snoc xs x)

  rolled-last_of :
      (n : ℕ) (x : A) (xs : List A) → rolled n x (last_of n xs) ≡ last_of n (xs ++ x ∷ [])
  rolled-last_of n x xs = elim (dec_lt (length xs) n) [
    | yes room ↦
        let none_dropped : length xs - n ≡ 0 = omega arith in
        let none_then : length (xs ++ x ∷ []) - n ≡ 0 = omega (arith, length-snoc xs x) in
        ap (λ k. rolled n x (drop k xs)) none_dropped
        ∙ rolled-room n x xs room
        ∙ ap (λ k. drop k (xs ++ x ∷ [])) (sym none_then)
    | no full ↦
        let k = length xs - n in
        let more : suc k ≡ length (xs ++ x ∷ []) - n = omega (arith, length-snoc xs x) in
        rolled-full n x (drop k xs) (omega (arith, length-drop k xs))
        ∙ ap (drop 1) (sym (append-drop k xs (x ∷ []) (omega arith)))
        ∙ drop-one k (xs ++ x ∷ [])
        ∙ ap (λ j. drop j (xs ++ x ∷ [])) more
  ]

module _ {F : Type 0} where
  abbrev and_then :
      OrderFlowImbalanceState F × Outcome (OrderFlowImbalanceSnapshot F)
      → OrderFlowImbalanceState F × Outcome (List (OrderFlowImbalanceSnapshot F))
      → OrderFlowImbalanceState F × Outcome (List (OrderFlowImbalanceSnapshot F))
  and_then (s, raised e) more = (s, raised e)
  and_then (s, returned o) more = (more.0, more.1 >>= λ rest. returned (o ∷ rest))

module _ {F : Type 0} ⦃fl : Float F⦄ where
  -- The signed volumes of ticks in turn, from the price before them
  abbrev pub signed_volumes_of : Option F → List (ScoredTick F × Option F) → List F
  signed_volumes_of before [] = []
  signed_volumes_of before ((t, volume) ∷ ts) =
      signed_volume before t.mid_price (resolve_volume t volume)
      ∷ signed_volumes_of (some t.mid_price) ts

  abbrev pub HasSymbol : OrderFlowImbalanceState F → ScoredTick F × Option F → Type 0
  HasSymbol s fed = string_eq.beq fed.0.symbol s.symbol ≡ true

  -- The imbalance and the size of the last `n` volumes, for each of `volumes` behind `past`
  abbrev pub windowed : (sum : List F → F) → ℕ → (past volumes : List F) → List (F × ℕ)
  windowed sum n past [] = []
  windowed sum n past (v ∷ vs) =
      let now = past ++ v ∷ [] in
      (imbalance sum (last_of n now), length (last_of n now)) ∷ windowed sum n now vs

  module _ (sum : List F → F) (sqrt : F → F) where
    -- Ticks in turn, with their snapshots in order
    abbrev pub process_ticks :
        List (ScoredTick F × Option F)
        → OrderFlowImbalanceState F
        → OrderFlowImbalanceState F × Outcome (List (OrderFlowImbalanceSnapshot F))
    process_ticks [] s = (s, returned [])
    process_ticks ((t, volume) ∷ ts) s =
        let step = process sum sqrt t volume s in and_then step (process_ticks ts step.0)

    process-take_in :
        (t : ScoredTick F) (volume : Option F) (s : OrderFlowImbalanceState F)
        → string_eq.beq t.symbol s.symbol ≡ true
        → process sum sqrt t volume s
          ≡ ((take_in sum sqrt t volume s).0, returned ((take_in sum sqrt t volume s).1))
    unfolding process
    process-take_in t volume s h =
        ap
          (λ b.
            if b
            then ((take_in sum sqrt t volume s).0, returned ((take_in sum sqrt t volume s).1))
            else (s, raised value_error))
          h

    windowed_from :
        (ts : List (ScoredTick F × Option F)) (s : OrderFlowImbalanceState F) (past : List F)
        → All (HasSymbol s) ts
        → s.signed_volumes ≡ last_of s.window_size past
        → (snapshots : List (OrderFlowImbalanceSnapshot F)) × ((process_ticks ts s).1
            ≡ returned snapshots)
          × (map (λ o. (o.ofi, o.tick_count)) snapshots
              ≡ windowed sum s.window_size past (signed_volumes_of s.previous_mid_price ts))
    unfolding take_in
    windowed_from [] s past h e = ([], refl, refl)
    windowed_from ((t, volume) ∷ ts) s past (m, ms) e =
        let v = signed_volume s.previous_mid_price t.mid_price (resolve_volume t volume) in
        let window : rolled s.window_size v s.signed_volumes
            ≡ last_of s.window_size (past ++ v ∷ []) =
          ap (rolled s.window_size v) e ∙ rolled-last_of s.window_size v past in
        let next = (take_in sum sqrt t volume s).0 in
        let (rest, a, b) = windowed_from ts next (past ++ v ∷ []) ms window in
        (
          (take_in sum sqrt t volume s).1 ∷ rest,
          ap (λ r. (and_then r (process_ticks ts r.0)).1) (process-take_in t volume s m)
              ∙ ap (λ o. o >>= λ more. returned ((take_in sum sqrt t volume s).1 ∷ more)) a,
          λ i. (imbalance sum (window i), length (window i)) ∷ b i,
        )

    -- Ticks of its symbol that a new state is given in turn all return, and each snapshot has the imbalance of the
    -- last window_size signed volumes up to its tick, with their number as its tick count.
    pub process_ticks-windowed :
        (symbol : String) (window_size z_window_size : ℕ) (ts : List (ScoredTick F × Option F))
        → let s : OrderFlowImbalanceState F = empty_state symbol window_size z_window_size in
          All (HasSymbol s) ts
          → (snapshots : List (OrderFlowImbalanceSnapshot F)) × ((process_ticks ts s).1
              ≡ returned snapshots)
            × (map (λ o. (o.ofi, o.tick_count)) snapshots
                ≡ windowed sum window_size [] (signed_volumes_of none ts))
    process_ticks-windowed symbol window_size z_window_size ts h =
        windowed_from ts (empty_state symbol window_size z_window_size) [] h
          (last_of_empty window_size)
