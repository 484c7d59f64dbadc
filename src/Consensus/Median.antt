-- ===== src/Consensus/Median.antt =====
-- The volume-weighted median of services/layer1_consensus/engine.py.
use mathlib.Core.List.{Perm}
use mathlib.Core.List.Perm
use mathlib.Core.Path.{subst}
use algo_trading_platform.Base.{
  ◌≡◌, refl, true, false, ◌⊎◌, inl, inr, List, [], ◌∷◌, ◌++◌, map, ap, sym, All, if_intro,
}
use algo_trading_platform.Base.Outcome.{IfReturned}
use algo_trading_platform.Float.{Float, IsOrdered, nought, maximum}
use algo_trading_platform.Consensus.{
  NormalizedTick, insert_sorted, sort_by, cumulate, weighted_item, volume_weighted_median,
}

abbrev IsNonempty : {A : Type 0} → List A → Type 0
IsNonempty [] = ⊥
IsNonempty (x ∷ xs) = Unit

All-middle :
    {A : Type 0} (P : A → Type 0) (xs : List A) (x : A) (ys : List A) → All P (xs ++ x ∷ ys) → P x
All-middle P [] x ys (p, h) = p
All-middle P (y ∷ xs) x ys (p, h) = All-middle P xs x ys h

module _ {F : Type 0} ⦃fl : Float F⦄ where
  open fl use {decimal, add, div, le, lt}

  -- The weights of the items, added up from the left.
  abbrev running : F → List (F × F) → F
  running c [] = c
  running c ((m, w) ∷ items) = running (add c w) items

  -- The items up to the one with the price `m` are where the running weight, from `c` on, first reaches
  -- `half`; where rounding keeps it from that, `m` is the last price.
  pub record IsCrossing (half c : F) (items : List (F × F)) (m : F) : Type 0 where
    pub lower : List (F × F)
    pub upper : List (F × F)
    pub weight : F
    pub parts : items ≡ lower ++ (m, weight) ∷ upper
    pub before : (lower ≡ []) ⊎ (le half (running c lower) ≡ false)
    pub reached : (le half (running c (lower ++ (m, weight) ∷ [])) ≡ true) ⊎ (upper ≡ [])

  -- A list of the items from the lowest price to the highest crosses `half` at `m`: the prices before it are
  -- not above `m` and weigh less than `half`, those after it are not below `m`, and with `m` half is reached.
  pub record IsWeightedMedian (half : F) (items : List (F × F)) (m : F) : Type 0 where
    pub arranged : List (F × F)
    pub same_items : Perm arranged items
    pub crossing : IsCrossing half nought arranged m
    pub lower_below : All (λ i. le i.0 m ≡ true) crossing.lower
    pub upper_above : All (λ i. le m i.0 ≡ true) crossing.upper

  single-IsCrossing : (half c m w : F) → IsCrossing half c ((m, w) ∷ []) m
  single-IsCrossing half c m w = record {
    lower = [];
    upper = [];
    weight = w;
    parts = refl;
    before = inl refl;
    reached = inr refl;
  }

  cumulate-IsCrossing :
      (half c last : F) (items : List (F × F))
      → IsNonempty items
      → IsCrossing half c items (cumulate half c last items)
  cumulate-IsCrossing half c last [] n = elim n [ ]
  cumulate-IsCrossing half c last ((m, w) ∷ []) n =
      if_intro (IsCrossing half c ((m, w) ∷ [])) (le half (add c w))
        (λ _. single-IsCrossing half c m w) (λ _. single-IsCrossing half c m w)
  cumulate-IsCrossing half c last ((m, w) ∷ j ∷ items) n =
      let rest = cumulate-IsCrossing half (add c w) m (j ∷ items) tt in
      if_intro (IsCrossing half c ((m, w) ∷ j ∷ items)) (le half (add c w))
        (λ enough. record {
          lower = [];
          upper = j ∷ items;
          weight = w;
          parts = refl;
          before = inl refl;
          reached = inl enough;
        })
        (λ few. record {
          lower = (m, w) ∷ rest.lower;
          upper = rest.upper;
          weight = rest.weight;
          parts = ap (λ r. (m, w) ∷ r) rest.parts;
          before = elim rest.before [
            | inl none_before ↦
                inr (subst (λ r. le half (running (add c w) r) ≡ false) (sym none_before) few)
            | inr less ↦ inr less
          ];
          reached = rest.reached;
        })

  module _ {A : Type 0} (key : A → F) where
    insert_sorted-Perm : (x : A) (xs : List A) → Perm (insert_sorted key x xs) (x ∷ xs)
    insert_sorted-Perm x [] = Perm.rfl
    insert_sorted-Perm x (y ∷ ys) =
        if_intro (λ r. Perm r (x ∷ y ∷ ys)) (lt (key y) (key x))
          (λ _. Perm.trans (Perm.cons y (insert_sorted-Perm x ys)) (Perm.swap x y ys))
          (λ _. Perm.rfl)

    sort_by-Perm : (xs : List A) → Perm (sort_by key xs) xs
    sort_by-Perm [] = Perm.rfl
    sort_by-Perm (x ∷ xs) =
        Perm.trans (insert_sorted-Perm x (sort_by key xs)) (Perm.cons x (sort_by-Perm xs))

    insert_sorted-IsNonempty : (x : A) (xs : List A) → IsNonempty (insert_sorted key x xs)
    insert_sorted-IsNonempty x [] = tt
    insert_sorted-IsNonempty x (y ∷ ys) =
        if_intro IsNonempty (lt (key y) (key x)) (λ _. tt) (λ _. tt)

    module _ (P : A → Type 0) where
      insert_sorted-All : (x : A) (xs : List A) → P x → All P xs → All P (insert_sorted key x xs)
      insert_sorted-All x [] p h = (p, tt)
      insert_sorted-All x (y ∷ ys) p (q, h) =
          if_intro (All P) (lt (key y) (key x)) (λ _. (q, insert_sorted-All x ys p h))
            (λ _. (p, (q, h)))

      sort_by-All : (xs : List A) → All P xs → All P (sort_by key xs)
      sort_by-All [] h = tt
      sort_by-All (x ∷ xs) (p, h) = insert_sorted-All x (sort_by key xs) p (sort_by-All xs h)

    -- Each key is not above those after it.
    abbrev IsSorted : List A → Type 0
    IsSorted [] = Unit
    IsSorted (x ∷ xs) = All (λ y. le (key x) (key y) ≡ true) xs × IsSorted xs

    abbrev HasNumber : A → Type 0
    HasNumber x = le (key x) (key x) ≡ true

    module _ (ordered : IsOrdered F) where
      above_trans :
          (x y : A) (ys : List A)
          → le (key x) (key y) ≡ true
          → All (λ z. le (key y) (key z) ≡ true) ys
          → All (λ z. le (key x) (key z) ≡ true) ys
      above_trans x y [] a h = tt
      above_trans x y (z ∷ ys) a (b, h) =
          (ordered.le_trans (key x) (key y) (key z) a b, above_trans x y ys a h)

      insert_sorted-IsSorted :
          (x : A) (xs : List A)
          → HasNumber x
          → All HasNumber xs
          → IsSorted xs
          → IsSorted (insert_sorted key x xs)
      insert_sorted-IsSorted x [] n h s = (tt, tt)
      insert_sorted-IsSorted x (y ∷ ys) n (k, h) (a, s) =
          if_intro IsSorted (lt (key y) (key x))
            (λ below. (
              insert_sorted-All (λ z. le (key y) (key z) ≡ true) x ys
                  (ordered.le_of_lt (key y) (key x) below) a,
              insert_sorted-IsSorted x ys n h s,
            ))
            (λ other.
              let least = ordered.le_of_not_lt (key y) (key x) k n other in
              ((least, above_trans x y ys least a), (a, s)))

      sort_by-IsSorted : (xs : List A) → All HasNumber xs → IsSorted (sort_by key xs)
      sort_by-IsSorted [] h = tt
      sort_by-IsSorted (x ∷ xs) (n, h) =
          insert_sorted-IsSorted x (sort_by key xs) n (sort_by-All HasNumber xs h)
            (sort_by-IsSorted xs h)

    IsSorted-around :
        (x : A) (xs ys : List A)
        → IsSorted (xs ++ x ∷ ys)
        → All (λ y. le (key y) (key x) ≡ true) xs × All (λ y. le (key x) (key y) ≡ true) ys
    IsSorted-around x [] ys (a, s) = (tt, a)
    IsSorted-around x (y ∷ xs) ys (a, s) =
        let (below, above) = IsSorted-around x xs ys s in
        ((All-middle (λ z. le (key y) (key z) ≡ true) xs x ys a, below), above)

  -- The mid price of a tick with its volume, or nought for a negative one.
  abbrev pub weighed : NormalizedTick F → F × F
  weighed t = (div (add t.bid t.ask) (decimal 2 0), maximum t.volume_24h nought)

  -- When the weights, which are the volumes or nought for negative ones, have a sum above nought and the mid
  -- prices are numbers, of floats that are ordered away from NaN, `volume_weighted_median` returns a weighted
  -- median: in an order of the ticks by price, the first price at which the weights up to it add up to half
  -- the sum, or the last price where rounding keeps them below that.
  pub volume_weighted_median-IsWeightedMedian :
      (ordered : IsOrdered F) (sum : List F → F) (t : NormalizedTick F)
      (ts : List (NormalizedTick F))
      → let items = map weighed (t ∷ ts) in
        let total = sum (map (λ i. i.1) items) in
        le total nought ≡ false
        → All (λ i. le i.0 i.0 ≡ true) items
        → IfReturned
            (IsWeightedMedian (div total (decimal 2 0)) items)
            (volume_weighted_median sum (t ∷ ts))
  unfolding volume_weighted_median
  volume_weighted_median-IsWeightedMedian ordered sum t ts weighted numbers =
      let key : F × F → F = λ i. i.0 in
      let items = map weighted_item (t ∷ ts) in
      let sorted = sort_by-IsSorted key ordered items numbers in
      let crossing =
        cumulate-IsCrossing _ nought nought (sort_by key items)
          (insert_sorted-IsNonempty key (weighted_item t) _) in
      let around =
        IsSorted-around key _ crossing.lower crossing.upper
          (subst (IsSorted key) crossing.parts sorted) in
      rw weighted (record {
        arranged = sort_by key items;
        same_items = sort_by-Perm key items;
        crossing = crossing;
        lower_below = around.0;
        upper_above = around.1;
      })
