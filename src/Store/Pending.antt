-- ===== src/Store/Pending.antt =====
-- What the order store of services/layer5_execution/persistence.py returns after its calls.
use algo_trading_platform.Base.{
  ℕ, ◌≡◌, refl, false, none, some, List, [], ◌∷◌, String, All, arith, if◌then◌else◌,
}
use algo_trading_platform.Base.Dict.{
  Dict, lookup, insert, lookup-insert, lookup-insert_self, string_eq,
}
use algo_trading_platform.Store.{
  PersistedOrder, OrderStore, new_store, update_status, delete_rows, select_status, insert_order,
  get_order, mark_confirmed, mark_duplicate, mark_failed, fetch_pending,
}

pub data StoreCall (M F : Type 0) : Type 0 where
  inserted : PersistedOrder M F → StoreCall M F
  confirmed duplicated : String → StoreCall M F
  failed : ℕ → String → StoreCall M F

module _ {M F : Type 0} (empty : M) where
  abbrev pub store_call : StoreCall M F → OrderStore M F → OrderStore M F
  store_call (inserted po) s = insert_order po s
  store_call (confirmed id) s = mark_confirmed id s
  store_call (duplicated id) s = mark_duplicate id s
  store_call (failed now id) s = mark_failed empty now id s

  abbrev pub store_run : List (StoreCall M F) → OrderStore M F → OrderStore M F
  store_run [] s = s
  store_run (c ∷ cs) s = store_run cs (store_call c s)

module _ {M F : Type 0} where
  -- Each row stands under the identifier of its order.
  abbrev pub IsKeyed : Dict String (PersistedOrder M F) → Type 0
  IsKeyed [] = Unit
  IsKeyed ((k, po) ∷ rows) = (k ≡ po.client_order_id) × IsKeyed rows

  abbrev pub IsOther : String → PersistedOrder M F → Type 0
  IsOther id po = string_eq.beq po.client_order_id id ≡ false

  pub insert-IsKeyed :
      (po : PersistedOrder M F) (rows : Dict String (PersistedOrder M F))
      → IsKeyed rows
      → IsKeyed (insert po.client_order_id po rows)
  insert-IsKeyed po [] h = (refl, tt)
  insert-IsKeyed po ((k, q) ∷ rows) (e, h) =
      ground (arith, string_eq.beq_iff k po.client_order_id, insert-IsKeyed po rows h)

  pub update_status-IsKeyed :
      (status id : String) (rows : Dict String (PersistedOrder M F))
      → IsKeyed rows
      → IsKeyed (update_status status id rows)
  unfolding update_status
  update_status-IsKeyed status id [] h = tt
  update_status-IsKeyed status id ((k, q) ∷ rows) (e, h) =
      (ground (arith), update_status-IsKeyed status id rows h)

  pub delete_rows-IsKeyed :
      (id : String) (rows : Dict String (PersistedOrder M F))
      → IsKeyed rows
      → IsKeyed (delete_rows id rows)
  unfolding delete_rows
  delete_rows-IsKeyed id [] h = tt
  delete_rows-IsKeyed id ((k, q) ∷ rows) (e, h) = ground (arith, delete_rows-IsKeyed id rows h)

  -- No row of the identifier has the status PENDING after an update to another status.
  pub select_updated :
      (status wanted id : String) (rows : Dict String (PersistedOrder M F))
      → string_eq.beq status wanted ≡ false
      → IsKeyed rows
      → All (IsOther id) (select_status wanted (update_status status id rows))
  unfolding select_status update_status
  select_updated status wanted id [] other h = tt
  select_updated status wanted id ((k, q) ∷ rows) other (e, h) =
      ground (arith, select_updated status wanted id rows other h)

  pub select_deleted :
      (wanted id : String) (rows : Dict String (PersistedOrder M F))
      → IsKeyed rows
      → All (IsOther id) (select_status wanted (delete_rows id rows))
  unfolding select_status delete_rows
  select_deleted wanted id [] h = tt
  select_deleted wanted id ((k, q) ∷ rows) (e, h) = ground (arith, select_deleted wanted id rows h)

  pub lookup-delete_rows :
      (id j : String) (rows : Dict String (PersistedOrder M F))
      → lookup j (delete_rows id rows) ≡ (if string_eq.beq id j then none else lookup j rows)
  unfolding delete_rows
  lookup-delete_rows id j [] = ground arith
  lookup-delete_rows id j ((k, q) ∷ rows) = ground (
    arith,
    string_eq.beq_iff k id,
    string_eq.beq_iff k j,
    string_eq.beq_iff id j,
    lookup-delete_rows id j rows,
  )

  pub lookup-update_status :
      (status id j : String) (rows : Dict String (PersistedOrder M F))
      → string_eq.beq id j ≡ false
      → lookup j (update_status status id rows) ≡ lookup j rows
  unfolding update_status
  lookup-update_status status id j [] other = refl
  lookup-update_status status id j ((k, q) ∷ rows) other = ground (
    arith,
    string_eq.beq_iff k id,
    string_eq.beq_iff k j,
    string_eq.beq_iff id j,
    lookup-update_status status id j rows other,
  )

  -- An order that is stored and then marked as failed is gone from the orders, its metadata stands in the
  -- dead letters with the time of the failure, and no other order has changed.
  mark_failed-insert_order :
      (empty : M) (now : ℕ) (po : PersistedOrder M F) (s : OrderStore M F) (other : String)
      → string_eq.beq po.client_order_id other ≡ false
      → let id = po.client_order_id in
        let s' = mark_failed empty now id (insert_order po s) in
        (get_order id s' ≡ none)
        × (lookup id s'.dead_letter ≡ some (record { payload = po.metadata; failed_at = now }))
        × (get_order other s' ≡ get_order other s)
  unfolding mark_failed insert_order
  mark_failed-insert_order empty now po s other apart =
      let id = po.client_order_id in
      let rows = insert id po s.orders in
      let own = (string_eq.beq_iff id id).1 refl in
      let stored = lookup-insert_self id po s.orders in
      (
        rw (lookup-delete_rows id id rows, own) refl,
        rw (stored) (lookup-insert_self id _ s.dead_letter),
        rw (lookup-delete_rows id other rows, apart, lookup-insert id other po s.orders, apart)
            refl,
      )

module _ {M F : Type 0} (empty : M) where
  store_call-IsKeyed :
      (c : StoreCall M F) (s : OrderStore M F)
      → IsKeyed s.orders
      → IsKeyed (store_call empty c s).orders
  unfolding insert_order mark_confirmed mark_duplicate mark_failed
  store_call-IsKeyed (inserted po) s h = insert-IsKeyed po s.orders h
  store_call-IsKeyed (confirmed id) s h = update_status-IsKeyed "CONFIRMED" id s.orders h
  store_call-IsKeyed (duplicated id) s h = update_status-IsKeyed "DUPLICATE" id s.orders h
  store_call-IsKeyed (failed now id) s h = delete_rows-IsKeyed id s.orders h

  store_run-IsKeyed :
      (cs : List (StoreCall M F)) (s : OrderStore M F)
      → IsKeyed s.orders
      → IsKeyed (store_run empty cs s).orders
  store_run-IsKeyed [] s h = h
  store_run-IsKeyed (c ∷ cs) s h =
      store_run-IsKeyed cs (store_call empty c s) (store_call-IsKeyed c s h)

  -- After any calls on a new store, an order that is marked as confirmed, as duplicate or as failed is no
  -- longer among the pending orders.
  pub settled_order_is_not_pending :
      (cs : List (StoreCall M F)) (now : ℕ) (id : String)
      → let s = store_run empty cs new_store in
        All (IsOther id) (fetch_pending (mark_confirmed id s))
        × All (IsOther id) (fetch_pending (mark_duplicate id s))
        × All (IsOther id) (fetch_pending (mark_failed empty now id s))
  unfolding fetch_pending mark_confirmed mark_duplicate mark_failed
  settled_order_is_not_pending cs now id =
      let s = store_run empty cs new_store in
      let keyed = store_run-IsKeyed cs new_store tt in
      (
        select_updated "CONFIRMED" "PENDING" id s.orders refl keyed,
        select_updated "DUPLICATE" "PENDING" id s.orders refl keyed,
        select_deleted "PENDING" id s.orders keyed,
      )
