-- ===== src/Execution/Orders.antt =====
-- The stored orders of services/layer5_execution/engine.py over `submit_order`, whatever the adapter answers.
use algo_trading_platform.Base.{ℕ, ◌≡◌, refl, false, Option, none, some, String, All}
use algo_trading_platform.Base.Dict.{string_eq, lookup-insert}
use algo_trading_platform.Float.{Float}
use algo_trading_platform.Store.{
  PersistedOrder, OrderStore, insert_order, mark_confirmed, mark_duplicate, mark_failed,
  fetch_pending, get_order,
}
use algo_trading_platform.Store.Pending.{
  IsKeyed, IsOther, insert-IsKeyed, update_status-IsKeyed, delete_rows-IsKeyed, select_updated,
  select_deleted, lookup-delete_rows, lookup-update_status,
}
use algo_trading_platform.Execution.{OrderPayload, DivergenceReason, Adapter}
use algo_trading_platform.Execution.Engine.{
  ExecutionEngine, SubmitContext, SubmitOptions, with_store,
}
use algo_trading_platform.Execution.Marks.{Holds, attempts_mark}
use algo_trading_platform.Execution.Attempts.{max_attempts}
use algo_trading_platform.Execution.Submit.{
  price_of, refusal, submit_with, client_order_id, pending_order, count_submitted, submit_order,
}

-- The rows are keyed, no order of the identifier is pending, and every other order stands as in `s₀`.
abbrev pub IsSettled : {M F : Type 0} → String → (s₀ s : OrderStore M F) → Type 0
IsSettled id s₀ s =
    IsKeyed s.orders
    × All (IsOther id) (fetch_pending s)
    × ((j : String) → string_eq.beq id j ≡ false → get_order j s ≡ get_order j s₀)

module _ {M F : Type 0} where
  -- The rows are keyed, and every order but that of the identifier stands as in `s₀`.
  abbrev IsKept : String → (s₀ s : OrderStore M F) → Type 0
  IsKept id s₀ s =
      IsKeyed s.orders
      × ((j : String) → string_eq.beq id j ≡ false → get_order j s ≡ get_order j s₀)

  insert_order-IsKept :
      (po : PersistedOrder M F) (s : OrderStore M F)
      → IsKeyed s.orders
      → IsKept po.client_order_id s (insert_order po s)
  unfolding insert_order
  insert_order-IsKept po s keyed = (
    insert-IsKeyed po s.orders keyed,
    λ j apart. rw (lookup-insert po.client_order_id j po s.orders, apart) refl,
  )

  mark_confirmed-IsSettled :
      (id : String) (s₀ s : OrderStore M F) → IsKept id s₀ s → IsSettled id s₀ (mark_confirmed id s)
  unfolding mark_confirmed fetch_pending
  mark_confirmed-IsSettled id s₀ s (keyed, kept) = (
    update_status-IsKeyed "CONFIRMED" id s.orders keyed,
    select_updated "CONFIRMED" "PENDING" id s.orders refl keyed,
    λ j apart. rw (lookup-update_status "CONFIRMED" id j s.orders apart) (kept j apart),
  )

  mark_duplicate-IsSettled :
      (id : String) (s₀ s : OrderStore M F) → IsKept id s₀ s → IsSettled id s₀ (mark_duplicate id s)
  unfolding mark_duplicate fetch_pending
  mark_duplicate-IsSettled id s₀ s (keyed, kept) = (
    update_status-IsKeyed "DUPLICATE" id s.orders keyed,
    select_updated "DUPLICATE" "PENDING" id s.orders refl keyed,
    λ j apart. rw (lookup-update_status "DUPLICATE" id j s.orders apart) (kept j apart),
  )

  mark_failed-IsSettled :
      (empty : M) (now : ℕ) (id : String) (s₀ s : OrderStore M F)
      → IsKept id s₀ s
      → IsSettled id s₀ (mark_failed empty now id s)
  unfolding mark_failed fetch_pending
  mark_failed-IsSettled empty now id s₀ s (keyed, kept) = (
    delete_rows-IsKeyed id s.orders keyed,
    select_deleted "PENDING" id s.orders keyed,
    λ j apart. rw (lookup-delete_rows id j s.orders, apart) (kept j apart),
  )

module _ {S M F : Type 0} ⦃fl : Float F⦄ (adapter : Adapter S F)
    (make_client_order_id : (symbol direction : String)
      → F
      → (timestamp_ms : ℕ) → (session_id : String) → String) where
  submit_with_settles :
      (ctx : SubmitContext M) (order : OrderPayload F) (price : Option F)
      (refused : Option DivergenceReason) (s : OrderStore M F) (e : ExecutionEngine S M F)
      → (e.store ≡ some s)
      → let id = client_order_id make_client_order_id ctx order in
        IsSettled id s s
        → Holds
            (IsSettled id s)
            (submit_with adapter make_client_order_id ctx order price refused e).1.store
  submit_with_settles ctx order none refused s e stored h = rw (stored) h
  submit_with_settles ctx order (some p) (some reason) s e stored h = rw (stored) h
  submit_with_settles ctx order (some p) none s e stored h =
      let po = pending_order make_client_order_id ctx order in
      let id = po.client_order_id in
      attempts_mark adapter id ctx (IsKept id s) (IsSettled id s) (mark_confirmed-IsSettled id s)
        (mark_duplicate-IsSettled id s)
        (mark_failed-IsSettled ctx.empty_metadata ctx.failed_at id s) max_attempts order p
        (with_store (insert_order po) e) (rw (stored) (insert_order-IsKept po s (h.0)))

  -- After `submit_order`, whatever the adapter answers and however the call ends, the order is not among
  -- the pending orders of the store and every other order is stored as before, if the rows are keyed by
  -- their identifiers and no order of the new identifier was pending.
  pub submit_order_settles :
      (ctx : SubmitContext M) (opts : SubmitOptions F) (order : OrderPayload F) (s : OrderStore M F)
      (e : ExecutionEngine S M F)
      → let id = client_order_id make_client_order_id ctx order in
        (e.store ≡ some s)
        → IsKeyed s.orders
        → All (IsOther id) (fetch_pending s)
        → Holds
            (IsSettled id s)
            (submit_order adapter make_client_order_id ctx opts order e).1.store
  unfolding submit_order
  submit_order_settles ctx opts order s e stored keyed free =
      submit_with_settles ctx order (price_of order opts) (refusal opts e) s (count_submitted e)
        stored (keyed, free, λ j apart. refl)
