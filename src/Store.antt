-- ===== src/Store.antt =====
-- services/layer5_execution/persistence.py: `OrderStore`. A table with a primary key is a dict from the key
-- to the row. Metadata that is written as JSON is read back as it was; its type and the empty object are
-- parameters, and so is the time at which SQLite writes a dead letter.
pub mod Pending
mod Tests
use algo_trading_platform.Base.{
  ℕ, Bool, true, false, Option, none, some, List, [], ◌∷◌, String, if◌then◌else◌,
}
use algo_trading_platform.Base.Dict.{Dict, lookup, insert, string_eq}

pub record PersistedOrder (M F : Type 0) : Type 0 where
  pub client_order_id : String
  pub symbol : String
  pub direction : String
  pub size_pct : F
  pub timestamp_utc : ℕ
  pub session_id : String
  pub status : String
  pub metadata : M

-- A row of the table dead_letter.
pub record DeadLetter (M : Type 0) : Type 0 where
  pub payload : M
  pub failed_at : ℕ

pub record OrderStore (M F : Type 0) : Type 0 where
  pub orders : Dict String (PersistedOrder M F)
  pub dead_letter : Dict String (DeadLetter M)

module _ {M F : Type 0} where
  -- `_init_schema`
  abbrev pub new_store : OrderStore M F
  new_store = record { orders = []; dead_letter = [] }

  -- `UPDATE orders SET status = ? WHERE client_order_id = ?`
  unfoldable pub update_status :
      String → String → Dict String (PersistedOrder M F) → Dict String (PersistedOrder M F)
  update_status status id [] = []
  update_status status id ((k, po) ∷ rows) =
      (k, (if string_eq.beq k id then record po { status = status } else po))
      ∷ update_status status id rows

  -- `DELETE FROM orders WHERE client_order_id = ?`
  pub delete_rows : String → Dict String (PersistedOrder M F) → Dict String (PersistedOrder M F)
  delete_rows id [] = []
  delete_rows id ((k, po) ∷ rows) =
      let rest = delete_rows id rows in if string_eq.beq k id then rest else (k, po) ∷ rest

  -- `SELECT ... FROM orders WHERE status = ?`
  unfoldable pub select_status :
      String → Dict String (PersistedOrder M F) → List (PersistedOrder M F)
  select_status status [] = []
  select_status status ((k, po) ∷ rows) =
      let rest = select_status status rows in
      if string_eq.beq po.status status then po ∷ rest else rest

  unfoldable pub insert_order : PersistedOrder M F → OrderStore M F → OrderStore M F
  insert_order po s = record s { orders = insert po.client_order_id po s.orders }

  abbrev pub get_order : String → OrderStore M F → Option (PersistedOrder M F)
  get_order id s = lookup id s.orders

  unfoldable pub mark_confirmed : String → OrderStore M F → OrderStore M F
  mark_confirmed id s = record s { orders = update_status "CONFIRMED" id s.orders }

  unfoldable pub mark_duplicate : String → OrderStore M F → OrderStore M F
  mark_duplicate id s = record s { orders = update_status "DUPLICATE" id s.orders }

  -- `empty` is the payload of an order that is not there, `now` the time of SQLite.
  unfoldable pub mark_failed : M → ℕ → String → OrderStore M F → OrderStore M F
  mark_failed empty now id s =
      let payload : M = elim (get_order id s) [ none ↦ empty | some po ↦ po.metadata ] in
      record {
        orders = delete_rows id s.orders;
        dead_letter = insert id (record { payload = payload; failed_at = now }) s.dead_letter;
      }

  unfoldable pub fetch_pending : OrderStore M F → List (PersistedOrder M F)
  fetch_pending s = select_status "PENDING" s.orders
