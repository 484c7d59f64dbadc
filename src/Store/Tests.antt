-- ===== src/Store/Tests.antt =====
-- The order store of services/layer5_execution/persistence.py at concrete calls.
use algo_trading_platform.Base.{ℕ, List, [], ◌∷◌, String, All}
use algo_trading_platform.Base.Dict.{string_eq}
use algo_trading_platform.Store.{
  PersistedOrder, new_store, mark_confirmed, mark_duplicate, mark_failed, fetch_pending,
}
use algo_trading_platform.Store.Pending.{
  StoreCall, inserted, confirmed, store_run, IsOther, settled_order_is_not_pending,
}

abbrev order : String → PersistedOrder ℕ ℕ
order id = record {
  client_order_id = id;
  symbol = "BTC-USDT";
  direction = "LONG";
  size_pct = 20;
  timestamp_utc = 100;
  session_id = "s";
  status = "PENDING";
  metadata = 7;
}

abbrev calls : List (StoreCall ℕ ℕ)
calls = inserted (order "a") ∷ inserted (order "b") ∷ confirmed "b" ∷ []

settled_order_is_not_pending_example :
    let s = store_run 0 calls new_store in
    All (IsOther "a") (fetch_pending (mark_confirmed "a" s))
    × All (IsOther "a") (fetch_pending (mark_duplicate "a" s))
    × All (IsOther "a") (fetch_pending (mark_failed 0 901 "a" s))
settled_order_is_not_pending_example = settled_order_is_not_pending 0 calls 901 "a"
