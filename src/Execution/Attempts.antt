-- ===== src/Execution/Attempts.antt =====
-- services/layer5_execution/engine.py: the loop of attempts of `submit_order`. The wait between two tries is
-- left out. An attempt is counted by the retries that are left.
use algo_trading_platform.Base.{
  ℕ, zero, suc, ◌+◌, Bool, ◌||◌, Option, none, some, String, if◌then◌else◌,
}
use algo_trading_platform.Base.Dict.{string_eq}
use algo_trading_platform.Base.Outcome.{Outcome, returned, raised, PyError, duplicate_order_error}
use algo_trading_platform.Float.{Float}
use algo_trading_platform.Store.{OrderStore, mark_confirmed, mark_duplicate, mark_failed}
use algo_trading_platform.Execution.{
  OrderPayload, OrderStatus, OrderStatusResult, FillResult, ExecutedOrder, Adapter,
}
use algo_trading_platform.Execution.Engine.{
  ExecutionEngine, SubmitContext, is_settled, is_duplicate, with_store, count, query,
  status_result_to_execution, record_fill, poll,
}

-- `max_attempts` and `max_poll_attempts`
abbrev pub max_attempts : ℕ
max_attempts = 3

abbrev pub max_poll_attempts : ℕ
max_poll_attempts = 60

module _ {S M F : Type 0} where
  abbrev pub count_close_all : OrderPayload F → ExecutionEngine S M F → ExecutionEngine S M F
  count_close_all order e =
      let close_all = string_eq.beq order.direction "CLOSE_ALL" in
      count
        (λ t. record t {
          close_all_orders = if close_all then t.close_all_orders + 1 else t.close_all_orders;
        })
        e

  abbrev pub count_duplicate : ExecutionEngine S M F → ExecutionEngine S M F
  count_duplicate e = count (λ t. record t { duplicate_orders = t.duplicate_orders + 1 }) e

  abbrev pub count_retry : ExecutionEngine S M F → ExecutionEngine S M F
  count_retry e = count (λ t. record t { retry_attempts = t.retry_attempts + 1 }) e

  abbrev pub give_up : SubmitContext M → String → ExecutionEngine S M F → ExecutionEngine S M F
  give_up ctx id e =
      with_store (mark_failed ctx.empty_metadata ctx.failed_at id)
        (count (λ t. record t { failed_submissions = t.failed_submissions + 1 }) e)

  -- An execution that is found is returned, otherwise the error stands.
  abbrev pub found_or :
      PyError
      → Option (ExecutedOrder F) × ExecutionEngine S M F
      → Outcome (ExecutedOrder F) × ExecutionEngine S M F
  found_or err (some x, e) = (returned x, e)
  found_or err (none, e) = (raised err, e)

  -- After the last attempt.
  abbrev pub or_give_up :
      SubmitContext M
      → String
      → Outcome (ExecutedOrder F) × ExecutionEngine S M F
      → Outcome (ExecutedOrder F) × ExecutionEngine S M F
  or_give_up ctx id (returned x, e) = (returned x, e)
  or_give_up ctx id (raised err, e) = (raised err, give_up ctx id e)

  -- After another attempt, with the answer of the query and what the further attempts give.
  abbrev pub or_retry :
      Outcome (ExecutedOrder F) × ExecutionEngine S M F
      → Option (ExecutedOrder F) × ExecutionEngine S M F
      → Outcome (ExecutedOrder F) × ExecutionEngine S M F
      → Outcome (ExecutedOrder F) × ExecutionEngine S M F
  or_retry (returned x, e) asked again = (returned x, e)
  or_retry (raised err, e) (some x, e') again = (returned x, e')
  or_retry (raised err, e) (none, e') again = again

module _ {S M F : Type 0} (adapter : Adapter S F) where
  -- The call of the adapter, with the count of the orders that close everything.
  abbrev pub send :
      OrderPayload F
      → String
      → F
      → ExecutionEngine S M F
      → Outcome (FillResult F) × ExecutionEngine S M F
  send order id price e =
      let r = adapter.execute order id e.portfolio_value price e.adapter_state in
      (r.0, count_close_all order (record e { adapter_state = r.1 }))

module _ {S M F : Type 0} ⦃fl : Float F⦄ where
  -- What a status tells of an order, when it is one that `wanted` admits; `mark` is the change of the store.
  abbrev pub settle_with :
      (OrderStatus → Bool)
      → (OrderStore M F → OrderStore M F)
      → Option (OrderStatusResult F)
      → ExecutionEngine S M F
      → Option (ExecutedOrder F) × ExecutionEngine S M F
  settle_with wanted mark none e = (none, e)
  settle_with wanted mark (some st) e =
      let r = status_result_to_execution st (with_store mark e) in
      if wanted st.status then (some r.0, r.1) else (none, e)

module _ {S M F : Type 0} ⦃fl : Float F⦄ (adapter : Adapter S F) where
  abbrev pub settle :
      (OrderStatus → Bool)
      → (OrderStore M F → OrderStore M F)
      → String
      → ExecutionEngine S M F
      → Option (ExecutedOrder F) × ExecutionEngine S M F
  settle wanted mark id e = settle_with wanted mark (query adapter id e).0 (query adapter id e).1

  -- The handling of a `DuplicateOrderError`.
  abbrev pub on_duplicate :
      PyError → String → ExecutionEngine S M F → Option (ExecutedOrder F) × ExecutionEngine S M F
  on_duplicate duplicate_order_error id e =
      settle (λ st. is_settled st || is_duplicate st) (mark_duplicate id) id (count_duplicate e)
  on_duplicate _ id e = (none, e)

  -- The query before a retry.
  abbrev pub before_retry :
      String → ExecutionEngine S M F → Option (ExecutedOrder F) × ExecutionEngine S M F
  before_retry id e = settle is_settled (mark_confirmed id) id e

  -- An order that the adapter has filled.
  abbrev pub on_fill :
      String
      → FillResult F
      → ExecutionEngine S M F
      → Outcome (ExecutedOrder F) × ExecutionEngine S M F
  on_fill id fill e =
      let r = record_fill id fill e in
      let p = poll adapter max_poll_attempts id r.0 r.1 in (returned p.0, p.1)

  -- What follows the call of the adapter: a fill, a duplicate that the adapter knows, or the error.
  abbrev pub after_send :
      String
      → Outcome (FillResult F)
      → ExecutionEngine S M F
      → Outcome (ExecutedOrder F) × ExecutionEngine S M F
  after_send id (returned fill) e = on_fill id fill e
  after_send id (raised err) e = found_or err (on_duplicate err id e)

  abbrev pub attempt :
      OrderPayload F
      → String
      → F
      → ExecutionEngine S M F
      → Outcome (ExecutedOrder F) × ExecutionEngine S M F
  attempt order id price e =
      after_send id (send adapter order id price e).0 (send adapter order id price e).1

  -- The loop of attempts.
  unfoldable pub attempts :
      ℕ
      → SubmitContext M
      → OrderPayload F
      → String
      → F
      → ExecutionEngine S M F
      → Outcome (ExecutedOrder F) × ExecutionEngine S M F
  attempts zero ctx order id price e = or_give_up ctx id (attempt order id price e)
  attempts (suc retries) ctx order id price e =
      let tried = attempt order id price e in
      let asked = before_retry id tried.1 in
      or_retry tried asked (attempts retries ctx order id price (count_retry asked.1))
