-- ===== src/Execution/Accounting.antt =====
-- The telemetry of services/layer5_execution/engine.py over `submit_order`.
use mathlib.Core.Option.{none-ne-some}
use algo_trading_platform.Base.{
  ℕ, Bool, zero, suc, ◌+◌, ◌≤◌, ◌≡◌, refl, Option, none, some, String, arith,
}
use algo_trading_platform.Base.Outcome.{
  Outcome, returned, raised, PyError, value_error, attribute_error, index_error, key_error,
  runtime_error, duplicate_order_error,
}
use algo_trading_platform.Float.{Float}
use algo_trading_platform.Store.{OrderStore}
use algo_trading_platform.Execution.{
  OrderPayload, OrderStatus, DivergenceReason, OrderStatusResult, FillResult, ExecutedOrder,
  Adapter, ExecutionTelemetry,
}
use algo_trading_platform.Execution.Engine.{
  ExecutionEngine, SubmitContext, SubmitOptions, query, poll, poll_round, terminal, record_fill,
  status_result_to_execution,
}
use algo_trading_platform.Execution.Attempts.{
  on_fill, settle_with, after_send, found_or, on_duplicate, before_retry, or_give_up, or_retry,
  send, max_attempts, count_retry, count_duplicate, attempt, attempts, max_poll_attempts,
}
use algo_trading_platform.Execution.Submit.{
  submit_with, place, refusal, count_submitted, submit_order, price_of,
}

-- What a part of an attempt does to the telemetry, with the growth of the executed orders.
abbrev IsCounted : ℕ → (t t' : ExecutionTelemetry) → Type 0
IsCounted n t t' =
    (t'.failed_submissions ≡ t.failed_submissions)
    × (t'.retry_attempts ≡ t.retry_attempts)
    × (t'.submitted_orders ≡ t.submitted_orders)
    × (t'.divergence_rejections ≡ t.divergence_rejections)
    × (t'.executed_orders ≡ t.executed_orders + n)

abbrev IsFound : {F : Type 0} → Option (ExecutedOrder F) → (t t' : ExecutionTelemetry) → Type 0
IsFound o t t' = IsCounted (elim o [ some _ ↦ 1 | none ↦ 0 ]) t t'

abbrev IsTried : {F : Type 0} → Outcome (ExecutedOrder F) → (t t' : ExecutionTelemetry) → Type 0
IsTried r t t' = IsCounted (elim r [ returned _ ↦ 1 | raised _ ↦ 0 ]) t t'

-- What at most `n` retries do to the telemetry.
abbrev IsAccounted :
    {F : Type 0} → ℕ → Outcome (ExecutedOrder F) → (t t' : ExecutionTelemetry) → Type 0
IsAccounted n r t t' =
    (t'.submitted_orders ≡ t.submitted_orders)
    × (t'.divergence_rejections ≡ t.divergence_rejections)
    × elim r [
      | returned _ ↦
          (t'.executed_orders ≡ t.executed_orders + 1)
          × (t'.failed_submissions ≡ t.failed_submissions)
          × (t'.retry_attempts ≤ t.retry_attempts + n)
      | raised _ ↦
          (t'.executed_orders ≡ t.executed_orders)
          × (t'.failed_submissions ≡ t.failed_submissions + 1)
          × (t'.retry_attempts ≡ t.retry_attempts + n)
    ]

module _ {S M F : Type 0} ⦃fl : Float F⦄ (adapter : Adapter S F) where
  telemetry-terminal :
      (id : String) (st : _) (x : ExecutedOrder F) (e : ExecutionEngine S M F)
      → (terminal id st x e).1.telemetry ≡ e.telemetry
  unfolding terminal
  telemetry-terminal id st x e = ground arith

  telemetry-poll_round :
      (id : String) (o : Option (OrderStatusResult F)) (x : ExecutedOrder F)
      (e : ExecutionEngine S M F) (again : ExecutedOrder F × ExecutionEngine S M F)
      → again.1.telemetry ≡ e.telemetry
      → (poll_round id o x e again).1.telemetry ≡ e.telemetry
  telemetry-poll_round id none x e again h = refl
  telemetry-poll_round id (some st) x e again h = ground (arith, h, telemetry-terminal id st x e)

  telemetry-poll :
      (rounds : ℕ) (id : String) (x : ExecutedOrder F) (e : ExecutionEngine S M F)
      → (poll adapter rounds id x e).1.telemetry ≡ e.telemetry
  unfolding poll
  telemetry-poll zero id x e = refl
  telemetry-poll (suc rounds) id x e =
      let asked = query adapter id e in
      telemetry-poll_round id asked.0 x asked.1 _ (telemetry-poll rounds id x asked.1)

  on_fill-telemetry :
      (id : String) (fill : FillResult F) (e : ExecutionEngine S M F)
      → (on_fill adapter id fill e).1.telemetry
        ≡ (record e.telemetry { executed_orders = e.telemetry.executed_orders + 1 })
  unfolding record_fill
  on_fill-telemetry id fill e = telemetry-poll max_poll_attempts id _ _

  -- A query that settles an order counts one more executed order, and another one changes no count.
  settle_with_lem :
      (wanted : OrderStatus → Bool) (mark : OrderStore M F → OrderStore M F)
      (o : Option (OrderStatusResult F)) (e : ExecutionEngine S M F)
      → let r = settle_with wanted mark o e in IsFound r.0 e.telemetry r.1.telemetry
  unfolding status_result_to_execution
  settle_with_lem wanted mark none e = ground arith
  settle_with_lem wanted mark (some st) e = ground arith

  on_duplicate_lem :
      (err : PyError) (id : String) (e : ExecutionEngine S M F)
      → let r = on_duplicate adapter err id e in IsFound r.0 e.telemetry r.1.telemetry
  on_duplicate_lem duplicate_order_error id e =
      let asked = query adapter id (count_duplicate e) in settle_with_lem _ _ asked.0 asked.1
  on_duplicate_lem value_error id e = ground arith
  on_duplicate_lem attribute_error id e = ground arith
  on_duplicate_lem index_error id e = ground arith
  on_duplicate_lem key_error id e = ground arith
  on_duplicate_lem runtime_error id e = ground arith

  found_or_lem :
      (err : PyError) (r : Option (ExecutedOrder F) × ExecutionEngine S M F)
      (t : ExecutionTelemetry)
      → IsFound r.0 t r.1.telemetry
      → IsTried (found_or err r).0 t (found_or err r).1.telemetry
  found_or_lem err (some x, e) t h = h
  found_or_lem err (none, e) t h = h

  after_send_lem :
      (id : String) (sent : Outcome (FillResult F)) (e : ExecutionEngine S M F)
      → let r = after_send adapter id sent e in IsTried r.0 e.telemetry r.1.telemetry
  after_send_lem id (returned fill) e = ground (arith, on_fill-telemetry id fill e)
  after_send_lem id (raised err) e = found_or_lem err _ e.telemetry (on_duplicate_lem err id e)

  or_give_up_lem :
      (ctx : SubmitContext M) (id : String) (r : Outcome (ExecutedOrder F) × ExecutionEngine S M F)
      (t : ExecutionTelemetry)
      → IsTried r.0 t r.1.telemetry
      → let r' = or_give_up ctx id r in IsAccounted 0 r'.0 t r'.1.telemetry
  or_give_up_lem ctx id (returned x, e) t h = ground arith
  or_give_up_lem ctx id (raised err, e) t h = ground arith

  or_retry_lem :
      (n : ℕ) (r : Outcome (ExecutedOrder F) × ExecutionEngine S M F)
      (asked : Option (ExecutedOrder F) × ExecutionEngine S M F)
      (again : Outcome (ExecutedOrder F) × ExecutionEngine S M F) (t : ExecutionTelemetry)
      → IsTried r.0 t r.1.telemetry
      → IsFound asked.0 r.1.telemetry asked.1.telemetry
      → IsAccounted n again.0 (count_retry asked.1).telemetry again.1.telemetry
      → let r' = or_retry r asked again in IsAccounted (suc n) r'.0 t r'.1.telemetry
  or_retry_lem n (returned x, e) asked again t h q i = ground arith
  or_retry_lem n (raised err, e) (some x, e') again t h q i = ground arith
  or_retry_lem n (raised err, e) (none, e') (returned x, e'') t h q i = ground arith
  or_retry_lem n (raised err, e) (none, e') (raised err', e'') t h q i = ground arith

  attempts_lem :
      (n : ℕ) (ctx : SubmitContext M) (order : OrderPayload F) (id : String) (price : F)
      (e : ExecutionEngine S M F)
      → let r = attempts adapter n ctx order id price e in
        IsAccounted n r.0 e.telemetry r.1.telemetry
  unfolding attempts
  attempts_lem zero ctx order id price e =
      let sent = send adapter order id price e in
      or_give_up_lem ctx id _ e.telemetry (after_send_lem id sent.0 sent.1)
  attempts_lem (suc n) ctx order id price e =
      let sent = send adapter order id price e in
      let tried = attempt adapter order id price e in
      let asked = before_retry adapter id tried.1 in
      let q = query adapter id tried.1 in
      or_retry_lem n tried asked _ e.telemetry (after_send_lem id sent.0 sent.1)
        (settle_with_lem _ _ q.0 q.1) (attempts_lem n ctx order id price (count_retry asked.1))

-- What a call of `submit_order` that has a price does to the telemetry: each order ends as one executed,
-- failed or refused order, and it fails only after all the retries.
abbrev pub IsReported :
    {F : Type 0} → Outcome (ExecutedOrder F) → (t t' : ExecutionTelemetry) → Type 0
IsReported r t t' =
    (t'.submitted_orders ≡ t.submitted_orders + 1)
    × (t'.executed_orders + t'.failed_submissions + t'.divergence_rejections
        ≡ t.executed_orders + t.failed_submissions + t.divergence_rejections + 1)
    × elim r [
      | returned _ ↦
          (t'.failed_submissions ≡ t.failed_submissions)
          × (t'.retry_attempts ≤ t.retry_attempts + 3)
      | raised _ ↦
          (t'.failed_submissions ≡ t.failed_submissions + 1)
          × (t'.retry_attempts ≡ t.retry_attempts + 3)
    ]

accounted-IsReported :
    {F : Type 0} (r : Outcome (ExecutedOrder F)) (t t' : ExecutionTelemetry)
    → IsAccounted max_attempts r (record t { submitted_orders = t.submitted_orders + 1 }) t'
    → IsReported r t t'
accounted-IsReported (returned x) t t' h = ground arith
accounted-IsReported (raised err) t t' h = ground arith

module _ {S M F : Type 0} ⦃fl : Float F⦄ (adapter : Adapter S F)
    (make_client_order_id : (symbol direction : String)
      → F
      → (timestamp_ms : ℕ) → (session_id : String) → String) where
  submit_with_lem :
      (ctx : SubmitContext M) (order : OrderPayload F) (known : Option F) (price : F)
      (refused : Option DivergenceReason) (e : ExecutionEngine S M F)
      → (known ≡ some price)
      → let r =
          submit_with adapter make_client_order_id ctx order known refused (count_submitted e) in
        IsReported r.0 e.telemetry r.1.telemetry
  submit_with_lem ctx order none price refused e h = absurd (none-ne-some price h)
  submit_with_lem ctx order (some p) price (some reason) e h = ground arith
  submit_with_lem ctx order (some p) price none e h =
      let placed = place adapter make_client_order_id ctx order p (count_submitted e) in
      accounted-IsReported placed.0 e.telemetry placed.1.telemetry
        (attempts_lem adapter max_attempts ctx order _ p _)

  -- Whatever the adapter answers, `submit_order` with a price counts one submitted order and exactly one
  -- more among the executed, failed and refused orders; it returns after at most three retries, and it
  -- raises only after three retries, with one failed submission counted.
  pub submit_order_accounts :
      (ctx : SubmitContext M) (opts : SubmitOptions F) (order : OrderPayload F) (price : F)
      (e : ExecutionEngine S M F)
      → (price_of order opts ≡ some price)
      → let r = submit_order adapter make_client_order_id ctx opts order e in
        IsReported r.0 e.telemetry r.1.telemetry
  unfolding submit_order
  submit_order_accounts ctx opts order price e h =
      submit_with_lem ctx order (price_of order opts) price (refusal opts e) e h
