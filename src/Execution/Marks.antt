-- ===== src/Execution/Marks.antt =====
-- services/layer5_execution/engine.py: every end of the loop of attempts marks the stored order.
use mathlib.Core.Option.{map as option_map}
use algo_trading_platform.Base.{
  ℕ, zero, suc, ◌≡◌, refl, false, true, Bool, arith, if◌then◌else◌, Option, none, some, String,
}
use algo_trading_platform.Base.Dict.{string_eq}
use algo_trading_platform.Base.Outcome.{
  Outcome, returned, raised, PyError, value_error, attribute_error, index_error, key_error,
  runtime_error, duplicate_order_error,
}
use algo_trading_platform.Float.{Float}
use algo_trading_platform.Store.{OrderStore, mark_confirmed, mark_duplicate, mark_failed}
use algo_trading_platform.Execution.{
  OrderPayload, OrderStatus, OrderStatusResult, FillResult, ExecutedOrder, Adapter,
}
use algo_trading_platform.Execution.Engine.{
  ExecutionEngine, SubmitContext, with_store, query, poll, poll_round, terminal, record_fill,
  status_result_to_execution,
}
use algo_trading_platform.Execution.Attempts.{
  on_fill, settle_with, send, count_retry, count_duplicate, attempt, after_send, found_or,
  on_duplicate, before_retry, or_give_up, or_retry, attempts, max_poll_attempts,
}

-- A property of the store, where there is one.
abbrev pub Holds : {A : Type 0} → (A → Type 0) → Option A → Type 0
Holds P none = Unit
Holds P (some s) = P s

module _ {S M F : Type 0} ⦃fl : Float F⦄ where
  pub store-terminal :
      (id : String) (st : OrderStatusResult F) (x : ExecutedOrder F) (e : ExecutionEngine S M F)
      → (terminal id st x e).1.store ≡ e.store
  unfolding terminal
  store-terminal id st x e = ground arith

  store-poll_round :
      (id : String) (o : Option (OrderStatusResult F)) (x : ExecutedOrder F)
      (e : ExecutionEngine S M F) (again : ExecutedOrder F × ExecutionEngine S M F)
      → again.1.store ≡ e.store
      → (poll_round id o x e again).1.store ≡ e.store
  store-poll_round id none x e again h = refl
  store-poll_round id (some st) x e again h = ground (arith, h, store-terminal id st x e)

module _ {S M F : Type 0} ⦃fl : Float F⦄ (adapter : Adapter S F) where
  store-poll :
      (rounds : ℕ) (id : String) (x : ExecutedOrder F) (e : ExecutionEngine S M F)
      → (poll adapter rounds id x e).1.store ≡ e.store
  unfolding poll
  store-poll zero id x e = refl
  store-poll (suc rounds) id x e =
      let asked = query adapter id e in
      store-poll_round id asked.0 x asked.1 _ (store-poll rounds id x asked.1)

pub Holds-weaken :
    {A : Type 0} {P R : A → Type 0} (o : Option A) → ((a : A) → P a → R a) → Holds P o → Holds R o
Holds-weaken none g h = tt
Holds-weaken (some a) g h = g a h

pub Holds-map :
    {A B : Type 0} {P : A → Type 0} (R : B → Type 0) (f : A → B) (o : Option A)
    → ((a : A) → P a → R (f a))
    → Holds P o
    → Holds R (option_map f o)
Holds-map R f none g h = tt
Holds-map R f (some a) g h = g a h

-- `Q` is what holds of the store while an order is pending, and `R` what a mark of the order then gives.
module _ {S M F : Type 0} (Q R : OrderStore M F → Type 0) where
  abbrev IsMarked : Option (ExecutedOrder F) × ExecutionEngine S M F → Type 0
  IsMarked (some x, e) = Holds R e.store
  IsMarked (none, e) = Holds Q e.store

  abbrev IsEnded : Outcome (ExecutedOrder F) × ExecutionEngine S M F → Type 0
  IsEnded (returned x, e) = Holds R e.store
  IsEnded (raised err, e) = Holds Q e.store

module _ {S M F : Type 0} ⦃fl : Float F⦄ (adapter : Adapter S F) (id : String)
    (ctx : SubmitContext M) (Q R : OrderStore M F → Type 0)
    (confirms : (s : OrderStore M F) → Q s → R (mark_confirmed id s))
    (duplicates : (s : OrderStore M F) → Q s → R (mark_duplicate id s))
    (fails : (s : OrderStore M F)
      → Q s
      → R (mark_failed ctx.empty_metadata ctx.failed_at id s)) where
  settle_with_marks :
      (wanted : OrderStatus → Bool) (mark : OrderStore M F → OrderStore M F)
      (marks : (s : OrderStore M F) → Q s → R (mark s)) (o : Option (OrderStatusResult F))
      (e : ExecutionEngine S M F)
      → Holds Q e.store
      → IsMarked Q R (settle_with wanted mark o e)
  unfolding status_result_to_execution
  settle_with_marks wanted mark marks none e h = h
  settle_with_marks wanted mark marks (some st) e h =
      let r = status_result_to_execution st (with_store mark e) in
      elim (wanted st.status) as (λ b. IsMarked Q R (if b then (some r.0, r.1) else (none, e))) [
        | true ↦ Holds-map R mark e.store marks h
        | false ↦ h
      ]

  on_fill_marks :
      (fill : FillResult F) (e : ExecutionEngine S M F)
      → Holds Q e.store
      → Holds R (on_fill adapter id fill e).1.store
  unfolding record_fill
  on_fill_marks fill e h =
      rw (store-poll adapter max_poll_attempts id _ _)
        (Holds-map R (mark_confirmed id) e.store confirms h)

  on_duplicate_marks :
      (err : PyError) (e : ExecutionEngine S M F)
      → Holds Q e.store
      → IsMarked Q R (on_duplicate adapter err id e)
  on_duplicate_marks duplicate_order_error e h =
      let asked = query adapter id (count_duplicate e) in
      settle_with_marks _ (mark_duplicate id) duplicates asked.0 asked.1 h
  on_duplicate_marks value_error e h = h
  on_duplicate_marks attribute_error e h = h
  on_duplicate_marks index_error e h = h
  on_duplicate_marks key_error e h = h
  on_duplicate_marks runtime_error e h = h

  found_or_ends :
      (err : PyError) (r : Option (ExecutedOrder F) × ExecutionEngine S M F)
      → IsMarked Q R r
      → IsEnded Q R (found_or err r)
  found_or_ends err (some x, e) h = h
  found_or_ends err (none, e) h = h

  after_send_ends :
      (sent : Outcome (FillResult F)) (e : ExecutionEngine S M F)
      → Holds Q e.store
      → IsEnded Q R (after_send adapter id sent e)
  after_send_ends (returned fill) e h = on_fill_marks fill e h
  after_send_ends (raised err) e h =
      found_or_ends err (on_duplicate adapter err id e) (on_duplicate_marks err e h)

  or_give_up_marks :
      (r : Outcome (ExecutedOrder F) × ExecutionEngine S M F)
      → IsEnded Q R r
      → Holds R (or_give_up ctx id r).1.store
  or_give_up_marks (returned x, e) h = h
  or_give_up_marks (raised err, e) h = Holds-map R _ e.store fails h

  or_retry_marks :
      (r : Outcome (ExecutedOrder F) × ExecutionEngine S M F)
      (asked : Option (ExecutedOrder F) × ExecutionEngine S M F)
      (again : Outcome (ExecutedOrder F) × ExecutionEngine S M F)
      → IsEnded Q R r
      → (Holds Q r.1.store → IsMarked Q R asked)
      → (Holds Q asked.1.store → Holds R again.1.store)
      → Holds R (or_retry r asked again).1.store
  or_retry_marks (returned x, e) asked again h f g = h
  or_retry_marks (raised err, e) (some x, e') again h f g = f h
  or_retry_marks (raised err, e) (none, e') again h f g = g (f h)

  pub attempts_mark :
      (n : ℕ) (order : OrderPayload F) (price : F) (e : ExecutionEngine S M F)
      → Holds Q e.store
      → Holds R (attempts adapter n ctx order id price e).1.store
  unfolding attempts
  attempts_mark zero order price e h =
      let sent = send adapter order id price e in
      or_give_up_marks (attempt adapter order id price e) (after_send_ends sent.0 sent.1 h)
  attempts_mark (suc n) order price e h =
      let sent = send adapter order id price e in
      let tried = attempt adapter order id price e in
      let asked = query adapter id tried.1 in
      let before = before_retry adapter id tried.1 in
      or_retry_marks tried before _ (after_send_ends sent.0 sent.1 h)
        (λ q. settle_with_marks _ (mark_confirmed id) confirms asked.0 asked.1 q)
        (λ q. attempts_mark n order price (count_retry before.1) q)
