-- ===== src/Execution/Tests.antt =====
-- The engine of services/layer5_execution/engine.py at concrete runs.
use algo_trading_platform.Base.{ℕ, zero, suc, ◌+◌, ◌≡◌, refl, true, none, some, [], ◌∷◌, String}
use algo_trading_platform.Base.Dict.{string_eq}
use algo_trading_platform.Base.Int.{ℤ, pos}
use algo_trading_platform.Base.Outcome.{Outcome, returned, raised, runtime_error}
use algo_trading_platform.Float.{nought}
use algo_trading_platform.Float.Fixed.{fixed_float}
use algo_trading_platform.Store.{
  OrderStore, PersistedOrder, fetch_pending, select_status, get_order,
}
use algo_trading_platform.Execution.{
  OrderPayload, OrderStatus, OrderStatusResult, FillResult, Adapter, check_execution_divergence,
  rejected_note,
}
use algo_trading_platform.Execution.Simulated.{SimulatedExecutionAdapter, simulated}
use algo_trading_platform.Execution.Engine.{ExecutionEngine, SubmitContext, SubmitOptions}
use algo_trading_platform.Execution.Submit.{
  submit_order, reconcile_pending_orders, place, pending_order,
}
use algo_trading_platform.Execution.Accounting.{IsReported, submit_order_accounts}
use algo_trading_platform.Execution.Marks.{Holds}
use algo_trading_platform.Execution.Reconciliation.{
  IsReconciled, answers, reconcile_pending_orders-IsReconciled,
}
use algo_trading_platform.Execution.Orders.{IsSettled, submit_order_settles}
use algo_trading_platform.Execution.Rejection.{rejected_order_stays_confirmed}
use algo_trading_platform.Execution.Resubmission.{IsReturned, IsSameFill, resubmission_fills_once}

abbrev order : OrderPayload ℤ
order = record {
  symbol = "BTC-USDT";
  direction = "LONG";
  size_pct = pos 200_000;
  entry_price = some (pos 50_000_000_000);
  exchange_id = "binance";
}

-- In place of the SHA-256.
abbrev make_id : (symbol direction : String) → ℤ → ℕ → String → String
make_id symbol direction size time session = symbol

abbrev context : SubmitContext ℕ
context = record {
  timestamp_ms = 100;
  session_id = "s";
  metadata = 7;
  empty_metadata = 0;
  failed_at = 900;
}

abbrev options : SubmitOptions ℤ
options = record {
  reference_price = none;
  consensus_price = some (pos 50_000_000_000);
  execution_venue_prices = some (("binance", pos 50_010_000_000) ∷ []);
  execution_venue = "binance";
}

abbrev other_order : PersistedOrder ℕ ℤ
other_order = record (pending_order make_id context order) { client_order_id = "ETH-USDT" }

abbrev stored : OrderStore ℕ ℤ
stored = record { orders = ("ETH-USDT", other_order) ∷ []; dead_letter = [] }

abbrev engine : {S : Type 0} → S → ExecutionEngine S ℕ ℤ
engine s = record {
  adapter_state = s;
  portfolio_value = pos 1_000_000;
  max_divergence_bps = pos 50_000_000;
  executions = [];
  telemetry = record {
    submitted_orders = 0;
    executed_orders = 0;
    duplicate_orders = 0;
    retry_attempts = 0;
    failed_submissions = 0;
    close_all_orders = 0;
    divergence_rejections = 0;
  };
  store = some stored;
  has_publisher = true;
  published = [];
}

abbrev fill : FillResult ℤ
fill = record {
  filled_pct = pos 200_000;
  avg_fill_price = pos 50_000_000_000;
  fee_paid = pos 0;
  slippage_pct = pos 0;
  note = some "full";
}

-- An adapter that fails as often as its state says.
abbrev flaky_execute : OrderPayload ℤ → String → ℤ → ℤ → ℕ → Outcome (FillResult ℤ) × ℕ
flaky_execute _ id value price zero = (returned fill, zero)
flaky_execute _ id value price (suc n) = (raised runtime_error, n)

abbrev flaky : Adapter ℕ ℤ
flaky = record { execute = flaky_execute; query_status = λ id n. (none, n) }

abbrev rejection : OrderStatusResult ℤ
rejection = record {
  client_order_id = "BTC-USDT";
  status = OrderStatus.rejected;
  filled_pct = pos 0;
  avg_fill_price = pos 0;
  fee_paid = pos 0;
  note = some "margin";
}

abbrev rejecting : Adapter ℕ ℤ
rejecting = record { execute = flaky_execute; query_status = λ id n. (some rejection, n) }

abbrev simulation : SimulatedExecutionAdapter ℤ
simulation = record {
  slippage_pct = pos 500;
  fee_pct = pos 750;
  partial_fill_threshold = pos 500_000;
  partial_fill_ratio = pos 0;
  fee_schedule = [];
  status = [];
}

submit_order_accounts_example :
    let r = submit_order flaky make_id context options order (engine 2) in
    IsReported r.0 (engine {S = ℕ} 2).telemetry r.1.telemetry
submit_order_accounts_example =
    submit_order_accounts flaky make_id context options order (pos 50_000_000_000) (engine 2) refl

submit_order_settles_example :
    Holds
      (IsSettled "BTC-USDT" stored)
      (submit_order flaky make_id context options order (engine 9)).1.store
unfolding fetch_pending select_status
submit_order_settles_example =
    submit_order_settles flaky make_id context options order stored (engine 9) refl (refl, tt)
      (refl, tt)

rejected_order_stays_confirmed_example :
    let r = place rejecting make_id context order (pos 50_000_000_000) (engine 0) in
    (r.0
      ≡ returned (record {
        order_id = "BTC-USDT";
        filled_pct = nought;
        avg_fill_price = nought;
        fee_paid = nought;
        slippage_pct = nought;
        note = rejected_note (some "margin");
      }))
    × Holds
        (λ s.
          get_order "BTC-USDT" s
          ≡ some (record (pending_order make_id context order) { status = "CONFIRMED" }))
        r.1.store
rejected_order_stays_confirmed_example =
    rejected_order_stays_confirmed rejecting make_id context order (pos 50_000_000_000) fill
      rejection 0 0 stored (engine 0) refl refl refl refl

resubmission_fills_once_example :
    let one = submit_order simulated make_id context options order (engine simulation) in
    let two = submit_order simulated make_id context options order one.1 in
    IsReturned (λ x. IsReturned (λ y. IsSameFill x y) two.0) one.0
    × (two.1.adapter_state ≡ one.1.adapter_state)
    × (two.1.telemetry.duplicate_orders ≡ one.1.telemetry.duplicate_orders + 1)
unfolding check_execution_divergence
resubmission_fills_once_example =
    resubmission_fills_once make_id context context options order (pos 50_000_000_000)
      (engine simulation) refl refl refl refl refl

-- The simulated adapter knows the stored order as filled.
abbrev confirmation : OrderStatusResult ℤ
confirmation = record rejection { client_order_id = "ETH-USDT"; status = OrderStatus.filled }

abbrev informed : SimulatedExecutionAdapter ℤ
informed = record simulation { status = ("ETH-USDT", confirmation) ∷ [] }

reconcile_pending_orders-IsReconciled_example :
    Holds
      (IsReconciled (answers simulated informed))
      (reconcile_pending_orders simulated (engine informed)).store
reconcile_pending_orders-IsReconciled_example =
    reconcile_pending_orders-IsReconciled simulated (engine informed) (λ id. refl) (refl, tt)
