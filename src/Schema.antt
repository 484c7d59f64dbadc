-- ===== src/Schema.antt =====
-- The records that travel between the layers: shared/schemas.py (`SystemState`, `ApprovedOrder`),
-- `TradeSignal` of services/layer3_strategy/signals.py and `IndicatorSnapshot` of
-- services/layer3_strategy/indicators.py. A string that takes a few fixed values is an enumeration,
-- and a dict that is either empty or has fixed keys is an `Option` of a record.
use algo_trading_platform.Base.{ℕ, Bool, true, false, Option, List, String}

pub data SystemState : Type 0 where
  normal conservative degraded halt : SystemState

pub data SignalDirection : Type 0 where
  long short hold close_all : SignalDirection

pub data ConfluenceLevel : Type 0 where
  full partial nil : ConfluenceLevel

pub data EmaCross : Type 0 where
  bullish bearish : EmaCross

pub data EmaAlignment : Type 0 where
  bullish bearish neutral : EmaAlignment

pub data Regime : Type 0 where
  ranging trending strong_trend : Regime

pub record IndicatorSnapshot (F : Type 0) : Type 0 where
  pub symbol : String
  pub timeframe : String
  pub candle_start_time_utc : ℕ
  pub candle_end_time_utc : ℕ
  pub close : F
  pub rsi : Option F
  pub macd : Option F
  pub macd_signal : Option F
  pub macd_histogram : Option F
  pub bollinger_middle : Option F
  pub bollinger_upper : Option F
  pub bollinger_lower : Option F
  pub ema_fast : Option F
  pub ema_slow : Option F
  pub ema_alignment : Option EmaAlignment
  pub ema_cross : Option EmaCross
  pub atr : Option F
  pub adx : Option F
  pub regime : Option Regime
  pub candle_reliable : Bool

-- The two entries of `indicator_snapshots` and of `candle_reliability`.
pub record Frames {ℓ} (A : Type ℓ) : Type ℓ where
  pub primary : A
  pub higher : A

-- The keys of a gate's breakdown.
pub data GateCondition : Type 0 where
  rsi_ok macd_ok bollinger_ok ema_ok : GateCondition

pub data SignalReason : Type 0 where
  missing_primary missing_higher state_halt state_degraded primary_unreliable : SignalReason
  ofi_long_failed ofi_short_failed higher_disagreement long_signal short_signal : SignalReason
  primary_gate_failed : List GateCondition → SignalReason

pub record TradeSignal (F : Type 0) : Type 0 where
  pub symbol : String
  pub direction : SignalDirection
  pub size_pct : F
  pub signal_strength : F
  pub confluence : ConfluenceLevel
  pub ofi : F
  pub system_state : SystemState
  pub timestamp_utc : ℕ
  pub indicator_snapshots : Option (Frames (IndicatorSnapshot F))
  pub candle_reliability : Option (Frames Bool)
  pub trust_score : F
  pub reason : SignalReason

pub data CircuitBreakerState : Type 0 where
  normal reduced halted : CircuitBreakerState

pub data OrderDirection : Type 0 where
  long short close_all : OrderDirection

pub data RiskAdjustment : Type 0 where
  size_capped reduced_cut loss_resized close_all : RiskAdjustment

-- "approved", the adjustments joined by "; ", or "approved close all".
pub data OrderReason : Type 0 where
  approved : OrderReason
  adjusted : List RiskAdjustment → OrderReason
  approved_close_all : OrderReason

pub record ApprovedOrder (F : Type 0) : Type 0 where
  pub symbol : String
  pub direction : OrderDirection
  pub size_pct : F
  pub signal_strength : F
  pub confluence : ConfluenceLevel
  pub ofi : F
  pub trust_score : F
  pub timestamp_utc : ℕ
  pub entry_price : F
  pub stop_loss_price : Option F
  pub take_profit_price : Option F
  pub atr : Option F
  pub system_state : SystemState
  pub circuit_breaker_state : CircuitBreakerState
  pub portfolio_exposure_pct : F
  pub indicator_snapshots : Option (Frames (IndicatorSnapshot F))
  pub candle_reliability : Option (Frames Bool)
  pub risk_adjustments : List RiskAdjustment
  pub reason : OrderReason

-- `d == "HOLD"` and `d == "CLOSE_ALL"`
abbrev pub is_hold : SignalDirection → Bool
is_hold SignalDirection.hold = true
is_hold _ = false

abbrev pub is_close_all : SignalDirection → Bool
is_close_all SignalDirection.close_all = true
is_close_all _ = false

abbrev pub is_halt : SystemState → Bool
is_halt SystemState.halt = true
is_halt _ = false

abbrev pub is_degraded : SystemState → Bool
is_degraded SystemState.degraded = true
is_degraded _ = false

abbrev pub is_normal : SystemState → Bool
is_normal SystemState.normal = true
is_normal _ = false

abbrev pub is_conservative : SystemState → Bool
is_conservative SystemState.conservative = true
is_conservative _ = false
