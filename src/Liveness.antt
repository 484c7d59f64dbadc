-- ===== src/Liveness.antt =====
-- services/layer1_validated/liveness.py: `ExchangeLivenessMonitor`. The clock is an argument, and the calls
-- of `audit_fn` are the list of events, the latest first.
pub mod Alerts
mod Tests
use algo_trading_platform.Base.{
  Bool, true, false, Option, none, some, List, [], ◌∷◌, String, if◌then◌else◌,
}
use algo_trading_platform.Base.Dict.{Dict, lookup, insert, string_eq}
use algo_trading_platform.Float.{Float}

pub data LivenessEvent (F : Type 0) : Type 0 where
  exchange_silent : String → (silence_ms threshold_ms : F) → LivenessEvent F
  exchange_recovered : String → (silent_ms : F) → LivenessEvent F

pub record ExchangeLivenessMonitor (F : Type 0) : Type 0 where
  pub sources : List String
  pub last_seen : Dict String F
  pub alerted : Dict String Bool
  pub events : List (LivenessEvent F)

module _ {F : Type 0} where
  abbrev pub new_monitor : List String → ExchangeLivenessMonitor F
  new_monitor sources = record { sources = sources; last_seen = []; alerted = []; events = [] }

  -- `self._alerted.get(source)` as a test
  abbrev pub is_alerted : String → ExchangeLivenessMonitor F → Bool
  is_alerted source m = elim (lookup source m.alerted) [ none ↦ false | some b ↦ b ]

module _ {F : Type 0} ⦃fl : Float F⦄ where
  open fl use {decimal, sub, mul, lt}

  -- `EXPECTED_INTERVALS_MS.get(source, 10_000)`
  pub expected_interval_ms : String → F
  expected_interval_ms source =
      if string_eq.beq source "binance"
      then decimal 500 0
      else if string_eq.beq source "coinbase"
      then decimal 15_000 0
      else if string_eq.beq source "kraken"
      then decimal 20_000 0
      else if string_eq.beq source "okx"
      then decimal 500 0
      else if string_eq.beq source "bybit"
      then decimal 500 0
      else decimal 10_000 0

  abbrev pub threshold_ms : String → F
  threshold_ms source = mul (expected_interval_ms source) (decimal 5 0)

  pub record_tick : F → String → ExchangeLivenessMonitor F → ExchangeLivenessMonitor F
  record_tick now source m =
      let last : F = elim (lookup source m.last_seen) [ none ↦ now | some t ↦ t ] in
      let seen = insert source now m.last_seen in
      if is_alerted source m
      then record m {
        last_seen = seen;
        alerted = insert source false m.alerted;
        events = exchange_recovered source (sub now last) ∷ m.events;
      }
      else record m { last_seen = seen }

  -- The body of the loop of `check_all` for one source, with the dict `overdue`.
  pub check_source :
      F
      → String
      → ExchangeLivenessMonitor F × Dict String F
      → ExchangeLivenessMonitor F × Dict String F
  check_source now source (m, overdue) = elim (lookup source m.last_seen) [
    | none ↦ (m, overdue)
    | some last ↦
        if lt (threshold_ms source) (sub now last)
        then (
          (if is_alerted source m then m else record m {
            alerted = insert source true m.alerted;
            events = exchange_silent source (sub now last) (threshold_ms source) ∷ m.events;
          }),
          insert source (sub now last) overdue,
        )
        else (m, overdue)
  ]

  pub check_sources :
      F
      → List String
      → ExchangeLivenessMonitor F × Dict String F
      → ExchangeLivenessMonitor F × Dict String F
  check_sources now [] r = r
  check_sources now (source ∷ rest) r = check_sources now rest (check_source now source r)

  pub check_all : F → ExchangeLivenessMonitor F → ExchangeLivenessMonitor F × Dict String F
  check_all now m = check_sources now m.sources (m, [])
