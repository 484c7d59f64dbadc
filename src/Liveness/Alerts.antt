-- ===== src/Liveness/Alerts.antt =====
-- The alerts that the monitor of services/layer1_validated/liveness.py emits over sequences of calls.
use algo_trading_platform.Base.{
  ℕ, ◌+◌, ◌≡◌, refl, true, false, List, [], ◌∷◌, String, arith, if◌then◌else◌,
}
use algo_trading_platform.Base.Dict.{Dict, lookup-insert, string_eq}
use algo_trading_platform.Float.{Float}
use algo_trading_platform.Liveness.{
  LivenessEvent, exchange_silent, exchange_recovered, ExchangeLivenessMonitor, new_monitor,
  is_alerted, record_tick, check_source, check_sources, check_all,
}

pub data LivenessCall (F : Type 0) : Type 0 where
  tick_seen : F → String → LivenessCall F
  checked : F → LivenessCall F

module _ {F : Type 0} where
  abbrev pub silences : String → List (LivenessEvent F) → ℕ
  silences s [] = 0
  silences s (exchange_silent r a b ∷ es) = (if string_eq.beq r s then 1 else 0) + silences s es
  silences s (exchange_recovered r a ∷ es) = silences s es

  abbrev pub recoveries : String → List (LivenessEvent F) → ℕ
  recoveries s [] = 0
  recoveries s (exchange_silent r a b ∷ es) = recoveries s es
  recoveries s (exchange_recovered r a ∷ es) =
      (if string_eq.beq r s then 1 else 0) + recoveries s es

  -- The silences reported of a source are one more than its recoveries while it is alerted, and as many
  -- otherwise.
  abbrev pub IsBalanced : String → ExchangeLivenessMonitor F → Type 0
  IsBalanced s m = silences s m.events ≡ recoveries s m.events + (if is_alerted s m then 1 else 0)

module _ {F : Type 0} ⦃fl : Float F⦄ where
  record_tick-IsBalanced :
      (s : String) (now : F) (source : String) (m : ExchangeLivenessMonitor F)
      → IsBalanced s m
      → IsBalanced s (record_tick now source m)
  unfolding record_tick
  record_tick-IsBalanced s now source m h =
      ground (arith, lookup-insert source s false m.alerted, string_eq.beq_iff source s)

  check_source-IsBalanced :
      (s : String) (now : F) (source : String) (m : ExchangeLivenessMonitor F)
      (overdue : Dict String F)
      → IsBalanced s m
      → IsBalanced s (check_source now source (m, overdue)).0
  unfolding check_source
  check_source-IsBalanced s now source m overdue h =
      ground (arith, lookup-insert source s true m.alerted, string_eq.beq_iff source s)

  check_sources-IsBalanced :
      (s : String) (now : F) (sources : List String) (r : ExchangeLivenessMonitor F × Dict String F)
      → IsBalanced s r.0
      → IsBalanced s (check_sources now sources r).0
  unfolding check_sources
  check_sources-IsBalanced s now [] r h = h
  check_sources-IsBalanced s now (source ∷ rest) (m, overdue) h =
      check_sources-IsBalanced s now rest (check_source now source (m, overdue))
        (check_source-IsBalanced s now source m overdue h)

  abbrev pub liveness_call : LivenessCall F → ExchangeLivenessMonitor F → ExchangeLivenessMonitor F
  liveness_call (tick_seen now source) m = record_tick now source m
  liveness_call (checked now) m = (check_all now m).0

  abbrev pub liveness_run :
      List (LivenessCall F) → ExchangeLivenessMonitor F → ExchangeLivenessMonitor F
  liveness_run [] m = m
  liveness_run (c ∷ cs) m = liveness_run cs (liveness_call c m)

  liveness_call-IsBalanced :
      (s : String) (c : LivenessCall F) (m : ExchangeLivenessMonitor F)
      → IsBalanced s m
      → IsBalanced s (liveness_call c m)
  unfolding check_all
  liveness_call-IsBalanced s (tick_seen now source) m h = record_tick-IsBalanced s now source m h
  liveness_call-IsBalanced s (checked now) m h = check_sources-IsBalanced s now m.sources (m, []) h

  run_from :
      (s : String) (cs : List (LivenessCall F)) (m : ExchangeLivenessMonitor F)
      → IsBalanced s m
      → IsBalanced s (liveness_run cs m)
  run_from s [] m h = h
  run_from s (c ∷ cs) m h = run_from s cs (liveness_call c m) (liveness_call-IsBalanced s c m h)

  -- From a new monitor, after any ticks and checks and for every source: the silences reported are one
  -- more than the recoveries while the source is alerted, and as many otherwise, so that a silence is
  -- reported once until the source recovers, and a recovery only after a silence.
  pub liveness_run-IsBalanced :
      (sources : List String) (cs : List (LivenessCall F)) (s : String)
      → IsBalanced s (liveness_run cs (new_monitor sources))
  liveness_run-IsBalanced sources cs s = run_from s cs (new_monitor sources) refl
