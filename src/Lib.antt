-- ===== src/Lib.antt =====
-- A model of the decision path of the trading platform: the prices on which the sources agree and how they
-- are logged, what the strategy layer proposes, what the risk layer lets through, how an order is executed,
-- and how the audit layer records it.
--
-- The program passes market ticks through six layers, each a service. Layers 1 and 2 validate ticks and
-- name a system state; Layer 3 (services/layer3_strategy) turns indicator snapshots into a TradeSignal
-- and sizes it; Layer 4 (services/layer4_risk) keeps a circuit breaker and approves or rejects each
-- signal; Layer 5 (services/layer5_execution) stores and submits orders; Layer 6 (services/layer6_audit)
-- writes audit events to a hash chain.
--
-- The files and the code they model:
--   Base, Base/*        shared names, Boolean tests, lists, dicts, integers and raised errors of Python
--   Float               the float operations the code uses, as an interface; the laws of IEEE 754 order
--                       and rounding that a theorem needs are its hypotheses; Float/Fixed fills it with
--                       fixed-point numbers of six decimals, on which tests run
--   Schema              shared/schemas.py (ApprovedOrder, SystemState), the records of signals.py and
--                       indicators.py, as records and enumerations
--   Risk                services/layer4_risk/engine.py: configuration, RiskState, telemetry, __init__
--   Risk/Breaker        observe_market, register_closed_trade and what they call; its proofs are in
--                       Breaker/States, Breaker/Alerts and Breaker/Observations
--   Risk/Gate           evaluate_signal and what it calls; its proofs are in Gate/Bounds, Gate/Blocking
--                       and Gate/Counters
--   Risk/History        sequences of calls of the engine; Latch, Counters, Pause and Wins are about
--                       them
--   Strategy            services/layer3_strategy/signals.py: thresholds; Gates, Strength and Signal model
--                       the gates, the strengths and evaluate_dual_timeframe_signal
--   Strategy/Sizing     services/layer3_strategy/sizing.py
--   Candles             services/layer3_strategy/candles.py: CandleAggregator; Manager is
--                       CandleAggregationManager; Buckets, Stream and Shape are about intervals, ticks and candles
--   Indicators          services/layer3_strategy/indicators.py: the series; State is the state of a timeframe
--                       and the manager; Online and Parts are about functions that grow at the end, Series,
--                       Divergence and Oscillators about the single series, Rows, Batch and Stream about
--                       candles in turn, Ready about the entries before enough candles
--   OrderFlow           services/layer3_strategy/ofi.py; Window is about what its windows hold
--   Pipeline            a signal of Layer 3, sized, evaluated by Layer 4; Ticks is about ticks that pass
--                       through the candles to the indicators
--   Liveness            services/layer1_validated/liveness.py; Alerts is about its alerts
--   Trust               services/layer1_trust/scoring.py; Range is about the ranges of its scores
--   Store               services/layer5_execution/persistence.py: the tables of the order store; Pending is
--                       about what its queries return after its calls
--   Consensus           services/layer1_consensus/engine.py: the medians and the divergence test; Engine is
--                       process_aligned, Sources and Reports are about its active, quarantined and
--                       reported sources, Median about the volume-weighted median; Align is TickAligner, and
--                       Due and Fresh are about its windows and what they hold
--   Fusion              services/layer2_anomaly/fusion.py; Caps is about the range of its score
--   Detectors           services/layer2_anomaly/detectors: the volatility ratio, MAD and absolute threshold
--                       detectors; Drift is the CUSUM and the EWMA detector; Windows is about the bounded
--                       windows, Ratio, Armed and Limits about when the detectors trigger
--   Scoring             services/layer2_anomaly/engine.py: score_tick; Gate is the decision gate, Severity, Calm
--                       and Tick are about its states; the regime classifier is a parameter
--   Execution           services/layer5_execution/engine.py: orders, executions, the divergence check and the
--                       interface of an adapter; Execution/Simulated is the simulated one of adapters.py,
--                       Engine, Attempts and Submit are the engine; Accounting is about its counters,
--                       Marks and Orders about the stored orders, Reconciliation about a restart,
--                       Resubmission and Rejection about an order that is sent again or rejected
--   HashLog             services/layer1_hashlog/hash_chain.py: the logger; Verify is verify_hash_chain,
--                       Links says what it accepts, History and Reach are about the files of a
--                       run, Faults about restarts and drops
--   Audit               services/layer6_audit/engine.py: entries, hash and log files
--   Audit/Writer        writer.py and rotation.py
--   Audit/Verifier      verifier.py
--   Audit/Service       the loop of service.py and rounds of the background verification
--
-- State is passed explicitly: a method takes the engine or the writer and returns the next one. A raised
-- exception is a value of Outcome. A text built for a log or a reason is a constructor. Times are natural
-- numbers of milliseconds, and floats where the code takes them from its own clock. The loops run over lists,
-- but for the attempts and the polling of Layer 5, which recurse on the tries that the code leaves them, so
-- that no fuel is needed. The SHA-256 digest of an entry, the size of a file, the path of a rotated
-- file, the mean and the sum of a list of floats and the exponential function are parameters.
--
-- The calls of the order store succeed: the exceptions of SQLite, which record_fill and the other callers
-- swallow, do not occur, and an order that is inserted again keeps its place among the rows, where SQLite moves
-- it to the end. Theorems about floats name the behaviour they rely on in records (IsOrdered, IsRounded,
-- HasRoots, HasSigns), which leave room for NaN and for infinite values.
--
-- Not modelled: Kafka, HTTP and metrics, the parsing of messages, the ingestion of Layer 1, the cleanup of old
-- files of its hash log, the regime classifier and the service of Layer 2, the Binance adapter and the service
-- of Layer 5, backtesting and training.
pub mod Base
pub mod Float
pub mod Schema
pub mod Risk
pub mod Strategy
pub mod Pipeline
pub mod HashLog
pub mod Indicators
pub mod OrderFlow
pub mod Consensus
pub mod Fusion
pub mod Detectors
pub mod Scoring
pub mod Execution
pub mod Liveness
pub mod Trust
pub mod Store
pub mod Candles
pub mod Audit
