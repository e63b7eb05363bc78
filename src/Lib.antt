-- ===== src/Lib.antt =====
-- A verification of the core logic of 2identify, a system that watches an industrial work place with
-- cameras: an operator station (2identify_operador), an API (2identify_api) and an administrator's
-- client (2identify_admin).
--
-- The operator station looks at frames. A window of frames decides which protective equipment (PPE)
-- is present (app/engine/ppe_stability.py), a gate decides from that whether an operation may start
-- (app/engine/ppe_safety.py), and a service starts the work session on a recent authorization
-- (app/services/work_session_service.py). A controller connects the worker, the window, the gate and
-- the page (app/controllers/ppe_inference_controller.py). Boxes are followed over frames
-- (app/vision/ppe/tracking.py), and poses are screened for people in a risk area and for postures
-- (app/engine/risk_area.py, ergonomics.py). During a session every cycle of monitoring reports
-- violations, which an engine debounces into alerts (app/engine/alert.py). Alerts are delivered to the
-- API, which stores each event once (app/repositories/safety_alert_repository.py), and the open alerts
-- are reported as a snapshot (app/services/safety_state_service.py), which the API merges over all
-- stations and publishes to signal hardware (app/services/safety_state.py) through a broker with
-- bounded queues (app/realtime/broker.py). A controller merges the violations of equipment, postures
-- and areas for two alert engines (app/controllers/active_ppe_monitoring_controller.py). Clients log in
-- for a signed token (2identify_api/app/core/security.py, app/services/authentication.py).
--
-- Files, and the code that each is about:
--   Domain/Alert, Domain/WorkSession, Domain/Operation: 2identify_operador/app/domain/alert.py,
--     work_session.py and operation.py. A dataclass is a record, and its `__post_init__` the function
--     `..._init`, which returns the stored value or raises.
--   Engine/Alerts: 2identify_operador/app/engine/alert.py. Defs has the state and the steps of
--     `AlertEngine`, Cycle has `observe`. Spec describes a cycle as an automaton for one condition,
--     and Step, Tracked, Loops, Observe and Normalize relate the code to it. History has the calls that
--     an engine has taken, apart from its counters, for Debounce and Lifecycle.
--   Engine/Stability, Engine/Safety: 2identify_operador/app/engine/ppe_stability.py, ppe_safety.py.
--     Window and Decisions are about sequences of frames.
--   Services/Sessions, Services/SafetyState: 2identify_operador/app/services/work_session_service.py
--     and safety_state_service.py.
--   Vision/Tracking, Vision/Pose: 2identify_operador/app/vision/ppe/tracking.py and types.py, and
--     pose/types.py. In Tracking, Defs, Greedy and Matching are about `_associate`, Tracker, Ages,
--     Added and Sound about `update`.
--   Domain/RiskArea, Engine/RiskArea: 2identify_operador/app/domain/risk_area.py and
--     engine/risk_area.py. Points is about `classify_point`, People about `evaluate`.
--   Engine/Ergonomics: 2identify_operador/app/engine/ergonomics.py. Defs and Screenings are about one
--     person, Evaluate, Keys, Merge and Frame about the people of a frame.
--   Control/Inference: 2identify_operador/app/controllers/ppe_inference_controller.py. A slot is a
--     handler, Invariant, Release and Total are about one call, Slots about runs; Control/Start puts
--     the release and the start of a session together.
--   Control/Monitoring: 2identify_operador/app/controllers/active_ppe_monitoring_controller.py. Defs has
--     the observation of the merged violations, Slots the other slots, Merged and Watch their proofs.
--   Auth: 2identify_api/app/core/security.py and services/authentication.py.
--   Realtime/Broker: 2identify_api/app/realtime/broker.py, class `InMemoryRealtimeEventBroker`.
--   Realtime/Aggregator: 2identify_api/app/services/safety_state.py and schemas/safety_state.py.
--   Store/Alerts: 2identify_api/app/repositories/safety_alert_repository.py.
--   Store/Lifecycle: 2identify_api/app/repositories/admin_alert_repository.py, the transitions.
--   Base: texts, instants, dictionaries, stable sorting, results and ratios.
-- A component's Defs are its definitions, the files beside it what is proved of them, and Examples
-- concrete runs, of Samples where there are many.
--
-- How Python is modelled. A method takes the state and returns it beside a result, also when it
-- raises. `isinstance` tests are the types. An identifier is a natural number, 0 standing for what
-- `<= 0` refuses; a UUID is a number or its text. An aware `datetime` is the instant in
-- microseconds, a naive one is kept apart; the end of the calendar is not modelled. `str.strip` and
-- `str.casefold` are parameters (Base/Strings), with the law that they leave a normalised text
-- alone. The ratios of the stability engine are an ordered type (Base/Floats), and the numbers of
-- the tracker, of the geometry and of the screenings any arithmetic, with the laws of IEEE 754
-- numbers that a theorem needs as its hypotheses. A dictionary keeps its order of insertion. A
-- method under a lock is one step. What a clock, an identifier factory, `uuid4` or the database
-- returns in a call is an argument. All recursion is structural, and no fuel is used.
--
-- Not modelled: the user interfaces, workers, cameras and neural models, HTTP and the web framework,
-- SQL queries other than those of the two alert repositories, and the delivery of alerts and
-- snapshots.
pub mod Auth
pub mod Base
pub mod Control
pub mod Domain
pub mod Engine
pub mod Services
pub mod Vision
pub mod Realtime
pub mod Store
