-- ===== src/Lifecycle.antt =====
-- The lifecycle state machine (immune_system/lifecycle.py). A method that changes the manager
-- returns the new one beside its result. `now` is the clock's reading during the call; times and the
-- timeout are natural numbers of one unit. Log lines are left out. `on_transition` is left out as
-- well: it is called with the very event that is appended to the history.
pub mod Transition
pub mod History
pub mod Log
pub mod Calls
pub mod Escalation
pub mod Probation
use ai_agent_immune_system.Common.{
  Bool, List, Option, String, String-discrete, [], contains, false, if◌then◌else◌, ite, keep, leb,
  none, not, some, some_or, true, ℕ, ◌++◌, ◌+◌, ◌∷◌,
}
use ai_agent_immune_system.Common.Dict
use ai_agent_immune_system.Common.Dict.{Dict}

pub data AgentPhase : Type 0 where
  initializing healthy suspected draining quarantined healing probation exhausted : AgentPhase

unfoldable pub AgentPhase-discrete : Discrete AgentPhase
AgentPhase-discrete = hlevel

-- `_ALLOWED_TRANSITIONS`
unfoldable pub allowed_transitions : AgentPhase → List AgentPhase
allowed_transitions initializing = healthy ∷ []
allowed_transitions healthy = suspected ∷ draining ∷ []
allowed_transitions suspected = healthy ∷ draining ∷ []
allowed_transitions draining = quarantined ∷ []
allowed_transitions quarantined = healing ∷ []
allowed_transitions healing = probation ∷ exhausted ∷ []
allowed_transitions probation = healthy ∷ healing ∷ []
allowed_transitions exhausted = healing ∷ []

-- `target in _ALLOWED_TRANSITIONS.get(phase, [])`
unfoldable pub is_allowed : AgentPhase → AgentPhase → Bool
is_allowed phase target = contains AgentPhase-discrete target (allowed_transitions phase)

pub record TransitionEvent : Type 0 where
  pub agent_id : String
  pub from_phase : AgentPhase
  pub to_phase : AgentPhase
  pub reason : String
  pub timestamp : ℕ

pub record AgentLifecycleState : Type 0 where
  pub phase : AgentPhase
  pub suspect_tick_count : ℕ
  pub drain_started_at : Option ℕ
  pub probation_tick_count : ℕ
  pub last_transition_at : ℕ

-- `_AgentLifecycleState()`
abbrev pub fresh : ℕ → AgentLifecycleState
fresh now = record {
  phase = initializing;
  suspect_tick_count = 0;
  drain_started_at = none;
  probation_tick_count = 0;
  last_transition_at = now;
}

pub record LifecycleManager : Type 0 where
  pub suspect_ticks : ℕ
  pub drain_timeout_s : ℕ
  pub probation_ticks : ℕ
  pub states : Dict String AgentLifecycleState
  pub history : List TransitionEvent

unfoldable pub init : ℕ → ℕ → ℕ → LifecycleManager
init suspect_ticks drain_timeout_s probation_ticks = record {
  suspect_ticks = suspect_ticks;
  drain_timeout_s = drain_timeout_s;
  probation_ticks = probation_ticks;
  states = [];
  history = [];
}

-- `SUSPECT_TICKS_DEFAULT`, `DRAIN_TIMEOUT_DEFAULT` and `PROBATION_TICKS_DEFAULT`
abbrev pub default_manager : LifecycleManager
default_manager = init 3 30 10

-- What the manager knows of an agent: its entry, or a fresh one.
unfoldable pub state_of : LifecycleManager → String → ℕ → AgentLifecycleState
state_of m agent_id now = some_or (Dict.get String-discrete agent_id m.states) (fresh now)

unfoldable pub put_state : LifecycleManager → String → AgentLifecycleState → LifecycleManager
put_state m agent_id st = record m { states = Dict.put String-discrete agent_id st m.states }

-- `_state`, which adds the entry of an agent that it does not know
unfoldable pub ensure : LifecycleManager → String → ℕ → LifecycleManager
ensure m agent_id now = put_state m agent_id (state_of m agent_id now)

unfoldable pub get_phase : LifecycleManager → String → ℕ → LifecycleManager × AgentPhase
get_phase m agent_id now = (ensure m agent_id now, (state_of m agent_id now).phase)

-- The fields that `transition` sets on entry to a phase.
unfoldable pub entered : AgentLifecycleState → AgentPhase → ℕ → AgentLifecycleState
entered st suspected now = record st {
  phase = suspected;
  last_transition_at = now;
  suspect_tick_count = 1;
}
entered st draining now = record st {
  phase = draining;
  last_transition_at = now;
  drain_started_at = some now;
}
entered st probation now = record st {
  phase = probation;
  last_transition_at = now;
  probation_tick_count = 0;
}
entered st target now = record st { phase = target; last_transition_at = now }

-- The body of `transition` behind its guard: the entry is changed, and an event appended.
unfoldable pub apply_transition :
    LifecycleManager → String → AgentPhase → String → ℕ → LifecycleManager
apply_transition m agent_id target reason now =
    let st = state_of m agent_id now in
    let event : TransitionEvent = record {
      agent_id = agent_id;
      from_phase = st.phase;
      to_phase = target;
      reason = reason;
      timestamp = now;
    } in
    record (put_state m agent_id (entered st target now)) { history = m.history ++ event ∷ [] }

unfoldable pub transition :
    LifecycleManager → String → AgentPhase → String → ℕ → LifecycleManager × Bool
transition m agent_id target reason now =
    if is_allowed (state_of m agent_id now).phase target
    then (apply_transition m agent_id target reason now, true)
    else (ensure m agent_id now, false)

unfoldable pub mark_baseline_ready : LifecycleManager → String → ℕ → LifecycleManager × Bool
mark_baseline_ready m agent_id now = transition m agent_id healthy "baseline_ready" now

-- The `SUSPECTED` branch of `record_anomaly_tick`.
unfoldable pub escalate : LifecycleManager → String → ℕ → LifecycleManager × AgentPhase
escalate m agent_id now =
    let st = state_of m agent_id now in
    let counted = record st { suspect_tick_count = st.suspect_tick_count + 1 } in
    let m' = put_state m agent_id counted in
    if leb m.suspect_ticks counted.suspect_tick_count
    then get_phase (transition m' agent_id draining "anomaly_persisted" now).0 agent_id now
    else get_phase m' agent_id now

-- `record_anomaly_tick`, by the phase that it finds
unfoldable pub anomaly_tick_in :
    AgentPhase → LifecycleManager → String → ℕ → LifecycleManager × AgentPhase
anomaly_tick_in healthy m agent_id now =
    get_phase (transition m agent_id suspected "anomaly_detected" now).0 agent_id now
anomaly_tick_in suspected m agent_id now = escalate m agent_id now
anomaly_tick_in phase m agent_id now = (ensure m agent_id now, phase)

unfoldable pub record_anomaly_tick : LifecycleManager → String → ℕ → LifecycleManager × AgentPhase
record_anomaly_tick m agent_id now = anomaly_tick_in (state_of m agent_id now).phase m agent_id now

unfoldable pub resolved_in : AgentPhase → LifecycleManager → String → ℕ → LifecycleManager × Bool
resolved_in suspected m agent_id now = transition m agent_id healthy "anomaly_resolved" now
resolved_in _ m agent_id now = (ensure m agent_id now, false)

unfoldable pub record_anomaly_resolved : LifecycleManager → String → ℕ → LifecycleManager × Bool
record_anomaly_resolved m agent_id now = resolved_in (state_of m agent_id now).phase m agent_id now

unfoldable pub drain_in :
    AgentPhase → LifecycleManager → String → String → ℕ → LifecycleManager × Bool
drain_in healthy m agent_id reason now =
    transition (transition m agent_id suspected reason now).0 agent_id draining reason now
drain_in suspected m agent_id reason now = transition m agent_id draining reason now
drain_in _ m agent_id reason now = (ensure m agent_id now, false)

unfoldable pub force_drain : LifecycleManager → String → String → ℕ → LifecycleManager × Bool
force_drain m agent_id reason now = drain_in (state_of m agent_id now).phase m agent_id reason now

-- `time.time() - drain_started_at >= drain_timeout_s`, without the subtraction
unfoldable pub check_drain_timeout : LifecycleManager → String → ℕ → LifecycleManager × Bool
check_drain_timeout m agent_id now =
    let st = state_of m agent_id now in
    (
      ensure m agent_id now,
      ite (AgentPhase-discrete st.phase draining)
          (elim st.drain_started_at [
            | none ↦ false
            | some started ↦ leb (started + m.drain_timeout_s) now
          ])
          false,
    )

unfoldable pub complete_drain : LifecycleManager → String → ℕ → LifecycleManager × Bool
complete_drain m agent_id now = transition m agent_id quarantined "drain_complete" now

unfoldable pub start_healing : LifecycleManager → String → String → ℕ → LifecycleManager × Bool
start_healing m agent_id reason now = transition m agent_id healing reason now

unfoldable pub enter_probation : LifecycleManager → String → ℕ → LifecycleManager × Bool
enter_probation m agent_id now = transition m agent_id probation "healing_action_applied" now

unfoldable pub probation_tick_in : AgentPhase → LifecycleManager → String → ℕ → LifecycleManager × ℕ
probation_tick_in probation m agent_id now =
    let st = state_of m agent_id now in
    let count = st.probation_tick_count + 1 in
    (put_state m agent_id (record st { probation_tick_count = count }), count)
probation_tick_in _ m agent_id now =
    (ensure m agent_id now, (state_of m agent_id now).probation_tick_count)

unfoldable pub record_probation_tick : LifecycleManager → String → ℕ → LifecycleManager × ℕ
record_probation_tick m agent_id now =
    probation_tick_in (state_of m agent_id now).phase m agent_id now

unfoldable pub probation_complete : LifecycleManager → String → ℕ → LifecycleManager × Bool
probation_complete m agent_id now =
    let st = state_of m agent_id now in
    (
      ensure m agent_id now,
      elim st.phase [ probation ↦ leb m.probation_ticks st.probation_tick_count | _ ↦ false ],
    )

unfoldable pub mark_healthy : LifecycleManager → String → String → ℕ → LifecycleManager × Bool
mark_healthy m agent_id reason now = transition m agent_id healthy reason now

unfoldable pub mark_exhausted : LifecycleManager → String → ℕ → LifecycleManager × Bool
mark_exhausted m agent_id now = transition m agent_id exhausted "all_actions_exhausted" now

-- The phases of `is_execution_allowed`.
abbrev pub allows_execution : AgentPhase → Bool
allows_execution initializing = true
allows_execution healthy = true
allows_execution suspected = true
allows_execution probation = true
allows_execution _ = false

unfoldable pub is_execution_allowed : LifecycleManager → String → ℕ → LifecycleManager × Bool
is_execution_allowed m agent_id now =
    let (m', phase) = get_phase m agent_id now in (m', allows_execution phase)

unfoldable pub is_blocked : LifecycleManager → String → ℕ → LifecycleManager × Bool
is_blocked m agent_id now =
    let (m', allowed) = is_execution_allowed m agent_id now in (m', not allowed)

unfoldable pub get_history : LifecycleManager → Option String → List TransitionEvent
get_history m none = m.history
get_history m (some agent_id) =
    keep (λ e. ite (String-discrete e.agent_id agent_id) true false) m.history

unfoldable pub reset : LifecycleManager → String → LifecycleManager
reset m agent_id = record m { states = Dict.remove String-discrete agent_id m.states }
