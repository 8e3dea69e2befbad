-- ===== src/Orchestrator.antt =====
-- The orchestrator (immune_system/orchestrator.py, without a store and a cache): its state, what it
-- does to it in single steps, and the validation of immune_system/healing.py that it calls. What
-- other tasks do to the orchestrator while this one sleeps is a parameter, `wait`, which also moves
-- the clock; the executor of a healing action is another. Log lines, metrics and the acceleration
-- of the baseline's learning are left out; the baselines are those that the learner has at hand.
pub mod Workflow
pub mod Termination
pub mod Phases
pub mod Approvals
pub mod Sentinel
pub mod Judgment
pub mod Response
pub mod Persistence
use ai_agent_immune_system.Common.{
  Bool, Floats, List, Option, Result, String, String-discrete, [], if◌then◌else◌, is_some, length,
  ltb, none, not, ok, some, take_last, true, ℕ, ◌++◌, ◌>>=◌, ◌∷◌,
}
use ai_agent_immune_system.Common.Dict
use ai_agent_immune_system.Common.Dict.{Dict}
use ai_agent_immune_system.Lifecycle
use ai_agent_immune_system.Lifecycle.{LifecycleManager}
use ai_agent_immune_system.Quarantine
use ai_agent_immune_system.Quarantine.{QuarantineController}
use ai_agent_immune_system.Agents
use ai_agent_immune_system.Agents.{BaseAgent, set_phase, status_of}
use ai_agent_immune_system.Telemetry.{TelemetryCollector, get_recent}
use ai_agent_immune_system.Baseline.{BaselineProfile}
use ai_agent_immune_system.Detection.{detect_infection}
use ai_agent_immune_system.Diagnosis.{DiagnosisType, Diagnostician}
use ai_agent_immune_system.Healing.{HealingAction}
use ai_agent_immune_system.Memory.{ImmuneMemory, record_healing}

-- The `type` of a log entry, with what belongs to it.
pub data Action : Type 0 where
  healing_attempt : DiagnosisType → HealingAction → Bool → String → Action
  user_approved user_rejected explicit_heal_requested : Action
  fleet_wide_anomaly approval_requested : Action

pub record ActionEntry : Type 0 where
  pub timestamp : ℕ
  pub agent_id : String
  pub action : Action

module _ (fl : Floats) (W : Type 0) where
  pub record Orchestrator : Type 0 where
    pub agents : Dict String (BaseAgent fl)
    pub telemetry : TelemetryCollector fl
    pub baselines : Dict String (BaselineProfile fl)
    pub diagnostician : Diagnostician fl
    pub quarantine : QuarantineController W
    pub immune_memory : ImmuneMemory
    pub lifecycle : LifecycleManager
    pub running : Bool
    pub total_infections : ℕ
    pub total_healed : ℕ
    pub total_failed_healings : ℕ
    pub healing_in_progress : List String
    pub action_log : List ActionEntry
    pub clock : ℕ

  -- What runs beside the workflow: the other tasks during a sleep, and the executor, if there is one,
  -- which says whether the action succeeded.
  pub record Surroundings : Type 0 where
    pub wait : Orchestrator → Orchestrator
    pub executor : Option (Orchestrator → String → HealingAction → Bool × Orchestrator)

module _ {fl : Floats} {W : Type 0} where
  unfoldable pub update_agent :
      Orchestrator fl W → String → (BaseAgent fl → BaseAgent fl) → Orchestrator fl W
  update_agent o i f = elim (Dict.get String-discrete i o.agents) [
    | none ↦ o
    | some a ↦ record o { agents = Dict.put String-discrete i (f a) o.agents }
  ]

  -- `_sync_agent_phase`
  unfoldable pub sync_agent_phase : Orchestrator fl W → String → Orchestrator fl W
  sync_agent_phase o i =
      let (m, phase) = Lifecycle.get_phase o.lifecycle i o.clock in
      update_agent (record o { lifecycle = m }) i (λ a. set_phase fl a (status_of phase))

  -- `_release_quarantine`
  unfoldable pub release_quarantine : Orchestrator fl W → String → Orchestrator fl W
  release_quarantine o i =
      update_agent (record o { quarantine = Quarantine.release o.quarantine i }) i
        (Agents.release fl)

  -- `_log_action`: the log keeps its last 80 entries
  unfoldable pub log_action : Orchestrator fl W → String → Action → Orchestrator fl W
  log_action o i action = record o {
    action_log =
        take_last 80
          (o.action_log ++ record { timestamp = o.clock; agent_id = i; action = action } ∷ []);
  }

  -- `get_healing_actions`: the last 50
  unfoldable pub get_healing_actions : Orchestrator fl W → List ActionEntry
  get_healing_actions o = take_last 50 o.action_log

  -- The healer's `validate_probation`, at the orchestrator's threshold of 2.5
  unfoldable pub validate_probation : Orchestrator fl W → String → Result Bool
  validate_probation o i = elim (Dict.get String-discrete i o.baselines) [
    | none ↦ ok true
    | some b ↦
        let recent = get_recent fl o.telemetry i 10 o.clock in
        if ltb (length recent) 3 then ok true else do
          infection ← detect_infection fl (fl.literal 25 10) recent (some b)
          ok (not (is_some infection))
  ]

  unfoldable pub record_attempt :
      Orchestrator fl W → String → DiagnosisType → HealingAction → Bool → String → Orchestrator fl W
  record_attempt o i d a success trigger =
      log_action (record o { immune_memory = record_healing o.immune_memory i d a success o.clock })
        i (healing_attempt d a success trigger)

  unfoldable pub set_lifecycle : Orchestrator fl W → LifecycleManager → String → Orchestrator fl W
  set_lifecycle o m i = sync_agent_phase (record o { lifecycle = m }) i
