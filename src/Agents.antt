-- ===== src/Agents.antt =====
-- The agents' own state and the changes that the immune system makes to it (immune_system/agents.py).
-- A temperature is a float. What an agent does when it executes is not modelled: it is a random
-- demonstration workload.
use ai_agent_immune_system.Common.{
  Bool, Floats, Option, String, [], false, if◌then◌else◌, ltb, max_float, none, not, some, true, ℕ,
  ◌-◌,
}
use ai_agent_immune_system.Common.Dict.{Dict}
use ai_agent_immune_system.Lifecycle.{AgentPhase}

pub data AgentStatus : Type 0 where
  initializing healthy suspected draining quarantined healing probation exhausted infected :
      AgentStatus

module _ (fl : Floats) where
  pub record AgentState : Type 0 where
    pub memory : Dict String String
    pub prompt_version : ℕ
    pub temperature : fl.Float
    pub max_tools : ℕ
    pub tools_revoked : Bool

  pub record BaseAgent : Type 0 where
    pub agent_id : String
    pub agent_type : String
    pub state : AgentState
    pub status : AgentStatus
    pub infected : Bool
    pub infection_type : Option String

module _ (fl : Floats) where
  -- `AgentState()`
  unfoldable pub clean_state : AgentState fl
  clean_state = record {
    memory = [];
    prompt_version = 1;
    temperature = fl.literal 7 10;
    max_tools = 5;
    tools_revoked = false;
  }

  unfoldable pub reset_memory : AgentState fl → AgentState fl
  reset_memory s = record s { memory = [] }

  unfoldable pub rollback_prompt : AgentState fl → AgentState fl
  rollback_prompt s =
      if ltb 1 s.prompt_version then record s { prompt_version = s.prompt_version - 1 } else s

  -- `max(1, max_tools - 2)`: the subtraction that stops at 0 gives the same maximum.
  unfoldable pub reduce_autonomy : AgentState fl → AgentState fl
  reduce_autonomy s = record s {
    temperature = max_float fl (fl.literal 1 10) (fl.mul s.temperature (fl.literal 5 10));
    max_tools = if ltb 1 (s.max_tools - 2) then s.max_tools - 2 else 1;
  }

  unfoldable pub revoke_tools : AgentState fl → AgentState fl
  revoke_tools s = record s { tools_revoked = true; max_tools = 0 }

  unfoldable pub restore_tools : AgentState fl → ℕ → AgentState fl
  restore_tools s max_tools = record s { tools_revoked = false; max_tools = max_tools }

  unfoldable pub infect : BaseAgent fl → String → BaseAgent fl
  infect a infection_type = record a {
    infected = true;
    infection_type = some infection_type;
    status = AgentStatus.infected;
  }

  unfoldable pub cure : BaseAgent fl → BaseAgent fl
  cure a = record a { infected = false; infection_type = none; status = AgentStatus.healthy }

  unfoldable pub quarantine : BaseAgent fl → BaseAgent fl
  quarantine a = record a { status = AgentStatus.quarantined }

  unfoldable pub set_phase : BaseAgent fl → AgentStatus → BaseAgent fl
  set_phase a phase = record a { status = phase }

  unfoldable pub release : BaseAgent fl → BaseAgent fl
  release a = record a {
    status = if not a.infected then AgentStatus.healthy else AgentStatus.infected;
  }

-- `phase_to_status` of immune_system/orchestrator.py
unfoldable pub status_of : AgentPhase → AgentStatus
status_of AgentPhase.initializing = AgentStatus.initializing
status_of AgentPhase.healthy = AgentStatus.healthy
status_of AgentPhase.suspected = AgentStatus.suspected
status_of AgentPhase.draining = AgentStatus.draining
status_of AgentPhase.quarantined = AgentStatus.quarantined
status_of AgentPhase.healing = AgentStatus.healing
status_of AgentPhase.probation = AgentStatus.probation
status_of AgentPhase.exhausted = AgentStatus.exhausted
