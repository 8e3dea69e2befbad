-- ===== src/Tests/Healings.antt =====
-- The theorems on the immune memory, the healer and the healing workflow at concrete inputs.
use ai_agent_immune_system.Common.{
  List, String-discrete, [], arith, contains, count_if, false, ite, ltb, none, refl, some, true, ℕ,
  ◌+◌, ◌∷◌, ◌≡◌, ◌≤◌,
}
use ai_agent_immune_system.Common.Dict
use ai_agent_immune_system.Common.Dict.{Dict}
use ai_agent_immune_system.Lifecycle.{
  AgentPhase, LifecycleManager, allowed_transitions, draining, is_allowed, quarantined,
}
use ai_agent_immune_system.Lifecycle
use ai_agent_immune_system.Lifecycle.Transition.{phase_of}
use ai_agent_immune_system.Agents.{AgentStatus, BaseAgent, clean_state}
use ai_agent_immune_system.Detection.{InfectionReport, high_retry_rate}
use ai_agent_immune_system.Diagnosis.{DiagnosisType, default_context, token_usage_spike}
use ai_agent_immune_system.Healing.{HealingAction, HealingAction-discrete}
use ai_agent_immune_system.Healing.Effects.{
  apply_healing_lem, memory_after, revoked_after, temperature_after, tools_after, version_after,
}
use ai_agent_immune_system.Healing.Healer.{apply_healing, get_next_action}
use ai_agent_immune_system.Healing.Ladder.{IsNext, get_next_action_lem}
use ai_agent_immune_system.Memory.{ImmuneMemory, empty_memory, get_successful_actions}
use ai_agent_immune_system.Memory.Counts
use ai_agent_immune_system.Memory.Counts.{IsConsistent, is_outcome, run-IsConsistent}
use ai_agent_immune_system.Memory.Successes.{get_successful_actions-run}
use ai_agent_immune_system.Orchestrator.{Orchestrator, Surroundings}
use ai_agent_immune_system.Orchestrator.Workflow.{heal_agent}
use ai_agent_immune_system.Orchestrator.Approvals.{
  Approval, Workflow, approve_healing, approve_healing-phase, start_healing_explicitly,
  start_healing_explicitly-reject,
}
use ai_agent_immune_system.Orchestrator.Termination.{HasEnded, heal_agent-HasEnded}
use ai_agent_immune_system.Orchestrator.Phases.{
  FitsEnding, IsQuiet, heal_agent-FitsEnding, phase_at,
}
use ai_agent_immune_system.Tests.{hundredths}

abbrev drift : DiagnosisType
drift = DiagnosisType.prompt_drift

abbrev calls : List Counts.Call
calls =
    Counts.recorded "a" drift HealingAction.reset_memory false 1
    ∷ Counts.recorded "b" drift HealingAction.reduce_autonomy true 2
    ∷ Counts.asked_successful DiagnosisType.unknown
    ∷ Counts.recorded "a" drift HealingAction.reduce_autonomy true 3
    ∷ []

abbrev memory : ImmuneMemory
memory = Counts.run hundredths empty_memory calls

run-IsConsistent_example : IsConsistent (Counts.run hundredths empty_memory calls)
run-IsConsistent_example = run-IsConsistent hundredths calls

empty_memory-IsConsistent : IsConsistent empty_memory
unfolding empty_memory Dict.get
empty_memory-IsConsistent = record {
  grouped = λ i d. refl;
  successes = λ d a. refl;
  failures = λ d a. refl;
}

memory-IsConsistent : IsConsistent memory
memory-IsConsistent =
    Counts.IsConsistent-run hundredths empty_memory calls empty_memory-IsConsistent

get_successful_actions-run_example :
    contains HealingAction-discrete HealingAction.reduce_autonomy
      (get_successful_actions memory drift).0
    ≡ ltb 0 (count_if (is_outcome drift HealingAction.reduce_autonomy true) memory.records)
get_successful_actions-run_example =
    get_successful_actions-run hundredths calls drift HealingAction.reduce_autonomy

get_next_action_lem_example :
    IsNext
      (get_successful_actions memory drift).0
      drift
      (HealingAction.reset_memory ∷ [])
      (get_next_action drift (HealingAction.reset_memory ∷ []) memory).0
get_next_action_lem_example = get_next_action_lem drift (HealingAction.reset_memory ∷ []) memory

abbrev pub lifecycle : LifecycleManager
lifecycle = record {
  suspect_ticks = 3;
  drain_timeout_s = 30;
  probation_ticks = 2;
  states =
      (
        "a",
        record {
          phase = AgentPhase.quarantined;
          suspect_tick_count = 3;
          drain_started_at = some 4;
          probation_tick_count = 0;
          last_transition_at = 5;
        },
      )
      ∷ [];
  history = [];
}

unfoldable pub system : Orchestrator hundredths ℕ
system = record {
  agents =
      (
        "a",
        record {
          agent_id = "a";
          agent_type = "coder";
          state = clean_state hundredths;
          status = AgentStatus.quarantined;
          infected = true;
          infection_type = some "tool_loop";
        },
      )
      ∷ [];
  telemetry = record { samples = []; total_executions = 0 };
  baselines = [];
  diagnostician = record { confidence_adjustments = [] };
  quarantine = record {
    enforcement = 0;
    quarantined = "a" ∷ [];
    draining = [];
    quarantine_times = ("a", 5) ∷ [];
    total_quarantines = 1;
  };
  immune_memory = empty_memory;
  lifecycle = lifecycle;
  running = true;
  total_infections = 0;
  total_healed = 0;
  total_failed_healings = 0;
  healing_in_progress = [];
  action_log = [];
  clock = 6;
}

-- The clock moves on while the workflow sleeps, and an executor succeeds with a reset only.
unfoldable surroundings : Surroundings hundredths ℕ
surroundings = record {
  wait = λ o. record o { clock = o.clock + 1 };
  executor =
      some (λ o i a. (ite (HealingAction-discrete a HealingAction.reset_agent) true false, o));
}

surroundings-IsQuiet : IsQuiet surroundings "a"
unfolding surroundings
surroundings-IsQuiet = record { waits = λ o. refl; executes = λ execute h o a. ground (arith, h) }

unfoldable pub infection : InfectionReport hundredths
unfolding hundredths
infection = record {
  agent_id = "a";
  max_deviation = 350;
  anomalies = high_retry_rate ∷ [];
  deviations = ("retry_rate", 350) ∷ [];
}

heal_agent-HasEnded_example :
    let end = heal_agent surroundings system "a" infection "auto" (default_context hundredths) in
    HasEnded end.1 × (contains String-discrete "a" end.0.healing_in_progress ≡ false)
heal_agent-HasEnded_example =
    heal_agent-HasEnded surroundings system "a" infection "auto" (default_context hundredths)

may_heal : is_allowed (phase_at system "a") AgentPhase.healing ≡ true
unfolding system is_allowed allowed_transitions phase_of Dict.get String-discrete
    Lifecycle.AgentPhase-discrete
may_heal = refl

heal_agent-FitsEnding_example :
    let end = heal_agent surroundings system "a" infection "auto" (default_context hundredths) in
    FitsEnding (phase_at end.0 "a") end.1
heal_agent-FitsEnding_example =
    heal_agent-FitsEnding surroundings "a" surroundings-IsQuiet system infection "auto"
      (default_context hundredths) may_heal

abbrev approval : Approval hundredths
approval = record {
  infection = infection;
  diagnosis = record {
    agent_id = "a";
    diagnosis_type = drift;
    confidence = hundredths.literal 85 100;
    reasoning = token_usage_spike;
  };
  since = 6;
}

abbrev workflow : Workflow hundredths ℕ
workflow = record {
  system = system;
  pending_approvals = ("a", approval) ∷ [];
  rejected_approvals = [];
}

is_pending : Dict.get String-discrete "a" workflow.pending_approvals ≡ some approval
unfolding Dict.get String-discrete
is_pending = refl

start_healing_explicitly-reject_example :
    let healed_now = start_healing_explicitly (approve_healing workflow "a" false).0 "a" in
    (healed_now.1 ≡ some infection)
    × ((start_healing_explicitly healed_now.0 "a").1 ≡ none)
    × (Dict.get String-discrete "a" healed_now.0.pending_approvals ≡ none)
start_healing_explicitly-reject_example =
    start_healing_explicitly-reject workflow "a" approval is_pending

is_quarantined : phase_at workflow.system "a" ≡ AgentPhase.quarantined
unfolding system phase_of Dict.get String-discrete
is_quarantined = refl

approve_healing-phase_example :
    phase_at (approve_healing workflow "a" false).0.system "a" ≡ AgentPhase.quarantined
approve_healing-phase_example = approve_healing-phase workflow "a" false is_quarantined

abbrev agent : BaseAgent hundredths
agent = record {
  agent_id = "a";
  agent_type = "coder";
  state = clean_state hundredths;
  status = AgentStatus.quarantined;
  infected = true;
  infection_type = some "tool_loop";
}

has_version : 1 ≤ agent.state.prompt_version
unfolding clean_state
has_version = omega arith

apply_healing_lem_example :
    let (result, a') = apply_healing hundredths agent HealingAction.reduce_autonomy in
    (result.success ≡ true)
    × (result.agent_id ≡ agent.agent_id)
    × (a'.infected ≡ false)
    × (a'.infection_type ≡ none)
    × (a'.status ≡ AgentStatus.healthy)
    × (a'.state.memory ≡ memory_after HealingAction.reduce_autonomy agent.state.memory)
    × (a'.state.prompt_version
        ≡ version_after HealingAction.reduce_autonomy agent.state.prompt_version)
    × (a'.state.max_tools ≡ tools_after HealingAction.reduce_autonomy agent.state.max_tools)
    × (a'.state.tools_revoked
        ≡ revoked_after HealingAction.reduce_autonomy agent.state.tools_revoked)
    × (a'.state.temperature
        ≡ temperature_after hundredths HealingAction.reduce_autonomy agent.state.temperature)
apply_healing_lem_example =
    apply_healing_lem hundredths agent HealingAction.reduce_autonomy has_version
