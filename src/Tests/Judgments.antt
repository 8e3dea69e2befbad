-- ===== src/Tests/Judgments.antt =====
-- The theorems on the sentinel's judgment and its repeated passes at concrete inputs.

use ai_agent_immune_system.Common.{
  List, String, String-discrete, [], arith, false, if◌then◌else◌, length, none, ok, refl, some,
  true, ℕ, ◌∷◌, ◌≡◌, ◌≤◌,
}
use ai_agent_immune_system.Common.Dict
use ai_agent_immune_system.Lifecycle.Transition.{phase_of}
use ai_agent_immune_system.Lifecycle.{AgentPhase}
use ai_agent_immune_system.Quarantine
use ai_agent_immune_system.Agents.{AgentStatus, BaseAgent, clean_state}
use ai_agent_immune_system.Correlator.{CorrelationResult, Detail, agent_specific, no_others}
use ai_agent_immune_system.Orchestrator.Phases.{phase_at}
use ai_agent_immune_system.Orchestrator.Approvals.{Workflow}
use ai_agent_immune_system.Orchestrator.Sentinel.{judge_infection}
use ai_agent_immune_system.Orchestrator.Judgment.{judge_infection-lem, order_of}
use ai_agent_immune_system.Orchestrator.Persistence.{Stops, check_agent-Stops}
use ai_agent_immune_system.Tests.{hundredths, plain_texts}
use ai_agent_immune_system.Tests.Healings.{infection, lifecycle, system}

abbrev draining_workflow : Workflow hundredths ℕ
draining_workflow = record {
  system = record system {
    lifecycle = record lifecycle {
      states =
          (
            "a",
            record {
              phase = AgentPhase.draining;
              suspect_tick_count = 3;
              drain_started_at = some 4;
              probation_tick_count = 0;
              last_transition_at = 5;
            },
          )
          ∷ [];
    };
  };
  pending_approvals = [];
  rejected_approvals = [];
}

abbrev correlation : CorrelationResult hundredths
correlation = record {
  verdict = agent_specific;
  affected_fraction = hundredths.of_ℕ 0;
  common_anomalies = [];
  affected_agents = [];
  detail = no_others;
}

abbrev show : Detail hundredths → String
show d = "no other monitored agents"

is_drained : phase_at draining_workflow.system "a" ≡ AgentPhase.draining
unfolding phase_of Dict.get String-discrete
is_drained = refl

judge_infection-lem_example :
    let judged = judge_infection show draining_workflow "a" infection correlation in
    let severe = hundredths.le (hundredths.literal 50 10) infection.max_deviation in
    (phase_at judged.0.system "a" ≡ AgentPhase.quarantined)
    × (Quarantine.is_quarantined judged.0.system.quarantine "a" ≡ true)
    × (Dict.has String-discrete "a" judged.0.pending_approvals ≡ (
        if severe then true else Dict.has String-discrete "a" draining_workflow.pending_approvals))
    × (judged.1 ≡ ok (order_of show "a" infection correlation))
judge_infection-lem_example =
    judge_infection-lem show draining_workflow "a" infection correlation is_drained

abbrev suspect_workflow : Workflow hundredths ℕ
suspect_workflow = record {
  system = record system {
    lifecycle = record lifecycle {
      states =
          (
            "a",
            record {
              phase = AgentPhase.healthy;
              suspect_tick_count = 0;
              drain_started_at = none;
              probation_tick_count = 0;
              last_transition_at = 5;
            },
          )
          ∷ [];
    };
  };
  pending_approvals = [];
  rejected_approvals = [];
}

abbrev ill_agent : BaseAgent hundredths
ill_agent = record {
  agent_id = "a";
  agent_type = "coder";
  state = clean_state hundredths;
  status = AgentStatus.infected;
  infected = true;
  infection_type = some "tool_loop";
}

abbrev times : List ℕ
times = 7 ∷ 8 ∷ 9 ∷ []

is_healthy : phase_at suspect_workflow.system "a" ≡ AgentPhase.healthy
unfolding phase_of Dict.get String-discrete
is_healthy = refl

is_free : Dict.has String-discrete "a" suspect_workflow.rejected_approvals ≡ false
unfolding Dict.get
is_free = refl

is_long : 2 ≤ length times
is_long = omega arith

is_enough : suspect_workflow.system.lifecycle.suspect_ticks ≤ length times
is_enough = omega arith

check_agent-Stops_example : Stops plain_texts show "a" ill_agent suspect_workflow times
check_agent-Stops_example =
    check_agent-Stops plain_texts show suspect_workflow "a" ill_agent times is_healthy refl is_free
      is_long is_enough
