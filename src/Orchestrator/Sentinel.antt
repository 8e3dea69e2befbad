-- ===== src/Orchestrator/Sentinel.antt =====
-- The sentinel's loop (immune_system/orchestrator.py, `sentinel_loop`, without a store and a cache):
-- what one pass does to one agent after the other. A task that is created to heal an agent is an
-- order beside the result. The formatting of a correlation's detail is a parameter, `show`; log
-- lines, metrics and what only a log entry shows are left out.
use ai_agent_immune_system.Common.{
  Bool, Floats, List, Option, Result, String, String-discrete, Texts, [], false, if◌then◌else◌, ite,
  map, none, not, ok, raise, some, some_or, true, ◌+◌, ◌>>=◌, ◌∷◌,
}
use ai_agent_immune_system.Common.Dict
use ai_agent_immune_system.Common.Dict.{Dict}
use ai_agent_immune_system.Policy.{nonempty}
use ai_agent_immune_system.Lifecycle
use ai_agent_immune_system.Lifecycle.{AgentPhase}
use ai_agent_immune_system.Quarantine
use ai_agent_immune_system.Agents
use ai_agent_immune_system.Agents.{BaseAgent, quarantine}
use ai_agent_immune_system.Telemetry.{get_recent}
use ai_agent_immune_system.Detection.{
  AnomalyType, InfectionReport, cost_spike, detect_infection, error_rate_spike, high_retry_rate,
  input_token_spike, latency_spike, output_token_spike, prompt_change, token_spike, tool_explosion,
}
use ai_agent_immune_system.Correlator.{
  CorrelationResult, CorrelationVerdict, Detail, agent_specific, correlate, default_correlator,
  fleet_wide,
}
use ai_agent_immune_system.Diagnosis.{Diagnosis, DiagnosisContext, diagnose, primary}
use ai_agent_immune_system.Orchestrator.{
  Action, Orchestrator, log_action, set_lifecycle, sync_agent_phase, update_agent,
}
use ai_agent_immune_system.Orchestrator.Approvals.{Workflow}

-- `a.value`
unfoldable pub anomaly_value : AnomalyType → String
anomaly_value token_spike = "token_spike"
anomaly_value latency_spike = "latency_spike"
anomaly_value tool_explosion = "tool_explosion"
anomaly_value high_retry_rate = "high_retry_rate"
anomaly_value input_token_spike = "input_token_spike"
anomaly_value output_token_spike = "output_token_spike"
anomaly_value cost_spike = "cost_spike"
anomaly_value prompt_change = "prompt_change"
anomaly_value error_rate_spike = "error_rate_spike"

module _ (fl : Floats) where
  -- The anomalies and the deviation that stand for a type of infection.
  unfoldable pub fallback_of : String → List AnomalyType × fl.Float
  fallback_of t =
      ite (String-discrete t "prompt_drift") (token_spike ∷ [], fl.literal 60 10)
        (ite (String-discrete t "token_explosion") (token_spike ∷ [], fl.literal 45 10)
          (ite (String-discrete t "tool_loop") (tool_explosion ∷ [], fl.literal 55 10)
            (ite (String-discrete t "latency_spike") (latency_spike ∷ [], fl.literal 40 10)
              (ite (String-discrete t "memory_corruption") (high_retry_rate ∷ [], fl.literal 45 10)
                (ite (String-discrete t "full_meltdown")
                  (
                    latency_spike ∷ token_spike ∷ tool_explosion ∷ high_retry_rate ∷ [],
                    fl.literal 80 10,
                  )
                  (high_retry_rate ∷ [], fl.literal 35 10))))))

  -- `_fallback_infection_from_agent_state`
  unfoldable pub fallback_infection : Texts → BaseAgent fl → Option (InfectionReport fl)
  fallback_infection py a =
      let (anomalies, max_dev) = fallback_of (py.lower (some_or a.infection_type "")) in
      if a.infected
      then some (record {
        agent_id = a.agent_id;
        max_deviation = max_dev;
        anomalies = anomalies;
        deviations = map (λ t. (anomaly_value t, max_dev)) anomalies;
      })
      else none

  -- A task to heal an agent.
  pub record Order : Type 0 where
    pub agent_id : String
    pub infection : InfectionReport fl
    pub context : DiagnosisContext fl

-- The phases in which the sentinel only looks after a drain.
abbrev pub is_handled : AgentPhase → Bool
is_handled AgentPhase.quarantined = true
is_handled AgentPhase.healing = true
is_handled AgentPhase.exhausted = true
is_handled AgentPhase.draining = true
is_handled AgentPhase.initializing = true
is_handled _ = false

abbrev pub is_draining : AgentPhase → Bool
is_draining AgentPhase.draining = true
is_draining _ = false

abbrev pub is_suspected : AgentPhase → Bool
is_suspected AgentPhase.suspected = true
is_suspected _ = false

abbrev pub is_fleet_wide : CorrelationVerdict → Bool
is_fleet_wide fleet_wide = true
is_fleet_wide _ = false

abbrev pub is_agent_specific : CorrelationVerdict → Bool
is_agent_specific agent_specific = true
is_agent_specific _ = false

module _ {fl : Floats} where
  unfoldable pub context_of : (Detail fl → String) → CorrelationResult fl → DiagnosisContext fl
  context_of show c = record {
    fleet_wide = not (is_agent_specific c.verdict);
    affected_fraction = c.affected_fraction;
    affected_agents = c.affected_agents;
    correlation_detail = show c.detail;
  }

module _ {fl : Floats} {W : Type 0} where
  -- The completion of a drain, with the quarantine.
  unfoldable pub quarantine_agent : Orchestrator fl W → String → Orchestrator fl W
  quarantine_agent o i =
      let o' = record o {
        lifecycle = (Lifecycle.complete_drain o.lifecycle i o.clock).0;
        quarantine = Quarantine.quarantine o.quarantine i o.clock;
      } in
      sync_agent_phase (update_agent o' i (Agents.quarantine fl)) i

  -- What is done for an agent in one of the handled phases.
  unfoldable pub check_drain : Orchestrator fl W → String → AgentPhase → Orchestrator fl W
  check_drain o i phase =
      let (m, timed_out) = Lifecycle.check_drain_timeout o.lifecycle i o.clock in
      if is_draining phase
      then (if timed_out
          then quarantine_agent (record o { lifecycle = m }) i
          else record o { lifecycle = m })
      else o

  -- The infection of an agent; `none` where the agent is passed over.
  unfoldable pub look :
      Texts
      → Orchestrator fl W
      → String
      → BaseAgent fl
      → Result (Option (Option (InfectionReport fl)))
  look py o i a =
      if a.infected
      then ok (some (fallback_infection fl py a))
      else elim (Dict.get String-discrete i o.baselines) [
        | none ↦ ok none
        | some b ↦
            let recent = get_recent fl o.telemetry i 10 o.clock in
            if nonempty recent
            then (detect_infection fl (fl.literal 25 10) recent (some b) >>= λ r. ok (some r))
            else ok none
      ]

  -- The escalation of an infection, and whether the agent is draining behind it. An agent that was
  -- healthy is looked up again; the phase of one that was suspected is that which the tick returns.
  unfoldable pub escalate_infection :
      Orchestrator fl W → String → AgentPhase → InfectionReport fl → Orchestrator fl W × Bool
  escalate_infection o i AgentPhase.healthy r =
      let m =
        if fl.le (fl.literal 60 10) r.max_deviation
        then (Lifecycle.force_drain o.lifecycle i "severe_anomaly" o.clock).0
        else (Lifecycle.record_anomaly_tick o.lifecycle i o.clock).0 in
      let o' = set_lifecycle o m i in
      (o', is_draining (Lifecycle.get_phase o'.lifecycle i o'.clock).1)
  escalate_infection o i AgentPhase.suspected r =
      let (m, new_phase) = Lifecycle.record_anomaly_tick o.lifecycle i o.clock in
      (set_lifecycle o m i, is_draining new_phase)
  escalate_infection o i _ r = (o, true)

  -- A fleet-wide anomaly
  unfoldable pub spare : Orchestrator fl W → String → Orchestrator fl W
  spare o i =
      let o' = log_action o i Action.fleet_wide_anomaly in
      if is_suspected (Lifecycle.get_phase o'.lifecycle i o'.clock).1
      then set_lifecycle o' (Lifecycle.record_anomaly_resolved o'.lifecycle i o'.clock).0 i
      else o'

  -- Any other anomaly, up to the quarantine
  unfoldable pub order_quarantine : Orchestrator fl W → String → Orchestrator fl W
  order_quarantine o i =
      let drained =
        if is_draining (Lifecycle.get_phase o.lifecycle i o.clock).1
        then o.lifecycle
        else (Lifecycle.force_drain o.lifecycle i "quarantine_ordered" o.clock).0 in
      quarantine_agent (record o { total_infections = o.total_infections + 1; lifecycle = drained })
        i

  -- The request of an approval
  unfoldable pub request_approval :
      Workflow fl W
      → String
      → InfectionReport fl
      → Result (Diagnosis fl)
      → Workflow fl W × Result (Option (Order fl))
  request_approval w i r (raise e) = (w, raise e)
  request_approval w i r (ok diagnosis) = (
    record w {
      system = log_action w.system i Action.approval_requested;
      pending_approvals =
          Dict.put String-discrete i
            (record { infection = r; diagnosis = diagnosis; since = w.system.clock })
            w.pending_approvals;
    },
    ok none,
  )

  -- What follows the correlation.
  unfoldable pub judge_infection :
      (Detail fl → String)
      → Workflow fl W
      → String
      → InfectionReport fl
      → CorrelationResult fl
      → Workflow fl W × Result (Option (Order fl))
  judge_infection show w i r c =
      let w' = record w { system = order_quarantine w.system i } in
      let ctx = context_of show c in
      if is_fleet_wide c.verdict
      then (record w { system = spare w.system i }, ok none)
      else if fl.le (fl.literal 50 10) r.max_deviation
      then request_approval w' i r (primary fl (diagnose fl w'.system.diagnostician r ctx))
      else (w', ok (some (record { agent_id = i; infection = r; context = ctx })))

  -- Behind the correlation, which may raise.
  unfoldable pub judge_result :
      (Detail fl → String)
      → Workflow fl W
      → String
      → InfectionReport fl
      → Result (CorrelationResult fl)
      → Workflow fl W × Result (Option (Order fl))
  judge_result show w i r (raise e) = (w, raise e)
  judge_result show w i r (ok c) = judge_infection show w i r c

  -- From a known infection on
  unfoldable pub respond :
      (Detail fl → String)
      → Workflow fl W
      → String
      → AgentPhase
      → InfectionReport fl
      → Workflow fl W × Result (Option (Order fl))
  respond show w i phase r =
      let (o, goes_on) = escalate_infection w.system i phase r in
      let w' = record w { system = o } in
      if goes_on
      then judge_result show w' i r (
          correlate fl (fl.literal 25 10) o.telemetry o.clock o.baselines (default_correlator fl) r
            (Dict.keys o.agents))
      else (w', ok none)

  -- What the sentinel does with what it found.
  unfoldable pub react :
      (Detail fl → String)
      → Workflow fl W
      → String
      → AgentPhase
      → Option (InfectionReport fl)
      → Workflow fl W × Result (Option (Order fl))
  react show w i phase none =
      let o = w.system in
      if is_suspected phase
      then (
        record w {
          system = set_lifecycle o (Lifecycle.record_anomaly_resolved o.lifecycle i o.clock).0 i;
        },
        ok none,
      )
      else (w, ok none)
  react show w i AgentPhase.probation (some r) = (w, ok none)
  react show w i phase (some r) =
      if Dict.has String-discrete i w.rejected_approvals
      then (w, ok none)
      else respond show w i phase r

  -- The body of the loop over the agents, by the phase of the agent
  unfoldable pub check_in :
      Texts
      → (Detail fl → String)
      → Workflow fl W
      → String
      → BaseAgent fl
      → AgentPhase
      → Workflow fl W × Result (Option (Order fl))
  check_in py show w i a phase =
      if is_handled phase
      then (record w { system = check_drain w.system i phase }, ok none)
      else elim (look py w.system i a) [
        | raise e ↦ (w, raise e)
        | ok none ↦ (w, ok none)
        | ok (some infection) ↦ react show w i phase infection
      ]

  unfoldable pub check_agent :
      Texts
      → (Detail fl → String)
      → Workflow fl W
      → String
      → BaseAgent fl
      → Workflow fl W × Result (Option (Order fl))
  check_agent py show w i a =
      let (m, phase) = Lifecycle.get_phase w.system.lifecycle i w.system.clock in
      check_in py show (record w { system = record w.system { lifecycle = m } }) i a phase

  -- A pass over the agents, with the tasks that it creates.
  unfoldable pub sentinel_pass :
      Texts
      → (Detail fl → String)
      → Workflow fl W
      → List String
      → Workflow fl W × Result (List (Order fl))
  sentinel_pass py show w [] = (w, ok [])
  sentinel_pass py show w (i ∷ is) = elim (Dict.get String-discrete i w.system.agents) [
    | none ↦ sentinel_pass py show w is
    | some a ↦
        let (w', checked) = check_agent py show w i a in
        elim checked [
          | raise e ↦ (w', raise e)
          | ok none ↦ sentinel_pass py show w' is
          | ok (some order) ↦
              let (w'', rest) = sentinel_pass py show w' is in
              (w'', rest >>= λ orders. ok (order ∷ orders))
        ]
  ]
