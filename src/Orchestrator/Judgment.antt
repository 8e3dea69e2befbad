-- ===== src/Orchestrator/Judgment.antt =====
-- Where the sentinel leaves an agent whose anomaly it has correlated (immune_system/orchestrator.py,
-- `sentinel_loop`).
use ai_agent_immune_system.Common.{
  Bool-cases, Floats, Option, String, String-discrete, ap, arith, contains-set_add, if◌then◌else◌,
  inl, inr, none, ok, refl, some, true, ℕ, ◌+◌, ◌∙◌, ◌≡◌,
}
use ai_agent_immune_system.Common.Dict
use ai_agent_immune_system.Orchestrator.Sentinel.{
  Order, context_of, is_draining, is_fleet_wide, judge_infection, order_quarantine,
  quarantine_agent, request_approval, spare,
}
use ai_agent_immune_system.Lifecycle
use ai_agent_immune_system.Lifecycle.{AgentPhase, allowed_transitions, ensure, is_allowed, state_of}
use ai_agent_immune_system.Lifecycle.Transition.{
  phase_of, phase_of-ensure, state_of-phase, transition_parts,
}
use ai_agent_immune_system.Quarantine
use ai_agent_immune_system.Quarantine.{
  QuarantineController, is_quarantined, mark_quarantined, quarantine,
}
use ai_agent_immune_system.Agents
use ai_agent_immune_system.Agents.{BaseAgent, set_phase, status_of}
use ai_agent_immune_system.Detection.{InfectionReport}
use ai_agent_immune_system.Correlator.{CorrelationResult, Detail}
use ai_agent_immune_system.Diagnosis.{Diagnosis}
use ai_agent_immune_system.Diagnosis.Ranking.{diagnose-primary}
use ai_agent_immune_system.Orchestrator.{Orchestrator, log_action, sync_agent_phase, update_agent}
use ai_agent_immune_system.Orchestrator.Phases.{phase_at}
use ai_agent_immune_system.Orchestrator.Approvals.{Workflow}

mark_quarantined-IsQuarantined :
    {W : Type 0} (q : QuarantineController W) (i : String) (now : ℕ)
    → is_quarantined (Quarantine.quarantine q i now) i ≡ true
unfolding Quarantine.quarantine mark_quarantined is_quarantined
mark_quarantined-IsQuarantined q i now =
    ground (arith, contains-set_add String-discrete i i q.quarantined)

-- The orders that a judgment may give, by the verdict and the deviation.
abbrev pub order_of :
    {fl : Floats}
    → (Detail fl → String)
    → String
    → InfectionReport fl
    → CorrelationResult fl
    → Option (Order fl)
order_of {fl} show i r c =
    if is_fleet_wide c.verdict
    then none
    else if fl.le (fl.literal 50 10) r.max_deviation
    then none
    else some (record { agent_id = i; infection = r; context = context_of show c })

module _ {fl : Floats} {W : Type 0} where
  pub update_agent-rest :
      (o : Orchestrator fl W) (i : String) (f : BaseAgent fl → BaseAgent fl)
      → ((update_agent o i f).lifecycle ≡ o.lifecycle)
        × ((update_agent o i f).quarantine ≡ o.quarantine)
  unfolding update_agent
  update_agent-rest o i f = ground arith

  sync_agent_phase-rest :
      (o : Orchestrator fl W) (i : String)
      → (phase_at (sync_agent_phase o i) i ≡ phase_at o i)
        × ((sync_agent_phase o i).quarantine ≡ o.quarantine)
  unfolding sync_agent_phase Lifecycle.get_phase
  sync_agent_phase-rest o i =
      let f =
        λ (a : BaseAgent fl). set_phase fl a (status_of (state_of o.lifecycle i o.clock).phase) in
      let o' = record o { lifecycle = ensure o.lifecycle i o.clock } in
      let kept = update_agent-rest o' i f in
      (ap (λ l. phase_of l i) kept.0 ∙ phase_of-ensure o.lifecycle i i o.clock, kept.1)

  pub quarantine_agent-lem :
      (o : Orchestrator fl W) (i : String)
      → phase_at o i ≡ AgentPhase.draining
      → (phase_at (quarantine_agent o i) i ≡ AgentPhase.quarantined)
        × (is_quarantined (quarantine_agent o i).quarantine i ≡ true)
  unfolding quarantine_agent Lifecycle.complete_drain is_allowed allowed_transitions
  quarantine_agent-lem o i h =
      let o1 = record o {
        lifecycle = (Lifecycle.complete_drain o.lifecycle i o.clock).0;
        quarantine = Quarantine.quarantine o.quarantine i o.clock;
      } in
      let o2 = update_agent o1 i (Agents.quarantine fl) in
      let updated = update_agent-rest o1 i (Agents.quarantine fl) in
      let synced = sync_agent_phase-rest o2 i in
      let (returned, moved, grown, kept) =
        transition_parts o.lifecycle i AgentPhase.quarantined "drain_complete" o.clock in
      (
        synced.0 ∙ ap (λ l. phase_of l i) updated.0 ∙ ground (arith, moved, h),
        ap (λ q. is_quarantined q i) (synced.1 ∙ updated.1)
            ∙ mark_quarantined-IsQuarantined o.quarantine i o.clock,
      )

  order_quarantine-lem :
      (o : Orchestrator fl W) (i : String)
      → phase_at o i ≡ AgentPhase.draining
      → (phase_at (order_quarantine o i) i ≡ AgentPhase.quarantined)
        × (is_quarantined (order_quarantine o i).quarantine i ≡ true)
  unfolding order_quarantine Lifecycle.get_phase
  order_quarantine-lem o i h =
      let o' = record o { total_infections = o.total_infections + 1 } in
      let p : (state_of o.lifecycle i o.clock).phase ≡ AgentPhase.draining =
        state_of-phase o.lifecycle i o.clock ∙ h in
      let drained =
        if is_draining (state_of o.lifecycle i o.clock).phase
        then o.lifecycle
        else (Lifecycle.force_drain o.lifecycle i "quarantine_ordered" o.clock).0 in
      let same : drained ≡ o.lifecycle = ground (arith, p) in
      quarantine_agent-lem (record o' { lifecycle = drained }) i (ap (λ l. phase_of l i) same ∙ h)

  spare-lem :
      (o : Orchestrator fl W) (i : String)
      → phase_at o i ≡ AgentPhase.draining
      → (phase_at (spare o i) i ≡ AgentPhase.draining) × ((spare o i).quarantine ≡ o.quarantine)
  unfolding spare log_action Lifecycle.get_phase
  spare-lem o i h =
      let p : (state_of o.lifecycle i o.clock).phase ≡ AgentPhase.draining =
        state_of-phase o.lifecycle i o.clock ∙ h in
      rw p (h, refl)

  request_approval-lem :
      (w : Workflow fl W) (i : String) (r : InfectionReport fl) (d : Diagnosis fl)
      → let (w', answer) = request_approval w i r (ok d) in
        (w'.system.lifecycle ≡ w.system.lifecycle)
        × (w'.system.quarantine ≡ w.system.quarantine)
        × (Dict.has String-discrete i w'.pending_approvals ≡ true)
        × (answer ≡ ok none)
  unfolding request_approval log_action
  request_approval-lem w i r d = (
    refl,
    refl,
    ground (
      arith,
      Dict.get-put_self String-discrete i
          (record { infection = r; diagnosis = d; since = w.system.clock }) w.pending_approvals,
    ),
    refl,
  )

  -- An agent that is draining when its anomaly is judged ends in quarantine, in the lifecycle and for
  -- the controller, unless the verdict is fleet-wide: then it stays draining, the controller is left
  -- alone, and no task heals it. Otherwise it waits for an approval where the deviation is at least
  -- 5, and a task is created to heal it where it is not. A judgment never raises.
  pub judge_infection-lem :
      (show : Detail fl → String) (w : Workflow fl W) (i : String) (r : InfectionReport fl)
      (c : CorrelationResult fl)
      → phase_at w.system i ≡ AgentPhase.draining
      → let w' = (judge_infection show w i r c).0 in
        let spared = is_fleet_wide c.verdict in
        let severe = fl.le (fl.literal 50 10) r.max_deviation in
        (phase_at w'.system i ≡ (if spared then AgentPhase.draining else AgentPhase.quarantined))
        × (is_quarantined w'.system.quarantine i
            ≡ (if spared then is_quarantined w.system.quarantine i else true))
        × (Dict.has String-discrete i w'.pending_approvals ≡ (
            if spared
            then Dict.has String-discrete i w.pending_approvals
            else if severe
            then true
            else Dict.has String-discrete i w.pending_approvals))
        × ((judge_infection show w i r c).1 ≡ ok (order_of show i r c))
  unfolding judge_infection
  judge_infection-lem show w i r c h =
      let w1 = record w { system = order_quarantine w.system i } in
      let ctx = context_of show c in
      let ordered = order_quarantine-lem w.system i h in
      let spared = spare-lem w.system i h in
      let (d, known, shown) = diagnose-primary fl w1.system.diagnostician r ctx in
      let asked = request_approval-lem w1 i r d in
      elim (Bool-cases (is_fleet_wide c.verdict)) [
        | inl wide ↦
            rw wide (
              spared.0,
              ap (λ (q : QuarantineController W). is_quarantined q i) spared.1,
              refl,
              refl,
            )
        | inr local ↦ elim (Bool-cases (fl.le (fl.literal 50 10) r.max_deviation)) [
          | inl severe ↦
              rw (local, severe, known)
                (
                  ap (λ l. phase_of l i) asked.0 ∙ ordered.0,
                  ap (λ (q : QuarantineController W). is_quarantined q i) asked.1 ∙ ordered.1,
                  asked.2,
                  asked.3,
                )
          | inr mild ↦ rw (local, mild) (ordered.0, ordered.1, refl, refl)
        ]
      ]
