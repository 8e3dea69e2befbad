-- ===== src/Orchestrator/Response.antt =====
-- Responses that stop the agent: how an escalation leaves it, and the response that follows
-- (immune_system/orchestrator.py, `sentinel_loop`, with the branch for a known infection).
use ai_agent_immune_system.Common.{
  Bool, Bool-cases, Floats, Result, String, Texts, ap, arith, false, inl, inr, leb, map, none, ok,
  raise, refl, some, some_or, subst, suc, sym, true, ℕ, ◌+◌, ◌<◌, ◌∙◌, ◌≡◌, ◌⊎◌,
}
use ai_agent_immune_system.Common.Dict
use ai_agent_immune_system.Orchestrator.Sentinel.{
  anomaly_value, escalate_infection, fallback_infection, fallback_of, judge_result, respond,
}
use ai_agent_immune_system.Orchestrator.Judgment.{judge_infection-lem, update_agent-rest}
use ai_agent_immune_system.Lifecycle.{
  AgentPhase, LifecycleManager, anomaly_tick_in, ensure, escalate, force_drain, get_phase,
  put_state, record_anomaly_tick, state_of, transition,
}
use ai_agent_immune_system.Lifecycle.Transition.{phase_of, phase_of-ensure, state_of-phase}
use ai_agent_immune_system.Lifecycle.Escalation.{
  IsSuspected, IsSuspected-apply, IsSuspected-tick_below, ensure_known, force_drain_lem,
  phase-tick_enough, tick_healthy, ticks-apply,
}
use ai_agent_immune_system.Agents.{BaseAgent, set_phase, status_of}
use ai_agent_immune_system.Detection.{InfectionReport}
use ai_agent_immune_system.Correlator.{CorrelationResult, Detail, correlate, default_correlator}
use ai_agent_immune_system.Orchestrator.{Orchestrator, set_lifecycle, sync_agent_phase}
use ai_agent_immune_system.Orchestrator.Phases.{phase_at, set_lifecycle-phase}
use ai_agent_immune_system.Orchestrator.Approvals.{Workflow}

abbrev pub is_stopped : AgentPhase → Bool
is_stopped AgentPhase.draining = true
is_stopped AgentPhase.quarantined = true
is_stopped _ = false

pub ensure-ticks :
    (m : LifecycleManager) (i : String) (now : ℕ) → (ensure m i now).suspect_ticks ≡ m.suspect_ticks
unfolding ensure put_state
ensure-ticks m i now = refl

pub IsSuspected-ensure :
    (m : LifecycleManager) (i : String) (c now : ℕ)
    → IsSuspected m i c
    → IsSuspected (ensure m i now) i c
IsSuspected-ensure m i c now (st, known, at_phase, counted) =
    subst (λ l. IsSuspected l i c) (sym (ensure_known m i now st known))
      (st, known, at_phase, counted)

pub phase_of-suspected :
    (m : LifecycleManager) (i : String) (c : ℕ)
    → IsSuspected m i c
    → phase_of m i ≡ AgentPhase.suspected
unfolding phase_of
phase_of-suspected m i c (st, known, at_phase, counted) = ground (arith, known, at_phase)

-- The phase that a tick returns is the one that it leaves.
record_anomaly_tick-returns :
    (m : LifecycleManager) (i : String) (now : ℕ)
    → (record_anomaly_tick m i now).1 ≡ phase_of (record_anomaly_tick m i now).0 i
unfolding record_anomaly_tick get_phase
record_anomaly_tick-returns m i now = by_phase (state_of m i now).phase (state_of-phase m i now)
  where
    got : (l : LifecycleManager) → (state_of l i now).phase ≡ phase_of (ensure l i now) i
    got l = state_of-phase l i now ∙ sym (phase_of-ensure l i i now)

    by_phase :
        (p : AgentPhase)
        → p ≡ phase_of m i
        → (anomaly_tick_in p m i now).1 ≡ phase_of (anomaly_tick_in p m i now).0 i
    by_phase AgentPhase.healthy h = unfold anomaly_tick_in in got _
    by_phase AgentPhase.suspected h =
        unfold anomaly_tick_in escalate in
        ground (
          arith,
          got (
              put_state m i (record (state_of m i now) {
                suspect_tick_count = (state_of m i now).suspect_tick_count + 1;
              })),
          got
              (transition
                (put_state m i (record (state_of m i now) {
                  suspect_tick_count = (state_of m i now).suspect_tick_count + 1;
                }))
                i AgentPhase.draining "anomaly_persisted" now).0,
        )
    by_phase AgentPhase.initializing h =
        unfold anomaly_tick_in in h ∙ sym (phase_of-ensure m i i now)
    by_phase AgentPhase.draining h = unfold anomaly_tick_in in h ∙ sym (phase_of-ensure m i i now)
    by_phase AgentPhase.quarantined h =
        unfold anomaly_tick_in in h ∙ sym (phase_of-ensure m i i now)
    by_phase AgentPhase.healing h = unfold anomaly_tick_in in h ∙ sym (phase_of-ensure m i i now)
    by_phase AgentPhase.probation h = unfold anomaly_tick_in in h ∙ sym (phase_of-ensure m i i now)
    by_phase AgentPhase.exhausted h = unfold anomaly_tick_in in h ∙ sym (phase_of-ensure m i i now)

pub fallback_infection-some :
    {fl : Floats} (py : Texts) (a : BaseAgent fl)
    → a.infected ≡ true
    → (r : InfectionReport fl) × (fallback_infection fl py a ≡ some r)
unfolding fallback_infection
fallback_infection-some {fl} py a h =
    let found = fallback_of fl (py.lower (some_or a.infection_type "")) in
    (
      record {
        agent_id = a.agent_id;
        max_deviation = found.1;
        anomalies = found.0;
        deviations = map (λ t. (anomaly_value t, found.1)) found.0;
      },
      rw h refl,
    )

module _ {fl : Floats} {W : Type 0} where
  set_lifecycle-lifecycle :
      (o : Orchestrator fl W) (m : LifecycleManager) (i : String)
      → (set_lifecycle o m i).lifecycle ≡ ensure m i o.clock
  unfolding set_lifecycle sync_agent_phase get_phase
  set_lifecycle-lifecycle o m i =
      (update_agent-rest (record o { lifecycle = ensure m i o.clock }) i
        (λ a. set_phase fl a (status_of (state_of m i o.clock).phase))).0

  -- How an escalation leaves the agent: draining, and then it goes on, or suspected with so many ticks.
  abbrev pub Escalates : String → ℕ → ℕ → Orchestrator fl W × Bool → Type 0
  Escalates i s c (o, goes_on) =
      ((goes_on ≡ true) × (phase_at o i ≡ AgentPhase.draining))
      ⊎ ((goes_on ≡ false)
          × IsSuspected o.lifecycle i c
          × (o.lifecycle.suspect_ticks ≡ s)
          × ((c < s) ⊎ (c ≡ 1)))

  pub escalate_suspected :
      (o : Orchestrator fl W) (i : String) (c : ℕ) (r : InfectionReport fl)
      → IsSuspected o.lifecycle i c
      → Escalates i o.lifecycle.suspect_ticks
          (suc c)
          (escalate_infection o i AgentPhase.suspected r)
  unfolding escalate_infection
  escalate_suspected o i c r (st, known, at_phase, counted) =
      let m = (record_anomaly_tick o.lifecycle i o.clock).0 in
      let returned = record_anomaly_tick-returns o.lifecycle i o.clock in
      let o' = set_lifecycle o m i in
      elim (Bool-cases (leb o.lifecycle.suspect_ticks (c + 1))) [
        | inl enough ↦
            let drained =
              phase-tick_enough o.lifecycle i o.clock c st known at_phase counted enough in
            inl (ground (arith, returned, drained), set_lifecycle-phase o m i ∙ drained)
        | inr few ↦
            let (still, same) =
              IsSuspected-tick_below o.lifecycle i o.clock c st known at_phase counted few in
            let lc = set_lifecycle-lifecycle o m i in
            inr (
              ground (arith, returned, phase_of-suspected m i (suc c) still),
              subst (λ l. IsSuspected l i (suc c)) (sym lc)
                  (IsSuspected-ensure m i (suc c) o.clock still),
              ap (λ l. l.suspect_ticks) lc ∙ ensure-ticks m i o.clock ∙ same,
              inl (ground (arith, few)),
            )
      ]

  pub escalate_healthy :
      (o : Orchestrator fl W) (i : String) (r : InfectionReport fl)
      → phase_at o i ≡ AgentPhase.healthy
      → Escalates i o.lifecycle.suspect_ticks 1 (escalate_infection o i AgentPhase.healthy r)
  unfolding escalate_infection get_phase
  escalate_healthy o i r h = elim (Bool-cases (fl.le (fl.literal 60 10) r.max_deviation)) [
    | inl severe ↦
        let m = (force_drain o.lifecycle i "severe_anomaly" o.clock).0 in
        let drained = (force_drain_lem o.lifecycle i "severe_anomaly" o.clock o.clock (inl h)).1 in
        let at_draining = set_lifecycle-phase o m i ∙ drained in
        let o' = set_lifecycle o m i in
        rw severe
          (inl (ground (arith, state_of-phase o'.lifecycle i o'.clock, at_draining), at_draining))
    | inr mild ↦
        let m = (record_anomaly_tick o.lifecycle i o.clock).0 in
        let o' = set_lifecycle o m i in
        let lc = set_lifecycle-lifecycle o m i in
        let ticked = tick_healthy o.lifecycle i o.clock h in
        let still : IsSuspected m i 1 =
          subst (λ l. IsSuspected l i 1) (sym ticked)
            (IsSuspected-apply o.lifecycle i o.clock "anomaly_detected") in
        let at_suspected = set_lifecycle-phase o m i ∙ phase_of-suspected m i 1 still in
        rw mild (
          inr (
            ground (arith, state_of-phase o'.lifecycle i o'.clock, at_suspected),
            subst (λ l. IsSuspected l i 1) (sym lc) (IsSuspected-ensure m i 1 o.clock still),
            ap (λ l. l.suspect_ticks) lc
                ∙ ensure-ticks m i o.clock
                ∙ ap (λ l. l.suspect_ticks) ticked
                ∙ ticks-apply o.lifecycle i o.clock AgentPhase.suspected "anomaly_detected",
            inr refl,
          ))
  ]

  judge_result-IsStopped :
      (show : Detail fl → String) (w : Workflow fl W) (i : String) (r : InfectionReport fl)
      (c : Result (CorrelationResult fl))
      → phase_at w.system i ≡ AgentPhase.draining
      → is_stopped (phase_at (judge_result show w i r c).0.system i) ≡ true
  unfolding judge_result
  judge_result-IsStopped show w i r (raise e) h = ap is_stopped h
  judge_result-IsStopped show w i r (ok c) h =
      let judged = judge_infection-lem show w i r c h in ap is_stopped judged.0 ∙ ground arith

  -- A response that goes on stops the agent; one that does not leaves what the escalation left.
  pub respond_on :
      (show : Detail fl → String) (w : Workflow fl W) (i : String) (p : AgentPhase)
      (r : InfectionReport fl)
      → (escalate_infection w.system i p r).1 ≡ true
      → phase_at (escalate_infection w.system i p r).0 i ≡ AgentPhase.draining
      → is_stopped (phase_at (respond show w i p r).0.system i) ≡ true
  unfolding respond
  respond_on show w i p r on drained =
      let o = (escalate_infection w.system i p r).0 in
      rw on (
        judge_result-IsStopped show (record w { system = o }) i r
          (correlate fl (fl.literal 25 10) o.telemetry o.clock o.baselines (default_correlator fl) r
            (Dict.keys o.agents))
          drained)

  pub respond_off :
      (show : Detail fl → String) (w : Workflow fl W) (i : String) (p : AgentPhase)
      (r : InfectionReport fl)
      → (escalate_infection w.system i p r).1 ≡ false
      → respond show w i p r
        ≡ (record w { system = (escalate_infection w.system i p r).0 }, ok none)
  unfolding respond
  respond_off show w i p r off = rw off refl
