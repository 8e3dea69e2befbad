-- ===== src/Orchestrator/Phases.antt =====
-- The phase in which the healing workflow leaves its agent (immune_system/orchestrator.py).
use ai_agent_immune_system.Common.{
  Bool, Bool-cases, Floats, List, Option, Result, String, String-discrete, [], ap, arith, false,
  inl, inr, none, ok, raise, refl, set_add, some, suc, true, zero, ℕ, ◌+◌, ◌∙◌, ◌∷◌, ◌≡◌,
}
use ai_agent_immune_system.Common.Dict
use ai_agent_immune_system.Lifecycle
use ai_agent_immune_system.Lifecycle.{
  AgentPhase, LifecycleManager, allowed_transitions, enter_probation, is_allowed, mark_exhausted,
  mark_healthy, probation_tick_in, record_probation_tick, start_healing, state_of,
}
use ai_agent_immune_system.Lifecycle.Transition.{
  phase_of, phase_of-ensure, phase_of-put_same, state_of-phase, transition_parts,
}
use ai_agent_immune_system.Diagnosis.{Diagnosis, DiagnosisContext, DiagnosisType}
use ai_agent_immune_system.Agents
use ai_agent_immune_system.Agents.{BaseAgent}
use ai_agent_immune_system.Healing.{HealingAction, HealingAction-discrete}
use ai_agent_immune_system.Healing.Healer.{get_next_action}
use ai_agent_immune_system.Memory.{get_failed_actions}
use ai_agent_immune_system.Detection.{InfectionReport}
use ai_agent_immune_system.Orchestrator.{
  Orchestrator, Surroundings, log_action, record_attempt, release_quarantine, set_lifecycle,
  sync_agent_phase, update_agent,
}
use ai_agent_immune_system.Orchestrator.Workflow.{
  Attempt, Ending, all_failed, apply_action, attempt, attempt_raised, climb, follow, go_on,
  heal_agent, heal_found, healed, ladder, ladder_fuel, not_passed, note_failure, out_of_fuel,
  passed, raised, run_probation, settle, try_hypotheses, try_probation,
}

transition-phase :
    (m : LifecycleManager) (i : String) (target : AgentPhase) (reason : String) (now : ℕ)
    → is_allowed (phase_of m i) target ≡ true
    → phase_of (Lifecycle.transition m i target reason now).0 i ≡ target
transition-phase m i target reason now h =
    let (returned, moved, grown, kept) = transition_parts m i target reason now in
    ground (arith, moved, h)

tick_in-phase :
    (p : AgentPhase) (m : LifecycleManager) (i : String) (now : ℕ)
    → phase_of (probation_tick_in p m i now).0 i ≡ phase_of m i
unfolding probation_tick_in
tick_in-phase AgentPhase.probation m i now =
    let st = state_of m i now in
    phase_of-put_same m i i (record st { probation_tick_count = st.probation_tick_count + 1 })
      (state_of-phase m i now)
tick_in-phase _ m i now = phase_of-ensure m i i now

module _ {fl : Floats} {W : Type 0} where
  -- The phase of an agent in the orchestrator's lifecycle manager.
  abbrev pub phase_at : Orchestrator fl W → String → AgentPhase
  phase_at o i = phase_of o.lifecycle i

  update_agent-lifecycle :
      (o : Orchestrator fl W) (i : String) (f : BaseAgent fl → BaseAgent fl)
      → (update_agent o i f).lifecycle ≡ o.lifecycle
  unfolding update_agent
  update_agent-lifecycle o i f = ground (arith, Dict.get String-discrete i o.agents)

  pub set_lifecycle-phase :
      (o : Orchestrator fl W) (m : LifecycleManager) (i : String)
      → phase_at (set_lifecycle o m i) i ≡ phase_of m i
  unfolding set_lifecycle sync_agent_phase Lifecycle.get_phase
  set_lifecycle-phase o m i =
      ap (λ l. phase_of l i) (update_agent-lifecycle _ i _) ∙ phase_of-ensure m i i o.clock

-- The phase behind an attempt, behind a ladder, and behind the workflow.
abbrev pub FitsAttempt : AgentPhase → Attempt → Type 0
FitsAttempt p passed = p ≡ AgentPhase.healthy
FitsAttempt p not_passed = p ≡ AgentPhase.healing
FitsAttempt p (attempt_raised e) = Unit

abbrev pub FitsLadder : AgentPhase → Ending → Type 0
FitsLadder p healed = p ≡ AgentPhase.healthy
FitsLadder p all_failed = p ≡ AgentPhase.healing
FitsLadder p _ = Unit

abbrev pub FitsEnding : AgentPhase → Ending → Type 0
FitsEnding p healed = p ≡ AgentPhase.healthy
FitsEnding p all_failed = p ≡ AgentPhase.exhausted
FitsEnding p _ = Unit

module _ {fl : Floats} {W : Type 0} where
  settle-FitsAttempt :
      (env : Surroundings fl W) (o : Orchestrator fl W) (i : String) (d : DiagnosisType)
      (a : HealingAction) (trigger : String) (found : Result Bool)
      → phase_at o i ≡ AgentPhase.probation
      → let end = settle env o i d a trigger found in FitsAttempt (phase_at end.0 i) end.1
  unfolding settle record_attempt log_action release_quarantine mark_healthy is_allowed
      allowed_transitions
  settle-FitsAttempt env o i d a trigger (raise e) h = tt
  settle-FitsAttempt env o i d a trigger (ok true) h =
      ap (λ l. phase_of l i) (update_agent-lifecycle _ i (Agents.release fl))
      ∙ set_lifecycle-phase _ _ i
      ∙ transition-phase o.lifecycle i AgentPhase.healthy "healed" o.clock (ground (arith, h))
  settle-FitsAttempt env o i d a trigger (ok false) h =
      set_lifecycle-phase _ _ i
      ∙ transition-phase o.lifecycle i AgentPhase.healing "probation_failed" o.clock
          (ground (arith, h))

-- The other tasks and the executor leave the agent's phase alone.
pub record IsQuiet {fl : Floats} {W : Type 0} (env : Surroundings fl W) (i : String) : Type 0 where
  pub waits : (o : Orchestrator fl W) → phase_at (env.wait o) i ≡ phase_at o i
  pub executes :
      (execute : Orchestrator fl W → String → HealingAction → Bool × Orchestrator fl W)
      → env.executor ≡ some execute
      → (o : Orchestrator fl W) (a : HealingAction) → phase_at (execute o i a).1 i ≡ phase_at o i

module _ {fl : Floats} {W : Type 0} (env : Surroundings fl W) (i : String)
    (quiet : IsQuiet env i) where
  run_probation-phase :
      (n : ℕ) (o : Orchestrator fl W) → phase_at (run_probation env n o i).0 i ≡ phase_at o i
  unfolding run_probation record_probation_tick
  run_probation-phase zero o = refl
  run_probation-phase (suc n) o =
      let o' = env.wait o in
      let m = (record_probation_tick o'.lifecycle i o'.clock).0 in
      let o2 : Orchestrator fl W = record o' { lifecycle = m } in
      ground (
        arith,
        run_probation-phase n o2,
        tick_in-phase (state_of o'.lifecycle i o'.clock).phase o'.lifecycle i o'.clock,
        quiet.waits o,
      )

  apply_action-phase :
      (o : Orchestrator fl W) (a : HealingAction)
      → phase_at (apply_action env o i a).1 i ≡ phase_at o i
  unfolding apply_action
  apply_action-phase o a = by_executor env.executor refl
    where
      by_executor :
          (e : Option (Orchestrator fl W → String → HealingAction → Bool × Orchestrator fl W))
          → env.executor ≡ e
          → phase_at (apply_action env o i a).1 i ≡ phase_at o i
      by_executor none h =
          unfold apply_action in rw h (ap (λ l. phase_of l i) (update_agent-lifecycle o i _))
      by_executor (some execute) h = unfold apply_action in rw h (quiet.executes execute h o a)

  try_probation-FitsAttempt :
      (o : Orchestrator fl W) (d : DiagnosisType) (a : HealingAction) (trigger : String)
      → phase_at o i ≡ AgentPhase.healing
      → let end = try_probation env o i d a trigger in FitsAttempt (phase_at end.0 i) end.1
  unfolding try_probation enter_probation is_allowed allowed_transitions
  try_probation-FitsAttempt o d a trigger h = settle-FitsAttempt env _ i d a trigger _ (
      run_probation-phase _ _
      ∙ set_lifecycle-phase o _ i
      ∙ transition-phase o.lifecycle i AgentPhase.probation "healing_action_applied" o.clock
          (ground (arith, h)))

  note_failure-FitsAttempt :
      (o : Orchestrator fl W) (d : DiagnosisType) (a : HealingAction) (trigger : String)
      → phase_at o i ≡ AgentPhase.healing
      → let end = note_failure env o i d a trigger in FitsAttempt (phase_at end.0 i) end.1
  unfolding note_failure record_attempt log_action
  note_failure-FitsAttempt o d a trigger h = quiet.waits _ ∙ h

  attempt-FitsAttempt :
      (o : Orchestrator fl W) (d : DiagnosisType) (a : HealingAction) (trigger : String)
      → phase_at o i ≡ AgentPhase.healing
      → let end = attempt env o i d a trigger in FitsAttempt (phase_at end.0 i) end.1
  unfolding attempt
  attempt-FitsAttempt o d a trigger h =
      let applied = apply_action env o i a in
      let o1 = env.wait applied.1 in
      let here = quiet.waits applied.1 ∙ apply_action-phase o a ∙ h in
      elim (Bool-cases applied.0) [
        | inl success ↦ rw success (try_probation-FitsAttempt o1 d a trigger here)
        | inr failure ↦ rw failure (note_failure-FitsAttempt o1 d a trigger here)
      ]

  go_on-FitsLadder :
      (again : Orchestrator fl W → HealingAction → Orchestrator fl W × Ending)
      (o : Orchestrator fl W) (a : HealingAction) (t : Attempt)
      → FitsAttempt (phase_at o i) t
      → ((o' : Orchestrator fl W)
          → phase_at o' i ≡ AgentPhase.healing
          → FitsLadder (phase_at (again o' a).0 i) (again o' a).1)
      → let end = go_on env again o a t in FitsLadder (phase_at end.0 i) end.1
  unfolding go_on
  go_on-FitsLadder again o a passed h k = h
  go_on-FitsLadder again o a not_passed h k = k o h
  go_on-FitsLadder again o a (attempt_raised e) h k = tt

  climb-FitsLadder :
      (again : Orchestrator fl W → HealingAction → Orchestrator fl W × Ending)
      (o : Orchestrator fl W) (d : DiagnosisType) (trigger : String) (next : Option HealingAction)
      → phase_at o i ≡ AgentPhase.healing
      → ((a : HealingAction) (o' : Orchestrator fl W)
          → phase_at o' i ≡ AgentPhase.healing
          → FitsLadder (phase_at (again o' a).0 i) (again o' a).1)
      → let end = climb env again o i d trigger next in FitsLadder (phase_at end.0 i) end.1
  unfolding climb
  climb-FitsLadder again o d trigger none h k = h
  climb-FitsLadder again o d trigger (some a) h k =
      let tried = attempt env o i d a trigger in
      go_on-FitsLadder again tried.0 a tried.1 (attempt-FitsAttempt o d a trigger h) (k a)

  ladder-FitsLadder :
      (n : ℕ) (o : Orchestrator fl W) (d : DiagnosisType) (failed : List HealingAction)
      (trigger : String)
      → phase_at o i ≡ AgentPhase.healing
      → let end = ladder env n o i d failed trigger in FitsLadder (phase_at end.0 i) end.1
  unfolding ladder
  ladder-FitsLadder zero o d failed trigger h = tt
  ladder-FitsLadder (suc n) o d failed trigger h =
      let next = get_next_action d failed o.immune_memory in
      let o1 : Orchestrator fl W = record o { immune_memory = next.1 } in
      climb-FitsLadder _ o1 d trigger next.0 h
        (λ a o' k. ladder-FitsLadder n o' d (set_add HealingAction-discrete a failed) trigger k)

  follow-FitsEnding :
      (others : Orchestrator fl W → Orchestrator fl W × Ending) (o : Orchestrator fl W) (e : Ending)
      → FitsLadder (phase_at o i) e
      → ((o' : Orchestrator fl W)
          → phase_at o' i ≡ AgentPhase.healing
          → FitsEnding (phase_at (others o').0 i) (others o').1)
      → let end = follow env others o e in FitsEnding (phase_at end.0 i) end.1
  unfolding follow
  follow-FitsEnding others o healed h k = h
  follow-FitsEnding others o all_failed h k = k o h
  follow-FitsEnding others o out_of_fuel h k = tt
  follow-FitsEnding others o (raised e) h k = tt

  try_hypotheses-FitsEnding :
      (o : Orchestrator fl W) (trigger : String) (hs : List (Diagnosis fl))
      → phase_at o i ≡ AgentPhase.healing
      → let end = try_hypotheses env o i trigger hs in FitsEnding (phase_at end.0 i) end.1
  unfolding try_hypotheses mark_exhausted is_allowed allowed_transitions
  try_hypotheses-FitsEnding o trigger [] h =
      set_lifecycle-phase o _ i
      ∙ transition-phase o.lifecycle i AgentPhase.exhausted "all_actions_exhausted" o.clock
          (ground (arith, h))
  try_hypotheses-FitsEnding o trigger (h ∷ hs) k =
      let d = h.diagnosis_type in
      let failed = get_failed_actions o.immune_memory i d in
      let tried = ladder env (ladder_fuel env d) o i d failed trigger in
      follow-FitsEnding (λ o'. try_hypotheses env o' i trigger hs) tried.0 tried.1
        (ladder-FitsLadder (ladder_fuel env d) o d failed trigger k)
        (λ o'. try_hypotheses-FitsEnding o' trigger hs)

  heal_found-FitsEnding :
      (o : Orchestrator fl W) (infection : InfectionReport fl) (trigger : String)
      (ctx : DiagnosisContext fl) (agent : Option (BaseAgent fl))
      → is_allowed (phase_at o i) AgentPhase.healing ≡ true
      → let end = heal_found env o i infection trigger ctx agent in
        FitsEnding (phase_at end.0 i) end.1
  unfolding heal_found start_healing
  heal_found-FitsEnding o infection trigger ctx none h = tt
  heal_found-FitsEnding o infection trigger ctx (some agent) h =
      try_hypotheses-FitsEnding _ trigger _ (
        quiet.waits _
        ∙ set_lifecycle-phase o _ i
        ∙ transition-phase o.lifecycle i AgentPhase.healing "healing_started" o.clock h)

  -- Where nothing else changes the agent's phase, and it may go to healing from the phase that it is
  -- in, healing leaves a healed agent in the phase healthy, and one for which every action has failed
  -- in the phase exhausted.
  pub heal_agent-FitsEnding :
      (o : Orchestrator fl W) (infection : InfectionReport fl) (trigger : String)
      (ctx : DiagnosisContext fl)
      → is_allowed (phase_at o i) AgentPhase.healing ≡ true
      → let end = heal_agent env o i infection trigger ctx in FitsEnding (phase_at end.0 i) end.1
  unfolding heal_agent
  heal_agent-FitsEnding o infection trigger ctx h =
      let o1 : Orchestrator fl W = record o {
        healing_in_progress = set_add String-discrete i o.healing_in_progress;
      } in
      heal_found-FitsEnding o1 infection trigger ctx (Dict.get String-discrete i o.agents) h
