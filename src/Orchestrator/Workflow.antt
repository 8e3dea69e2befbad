-- ===== src/Orchestrator/Workflow.antt =====
-- The healing workflow (immune_system/orchestrator.py): `heal_agent` with its probation, over what
-- runs beside it.
use ai_agent_immune_system.Common.{
  Bool, Error, Floats, List, Option, Result, String, String-discrete, [], false, if◌then◌else◌,
  key_error, length, none, ok, raise, set_add, set_discard, some, suc, true, zero, ℕ, ◌+◌, ◌∷◌,
}
use ai_agent_immune_system.Common.Dict
use ai_agent_immune_system.Common.Dict.{Dict}
use ai_agent_immune_system.Lifecycle
use ai_agent_immune_system.Lifecycle.{AgentPhase}
use ai_agent_immune_system.Quarantine
use ai_agent_immune_system.Quarantine.{quarantine}
use ai_agent_immune_system.Agents.{BaseAgent}
use ai_agent_immune_system.Detection.{InfectionReport}
use ai_agent_immune_system.Diagnosis.{Diagnosis, DiagnosisContext, DiagnosisType, diagnose}
use ai_agent_immune_system.Healing.{HealingAction, HealingAction-discrete, get_healing_policy}
use ai_agent_immune_system.Healing.Healer.{apply_healing, get_next_action}
use ai_agent_immune_system.Memory.{get_failed_actions}
use ai_agent_immune_system.Orchestrator.{
  Orchestrator, Surroundings, record_attempt, release_quarantine, set_lifecycle, update_agent,
  validate_probation,
}

-- How an attempt, a ladder of attempts or the whole workflow ends.
pub data Attempt : Type 0 where
  passed not_passed : Attempt
  attempt_raised : Error → Attempt

pub data Ending : Type 0 where
  healed all_failed out_of_fuel : Ending
  raised : Error → Ending

module _ {fl : Floats} {W : Type 0} (env : Surroundings fl W) where
  -- `_run_probation`, from the number of ticks that are left
  unfoldable pub run_probation : ℕ → Orchestrator fl W → String → Orchestrator fl W × Result Bool
  run_probation zero o i = (o, validate_probation o i)
  run_probation (suc n) o i =
      let o' = env.wait o in
      let m = (Lifecycle.record_probation_tick o'.lifecycle i o'.clock).0 in
      let rest = run_probation n (record o' { lifecycle = m }) i in
      if o.running then rest else (o, ok true)

  -- `apply_healing` of the healer, with the executor or in memory
  unfoldable pub apply_action :
      Orchestrator fl W → String → HealingAction → Bool × Orchestrator fl W
  apply_action o i a = elim env.executor [
    | none ↦ (true, update_agent o i (λ agent. (apply_healing fl agent a).1))
    | some execute ↦ execute o i a
  ]

  -- Behind a probation, by what it found.
  unfoldable pub settle :
      Orchestrator fl W
      → String
      → DiagnosisType
      → HealingAction
      → String
      → Result Bool
      → Orchestrator fl W × Attempt
  settle o i d a trigger (raise e) = (o, attempt_raised e)
  settle o i d a trigger (ok true) =
      let o1 = record_attempt o i d a true trigger in
      let m = (Lifecycle.mark_healthy o1.lifecycle i "healed" o1.clock).0 in
      let o2 = release_quarantine (set_lifecycle o1 m i) i in
      (record o2 { total_healed = o2.total_healed + 1 }, passed)
  settle o i d a trigger (ok false) =
      let o1 = record_attempt o i d a false trigger in
      let m =
        (Lifecycle.transition o1.lifecycle i AgentPhase.healing "probation_failed" o1.clock).0 in
      let o2 = record o1 {
        total_failed_healings = o1.total_failed_healings + 1;
        quarantine = Quarantine.quarantine o1.quarantine i o1.clock;
      } in
      (set_lifecycle o2 m i, not_passed)

  -- The branch of an action that succeeded.
  unfoldable pub try_probation :
      Orchestrator fl W
      → String
      → DiagnosisType
      → HealingAction
      → String
      → Orchestrator fl W × Attempt
  try_probation o i d a trigger =
      let m = (Lifecycle.enter_probation o.lifecycle i o.clock).0 in
      let o1 = set_lifecycle o m i in
      let o2 = record o1 { quarantine = Quarantine.release o1.quarantine i } in
      let (o3, found) = run_probation o2.lifecycle.probation_ticks o2 i in
      settle o3 i d a trigger found

  -- The branch of an action that did not.
  unfoldable pub note_failure :
      Orchestrator fl W
      → String
      → DiagnosisType
      → HealingAction
      → String
      → Orchestrator fl W × Attempt
  note_failure o i d a trigger =
      let o1 = record_attempt o i d a false trigger in
      (env.wait (record o1 { total_failed_healings = o1.total_failed_healings + 1 }), not_passed)

  unfoldable pub attempt :
      Orchestrator fl W
      → String
      → DiagnosisType
      → HealingAction
      → String
      → Orchestrator fl W × Attempt
  attempt o i d a trigger =
      let (success, o1) = apply_action o i a in
      if success
      then try_probation (env.wait o1) i d a trigger
      else note_failure (env.wait o1) i d a trigger

  -- Behind an attempt, by its end; `again` goes on with an action that failed.
  unfoldable pub go_on :
      (Orchestrator fl W → HealingAction → Orchestrator fl W × Ending)
      → Orchestrator fl W
      → HealingAction
      → Attempt
      → Orchestrator fl W × Ending
  go_on again o a passed = (o, healed)
  go_on again o a not_passed = again o a
  go_on again o a (attempt_raised e) = (o, raised e)

  -- The body of `while True` from the next action on.
  unfoldable pub climb :
      (Orchestrator fl W → HealingAction → Orchestrator fl W × Ending)
      → Orchestrator fl W
      → String
      → DiagnosisType
      → String
      → Option HealingAction
      → Orchestrator fl W × Ending
  climb again o i d trigger none = (o, all_failed)
  climb again o i d trigger (some a) =
      let tried = attempt o i d a trigger in go_on again tried.0 a tried.1

  -- `while True`, on fuel, with the actions that have failed
  unfoldable pub ladder :
      ℕ
      → Orchestrator fl W
      → String
      → DiagnosisType
      → List HealingAction
      → String
      → Orchestrator fl W × Ending
  ladder zero o i d failed trigger = (o, out_of_fuel)
  ladder (suc n) o i d failed trigger =
      let next = get_next_action d failed o.immune_memory in
      climb (λ o' a. ladder n o' i d (set_add HealingAction-discrete a failed) trigger)
        (record o { immune_memory = next.1 }) i d trigger next.0

  -- One action of the ladder is tried at most once, so that this much fuel is enough.
  abbrev pub ladder_fuel : DiagnosisType → ℕ
  ladder_fuel d = length (get_healing_policy d) + 1

  -- Behind the ladder of a hypothesis, by its end; `others` tries the hypotheses that are left.
  unfoldable pub follow :
      (Orchestrator fl W → Orchestrator fl W × Ending)
      → Orchestrator fl W
      → Ending
      → Orchestrator fl W × Ending
  follow others o all_failed = others o
  follow others o e = (o, e)

  unfoldable pub try_hypotheses :
      Orchestrator fl W → String → String → List (Diagnosis fl) → Orchestrator fl W × Ending
  try_hypotheses o i trigger [] =
      (set_lifecycle o (Lifecycle.mark_exhausted o.lifecycle i o.clock).0 i, all_failed)
  try_hypotheses o i trigger (h ∷ hs) =
      let d = h.diagnosis_type in
      let tried = ladder (ladder_fuel d) o i d (get_failed_actions o.immune_memory i d) trigger in
      follow (λ o'. try_hypotheses o' i trigger hs) tried.0 tried.1

  -- The body of `heal_agent`'s `try`, by what is found under the agent's name
  unfoldable pub heal_found :
      Orchestrator fl W
      → String
      → InfectionReport fl
      → String
      → DiagnosisContext fl
      → Option (BaseAgent fl)
      → Orchestrator fl W × Ending
  heal_found o i infection trigger ctx none = (o, raised key_error)
  heal_found o i infection trigger ctx (some agent) =
      let m = (Lifecycle.start_healing o.lifecycle i "healing_started" o.clock).0 in
      let o1 = set_lifecycle o m i in
      let found = diagnose fl o1.diagnostician infection ctx in
      try_hypotheses (env.wait o1) i trigger found.hypotheses

  unfoldable pub heal_agent :
      Orchestrator fl W
      → String
      → InfectionReport fl
      → String
      → DiagnosisContext fl
      → Orchestrator fl W × Ending
  heal_agent o i infection trigger ctx =
      let o1 = record o { healing_in_progress = set_add String-discrete i o.healing_in_progress } in
      let tried = heal_found o1 i infection trigger ctx (Dict.get String-discrete i o1.agents) in
      let o2 = tried.0 in
      (
        record o2 { healing_in_progress = set_discard String-discrete i o2.healing_in_progress },
        tried.1,
      )
