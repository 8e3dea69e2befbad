-- ===== src/Orchestrator/Termination.antt =====
-- The healing workflow comes to an end (immune_system/orchestrator.py).
use ai_agent_immune_system.Common.{
  Floats, List, Option, String, String-discrete, [], arith, contains, contains-set_add,
  contains-set_discard, false, length, length-keep-le, length-keep_fewer, none, not, refl, set_add,
  some, subst, suc, zero, ℕ, ◌<◌, ◌∷◌, ◌≡◌,
}
use ai_agent_immune_system.Diagnosis.{Diagnosis, DiagnosisContext, DiagnosisType}
use ai_agent_immune_system.Detection.{InfectionReport}
use ai_agent_immune_system.Agents.{BaseAgent}
use ai_agent_immune_system.Healing.{HealingAction, HealingAction-discrete, get_healing_policy}
use ai_agent_immune_system.Healing.Healer.{candidates, get_next_action}
use ai_agent_immune_system.Healing.Ladder.{IsNext, get_next_action_lem}
use ai_agent_immune_system.Memory.{get_failed_actions, get_successful_actions}
use ai_agent_immune_system.Orchestrator.{Orchestrator, Surroundings}
use ai_agent_immune_system.Orchestrator.Workflow.{
  Attempt, Ending, all_failed, attempt, attempt_raised, climb, follow, go_on, heal_agent,
  heal_found, healed, ladder, ladder_fuel, not_passed, out_of_fuel, passed, raised, try_hypotheses,
}
use ai_agent_immune_system.Common.Dict

-- Whether an end is one that the program has.
abbrev pub HasEnded : Ending → Type 0
HasEnded out_of_fuel = ⊥
HasEnded _ = Unit

-- An action that fails leaves fewer candidates.
candidates-shrink :
    (s : List HealingAction) (d : DiagnosisType) (failed : List HealingAction) (a : HealingAction)
    → IsNext s d failed (some a)
    → length (candidates d (set_add HealingAction-discrete a failed)) < length (candidates d failed)
unfolding candidates
candidates-shrink s d failed a (there, fresh, earliest) =
    let now_failed = set_add HealingAction-discrete a failed in
    length-keep_fewer HealingAction-discrete (λ x. not (contains HealingAction-discrete x failed))
      (λ x. not (contains HealingAction-discrete x now_failed)) a (get_healing_policy d)
      (λ x h. ground (arith, h, contains-set_add HealingAction-discrete a x failed))
      (ground (arith, contains-set_add HealingAction-discrete a a failed)) (ground (arith, fresh))
      there

module _ {fl : Floats} {W : Type 0} (env : Surroundings fl W) where
  go_on-HasEnded :
      (again : Orchestrator fl W → HealingAction → Orchestrator fl W × Ending)
      (o : Orchestrator fl W) (a : HealingAction) (t : Attempt)
      → ((o' : Orchestrator fl W) → HasEnded (again o' a).1)
      → HasEnded (go_on env again o a t).1
  unfolding go_on
  go_on-HasEnded again o a passed h = tt
  go_on-HasEnded again o a not_passed h = h o
  go_on-HasEnded again o a (attempt_raised e) h = tt

  climb-HasEnded :
      (again : Orchestrator fl W → HealingAction → Orchestrator fl W × Ending)
      (o : Orchestrator fl W) (i : String) (d : DiagnosisType) (trigger : String)
      (next : Option HealingAction)
      → ((a : HealingAction) (o' : Orchestrator fl W) → next ≡ some a → HasEnded (again o' a).1)
      → HasEnded (climb env again o i d trigger next).1
  unfolding climb
  climb-HasEnded again o i d trigger none h = tt
  climb-HasEnded again o i d trigger (some a) h =
      let tried = attempt env o i d a trigger in
      go_on-HasEnded again tried.0 a tried.1 (λ o'. h a o' refl)

  -- With more fuel than there are actions on the diagnosis's ladder that have not failed, the loop over
  -- the ladder ends, whatever the other tasks and the executor do.
  pub ladder-HasEnded :
      (n : ℕ) (o : Orchestrator fl W) (i : String) (d : DiagnosisType) (failed : List HealingAction)
      (trigger : String)
      → length (candidates d failed) < n
      → HasEnded (ladder env n o i d failed trigger).1
  unfolding ladder
  ladder-HasEnded zero o i d failed trigger h = omega (arith, h)
  ladder-HasEnded (suc n) o i d failed trigger h =
      let next = get_next_action d failed o.immune_memory in
      let s = (get_successful_actions o.immune_memory d).0 in
      let again : Orchestrator fl W → HealingAction → Orchestrator fl W × Ending =
        λ o' a. ladder env n o' i d (set_add HealingAction-discrete a failed) trigger in
      climb-HasEnded again (record o { immune_memory = next.1 }) i d trigger next.0
        (λ a o' e.
          let fewer =
            candidates-shrink s d failed a
              (subst (IsNext s d failed) e (get_next_action_lem d failed o.immune_memory)) in
          ladder-HasEnded n o' i d (set_add HealingAction-discrete a failed) trigger
            (omega (arith, fewer, h)))

  ladder_fuel-lt :
      (d : DiagnosisType) (failed : List HealingAction)
      → length (candidates d failed) < ladder_fuel env d
  unfolding candidates
  ladder_fuel-lt d failed = omega (
    arith,
    length-keep-le (λ a. not (contains HealingAction-discrete a failed)) (get_healing_policy d),
  )

  follow-HasEnded :
      (others : Orchestrator fl W → Orchestrator fl W × Ending) (o : Orchestrator fl W) (e : Ending)
      → HasEnded e
      → ((o' : Orchestrator fl W) → HasEnded (others o').1)
      → HasEnded (follow env others o e).1
  unfolding follow
  follow-HasEnded others o healed h k = tt
  follow-HasEnded others o all_failed h k = k o
  follow-HasEnded others o out_of_fuel h k = h
  follow-HasEnded others o (raised e) h k = tt

  try_hypotheses-HasEnded :
      (o : Orchestrator fl W) (i trigger : String) (hs : List (Diagnosis fl))
      → HasEnded (try_hypotheses env o i trigger hs).1
  unfolding try_hypotheses
  try_hypotheses-HasEnded o i trigger [] = tt
  try_hypotheses-HasEnded o i trigger (h ∷ hs) =
      let d = h.diagnosis_type in
      let failed = get_failed_actions o.immune_memory i d in
      let tried = ladder env (ladder_fuel env d) o i d failed trigger in
      follow-HasEnded (λ o'. try_hypotheses env o' i trigger hs) tried.0 tried.1
        (ladder-HasEnded (ladder_fuel env d) o i d failed trigger (ladder_fuel-lt d failed))
        (λ o'. try_hypotheses-HasEnded o' i trigger hs)

  heal_found-HasEnded :
      (o : Orchestrator fl W) (i : String) (infection : InfectionReport fl) (trigger : String)
      (ctx : DiagnosisContext fl) (agent : Option (BaseAgent fl))
      → HasEnded (heal_found env o i infection trigger ctx agent).1
  unfolding heal_found
  heal_found-HasEnded o i infection trigger ctx none = tt
  heal_found-HasEnded o i infection trigger ctx (some agent) = try_hypotheses-HasEnded _ i trigger _

  -- Healing an agent always ends: healed, with all actions failed, or with an error, whatever the other
  -- tasks and the executor do; and the agent is then no longer among those being healed.
  pub heal_agent-HasEnded :
      (o : Orchestrator fl W) (i : String) (infection : InfectionReport fl) (trigger : String)
      (ctx : DiagnosisContext fl)
      → HasEnded (heal_agent env o i infection trigger ctx).1
        × (contains String-discrete i
              (heal_agent env o i infection trigger ctx).0.healing_in_progress
            ≡ false)
  unfolding heal_agent
  heal_agent-HasEnded o i infection trigger ctx =
      let o1 = record o { healing_in_progress = set_add String-discrete i o.healing_in_progress } in
      let agent = Dict.get String-discrete i o.agents in
      let tried = heal_found env o1 i infection trigger ctx agent in
      (
        heal_found-HasEnded o1 i infection trigger ctx agent,
        ground (arith, contains-set_discard String-discrete i i tried.0.healing_in_progress),
      )
