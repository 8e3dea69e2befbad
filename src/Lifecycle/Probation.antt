-- ===== src/Lifecycle/Probation.antt =====
-- The probation window (immune_system/lifecycle.py, `enter_probation`, `record_probation_tick`,
-- `probation_complete`).
use ai_agent_immune_system.Common.{
  List, String, String-discrete, [], arith, leb, length, refl, some, ℕ, ◌+◌, ◌∷◌, ◌≡◌,
}
use ai_agent_immune_system.Common.Dict
use ai_agent_immune_system.Lifecycle.{
  AgentLifecycleState, LifecycleManager, allowed_transitions, apply_transition, enter_probation,
  entered, healing, is_allowed, probation, probation_complete, probation_tick_in, put_state,
  record_probation_tick, state_of,
}
use ai_agent_immune_system.Lifecycle.Transition.{phase_of}
use ai_agent_immune_system.Lifecycle.Escalation.{
  entry, entry-apply, state_of-entry, transition_allowed,
}

-- The agent is in probation, with `c` ticks counted.
abbrev IsOnProbation : LifecycleManager → String → ℕ → Type 0
IsOnProbation m i c =
    (st : AgentLifecycleState) × (entry m i ≡ some st)
    × (st.phase ≡ probation)
    × (st.probation_tick_count ≡ c)

unfoldable pub probation_ticked : LifecycleManager → String → List ℕ → LifecycleManager
probation_ticked m i [] = m
probation_ticked m i (now ∷ times) = probation_ticked (record_probation_tick m i now).0 i times

tick-IsOnProbation :
    (m : LifecycleManager) (i : String) (now c : ℕ)
    → IsOnProbation m i c
    → let m' = (record_probation_tick m i now).0 in
      IsOnProbation m' i (c + 1)
      × (m'.probation_ticks ≡ m.probation_ticks)
      × ((record_probation_tick m i now).1 ≡ c + 1)
unfolding record_probation_tick probation_tick_in
tick-IsOnProbation m i now c (st, known, at_phase, counted) =
    let st' = record st { probation_tick_count = st.probation_tick_count + 1 } in
    let step : record_probation_tick m i now ≡ (put_state m i st', st.probation_tick_count + 1) =
      ground (arith, state_of-entry m i now st known) in
    rw step ((st', stored st', at_phase, omega arith), same st', omega arith)
  where
    stored : (s : AgentLifecycleState) → entry (put_state m i s) i ≡ some s
    stored s = unfold put_state in Dict.get-put_self String-discrete i s m.states

    same : (s : AgentLifecycleState) → (put_state m i s).probation_ticks ≡ m.probation_ticks
    same s = unfold put_state in refl

complete-IsOnProbation :
    (m : LifecycleManager) (i : String) (c later : ℕ) (times : List ℕ)
    → IsOnProbation m i c
    → ((probation_complete (probation_ticked m i times) i later).1
        ≡ leb m.probation_ticks (c + length times))
      × (phase_of (probation_ticked m i times) i ≡ probation)
unfolding probation_ticked
complete-IsOnProbation m i c later [] (st, known, at_phase, counted) =
    unfold probation_complete phase_of in
    (ground (arith, state_of-entry m i later st known), ground (arith, known))
complete-IsOnProbation m i c later (now ∷ times) h =
    let (still, same, _) = tick-IsOnProbation m i now c h in
    ground (
      arith,
      same,
      complete-IsOnProbation (record_probation_tick m i now).0 i (c + 1) later times still,
    )

-- A probation starts from nothing, whatever an earlier one had counted: after `n` ticks of an agent
-- that enters it from healing, it is complete exactly when `n` is at least `probation_ticks`, and
-- the agent is in probation all along.
pub enter_probation_complete :
    (m : LifecycleManager) (i : String) (now later : ℕ) (times : List ℕ)
    → phase_of m i ≡ healing
    → let m' = probation_ticked (enter_probation m i now).0 i times in
      ((probation_complete m' i later).1 ≡ leb m.probation_ticks (length times))
      × (phase_of m' i ≡ probation)
enter_probation_complete m i now later times h =
    let st = entered (state_of m i now) probation now in
    let at_start : IsOnProbation m' i 0 =
      (st, entry-apply m i now probation reason, unfold entered in refl, unfold entered in refl) in
    ground (arith, same, entering, complete-IsOnProbation m' i 0 later times at_start)
  where
    reason : String
    reason = "healing_action_applied"

    m' : LifecycleManager
    m' = apply_transition m i probation reason now

    entering : (enter_probation m i now).0 ≡ m'
    entering =
        unfold enter_probation is_allowed allowed_transitions in
        ground (arith, h, transition_allowed m i now probation reason)

    same : m'.probation_ticks ≡ m.probation_ticks
    same = unfold apply_transition put_state in refl
