-- ===== src/Tests/Lifecycles.antt =====
-- The lifecycle's theorems at concrete managers.
use ai_agent_immune_system.Common.{
  Any, List, String, String-discrete, [], ap, false, if◌then◌else◌, inl, ite, leb, none, refl, some,
  true, ℕ, ◌++◌, ◌+◌, ◌∷◌, ◌≡◌, ◌⊎◌,
}
use ai_agent_immune_system.Common.Dict
use ai_agent_immune_system.Lifecycle.{
  AgentPhase, LifecycleManager, TransitionEvent, allows_execution, check_drain_timeout, draining,
  enter_probation, force_drain, healing, healthy, is_allowed, probation, probation_complete,
  quarantined, state_of, suspected, transition,
}
use ai_agent_immune_system.Lifecycle
use ai_agent_immune_system.Lifecycle.Probation.{enter_probation_complete, probation_ticked}
use ai_agent_immune_system.Lifecycle.Escalation.{
  anomaly_ticks, escalated, force_drain_lem, phase_of-anomaly_ticks,
}
use ai_agent_immune_system.Lifecycle.Transition.{event_of, moved_to, phase_of, transition_lem}
use ai_agent_immune_system.Lifecycle.Log.{Explains}
use ai_agent_immune_system.Lifecycle.Calls.{
  Call, IsHealed, release_needs_healing, resets, run, run-Explains, step,
}

-- One agent, in the given phase.
abbrev manager_in : AgentPhase → LifecycleManager
manager_in p = record {
  suspect_ticks = 3;
  drain_timeout_s = 30;
  probation_ticks = 2;
  states =
      (
        "a",
        record {
          phase = p;
          suspect_tick_count = 1;
          drain_started_at = none;
          probation_tick_count = 7;
          last_transition_at = 5;
        },
      )
      ∷ [];
  history = [];
}

manager_in-phase : (p : AgentPhase) → phase_of (manager_in p) "a" ≡ p
unfolding phase_of Dict.get String-discrete
manager_in-phase p = refl

transition_lem_example :
    let m = manager_in healthy in
    let okay = is_allowed (phase_of m "a") suspected in
    let m' = (transition m "a" suspected "test" 9).0 in
    ((transition m "a" suspected "test" 9).1 ≡ okay)
    × (Dict.get String-discrete "b" m'.states
        ≡ ite
            (String-discrete "a" "b")
            (some (if okay then moved_to suspected (state_of m "a" 9) 9 else state_of m "a" 9))
            (Dict.get String-discrete "b" m.states))
    × (phase_of m' "b" ≡ (
        if okay then ite (String-discrete "a" "b") suspected (phase_of m "b") else phase_of m "b"))
    × (m'.history
        ≡ (if okay then m.history ++ event_of m "a" suspected "test" 9 ∷ [] else m.history))
transition_lem_example = transition_lem (manager_in healthy) "a" "b" suspected "test" 9

-- Three anomalous ticks, the drain and the healing of one agent.
abbrev calls : List (String × ℕ × Call)
calls =
    ("a", 1, Call.record_anomaly_tick)
    ∷ ("a", 2, Call.record_anomaly_tick)
    ∷ ("a", 3, Call.record_anomaly_tick)
    ∷ ("a", 4, Call.complete_drain)
    ∷ ("a", 5, Call.start_healing "test")
    ∷ ("a", 6, Call.enter_probation)
    ∷ ("a", 7, Call.reset)
    ∷ []

run-Explains_example : Explains (resets calls) (manager_in healthy) (run (manager_in healthy) calls)
run-Explains_example = run-Explains (manager_in healthy) calls

abbrev healing_calls : List (String × ℕ × Call)
healing_calls = ("a", 5, Call.start_healing "test") ∷ ("a", 6, Call.enter_probation) ∷ []

blocked_before : allows_execution (phase_of (manager_in quarantined) "a") ≡ false
blocked_before = ap allows_execution (manager_in-phase quarantined)

allowed_after : allows_execution (phase_of (run (manager_in quarantined) healing_calls) "a") ≡ true
unfolding run step Lifecycle.start_healing Lifecycle.enter_probation Lifecycle.transition
    Lifecycle.is_allowed Lifecycle.allowed_transitions Lifecycle.apply_transition Lifecycle.state_of
    Lifecycle.put_state Lifecycle.entered Lifecycle.AgentPhase-discrete phase_of Dict.get Dict.put
    String-discrete
allowed_after = refl

release_needs_healing_example :
    let m = manager_in quarantined in
    ((es : List TransitionEvent) × ((run m healing_calls).history ≡ m.history ++ es)
      × Any (IsHealed "a") es)
    ⊎ Any (λ i. i ≡ "a") (resets healing_calls)
release_needs_healing_example =
    release_needs_healing (manager_in quarantined) healing_calls "a" blocked_before allowed_after

abbrev times : List ℕ
times = 1 ∷ 2 ∷ 3 ∷ []

phase_of-anomaly_ticks_example :
    phase_of (anomaly_ticks (manager_in healthy) "a" times) "a" ≡ escalated 3 3
phase_of-anomaly_ticks_example =
    phase_of-anomaly_ticks (manager_in healthy) "a" times (manager_in-phase healthy)

force_drain_lem_example :
    let m = manager_in healthy in
    let m' = (force_drain m "a" "severe_anomaly" 9).0 in
    ((force_drain m "a" "severe_anomaly" 9).1 ≡ true)
    × (phase_of m' "a" ≡ draining)
    × ((check_drain_timeout m' "a" 39).1 ≡ leb (9 + 30) 39)
force_drain_lem_example =
    force_drain_lem (manager_in healthy) "a" "severe_anomaly" 9 39 (inl (manager_in-phase healthy))

enter_probation_complete_example :
    let m' = probation_ticked (enter_probation (manager_in healing) "a" 9).0 "a" times in
    ((probation_complete m' "a" 20).1 ≡ leb 2 3) × (phase_of m' "a" ≡ probation)
enter_probation_complete_example =
    enter_probation_complete (manager_in healing) "a" 9 20 times (manager_in-phase healing)
