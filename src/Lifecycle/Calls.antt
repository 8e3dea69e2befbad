-- ===== src/Lifecycle/Calls.antt =====
-- Runs of the lifecycle manager: any sequence of its calls, at any times, for any agents
-- (immune_system/lifecycle.py). `get_history` is left out: it changes nothing.
use ai_agent_immune_system.Common.{
  Any, Bool-cases, List, Option-cases, String, String-discrete, [], arith, false, inl, inr, leb,
  refl, some, subst, true, ℕ, ◌++◌, ◌+◌, ◌∷◌, ◌≡◌, ◌⊎◌,
}
use ai_agent_immune_system.Lifecycle
use ai_agent_immune_system.Lifecycle.{
  AgentPhase, LifecycleManager, TransitionEvent, allowed_transitions, allows_execution, draining,
  ensure, exhausted, healing, healthy, is_allowed, probation, put_state, quarantined, state_of,
  suspected,
}
use ai_agent_immune_system.Lifecycle.Transition.{phase_of, state_of-phase}
use ai_agent_immune_system.Lifecycle.Log.{
  Explains, Explains-reset, Explains-trans, Follows-Explains, Mark, events, forgot, forgotten,
  moved, relive,
}
use ai_agent_immune_system.Lifecycle.History.{
  Follows, Follows-ensure, Follows-put_state, Follows-same, Follows-trans, Follows-transition,
  advance,
}

pub data Call : Type 0 where
  get_phase : Call
  transition : AgentPhase → String → Call
  mark_baseline_ready : Call
  record_anomaly_tick : Call
  record_anomaly_resolved : Call
  force_drain : String → Call
  check_drain_timeout : Call
  complete_drain : Call
  start_healing : String → Call
  enter_probation : Call
  record_probation_tick : Call
  probation_complete : Call
  mark_healthy : String → Call
  mark_exhausted : Call
  is_execution_allowed : Call
  is_blocked : Call
  reset : Call

-- The manager after one call.
unfoldable pub step : LifecycleManager → String → ℕ → Call → LifecycleManager
step m i now get_phase = (Lifecycle.get_phase m i now).0
step m i now (transition target reason) = (Lifecycle.transition m i target reason now).0
step m i now mark_baseline_ready = (Lifecycle.mark_baseline_ready m i now).0
step m i now record_anomaly_tick = (Lifecycle.record_anomaly_tick m i now).0
step m i now record_anomaly_resolved = (Lifecycle.record_anomaly_resolved m i now).0
step m i now (force_drain reason) = (Lifecycle.force_drain m i reason now).0
step m i now check_drain_timeout = (Lifecycle.check_drain_timeout m i now).0
step m i now complete_drain = (Lifecycle.complete_drain m i now).0
step m i now (start_healing reason) = (Lifecycle.start_healing m i reason now).0
step m i now enter_probation = (Lifecycle.enter_probation m i now).0
step m i now record_probation_tick = (Lifecycle.record_probation_tick m i now).0
step m i now probation_complete = (Lifecycle.probation_complete m i now).0
step m i now (mark_healthy reason) = (Lifecycle.mark_healthy m i reason now).0
step m i now mark_exhausted = (Lifecycle.mark_exhausted m i now).0
step m i now is_execution_allowed = (Lifecycle.is_execution_allowed m i now).0
step m i now is_blocked = (Lifecycle.is_blocked m i now).0
step m i now reset = Lifecycle.reset m i

unfoldable pub run : LifecycleManager → List (String × ℕ × Call) → LifecycleManager
run m [] = m
run m ((i, now, c) ∷ calls) = run (step m i now c) calls

-- The agents that a call resets, and those that a run does, in order.
abbrev pub reset_by : String → Call → List String
reset_by i reset = i ∷ []
reset_by i _ = []

abbrev pub resets : List (String × ℕ × Call) → List String
resets [] = []
resets ((i, now, c) ∷ calls) = reset_by i c ++ resets calls

module _ (m : LifecycleManager) (i : String) (now : ℕ) where
  Follows-transition-ensure :
      (target : AgentPhase) (reason : String)
      → Follows m (ensure (Lifecycle.transition m i target reason now).0 i now)
  Follows-transition-ensure target reason =
      let m' = (Lifecycle.transition m i target reason now).0 in
      Follows-trans m m' (ensure m' i now) (Follows-transition m i target reason now)
        (Follows-ensure m' i now)

module _ (m : LifecycleManager) (i : String) (now : ℕ) where
  Follows-escalate : Follows m (Lifecycle.escalate m i now).0
  unfolding Lifecycle.escalate Lifecycle.get_phase
  Follows-escalate =
      let st = state_of m i now in
      let counted = record st { suspect_tick_count = st.suspect_tick_count + 1 } in
      let m' = put_state m i counted in
      let before = Follows-put_state m i counted (state_of-phase m i now) in
      elim (Bool-cases (leb m.suspect_ticks counted.suspect_tick_count)) [
        | inl enough ↦ rw enough (
            Follows-trans m m' _ before
              (Follows-transition-ensure m' i now draining "anomaly_persisted"))
        | inr few ↦ rw few (Follows-trans m m' _ before (Follows-ensure m' i now))
      ]

  Follows-anomaly_tick_in : (p : AgentPhase) → Follows m (Lifecycle.anomaly_tick_in p m i now).0
  unfolding Lifecycle.anomaly_tick_in Lifecycle.get_phase
  Follows-anomaly_tick_in healthy = Follows-transition-ensure m i now suspected "anomaly_detected"
  Follows-anomaly_tick_in suspected = Follows-escalate
  Follows-anomaly_tick_in _ = Follows-ensure m i now

  Follows-resolved_in : (p : AgentPhase) → Follows m (Lifecycle.resolved_in p m i now).0
  unfolding Lifecycle.resolved_in
  Follows-resolved_in suspected = Follows-transition m i healthy "anomaly_resolved" now
  Follows-resolved_in _ = Follows-ensure m i now

  Follows-drain_in :
      (p : AgentPhase) (reason : String) → Follows m (Lifecycle.drain_in p m i reason now).0
  unfolding Lifecycle.drain_in
  Follows-drain_in healthy reason =
      let m' = (Lifecycle.transition m i suspected reason now).0 in
      Follows-trans m m' _ (Follows-transition m i suspected reason now)
        (Follows-transition m' i draining reason now)
  Follows-drain_in suspected reason = Follows-transition m i draining reason now
  Follows-drain_in _ reason = Follows-ensure m i now

  Follows-probation_tick_in : (p : AgentPhase) → Follows m (Lifecycle.probation_tick_in p m i now).0
  unfolding Lifecycle.probation_tick_in
  Follows-probation_tick_in probation = Follows-put_state m i _ (state_of-phase m i now)
  Follows-probation_tick_in _ = Follows-ensure m i now

  Explains-step : (c : Call) → Explains (reset_by i c) m (step m i now c)
  unfolding step Lifecycle.get_phase Lifecycle.mark_baseline_ready Lifecycle.record_anomaly_tick
      Lifecycle.record_anomaly_resolved Lifecycle.force_drain Lifecycle.check_drain_timeout
      Lifecycle.complete_drain Lifecycle.start_healing Lifecycle.enter_probation
      Lifecycle.record_probation_tick Lifecycle.probation_complete Lifecycle.mark_healthy
      Lifecycle.mark_exhausted Lifecycle.is_execution_allowed Lifecycle.is_blocked
  Explains-step get_phase = Follows-Explains m _ (Follows-ensure m i now)
  Explains-step (transition target reason) =
      Follows-Explains m _ (Follows-transition m i target reason now)
  Explains-step mark_baseline_ready =
      Follows-Explains m _ (Follows-transition m i healthy "baseline_ready" now)
  Explains-step record_anomaly_tick =
      Follows-Explains m _ (Follows-anomaly_tick_in (state_of m i now).phase)
  Explains-step record_anomaly_resolved =
      Follows-Explains m _ (Follows-resolved_in (state_of m i now).phase)
  Explains-step (force_drain reason) =
      Follows-Explains m _ (Follows-drain_in (state_of m i now).phase reason)
  Explains-step check_drain_timeout = Follows-Explains m _ (Follows-ensure m i now)
  Explains-step complete_drain =
      Follows-Explains m _ (Follows-transition m i quarantined "drain_complete" now)
  Explains-step (start_healing reason) =
      Follows-Explains m _ (Follows-transition m i healing reason now)
  Explains-step enter_probation =
      Follows-Explains m _ (Follows-transition m i probation "healing_action_applied" now)
  Explains-step record_probation_tick =
      Follows-Explains m _ (Follows-probation_tick_in (state_of m i now).phase)
  Explains-step probation_complete = Follows-Explains m _ (Follows-ensure m i now)
  Explains-step (mark_healthy reason) =
      Follows-Explains m _ (Follows-transition m i healthy reason now)
  Explains-step mark_exhausted =
      Follows-Explains m _ (Follows-transition m i exhausted "all_actions_exhausted" now)
  Explains-step is_execution_allowed = Follows-Explains m _ (Follows-ensure m i now)
  Explains-step is_blocked = Follows-Explains m _ (Follows-ensure m i now)
  Explains-step reset = Explains-reset m i

-- Every run only appends to the history. What it appends, with a mark for each of its resets put in
-- between in their order, is a legal log of every agent, from its phase before the run to its phase
-- after it: each event of the agent starts at the phase that the one before left, and follows an edge
-- of the table, and a reset starts the agent anew in the phase initializing.
pub run-Explains :
    (m : LifecycleManager) (calls : List (String × ℕ × Call))
    → Explains (resets calls) m (run m calls)
unfolding run
run-Explains m [] = Follows-Explains m m (Follows-same m m refl (λ j. refl))
run-Explains m ((i, now, c) ∷ calls) =
    let m' = step m i now c in
    Explains-trans (reset_by i c) (resets calls) m m' (run m' calls) (Explains-step m i now c)
      (run-Explains m' calls)

-- The event of a heal that put the agent into probation.
abbrev pub IsHealed : String → TransitionEvent → Type 0
IsHealed j e = (e.agent_id ≡ j) × (e.from_phase ≡ healing) × (e.to_phase ≡ probation)

edge_from_blocked :
    (p t : AgentPhase)
    → allows_execution p ≡ false
    → is_allowed p t ≡ true
    → ((p ≡ healing) × (t ≡ probation)) ⊎ (allows_execution t ≡ false)
unfolding is_allowed allowed_transitions
edge_from_blocked p t blocked edge = ground arith

advance_from_blocked :
    (j : String) (p q : AgentPhase) (e : TransitionEvent)
    → advance j p e ≡ some q
    → allows_execution p ≡ false
    → IsHealed j e ⊎ (allows_execution q ≡ false)
unfolding advance
advance_from_blocked j p q e h blocked = ground (arith, edge_from_blocked p e.to_phase blocked)

-- A log that leads an agent from a phase that blocks execution to one that allows it has such an event
-- or forgets the agent.
relive_needs_healing :
    (j : String) (p q : AgentPhase) (ms : List Mark)
    → relive j p ms ≡ some q
    → allows_execution p ≡ false
    → allows_execution q ≡ true
    → Any (IsHealed j) (events ms) ⊎ Any (λ i. i ≡ j) (forgotten ms)
unfolding relive events forgotten
relive_needs_healing j p q [] h blocked free = ground arith
relive_needs_healing j p q (moved e ∷ ms) h blocked free = elim (Option-cases (advance j p e)) [
  | inl stuck ↦ ground (arith, stuck)
  | inr (r, advanced) ↦ elim (advance_from_blocked j p r e advanced blocked) [
    | inl healed ↦ inl (inl healed)
    | inr still ↦ elim (relive_needs_healing j r q ms (ground (arith, advanced)) still free) [
      | inl healed ↦ inl (inr healed)
      | inr anew ↦ inr anew
    ]
  ]
]
relive_needs_healing j p q (forgot i ∷ ms) h blocked free = elim (String-discrete i j) [
  | yes same ↦ inr (inl same)
  | no other ↦ elim (relive_needs_healing j p q ms (ground (arith, other)) blocked free) [
    | inl healed ↦ inl healed
    | inr anew ↦ inr (inr anew)
  ]
]

-- No run takes an agent from a phase that blocks execution (draining, quarantined, healing,
-- exhausted) to one that allows it without an event, appended by that run, in which the agent goes
-- from healing to probation, unless one of the calls of the run resets the agent.
pub release_needs_healing :
    (m : LifecycleManager) (calls : List (String × ℕ × Call)) (j : String)
    → allows_execution (phase_of m j) ≡ false
    → allows_execution (phase_of (run m calls) j) ≡ true
    → ((es : List TransitionEvent) × ((run m calls).history ≡ m.history ++ es)
        × Any (IsHealed j) es)
      ⊎ Any (λ i. i ≡ j) (resets calls)
release_needs_healing m calls j blocked free =
    let (ms, grown, named, legal) = run-Explains m calls in
    elim (relive_needs_healing j _ _ ms (legal j) blocked free) [
      | inl healed ↦ inl (events ms, grown, healed)
      | inr anew ↦ inr (subst (Any (λ i. i ≡ j)) named anew)
    ]
