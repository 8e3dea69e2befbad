-- ===== src/Lifecycle/Escalation.antt =====
-- The window of suspicion: how many anomalous ticks it takes to drain an agent, and when a drain
-- times out (immune_system/lifecycle.py, `record_anomaly_tick`, `record_anomaly_resolved`,
-- `force_drain`, `check_drain_timeout`).
use ai_agent_immune_system.Common.{
  Bool-cases, List, Option, String, String-discrete, [], ap, arith, false, if◌then◌else◌, inl, inr,
  leb, length, ltb, refl, some, suc, true, ℕ, ◌+◌, ◌==◌, ◌∙◌, ◌∷◌, ◌≡◌, ◌⊎◌,
}
use ai_agent_immune_system.Common.Dict
use ai_agent_immune_system.Lifecycle.{
  AgentLifecycleState, AgentPhase, LifecycleManager, allowed_transitions, anomaly_tick_in,
  apply_transition, check_drain_timeout, drain_in, draining, ensure, entered, escalate, force_drain,
  get_phase, healthy, is_allowed, put_state, record_anomaly_resolved, record_anomaly_tick,
  resolved_in, state_of, suspected, transition,
}
use ai_agent_immune_system.Lifecycle.Transition.{
  phase_of, phase_of-apply, phase_of-ensure, phase_of-put_state, state_of-phase,
}

abbrev pub entry : LifecycleManager → String → Option AgentLifecycleState
entry m i = Dict.get String-discrete i m.states

-- The agent is suspected, with `c` anomalous ticks counted.
abbrev pub IsSuspected : LifecycleManager → String → ℕ → Type 0
IsSuspected m i c =
    (st : AgentLifecycleState) × (entry m i ≡ some st)
    × (st.phase ≡ suspected)
    × (st.suspect_tick_count ≡ c)

module _ (m : LifecycleManager) (i : String) where
  pub state_of-entry :
      (now : ℕ) (st : AgentLifecycleState) → entry m i ≡ some st → state_of m i now ≡ st
  unfolding state_of
  state_of-entry now st h = rw h

  -- Where the agent is known `_state` adds nothing.
  pub ensure_known : (now : ℕ) (st : AgentLifecycleState) → entry m i ≡ some st → ensure m i now ≡ m
  unfolding ensure put_state
  ensure_known now st h =
      ap (λ d. record m { states = d })
        (ap (λ s. Dict.put String-discrete i s m.states) (state_of-entry now st h)
          ∙ Dict.put_same String-discrete i st m.states h)

module _ (m : LifecycleManager) (i : String) (now : ℕ) where
  pub transition_allowed :
      (target : AgentPhase) (reason : String)
      → is_allowed (phase_of m i) target ≡ true
      → transition m i target reason now ≡ (apply_transition m i target reason now, true)
  unfolding transition
  transition_allowed target reason ok = ground (arith, state_of-phase m i now)

  pub entry-apply :
      (target : AgentPhase) (reason : String)
      → entry (apply_transition m i target reason now) i
        ≡ some (entered (state_of m i now) target now)
  unfolding apply_transition put_state
  entry-apply target reason =
      Dict.get-put_self String-discrete i (entered (state_of m i now) target now) m.states

  pub ticks-apply :
      (target : AgentPhase) (reason : String)
      → (apply_transition m i target reason now).suspect_ticks ≡ m.suspect_ticks
  unfolding apply_transition put_state
  ticks-apply target reason = refl

  -- `get_phase` after an accepted transition.
  get_phase-apply :
      (target : AgentPhase) (reason : String)
      → (get_phase (apply_transition m i target reason now) i now).0
        ≡ apply_transition m i target reason now
  unfolding get_phase
  get_phase-apply target reason = ensure_known _ i now _ (entry-apply target reason)

  pub tick_healthy :
      phase_of m i ≡ healthy
      → (record_anomaly_tick m i now).0 ≡ apply_transition m i suspected "anomaly_detected" now
  unfolding record_anomaly_tick anomaly_tick_in is_allowed allowed_transitions
  tick_healthy h = ground (
    arith,
    state_of-phase m i now,
    transition_allowed suspected "anomaly_detected",
    get_phase-apply suspected "anomaly_detected",
  )

  pub IsSuspected-apply :
      (reason : String) → IsSuspected (apply_transition m i suspected reason now) i 1
  unfolding entered
  IsSuspected-apply reason =
      (entered (state_of m i now) suspected now, entry-apply suspected reason, refl, refl)

-- A tick of a suspected agent, below the limit and at it.
module _ (m : LifecycleManager) (i : String) (now c : ℕ) (st : AgentLifecycleState)
    (known : entry m i ≡ some st) (at_phase : st.phase ≡ suspected)
    (counted : st.suspect_tick_count ≡ c) where
  abbrev bumped : LifecycleManager
  bumped = put_state m i (record st { suspect_tick_count = st.suspect_tick_count + 1 })

  entry-bumped :
      entry bumped i ≡ some (record st { suspect_tick_count = st.suspect_tick_count + 1 })
  unfolding put_state
  entry-bumped = Dict.get-put_self String-discrete i _ m.states

  ticks-bumped : bumped.suspect_ticks ≡ m.suspect_ticks
  unfolding put_state
  ticks-bumped = refl

  phase_of-bumped : phase_of bumped i ≡ suspected
  phase_of-bumped = phase_of-put_state m i _ ∙ at_phase

  tick_below : leb m.suspect_ticks (c + 1) ≡ false → (record_anomaly_tick m i now).0 ≡ bumped
  unfolding record_anomaly_tick anomaly_tick_in escalate get_phase
  tick_below few =
      ground (arith, state_of-entry m i now st known, ensure_known bumped i now _ entry-bumped)

  tick_enough :
      leb m.suspect_ticks (c + 1) ≡ true
      → (record_anomaly_tick m i now).0 ≡ apply_transition bumped i draining "anomaly_persisted" now
  unfolding record_anomaly_tick anomaly_tick_in escalate is_allowed allowed_transitions
  tick_enough enough = ground (
    arith,
    state_of-entry m i now st known,
    phase_of-bumped,
    transition_allowed bumped i now draining "anomaly_persisted",
    get_phase-apply bumped i now draining "anomaly_persisted",
  )

  pub phase-tick_enough :
      leb m.suspect_ticks (c + 1) ≡ true → phase_of (record_anomaly_tick m i now).0 i ≡ draining
  phase-tick_enough enough =
      ap (λ m'. phase_of m' i) (tick_enough enough)
      ∙ phase_of-apply bumped i draining "anomaly_persisted" now

  pub IsSuspected-tick_below :
      leb m.suspect_ticks (c + 1) ≡ false
      → IsSuspected (record_anomaly_tick m i now).0 i (suc c)
        × ((record_anomaly_tick m i now).0.suspect_ticks ≡ m.suspect_ticks)
  IsSuspected-tick_below few =
      rw (tick_below few) ((_, entry-bumped, at_phase, omega arith), ticks-bumped)

-- The anomalous ticks of one agent, at the given times.
unfoldable pub anomaly_ticks : LifecycleManager → String → List ℕ → LifecycleManager
anomaly_ticks m i [] = m
anomaly_ticks m i (now ∷ times) = anomaly_ticks (record_anomaly_tick m i now).0 i times

draining_stays :
    (m : LifecycleManager) (i : String) (times : List ℕ)
    → phase_of m i ≡ draining
    → phase_of (anomaly_ticks m i times) i ≡ draining
unfolding anomaly_ticks
draining_stays m i [] h = h
draining_stays m i (now ∷ times) h = draining_stays (record_anomaly_tick m i now).0 i times (
    unfold record_anomaly_tick anomaly_tick_in in
    ground (arith, state_of-phase m i now, phase_of-ensure m i i now))

-- The phase of an agent after `n` anomalous ticks from `healthy`.
abbrev pub escalated : ℕ → ℕ → AgentPhase
escalated suspect_ticks n =
    if n == 0
    then healthy
    else if n == 1
    then suspected
    else if ltb n suspect_ticks
    then suspected
    else draining

suspected_escalates :
    (m : LifecycleManager) (i : String) (c : ℕ) (times : List ℕ)
    → IsSuspected m i (suc c)
    → phase_of (anomaly_ticks m i times) i ≡ (
        if length times == 0
        then suspected
        else if ltb (suc c + length times) m.suspect_ticks
        then suspected
        else draining)
unfolding anomaly_ticks
suspected_escalates m i c [] (st, known, at_phase, counted) =
    unfold phase_of in ground (arith, known, at_phase)
suspected_escalates m i c (now ∷ times) (st, known, at_phase, counted) =
    elim (Bool-cases (leb m.suspect_ticks (suc c + 1))) [
      | inl enough ↦
          let drained = phase-tick_enough m i now (suc c) st known at_phase counted enough in
          ground (arith, draining_stays (record_anomaly_tick m i now).0 i times drained)
      | inr few ↦
          let (still, same) =
            IsSuspected-tick_below m i now (suc c) st known at_phase counted few in
          ground
            (arith, same, suspected_escalates (record_anomaly_tick m i now).0 i (suc c) times still)
    ]

-- An agent that is healthy is, after `n` anomalous ticks at any times, healthy (n = 0), suspected
-- (n = 1, or n below `suspect_ticks`) or draining (all other n).
pub phase_of-anomaly_ticks :
    (m : LifecycleManager) (i : String) (times : List ℕ)
    → phase_of m i ≡ healthy
    → phase_of (anomaly_ticks m i times) i ≡ escalated m.suspect_ticks (length times)
unfolding anomaly_ticks
phase_of-anomaly_ticks m i [] h = h
phase_of-anomaly_ticks m i (now ∷ times) h =
    let m' = apply_transition m i suspected "anomaly_detected" now in
    rw (tick_healthy m i now h) (
      ground (
        arith,
        ticks-apply m i now suspected "anomaly_detected",
        suspected_escalates m' i 0 times (IsSuspected-apply m i now "anomaly_detected"),
      ))

-- A suspected agent that shows no anomaly is healthy again, whatever it had counted, and a later
-- suspicion counts from the start: it takes as many ticks as for an agent never suspected.
pub resolved_restarts :
    (m : LifecycleManager) (i : String) (now : ℕ) (times : List ℕ)
    → phase_of m i ≡ suspected
    → let m' = (record_anomaly_resolved m i now).0 in
      (phase_of m' i ≡ healthy)
      × (phase_of (anomaly_ticks m' i times) i ≡ escalated m.suspect_ticks (length times))
resolved_restarts m i now times h =
    let e = resolved_suspected in
    rw e (
      phase_of-apply m i healthy "anomaly_resolved" now,
      phase_of-anomaly_ticks (apply_transition m i healthy "anomaly_resolved" now) i times
            (phase_of-apply m i healthy "anomaly_resolved" now)
          ∙ ap (λ n. escalated n (length times)) (ticks-apply m i now healthy "anomaly_resolved"),
    )
  where
    resolved_suspected :
        (record_anomaly_resolved m i now).0 ≡ apply_transition m i healthy "anomaly_resolved" now
    resolved_suspected =
        unfold record_anomaly_resolved resolved_in is_allowed allowed_transitions in
        ground
          (arith, h, state_of-phase m i now, transition_allowed m i now healthy "anomaly_resolved")

-- The drain of an agent that starts at `now`.
timeout-apply :
    (m : LifecycleManager) (i : String) (reason : String) (now later : ℕ)
    → (check_drain_timeout (apply_transition m i draining reason now) i later).1
      ≡ leb (now + m.drain_timeout_s) later
unfolding check_drain_timeout entered
timeout-apply m i reason now later =
    let st = entered (state_of m i now) draining now in
    ground (
      arith,
      state_of-entry (apply_transition m i draining reason now) i later st
          (entry-apply m i now draining reason),
      limit-apply,
    )
  where
    limit-apply : (apply_transition m i draining reason now).drain_timeout_s ≡ m.drain_timeout_s
    limit-apply = unfold apply_transition put_state in refl

-- An order to drain skips what is left of the window: for a healthy or a suspected agent it is
-- accepted, the agent is draining after it, and the drain has timed out at `later` exactly when the
-- timeout has passed since the order.
pub force_drain_lem :
    (m : LifecycleManager) (i : String) (reason : String) (now later : ℕ)
    → (phase_of m i ≡ healthy) ⊎ (phase_of m i ≡ suspected)
    → let m' = (force_drain m i reason now).0 in
      ((force_drain m i reason now).1 ≡ true)
      × (phase_of m' i ≡ draining)
      × ((check_drain_timeout m' i later).1 ≡ leb (now + m.drain_timeout_s) later)
unfolding force_drain drain_in is_allowed allowed_transitions
force_drain_lem m i reason now later (inl h) =
    let m₁ = apply_transition m i suspected reason now in
    ground (
      arith,
      state_of-phase m i now,
      transition_allowed m i now suspected reason,
      phase_of-apply m i suspected reason now,
      transition_allowed m₁ i now draining reason,
      phase_of-apply m₁ i draining reason now,
      timeout-apply m₁ i reason now later,
      limit,
    )
  where
    limit : (apply_transition m i suspected reason now).drain_timeout_s ≡ m.drain_timeout_s
    limit = unfold apply_transition put_state in refl
force_drain_lem m i reason now later (inr h) = ground (
  arith,
  state_of-phase m i now,
  transition_allowed m i now draining reason,
  phase_of-apply m i draining reason now,
  timeout-apply m i reason now later,
)
