-- ===== src/Lifecycle/Transition.antt =====
-- What a transition does (immune_system/lifecycle.py, `transition` and the methods around it), in
-- terms of the phase of each agent and of the history.
use ai_agent_immune_system.Common.{
  String, String-discrete, [], arith, if◌then◌else◌, ite, none, refl, some, ℕ, ◌++◌, ◌∙◌, ◌∷◌, ◌≡◌,
  ◌≢◌,
}
use ai_agent_immune_system.Common.Dict
use ai_agent_immune_system.Lifecycle.{
  AgentLifecycleState, AgentPhase, AgentPhase-discrete, LifecycleManager, TransitionEvent,
  apply_transition, draining, ensure, entered, initializing, is_allowed, probation, put_state,
  state_of, suspected, transition,
}

-- The phase of an agent: that of its entry, or `initializing` where it has none.
unfoldable pub phase_of : LifecycleManager → String → AgentPhase
phase_of m agent_id = elim (Dict.get String-discrete agent_id m.states) [
  | none ↦ initializing
  | some st ↦ st.phase
]

pub state_of-phase :
    (m : LifecycleManager) (i : String) (now : ℕ) → (state_of m i now).phase ≡ phase_of m i
unfolding state_of phase_of
state_of-phase m i now = ground arith

pub phase_of-put_state :
    (m : LifecycleManager) (i : String) (st : AgentLifecycleState)
    → phase_of (put_state m i st) i ≡ st.phase
unfolding put_state phase_of
phase_of-put_state m i st = ground (arith, Dict.get-put_self String-discrete i st m.states)

pub phase_of-put_state_ne :
    (m : LifecycleManager) (i j : String) (st : AgentLifecycleState)
    → i ≢ j
    → phase_of (put_state m i st) j ≡ phase_of m j
unfolding put_state phase_of
phase_of-put_state_ne m i j st h = ground (arith, Dict.get-put_ne String-discrete j i st m.states h)

-- Storing a state whose phase is the old one changes no agent's phase.
pub phase_of-put_same :
    (m : LifecycleManager) (i j : String) (st : AgentLifecycleState)
    → st.phase ≡ phase_of m i
    → phase_of (put_state m i st) j ≡ phase_of m j
unfolding put_state phase_of
phase_of-put_same m i j st h = ground (arith, Dict.get-put String-discrete j i st m.states)

pub phase_of-ensure :
    (m : LifecycleManager) (i j : String) (now : ℕ) → phase_of (ensure m i now) j ≡ phase_of m j
unfolding ensure
phase_of-ensure m i j now = phase_of-put_same m i j (state_of m i now) (state_of-phase m i now)

entered-phase : (st : AgentLifecycleState) (p : AgentPhase) (now : ℕ) → (entered st p now).phase ≡ p
unfolding entered
entered-phase st suspected now = refl
entered-phase st p now = refl

-- The event that a transition of agent `i` to `target` appends.
abbrev pub event_of : LifecycleManager → String → AgentPhase → String → ℕ → TransitionEvent
event_of m i target reason now = record {
  agent_id = i;
  from_phase = phase_of m i;
  to_phase = target;
  reason = reason;
  timestamp = now;
}

pub phase_of-apply :
    (m : LifecycleManager) (i : String) (target : AgentPhase) (reason : String) (now : ℕ)
    → phase_of (apply_transition m i target reason now) i ≡ target
unfolding apply_transition phase_of
phase_of-apply m i target reason now =
    phase_of-put_state m i (entered (state_of m i now) target now)
    ∙ entered-phase (state_of m i now) target now

phase_of-apply_ne :
    (m : LifecycleManager) (i j : String) (target : AgentPhase) (reason : String) (now : ℕ)
    → i ≢ j
    → phase_of (apply_transition m i target reason now) j ≡ phase_of m j
unfolding apply_transition phase_of
phase_of-apply_ne m i j target reason now h =
    phase_of-put_state_ne m i j (entered (state_of m i now) target now) h

history-apply :
    (m : LifecycleManager) (i : String) (target : AgentPhase) (reason : String) (now : ℕ)
    → (apply_transition m i target reason now).history
      ≡ m.history ++ event_of m i target reason now ∷ []
unfolding apply_transition put_state
history-apply m i target reason now = rw (state_of-phase m i now)

-- The effect of `transition` on the agent itself and on every other agent.
pub transition_parts :
    (m : LifecycleManager) (i : String) (target : AgentPhase) (reason : String) (now : ℕ)
    → let ok = is_allowed (phase_of m i) target in
      let m' = (transition m i target reason now).0 in
      ((transition m i target reason now).1 ≡ ok)
      × (phase_of m' i ≡ (if ok then target else phase_of m i))
      × (m'.history ≡ (if ok then m.history ++ event_of m i target reason now ∷ [] else m.history))
      × ((j : String) → i ≢ j → phase_of m' j ≡ phase_of m j)
unfolding transition ensure put_state
transition_parts m i target reason now = (
  ground (arith, state_of-phase m i now),
  ground (
    arith,
    state_of-phase m i now,
    phase_of-apply m i target reason now,
    phase_of-ensure m i i now,
  ),
  ground (arith, state_of-phase m i now, history-apply m i target reason now),
  λ j h. ground (arith, phase_of-apply_ne m i j target reason now h, phase_of-ensure m i j now),
)

-- The entry of an agent after it moves to a phase: the time is noted, the suspicion is counted from 1
-- and the probation from 0, and a drain starts.
abbrev pub moved_to : AgentPhase → AgentLifecycleState → ℕ → AgentLifecycleState
moved_to target st now = record {
  phase = target;
  suspect_tick_count = ite (AgentPhase-discrete target suspected) 1 st.suspect_tick_count;
  drain_started_at = ite (AgentPhase-discrete target draining) (some now) st.drain_started_at;
  probation_tick_count = ite (AgentPhase-discrete target probation) 0 st.probation_tick_count;
  last_transition_at = now;
}

entered-moved_to :
    (st : AgentLifecycleState) (target : AgentPhase) (now : ℕ)
    → entered st target now ≡ moved_to target st now
unfolding entered AgentPhase-discrete
entered-moved_to st initializing now = refl
entered-moved_to st AgentPhase.healthy now = refl
entered-moved_to st suspected now = refl
entered-moved_to st draining now = refl
entered-moved_to st AgentPhase.quarantined now = refl
entered-moved_to st AgentPhase.healing now = refl
entered-moved_to st probation now = refl
entered-moved_to st AgentPhase.exhausted now = refl

-- The effect of `transition` on the entry of the agent itself and of every other agent.
transition_entry :
    (m : LifecycleManager) (i j : String) (target : AgentPhase) (reason : String) (now : ℕ)
    → let st = state_of m i now in
      Dict.get String-discrete j (transition m i target reason now).0.states
      ≡ ite
          (String-discrete i j)
          (some (if is_allowed (phase_of m i) target then moved_to target st now else st))
          (Dict.get String-discrete j m.states)
unfolding transition apply_transition ensure put_state
transition_entry m i j target reason now = ground (
  arith,
  state_of-phase m i now,
  entered-moved_to (state_of m i now) target now,
  Dict.get-put String-discrete j i (entered (state_of m i now) target now) m.states,
  Dict.get-put String-discrete j i (state_of m i now) m.states,
)

-- What `transition`, accepted or refused, leaves of the entry of any agent `j` and of the history: it
-- returns whether the table has an edge from the phase of agent `i` to the target. Exactly then `i`
-- moves to the target and one event is appended that records the move; the entry of `i` then has the
-- time of the move, a suspicion counted from 1 in the phase suspected, a drain that starts now in the
-- phase draining, a probation counted from 0 in the phase probation, and its other fields. Refused, it
-- keeps the entry of `i`, a fresh one where there was none. Every other agent keeps its entry.
pub transition_lem :
    (m : LifecycleManager) (i j : String) (target : AgentPhase) (reason : String) (now : ℕ)
    → let ok = is_allowed (phase_of m i) target in
      let st = state_of m i now in
      let m' = (transition m i target reason now).0 in
      ((transition m i target reason now).1 ≡ ok)
      × (Dict.get String-discrete j m'.states
          ≡ ite
              (String-discrete i j)
              (some (if ok then moved_to target st now else st))
              (Dict.get String-discrete j m.states))
      × (phase_of m' j
          ≡ (if ok then ite (String-discrete i j) target (phase_of m j) else phase_of m j))
      × (m'.history ≡ (if ok then m.history ++ event_of m i target reason now ∷ [] else m.history))
transition_lem m i j target reason now =
    let (returned, moved, grown, kept) = transition_parts m i target reason now in
    (
      returned,
      transition_entry m i j target reason now,
      elim (String-discrete i j) [
        | yes same ↦ ground (arith, same, moved)
        | no other ↦ ground (arith, other, kept j other)
      ],
      grown,
    )
