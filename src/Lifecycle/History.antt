-- ===== src/Lifecycle/History.antt =====
-- The history against the phases: whatever the calls, the events that a run appends lead each agent,
-- along edges of the table, from its phase before the run to its phase after it
-- (immune_system/lifecycle.py, every method of `LifecycleManager` but `reset`; Log has that one).
use ai_agent_immune_system.Common.{
  Bool-cases, List, Option, Option-cases, String, String-discrete, [], ap, append-nil, append_assoc,
  arith, if◌then◌else◌, inl, inr, ite, none, refl, some, sym, true, ℕ, ◌++◌, ◌∙◌, ◌∷◌, ◌≡◌,
}
use ai_agent_immune_system.Lifecycle
use ai_agent_immune_system.Lifecycle.{
  AgentLifecycleState, AgentPhase, AgentPhase-discrete, LifecycleManager, TransitionEvent, ensure,
  is_allowed, put_state, state_of,
}
use ai_agent_immune_system.Lifecycle.Transition.{
  event_of, phase_of, phase_of-put_same, state_of-phase, transition_parts,
}

-- One event, as agent `j` in phase `p` sees it: those of other agents leave it alone, and its own
-- must start at its phase and follow an edge of the table.
unfoldable pub advance : String → AgentPhase → TransitionEvent → Option AgentPhase
advance j p e =
    ite (String-discrete e.agent_id j)
      (ite (AgentPhase-discrete e.from_phase p)
        (if is_allowed p e.to_phase then some e.to_phase else none) none)
      (some p)

-- The phase to which a history leads agent `j` from phase `p`, if it is a legal history.
unfoldable pub replay : String → AgentPhase → List TransitionEvent → Option AgentPhase
replay j p [] = some p
replay j p (e ∷ es) = elim (advance j p e) [ none ↦ none | some q ↦ replay j q es ]

replay-append :
    (j : String) (p q : AgentPhase) (es fs : List TransitionEvent)
    → replay j p es ≡ some q
    → replay j p (es ++ fs) ≡ replay j q fs
unfolding replay
replay-append j p q [] fs h = ground arith
replay-append j p q (e ∷ es) fs h = elim (Option-cases (advance j p e)) [
  | inl stuck ↦ ground (arith, stuck)
  | inr (r, moved) ↦ ground (arith, moved, replay-append j r q es fs)
]

-- The events that lead from one manager to another.
abbrev pub Follows : LifecycleManager → LifecycleManager → Type 0
Follows m m' =
    (es : List TransitionEvent) × (m'.history ≡ m.history ++ es)
    × ((j : String) → replay j (phase_of m j) es ≡ some (phase_of m' j))

pub Follows-trans : (m m' m'' : LifecycleManager) → Follows m m' → Follows m' m'' → Follows m m''
Follows-trans m m' m'' (es, grown, legal) (fs, grown', legal') = (
  es ++ fs,
  grown' ∙ ap (λ h. h ++ fs) grown ∙ append_assoc m.history es fs,
  λ j. replay-append j (phase_of m j) (phase_of m' j) es fs (legal j) ∙ legal' j,
)

pub Follows-same :
    (m m' : LifecycleManager)
    → m'.history ≡ m.history
    → ((j : String) → phase_of m' j ≡ phase_of m j)
    → Follows m m'
unfolding replay
Follows-same m m' grown kept = ([], grown ∙ sym (append-nil m.history), λ j. ap some (sym (kept j)))

replay_one :
    (m : LifecycleManager) (i j : String) (target : AgentPhase) (reason : String) (now : ℕ)
    → is_allowed (phase_of m i) target ≡ true
    → replay j (phase_of m j) (event_of m i target reason now ∷ [])
      ≡ some (phase_of (Lifecycle.transition m i target reason now).0 j)
unfolding replay advance
replay_one m i j target reason now ok =
    let (_, moved, _, kept) = transition_parts m i target reason now in
    elim (String-discrete i j) [
      | yes same ↦ ground (arith, same, ok, moved)
      | no other ↦ ground (arith, kept j other)
    ]

pub Follows-transition :
    (m : LifecycleManager) (i : String) (target : AgentPhase) (reason : String) (now : ℕ)
    → Follows m (Lifecycle.transition m i target reason now).0
Follows-transition m i target reason now =
    let (_, moved, grown, kept) = transition_parts m i target reason now in
    elim (Bool-cases (is_allowed (phase_of m i) target)) [
      | inl ok ↦ (
        event_of m i target reason now ∷ [],
        ground (arith, ok, grown),
        λ j. replay_one m i j target reason now ok,
      )
      | inr refused ↦ Follows-same m _ (ground (arith, refused, grown)) (λ j.
          elim (String-discrete i j) [
            | yes same ↦ ground (arith, same, refused, moved)
            | no other ↦ kept j other
          ])
    ]

pub Follows-put_state :
    (m : LifecycleManager) (i : String) (st : AgentLifecycleState)
    → st.phase ≡ phase_of m i
    → Follows m (put_state m i st)
unfolding put_state
Follows-put_state m i st h =
    Follows-same m (put_state m i st) refl (λ j. phase_of-put_same m i j st h)

pub Follows-ensure : (m : LifecycleManager) (i : String) (now : ℕ) → Follows m (ensure m i now)
unfolding ensure
Follows-ensure m i now = Follows-put_state m i (state_of m i now) (state_of-phase m i now)
