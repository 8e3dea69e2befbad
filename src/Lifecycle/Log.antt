-- ===== src/Lifecycle/Log.antt =====
-- Histories with resets: what the calls of a run leave behind, the events of the history and the agents
-- that `reset` forgets, which the history does not mention (immune_system/lifecycle.py).
use ai_agent_immune_system.Common.{
  List, Option, Option-cases, String, String-discrete, [], ap, append-nil, append_assoc, arith, inl,
  inr, ite, map, none, refl, some, sym, ◌++◌, ◌∙◌, ◌∷◌, ◌≡◌,
}
use ai_agent_immune_system.Common.Dict
use ai_agent_immune_system.Lifecycle
use ai_agent_immune_system.Lifecycle.{AgentPhase, LifecycleManager, TransitionEvent, initializing}
use ai_agent_immune_system.Lifecycle.Transition.{phase_of}
use ai_agent_immune_system.Lifecycle.History.{Follows, advance, replay}

-- A step of a run that changes a phase: an event of the history, or an agent forgotten.
pub data Mark : Type 0 where
  moved : TransitionEvent → Mark
  forgot : String → Mark

unfoldable pub events : List Mark → List TransitionEvent
events [] = []
events (moved e ∷ ms) = e ∷ events ms
events (forgot i ∷ ms) = events ms

unfoldable pub forgotten : List Mark → List String
forgotten [] = []
forgotten (moved e ∷ ms) = forgotten ms
forgotten (forgot i ∷ ms) = i ∷ forgotten ms

-- The phase to which a log leads agent `j` from phase `p`, if it is a legal one: an agent that is
-- forgotten starts anew.
unfoldable pub relive : String → AgentPhase → List Mark → Option AgentPhase
relive j p [] = some p
relive j p (moved e ∷ ms) = elim (advance j p e) [ none ↦ none | some q ↦ relive j q ms ]
relive j p (forgot i ∷ ms) = ite (String-discrete i j) (relive j initializing ms) (relive j p ms)

events-append : (ms ns : List Mark) → events (ms ++ ns) ≡ events ms ++ events ns
unfolding events
events-append [] ns = refl
events-append (moved e ∷ ms) ns = ap (λ es. e ∷ es) (events-append ms ns)
events-append (forgot i ∷ ms) ns = events-append ms ns

forgotten-append : (ms ns : List Mark) → forgotten (ms ++ ns) ≡ forgotten ms ++ forgotten ns
unfolding forgotten
forgotten-append [] ns = refl
forgotten-append (moved e ∷ ms) ns = forgotten-append ms ns
forgotten-append (forgot i ∷ ms) ns = ap (λ is. i ∷ is) (forgotten-append ms ns)

relive-append :
    (j : String) (p q : AgentPhase) (ms ns : List Mark)
    → relive j p ms ≡ some q
    → relive j p (ms ++ ns) ≡ relive j q ns
unfolding relive
relive-append j p q [] ns h = ground arith
relive-append j p q (moved e ∷ ms) ns h = elim (Option-cases (advance j p e)) [
  | inl stuck ↦ ground (arith, stuck)
  | inr (r, advanced) ↦ ground (arith, advanced, relive-append j r q ms ns)
]
relive-append j p q (forgot i ∷ ms) ns h = elim (String-discrete i j) [
  | yes same ↦ ground (arith, same, relive-append j initializing q ms ns)
  | no other ↦ ground (arith, other, relive-append j p q ms ns)
]

-- The log that leads from one manager to another and forgets the agents `is`.
abbrev pub Explains : List String → LifecycleManager → LifecycleManager → Type 0
Explains is m m' =
    (ms : List Mark) × (m'.history ≡ m.history ++ events ms)
    × (forgotten ms ≡ is)
    × ((j : String) → relive j (phase_of m j) ms ≡ some (phase_of m' j))

pub Explains-trans :
    (is is' : List String) (m m' m'' : LifecycleManager)
    → Explains is m m'
    → Explains is' m' m''
    → Explains (is ++ is') m m''
Explains-trans is is' m m' m'' (ms, grown, named, legal) (ns, grown', named', legal') = (
  ms ++ ns,
  grown'
      ∙ ap (λ h. h ++ events ns) grown
      ∙ append_assoc m.history (events ms) (events ns)
      ∙ ap (λ es. m.history ++ es) (sym (events-append ms ns)),
  forgotten-append ms ns ∙ ap (λ xs. xs ++ forgotten ns) named ∙ ap (λ xs. is ++ xs) named',
  λ j. relive-append j (phase_of m j) (phase_of m' j) ms ns (legal j) ∙ legal' j,
)

events-moved : (es : List TransitionEvent) → events (map moved es) ≡ es
unfolding events
events-moved [] = refl
events-moved (e ∷ es) = ap (λ fs. e ∷ fs) (events-moved es)

forgotten-moved : (es : List TransitionEvent) → forgotten (map moved es) ≡ []
unfolding forgotten
forgotten-moved [] = refl
forgotten-moved (e ∷ es) = forgotten-moved es

relive-moved :
    (j : String) (p : AgentPhase) (es : List TransitionEvent)
    → relive j p (map moved es) ≡ replay j p es
unfolding relive replay
relive-moved j p [] = refl
relive-moved j p (e ∷ es) = elim (Option-cases (advance j p e)) [
  | inl stuck ↦ ground (arith, stuck)
  | inr (q, advanced) ↦ ground (arith, advanced, relive-moved j q es)
]

-- A history without resets is a log.
pub Follows-Explains : (m m' : LifecycleManager) → Follows m m' → Explains [] m m'
Follows-Explains m m' (es, grown, legal) = (
  map moved es,
  grown ∙ ap (λ fs. m.history ++ fs) (sym (events-moved es)),
  forgotten-moved es,
  λ j. relive-moved j (phase_of m j) es ∙ legal j,
)

pub Explains-reset : (m : LifecycleManager) (i : String) → Explains (i ∷ []) m (Lifecycle.reset m i)
unfolding Lifecycle.reset events forgotten relive phase_of
Explains-reset m i = (
  forgot i ∷ [],
  sym (append-nil m.history),
  refl,
  λ j. ground (arith, Dict.get-remove String-discrete j i m.states),
)
