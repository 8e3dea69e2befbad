-- ===== src/Discovery/Summary.antt =====
-- The registry against the observations that were made (gateway/discovery.py).
use ai_agent_immune_system.Common.{
  Bool, List, Option, String, String-discrete, [], append-nil, append_assoc, arith, contains,
  contains-set_add, exists, exists-append, false, if◌then◌else◌, ite, keep, length, length-append,
  none, refl, some, subst, sym, true, truthy, ℕ, ◌++◌, ◌∷◌, ◌≡◌, ◌≢◌,
}
use ai_agent_immune_system.Common.Dict
use ai_agent_immune_system.Discovery.{
  AgentRecord, DiscoveryService, Observation, better_type, count, first_record, get_agent,
  note_text, observe, observed, seen_again,
}

unfoldable pub observe_all : DiscoveryService → List Observation → DiscoveryService
observe_all d [] = d
observe_all d (o ∷ os) = observe_all (observe d o).0 os

abbrev pub is_of : String → Observation → Bool
is_of i o = ite (String-discrete o.agent_id i) true false

-- The time of the last observation, or a time before it.
abbrev pub last_time : ℕ → List Observation → ℕ
last_time t [] = t
last_time t (o ∷ os) = last_time o.time os

-- The first type that is not the default one, or the last if there is none, from a first type on.
abbrev pub known_type : String → List Observation → String
known_type t [] = t
known_type t (o ∷ os) = ite (String-discrete t "external") (known_type o.agent_type os) t

abbrev pub uses_model : String → Observation → Bool
uses_model m o = ite (String-discrete o.model m) (truthy m) false

abbrev pub comes_from : String → Observation → Bool
comes_from a o = ite (String-discrete o.source_ip a) (truthy a) false

-- A record sums up the observations of an agent, in the order in which they were made.
abbrev pub SumsUp : List Observation → Option AgentRecord → Type 0
SumsUp [] none = Unit
SumsUp [] (some r) = ⊥
SumsUp (o ∷ os) none = ⊥
SumsUp (o ∷ os) (some r) =
    (r.agent_id ≡ o.agent_id)
    × (r.first_seen ≡ o.time)
    × (r.last_seen ≡ last_time o.time os)
    × (r.request_count ≡ length (o ∷ os))
    × (r.agent_type ≡ known_type o.agent_type os)
    × ((m : String) → contains String-discrete m r.models_used ≡ exists (uses_model m) (o ∷ os))
    × ((a : String) → contains String-discrete a r.source_ips ≡ exists (comes_from a) (o ∷ os))

last_time-append :
    (t : ℕ) (os : List Observation) (o : Observation) → last_time t (os ++ o ∷ []) ≡ o.time
last_time-append t [] o = refl
last_time-append t (p ∷ os) o = last_time-append p.time os o

known_type-append :
    (t : String) (os : List Observation) (o : Observation)
    → known_type t (os ++ o ∷ []) ≡ better_type (known_type t os) o.agent_type
known_type-append t [] o = unfold better_type in ground arith
known_type-append t (p ∷ os) o = elim (String-discrete t "external") [
  | yes same ↦ ground (arith, same, known_type-append p.agent_type os o)
  | no other ↦ unfold better_type in ground (arith, other)
]

contains-note_text :
    (s m : String) (texts : List String)
    → contains String-discrete m (note_text s texts) ≡ (
        if contains String-discrete m texts
        then true
        else ite (String-discrete s m) (truthy m) false)
unfolding note_text truthy
contains-note_text s m texts = ground (arith, contains-set_add String-discrete s m texts)

-- One more observation of the agent.
SumsUp-observed :
    (past : List Observation) (r : Option AgentRecord) (o : Observation)
    → SumsUp past r
    → SumsUp (past ++ o ∷ []) (some (observed r o))
unfolding observed first_record seen_again
SumsUp-observed [] none o h = (
  refl,
  refl,
  refl,
  refl,
  refl,
  λ m. ground (arith, contains-note_text o.model m []),
  λ a. ground (arith, contains-note_text o.source_ip a []),
)
SumsUp-observed (p ∷ past) (some r) o (same, first, last, count, type, models, ips) = (
  same,
  first,
  sym (last_time-append p.time past o),
  omega (arith, count, length-append past (o ∷ [])),
  ground (arith, type, known_type-append p.agent_type past o),
  λ m. ground (
    arith,
    contains-note_text o.model m r.models_used,
    models m,
    exists-append (uses_model m) (p ∷ past) (o ∷ []),
  ),
  λ a. ground (
    arith,
    contains-note_text o.source_ip a r.source_ips,
    ips a,
    exists-append (comes_from a) (p ∷ past) (o ∷ []),
  ),
)
SumsUp-observed [] (some r) o h = elim h [ ]
SumsUp-observed (p ∷ past) none o h = elim h [ ]

SumsUp-observe_all :
    (d : DiscoveryService) (os past : List Observation) (i : String)
    → SumsUp past (get_agent d i)
    → SumsUp (past ++ keep (is_of i) os) (get_agent (observe_all d os) i)
unfolding observe_all
SumsUp-observe_all d [] past i h = subst (λ l. SumsUp l (get_agent d i)) (sym (append-nil past)) h
SumsUp-observe_all d (o ∷ os) past i h =
    let d' = (observe d o).0 in
    elim (String-discrete o.agent_id i) [
      | yes same ↦
          let now : SumsUp (past ++ o ∷ []) (get_agent d' i) =
            subst (SumsUp (past ++ o ∷ [])) (sym (found same))
              (SumsUp-observed past (get_agent d i) o h) in
          subst (λ l. SumsUp l (get_agent (observe_all d' os) i)) (sym (kept same))
            (SumsUp-observe_all d' os (past ++ o ∷ []) i now)
      | no other ↦
          let now : SumsUp past (get_agent d' i) = subst (SumsUp past) (sym (left other)) h in
          subst (λ l. SumsUp l (get_agent (observe_all d' os) i)) (sym (dropped other))
            (SumsUp-observe_all d' os past i now)
    ]
  where
    found : o.agent_id ≡ i → get_agent (observe d o).0 i ≡ some (observed (get_agent d i) o)
    found same =
        unfold get_agent observe in
        let r = observed (Dict.get String-discrete o.agent_id d) o in
        ground (arith, same, Dict.get-put String-discrete i o.agent_id r d)

    left : o.agent_id ≢ i → get_agent (observe d o).0 i ≡ get_agent d i
    left other =
        unfold get_agent observe in
        Dict.get-put_ne String-discrete i o.agent_id
          (observed (Dict.get String-discrete o.agent_id d) o) d other

    kept : o.agent_id ≡ i → past ++ keep (is_of i) (o ∷ os) ≡ (past ++ o ∷ []) ++ keep (is_of i) os
    kept same = ground (arith, same, append_assoc past (o ∷ []) (keep (is_of i) os))

    dropped : o.agent_id ≢ i → past ++ keep (is_of i) (o ∷ os) ≡ past ++ keep (is_of i) os
    dropped other = ground (arith, other)

-- After any observations, of any agents in any order, the registry refines the list of them: an agent
-- has a record exactly if it was observed, and the record has the times of its first and of its last
-- observation, their number, the first type that is not the default one, and exactly the models and
-- the addresses that they name.
pub observe_all-SumsUp :
    (os : List Observation) (i : String)
    → SumsUp (keep (is_of i) os) (get_agent (observe_all [] os) i)
unfolding get_agent Dict.get
observe_all-SumsUp os i = SumsUp-observe_all [] os [] i tt
