-- ===== src/Memory/Successes.antt =====
-- The actions that the immune memory reports as successful (immune_system/memory.py).
use ai_agent_immune_system.Common.{
  All, Bool, Floats, List, [], ap, arith, contains, count_if, count_if-sort_by, false, ite, ltb,
  sort_by, true, ℕ, ◌+◌, ◌<◌, ◌∙◌, ◌∷◌, ◌≡◌,
}
use ai_agent_immune_system.Common.Dict
use ai_agent_immune_system.Common.Dict.{Dict}
use ai_agent_immune_system.Memory.{
  ImmuneMemory, Patterns, bump, empty_memory, get_success_rate_for_action, get_successful_actions,
  more_often, pattern_of, record_feedback, record_healing, touch,
}
use ai_agent_immune_system.Memory.Counts.{
  Call, asked_rate, asked_successful, gave_feedback, is_outcome, recorded, run, run-IsConsistent,
  step,
}
use ai_agent_immune_system.Diagnosis.{DiagnosisType, DiagnosisType-discrete}
use ai_agent_immune_system.Healing.{HealingAction, HealingAction-discrete}

-- No count in a table is 0.
abbrev pub IsPositive : Dict HealingAction ℕ → Type 0
IsPositive = All (λ e. 0 < e.1)

abbrev pub HasPositive : Patterns → Type 0
HasPositive = All (λ e. IsPositive e.1)

pub pattern_of-IsPositive :
    (d : DiagnosisType) (p : Patterns) → HasPositive p → IsPositive (pattern_of d p)
unfolding pattern_of
pattern_of-IsPositive d p h = Dict.All-get_or DiagnosisType-discrete IsPositive d [] p tt h

HasPositive-touch : (d : DiagnosisType) (p : Patterns) → HasPositive p → HasPositive (touch d p)
unfolding touch
HasPositive-touch d p h =
    Dict.All-put DiagnosisType-discrete IsPositive d (pattern_of d p) p
      (pattern_of-IsPositive d p h) h

HasPositive-bump :
    (d : DiagnosisType) (a : HealingAction) (p : Patterns)
    → HasPositive p
    → HasPositive (bump d a p)
unfolding bump
HasPositive-bump d a p h =
    let counts = pattern_of d p in
    let n = Dict.get_or HealingAction-discrete a counts 0 + 1 in
    Dict.All-put DiagnosisType-discrete IsPositive d (Dict.put HealingAction-discrete a n counts) p
      (Dict.All-put HealingAction-discrete (λ k. 0 < k) a n counts (omega arith)
        (pattern_of-IsPositive d p h))
      h

module _ (fl : Floats) where
  HasPositive-step :
      (m : ImmuneMemory) (c : Call)
      → HasPositive m.global_success_patterns
      → HasPositive (step fl m c).global_success_patterns
  unfolding step record_healing record_feedback get_successful_actions get_success_rate_for_action
  HasPositive-step m (recorded i d a true now) h = HasPositive-bump d a m.global_success_patterns h
  HasPositive-step m (recorded i d a false now) h = h
  HasPositive-step m (gave_feedback f) h = h
  HasPositive-step m (asked_successful d) h = HasPositive-touch d m.global_success_patterns h
  HasPositive-step m (asked_rate d a) h = HasPositive-touch d m.global_success_patterns h

  pub HasPositive-run :
      (m : ImmuneMemory) (cs : List Call)
      → HasPositive m.global_success_patterns
      → HasPositive (run fl m cs).global_success_patterns
  unfolding run
  HasPositive-run m [] h = h
  HasPositive-run m (c ∷ cs) h = HasPositive-run (step fl m c) cs (HasPositive-step m c h)

-- Whether an entry is of this action.
abbrev is_entry_of : HealingAction → HealingAction × ℕ → Bool
is_entry_of a e = ite (HealingAction-discrete a e.0) true false

contains-keys :
    (a : HealingAction) (c : Dict HealingAction ℕ)
    → contains HealingAction-discrete a (Dict.keys c) ≡ ltb 0 (count_if (is_entry_of a) c)
contains-keys a [] = ground arith
contains-keys a (e ∷ c) = ground (arith, contains-keys a c)

entries-positive :
    (a : HealingAction) (c : Dict HealingAction ℕ)
    → IsPositive c
    → ltb 0 (count_if (is_entry_of a) c) ≡ ltb 0 (Dict.get_or HealingAction-discrete a c 0)
unfolding Dict.get
entries-positive a [] h = ground arith
entries-positive a (e ∷ c) h = ground (arith, h.0, entries-positive a c h.1)

pub contains-sorted_keys :
    (a : HealingAction) (c : Dict HealingAction ℕ)
    → IsPositive c
    → contains HealingAction-discrete a (Dict.keys (sort_by more_often c))
      ≡ ltb 0 (Dict.get_or HealingAction-discrete a c 0)
contains-sorted_keys a c h =
    contains-keys a (sort_by more_often c)
    ∙ ap (ltb 0) (count_if-sort_by more_often (is_entry_of a) c)
    ∙ entries-positive a c h

-- After any sequence of records, feedback and queries from an empty memory, the actions reported as
-- successful for a diagnosis are exactly those that some record of the diagnosis succeeded with.
pub get_successful_actions-run :
    (fl : Floats) (cs : List Call) (d : DiagnosisType) (a : HealingAction)
    → let m = run fl empty_memory cs in
      contains HealingAction-discrete a (get_successful_actions m d).0
      ≡ ltb 0 (count_if (is_outcome d a true) m.records)
unfolding get_successful_actions empty_memory pattern_of
get_successful_actions-run fl cs d a =
    let m = run fl empty_memory cs in
    contains-sorted_keys a (pattern_of d m.global_success_patterns)
      (pattern_of-IsPositive d m.global_success_patterns (HasPositive-run fl empty_memory cs tt))
    ∙ ap (ltb 0) ((run-IsConsistent fl cs).successes d a)
