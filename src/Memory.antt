-- ===== src/Memory.antt =====
-- The immune memory without a store (immune_system/memory.py): what was tried, with what outcome, and
-- the counts over all agents. A `defaultdict` makes an entry when a missing key is read, so the
-- queries that read one return the memory too. A timestamp is a natural number.
pub mod Counts
pub mod Successes
use mathlib.Core.HLevel.{×_discrete}
use ai_agent_immune_system.Common.{
  Bool, Floats, List, String, String-discrete, [], count_if, false, if◌then◌else◌, ite, keep,
  length, ltb, set_add, sort_by, true, ℕ, ◌++◌, ◌+◌, ◌∷◌,
}
use ai_agent_immune_system.Common.Dict
use ai_agent_immune_system.Common.Dict.{Dict}
use ai_agent_immune_system.Diagnosis.{DiagnosisFeedback, DiagnosisType, DiagnosisType-discrete}
use ai_agent_immune_system.Healing.{HealingAction, HealingAction-discrete}

pub record HealingRecord : Type 0 where
  pub agent_id : String
  pub diagnosis_type : DiagnosisType
  pub healing_action : HealingAction
  pub success : Bool
  pub timestamp : ℕ

abbrev pub Patterns : Type 0
Patterns = Dict DiagnosisType (Dict HealingAction ℕ)

pub record ImmuneMemory : Type 0 where
  pub records : List HealingRecord
  pub by_agent_diagnosis : Dict (String × DiagnosisType) (List HealingRecord)
  pub global_success_patterns : Patterns
  pub global_failure_patterns : Patterns
  pub feedback : List DiagnosisFeedback

unfoldable pub Subject-discrete : Discrete (String × DiagnosisType)
Subject-discrete = ×_discrete String-discrete DiagnosisType-discrete

unfoldable pub empty_memory : ImmuneMemory
empty_memory = record {
  records = [];
  by_agent_diagnosis = [];
  global_success_patterns = [];
  global_failure_patterns = [];
  feedback = [];
}

-- `patterns[d]` of a `defaultdict`: the counts, and the patterns with an entry for `d`
unfoldable pub pattern_of : DiagnosisType → Patterns → Dict HealingAction ℕ
pattern_of d patterns = Dict.get_or DiagnosisType-discrete d patterns []

unfoldable pub touch : DiagnosisType → Patterns → Patterns
touch d patterns = Dict.put DiagnosisType-discrete d (pattern_of d patterns) patterns

-- `patterns[d][a] += 1`
unfoldable pub bump : DiagnosisType → HealingAction → Patterns → Patterns
bump d a patterns =
    let counts = pattern_of d patterns in
    Dict.put DiagnosisType-discrete d
      (Dict.put HealingAction-discrete a (Dict.get_or HealingAction-discrete a counts 0 + 1) counts)
      patterns

-- `record_healing`
unfoldable pub record_healing :
    ImmuneMemory → String → DiagnosisType → HealingAction → Bool → ℕ → ImmuneMemory
record_healing m agent_id d a success now =
    let r : HealingRecord = record {
      agent_id = agent_id;
      diagnosis_type = d;
      healing_action = a;
      success = success;
      timestamp = now;
    } in
    record m {
      records = m.records ++ r ∷ [];
      by_agent_diagnosis =
          Dict.put Subject-discrete (agent_id, d)
            (Dict.get_or Subject-discrete (agent_id, d) m.by_agent_diagnosis [] ++ r ∷ [])
            m.by_agent_diagnosis;
      global_success_patterns =
          if success then bump d a m.global_success_patterns else m.global_success_patterns;
      global_failure_patterns =
          if success then m.global_failure_patterns else bump d a m.global_failure_patterns;
    }

unfoldable pub record_feedback : ImmuneMemory → DiagnosisFeedback → ImmuneMemory
record_feedback m f = record m { feedback = m.feedback ++ f ∷ [] }

-- The comprehension of `get_failed_actions`: the actions that failed, each once.
unfoldable pub failed_of : List HealingAction → List HealingRecord → List HealingAction
failed_of acc [] = acc
failed_of acc (r ∷ rs) =
    failed_of (if r.success then acc else set_add HealingAction-discrete r.healing_action acc) rs

unfoldable pub get_failed_actions : ImmuneMemory → String → DiagnosisType → List HealingAction
get_failed_actions m agent_id d =
    failed_of [] (Dict.get_or Subject-discrete (agent_id, d) m.by_agent_diagnosis [])

-- The order of `sorted(counts.items(), key=count, reverse=True)`, which is stable.
unfoldable pub more_often : HealingAction × ℕ → HealingAction × ℕ → Bool
more_often e e' = ltb e'.1 e.1

unfoldable pub get_successful_actions :
    ImmuneMemory → DiagnosisType → List HealingAction × ImmuneMemory
get_successful_actions m d = (
  Dict.keys (sort_by more_often (pattern_of d m.global_success_patterns)),
  record m { global_success_patterns = touch d m.global_success_patterns },
)

unfoldable pub get_healing_history : ImmuneMemory → String → List HealingRecord
get_healing_history m agent_id =
    keep (λ r. ite (String-discrete r.agent_id agent_id) true false) m.records

unfoldable pub get_total_healings : ImmuneMemory → ℕ
get_total_healings m = length m.records

unfoldable pub has_learning_for : ImmuneMemory → String → DiagnosisType → Bool
has_learning_for m agent_id d = Dict.has Subject-discrete (agent_id, d) m.by_agent_diagnosis

module _ (fl : Floats) where
  -- `get_success_rate_for_action`, which reads both patterns
  unfoldable pub get_success_rate_for_action :
      ImmuneMemory → DiagnosisType → HealingAction → fl.Float × ImmuneMemory
  get_success_rate_for_action m d a =
      let s = Dict.get_or HealingAction-discrete a (pattern_of d m.global_success_patterns) 0 in
      let f = Dict.get_or HealingAction-discrete a (pattern_of d m.global_failure_patterns) 0 in
      (
        (if ltb 0 (s + f) then fl.div (fl.of_ℕ s) (fl.of_ℕ (s + f)) else fl.literal 0 1),
        record m {
          global_success_patterns = touch d m.global_success_patterns;
          global_failure_patterns = touch d m.global_failure_patterns;
        },
      )

  unfoldable pub get_success_rate : ImmuneMemory → fl.Float
  get_success_rate m = elim m.records [
    | [] ↦ fl.literal 0 1
    | r ∷ rs ↦ fl.div (fl.of_ℕ (count_if (λ r. r.success) m.records)) (fl.of_ℕ (length m.records))
  ]

-- `max(actions.items(), key=count)`: the first of the greatest
unfoldable pub best_from : HealingAction × ℕ → Dict HealingAction ℕ → HealingAction × ℕ
best_from e [] = e
best_from e (f ∷ fs) = best_from (if more_often f e then f else e) fs

unfoldable pub summary_of : Patterns → Dict DiagnosisType (HealingAction × ℕ)
summary_of [] = []
summary_of ((d, actions) ∷ rest) = elim actions [
  | [] ↦ summary_of rest
  | e ∷ es ↦ (d, best_from e es) ∷ summary_of rest
]

unfoldable pub get_pattern_summary : ImmuneMemory → Dict DiagnosisType (HealingAction × ℕ)
get_pattern_summary m = summary_of m.global_success_patterns
