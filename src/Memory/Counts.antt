-- ===== src/Memory/Counts.antt =====
-- The immune memory's tables against its list of records (immune_system/memory.py).
use ai_agent_immune_system.Common.{
  Bool, Floats, List, String, [], ap, append-nil, arith, contains, contains-set_add, count_if,
  count_if-append, exists, false, if◌then◌else◌, ite, keep, keep-append, not, refl, set_add, true,
  ℕ, ◌++◌, ◌+◌, ◌∙◌, ◌∷◌, ◌≡◌,
}
use ai_agent_immune_system.Common.Dict
use ai_agent_immune_system.Memory.{
  HealingRecord, ImmuneMemory, Patterns, Subject-discrete, bump, empty_memory, failed_of,
  get_failed_actions, get_success_rate_for_action, get_successful_actions, pattern_of,
  record_feedback, record_healing, touch,
}
use ai_agent_immune_system.Diagnosis.{DiagnosisFeedback, DiagnosisType, DiagnosisType-discrete}
use ai_agent_immune_system.Healing.{HealingAction, HealingAction-discrete}

-- Whether a record is of this agent and diagnosis.
abbrev pub is_about : String → DiagnosisType → HealingRecord → Bool
is_about i d r = ite (Subject-discrete (r.agent_id, r.diagnosis_type) (i, d)) true false

-- Whether a record is of this diagnosis and action, with this outcome.
abbrev pub is_outcome : DiagnosisType → HealingAction → Bool → HealingRecord → Bool
is_outcome d a true r =
    ite (DiagnosisType-discrete r.diagnosis_type d)
      (ite (HealingAction-discrete r.healing_action a) r.success false) false
is_outcome d a false r =
    ite (DiagnosisType-discrete r.diagnosis_type d)
      (ite (HealingAction-discrete r.healing_action a) (not r.success) false) false

abbrev pub count_of : DiagnosisType → HealingAction → Patterns → ℕ
count_of d a p = Dict.get_or HealingAction-discrete a (Dict.get_or DiagnosisType-discrete d p []) 0

-- The tables say what the records say.
pub record IsConsistent (m : ImmuneMemory) : Type 0 where
  pub grouped :
      (i : String) (d : DiagnosisType)
      → Dict.get_or Subject-discrete (i, d) m.by_agent_diagnosis [] ≡ keep (is_about i d) m.records
  pub successes :
      (d : DiagnosisType) (a : HealingAction)
      → count_of d a m.global_success_patterns ≡ count_if (is_outcome d a true) m.records
  pub failures :
      (d : DiagnosisType) (a : HealingAction)
      → count_of d a m.global_failure_patterns ≡ count_if (is_outcome d a false) m.records

count_of-bump :
    (d e : DiagnosisType) (a b : HealingAction) (p : Patterns)
    → count_of e b (bump d a p)
      ≡ count_of e b p + ite (DiagnosisType-discrete d e) (ite (HealingAction-discrete a b) 1 0) 0
unfolding bump pattern_of
count_of-bump d e a b p =
    let inner = Dict.get_or DiagnosisType-discrete d p [] in
    let n = Dict.get_or HealingAction-discrete a inner 0 + 1 in
    ground (
      arith,
      Dict.get-put DiagnosisType-discrete e d (Dict.put HealingAction-discrete a n inner) p,
      Dict.get-put HealingAction-discrete b a n inner,
    )

count_of-touch :
    (d e : DiagnosisType) (a : HealingAction) (p : Patterns)
    → count_of e a (touch d p) ≡ count_of e a p
unfolding touch pattern_of
count_of-touch d e a p =
    ground
      (arith, Dict.get-put DiagnosisType-discrete e d (Dict.get_or DiagnosisType-discrete d p []) p)

IsConsistent-record_healing :
    (m : ImmuneMemory) (i : String) (d : DiagnosisType) (a : HealingAction) (success : Bool)
    (now : ℕ)
    → IsConsistent m
    → IsConsistent (record_healing m i d a success now)
unfolding record_healing
IsConsistent-record_healing m i d a success now h =
    let r : HealingRecord = record {
      agent_id = i;
      diagnosis_type = d;
      healing_action = a;
      success = success;
      timestamp = now;
    } in
    record {
      grouped = λ j e. ground (
        arith,
        h.grouped j e,
        keep-append (is_about j e) m.records (r ∷ []),
        append-nil (keep (is_about j e) m.records),
        Dict.get-put Subject-discrete (j, e) (i, d)
            (Dict.get_or Subject-discrete (i, d) m.by_agent_diagnosis [] ++ r ∷ [])
            m.by_agent_diagnosis,
      );
      successes = λ e b. ground (
        arith,
        h.successes e b,
        count_if-append (is_outcome e b true) m.records (r ∷ []),
        count_of-bump d e a b m.global_success_patterns,
      );
      failures = λ e b. ground (
        arith,
        h.failures e b,
        count_if-append (is_outcome e b false) m.records (r ∷ []),
        count_of-bump d e a b m.global_failure_patterns,
      );
    }

-- The calls that change the memory, queries that make an entry included.
pub data Call : Type 0 where
  recorded : String → DiagnosisType → HealingAction → Bool → ℕ → Call
  gave_feedback : DiagnosisFeedback → Call
  asked_successful : DiagnosisType → Call
  asked_rate : DiagnosisType → HealingAction → Call

module _ (fl : Floats) where
  unfoldable pub step : ImmuneMemory → Call → ImmuneMemory
  step m (recorded i d a success now) = record_healing m i d a success now
  step m (gave_feedback f) = record_feedback m f
  step m (asked_successful d) = (get_successful_actions m d).1
  step m (asked_rate d a) = (get_success_rate_for_action fl m d a).1

  unfoldable pub run : ImmuneMemory → List Call → ImmuneMemory
  run m [] = m
  run m (c ∷ cs) = run (step m c) cs

  IsConsistent-step : (m : ImmuneMemory) (c : Call) → IsConsistent m → IsConsistent (step m c)
  unfolding step record_feedback get_successful_actions get_success_rate_for_action
  IsConsistent-step m (recorded i d a success now) h =
      IsConsistent-record_healing m i d a success now h
  IsConsistent-step m (gave_feedback f) h = record {
    grouped = h.grouped;
    successes = h.successes;
    failures = h.failures;
  }
  IsConsistent-step m (asked_successful d) h = record {
    grouped = h.grouped;
    successes = λ e b. count_of-touch d e b m.global_success_patterns ∙ h.successes e b;
    failures = h.failures;
  }
  IsConsistent-step m (asked_rate d a) h = record {
    grouped = h.grouped;
    successes = λ e b. count_of-touch d e b m.global_success_patterns ∙ h.successes e b;
    failures = λ e b. count_of-touch d e b m.global_failure_patterns ∙ h.failures e b;
  }

  pub IsConsistent-run :
      (m : ImmuneMemory) (cs : List Call) → IsConsistent m → IsConsistent (run m cs)
  unfolding run
  IsConsistent-run m [] h = h
  IsConsistent-run m (c ∷ cs) h = IsConsistent-run (step m c) cs (IsConsistent-step m c h)

  -- After any sequence of records, feedback and queries from an empty memory, the records filed under
  -- an agent and a diagnosis are the memory's records of both, in order, and the counts of successes
  -- and of failures are how often the records have that diagnosis, action and outcome.
  pub run-IsConsistent : (cs : List Call) → IsConsistent (run empty_memory cs)
  unfolding empty_memory Dict.get
  run-IsConsistent cs =
      IsConsistent-run empty_memory cs
        (record { grouped = λ i d. refl; successes = λ d a. refl; failures = λ d a. refl })

-- Whether a record is of a failure of this action.
abbrev pub is_failure_of : HealingAction → HealingRecord → Bool
is_failure_of a r =
    if r.success then false else ite (HealingAction-discrete r.healing_action a) true false

contains-failed_of :
    (a : HealingAction) (acc : List HealingAction) (rs : List HealingRecord)
    → contains HealingAction-discrete a (failed_of acc rs)
      ≡ (if contains HealingAction-discrete a acc then true else exists (is_failure_of a) rs)
unfolding failed_of
contains-failed_of a acc [] = ground arith
contains-failed_of a acc (r ∷ rs) = ground (
  arith,
  contains-failed_of a
      (if r.success then acc else set_add HealingAction-discrete r.healing_action acc) rs,
  contains-set_add HealingAction-discrete r.healing_action a acc,
)

-- In a memory whose tables say what its records say, an action has failed for an agent and a
-- diagnosis when one of the records of both is a failure of that action, and not otherwise.
pub get_failed_actions_lem :
    (m : ImmuneMemory) (i : String) (d : DiagnosisType) (a : HealingAction)
    → IsConsistent m
    → contains HealingAction-discrete a (get_failed_actions m i d)
      ≡ exists (is_failure_of a) (keep (is_about i d) m.records)
unfolding get_failed_actions
get_failed_actions_lem m i d a h =
    contains-failed_of a [] (Dict.get_or Subject-discrete (i, d) m.by_agent_diagnosis [])
    ∙ ap (exists (is_failure_of a)) (h.grouped i d)
