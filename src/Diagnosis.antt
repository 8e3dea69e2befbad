-- ===== src/Diagnosis.antt =====
-- The diagnostician (immune_system/diagnosis.py): ranked hypotheses for an infection. Confidences are
-- floats. A context that is not given is the default one.
pub mod Ranking
use ai_agent_immune_system.Common.{
  Bool, Floats, List, Option, Result, String, String-discrete, [], contains, exists, false,
  if◌then◌else◌, index_error, ite, max_float, min_float, not, ok, raise, some, sort_by, true, ℕ,
  ◌&&◌, ◌++◌, ◌||◌, ◌∷◌,
}
use ai_agent_immune_system.Common.Dict
use ai_agent_immune_system.Common.Dict.{Dict}
use ai_agent_immune_system.Detection.{
  AnomalyType, AnomalyType-discrete, InfectionReport, cost_spike, error_rate_spike, high_retry_rate,
  input_token_spike, latency_spike, output_token_spike, prompt_change, token_spike, tool_explosion,
}

pub data DiagnosisType : Type 0 where
  prompt_drift prompt_injection infinite_loop tool_instability memory_corruption cost_overrun
        external_cause unknown :
      DiagnosisType

unfoldable pub DiagnosisType-discrete : Discrete DiagnosisType
DiagnosisType-discrete = hlevel

-- The type that a feedback corrects may be missing.
unfoldable pub subject-discrete : Discrete (Option DiagnosisType)
subject-discrete = hlevel

module _ (fl : Floats) where
  -- The texts of `reasoning`, with what they are formatted from.
  pub data Reasoning : Type 0 where
    fleet_wide_anomaly : fl.Float → String → Reasoning
    prompt_hash_changed : Bool → Reasoning
    intentional_drift context_stuffing runaway_generation token_usage_spike : Reasoning
    cost_exceeds : fl.Float → Reasoning
    excessive_tool_calls provider_instability corrupted_state no_known_mode : Reasoning

  pub record Diagnosis : Type 0 where
    pub agent_id : String
    pub diagnosis_type : DiagnosisType
    pub confidence : fl.Float
    pub reasoning : Reasoning

  pub record DiagnosisContext : Type 0 where
    pub fleet_wide : Bool
    pub affected_fraction : fl.Float
    pub affected_agents : List String
    pub correlation_detail : String

  pub record DiagnosisResult : Type 0 where
    pub agent_id : String
    pub hypotheses : List Diagnosis
    pub context : DiagnosisContext

  pub record Diagnostician : Type 0 where
    pub confidence_adjustments : Dict (Option DiagnosisType) fl.Float

pub record DiagnosisFeedback : Type 0 where
  pub agent_id : String
  pub original_type : Option DiagnosisType
  pub actual_cause : String
  pub notes : String
  pub timestamp : ℕ

module _ (fl : Floats) where
  -- `DiagnosisContext()`
  unfoldable pub default_context : DiagnosisContext fl
  default_context = record {
    fleet_wide = false;
    affected_fraction = fl.of_ℕ 0;
    affected_agents = [];
    correlation_detail = "";
  }

  -- `hypotheses[0]`
  unfoldable pub primary : DiagnosisResult fl → Result (Diagnosis fl)
  primary r = elim r.hypotheses [ [] ↦ raise index_error | h ∷ hs ↦ ok h ]

  unfoldable pub lower_confidence :
      Diagnostician fl → Option DiagnosisType → fl.Float → Diagnostician fl
  lower_confidence d t amount = record d {
    confidence_adjustments =
        Dict.put subject-discrete t
          (fl.sub (Dict.get_or subject-discrete t d.confidence_adjustments (fl.of_ℕ 0)) amount)
          d.confidence_adjustments;
  }

  -- The list of past feedback, which nothing reads, is left out.
  unfoldable pub record_feedback : Diagnostician fl → DiagnosisFeedback → Diagnostician fl
  record_feedback d feedback =
      ite (String-discrete feedback.actual_cause "false_positive")
        (lower_confidence d feedback.original_type (fl.literal 5 100))
        (ite (String-discrete feedback.actual_cause "wrong_diagnosis")
          (lower_confidence d feedback.original_type (fl.literal 3 100)) d)

  unfoldable pub adjust : Diagnostician fl → DiagnosisType → fl.Float → fl.Float
  adjust d t base_confidence = max_float fl (fl.literal 5 100) (
      min_float fl (fl.literal 1 1) (
        fl.add base_confidence
          (Dict.get_or subject-discrete (some t) d.confidence_adjustments (fl.of_ℕ 0))))

  module _ (d : Diagnostician fl) (infection : InfectionReport fl) where
    abbrev shows : AnomalyType → Bool
    shows a = contains AnomalyType-discrete a infection.anomalies

    -- `devs.get(name, 0)`
    abbrev deviation : String → fl.Float
    deviation name = Dict.get_or String-discrete name infection.deviations (fl.of_ℕ 0)

    -- `a in anomalies and devs.get(name, 0) > 3.0`
    abbrev strong : AnomalyType → String → Bool
    strong a name = shows a && fl.lt (fl.literal 3 1) (deviation name)

    abbrev hypothesis : DiagnosisType → fl.Float → Reasoning fl → Diagnosis fl
    hypothesis t conf reasoning = record {
      agent_id = infection.agent_id;
      diagnosis_type = t;
      confidence = adjust d t conf;
      reasoning = reasoning;
    }

    -- `any(h.diagnosis_type == t for h in hypotheses)`
    abbrev suggests : DiagnosisType → List (Diagnosis fl) → Bool
    suggests t hs = exists (λ h. ite (DiagnosisType-discrete h.diagnosis_type t) true false) hs

    unfoldable pub external_step : DiagnosisContext fl → List (Diagnosis fl)
    external_step ctx =
        if ctx.fleet_wide
        then hypothesis external_cause (fl.literal 90 100)
            (fleet_wide_anomaly ctx.affected_fraction ctx.correlation_detail)
          ∷ []
        else []

    unfoldable pub prompt_step : List (Diagnosis fl)
    prompt_step =
        let stuffed = shows input_token_spike in
        let conf = if stuffed then fl.literal 95 100 else fl.literal 80 100 in
        if shows prompt_change
        then hypothesis prompt_injection conf (prompt_hash_changed stuffed)
          ∷ hypothesis prompt_drift (fl.mul conf (fl.literal 6 10)) intentional_drift
          ∷ []
        else []

    unfoldable pub input_step : List (Diagnosis fl) → List (Diagnosis fl)
    input_step hs =
        if strong input_token_spike "input_tokens" && not (suggests prompt_injection hs)
        then hypothesis prompt_injection (fl.literal 85 100) context_stuffing ∷ []
        else []

    unfoldable pub output_step : List (Diagnosis fl)
    output_step =
        if strong output_token_spike "output_tokens"
        then hypothesis prompt_drift (fl.literal 85 100) runaway_generation ∷ []
        else []

    unfoldable pub token_step : List (Diagnosis fl) → List (Diagnosis fl)
    token_step hs =
        if strong token_spike "tokens" && not (suggests prompt_drift hs)
        then hypothesis prompt_drift (fl.literal 85 100) token_usage_spike ∷ []
        else []

    unfoldable pub cost_step : List (Diagnosis fl)
    cost_step =
        if shows cost_spike
        then hypothesis cost_overrun (fl.literal 80 100) (cost_exceeds (deviation "cost")) ∷ []
        else []

    unfoldable pub tools_step : List (Diagnosis fl)
    tools_step =
        if strong tool_explosion "tools"
        then hypothesis infinite_loop (fl.literal 90 100) excessive_tool_calls ∷ []
        else []

    unfoldable pub instability_step : List (Diagnosis fl)
    instability_step =
        let lat = shows latency_spike in
        let err = shows error_rate_spike in
        let retry = shows high_retry_rate in
        let conf =
          if lat && (err || retry)
          then fl.literal 75 100
          else if err
          then fl.literal 70 100
          else fl.literal 60 100 in
        if lat || err then hypothesis tool_instability conf provider_instability ∷ [] else []

    unfoldable pub retry_step : List (Diagnosis fl) → List (Diagnosis fl)
    retry_step hs =
        if shows high_retry_rate && not (suggests tool_instability hs)
        then hypothesis memory_corruption (fl.literal 65 100) corrupted_state ∷ []
        else []

    unfoldable pub unknown_step : List (Diagnosis fl) → List (Diagnosis fl)
    unknown_step [] =
        record {
          agent_id = infection.agent_id;
          diagnosis_type = unknown;
          confidence = fl.literal 30 100;
          reasoning = no_known_mode;
        }
        ∷ []
    unknown_step (h ∷ hs) = []

    -- The hypotheses in the order in which the code finds them. A step that looks at those found
    -- before it is given them.
    unfoldable pub collect : DiagnosisContext fl → List (Diagnosis fl)
    collect ctx =
        let h₁ = external_step ctx ++ prompt_step in
        let h₂ = h₁ ++ input_step h₁ in
        let h₃ = h₂ ++ output_step in
        let h₄ = h₃ ++ token_step h₃ in
        let h₅ = h₄ ++ (cost_step ++ (tools_step ++ instability_step)) in
        let h₆ = h₅ ++ retry_step h₅ in h₆ ++ unknown_step h₆

  -- The order of `sort(key=confidence, reverse=True)`.
  unfoldable pub more_confident : Diagnosis fl → Diagnosis fl → Bool
  more_confident a b = fl.lt b.confidence a.confidence

  -- The loop that keeps the first hypothesis of each type.
  unfoldable pub dedup : List DiagnosisType → List (Diagnosis fl) → List (Diagnosis fl)
  dedup seen [] = []
  dedup seen (h ∷ hs) = elim (contains DiagnosisType-discrete h.diagnosis_type seen) [
    | true ↦ dedup seen hs
    | false ↦ h ∷ dedup (h.diagnosis_type ∷ seen) hs
  ]

  unfoldable pub diagnose :
      Diagnostician fl → InfectionReport fl → DiagnosisContext fl → DiagnosisResult fl
  diagnose d infection ctx = record {
    agent_id = infection.agent_id;
    hypotheses = dedup [] (sort_by more_confident (collect d infection ctx));
    context = ctx;
  }

  unfoldable pub diagnose_single : Diagnostician fl → InfectionReport fl → Result (Diagnosis fl)
  diagnose_single d infection = primary (diagnose d infection default_context)
