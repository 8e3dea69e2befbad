-- ===== src/Tests/Reports.antt =====
-- The theorems on telemetry, detection and diagnosis at concrete inputs.
use ai_agent_immune_system.Common.Dict
use ai_agent_immune_system.Common.{
  All, IsSorted, List, Option, String, [], arith, count_if, exists, false, if◌then◌else◌, keep,
  length, none, ok, some, take_last, true, ◌++◌, ◌==◌, ◌∷◌, ◌≡◌, ◌≤◌,
}
use ai_agent_immune_system.Common.Dict.{Dict}
use ai_agent_immune_system.Telemetry.{
  AgentVitals, TelemetryCollector, VitalsDict, get_all, max_in_memory_samples, to_vitals,
}
use ai_agent_immune_system.Telemetry.Retention.{get_all-record_all, given_by, record_all}
use ai_agent_immune_system.Baseline.{BaselineProfile}
use ai_agent_immune_system.Detection.{
  InfectionReport, cost_spike, detect_infection, high_retry_rate, latency_spike,
}
use ai_agent_immune_system.Detection.Report.{Reports, anomalies_of, detect_infection_lem}
use ai_agent_immune_system.Diagnosis.{
  DiagnosisType, Diagnostician, collect, default_context, diagnose,
}
use ai_agent_immune_system.Diagnosis.Ranking.{diagnose-IsSorted, diagnose_types, has_type, outdoes}
use ai_agent_immune_system.Correlator.{
  CorrelationResult, FleetCorrelator, correlate, default_correlator, update_set,
}
use ai_agent_immune_system.Correlator.Fleet.{correlate_lem, is_affected, is_monitored, verdict_on}
use ai_agent_immune_system.Tests.{hundredths, hundredths_laws}

unfoldable sample : VitalsDict hundredths
sample = record {
  timestamp = 5;
  agent_id = "a";
  agent_type = "coder";
  latency_ms = 900;
  token_count = none;
  tool_calls = 3;
  retries = 2;
  success = true;
  input_tokens = some 10;
  output_tokens = some 20;
  cost = none;
  model = none;
  error_type = none;
  prompt_hash = none;
}

unfoldable collector : TelemetryCollector hundredths
collector = record { samples = []; total_executions = 0 }

few_kept : length (get_all hundredths collector "a") ≤ max_in_memory_samples
unfolding get_all collector Dict.get
few_kept = omega arith

get_all-record_all_example :
    get_all hundredths (record_all hundredths collector (sample ∷ sample ∷ [])) "a"
    ≡ take_last max_in_memory_samples
        (get_all hundredths collector "a" ++ given_by hundredths "a" (sample ∷ sample ∷ []))
get_all-record_all_example =
    get_all-record_all hundredths collector (sample ∷ sample ∷ []) "a" few_kept

unfoldable baseline : BaselineProfile hundredths
unfolding hundredths
baseline = record {
  agent_id = "a";
  latency_mean = 20000;
  latency_stddev = 1000;
  latency_p95 = 20000;
  tokens_mean = 3000;
  tokens_stddev = 100;
  tokens_p95 = 3000;
  tools_mean = 300;
  tools_stddev = 100;
  tools_p95 = 300;
  sample_size = 30;
  input_tokens_mean = 1000;
  input_tokens_stddev = 100;
  input_tokens_p95 = 1000;
  output_tokens_mean = 2000;
  output_tokens_stddev = 100;
  output_tokens_p95 = 2000;
  cost_mean = 0;
  cost_stddev = 0;
  cost_p95 = 0;
  retry_rate_mean = 0;
  retry_rate_stddev = 10;
  error_rate_mean = 0;
  error_rate_stddev = 10;
  prompt_hash = "";
}

abbrev vitals : AgentVitals hundredths
vitals = to_vitals hundredths sample

unfoldable threshold : hundredths.Float
threshold = hundredths.literal 25 10

detect_infection_lem_example :
    (r : Option (InfectionReport hundredths)) × (detect_infection hundredths threshold
        (vitals ∷ [])
        (some baseline)
      ≡ ok r)
    × Reports hundredths baseline.agent_id
        (anomalies_of hundredths threshold (take_last 5 (vitals ∷ [])) baseline)
        r
detect_infection_lem_example =
    detect_infection_lem hundredths hundredths_laws threshold vitals [] baseline

unfoldable infection : InfectionReport hundredths
unfolding hundredths
infection = record {
  agent_id = "a";
  max_deviation = 700;
  anomalies = latency_spike ∷ cost_spike ∷ high_retry_rate ∷ [];
  deviations = ("latency", 700) ∷ [];
}

unfoldable diagnostician : Diagnostician hundredths
diagnostician = record { confidence_adjustments = [] }

diagnose_types_example :
    count_if
      (has_type hundredths DiagnosisType.cost_overrun)
      (diagnose hundredths diagnostician infection (default_context hundredths)).hypotheses
    ≡ (if exists
          (has_type hundredths DiagnosisType.cost_overrun)
          (collect hundredths diagnostician infection (default_context hundredths))
        then 1
        else 0)
diagnose_types_example =
    diagnose_types hundredths diagnostician infection (default_context hundredths)
      DiagnosisType.cost_overrun

diagnose-IsSorted_example :
    let found = collect hundredths diagnostician infection (default_context hundredths) in
    let ranked =
      (diagnose hundredths diagnostician infection (default_context hundredths)).hypotheses in
    IsSorted (λ a b. hundredths.lt b.confidence a.confidence) ranked
    × All (λ h. exists (outdoes hundredths h) found ≡ false) ranked
diagnose-IsSorted_example =
    diagnose-IsSorted hundredths hundredths_laws diagnostician infection
      (default_context hundredths)

abbrev correlator : FleetCorrelator hundredths
correlator = default_correlator hundredths

abbrev fleet : Dict String (BaselineProfile hundredths)
fleet = ("a", baseline) ∷ []

abbrev fleet_ids : List String
fleet_ids = "a" ∷ "b" ∷ []

abbrev spread : InfectionReport hundredths
spread = record {
  agent_id = "b";
  max_deviation = threshold;
  anomalies = latency_spike ∷ [];
  deviations = [];
}

correlate_lem_example :
    let target = update_set [] spread.anomalies in
    let monitored =
      count_if (is_monitored hundredths threshold collector 9 fleet target "b") fleet_ids in
    let affected = keep (is_affected hundredths threshold collector 9 fleet target "b") fleet_ids in
    (r : CorrelationResult hundredths) × (correlate hundredths threshold collector 9 fleet
        correlator spread fleet_ids
      ≡ ok r)
    × (r.affected_agents ≡ (if monitored == 0 then [] else affected))
    × (r.verdict ≡ verdict_on hundredths correlator (length affected) monitored)
correlate_lem_example =
    correlate_lem hundredths hundredths_laws threshold collector 9 fleet correlator spread fleet_ids
