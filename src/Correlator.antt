-- ===== src/Correlator.antt =====
-- The fleet correlator (immune_system/correlator.py): whether an anomaly is seen in other agents too.
-- A set of anomalies is a list without repetitions; the texts of `detail` are the values that they are
-- formatted from.
pub mod Fleet
use ai_agent_immune_system.Common.{
  Bool, Floats, List, Option, Result, String, String-discrete, [], contains, if◌then◌else◌, ite,
  keep, length, ltb, none, ok, set_add, some, sort_by, ℕ, ◌++◌, ◌+◌, ◌==◌, ◌>>=◌, ◌∷◌,
}
use ai_agent_immune_system.Common.Dict
use ai_agent_immune_system.Common.Dict.{Dict}
use ai_agent_immune_system.Policy.{nonempty, recent}
use ai_agent_immune_system.Telemetry.{TelemetryCollector, get_recent}
use ai_agent_immune_system.Baseline.{BaselineProfile}
use ai_agent_immune_system.Detection.{
  AnomalyType, AnomalyType-discrete, InfectionReport, cost_spike, detect_infection,
  error_rate_spike, high_retry_rate, input_token_spike, latency_spike, output_token_spike,
  prompt_change, token_spike, tool_explosion,
}

pub data CorrelationVerdict : Type 0 where
  agent_specific fleet_wide partial_fleet : CorrelationVerdict

module _ (fl : Floats) where
  pub data Detail : Type 0 where
    no_others : Detail
    external_cause : ℕ → ℕ → fl.Float → Detail
    partial_outage : ℕ → ℕ → fl.Float → Detail
    only_some : ℕ → ℕ → Detail

  pub record CorrelationResult : Type 0 where
    pub verdict : CorrelationVerdict
    pub affected_fraction : fl.Float
    pub common_anomalies : List AnomalyType
    pub affected_agents : List String
    pub detail : Detail

  pub record FleetCorrelator : Type 0 where
    pub fleet_wide_threshold : fl.Float
    pub partial_threshold : fl.Float

-- The three variables of the loop.
pub record Scan : Type 0 where
  pub monitored_count : ℕ
  pub affected : List String
  pub common : List AnomalyType

-- The place of an anomaly's value in the order of texts.
unfoldable pub value_rank : AnomalyType → ℕ
value_rank cost_spike = 0
value_rank error_rate_spike = 1
value_rank high_retry_rate = 2
value_rank input_token_spike = 3
value_rank latency_spike = 4
value_rank output_token_spike = 5
value_rank prompt_change = 6
value_rank token_spike = 7
value_rank tool_explosion = 8

unfoldable pub value_before : AnomalyType → AnomalyType → Bool
value_before a b = ltb (value_rank a) (value_rank b)

-- `set(xs)` and `s.update(xs)`
unfoldable pub update_set : List AnomalyType → List AnomalyType → List AnomalyType
update_set s [] = s
update_set s (a ∷ xs) = update_set (set_add AnomalyType-discrete a s) xs

-- `target_anomalies & set(anomalies)`
unfoldable pub overlap : List AnomalyType → List AnomalyType → List AnomalyType
overlap target anomalies = keep (λ a. contains AnomalyType-discrete a anomalies) target

module _ (fl : Floats) where
  -- `_FLEET_WIDE_THRESHOLD` and `_PARTIAL_FLEET_THRESHOLD`
  unfoldable pub default_correlator : FleetCorrelator fl
  default_correlator = record {
    fleet_wide_threshold = fl.literal 30 100;
    partial_threshold = fl.literal 15 100;
  }

  -- What a report of another agent adds.
  unfoldable pub note_report : List AnomalyType → String → Scan → Option (InfectionReport fl) → Scan
  note_report target aid s none = s
  note_report target aid s (some other) =
      let shared = overlap target other.anomalies in
      if nonempty shared
      then record s { affected = s.affected ++ aid ∷ []; common = update_set s.common shared }
      else s

  unfoldable pub verdict_of : FleetCorrelator fl → fl.Float → ℕ → ℕ → CorrelationVerdict × Detail fl
  verdict_of c fraction n monitored =
      if fl.le c.fleet_wide_threshold fraction
      then (fleet_wide, external_cause n monitored fraction)
      else if fl.le c.partial_threshold fraction
      then (partial_fleet, partial_outage n monitored fraction)
      else (agent_specific, only_some n monitored)

  -- `correlate` after the loop
  unfoldable pub judge : FleetCorrelator fl → List AnomalyType → Scan → CorrelationResult fl
  judge c target s =
      if s.monitored_count == 0
      then record {
        verdict = agent_specific;
        affected_fraction = fl.of_ℕ 0;
        common_anomalies = target;
        affected_agents = [];
        detail = no_others;
      }
      else (let n = length s.affected in
          let fraction = fl.div (fl.of_ℕ n) (fl.of_ℕ s.monitored_count) in
          let (verdict, detail) = verdict_of c fraction n s.monitored_count in
          record {
            verdict = verdict;
            affected_fraction = fraction;
            common_anomalies = sort_by value_before s.common;
            affected_agents = s.affected;
            detail = detail;
          })

  module _ (sensitivity : fl.Float) (telemetry : TelemetryCollector fl) (now : ℕ) where
    -- What the sentinel says of an agent's recent vitals, if there are any.
    unfoldable pub report_on : String → BaselineProfile fl → Result (Option (InfectionReport fl))
    report_on aid bl =
        let recent = get_recent fl telemetry aid 10 now in
        if nonempty recent then detect_infection fl sensitivity recent (some bl) else ok none

    module _ (baselines : Dict String (BaselineProfile fl)) where
      -- The body of the loop.
      unfoldable pub scan_one : List AnomalyType → String → Scan → String → Result Scan
      scan_one target target_id s aid =
          ite (String-discrete aid target_id) (ok s)
            (elim (Dict.get String-discrete aid baselines) [
              | none ↦ ok s
              | some bl ↦ report_on aid bl >>= λ other. ok (
                  note_report target aid (record s { monitored_count = s.monitored_count + 1 })
                    other)
            ])

      unfoldable pub scan_all : List AnomalyType → String → Scan → List String → Result Scan
      scan_all target target_id s [] = ok s
      scan_all target target_id s (aid ∷ aids) =
          scan_one target target_id s aid >>= λ s'. scan_all target target_id s' aids

      unfoldable pub correlate :
          FleetCorrelator fl → InfectionReport fl → List String → Result (CorrelationResult fl)
      correlate c infection all_agents =
          let target = update_set [] infection.anomalies in
          scan_all target infection.agent_id
            (record { monitored_count = 0; affected = []; common = [] }) all_agents
          >>= λ s. ok (judge c target s)
