-- ===== src/Detection.antt =====
-- The sentinel (immune_system/detection.py): the deviations of recent vitals from an agent's baseline.
pub mod Report
use ai_agent_immune_system.Common.{
  Bool, Floats, List, Option, Result, String, String-discrete, [], count_if, false, if◌then◌else◌,
  ite, leb, length, ltb, max_float, none, ok, raise, some, take_last, true, value_error, ℕ, ◌&&◌,
  ◌++◌, ◌+◌, ◌/◌, ◌>>=◌, ◌∷◌,
}
use ai_agent_immune_system.Common.Dict
use ai_agent_immune_system.Common.Dict.{Dict}
use ai_agent_immune_system.Baseline.{BaselineProfile}
use ai_agent_immune_system.Telemetry.{AgentVitals}

pub data AnomalyType : Type 0 where
  token_spike latency_spike tool_explosion high_retry_rate input_token_spike output_token_spike
        cost_spike prompt_change error_rate_spike :
      AnomalyType

unfoldable pub AnomalyType-discrete : Discrete AnomalyType
AnomalyType-discrete = hlevel

module _ (fl : Floats) where
  pub record InfectionReport : Type 0 where
    pub agent_id : String
    pub max_deviation : fl.Float
    pub anomalies : List AnomalyType
    pub deviations : Dict String fl.Float

  -- A row of `checks`.
  pub record Check : Type 0 where
    pub name : String
    pub value : fl.Float
    pub mean : fl.Float
    pub stddev : fl.Float
    pub anomaly_type : AnomalyType

  -- The two results of the loop over `checks`.
  pub record Found : Type 0 where
    pub deviations : Dict String fl.Float
    pub anomalies : List AnomalyType

module _ (fl : Floats) where
  unfoldable pub safe_deviation : fl.Float → fl.Float → fl.Float → Option fl.Float
  safe_deviation value mean stddev =
      let effective_stddev = max_float fl stddev (fl.mul (fl.abs mean) (fl.literal 5 100)) in
      if fl.le effective_stddev (fl.of_ℕ 0)
      then none
      else some (fl.div (fl.abs (fl.sub value mean)) effective_stddev)

  -- `sum(f(v) for v in recent)`, over the integers and over the floats
  unfoldable pub sum_ℕ : (AgentVitals fl → ℕ) → List (AgentVitals fl) → ℕ
  sum_ℕ f [] = 0
  sum_ℕ f (v ∷ vs) = f v + sum_ℕ f vs

  unfoldable pub sum_float :
      fl.Float → (AgentVitals fl → fl.Float) → List (AgentVitals fl) → fl.Float
  sum_float acc f [] = acc
  sum_float acc f (v ∷ vs) = sum_float (fl.add acc (f v)) f vs

  abbrev nonempty_text : String → Bool
  nonempty_text s = ite (String-discrete s "") false true

  -- The table of metrics, with the averages over the recent vitals.
  unfoldable pub checks_of : List (AgentVitals fl) → BaselineProfile fl → List (Check fl)
  checks_of recent b =
      let n = fl.of_ℕ (length recent) in
      let mean_ℕ = λ (f : AgentVitals fl → ℕ). fl.div (fl.of_ℕ (sum_ℕ f recent)) n in
      let rate = λ (p : AgentVitals fl → Bool). fl.div (fl.of_ℕ (count_if p recent)) n in
      record {
        name = "latency";
        value = mean_ℕ (λ v. v.latency_ms);
        mean = b.latency_mean;
        stddev = b.latency_stddev;
        anomaly_type = latency_spike;
      }
      ∷ record {
        name = "tokens";
        value = mean_ℕ (λ v. v.token_count);
        mean = b.tokens_mean;
        stddev = b.tokens_stddev;
        anomaly_type = token_spike;
      }
      ∷ record {
        name = "tools";
        value = mean_ℕ (λ v. v.tool_calls);
        mean = b.tools_mean;
        stddev = b.tools_stddev;
        anomaly_type = tool_explosion;
      }
      ∷ record {
        name = "input_tokens";
        value = mean_ℕ (λ v. v.input_tokens);
        mean = b.input_tokens_mean;
        stddev = b.input_tokens_stddev;
        anomaly_type = input_token_spike;
      }
      ∷ record {
        name = "output_tokens";
        value = mean_ℕ (λ v. v.output_tokens);
        mean = b.output_tokens_mean;
        stddev = b.output_tokens_stddev;
        anomaly_type = output_token_spike;
      }
      ∷ record {
        name = "cost";
        value = fl.div (sum_float (fl.of_ℕ 0) (λ v. v.cost) recent) n;
        mean = b.cost_mean;
        stddev = b.cost_stddev;
        anomaly_type = cost_spike;
      }
      ∷ record {
        name = "retry_rate";
        value = rate (λ v. ltb 0 v.retries);
        mean = b.retry_rate_mean;
        stddev = b.retry_rate_stddev;
        anomaly_type = high_retry_rate;
      }
      ∷ record {
        name = "error_rate";
        value = rate (λ v. nonempty_text v.error_type);
        mean = b.error_rate_mean;
        stddev = b.error_rate_stddev;
        anomaly_type = error_rate_spike;
      }
      ∷ []

  -- The body of the loop over `checks`.
  unfoldable pub run_check : fl.Float → Found fl → Check fl → Found fl
  run_check threshold found c = elim (safe_deviation c.value c.mean c.stddev) [
    | none ↦ found
    | some dev ↦ record {
      deviations = Dict.put String-discrete c.name dev found.deviations;
      anomalies =
          if fl.lt threshold dev then found.anomalies ++ c.anomaly_type ∷ [] else found.anomalies;
    }
  ]

  unfoldable pub run_checks : fl.Float → Found fl → List (Check fl) → Found fl
  run_checks threshold found [] = found
  run_checks threshold found (c ∷ cs) = run_checks threshold (run_check threshold found c) cs

  -- Whether the hashes of the recent prompts have changed: more than half differ from the baseline's.
  unfoldable pub prompt_changed : List (AgentVitals fl) → BaselineProfile fl → Bool
  prompt_changed recent b =
      nonempty_text b.prompt_hash
      && leb (length recent / 2 + 1) (
          count_if
            (λ v.
              nonempty_text v.prompt_hash
              && ite (String-discrete v.prompt_hash b.prompt_hash) false true)
            recent)

  unfoldable pub check_prompt : List (AgentVitals fl) → BaselineProfile fl → Found fl → Found fl
  check_prompt recent b found =
      if prompt_changed recent b
      then record {
        deviations = Dict.put String-discrete "prompt_change" (fl.literal 10 1) found.deviations;
        anomalies = found.anomalies ++ prompt_change ∷ [];
      }
      else found

  -- `max(values)`, which raises on no value
  unfoldable pub max_from : fl.Float → List fl.Float → fl.Float
  max_from m [] = m
  max_from m (v ∷ vs) = max_from (max_float fl m v) vs

  unfoldable pub max_of : List fl.Float → Result fl.Float
  max_of [] = raise value_error
  max_of (v ∷ vs) = ok (max_from v vs)

  -- What the recent vitals show: the loop over the checks, and then the prompts.
  unfoldable pub findings : fl.Float → List (AgentVitals fl) → BaselineProfile fl → Found fl
  findings threshold recent b =
      check_prompt recent b
        (run_checks threshold (record { deviations = []; anomalies = [] }) (checks_of recent b))

  unfoldable pub report_of : BaselineProfile fl → Found fl → Result (Option (InfectionReport fl))
  report_of b found = elim found.anomalies [
    | [] ↦ ok none
    | a ∷ as' ↦ do
      max_dev ← max_of (Dict.values found.deviations)
      ok (
          some (record {
            agent_id = b.agent_id;
            max_deviation = max_dev;
            anomalies = found.anomalies;
            deviations = found.deviations;
          }))
  ]

  -- `detect_infection`, at the sentinel's threshold; the last five vitals at most are read
  unfoldable pub detect_infection :
      fl.Float
      → List (AgentVitals fl)
      → Option (BaselineProfile fl)
      → Result (Option (InfectionReport fl))
  detect_infection threshold [] baseline = ok none
  detect_infection threshold (v ∷ vs) none = ok none
  detect_infection threshold (v ∷ vs) (some b) =
      report_of b (findings threshold (take_last 5 (v ∷ vs)) b)
