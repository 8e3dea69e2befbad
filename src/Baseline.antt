-- ===== src/Baseline.antt =====
-- The baselines of the agents (immune_system/baseline.py): an exponentially weighted mean and variance
-- for each metric. The store is a state `W` with the operations of `Store`; what a store raises on a
-- write is caught by the source, so that its write returns a state.
pub mod Learner
pub mod Percentile
pub mod Warmup
pub mod Life
pub mod Restoring
pub mod Acceleration
use ai_agent_immune_system.Common.{
  Floats, List, Option, String, [], if◌then◌else◌, length, ltb, max_float, none, or_text, some,
  some_or, sort_by, suc, take_last, truthy, zero, ℕ, ◌*◌, ◌++◌, ◌+◌, ◌-◌, ◌/◌, ◌==◌, ◌∷◌,
}
use ai_agent_immune_system.Telemetry.{AgentVitals}

-- A value for each metric, in the order of the loops over their names.
pub record PerMetric (A : Type 0) : Type 0 where
  pub latency : A
  pub tokens : A
  pub tools : A
  pub input_tokens : A
  pub output_tokens : A
  pub cost : A
  pub retry_rate : A
  pub error_rate : A

unfoldable pub map_metrics : {A B : Type 0} → (A → B) → PerMetric A → PerMetric B
map_metrics f m = record {
  latency = f m.latency;
  tokens = f m.tokens;
  tools = f m.tools;
  input_tokens = f m.input_tokens;
  output_tokens = f m.output_tokens;
  cost = f m.cost;
  retry_rate = f m.retry_rate;
  error_rate = f m.error_rate;
}

module _ (fl : Floats) where
  pub record BaselineProfile : Type 0 where
    pub agent_id : String
    pub latency_mean : fl.Float
    pub latency_stddev : fl.Float
    pub latency_p95 : fl.Float
    pub tokens_mean : fl.Float
    pub tokens_stddev : fl.Float
    pub tokens_p95 : fl.Float
    pub tools_mean : fl.Float
    pub tools_stddev : fl.Float
    pub tools_p95 : fl.Float
    pub sample_size : ℕ
    pub input_tokens_mean : fl.Float
    pub input_tokens_stddev : fl.Float
    pub input_tokens_p95 : fl.Float
    pub output_tokens_mean : fl.Float
    pub output_tokens_stddev : fl.Float
    pub output_tokens_p95 : fl.Float
    pub cost_mean : fl.Float
    pub cost_stddev : fl.Float
    pub cost_p95 : fl.Float
    pub retry_rate_mean : fl.Float
    pub retry_rate_stddev : fl.Float
    pub error_rate_mean : fl.Float
    pub error_rate_stddev : fl.Float
    pub prompt_hash : String

  -- `_EWMAMetric`
  pub record EwmaMetric : Type 0 where
    pub mean : fl.Float
    pub variance : fl.Float
    pub count : ℕ
    pub alpha : fl.Float
    pub p95_sorted : List fl.Float

  -- The keys of a metric's dictionary.
  pub record MetricDict : Type 0 where
    pub mean : Option fl.Float
    pub variance : Option fl.Float
    pub count : Option ℕ

  -- `_AgentEWMA`
  pub record AgentEwma : Type 0 where
    pub metrics : PerMetric EwmaMetric
    pub prompt_hash : String

  -- The keys of an agent's dictionary.
  pub record AgentDict : Type 0 where
    pub metrics : PerMetric (Option MetricDict)
    pub prompt_hash : Option String

-- The number of values that `p95_sorted` keeps.
abbrev pub max_sorted : ℕ
max_sorted = 200

-- `int(n * 0.95)`, which this is for every `n` up to 200
abbrev pub p95_index : ℕ → ℕ
p95_index n = n * 95 / 100

-- The element at a place of the list, or the default beyond it.
unfoldable pub nth {ℓ} : {A : Type ℓ} → List A → ℕ → A → A
nth [] n d = d
nth (x ∷ xs) zero d = x
nth (x ∷ xs) (suc n) d = nth xs n d

module _ (fl : Floats) where
  unfoldable pub new_metric : fl.Float → EwmaMetric fl
  new_metric alpha = record {
    mean = fl.of_ℕ 0;
    variance = fl.of_ℕ 0;
    count = 0;
    alpha = alpha;
    p95_sorted = [];
  }

  unfoldable pub stddev : EwmaMetric fl → fl.Float
  stddev m = fl.sqrt (max_float fl (fl.of_ℕ 0) m.variance)

  -- `min(int(n * 0.95), n - 1)` for the length `n` of a list that is not empty
  unfoldable pub p95_place : ℕ → ℕ
  p95_place n = if ltb (n - 1) (p95_index n) then n - 1 else p95_index n

  unfoldable pub p95 : EwmaMetric fl → fl.Float
  p95 m = nth m.p95_sorted (p95_place (length m.p95_sorted)) m.mean

  -- The last values, with the new one, sorted.
  unfoldable pub push_sorted : List fl.Float → fl.Float → List fl.Float
  push_sorted values value =
      let values' = values ++ value ∷ [] in
      sort_by fl.lt
        (if ltb max_sorted (length values') then take_last max_sorted values' else values')

  unfoldable pub next_mean : EwmaMetric fl → fl.Float → fl.Float
  next_mean m value = fl.add (fl.mul m.alpha value) (fl.mul (fl.sub (fl.of_ℕ 1) m.alpha) m.mean)

  unfoldable pub next_variance : EwmaMetric fl → fl.Float → fl.Float
  next_variance m value =
      let diff = fl.sub value m.mean in
      fl.mul (fl.sub (fl.of_ℕ 1) m.alpha) (fl.add m.variance (fl.mul (fl.mul m.alpha diff) diff))

  unfoldable pub update_metric : EwmaMetric fl → fl.Float → EwmaMetric fl
  update_metric m value = record m {
    count = m.count + 1;
    mean = if m.count + 1 == 1 then value else next_mean m value;
    variance = if m.count + 1 == 1 then fl.of_ℕ 0 else next_variance m value;
    p95_sorted = push_sorted m.p95_sorted value;
  }

  unfoldable pub metric_to_dict : EwmaMetric fl → MetricDict fl
  metric_to_dict m = record { mean = some m.mean; variance = some m.variance; count = some m.count }

  -- A key that is missing from the agent's dictionary stands for an empty one.
  unfoldable pub metric_from_dict : EwmaMetric fl → Option (MetricDict fl) → EwmaMetric fl
  metric_from_dict m none = record m { mean = fl.of_ℕ 0; variance = fl.of_ℕ 0; count = 0 }
  metric_from_dict m (some d) = record m {
    mean = some_or d.mean (fl.of_ℕ 0);
    variance = some_or d.variance (fl.of_ℕ 0);
    count = some_or d.count 0;
  }

  unfoldable pub new_ewma : fl.Float → AgentEwma fl
  new_ewma alpha = record {
    metrics = record {
      latency = new_metric alpha;
      tokens = new_metric alpha;
      tools = new_metric alpha;
      input_tokens = new_metric alpha;
      output_tokens = new_metric alpha;
      cost = new_metric alpha;
      retry_rate = new_metric alpha;
      error_rate = new_metric alpha;
    };
    prompt_hash = "";
  }

  unfoldable pub ewma_to_dict : AgentEwma fl → AgentDict fl
  ewma_to_dict a = record {
    metrics = map_metrics (λ m. some (metric_to_dict m)) a.metrics;
    prompt_hash = some a.prompt_hash;
  }

  -- `from_dict` of the metrics that `new_ewma` makes
  unfoldable pub ewma_from_dict : fl.Float → AgentDict fl → AgentEwma fl
  ewma_from_dict alpha d = record {
    metrics = map_metrics (metric_from_dict (new_metric alpha)) d.metrics;
    prompt_hash = some_or d.prompt_hash "";
  }

  -- Every metric with another `alpha`.
  unfoldable pub set_alpha : fl.Float → AgentEwma fl → AgentEwma fl
  set_alpha alpha a = record a {
    metrics = map_metrics (λ (m : EwmaMetric fl). record m { alpha = alpha }) a.metrics;
  }

  unfoldable pub update_metrics :
      PerMetric (EwmaMetric fl) → AgentVitals fl → PerMetric (EwmaMetric fl)
  update_metrics m v = record {
    latency = update_metric m.latency (fl.of_ℕ v.latency_ms);
    tokens = update_metric m.tokens (fl.of_ℕ v.token_count);
    tools = update_metric m.tools (fl.of_ℕ v.tool_calls);
    input_tokens = update_metric m.input_tokens (fl.of_ℕ v.input_tokens);
    output_tokens = update_metric m.output_tokens (fl.of_ℕ v.output_tokens);
    cost = update_metric m.cost v.cost;
    retry_rate = update_metric m.retry_rate (if ltb 0 v.retries then fl.of_ℕ 1 else fl.of_ℕ 0);
    error_rate = update_metric m.error_rate (if truthy v.error_type then fl.of_ℕ 1 else fl.of_ℕ 0);
  }

  -- What `update` makes of an agent's metrics and of its prompt's hash.
  unfoldable pub update_ewma : AgentEwma fl → AgentVitals fl → AgentEwma fl
  update_ewma a v = record {
    metrics = update_metrics a.metrics v;
    prompt_hash = or_text v.prompt_hash a.prompt_hash;
  }

  unfoldable pub ewma_to_profile : String → AgentEwma fl → BaselineProfile fl
  ewma_to_profile agent_id a =
      let m = a.metrics in
      record {
        agent_id = agent_id;
        latency_mean = m.latency.mean;
        latency_stddev = stddev m.latency;
        latency_p95 = p95 m.latency;
        tokens_mean = m.tokens.mean;
        tokens_stddev = stddev m.tokens;
        tokens_p95 = p95 m.tokens;
        tools_mean = m.tools.mean;
        tools_stddev = stddev m.tools;
        tools_p95 = p95 m.tools;
        sample_size = m.latency.count;
        input_tokens_mean = m.input_tokens.mean;
        input_tokens_stddev = stddev m.input_tokens;
        input_tokens_p95 = p95 m.input_tokens;
        output_tokens_mean = m.output_tokens.mean;
        output_tokens_stddev = stddev m.output_tokens;
        output_tokens_p95 = p95 m.output_tokens;
        cost_mean = m.cost.mean;
        cost_stddev = stddev m.cost;
        cost_p95 = p95 m.cost;
        retry_rate_mean = m.retry_rate.mean;
        retry_rate_stddev = stddev m.retry_rate;
        error_rate_mean = m.error_rate.mean;
        error_rate_stddev = stddev m.error_rate;
        prompt_hash = a.prompt_hash;
      }
