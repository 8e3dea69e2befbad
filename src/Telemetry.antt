-- ===== src/Telemetry.antt =====
-- The telemetry collector in memory (immune_system/telemetry.py, with no store). Times are natural
-- numbers of seconds, counts natural numbers; a cost is a float. The exported metrics are left out.
pub mod Retention
use ai_agent_immune_system.Common.{
  Bool, Floats, List, Option, String, String-discrete, [], keep, leb, length, none, some, some_or,
  take_last, ℕ, ◌++◌, ◌+◌, ◌∷◌,
}
use ai_agent_immune_system.Common.Dict
use ai_agent_immune_system.Common.Dict.{Dict}

module _ (fl : Floats) where
  pub record AgentVitals : Type 0 where
    pub timestamp : ℕ
    pub agent_id : String
    pub agent_type : String
    pub latency_ms : ℕ
    pub token_count : ℕ
    pub tool_calls : ℕ
    pub retries : ℕ
    pub success : Bool
    pub input_tokens : ℕ
    pub output_tokens : ℕ
    pub cost : fl.Float
    pub model : String
    pub error_type : String
    pub prompt_hash : String

  -- The dictionary that `record` takes; a key that it may lack is an option.
  pub record VitalsDict : Type 0 where
    pub timestamp : ℕ
    pub agent_id : String
    pub agent_type : String
    pub latency_ms : ℕ
    pub token_count : Option ℕ
    pub tool_calls : ℕ
    pub retries : ℕ
    pub success : Bool
    pub input_tokens : Option ℕ
    pub output_tokens : Option ℕ
    pub cost : Option fl.Float
    pub model : Option String
    pub error_type : Option String
    pub prompt_hash : Option String

-- `_MAX_IN_MEMORY_SAMPLES`
abbrev pub max_in_memory_samples : ℕ
max_in_memory_samples = 500

module _ (fl : Floats) where
  pub record TelemetryCollector : Type 0 where
    pub samples : Dict String (List (AgentVitals fl))
    pub total_executions : ℕ

  unfoldable pub to_vitals : VitalsDict fl → AgentVitals fl
  to_vitals d =
      let input = some_or d.input_tokens 0 in
      let output = some_or d.output_tokens 0 in
      record {
        timestamp = d.timestamp;
        agent_id = d.agent_id;
        agent_type = d.agent_type;
        latency_ms = d.latency_ms;
        token_count = some_or d.token_count (input + output);
        tool_calls = d.tool_calls;
        retries = d.retries;
        success = d.success;
        input_tokens = input;
        output_tokens = output;
        cost = some_or d.cost (fl.literal 0 1);
        model = some_or d.model "";
        error_type = some_or d.error_type "";
        prompt_hash = some_or d.prompt_hash "";
      }

  -- `append` on a deque of the greatest length: the oldest sample makes room.
  unfoldable pub record_vitals : TelemetryCollector → VitalsDict fl → TelemetryCollector
  record_vitals c d =
      let v = to_vitals d in
      let old = Dict.get_or String-discrete v.agent_id c.samples [] in
      record c {
        samples =
            Dict.put String-discrete v.agent_id (take_last max_in_memory_samples (old ++ v ∷ []))
              c.samples;
        total_executions = c.total_executions + 1;
      }

  -- `v.timestamp >= now - window_seconds`, without the subtraction
  unfoldable pub get_recent : TelemetryCollector → String → ℕ → ℕ → List (AgentVitals fl)
  get_recent c agent_id window_seconds now =
      keep (λ v. leb now (v.timestamp + window_seconds))
        (Dict.get_or String-discrete agent_id c.samples [])

  unfoldable pub get_all : TelemetryCollector → String → List (AgentVitals fl)
  get_all c agent_id = Dict.get_or String-discrete agent_id c.samples []

  unfoldable pub get_count : TelemetryCollector → String → ℕ
  get_count c agent_id = length (Dict.get_or String-discrete agent_id c.samples [])

  abbrev last_of : List (AgentVitals fl) → Option (AgentVitals fl)
  last_of [] = none
  last_of (v ∷ []) = some v
  last_of (v ∷ w ∷ vs) = last_of (w ∷ vs)

  unfoldable pub get_latest : TelemetryCollector → String → Option (AgentVitals fl)
  get_latest c agent_id = last_of (Dict.get_or String-discrete agent_id c.samples [])
