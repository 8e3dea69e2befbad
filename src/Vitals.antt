-- ===== src/Vitals.antt =====
-- The vitals of a request and its response (gateway/vitals_extractor.py). A body is a JSON object of
-- the documented format: a record of the keys that are read, where a key that may be missing is an
-- option. Of a text that is only measured the length is kept. The clock is read once.
pub mod Cost
pub mod Stream
use ai_agent_immune_system.Common.{
  Bool, Floats, List, Option, Result, String, String-discrete, Texts, [], append_text, count_if,
  false, if◌then◌else◌, ite, ltb, map, none, ok, or_text, raise, some, some_or, true, truthy,
  type_error, ℕ, ◌++◌, ◌+◌, ◌/◌, ◌>>=◌, ◌∷◌,
}
use ai_agent_immune_system.Common.Dict
use ai_agent_immune_system.Common.Dict.{Dict}
use ai_agent_immune_system.Telemetry.{VitalsDict}

-- The `content` of a message: a text, a list of parts with a text each, or something else.
pub data Content : Type 0 where
  text_content : String → Content
  parts : List (Option String) → Content
  other_content : Content

pub record Message : Type 0 where
  pub role : Option String
  pub content : Option Content

pub record RequestBody : Type 0 where
  pub model : Option String
  pub messages : List Message

pub record Usage : Type 0 where
  pub prompt_tokens : Option ℕ
  pub completion_tokens : Option ℕ
  pub total_tokens : Option ℕ

-- A choice of a response: the length of the list `tool_calls`, if it is there, and whether there is a
-- `function_call`.
pub record Choice : Type 0 where
  pub tool_calls : Option ℕ
  pub function_call : Bool

-- A response, with the `type` of its `error`.
pub record ResponseBody : Type 0 where
  pub model : Option String
  pub usage : Option Usage
  pub choices : List Choice
  pub error_type : Option String

-- The `content` of a delta: it may be missing, or null, or a text of a length.
pub data DeltaContent : Type 0 where
  no_content null_content : DeltaContent
  chars : ℕ → DeltaContent

-- The delta of a choice of a chunk; a tool call is whether it has an index and an id.
pub record Delta : Type 0 where
  pub content : DeltaContent
  pub tool_calls : List Bool

-- A chunk that is an object; its model and its usage are there if they are true.
pub record Chunk : Type 0 where
  pub model : Option String
  pub usage : Option Usage
  pub choices : List Delta

module _ (fl : Floats) where
  pub record Rates : Type 0 where
    pub input : fl.Float
    pub output : fl.Float

  abbrev pub rates : ℕ → ℕ → ℕ → Rates
  rates i o d = record { input = fl.literal i d; output = fl.literal o d }

  -- `COST_PER_1K_TOKENS`, in its order
  abbrev pub cost_per_1k_tokens : Dict String Rates
  cost_per_1k_tokens =
      ("gpt-4", rates 30 60 1000)
      ∷ ("gpt-4-turbo", rates 10 30 1000)
      ∷ ("gpt-4o", rates 5 15 1000)
      ∷ ("gpt-4o-mini", rates 15 60 100000)
      ∷ ("gpt-3.5-turbo", rates 5 15 10000)
      ∷ ("o1", rates 15 60 1000)
      ∷ ("o1-mini", rates 3 12 1000)
      ∷ ("o3-mini", rates 11 44 10000)
      ∷ ("claude-3-opus", rates 15 75 1000)
      ∷ ("claude-3-sonnet", rates 3 15 1000)
      ∷ ("claude-3-haiku", rates 25 125 100000)
      ∷ ("claude-3.5-sonnet", rates 3 15 1000)
      ∷ ("claude-4-sonnet", rates 3 15 1000)
      ∷ ("claude-4-opus", rates 15 75 1000)
      ∷ ("gemini-2.0-flash", rates 1 4 10000)
      ∷ ("gemini-2.0-pro", rates 125 500 100000)
      ∷ []

  -- `_DEFAULT_COST`
  abbrev pub default_cost : Rates
  default_cost = rates 5 15 1000

  module _ (py : Texts) where
    -- The loop of `_match_cost`: the first key that the name contains.
    unfoldable pub first_match : String → Dict String Rates → Rates
    first_match lower [] = default_cost
    first_match lower ((key, cost) ∷ table) =
        let rest = first_match lower table in if py.is_in key lower then cost else rest

    unfoldable pub match_cost : String → Rates
    match_cost model = first_match (py.lower model) cost_per_1k_tokens

    unfoldable pub estimate_cost : String → ℕ → ℕ → fl.Float
    estimate_cost model input_tokens output_tokens =
        let r = match_cost model in
        fl.round
          (fl.add (fl.div (fl.mul (fl.of_ℕ input_tokens) r.input) (fl.literal 1000 1))
            (fl.div (fl.mul (fl.of_ℕ output_tokens) r.output) (fl.literal 1000 1)))
          6

-- The texts of one message that go into the system prompt.
unfoldable pub prompt_parts : Message → List String
prompt_parts m =
    let role = some_or m.role "" in
    if ite (String-discrete role "system") true (ite (String-discrete role "developer") true false)
    then (elim (some_or m.content (text_content "")) [
      | text_content s ↦ s ∷ []
      | parts ps ↦ map (λ p. some_or p "") ps
      | other_content ↦ []
    ])
    else []

unfoldable pub all_parts : List Message → List String
all_parts [] = []
all_parts (m ∷ ms) = prompt_parts m ++ all_parts ms

-- `"\n".join(parts)`
unfoldable pub join_lines : List String → String
join_lines [] = ""
join_lines (s ∷ []) = s
join_lines (s ∷ t ∷ ts) = append_text s (append_text "\n" (join_lines (t ∷ ts)))

unfoldable pub extract_system_prompt : List Message → String
extract_system_prompt messages = join_lines (all_parts messages)

-- What a choice adds to the count: a list that is empty leaves it to the function call.
unfoldable pub calls_of : Choice → ℕ
calls_of c =
    let n = some_or c.tool_calls 0 in if ltb 0 n then n else if c.function_call then 1 else 0

unfoldable pub count_tool_calls : List Choice → ℕ
count_tool_calls [] = 0
count_tool_calls (c ∷ cs) = calls_of c + count_tool_calls cs

abbrev pub usage_of : Option ResponseBody → Option Usage
usage_of none = none
usage_of (some r) = r.usage

-- `d.get(key, 0)` of a usage that may be missing
abbrev pub token_field : (Usage → Option ℕ) → Option Usage → ℕ
token_field f none = 0
token_field f (some u) = some_or (f u) 0

module _ (fl : Floats) (py : Texts) where
  unfoldable pub prompt_hash_of : RequestBody → String
  prompt_hash_of request =
      let system_prompt = extract_system_prompt request.messages in
      if truthy system_prompt then py.sha256 16 system_prompt else ""

  -- The dictionary that both extractions return.
  unfoldable pub vitals_of :
      RequestBody → String → ℕ → ℕ → ℕ → ℕ → String → String → Bool → String → ℕ → VitalsDict fl
  vitals_of request model input_tokens output_tokens tool_calls latency_ms agent_id agent_type
        success error_type now =
      record {
        timestamp = now;
        agent_id = agent_id;
        agent_type = agent_type;
        latency_ms = latency_ms;
        token_count = some (input_tokens + output_tokens);
        tool_calls = tool_calls;
        retries = 0;
        success = success;
        input_tokens = some input_tokens;
        output_tokens = some output_tokens;
        cost = some (estimate_cost fl py model input_tokens output_tokens);
        model = some model;
        error_type = some error_type;
        prompt_hash = some (prompt_hash_of request);
      }

  -- `response_body.get("model", "")`, and the request's model if that is empty
  unfoldable pub model_of : RequestBody → Option ResponseBody → String
  model_of request response =
      or_text (elim response [ none ↦ "" | some r ↦ some_or r.model "" ])
        (some_or request.model "unknown")

  unfoldable pub extract_vitals :
      RequestBody → Option ResponseBody → ℕ → String → String → Bool → String → ℕ → VitalsDict fl
  extract_vitals request response latency_ms agent_id agent_type success error_type now =
      vitals_of request (model_of request response)
        (token_field (λ u. u.prompt_tokens) (usage_of response))
        (token_field (λ u. u.completion_tokens) (usage_of response))
        (elim response [ none ↦ 0 | some r ↦ count_tool_calls r.choices ]) latency_ms agent_id
        agent_type success error_type now

-- What the loop over the chunks collects.
pub record Collected : Type 0 where
  pub model : String
  pub usage : Option Usage
  pub tool_call_count : ℕ

unfoldable pub count_deltas : List Delta → ℕ
count_deltas [] = 0
count_deltas (d ∷ ds) = count_if (λ b. b) d.tool_calls + count_deltas ds

unfoldable pub collect_chunk : Collected → Chunk → Collected
collect_chunk c ch = record {
  model = some_or ch.model c.model;
  usage = elim ch.usage [ none ↦ c.usage | some u ↦ some u ];
  tool_call_count = c.tool_call_count + count_deltas ch.choices;
}

unfoldable pub collect_chunks : Collected → List Chunk → Collected
collect_chunks c [] = c
collect_chunks c (ch ∷ chs) = collect_chunks (collect_chunk c ch) chs

-- `len(content)`, which raises on null
unfoldable pub content_length : DeltaContent → Result ℕ
content_length no_content = ok 0
content_length null_content = raise type_error
content_length (chars n) = ok n

unfoldable pub content_chars : List Delta → Result ℕ
content_chars [] = ok 0
content_chars (d ∷ ds) = do n ← content_length d.content; m ← content_chars ds; ok (n + m)

unfoldable pub all_content_chars : List Chunk → Result ℕ
all_content_chars [] = ok 0
all_content_chars (ch ∷ chs) = do
  n ← content_chars ch.choices
  m ← all_content_chars chs
  ok (n + m)

-- The output tokens: those of the usage, or else a quarter of the characters, and at least one.
unfoldable pub output_tokens_of : Option Usage → List Chunk → Result ℕ
output_tokens_of (some u) chunks = ok (some_or u.completion_tokens 0)
output_tokens_of none chunks = do
  n ← all_content_chars chunks
  ok (if ltb 1 (n / 4) then n / 4 else 1)

module _ (fl : Floats) (py : Texts) where
  unfoldable pub extract_vitals_from_stream_chunks :
      RequestBody → List Chunk → ℕ → String → String → Bool → String → ℕ → Result (VitalsDict fl)
  extract_vitals_from_stream_chunks request chunks latency_ms agent_id agent_type success error_type
        now =
      let c =
        collect_chunks
          (record { model = some_or request.model "unknown"; usage = none; tool_call_count = 0 })
          chunks in
      do
        output_tokens ← output_tokens_of c.usage chunks
        ok (
            vitals_of fl py request c.model (token_field (λ u. u.prompt_tokens) c.usage)
              output_tokens c.tool_call_count latency_ms agent_id agent_type success error_type now)
