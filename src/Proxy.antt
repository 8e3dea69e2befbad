-- ===== src/Proxy.antt =====
-- The proxy of the gateway (gateway/proxy.py), which puts the policy, the routing, the registry of
-- agents and the vitals together. The HTTP client and the reading and writing of JSON are
-- parameters; the clock is read once in a call, and the client says how long it took. A stream is two
-- steps: it is opened, and later it is closed with the chunks that were read. `on_vitals` is the list
-- of what it is called with. Log lines are left out.
pub mod Admission
pub mod Streams
use ai_agent_immune_system.Common.{
  Bool, Floats, List, Option, Result, String, String-discrete, Texts, [], append_text, contains,
  false, if◌then◌else◌, keep, leb, ltb, none, not, ok, or_text, raise, some, some_or, true, truthy,
  ℕ, ◌&&◌, ◌++◌, ◌∷◌,
}
use ai_agent_immune_system.Common.Dict
use ai_agent_immune_system.Policy.{
  PolicyAction, PolicyDecision, PolicyEngine, Reason, evaluate, record_usage,
}
use ai_agent_immune_system.Quarantine.{QuarantineController, is_quarantined}
use ai_agent_immune_system.Routing
use ai_agent_immune_system.Routing.{RoutingTable}
use ai_agent_immune_system.Fingerprint.{Headers, derive_agent_type, header, identify}
use ai_agent_immune_system.Discovery.{DiscoveryService, observe}
use ai_agent_immune_system.Telemetry.{VitalsDict}
use ai_agent_immune_system.Vitals.{
  Chunk, RequestBody, ResponseBody, extract_vitals, extract_vitals_from_stream_chunks, token_field,
  usage_of,
}

-- A stream that was opened: what its generator needs when it is closed.
pub record OpenStream : Type 0 where
  pub agent_id : String
  pub agent_type : String
  pub request : RequestBody
  pub status_code : ℕ

module _ (fl : Floats) (W : Type 0) where
  pub record LlmProxy : Type 0 where
    pub routing : RoutingTable
    pub discovery : DiscoveryService
    pub policy : PolicyEngine
    pub quarantine : Option (QuarantineController W)
    pub vitals : List (VitalsDict fl)

pub record Request : Type 0 where
  pub method : String
  pub path : String
  pub headers : Headers
  pub body : Option String
  pub remote_addr : String

-- What is sent to a provider.
pub record UpstreamRequest : Type 0 where
  pub method : String
  pub url : String
  pub headers : Headers
  pub body : Option String

-- What the client makes of it: a response, or the name of an error; and the time that it took.
pub record Response : Type 0 where
  pub status_code : ℕ
  pub headers : Headers
  pub content : String

pub data Answer : Type 0 where
  response : Response → Answer
  http_error : String → Answer

-- A body that is returned: one of the proxy's own errors, or the provider's.
pub data ReplyBody : Type 0 where
  quarantined_error : ReplyBody
  policy_error : Reason → String → ReplyBody
  upstream_error : String → ReplyBody
  upstream_body : String → ReplyBody

pub record Reply : Type 0 where
  pub status_code : ℕ
  pub headers : Headers
  pub body : ReplyBody

-- The HTTP client, with the milliseconds it takes, and JSON.
pub record Network : Type 0 where
  pub client : UpstreamRequest → Answer × ℕ
  pub parse_request : String → Option RequestBody
  pub parse_response : String → Option ResponseBody
  pub dump_request : RequestBody → String

abbrev pub hop_by_hop : List String
hop_by_hop =
    "connection" ∷ "keep-alive" ∷ "proxy-authenticate" ∷ "proxy-authorization" ∷ "te" ∷ "trailers"
    ∷ "transfer-encoding" ∷ "upgrade" ∷ []

abbrev pub json_headers : Headers
json_headers = ("Content-Type", "application/json") ∷ []

abbrev pub empty_body : RequestBody
empty_body = record { model = none; messages = [] }

-- `action in (BLOCK, THROTTLE)`
abbrev pub refuses : PolicyAction → Bool
refuses PolicyAction.block = true
refuses PolicyAction.throttle = true
refuses _ = false

-- `_parse_body`
unfoldable pub parse_body {ℓ} : {A : Type ℓ} → (String → Option A) → Option String → Option A
parse_body parse none = none
parse_body parse (some raw) = if truthy raw then parse raw else none

abbrev pub in_success : ℕ → Bool
in_success status = leb 200 status && ltb status 400

abbrev pub refusal_status : PolicyAction → ℕ
refusal_status PolicyAction.throttle = 429
refusal_status _ = 403

module _ (py : Texts) where
  unfoldable pub forward_headers : Headers → Headers
  forward_headers headers =
      keep
        (λ e.
          let k = py.lower e.0 in
          not (contains String-discrete k hop_by_hop)
          && not (Routing.is_text k "host")
          && not (Routing.is_text k "x-llm-provider"))
        headers

  unfoldable pub resolve_upstream : RoutingTable → String → Headers → String → String
  resolve_upstream t agent_id headers path =
      let hint =
        py.strip (or_text (header headers "X-LLM-Provider") (header headers "x-llm-provider")) in
      append_text (Routing.resolve py t agent_id hint) path

abbrev pub refusal : PolicyDecision → Reply
refusal d = record {
  status_code = refusal_status d.action;
  headers = json_headers;
  body = policy_error d.reason d.rule_name;
}

abbrev pub quarantine_reply : Reply
quarantine_reply = record { status_code = 503; headers = json_headers; body = quarantined_error }

abbrev pub model_in : Option RequestBody → String
model_in none = ""
model_in (some b) = some_or b.model ""

module _ (py : Texts) where
  -- `error_type` of a response
  unfoldable pub error_type_of : Response → Option ResponseBody → String
  error_type_of resp none = ""
  error_type_of resp (some b) =
      if in_success resp.status_code
      then ""
      else some_or b.error_type (append_text "http_" (py.str resp.status_code))

module _ {fl : Floats} {W : Type 0} where
  -- Whether the proxy's controller has the agent in quarantine.
  unfoldable pub in_quarantine : LlmProxy fl W → String → Bool
  in_quarantine p agent_id = elim p.quarantine [ none ↦ false | some q ↦ is_quarantined q agent_id ]

module _ {fl : Floats} {W : Type 0} (fnmatch : String → String → Bool) (py : Texts)
    (net : Network) where
  -- `observe` and `evaluate`, for the model that the request names
  unfoldable pub admit :
      LlmProxy fl W → Request → String → String → String → ℕ → LlmProxy fl W × Result PolicyDecision
  admit p r agent_id agent_type model now =
      let seen = observe p.discovery (record {
        agent_id = agent_id;
        agent_type = agent_type;
        model = model;
        source_ip = r.remote_addr;
        time = now;
      }) in
      let decided = evaluate fnmatch p.policy agent_id model now in
      (record p { discovery = seen.0; policy = decided.0 }, decided.1)

  unfoldable pub upstream_request :
      LlmProxy fl W → Request → String → Option String → UpstreamRequest
  upstream_request p r agent_id body = record {
    method = r.method;
    url = resolve_upstream py p.routing agent_id r.headers r.path;
    headers = forward_headers py r.headers;
    body = body;
  }

  unfoldable pub emit : LlmProxy fl W → VitalsDict fl → LlmProxy fl W
  emit p v = record p { vitals = p.vitals ++ v ∷ [] }

  -- Behind the client's answer.
  unfoldable pub relay :
      LlmProxy fl W → String → String → RequestBody → ℕ → ℕ → Answer → LlmProxy fl W × Reply
  relay p agent_id agent_type request latency_ms now (http_error name) = (
    emit p (extract_vitals fl py request none latency_ms agent_id agent_type false name now),
    record { status_code = 502; headers = json_headers; body = upstream_error name },
  )
  relay p agent_id agent_type request latency_ms now (response resp) =
      let body = parse_body net.parse_response (some resp.content) in
      let p' = emit p (
        extract_vitals fl py request body latency_ms agent_id agent_type
          (in_success resp.status_code) (error_type_of py resp body) now) in
      (
        record p' {
          policy =
              record_usage p'.policy agent_id (token_field (λ u. u.total_tokens) (usage_of body))
                now;
        },
        record {
          status_code = resp.status_code;
          headers = resp.headers;
          body = upstream_body resp.content;
        },
      )

  -- `forward` from the decision on; the last part of the result is what was sent.
  unfoldable pub forward_decided :
      LlmProxy fl W
      → Request
      → String
      → String
      → Option RequestBody
      → ℕ
      → Result PolicyDecision
      → LlmProxy fl W × Result Reply × Option UpstreamRequest
  forward_decided p r agent_id agent_type request now (raise e) = (p, raise e, none)
  forward_decided p r agent_id agent_type request now (ok d) =
      if refuses d.action
      then (p, ok (refusal d), none)
      else (let u = upstream_request p r agent_id r.body in
          let (answer, latency_ms) = net.client u in
          let (p', reply) =
            relay p agent_id agent_type (some_or request empty_body) latency_ms now answer in
          (p', ok reply, some u))

  unfoldable pub forward :
      LlmProxy fl W → Request → ℕ → LlmProxy fl W × Result Reply × Option UpstreamRequest
  forward p r now =
      let agent_id = identify py r.headers r.remote_addr in
      let agent_type = derive_agent_type py r.headers in
      let request = parse_body net.parse_request r.body in
      let (p', decision) = admit p r agent_id agent_type (model_in request) now in
      if in_quarantine p agent_id
      then (p, ok quarantine_reply, none)
      else forward_decided p' r agent_id agent_type request now decision

  -- `request_body.setdefault("stream_options", {})["include_usage"] = True`, and the dump of the body
  -- with it, are the parameter `dump_request`.
  unfoldable pub open_decided :
      LlmProxy fl W
      → Request
      → String
      → String
      → RequestBody
      → ℕ
      → Result PolicyDecision
      → LlmProxy fl W × Result Reply × Option UpstreamRequest × Option OpenStream
  open_decided p r agent_id agent_type request now (raise e) = (p, raise e, none, none)
  open_decided p r agent_id agent_type request now (ok d) =
      if refuses d.action
      then (p, ok (refusal d), none, none)
      else (let u = upstream_request p r agent_id (some (net.dump_request request)) in
          let (answer, latency_ms) = net.client u in
          elim answer [
            | http_error name ↦ (
              emit p
                  (extract_vitals fl py request none latency_ms agent_id agent_type false name now),
              ok (record { status_code = 502; headers = json_headers; body = upstream_error name }),
              some u,
              none,
            )
            | response resp ↦ (
              p,
              ok (record {
                status_code = resp.status_code;
                headers = resp.headers;
                body = upstream_body "";
              }),
              some u,
              some (record {
                agent_id = agent_id;
                agent_type = agent_type;
                request = request;
                status_code = resp.status_code;
              }),
            )
          ])

  unfoldable pub open_stream :
      LlmProxy fl W
      → Request
      → ℕ
      → LlmProxy fl W × Result Reply × Option UpstreamRequest × Option OpenStream
  open_stream p r now =
      let agent_id = identify py r.headers r.remote_addr in
      let agent_type = derive_agent_type py r.headers in
      let request = some_or (parse_body net.parse_request r.body) empty_body in
      let (p', decision) = admit p r agent_id agent_type (some_or request.model "") now in
      if in_quarantine p agent_id
      then (p, ok quarantine_reply, none, none)
      else open_decided p' r agent_id agent_type request now decision

  -- The `finally` of the generator, behind the extraction of the vitals
  unfoldable pub close_with :
      LlmProxy fl W → String → ℕ → Result (VitalsDict fl) → LlmProxy fl W × Result (VitalsDict fl)
  close_with p agent_id now (raise e) = (p, raise e)
  close_with p agent_id now (ok v) =
      let p' = emit p v in
      (record p' { policy = record_usage p'.policy agent_id (some_or v.token_count 0) now }, ok v)

  unfoldable pub close_stream :
      LlmProxy fl W → OpenStream → List Chunk → ℕ → ℕ → LlmProxy fl W × Result (VitalsDict fl)
  close_stream p s chunks latency_ms now = close_with p s.agent_id now (
      extract_vitals_from_stream_chunks fl py s.request chunks latency_ms s.agent_id s.agent_type
        (in_success s.status_code) "" now)
