-- ===== src/Proxy/Admission.antt =====
-- Which requests the proxy lets through, and what it answers (gateway/proxy.py, `forward`).
use ai_agent_immune_system.Common.{
  Bool, Floats, List, Option, Result, String, String-discrete, Texts, [], append_text, contains,
  false, keep, none, not, ok, or_text, raise, some, true, ℕ, ◌∷◌,
}
use ai_agent_immune_system.Policy.{PolicyAction, PolicyDecision, evaluate}
use ai_agent_immune_system.Routing
use ai_agent_immune_system.Fingerprint.{header, identify}
use ai_agent_immune_system.Proxy.{
  Answer, LlmProxy, Network, Reply, Request, UpstreamRequest, http_error, model_in, parse_body,
  response,
}

abbrev pub sender : Texts → Request → String
sender py r = identify py r.headers r.remote_addr

-- The headers that concern one connection, and those that the gateway keeps to itself.
abbrev pub internal_headers : List String
internal_headers =
    "connection" ∷ "keep-alive" ∷ "proxy-authenticate" ∷ "proxy-authorization" ∷ "te" ∷ "trailers"
    ∷ "transfer-encoding" ∷ "upgrade" ∷ "host" ∷ "x-llm-provider" ∷ []

abbrev pub status_of_answer : Answer → ℕ
status_of_answer (response resp) = resp.status_code
status_of_answer (http_error name) = 502

abbrev pub status_of_reply : Result Reply → Result ℕ
status_of_reply (ok reply) = ok reply.status_code
status_of_reply (raise e) = raise e

module _ {fl : Floats} {W : Type 0} where
  -- The status and what is sent, of a result of `forward`.
  abbrev pub seen :
      LlmProxy fl W × Result Reply × Option UpstreamRequest → Result ℕ × Option UpstreamRequest
  seen (p, reply, sent) = (status_of_reply reply, sent)

module _ (net : Network) where
  -- What is sent and the status of the answer, by the action of a decision.
  abbrev pub answered : PolicyAction → UpstreamRequest → Result ℕ × Option UpstreamRequest
  answered PolicyAction.block u = (ok 403, none)
  answered PolicyAction.throttle u = (ok 429, none)
  answered PolicyAction.allow u = (ok (status_of_answer (net.client u).0), some u)
  answered PolicyAction.alert u = (ok (status_of_answer (net.client u).0), some u)

module _ {fl : Floats} {W : Type 0} (fnmatch : String → String → Bool) (py : Texts)
    (net : Network) where
  -- The decision of the policy on a request.
  abbrev pub decision_on : LlmProxy fl W → Request → ℕ → Result PolicyDecision
  decision_on p r now =
      (evaluate fnmatch p.policy (sender py r) (model_in (parse_body net.parse_request r.body))
        now).1

  -- The request as it is sent: the same, to the upstream that the routing gives for its agent and its
  -- provider's header, less the headers of the connection and of the gateway.
  abbrev pub sent_on : LlmProxy fl W → Request → UpstreamRequest
  sent_on p r =
      let hint =
        py.strip
          (or_text (header r.headers "X-LLM-Provider") (header r.headers "x-llm-provider")) in
      record {
        method = r.method;
        url = append_text (Routing.resolve py p.routing (sender py r) hint) r.path;
        headers =
            keep (λ e. not (contains String-discrete (py.lower e.0) internal_headers)) r.headers;
        body = r.body;
      }

  -- What is sent and the status of the answer, by the quarantine, the decision and the client.
  abbrev pub expected :
      LlmProxy fl W → Request → Bool → Result PolicyDecision → Result ℕ × Option UpstreamRequest
  expected p r true decision = (ok 503, none)
  expected p r false (raise e) = (raise e, none)
  expected p r false (ok d) = answered net d.action (sent_on p r)
