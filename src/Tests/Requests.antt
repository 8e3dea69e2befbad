-- ===== src/Tests/Requests.antt =====
-- The theorems on the gateway's policy engine and its routing at concrete inputs.
use ai_agent_immune_system.Common.{
  List, String-discrete, [], arith, count_if, if◌then◌else◌, leb, ok, refl, ℕ, ◌∷◌, ◌≡◌,
}
use ai_agent_immune_system.Common.Dict
use ai_agent_immune_system.Policy.{
  PolicyEngine, PolicyRule, allowed, evaluate, matching_rules, rate_limit_exceeded, recent,
  throttled, total, window_seconds,
}
use ai_agent_immune_system.Policy.Windows.{in_window}
use ai_agent_immune_system.Policy.Evaluation.{Keeps, evaluate_lem, first_verdict}
use ai_agent_immune_system.Policy.RuleSet.{evaluate-record_uses, in_last_minute, record_uses}
use ai_agent_immune_system.Routing
use ai_agent_immune_system.Routing.Trust
use ai_agent_immune_system.Routing.Trust.{IsTrusted, resolve-IsTrusted}
use ai_agent_immune_system.Tests.{glob, plain_texts}

abbrev rule : PolicyRule
rule = record {
  name = "limit";
  agent_pattern = "*";
  allowed_models = [];
  blocked_models = [];
  max_requests_per_minute = 2;
  max_tokens_per_minute = 0;
  max_tokens_per_request = 0;
  action_on_violation = "throttle";
}

abbrev inert : PolicyRule
inert = record rule { name = "inert"; max_requests_per_minute = 0 }

abbrev engine : PolicyEngine
engine = record { rules = rule ∷ []; req_counter = []; tok_counter = [] }

abbrev uses : List (ℕ × ℕ)
uses = (10, 5) ∷ (70, 5) ∷ (80, 5) ∷ []

evaluate_lem_example :
    ((evaluate glob engine "a" "gpt" 90).1
      ≡ first_verdict glob
          (matching_rules glob (rule ∷ []) "a")
          "gpt"
          (in_window [] "a" window_seconds 90)
          (in_window [] "a" window_seconds 90))
    × Keeps 90 engine (evaluate glob engine "a" "gpt" 90).0
evaluate_lem_example = evaluate_lem glob engine "a" "gpt" 90

one_matches : matching_rules glob (rule ∷ []) "a" ≡ rule ∷ []
unfolding matching_rules glob String-discrete
one_matches = refl

none_counted : in_window [] "a" window_seconds 90 ≡ 0
unfolding in_window recent total Dict.get
none_counted = refl

evaluate-record_uses_example :
    let made = count_if (in_last_minute 90) uses in
    (evaluate glob (record_uses engine "a" uses) "a" "gpt" 90).1
    ≡ ok (if leb 2 made then throttled rule (rate_limit_exceeded made 2) else allowed)
evaluate-record_uses_example =
    evaluate-record_uses glob engine rule "a" "gpt" uses 90 one_matches (refl, refl, refl)
      (omega arith) none_counted

abbrev routing_calls : List Trust.Call
routing_calls =
    Trust.register "azure" "azure.example"
    ∷ Trust.set_route "a" "azure"
    ∷ Trust.unregister "azure"
    ∷ []

resolve-IsTrusted_example : IsTrusted plain_texts "openai.example" routing_calls (
    Routing.resolve plain_texts
      (Trust.run plain_texts
        (record { registry = Routing.init plain_texts "openai.example"; routes = [] })
        routing_calls)
      "a"
      "evil.example")
resolve-IsTrusted_example =
    resolve-IsTrusted plain_texts "openai.example" routing_calls "a" "evil.example"
