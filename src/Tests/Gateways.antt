-- ===== src/Tests/Gateways.antt =====
-- The theorems on the gateway's proxy, registry, names and costs at concrete inputs.
use ai_agent_immune_system.Common.{
  List, String, String-discrete, Texts, [], arith, false, ite, keep, none, refl, some, true, ◌+◌,
  ◌∷◌, ◌≡◌, ◌≢◌,
}
use ai_agent_immune_system.Common.Dict
use ai_agent_immune_system.Policy.{window_seconds}
use ai_agent_immune_system.Policy.Windows.{in_window}
use ai_agent_immune_system.Routing
use ai_agent_immune_system.Fingerprint.{Headers, header}
use ai_agent_immune_system.Discovery.{Observation, get_agent}
use ai_agent_immune_system.Discovery.Summary.{SumsUp, is_of, observe_all, observe_all-SumsUp}
use ai_agent_immune_system.Vitals.{Chunk, null_content}
use ai_agent_immune_system.Proxy.{
  LlmProxy, Network, OpenStream, Request, close_stream, empty_body, response,
}
use ai_agent_immune_system.Proxy.Streams.{close_stream-counts}
use ai_agent_immune_system.Tests.{glob, hundredths, plain_texts}

abbrev named : Headers
named = ("X-Agent-ID", "a") ∷ []

header-named : plain_texts.strip (header named "X-Agent-ID") ≢ ""
unfolding header Dict.get String-discrete plain_texts
header-named = λ e. cc

abbrev observations : List Observation
observations =
    record {
      agent_id = "a";
      agent_type = "external";
      model = "gpt";
      source_ip = "10.0.0.1";
      time = 5;
    }
    ∷ record { agent_id = "b"; agent_type = "external"; model = ""; source_ip = ""; time = 6 }
    ∷ record {
      agent_id = "a";
      agent_type = "openai";
      model = "gpt";
      source_ip = "10.0.0.2";
      time = 7;
    }
    ∷ []

observe_all-SumsUp_example :
    SumsUp (keep (is_of "a") observations) (get_agent (observe_all [] observations) "a")
observe_all-SumsUp_example = observe_all-SumsUp observations "a"

-- Texts in which the name of the later model contains that of the earlier one.
unfoldable model_texts : Texts
model_texts = record plain_texts {
  is_in = λ s t. ite (String-discrete t "gpt-4o") true (ite (String-discrete s t) true false);
}

later_has_earlier :
    (s : String) → model_texts.is_in "gpt-4o" s ≡ true → model_texts.is_in "gpt-4" s ≡ true
unfolding model_texts
later_has_earlier s h = ground (arith, h)

model_has_later : model_texts.is_in "gpt-4o" (model_texts.lower "gpt-4o") ≡ true
unfolding model_texts plain_texts String-discrete
model_has_later = refl

abbrev network : Network
network = record {
  client = λ u. (response (record { status_code = 200; headers = []; content = "" }), 12);
  parse_request = λ s. some (record { model = some s; messages = [] });
  parse_response = λ s. none;
  dump_request = λ b. "";
}

abbrev proxy : LlmProxy hundredths Unit
proxy = record {
  routing = record { registry = Routing.init plain_texts "openai.example"; routes = [] };
  discovery = [];
  policy = record { rules = []; req_counter = []; tok_counter = [] };
  quarantine = none;
  vitals = [];
}

abbrev request : Request
request = record {
  method = "POST";
  path = "/v1/chat/completions";
  headers = named;
  body = some "gpt-4o";
  remote_addr = "10.0.0.1";
}

-- A proxy whose policy throttles every agent that asks for the model of the request.
abbrev guarded_proxy : LlmProxy hundredths Unit
guarded_proxy = record proxy {
  policy = record {
    rules =
        record {
          name = "costly";
          agent_pattern = "*";
          allowed_models = [];
          blocked_models = "gpt-4o" ∷ [];
          max_requests_per_minute = 0;
          max_tokens_per_minute = 0;
          max_tokens_per_request = 0;
          action_on_violation = "throttle";
        }
        ∷ [];
    req_counter = [];
    tok_counter = [];
  };
}

-- A stream with a delta whose content is null, and no usage.
abbrev chunks : List Chunk
chunks =
    record {
      model = none;
      usage = none;
      choices = record { content = null_content; tool_calls = [] } ∷ [];
    }
    ∷ []

abbrev stream : OpenStream
stream = record { agent_id = "a"; agent_type = "coder"; request = empty_body; status_code = 200 }

close_stream-counts_example :
    in_window
      (close_stream glob plain_texts network proxy stream chunks 12 5).0.policy.req_counter
      "a"
      window_seconds
      5
    ≡ in_window proxy.policy.req_counter "a" window_seconds 5 + 0
close_stream-counts_example = close_stream-counts glob plain_texts network proxy stream chunks 12 5
