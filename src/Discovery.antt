-- ===== src/Discovery.antt =====
-- The registry of the agents that the gateway has seen (gateway/discovery.py). Times are natural
-- numbers. `on_new_agent` is called with the record that is returned, and is left out.
pub mod Summary
use ai_agent_immune_system.Common.{
  List, Option, String, String-discrete, [], if◌then◌else◌, ite, length, none, set_add, some,
  truthy, ℕ, ◌+◌,
}
use ai_agent_immune_system.Common.Dict
use ai_agent_immune_system.Common.Dict.{Dict}

pub record AgentRecord : Type 0 where
  pub agent_id : String
  pub agent_type : String
  pub first_seen : ℕ
  pub last_seen : ℕ
  pub request_count : ℕ
  pub models_used : List String
  pub source_ips : List String

abbrev pub DiscoveryService : Type 0
DiscoveryService = Dict String AgentRecord

-- A request that is observed, with the time of the call.
pub record Observation : Type 0 where
  pub agent_id : String
  pub agent_type : String
  pub model : String
  pub source_ip : String
  pub time : ℕ

-- `if text: texts.add(text)`
unfoldable pub note_text : String → List String → List String
note_text s texts = if truthy s then set_add String-discrete s texts else texts

-- The record of an agent that is new.
unfoldable pub first_record : Observation → AgentRecord
first_record o = record {
  agent_id = o.agent_id;
  agent_type = o.agent_type;
  first_seen = o.time;
  last_seen = o.time;
  request_count = 1;
  models_used = note_text o.model [];
  source_ips = note_text o.source_ip [];
}

-- `agent_type != "external" and record.agent_type == "external"`
unfoldable pub better_type : String → String → String
better_type old new =
    ite (String-discrete new "external") old (ite (String-discrete old "external") new old)

-- What is changed in the record of a known agent.
unfoldable pub seen_again : AgentRecord → Observation → AgentRecord
seen_again r o = record r {
  last_seen = o.time;
  request_count = r.request_count + 1;
  models_used = note_text o.model r.models_used;
  source_ips = note_text o.source_ip r.source_ips;
  agent_type = better_type r.agent_type o.agent_type;
}

unfoldable pub observed : Option AgentRecord → Observation → AgentRecord
observed none o = first_record o
observed (some r) o = seen_again r o

-- `observe`; the record is an object of the registry, so that a change of it is a change there
unfoldable pub observe : DiscoveryService → Observation → DiscoveryService × AgentRecord
observe d o =
    let r = observed (Dict.get String-discrete o.agent_id d) o in
    (Dict.put String-discrete o.agent_id r d, r)

unfoldable pub get_agent : DiscoveryService → String → Option AgentRecord
get_agent d agent_id = Dict.get String-discrete agent_id d

unfoldable pub count : DiscoveryService → ℕ
count d = length d
