-- ===== src/Routing.antt =====
-- The providers and the routes of the gateway (gateway/routing.py). Python's text functions, the
-- regular expression of a provider's name and `urlparse` are parameters; a missing host name is
-- the empty text. Locks and log lines are left out.
pub mod Trust
use ai_agent_immune_system.Common.{
  Bool, List, Option, ParsedUrl, Result, String, String-discrete, Texts, [], contains, false,
  if◌then◌else◌, ite, none, ok, raise, some, some_or, true, truthy, ◌&&◌, ◌>>=◌, ◌∷◌,
}
use ai_agent_immune_system.Common.Dict
use ai_agent_immune_system.Common.Dict.{Dict}

pub record ProviderRegistry : Type 0 where
  pub default : String
  pub providers : Dict String String

pub record RoutingTable : Type 0 where
  pub registry : ProviderRegistry
  pub routes : Dict String String

unfoldable pub is_text : String → String → Bool
is_text a b = ite (String-discrete a b) true false

abbrev pub safe_http_hosts : List String
safe_http_hosts = "localhost" ∷ "127.0.0.1" ∷ "0.0.0.0" ∷ "::1" ∷ []

-- The loop of `resolve` over the registered URLs.
unfoldable pub find_url : String → List String → Option String
find_url url [] = none
find_url url (u ∷ us) = let rest = find_url url us in ite (String-discrete u url) (some u) rest

module _ (py : Texts) where
  unfoldable pub validate_provider_name : String → Bool
  validate_provider_name name = truthy name && py.matches_name name

  unfoldable pub validate_parsed : ParsedUrl → Bool
  validate_parsed p =
      if is_text p.scheme "https"
      then truthy p.hostname
      else if is_text p.scheme "http"
      then contains String-discrete (py.lower p.hostname) safe_http_hosts
      else false

  unfoldable pub validate_url : String → Result Bool
  validate_url url = do p ← py.urlparse url; ok (validate_parsed p)

  unfoldable pub init : String → ProviderRegistry
  init default_upstream = record {
    default = py.rstrip_slash default_upstream;
    providers = ("default", py.rstrip_slash default_upstream) ∷ [];
  }

  -- `register`, by what the validation of the URL says
  unfoldable pub register_valid :
      ProviderRegistry → String → String → Result Bool → ProviderRegistry × Result Bool
  register_valid r name base_url (ok true) = (
    record r { providers = Dict.put String-discrete name (py.rstrip_slash base_url) r.providers },
    ok true,
  )
  register_valid r name base_url (ok false) = (r, ok false)
  register_valid r name base_url (raise e) = (r, raise e)

  unfoldable pub register : ProviderRegistry → String → String → ProviderRegistry × Result Bool
  register r name base_url =
      if validate_provider_name name
      then register_valid r name base_url (validate_url base_url)
      else (r, ok false)

  -- `unregister`; an entry whose URL is empty is removed, and the answer is false all the same
  unfoldable pub unregister : ProviderRegistry → String → ProviderRegistry × Bool
  unregister r name = if is_text name "default" then (r, false) else (
    record r { providers = Dict.remove String-discrete name r.providers },
    truthy (Dict.get_or String-discrete name r.providers ""),
  )

  unfoldable pub get : ProviderRegistry → String → Option String
  get r name = Dict.get String-discrete name r.providers

  -- `ProviderRegistry.resolve`, by the entry of the stripped name
  unfoldable pub resolve_stripped : ProviderRegistry → String → Option String → Option String
  resolve_stripped r stripped (some url) = some url
  resolve_stripped r stripped none = find_url (py.rstrip_slash stripped) (Dict.values r.providers)

  unfoldable pub resolve_provider : ProviderRegistry → String → Option String
  resolve_provider r name_or_url =
      let stripped = py.strip name_or_url in
      if truthy stripped
      then resolve_stripped r stripped (Dict.get String-discrete stripped r.providers)
      else none

  unfoldable pub set_route : RoutingTable → String → String → RoutingTable × Bool
  set_route t agent_id provider = elim (get t.registry provider) [
    | none ↦ (t, false)
    | some _ ↦ (record t { routes = Dict.put String-discrete agent_id provider t.routes }, true)
  ]

  unfoldable pub remove_route : RoutingTable → String → RoutingTable × Bool
  remove_route t agent_id = (
    record t { routes = Dict.remove String-discrete agent_id t.routes },
    truthy (Dict.get_or String-discrete agent_id t.routes ""),
  )

  -- The tiers of `RoutingTable.resolve`: the header's provider, the agent's route, the default.
  unfoldable pub by_header : RoutingTable → String → Option String
  by_header t header = if truthy header then resolve_provider t.registry header else none

  unfoldable pub by_route : RoutingTable → String → Option String
  by_route t agent_id =
      let name = Dict.get_or String-discrete agent_id t.routes "" in
      if truthy name then get t.registry name else none

  unfoldable pub resolve : RoutingTable → String → String → String
  resolve t agent_id header = elim (by_header t header) [
    | some url ↦ url
    | none ↦ some_or (by_route t agent_id) t.registry.default
  ]
