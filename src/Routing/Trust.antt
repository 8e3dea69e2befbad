-- ===== src/Routing/Trust.antt =====
-- Which upstream the gateway's routing can give (gateway/routing.py).
use ai_agent_immune_system.Common.{
  All, All-Any, Any, Any-map, Bool, Bool-cases, List, Option, Result, String, String-discrete,
  Texts, [], arith, false, if◌then◌else◌, inl, inr, none, ok, raise, refl, some, some_or, subst,
  sym, true, truthy, ◌∷◌, ◌≡◌, ◌⊎◌,
}
use ai_agent_immune_system.Common.Dict
use ai_agent_immune_system.Common.Dict.{Dict}
use ai_agent_immune_system.Routing
use ai_agent_immune_system.Routing.{
  ProviderRegistry, RoutingTable, by_header, by_route, find_url, init, is_text, register_valid,
  resolve_provider, resolve_stripped, validate_provider_name, validate_url,
}

-- The operators' calls.
pub data Call : Type 0 where
  register : String → String → Call
  unregister : String → Call
  set_route : String → String → Call
  remove_route : String → Call

module _ (py : Texts) where
  unfoldable pub step : RoutingTable → Call → RoutingTable
  step t (register name base_url) = record t {
    registry = (Routing.register py t.registry name base_url).0;
  }
  step t (unregister name) = record t { registry = (Routing.unregister py t.registry name).0 }
  step t (set_route agent_id provider) = (Routing.set_route py t agent_id provider).0
  step t (remove_route agent_id) = (Routing.remove_route py t agent_id).0

  unfoldable pub run : RoutingTable → List Call → RoutingTable
  run t [] = t
  run t (c ∷ cs) = run (step t c) cs

  -- The call registers the URL: its name and its URL are valid.
  abbrev pub Registers : String → Call → Type 0
  Registers url c =
      (name : String) × (base : String) × (c ≡ register name base)
      × (validate_provider_name py name ≡ true)
      × (validate_url py base ≡ ok true)
      × (url ≡ py.rstrip_slash base)

  -- The default upstream, or a URL that one of the calls registers, each without its last slashes.
  abbrev pub IsTrusted : String → List Call → String → Type 0
  IsTrusted upstream calls url = (url ≡ py.rstrip_slash upstream) ⊎ Any (Registers url) calls

  pub record OnlyTrusted (upstream : String) (calls : List Call) (t : RoutingTable) : Type 0 where
    pub default : IsTrusted upstream calls t.registry.default
    pub providers : All (λ e. IsTrusted upstream calls e.1) t.registry.providers

  module _ (upstream : String) (all : List Call) where
    register_valid-IsTrusted :
        (r : ProviderRegistry) (name base : String) (v : Result Bool)
        → validate_url py base ≡ v
        → validate_provider_name py name ≡ true
        → Any (λ c. c ≡ register name base) all
        → All (λ e. IsTrusted upstream all e.1) r.providers
        → (All (λ e. IsTrusted upstream all e.1) (register_valid py r name base v).0.providers)
          × ((register_valid py r name base v).0.default ≡ r.default)
    unfolding register_valid
    register_valid-IsTrusted r name base (ok true) h valid there a = (
      Dict.All-put String-discrete (IsTrusted upstream all) name (py.rstrip_slash base) r.providers
          (inr (Any-map (λ c e. (name, base, e, valid, h, refl)) all there)) a,
      refl,
    )
    register_valid-IsTrusted r name base (ok false) h valid there a = (a, refl)
    register_valid-IsTrusted r name base (raise e) h valid there a = (a, refl)

    register-IsTrusted :
        (r : ProviderRegistry) (name base : String)
        → Any (λ c. c ≡ register name base) all
        → All (λ e. IsTrusted upstream all e.1) r.providers
        → (All (λ e. IsTrusted upstream all e.1) (Routing.register py r name base).0.providers)
          × ((Routing.register py r name base).0.default ≡ r.default)
    unfolding Routing.register
    register-IsTrusted r name base there a = elim (Bool-cases (validate_provider_name py name)) [
      | inl valid ↦
          rw valid (register_valid-IsTrusted r name base (validate_url py base) refl valid there a)
      | inr invalid ↦ rw invalid (a, refl)
    ]

    unregister-IsTrusted :
        (r : ProviderRegistry) (name : String)
        → All (λ e. IsTrusted upstream all e.1) r.providers
        → (All (λ e. IsTrusted upstream all e.1) (Routing.unregister py r name).0.providers)
          × ((Routing.unregister py r name).0.default ≡ r.default)
    unfolding Routing.unregister
    unregister-IsTrusted r name a = elim (Bool-cases (is_text name "default")) [
      | inl is ↦ rw is (a, refl)
      | inr isnt ↦
          rw isnt
            (Dict.All-remove String-discrete (IsTrusted upstream all) name r.providers a, refl)
    ]

    set_route-registry :
        (t : RoutingTable) (agent_id provider : String)
        → (Routing.set_route py t agent_id provider).0.registry ≡ t.registry
    unfolding Routing.set_route
    set_route-registry t agent_id provider = ground (arith, Routing.get py t.registry provider)

    OnlyTrusted-step :
        (t : RoutingTable) (c : Call)
        → Any (λ d. d ≡ c) all
        → OnlyTrusted upstream all t
        → OnlyTrusted upstream all (step t c)
    unfolding step Routing.remove_route
    OnlyTrusted-step t (register name base) there h =
        let (kept, same) = register-IsTrusted t.registry name base there h.providers in
        record { default = subst (IsTrusted upstream all) (sym same) h.default; providers = kept }
    OnlyTrusted-step t (unregister name) there h =
        let (kept, same) = unregister-IsTrusted t.registry name h.providers in
        record { default = subst (IsTrusted upstream all) (sym same) h.default; providers = kept }
    OnlyTrusted-step t (set_route agent_id provider) there h =
        let same = set_route-registry t agent_id provider in
        record {
          default = subst (λ r. IsTrusted upstream all r.default) (sym same) h.default;
          providers =
              subst (λ r. All (λ e. IsTrusted upstream all e.1) r.providers) (sym same) h.providers;
        }
    OnlyTrusted-step t (remove_route agent_id) there h = record {
      default = h.default;
      providers = h.providers;
    }

    OnlyTrusted-run :
        (t : RoutingTable) (cs : List Call)
        → All (λ c. Any (λ d. d ≡ c) all) cs
        → OnlyTrusted upstream all t
        → OnlyTrusted upstream all (run t cs)
    unfolding run
    OnlyTrusted-run t [] there h = h
    OnlyTrusted-run t (c ∷ cs) there h =
        OnlyTrusted-run (step t c) cs there.1 (OnlyTrusted-step t c there.0 h)

    find_url-IsTrusted :
        (url u : String) (d : Dict String String)
        → All (λ e. IsTrusted upstream all e.1) d
        → find_url url (Dict.values d) ≡ some u
        → IsTrusted upstream all u
    unfolding find_url
    find_url-IsTrusted url u [] a h = ground (arith, h)
    find_url-IsTrusted url u ((k, v) ∷ d) a h = elim (String-discrete v url) [
      | yes same ↦ subst (IsTrusted upstream all) (ground (arith, h, same)) a.0
      | no other ↦ find_url-IsTrusted url u d a.1 (ground (arith, h, other))
    ]

    -- What holds of the URL of an option, if there is one.
    abbrev HoldsOf : Option String → Type 0
    HoldsOf none = Unit
    HoldsOf (some url) = IsTrusted upstream all url

    HoldsOf-cases :
        (o : Option String) → ((u : String) → o ≡ some u → IsTrusted upstream all u) → HoldsOf o
    HoldsOf-cases none f = tt
    HoldsOf-cases (some u) f = f u refl

    get-HoldsOf :
        (t : RoutingTable) (name : String)
        → OnlyTrusted upstream all t
        → HoldsOf (Dict.get String-discrete name t.registry.providers)
    get-HoldsOf t name h = HoldsOf-cases (Dict.get String-discrete name t.registry.providers) (λ u.
        Dict.All-get String-discrete (IsTrusted upstream all) name u t.registry.providers
          h.providers)

    resolve_stripped-HoldsOf :
        (t : RoutingTable) (s : String) (o : Option String)
        → OnlyTrusted upstream all t
        → HoldsOf o
        → HoldsOf (resolve_stripped py t.registry s o)
    unfolding resolve_stripped
    resolve_stripped-HoldsOf t s (some url) h k = k
    resolve_stripped-HoldsOf t s none h k =
        HoldsOf-cases (find_url (py.rstrip_slash s) (Dict.values t.registry.providers))
          (λ u. find_url-IsTrusted (py.rstrip_slash s) u t.registry.providers h.providers)

    HoldsOf-if : (b : Bool) (o : Option String) → HoldsOf o → HoldsOf (if b then o else none)
    HoldsOf-if true o h = h
    HoldsOf-if false o h = tt

    by_header-HoldsOf :
        (t : RoutingTable) (header : String)
        → OnlyTrusted upstream all t
        → HoldsOf (by_header py t header)
    unfolding by_header resolve_provider
    by_header-HoldsOf t header h =
        let s = py.strip header in
        HoldsOf-if (truthy header) _ (
          HoldsOf-if (truthy s) _ (
            resolve_stripped-HoldsOf t s (Dict.get String-discrete s t.registry.providers) h
              (get-HoldsOf t s h)))

    by_route-HoldsOf :
        (t : RoutingTable) (agent_id : String)
        → OnlyTrusted upstream all t
        → HoldsOf (by_route py t agent_id)
    unfolding by_route Routing.get
    by_route-HoldsOf t agent_id h =
        let name = Dict.get_or String-discrete agent_id t.routes "" in
        HoldsOf-if (truthy name) _ (get-HoldsOf t name h)

    choose-IsTrusted :
        (o o' : Option String) (d : String)
        → HoldsOf o
        → HoldsOf o'
        → IsTrusted upstream all d
        → IsTrusted upstream all (elim o [ some url ↦ url | none ↦ some_or o' d ])
    choose-IsTrusted (some url) o' d h k l = h
    choose-IsTrusted none (some url) d h k l = k
    choose-IsTrusted none none d h k l = l

  -- After any sequence of the operators' calls, and whatever provider or URL a request's header names,
  -- an agent is routed to the default upstream or to a URL that one of those calls registers, with a
  -- name and a URL that pass the validation, and to no other.
  pub resolve-IsTrusted :
      (upstream : String) (cs : List Call) (agent_id header : String)
      → IsTrusted upstream cs (
          Routing.resolve py
            (run (record { registry = init py upstream; routes = [] }) cs)
            agent_id
            header)
  unfolding Routing.resolve init
  resolve-IsTrusted upstream cs agent_id header =
      let start : RoutingTable = record { registry = init py upstream; routes = [] } in
      let t = run start cs in
      let h =
        OnlyTrusted-run upstream cs start cs (All-Any cs)
          (record { default = inl refl; providers = (inl refl, tt) }) in
      choose-IsTrusted upstream cs (by_header py t header) (by_route py t agent_id)
        t.registry.default (by_header-HoldsOf upstream cs t header h)
        (by_route-HoldsOf upstream cs t agent_id h) h.default
