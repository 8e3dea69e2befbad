-- ===== src/Policy.antt =====
-- The gateway's policy engine (gateway/policy.py). Times are natural numbers of seconds, an amount
-- is a number of requests or of tokens, and a limit that the source reads as "not positive" is 0.
-- `fnmatch` is Python's glob matcher, a parameter. Locks are left out: a method runs as one step.
pub mod Windows
pub mod Evaluation
pub mod RuleSet
use ai_agent_immune_system.Common.{
  Bool, List, Option, Result, String, String-discrete, [], exists, false, if◌then◌else◌, ite, keep,
  leb, ltb, map, none, not, ok, raise, some, some_or, true, value_error, ℕ, ◌&&◌, ◌++◌, ◌+◌, ◌>>=◌,
  ◌∷◌,
}
use ai_agent_immune_system.Common.Dict
use ai_agent_immune_system.Common.Dict.{Dict}

pub data PolicyAction : Type 0 where
  allow block throttle alert : PolicyAction

-- `PolicyAction(value)`
unfoldable pub parse_action : String → Result PolicyAction
parse_action s = ite (String-discrete s "allow") (ok allow) (
    ite (String-discrete s "block") (ok block) (
      ite (String-discrete s "throttle") (ok throttle)
        (ite (String-discrete s "alert") (ok alert) (raise value_error))))

-- The texts of `reason`, with what they are formatted from.
pub data Reason : Type 0 where
  no_reason : Reason
  not_in_allowed_list : String → Reason
  is_blocked : String → Reason
  rate_limit_exceeded : ℕ → ℕ → Reason
  token_budget_exceeded : ℕ → ℕ → Reason

pub record PolicyDecision : Type 0 where
  pub action : PolicyAction
  pub rule_name : String
  pub reason : Reason

pub record PolicyRule : Type 0 where
  pub name : String
  pub agent_pattern : String
  pub allowed_models : List String
  pub blocked_models : List String
  pub max_requests_per_minute : ℕ
  pub max_tokens_per_minute : ℕ
  pub max_tokens_per_request : ℕ
  pub action_on_violation : String

-- The keys that `from_dict` looks for.
pub record RuleDict : Type 0 where
  pub name : Option String
  pub agent_pattern : Option String
  pub allowed_models : Option (List String)
  pub blocked_models : Option (List String)
  pub max_requests_per_minute : Option ℕ
  pub max_tokens_per_minute : Option ℕ
  pub max_tokens_per_request : Option ℕ
  pub action_on_violation : Option String

unfoldable pub from_dict : RuleDict → PolicyRule
from_dict d = record {
  name = some_or d.name "unnamed";
  agent_pattern = some_or d.agent_pattern "*";
  allowed_models = some_or d.allowed_models [];
  blocked_models = some_or d.blocked_models [];
  max_requests_per_minute = some_or d.max_requests_per_minute 0;
  max_tokens_per_minute = some_or d.max_tokens_per_minute 0;
  max_tokens_per_request = some_or d.max_tokens_per_request 0;
  action_on_violation = some_or d.action_on_violation "block";
}

-- `_SlidingWindowCounter`: for each key the times and amounts recorded.
abbrev pub Counter : Type 0
Counter = Dict String (List (ℕ × ℕ))

unfoldable pub record_amount : Counter → String → ℕ → ℕ → Counter
record_amount w key amount now =
    Dict.put String-discrete key (Dict.get_or String-discrete key w [] ++ (now, amount) ∷ []) w

-- The entries not older than the window: `t >= now - window`, without the subtraction.
unfoldable pub recent : ℕ → ℕ → List (ℕ × ℕ) → List (ℕ × ℕ)
recent window now entries = keep (λ e. leb now (e.0 + window)) entries

unfoldable pub total : List (ℕ × ℕ) → ℕ
total [] = 0
total ((t, amount) ∷ entries) = amount + total entries

-- `count`, which drops the old entries of a key that it knows
unfoldable pub count : Counter → String → ℕ → ℕ → Counter × ℕ
count w key window now = elim (Dict.get String-discrete key w) [
  | none ↦ (w, 0)
  | some entries ↦ (
    Dict.put String-discrete key (recent window now entries) w,
    total (recent window now entries),
  )
]

pub record PolicyEngine : Type 0 where
  pub rules : List PolicyRule
  pub req_counter : Counter
  pub tok_counter : Counter

-- The constructor, given the rules of its argument or of the environment.
unfoldable pub init : List RuleDict → PolicyEngine
init raw_rules = record { rules = map from_dict raw_rules; req_counter = []; tok_counter = [] }

abbrev pub is_named : String → PolicyRule → Bool
is_named rule_name r = ite (String-discrete r.name rule_name) true false

unfoldable pub remove_rule : PolicyEngine → String → PolicyEngine
remove_rule e rule_name = record e { rules = keep (λ r. not (is_named rule_name r)) e.rules }

unfoldable pub add_rule : PolicyEngine → PolicyRule → PolicyEngine
add_rule e rule = record e { rules = keep (λ r. not (is_named rule.name r)) e.rules ++ rule ∷ [] }

unfoldable pub record_usage : PolicyEngine → String → ℕ → ℕ → PolicyEngine
record_usage e agent_id tokens now = record e {
  req_counter = record_amount e.req_counter agent_id 1 now;
  tok_counter =
      if ltb 0 tokens then record_amount e.tok_counter agent_id tokens now else e.tok_counter;
}

-- The window of `count` where `evaluate` calls it.
abbrev pub window_seconds : ℕ
window_seconds = 60

-- The decision of a rule whose model lists are violated; its action may be no known word.
unfoldable pub violation : PolicyRule → Reason → Result PolicyDecision
violation rule reason = parse_action rule.action_on_violation >>= λ action.
    ok (record { action = action; rule_name = rule.name; reason = reason })

abbrev pub throttled : PolicyRule → Reason → PolicyDecision
throttled rule reason = record { action = throttle; rule_name = rule.name; reason = reason }

abbrev pub allowed : PolicyDecision
allowed = record { action = allow; rule_name = ""; reason = no_reason }

-- Whether a text or a list is truthy.
abbrev pub nonempty_text : String → Bool
nonempty_text s = ite (String-discrete s "") false true

abbrev pub nonempty {ℓ} : {A : Type ℓ} → List A → Bool
nonempty [] = false
nonempty (_ ∷ _) = true

module _ (fnmatch : String → String → Bool) where
  unfoldable pub matching_rules : List PolicyRule → String → List PolicyRule
  matching_rules rules agent_id = keep (λ r. fnmatch agent_id r.agent_pattern) rules

  -- The model lists of a rule: the decision if one of them is violated.
  unfoldable pub check_models : PolicyRule → String → Option (Result PolicyDecision)
  check_models rule model =
      if nonempty rule.allowed_models
        && nonempty_text model
        && not (exists (fnmatch model) rule.allowed_models)
      then some (violation rule (not_in_allowed_list model))
      else if nonempty rule.blocked_models
          && nonempty_text model
          && exists (fnmatch model) rule.blocked_models
      then some (violation rule (is_blocked model))
      else none

  -- The token limit of a rule.
  unfoldable pub check_tokens :
      PolicyEngine → PolicyRule → String → ℕ → PolicyEngine × Option (Result PolicyDecision)
  check_tokens e rule agent_id now =
      if ltb 0 rule.max_tokens_per_minute
      then (let (w, current) = count e.tok_counter agent_id window_seconds now in
          (
            record e { tok_counter = w },
            if leb rule.max_tokens_per_minute current
                then some
                    (ok (throttled rule (token_budget_exceeded current rule.max_tokens_per_minute)))
                else none,
          ))
      else (e, none)

  -- The two limits of a rule, requests first.
  unfoldable pub check_limits :
      PolicyEngine → PolicyRule → String → ℕ → PolicyEngine × Option (Result PolicyDecision)
  check_limits e rule agent_id now =
      if ltb 0 rule.max_requests_per_minute
      then (let (w, current) = count e.req_counter agent_id window_seconds now in
          let e' = record e { req_counter = w } in
          if leb rule.max_requests_per_minute current
          then (
            e',
            some (ok (throttled rule (rate_limit_exceeded current rule.max_requests_per_minute))),
          )
          else check_tokens e' rule agent_id now)
      else check_tokens e rule agent_id now

  -- The loop of `evaluate` over the matching rules.
  unfoldable pub evaluate_rules :
      List PolicyRule → PolicyEngine → String → String → ℕ → PolicyEngine × Result PolicyDecision
  evaluate_rules [] e agent_id model now = (e, ok allowed)
  evaluate_rules (rule ∷ rules) e agent_id model now = elim (check_models rule model) [
    | some decision ↦ (e, decision)
    | none ↦
        let (e', verdict) = check_limits e rule agent_id now in
        elim verdict [
          | some decision ↦ (e', decision)
          | none ↦ evaluate_rules rules e' agent_id model now
        ]
  ]

  unfoldable pub evaluate :
      PolicyEngine → String → String → ℕ → PolicyEngine × Result PolicyDecision
  evaluate e agent_id model now =
      evaluate_rules (matching_rules e.rules agent_id) e agent_id model now
