-- ===== src/Executors/Refusals.antt =====
-- Which requests the gateway forwards after a healing by its rules (immune_system/executor.py,
-- `GatewayExecutor`, with gateway/policy.py and the admission of gateway/proxy.py), and the
-- simulated healing against that of the healer (immune_system/healing.py, `apply_healing`).
use ai_agent_immune_system.Common.{
  Bool, Floats, List, Result, String, String-discrete, [], append-nil, arith, false, if◌then◌else◌,
  keep, keep-append, leb, none, not, ok, raise, refl, some, some_or, true, ℕ, ◌&&◌, ◌++◌, ◌∷◌, ◌≡◌,
}
use ai_agent_immune_system.Agents.{BaseAgent}
use ai_agent_immune_system.Healing.{HealingAction}
use ai_agent_immune_system.Healing.Healer.{act_on, apply_healing}
use ai_agent_immune_system.Policy.{
  PolicyDecision, PolicyEngine, PolicyRule, add_rule, alert, allowed, check_models, evaluate,
  is_named, matching_rules, parse_action, remove_rule, violation, window_seconds,
}
use ai_agent_immune_system.Policy.Windows.{in_window}
use ai_agent_immune_system.Policy.Evaluation.{evaluate_lem, first_verdict, verdict}
use ai_agent_immune_system.Proxy.{refuses}
use ai_agent_immune_system.Executors.{simulate, simulated_execute}
use ai_agent_immune_system.Executors.Gateway.{block_rule, inject, no_tools_rule, throttle_rule}

-- Whether the proxy forwards a request with this decision; an evaluation that raises stops it.
unfoldable pub forwards : Result PolicyDecision → Bool
forwards (ok d) = not (refuses d.action)
forwards (raise e) = false

module _ (fnmatch : String → String → Bool) (model : String) (requests tokens : ℕ) where
  -- Whether no rule of the list has a decision.
  unfoldable pub is_undecided : List PolicyRule → Bool
  is_undecided [] = true
  is_undecided (r ∷ rules) = elim (verdict fnmatch r model requests tokens) [
    | some decision ↦ false
    | none ↦ is_undecided rules
  ]

  -- A rule at the end decides only what the others leave undecided.
  pub first_verdict-append_one :
      (rules : List PolicyRule) (r : PolicyRule)
      → first_verdict fnmatch (rules ++ r ∷ []) model requests tokens ≡ (
          if is_undecided rules
          then some_or (verdict fnmatch r model requests tokens) (ok allowed)
          else first_verdict fnmatch rules model requests tokens)
  unfolding is_undecided first_verdict
  first_verdict-append_one [] r = ground arith
  first_verdict-append_one (s ∷ rules) r = ground (arith, first_verdict-append_one rules r)

  first_verdict-undecided :
      (rules : List PolicyRule)
      → is_undecided rules ≡ true
      → first_verdict fnmatch rules model requests tokens ≡ ok allowed
  unfolding is_undecided first_verdict
  first_verdict-undecided [] h = refl
  first_verdict-undecided (s ∷ rules) h = ground (arith, first_verdict-undecided rules, h)

  -- What is forwarded with a rule at the end, for a rule whose own decisions are known.
  forwards-append_one :
      (rules : List PolicyRule) (r : PolicyRule)
      → forwards (first_verdict fnmatch (rules ++ r ∷ []) model requests tokens) ≡ (
          forwards (first_verdict fnmatch rules model requests tokens)
          && not (
              is_undecided rules
              && not (forwards (some_or (verdict fnmatch r model requests tokens) (ok allowed)))))
  unfolding forwards
  forwards-append_one rules r =
      ground (arith, first_verdict-append_one rules r, first_verdict-undecided rules)

module _ (fnmatch : String → String → Bool) (e : PolicyEngine) (j model : String) (now : ℕ) where
  abbrev requests : ℕ
  requests = in_window e.req_counter j window_seconds now

  abbrev tokens : ℕ
  tokens = in_window e.tok_counter j window_seconds now

  -- Whether no rule of the engine that matches the agent has a decision for its request.
  abbrev pub leaves_undecided : List PolicyRule → Bool
  leaves_undecided rules =
      is_undecided fnmatch model requests tokens (matching_rules fnmatch rules j)

  matching-append_one :
      (rules : List PolicyRule) (r : PolicyRule)
      → matching_rules fnmatch (rules ++ r ∷ []) j ≡ (
          if fnmatch j r.agent_pattern
          then matching_rules fnmatch rules j ++ r ∷ []
          else matching_rules fnmatch rules j)
  unfolding matching_rules
  matching-append_one rules r = ground (
    arith,
    keep-append (λ s. fnmatch j s.agent_pattern) rules (r ∷ []),
    append-nil (matching_rules fnmatch rules j),
  )

  -- What is forwarded after a rule is added, against the engine without the rules of its name.
  pub forwards-add_rule :
      (r : PolicyRule)
      → let others = remove_rule e r.name in
        forwards (evaluate fnmatch (add_rule e r) j model now).1 ≡ (
          forwards (evaluate fnmatch others j model now).1
          && not (
              fnmatch j r.agent_pattern
              && (leaves_undecided others.rules
                  && not
                      (forwards (some_or (verdict fnmatch r model requests tokens) (ok allowed))))))
  unfolding add_rule remove_rule
  forwards-add_rule r =
      let rules = keep (λ s. not (is_named r.name s)) e.rules in
      ground (
        arith,
        (evaluate_lem fnmatch (record e { rules = rules ++ r ∷ [] }) j model now).0,
        (evaluate_lem fnmatch (record e { rules = rules }) j model now).0,
        matching-append_one rules r,
        forwards-append_one fnmatch model requests tokens (matching_rules fnmatch rules j) r,
      )

-- The engine without the rule that an action gives it.
unfoldable pub without : PolicyEngine → String → HealingAction → PolicyEngine
without e agent_id HealingAction.reduce_autonomy = remove_rule e (throttle_rule agent_id).name
without e agent_id HealingAction.revoke_tools = remove_rule e (no_tools_rule agent_id).name
without e agent_id HealingAction.reset_agent = remove_rule e (block_rule agent_id).name
without e agent_id HealingAction.reset_memory = e
without e agent_id HealingAction.rollback_prompt = e

abbrev pub throttles : HealingAction → Bool
throttles HealingAction.reduce_autonomy = true
throttles _ = false

parse_alert : parse_action "alert" ≡ ok alert
unfolding parse_action String-discrete
parse_alert = refl

throttle_rule-pattern : (agent_id : String) → (throttle_rule agent_id).agent_pattern ≡ agent_id
unfolding throttle_rule
throttle_rule-pattern agent_id = refl

module _ (fnmatch : String → String → Bool) (model agent_id : String) (requests tokens : ℕ) where
  forwards-throttle_rule :
      forwards
        (some_or (verdict fnmatch (throttle_rule agent_id) model requests tokens) (ok allowed))
      ≡ not (leb 2 requests)
  unfolding forwards verdict check_models throttle_rule
  forwards-throttle_rule = ground arith

  forwards-no_tools_rule :
      forwards
        (some_or (verdict fnmatch (no_tools_rule agent_id) model requests tokens) (ok allowed))
      ≡ true
  unfolding forwards verdict check_models no_tools_rule violation
  forwards-no_tools_rule = ground (arith, parse_alert)

  forwards-block_rule :
      forwards (some_or (verdict fnmatch (block_rule agent_id) model requests tokens) (ok allowed))
      ≡ true
  unfolding forwards verdict check_models block_rule
  forwards-block_rule = ground arith

-- After a healing action at the gateway, a request of any agent is forwarded exactly when it is
-- forwarded by the engine without the rule of that action, unless the action reduces the autonomy,
-- the rule's pattern matches the agent, no other matching rule has a decision, and the agent made
-- two requests in the last minute. So neither a revocation of the tools nor a reset, whose result
-- says that the agent is fully blocked, stops any request.
pub inject-forwards :
    (fnmatch : String → String → Bool) (e : PolicyEngine) (agent_id : String)
    (action : HealingAction) (j model : String) (now : ℕ)
    → let others = without e agent_id action in
      forwards (evaluate fnmatch (inject e agent_id action).0 j model now).1 ≡ (
        forwards (evaluate fnmatch others j model now).1
        && not (
            throttles action
            && (fnmatch j agent_id
                && (leaves_undecided fnmatch e j model now others.rules
                    && leb 2 (in_window e.req_counter j window_seconds now)))))
unfolding inject without
inject-forwards fnmatch e i HealingAction.reduce_autonomy j model now = ground (
  arith,
  forwards-add_rule fnmatch e j model now (throttle_rule i),
  forwards-throttle_rule fnmatch model i (requests fnmatch e j model now)
      (tokens fnmatch e j model now),
  throttle_rule-pattern i,
)
inject-forwards fnmatch e i HealingAction.revoke_tools j model now = ground (
  arith,
  forwards-add_rule fnmatch e j model now (no_tools_rule i),
  forwards-no_tools_rule fnmatch model i (requests fnmatch e j model now)
      (tokens fnmatch e j model now),
)
inject-forwards fnmatch e i HealingAction.reset_agent j model now = ground (
  arith,
  forwards-add_rule fnmatch e j model now (block_rule i),
  forwards-block_rule fnmatch model i (requests fnmatch e j model now)
      (tokens fnmatch e j model now),
)
inject-forwards fnmatch e i HealingAction.reset_memory j model now = ground arith
inject-forwards fnmatch e i HealingAction.rollback_prompt j model now = ground arith

-- A simulated execution on an agent of the context does to it what the healer does without an
-- executor, and both report a success.
pub simulated_execute-apply_healing :
    (fl : Floats) (a : BaseAgent fl) (agent_id : String) (action : HealingAction)
    → ((simulated_execute fl agent_id action (some a)).0 ≡ some (apply_healing fl a action).1)
      × ((simulated_execute fl agent_id action (some a)).1.success ≡ true)
      × ((apply_healing fl a action).0.success ≡ true)
unfolding simulated_execute simulate apply_healing act_on
simulated_execute-apply_healing fl a agent_id HealingAction.reset_memory = (refl, refl, refl)
simulated_execute-apply_healing fl a agent_id HealingAction.rollback_prompt = (refl, refl, refl)
simulated_execute-apply_healing fl a agent_id HealingAction.reduce_autonomy = (refl, refl, refl)
simulated_execute-apply_healing fl a agent_id HealingAction.revoke_tools = (refl, refl, refl)
simulated_execute-apply_healing fl a agent_id HealingAction.reset_agent = (refl, refl, refl)
