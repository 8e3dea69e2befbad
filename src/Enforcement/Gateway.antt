-- ===== src/Enforcement/Gateway.antt =====
-- `GatewayEnforcement` (immune_system/enforcement.py): a strategy that injects rules into the policy
-- engine of the gateway.
use mathlib.Core.Option
use ai_agent_immune_system.Common.{
  Bool, Option, Option-cases, String, String-discrete, [], ap, append_text, arith, false,
  if◌then◌else◌, inl, inr, is_some, none, refl, some, true, ℕ, ◌≡◌,
}
use ai_agent_immune_system.Common.Dict
use ai_agent_immune_system.Common.Dict.{Dict}
use ai_agent_immune_system.Policy
use ai_agent_immune_system.Policy.{PolicyEngine, PolicyRule}
use ai_agent_immune_system.Policy.RuleSet.{add_rule-remove_rule, evaluate-add_inert}
use ai_agent_immune_system.Enforcement.{
  EnforcementResult, EnforcementStrategy, result, text, timeout,
}

-- `GatewayEnforcement`, with the engine that it refers to.
pub record GatewayEnforcement : Type 0 where
  pub policy : Option PolicyEngine
  pub blocked : Dict String String

unfoldable pub quarantine_name : String → String
quarantine_name agent_id = append_text "quarantine:" agent_id

-- The rule that `block` injects; what it does not name has the default of `PolicyRule`.
unfoldable pub blocking_rule : String → PolicyRule
blocking_rule agent_id = record {
  name = quarantine_name agent_id;
  agent_pattern = agent_id;
  allowed_models = [];
  blocked_models = [];
  max_requests_per_minute = 0;
  max_tokens_per_minute = 0;
  max_tokens_per_request = 0;
  action_on_violation = "block";
}

unfoldable pub set_policy_engine : GatewayEnforcement → PolicyEngine → GatewayEnforcement
set_policy_engine g engine = record g { policy = some engine }

unfoldable pub block : GatewayEnforcement → String → String → GatewayEnforcement × EnforcementResult
block g agent_id reason = elim g.policy [
  | none ↦ (g, result false "gateway" agent_id "block" (text "no policy engine"))
  | some engine ↦ (
    record g {
      policy = some (Policy.add_rule engine (blocking_rule agent_id));
      blocked = Dict.put String-discrete agent_id (quarantine_name agent_id) g.blocked;
    },
    result true "gateway" agent_id "block" (text (quarantine_name agent_id)),
  )
]

unfoldable pub unblock : GatewayEnforcement → String → GatewayEnforcement × EnforcementResult
unblock g agent_id = elim g.policy [
  | none ↦ (g, result false "gateway" agent_id "unblock" (text "no policy engine"))
  | some engine ↦
      let rule_name = Dict.get_or String-discrete agent_id g.blocked (quarantine_name agent_id) in
      (
        record g {
          policy = some (Policy.remove_rule engine rule_name);
          blocked = Dict.remove String-discrete agent_id g.blocked;
        },
        result true "gateway" agent_id "unblock" (text rule_name),
      )
]

unfoldable pub drain : GatewayEnforcement → String → ℕ → GatewayEnforcement × EnforcementResult
drain g agent_id timeout_s =
    ((block g agent_id "draining").0, result true "gateway" agent_id "drain" (timeout timeout_s))

unfoldable pub gateway_strategy : EnforcementStrategy GatewayEnforcement
gateway_strategy = record { name = "gateway"; block = block; unblock = unblock; drain = drain }

abbrev pub with_engine : PolicyEngine → Dict String String → GatewayEnforcement
with_engine engine blocked = record { policy = some engine; blocked = blocked }

-- A gateway that has an engine reports every block as a success, and yet the block decides nothing:
-- after it every request, of the blocked agent too, is decided as if the rules with the name of the
-- quarantine had been removed. The rule that `block` injects lists no models and sets no limit.
pub block_without_effect :
    (fnmatch : String → String → Bool) (engine : PolicyEngine) (blocked : Dict String String)
    (agent_id reason i model : String) (now : ℕ)
    → let g = with_engine engine blocked in
      ((block g agent_id reason).1.success ≡ true)
      × (Option.map
            (λ e. (Policy.evaluate fnmatch e i model now).1)
            (block g agent_id reason).0.policy
          ≡ some
              (Policy.evaluate fnmatch
                (Policy.remove_rule engine (quarantine_name agent_id))
                i
                model
                now).1)
unfolding block blocking_rule
block_without_effect fnmatch engine blocked agent_id reason i model now = (
  refl,
  ap some (
      evaluate-add_inert fnmatch engine (blocking_rule agent_id) i model now
        (refl, refl, refl, refl)),
)

-- Whatever the gateway had blocked before, to block an agent and then unblock it leaves the engine
-- with the rules whose name is not that of the quarantine, and the agent unblocked; both calls report
-- a success. With no engine both report a failure and change nothing.
pub unblock-block :
    (g : GatewayEnforcement) (agent_id reason : String)
    → let (g', blocking) = block g agent_id reason in
      let (g'', unblocking) = unblock g' agent_id in
      (g''.policy
        ≡ Option.map (λ engine. Policy.remove_rule engine (quarantine_name agent_id)) g.policy)
      × (blocking.success ≡ is_some g.policy)
      × (unblocking.success ≡ is_some g.policy)
      × (Dict.get String-discrete agent_id g''.blocked
          ≡ (if is_some g.policy then none else Dict.get String-discrete agent_id g.blocked))
unfolding block unblock blocking_rule
unblock-block g agent_id reason = elim (Option-cases g.policy) [
  | inl absent ↦ ground (arith, absent)
  | inr (engine, present) ↦
      let name = quarantine_name agent_id in
      let blocked = Dict.put String-discrete agent_id name g.blocked in
      ground (
        arith,
        present,
        Dict.get-put_self String-discrete agent_id name g.blocked,
        Dict.get-remove_self String-discrete agent_id blocked,
        add_rule-remove_rule engine (blocking_rule agent_id),
      )
]
