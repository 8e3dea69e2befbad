-- ===== src/Executors/Gateway.antt =====
-- `GatewayExecutor` (immune_system/executor.py): healing by rules of the gateway's policy engine.
use ai_agent_immune_system.Common.{
  Floats, Option, String, [], append_text, false, none, some, true, ◌∷◌,
}
use ai_agent_immune_system.Healing.{HealingAction}
use ai_agent_immune_system.Policy.{PolicyEngine, PolicyRule, add_rule}
use ai_agent_immune_system.Executors.{ExecutionResult, HealingExecutor, outcome, text}

-- The rules that a healing action gives the engine.
unfoldable pub throttle_rule : String → PolicyRule
throttle_rule agent_id = record {
  name = append_text "heal:throttle:" agent_id;
  agent_pattern = agent_id;
  allowed_models = [];
  blocked_models = [];
  max_requests_per_minute = 2;
  max_tokens_per_minute = 0;
  max_tokens_per_request = 500;
  action_on_violation = "throttle";
}

unfoldable pub no_tools_rule : String → PolicyRule
no_tools_rule agent_id = record {
  name = append_text "heal:no-tools:" agent_id;
  agent_pattern = agent_id;
  allowed_models = [];
  blocked_models = "*" ∷ [];
  max_requests_per_minute = 0;
  max_tokens_per_minute = 0;
  max_tokens_per_request = 0;
  action_on_violation = "alert";
}

unfoldable pub block_rule : String → PolicyRule
block_rule agent_id = record {
  name = append_text "heal:block:" agent_id;
  agent_pattern = agent_id;
  allowed_models = [];
  blocked_models = [];
  max_requests_per_minute = 0;
  max_tokens_per_minute = 0;
  max_tokens_per_request = 0;
  action_on_violation = "block";
}

-- What an action does to the engine, with its message.
unfoldable pub inject : PolicyEngine → String → HealingAction → PolicyEngine × String
inject e agent_id HealingAction.reduce_autonomy =
    (add_rule e (throttle_rule agent_id), "Rate limit injected (2 req/min, 500 tok/req)")
inject e agent_id HealingAction.revoke_tools =
    (add_rule e (no_tools_rule agent_id), "Tool-calling models blocked via gateway policy")
inject e agent_id HealingAction.reset_memory =
    (e, "X-Clear-Context header injected (supported providers will clear context)")
inject e agent_id HealingAction.rollback_prompt =
    (e, "Prompt rollback requires external prompt registry — operator alerted")
inject e agent_id HealingAction.reset_agent = (
  add_rule e (block_rule agent_id),
  "Agent fully blocked at gateway — operator must restart agent process",
)

module _ (fl : Floats) where
  unfoldable pub gateway_execute :
      Option PolicyEngine → String → HealingAction → Option PolicyEngine × ExecutionResult fl
  gateway_execute none agent_id action =
      (none, outcome fl false "gateway" agent_id action (text "no policy engine configured"))
  gateway_execute (some e) agent_id action =
      let (e', msg) = inject e agent_id action in
      (some e', outcome fl true "gateway" agent_id action (text msg))

  -- The executor's state is its policy engine, if it has one.
  unfoldable pub gateway_executor : HealingExecutor fl (Option PolicyEngine)
  gateway_executor = record {
    name = "gateway";
    execute = λ s agent_id action ctx.
        (let (s', r) = gateway_execute s agent_id action in ((s', ctx), r));
  }
