-- ===== src/Executors.antt =====
-- The executors, which carry out healing actions on agents (immune_system/executor.py). The context
-- of a call is the agent in memory, where there is one. A message is a text or the values it is
-- formatted from.
pub mod Gateway
pub mod Process
pub mod Container
pub mod Refusals
use ai_agent_immune_system.Common.{Bool, Floats, List, Option, String, false, none, some, true, ℕ}
use ai_agent_immune_system.Agents
use ai_agent_immune_system.Agents.{BaseAgent, clean_state, cure}
use ai_agent_immune_system.Healing.{HealingAction}

module _ (fl : Floats) where
  pub data Message : Type 0 where
    text : String → Message
    rolled_back : ℕ → Message
    autonomy_reduced : fl.Float → ℕ → Message
    control_succeeded : HealingAction → ℕ → Message
    control_returned : ℕ → Message
    command : List String → Message
    command_failed : List String → String → Message
    no_container_handler : HealingAction → Message

  pub record ExecutionResult : Type 0 where
    pub success : Bool
    pub action : HealingAction
    pub agent_id : String
    pub executor : String
    pub message : Message

  -- `context.get("agent")`
  abbrev pub Context : Type 0
  Context = Option (BaseAgent fl)

  -- An executor with a state of its own; a call may change the agent of the context.
  pub record HealingExecutor (S : Type 0) : Type 0 where
    pub name : String
    pub execute : S → String → HealingAction → Context → (S × Context) × ExecutionResult

module _ {fl : Floats} {S : Type 0} where
  unfoldable pub reset_memory :
      HealingExecutor fl S → S → String → Context fl → (S × Context fl) × ExecutionResult fl
  reset_memory x s agent_id ctx = x.execute s agent_id HealingAction.reset_memory ctx

  unfoldable pub rollback_prompt :
      HealingExecutor fl S → S → String → Context fl → (S × Context fl) × ExecutionResult fl
  rollback_prompt x s agent_id ctx = x.execute s agent_id HealingAction.rollback_prompt ctx

  unfoldable pub reduce_autonomy :
      HealingExecutor fl S → S → String → Context fl → (S × Context fl) × ExecutionResult fl
  reduce_autonomy x s agent_id ctx = x.execute s agent_id HealingAction.reduce_autonomy ctx

  unfoldable pub revoke_tools :
      HealingExecutor fl S → S → String → Context fl → (S × Context fl) × ExecutionResult fl
  revoke_tools x s agent_id ctx = x.execute s agent_id HealingAction.revoke_tools ctx

  unfoldable pub restart_agent :
      HealingExecutor fl S → S → String → Context fl → (S × Context fl) × ExecutionResult fl
  restart_agent x s agent_id ctx = x.execute s agent_id HealingAction.reset_agent ctx

module _ (fl : Floats) where
  abbrev pub outcome : Bool → String → String → HealingAction → Message fl → ExecutionResult fl
  outcome success executor agent_id action message = record {
    success = success;
    action = action;
    agent_id = agent_id;
    executor = executor;
    message = message;
  }

  -- What `SimulatedExecutor` does to the agent's state, with its message.
  unfoldable pub simulate : HealingAction → BaseAgent fl → BaseAgent fl × Message fl
  simulate HealingAction.reset_memory a =
      (record a { state = Agents.reset_memory fl a.state }, text "Memory cleared (simulated)")
  simulate HealingAction.rollback_prompt a =
      let s = Agents.rollback_prompt fl a.state in
      (record a { state = s }, rolled_back s.prompt_version)
  simulate HealingAction.reduce_autonomy a =
      let s = Agents.reduce_autonomy fl a.state in
      (record a { state = s }, autonomy_reduced s.temperature s.max_tools)
  simulate HealingAction.revoke_tools a =
      (record a { state = Agents.revoke_tools fl a.state }, text "Tools revoked (simulated)")
  simulate HealingAction.reset_agent a =
      (cure fl (record a { state = clean_state fl }), text "Agent reset to clean state (simulated)")

  unfoldable pub simulated_execute :
      String → HealingAction → Context fl → Context fl × ExecutionResult fl
  simulated_execute agent_id action none =
      (none, outcome false "simulated" agent_id action (text "no agent in context"))
  simulated_execute agent_id action (some a) =
      let (a', message) = simulate action a in
      (some (cure fl a'), outcome true "simulated" agent_id action message)

  -- `SimulatedExecutor`, which has no state
  unfoldable pub simulated_executor : HealingExecutor fl Unit
  simulated_executor = record {
    name = "simulated";
    execute = λ s agent_id action ctx.
        (let (ctx', r) = simulated_execute agent_id action ctx in ((s, ctx'), r));
  }
