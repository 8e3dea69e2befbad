-- ===== src/Executors/Container.antt =====
-- `ContainerExecutor` (immune_system/executor.py): restarts by `docker` and `kubectl`, with another
-- executor to fall back on. `run` runs a command over a state of the tools: `none` if the program is
-- not found, and else whether it returned 0, with its error output, stripped.
use ai_agent_immune_system.Common.{
  Bool, Floats, List, Option, String, String-discrete, [], append_text, false, ite, none, some,
  true, ◌∷◌,
}
use ai_agent_immune_system.Common.Dict
use ai_agent_immune_system.Common.Dict.{Dict}
use ai_agent_immune_system.Healing.{HealingAction, HealingAction-discrete}
use ai_agent_immune_system.Enforcement.Container.{Target, docker, k8s}
use ai_agent_immune_system.Executors.{
  Context, ExecutionResult, HealingExecutor, Message, command, command_failed, no_container_handler,
  outcome, text,
}

-- The registrations and the state of the tools, with the state of the fallback.
pub record ContainerExecutor (O S : Type 0) : Type 0 where
  pub containers : Dict String Target
  pub tools : O
  pub fallback : S

module _ {O S : Type 0} where
  unfoldable pub register_container :
      ContainerExecutor O S → String → String → ContainerExecutor O S
  register_container c agent_id container_id = record c {
    containers = Dict.put String-discrete agent_id (docker container_id) c.containers;
  }

  unfoldable pub register_k8s :
      ContainerExecutor O S → String → String → String → ContainerExecutor O S
  register_k8s c agent_id namespace deployment = record c {
    containers = Dict.put String-discrete agent_id (k8s namespace deployment) c.containers;
  }

-- The command that restarts a target, and the message where its program is missing.
abbrev pub restarting : Target → List String
restarting (docker container_id) = "docker" ∷ "restart" ∷ container_id ∷ []
restarting (k8s namespace deployment) =
    "kubectl" ∷ "rollout" ∷ "restart" ∷ append_text "deployment/" deployment ∷ "-n" ∷ namespace ∷ []

abbrev pub missing_program : Target → String
missing_program (docker container_id) = "docker_not_found"
missing_program (k8s namespace deployment) = "kubectl_not_found"

module _ (fl : Floats) {O S : Type 0} (run : O → List String → O × Option (Bool × String))
    (fallback : Option (HealingExecutor fl S)) where
  unfoldable pub restarted : Target → String → Option (Bool × String) → ExecutionResult fl
  restarted t agent_id none =
      outcome fl false "container" agent_id HealingAction.reset_agent (text (missing_program t))
  restarted t agent_id (some (true, stderr)) =
      outcome fl true "container" agent_id HealingAction.reset_agent (command (restarting t))
  restarted t agent_id (some (false, stderr)) =
      outcome fl false "container" agent_id HealingAction.reset_agent
        (command_failed (restarting t) stderr)

  -- `_docker_restart` and `_k8s_restart`
  unfoldable pub restart :
      ContainerExecutor O S → Target → String → ContainerExecutor O S × ExecutionResult fl
  restart c t agent_id =
      let (tools', answer) = run c.tools (restarting t) in
      (record c { tools = tools' }, restarted t agent_id answer)

  -- A call that falls back, with the message where there is no fallback.
  unfoldable pub fall_back :
      ContainerExecutor O S
      → String
      → HealingAction
      → Context fl
      → Message fl
      → (ContainerExecutor O S × Context fl) × ExecutionResult fl
  fall_back c agent_id action ctx message = elim fallback [
    | none ↦ ((c, ctx), outcome fl false "container" agent_id action message)
    | some x ↦
        let ((s, ctx'), r) = x.execute c.fallback agent_id action ctx in
        ((record c { fallback = s }, ctx'), r)
  ]

  unfoldable pub container_execute :
      ContainerExecutor O S
      → String
      → HealingAction
      → Context fl
      → (ContainerExecutor O S × Context fl) × ExecutionResult fl
  container_execute c agent_id action ctx = elim (Dict.get String-discrete agent_id c.containers) [
    | none ↦ fall_back c agent_id action ctx (text "not_registered")
    | some t ↦
        ite (HealingAction-discrete action HealingAction.reset_agent)
          (let (c', r) = restart c t agent_id in ((c', ctx), r))
          (fall_back c agent_id action ctx (no_container_handler action))
  ]

  unfoldable pub container_executor : HealingExecutor fl (ContainerExecutor O S)
  container_executor = record { name = "container"; execute = container_execute }
