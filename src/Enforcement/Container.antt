-- ===== src/Enforcement/Container.antt =====
-- `ContainerEnforcement` (immune_system/enforcement.py): containers paused by `docker`, deployments
-- scaled by `kubectl`. `run` runs a command over a state of the tools: `none` if the program is not
-- found, and else whether it returned 0, with its error output.
use ai_agent_immune_system.Common.{
  Bool, List, Option, String, String-discrete, [], append_text, arith, false, none, some, true, ℕ,
  ◌∷◌, ◌≡◌,
}
use ai_agent_immune_system.Common.Dict
use ai_agent_immune_system.Common.Dict.{Dict}
use ai_agent_immune_system.Enforcement.{
  EnforcementResult, EnforcementStrategy, command, command_failed, result, text,
}

pub data Target : Type 0 where
  docker : String → Target
  k8s : String → String → Target

pub record ContainerEnforcement (O : Type 0) : Type 0 where
  pub containers : Dict String Target
  pub tools : O

module _ {O : Type 0} where
  unfoldable pub register_container :
      ContainerEnforcement O → String → String → ContainerEnforcement O
  register_container c agent_id container_id = record c {
    containers = Dict.put String-discrete agent_id (docker container_id) c.containers;
  }

  unfoldable pub register_k8s :
      ContainerEnforcement O → String → String → String → ContainerEnforcement O
  register_k8s c agent_id namespace deployment = record c {
    containers = Dict.put String-discrete agent_id (k8s namespace deployment) c.containers;
  }

-- Whether a command was found and returned 0.
abbrev pub returned : Option (Bool × String) → Bool
returned none = false
returned (some (zero_exit, stderr)) = zero_exit

-- The command that stops a target.
abbrev pub stopping : Target → List String
stopping (docker container_id) = "docker" ∷ "pause" ∷ container_id ∷ []
stopping (k8s namespace deployment) =
    "kubectl"
    ∷ "scale"
    ∷ append_text "--replicas=" "0"
    ∷ append_text "deployment/" deployment
    ∷ "-n"
    ∷ namespace
    ∷ []

module _ {O : Type 0} (run : O → List String → O × Option (Bool × String)) where
  -- What `_docker_cmd` and `_k8s_scale` make of the outcome of their command.
  unfoldable pub reported :
      List String → String → String → String → Option (Bool × String) → EnforcementResult
  reported words missing agent_id action none =
      result false "container" agent_id action (text missing)
  reported words missing agent_id action (some (true, stderr)) =
      result true "container" agent_id action (command words)
  reported words missing agent_id action (some (false, stderr)) =
      result false "container" agent_id action (command_failed words stderr)

  unfoldable pub docker_cmd :
      ContainerEnforcement O
      → String
      → String
      → String
      → String
      → ContainerEnforcement O × EnforcementResult
  docker_cmd c cmd container_id agent_id action =
      let words = "docker" ∷ cmd ∷ container_id ∷ [] in
      let (tools', outcome) = run c.tools words in
      (record c { tools = tools' }, reported words "docker_not_found" agent_id action outcome)

  unfoldable pub k8s_scale :
      ContainerEnforcement O
      → String
      → String
      → String
      → String
      → String
      → ContainerEnforcement O × EnforcementResult
  k8s_scale c namespace deployment replicas agent_id action =
      let words =
        "kubectl"
        ∷ "scale"
        ∷ append_text "--replicas=" replicas
        ∷ append_text "deployment/" deployment
        ∷ "-n"
        ∷ namespace
        ∷ [] in
      let (tools', outcome) = run c.tools words in
      (record c { tools = tools' }, reported words "kubectl_not_found" agent_id action outcome)

  unfoldable pub block :
      ContainerEnforcement O → String → String → ContainerEnforcement O × EnforcementResult
  block c agent_id reason = elim (Dict.get String-discrete agent_id c.containers) [
    | none ↦ (c, result false "container" agent_id "block" (text "not_registered"))
    | some (docker container_id) ↦ docker_cmd c "pause" container_id agent_id "block"
    | some (k8s namespace deployment) ↦ k8s_scale c namespace deployment "0" agent_id "block"
  ]

  unfoldable pub unblock :
      ContainerEnforcement O → String → ContainerEnforcement O × EnforcementResult
  unblock c agent_id = elim (Dict.get String-discrete agent_id c.containers) [
    | none ↦ (c, result false "container" agent_id "unblock" (text "not_registered"))
    | some (docker container_id) ↦ docker_cmd c "unpause" container_id agent_id "unblock"
    | some (k8s namespace deployment) ↦ k8s_scale c namespace deployment "1" agent_id "unblock"
  ]

  unfoldable pub drain :
      ContainerEnforcement O → String → ℕ → ContainerEnforcement O × EnforcementResult
  drain c agent_id timeout_s = block c agent_id "drain_timeout"

  unfoldable pub container_strategy : EnforcementStrategy (ContainerEnforcement O)
  container_strategy = record {
    name = "container";
    block = block;
    unblock = unblock;
    drain = drain;
  }

  -- A block reports a success exactly when the agent is registered and the command that fits its
  -- target (a pause of the container, or a scale to no replicas) is found and returns 0; nothing is
  -- run for an agent that is not registered, and no operation changes the registrations.
  pub container_block-success :
      (c : ContainerEnforcement O) (agent_id reason : String)
      → let target = Dict.get String-discrete agent_id c.containers in
        ((block c agent_id reason).1.success
          ≡ elim target [ none ↦ false | some t ↦ returned (run c.tools (stopping t)).1 ])
        × ((block c agent_id reason).0.tools
            ≡ elim target [ none ↦ c.tools | some t ↦ (run c.tools (stopping t)).0 ])
        × ((block c agent_id reason).0.containers ≡ c.containers)
        × ((unblock c agent_id).0.containers ≡ c.containers)
  unfolding block unblock docker_cmd k8s_scale reported
  container_block-success c agent_id reason = ground arith
