-- ===== src/Executors/Process.antt =====
-- `ProcessExecutor` (immune_system/executor.py): healing through the control API of an agent's
-- process. `post` is the HTTP client over a state of the network: the status of the response, or the
-- text of the exception.
use ai_agent_immune_system.Common.{
  Floats, String, String-discrete, Texts, append_text, false, if◌then◌else◌, leb, ltb, true, truthy,
  ℕ, ◌&&◌,
}
use ai_agent_immune_system.Common.Dict
use ai_agent_immune_system.Common.Dict.{Dict}
use ai_agent_immune_system.Healing.{HealingAction}
use ai_agent_immune_system.Executors.{
  ExecutionResult, HealingExecutor, control_returned, control_succeeded, outcome, text,
}

pub data Posted : Type 0 where
  status_code : ℕ → Posted
  failed : String → Posted

pub record ProcessExecutor (O : Type 0) : Type 0 where
  pub control_urls : Dict String String
  pub network : O

-- `endpoint_map`, which has every action
unfoldable pub endpoint : HealingAction → String
endpoint HealingAction.reset_memory = "/control/reset-memory"
endpoint HealingAction.rollback_prompt = "/control/rollback-prompt"
endpoint HealingAction.reduce_autonomy = "/control/reduce-autonomy"
endpoint HealingAction.revoke_tools = "/control/revoke-tools"
endpoint HealingAction.reset_agent = "/control/restart"

module _ {O : Type 0} (py : Texts) where
  unfoldable pub register_control_url : ProcessExecutor O → String → String → ProcessExecutor O
  register_control_url p agent_id base_url = record p {
    control_urls = Dict.put String-discrete agent_id (py.rstrip_slash base_url) p.control_urls;
  }

module _ (fl : Floats) {O : Type 0} (post : O → String → O × Posted) where
  -- The result of a call of the control API.
  unfoldable pub answered : String → HealingAction → Posted → ExecutionResult fl
  answered agent_id action (status_code n) =
      if leb 200 n && ltb n 400
      then outcome fl true "process" agent_id action (control_succeeded action n)
      else outcome fl false "process" agent_id action (control_returned n)
  answered agent_id action (failed exc) = outcome fl false "process" agent_id action (text exc)

  unfoldable pub process_execute :
      ProcessExecutor O → String → HealingAction → ProcessExecutor O × ExecutionResult fl
  process_execute p agent_id action =
      let base = Dict.get_or String-discrete agent_id p.control_urls "" in
      if truthy base
      then (let (network', posted) = post p.network (append_text base (endpoint action)) in
          (record p { network = network' }, answered agent_id action posted))
      else (p, outcome fl false "process" agent_id action (text "no control URL registered"))

  unfoldable pub process_executor : HealingExecutor fl (ProcessExecutor O)
  process_executor = record {
    name = "process";
    execute = λ s agent_id action ctx.
        (let (s', r) = process_execute s agent_id action in ((s', ctx), r));
  }
