-- ===== src/Enforcement.antt =====
-- The enforcement strategies (immune_system/enforcement.py). An object that a strategy shares with
-- others, such as the gateway's policy engine, is part of the state that its operations pass on. The
-- operating system and the container tools are parameters. Sleeps and log lines are left out, and so
-- are the reports of `health_check`, which change nothing.
pub mod Gateway
pub mod Process
pub mod Container
pub mod Composite
pub mod NoOp
use ai_agent_immune_system.Common.{Bool, List, String, ℕ}

-- The texts of `detail`, with what they are formatted from.
pub data Detail : Type 0 where
  text : String → Detail
  timeout : ℕ → Detail
  sigstop : ℕ → Detail
  sigcont : ℕ → Detail
  command : List String → Detail
  command_failed : List String → String → Detail

pub record EnforcementResult : Type 0 where
  pub success : Bool
  pub strategy : String
  pub agent_id : String
  pub action : String
  pub detail : Detail

-- `EnforcementStrategy`, over a state that its operations change.
pub record EnforcementStrategy (W : Type 0) : Type 0 where
  pub name : String
  pub block : W → String → String → W × EnforcementResult
  pub unblock : W → String → W × EnforcementResult
  pub drain : W → String → ℕ → W × EnforcementResult

abbrev pub result : Bool → String → String → String → Detail → EnforcementResult
result success strategy agent_id action detail = record {
  success = success;
  strategy = strategy;
  agent_id = agent_id;
  action = action;
  detail = detail;
}
