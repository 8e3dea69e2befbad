-- ===== src/Enforcement/Process.antt =====
-- `ProcessEnforcement` (immune_system/enforcement.py): signals to registered processes. `kill` is
-- the system call, over a state of the operating system: `some` error, or none.
use ai_agent_immune_system.Common.{
  Option, String, String-discrete, arith, false, is_some, none, not, some, true, ℕ, ◌≡◌,
}
use ai_agent_immune_system.Common.Dict
use ai_agent_immune_system.Common.Dict.{Dict}
use ai_agent_immune_system.Enforcement.{
  EnforcementResult, EnforcementStrategy, result, sigcont, sigstop, text,
}

pub data Signal : Type 0 where
  sigstop_signal sigcont_signal sigusr_signal : Signal

-- The pids that agents registered, beside the state of the operating system.
pub record ProcessEnforcement (O : Type 0) : Type 0 where
  pub pids : Dict String ℕ
  pub os : O

module _ {O : Type 0} where
  unfoldable pub register_pid : ProcessEnforcement O → String → ℕ → ProcessEnforcement O
  register_pid p agent_id pid = record p { pids = Dict.put String-discrete agent_id pid p.pids }

  unfoldable pub unregister_pid : ProcessEnforcement O → String → ProcessEnforcement O
  unregister_pid p agent_id = record p { pids = Dict.remove String-discrete agent_id p.pids }

module _ {O : Type 0} (kill : O → ℕ → Signal → O × Option String) where
  unfoldable pub block :
      ProcessEnforcement O → String → String → ProcessEnforcement O × EnforcementResult
  block p agent_id reason = elim (Dict.get String-discrete agent_id p.pids) [
    | none ↦ (p, result false "process" agent_id "block" (text "pid_not_registered"))
    | some pid ↦
        let (os', error) = kill p.os pid sigstop_signal in
        (
          record p { os = os' },
          elim error [
            | none ↦ result true "process" agent_id "block" (sigstop pid)
            | some exc ↦ result false "process" agent_id "block" (text exc)
          ],
        )
  ]

  unfoldable pub unblock : ProcessEnforcement O → String → ProcessEnforcement O × EnforcementResult
  unblock p agent_id = elim (Dict.get String-discrete agent_id p.pids) [
    | none ↦ (p, result false "process" agent_id "unblock" (text "pid_not_registered"))
    | some pid ↦
        let (os', error) = kill p.os pid sigcont_signal in
        (
          record p { os = os' },
          elim error [
            | none ↦ result true "process" agent_id "unblock" (sigcont pid)
            | some exc ↦ result false "process" agent_id "unblock" (text exc)
          ],
        )
  ]

  -- A first signal whose error is ignored, and then a block.
  unfoldable pub drain :
      ProcessEnforcement O → String → ℕ → ProcessEnforcement O × EnforcementResult
  drain p agent_id timeout_s = elim (Dict.get String-discrete agent_id p.pids) [
    | none ↦ (p, result false "process" agent_id "drain" (text "pid_not_registered"))
    | some pid ↦ block (record p { os = (kill p.os pid sigusr_signal).0 }) agent_id "drain_timeout"
  ]

  unfoldable pub process_strategy : EnforcementStrategy (ProcessEnforcement O)
  process_strategy = record { name = "process"; block = block; unblock = unblock; drain = drain }

  -- A block reports a success exactly when the agent has a pid and the system accepts the stop of
  -- that pid; a block, an unblock and a drain keep the registered pids, and without a pid they
  -- leave the operating system alone and report a failure.
  pub process_block-success :
      (p : ProcessEnforcement O) (agent_id reason : String) (timeout_s : ℕ)
      → let pid = Dict.get String-discrete agent_id p.pids in
        ((block p agent_id reason).1.success
          ≡ elim pid [ none ↦ false | some n ↦ not (is_some (kill p.os n sigstop_signal).1) ])
        × ((block p agent_id reason).0.pids ≡ p.pids)
        × ((unblock p agent_id).0.pids ≡ p.pids)
        × ((drain p agent_id timeout_s).0.pids ≡ p.pids)
        × ((drain p agent_id timeout_s).1.success ≡ elim pid [
          | none ↦ false
          | some n ↦ not (is_some (kill (kill p.os n sigusr_signal).0 n sigstop_signal).1)
        ])
  unfolding block unblock drain
  process_block-success p agent_id reason timeout_s = ground arith
