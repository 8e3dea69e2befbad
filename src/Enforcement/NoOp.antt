-- ===== src/Enforcement/NoOp.antt =====
-- `NoOpEnforcement` (immune_system/enforcement.py): blocks in memory only. The dictionary belongs to
-- the class, so that all its instances share this one state.
use ai_agent_immune_system.Common.{Bool, String, String-discrete, true, ℕ}
use ai_agent_immune_system.Common.Dict
use ai_agent_immune_system.Common.Dict.{Dict}
use ai_agent_immune_system.Enforcement.{EnforcementResult, EnforcementStrategy, result, text}

pub record NoOpEnforcement : Type 0 where
  pub blocked : Dict String Bool

unfoldable pub block : NoOpEnforcement → String → String → NoOpEnforcement × EnforcementResult
block n agent_id reason = (
  record n { blocked = Dict.put String-discrete agent_id true n.blocked },
  result true "noop" agent_id "block" (text "simulated"),
)

unfoldable pub unblock : NoOpEnforcement → String → NoOpEnforcement × EnforcementResult
unblock n agent_id = (
  record n { blocked = Dict.remove String-discrete agent_id n.blocked },
  result true "noop" agent_id "unblock" (text "simulated"),
)

unfoldable pub drain : NoOpEnforcement → String → ℕ → NoOpEnforcement × EnforcementResult
drain n agent_id timeout_s = (
  record n { blocked = Dict.put String-discrete agent_id true n.blocked },
  result true "noop" agent_id "drain" (text "simulated"),
)

unfoldable pub noop_strategy : EnforcementStrategy NoOpEnforcement
noop_strategy = record { name = "noop"; block = block; unblock = unblock; drain = drain }
