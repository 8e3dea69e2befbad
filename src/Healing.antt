-- ===== src/Healing.antt =====
-- Healing actions and the ladder of actions for each diagnosis (immune_system/healing.py). The healer
-- itself, which asks the immune memory, is in Healing/Healer.antt.
pub mod Healer
pub mod Ladder
pub mod Effects
use ai_agent_immune_system.Common.{List, [], ◌∷◌}
use ai_agent_immune_system.Diagnosis.{DiagnosisType}

pub data HealingAction : Type 0 where
  reset_memory rollback_prompt reduce_autonomy revoke_tools reset_agent : HealingAction

unfoldable pub HealingAction-discrete : Discrete HealingAction
HealingAction-discrete = hlevel

-- `HEALING_POLICIES`, which has every type of diagnosis, as `get_healing_policy` reads it
unfoldable pub get_healing_policy : DiagnosisType → List HealingAction
get_healing_policy DiagnosisType.prompt_drift =
    reset_memory ∷ rollback_prompt ∷ reduce_autonomy ∷ reset_agent ∷ []
get_healing_policy DiagnosisType.prompt_injection =
    revoke_tools ∷ reset_memory ∷ rollback_prompt ∷ reset_agent ∷ []
get_healing_policy DiagnosisType.infinite_loop =
    revoke_tools ∷ reduce_autonomy ∷ reset_memory ∷ reset_agent ∷ []
get_healing_policy DiagnosisType.tool_instability =
    reduce_autonomy ∷ rollback_prompt ∷ reset_agent ∷ []
get_healing_policy DiagnosisType.memory_corruption = reset_memory ∷ reset_agent ∷ []
get_healing_policy DiagnosisType.cost_overrun =
    reduce_autonomy ∷ rollback_prompt ∷ reset_memory ∷ reset_agent ∷ []
get_healing_policy DiagnosisType.external_cause = reduce_autonomy ∷ reset_agent ∷ []
get_healing_policy DiagnosisType.unknown = reset_memory ∷ reduce_autonomy ∷ reset_agent ∷ []
