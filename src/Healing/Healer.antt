-- ===== src/Healing/Healer.antt =====
-- The healer's choice of an action and the in-memory healing (immune_system/healing.py). A message is
-- a text with the values it is formatted from left out. The executor, which acts on the agent outside
-- this process, answers with its result.
use ai_agent_immune_system.Common.{
  Bool, Floats, List, Option, String, [], contains, ite, keep, ltb, none, not, some, sort_by, suc,
  true, ℕ, ◌∷◌,
}
use ai_agent_immune_system.Agents
use ai_agent_immune_system.Agents.{BaseAgent, clean_state, cure}
use ai_agent_immune_system.Diagnosis.{DiagnosisType}
use ai_agent_immune_system.Healing.{HealingAction, HealingAction-discrete, get_healing_policy}
use ai_agent_immune_system.Memory.{ImmuneMemory, get_successful_actions}

-- `[a for a in policy if a not in failed_actions]`
unfoldable pub candidates : DiagnosisType → List HealingAction → List HealingAction
candidates d failed_actions =
    keep (λ a. not (contains HealingAction-discrete a failed_actions)) (get_healing_policy d)

-- `_sort_key`: the place among the successful actions, or their number
unfoldable pub sort_key : List HealingAction → HealingAction → ℕ
sort_key [] a = 0
sort_key (s ∷ ss) a = let rest = sort_key ss a in ite (HealingAction-discrete s a) 0 (suc rest)

unfoldable pub key_before : List HealingAction → HealingAction → HealingAction → Bool
key_before successful a b = ltb (sort_key successful a) (sort_key successful b)

unfoldable pub reorder : List HealingAction → List HealingAction → List HealingAction
reorder [] as' = as'
reorder (s ∷ ss) as' = sort_by (key_before (s ∷ ss)) as'

unfoldable pub first_of : List HealingAction → Option HealingAction
first_of [] = none
first_of (a ∷ as') = some a

-- `get_next_action` from the candidates on
unfoldable pub choose :
    DiagnosisType → ImmuneMemory → List HealingAction → Option HealingAction × ImmuneMemory
choose d m [] = (none, m)
choose d m (c ∷ cs) =
    let asked = get_successful_actions m d in (first_of (reorder asked.0 (c ∷ cs)), asked.1)

-- `get_next_action` with an immune memory, which is asked only where a candidate is left
unfoldable pub get_next_action :
    DiagnosisType → List HealingAction → ImmuneMemory → Option HealingAction × ImmuneMemory
get_next_action d failed_actions m = choose d m (candidates d failed_actions)

module _ (fl : Floats) where
  pub record HealingResult : Type 0 where
    pub agent_id : String
    pub action : HealingAction
    pub success : Bool
    pub validation_passed : Bool
    pub message : String

  -- What the action does to the agent in memory, before the agent is cured.
  unfoldable pub act_on : HealingAction → BaseAgent fl → BaseAgent fl × String
  act_on HealingAction.reset_memory a =
      (record a { state = Agents.reset_memory fl a.state }, "Memory cleared")
  act_on HealingAction.rollback_prompt a =
      (record a { state = Agents.rollback_prompt fl a.state }, "Prompt rolled back")
  act_on HealingAction.reduce_autonomy a =
      (record a { state = Agents.reduce_autonomy fl a.state }, "Autonomy reduced")
  act_on HealingAction.revoke_tools a =
      (record a { state = Agents.revoke_tools fl a.state }, "Tool access revoked")
  act_on HealingAction.reset_agent a =
      (cure fl (record a { state = clean_state fl }), "Agent reset to clean state")

  -- `apply_healing` without an executor; nothing in it raises
  unfoldable pub apply_healing : BaseAgent fl → HealingAction → HealingResult × BaseAgent fl
  apply_healing a action =
      let acted = act_on action a in
      (
        record {
          agent_id = a.agent_id;
          action = action;
          success = true;
          validation_passed = true;
          message = acted.1;
        },
        cure fl acted.0,
      )
