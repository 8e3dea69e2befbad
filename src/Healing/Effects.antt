-- ===== src/Healing/Effects.antt =====
-- What healing in memory does to an agent (immune_system/healing.py, immune_system/agents.py).
use ai_agent_immune_system.Common.{
  Bool, Floats, String, [], arith, false, if◌then◌else◌, leb, ltb, none, refl, true, ℕ, ◌-◌, ◌≡◌,
  ◌≤◌,
}
use ai_agent_immune_system.Common.Dict.{Dict}
use ai_agent_immune_system.Agents
use ai_agent_immune_system.Agents.{AgentStatus, BaseAgent, clean_state, cure}
use ai_agent_immune_system.Healing.{HealingAction}
use ai_agent_immune_system.Healing.Healer.{act_on, apply_healing}

-- The fields of an agent's state after an action, from the field before it.
abbrev pub memory_after : HealingAction → Dict String String → Dict String String
memory_after HealingAction.reset_memory m = []
memory_after HealingAction.reset_agent m = []
memory_after _ m = m

abbrev pub version_after : HealingAction → ℕ → ℕ
version_after HealingAction.rollback_prompt n = if leb n 2 then 1 else n - 1
version_after HealingAction.reset_agent n = 1
version_after _ n = n

abbrev pub tools_after : HealingAction → ℕ → ℕ
tools_after HealingAction.reset_agent n = 5
tools_after HealingAction.revoke_tools n = 0
tools_after HealingAction.reduce_autonomy n = if ltb 3 n then n - 2 else 1
tools_after _ n = n

abbrev pub revoked_after : HealingAction → Bool → Bool
revoked_after HealingAction.revoke_tools b = true
revoked_after HealingAction.reset_agent b = false
revoked_after _ b = b

-- Half the temperature, and 0.1 at least, for `reduce_autonomy`.
abbrev pub temperature_after : (fl : Floats) → HealingAction → fl.Float → fl.Float
temperature_after fl HealingAction.reduce_autonomy t =
    let half = fl.mul t (fl.literal 5 10) in
    if fl.lt (fl.literal 1 10) half then half else fl.literal 1 10
temperature_after fl HealingAction.reset_agent t = fl.literal 7 10
temperature_after fl _ t = t

module _ (fl : Floats) where
  -- Every action on an agent whose prompt has a version reports a success for that agent and leaves it
  -- cured and healthy. The memory is emptied by `reset_memory` and `reset_agent`; the prompt is one
  -- version earlier, but not before the first, after `rollback_prompt`; `reduce_autonomy` takes two
  -- tools, but leaves one at least, and halves the temperature down to 0.1; `revoke_tools` takes all
  -- tools and says so; `reset_agent` sets every field to its default; and no other field changes.
  pub apply_healing_lem :
      (a : BaseAgent fl) (action : HealingAction)
      → 1 ≤ a.state.prompt_version
      → let (result, a') = apply_healing fl a action in
        (result.success ≡ true)
        × (result.agent_id ≡ a.agent_id)
        × (a'.infected ≡ false)
        × (a'.infection_type ≡ none)
        × (a'.status ≡ AgentStatus.healthy)
        × (a'.state.memory ≡ memory_after action a.state.memory)
        × (a'.state.prompt_version ≡ version_after action a.state.prompt_version)
        × (a'.state.max_tools ≡ tools_after action a.state.max_tools)
        × (a'.state.tools_revoked ≡ revoked_after action a.state.tools_revoked)
        × (a'.state.temperature ≡ temperature_after fl action a.state.temperature)
  unfolding apply_healing act_on Agents.reset_memory Agents.rollback_prompt Agents.reduce_autonomy
      Agents.revoke_tools clean_state cure
  apply_healing_lem a HealingAction.reset_memory h =
      (refl, refl, refl, refl, refl, refl, refl, refl, refl, refl)
  apply_healing_lem a HealingAction.rollback_prompt h = (
    refl,
    refl,
    refl,
    refl,
    refl,
    ground arith,
    ground (arith, h),
    ground arith,
    ground arith,
    ground arith,
  )
  apply_healing_lem a HealingAction.reduce_autonomy h =
      (refl, refl, refl, refl, refl, refl, refl, ground arith, refl, refl)
  apply_healing_lem a HealingAction.revoke_tools h =
      (refl, refl, refl, refl, refl, refl, refl, refl, refl, refl)
  apply_healing_lem a HealingAction.reset_agent h =
      (refl, refl, refl, refl, refl, refl, refl, refl, refl, refl)
