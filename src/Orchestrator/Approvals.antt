-- ===== src/Orchestrator/Approvals.antt =====
-- The approvals of healing (immune_system/orchestrator.py, without a store): those that wait for an
-- operator, and those that were rejected. What a list of them shows is left out.
use ai_agent_immune_system.Common.{
  Bool, Floats, List, Option, String, String-discrete, [], ap, arith, false, if◌then◌else◌, none,
  refl, some, subst, sym, true, ℕ, ◌∙◌, ◌∷◌, ◌≡◌,
}
use ai_agent_immune_system.Common.Dict
use ai_agent_immune_system.Common.Dict.{Dict}
use ai_agent_immune_system.Lifecycle.{AgentPhase, allowed_transitions, is_allowed, mark_exhausted}
use ai_agent_immune_system.Detection.{InfectionReport}
use ai_agent_immune_system.Diagnosis.{Diagnosis}
use ai_agent_immune_system.Orchestrator.Phases.{phase_at, set_lifecycle-phase}
use ai_agent_immune_system.Lifecycle.Transition.{transition_parts}
use ai_agent_immune_system.Orchestrator.{
  Orchestrator, explicit_heal_requested, log_action, set_lifecycle, user_approved, user_rejected,
}

module _ (fl : Floats) where
  -- An entry of `_pending_approvals` or of `_rejected_approvals`, with the time that it was made.
  pub record Approval : Type 0 where
    pub infection : InfectionReport fl
    pub diagnosis : Diagnosis fl
    pub since : ℕ

module _ (fl : Floats) (W : Type 0) where
  pub record Workflow : Type 0 where
    pub system : Orchestrator fl W
    pub pending_approvals : Dict String (Approval fl)
    pub rejected_approvals : Dict String (Approval fl)

module _ {fl : Floats} {W : Type 0} where
  -- `approve_healing`, by the entry that it takes off the pending ones
  unfoldable pub decide :
      Workflow fl W
      → String
      → Bool
      → Option (Approval fl)
      → Workflow fl W × Option (InfectionReport fl) × Bool
  decide w i approved none = (w, none, false)
  decide w i true (some entry) = (
    record w {
      system = log_action w.system i user_approved;
      pending_approvals = Dict.remove String-discrete i w.pending_approvals;
    },
    some entry.infection,
    true,
  )
  decide w i false (some entry) =
      let o = log_action w.system i user_rejected in
      (
        record w {
          system = set_lifecycle o (mark_exhausted o.lifecycle i o.clock).0 i;
          pending_approvals = Dict.remove String-discrete i w.pending_approvals;
          rejected_approvals =
              Dict.put String-discrete i (record entry { since = o.clock }) w.rejected_approvals;
        },
        none,
        false,
      )

  unfoldable pub approve_healing :
      Workflow fl W → String → Bool → Workflow fl W × Option (InfectionReport fl) × Bool
  approve_healing w i approved =
      decide w i approved (Dict.get String-discrete i w.pending_approvals)

  -- The loop of `approve_all_pending` over the agents that were waiting.
  unfoldable pub approve_each :
      Workflow fl W → Bool → List String → Workflow fl W × List (String × InfectionReport fl)
  approve_each w approved [] = (w, [])
  approve_each w approved (i ∷ is) =
      let (w', infection, did_approve) = approve_healing w i approved in
      let (w'', rest) = approve_each w' approved is in
      (
        w'',
        elim infection [
          | none ↦ rest
          | some infection' ↦ if did_approve then (i, infection') ∷ rest else rest
        ],
      )

  unfoldable pub approve_all_pending :
      Workflow fl W → Bool → Workflow fl W × List (String × InfectionReport fl)
  approve_all_pending w approved = approve_each w approved (Dict.keys w.pending_approvals)

  -- `start_healing_explicitly`, by the entry that it takes off the rejected ones
  unfoldable pub heal_rejected :
      Workflow fl W → String → Option (Approval fl) → Workflow fl W × Option (InfectionReport fl)
  heal_rejected w i none = (w, none)
  heal_rejected w i (some entry) = (
    record w {
      system = log_action w.system i explicit_heal_requested;
      rejected_approvals = Dict.remove String-discrete i w.rejected_approvals;
    },
    some entry.infection,
  )

  unfoldable pub start_healing_explicitly :
      Workflow fl W → String → Workflow fl W × Option (InfectionReport fl)
  start_healing_explicitly w i = heal_rejected w i (Dict.get String-discrete i w.rejected_approvals)

  -- An order to heal gave this infection, a second one gives none, and nothing is pending.
  abbrev Gave : InfectionReport fl → String → Workflow fl W × Option (InfectionReport fl) → Type 0
  Gave infection i r =
      (r.1 ≡ some infection)
      × ((start_healing_explicitly r.0 i).1 ≡ none)
      × (Dict.get String-discrete i r.0.pending_approvals ≡ none)

  Gave-heal_rejected :
      (w : Workflow fl W) (i : String) (entry : Approval fl)
      → Dict.get String-discrete i w.pending_approvals ≡ none
      → Gave entry.infection i (heal_rejected w i (some entry))
  unfolding heal_rejected start_healing_explicitly
  Gave-heal_rejected w i entry h =
      let gone = Dict.get-remove_self String-discrete i w.rejected_approvals in
      (refl, ap (λ e. (heal_rejected (heal_rejected w i (some entry)).0 i e).1) gone, h)

  -- A rejection of a pending approval keeps its infection for a later order to heal: that order, once,
  -- gets it back, and the agent is then neither pending nor rejected.
  pub start_healing_explicitly-reject :
      (w : Workflow fl W) (i : String) (entry : Approval fl)
      → Dict.get String-discrete i w.pending_approvals ≡ some entry
      → let healed_now = start_healing_explicitly (approve_healing w i false).0 i in
        (healed_now.1 ≡ some entry.infection)
        × ((start_healing_explicitly healed_now.0 i).1 ≡ none)
        × (Dict.get String-discrete i healed_now.0.pending_approvals ≡ none)
  start_healing_explicitly-reject w i entry h =
      subst (λ r. Gave entry.infection i (start_healing_explicitly r.0 i)) (sym rejecting)
        (subst (Gave entry.infection i) (sym healing_now) (
          Gave-heal_rejected w' i kept
            (unfold decide in Dict.get-remove_self String-discrete i w.pending_approvals)))
    where
      kept : Approval fl
      kept = record entry { since = (log_action w.system i user_rejected).clock }

      w' : Workflow fl W
      w' = (decide w i false (some entry)).0

      rejecting : approve_healing w i false ≡ decide w i false (some entry)
      rejecting = unfold approve_healing in ap (decide w i false) h

      healing_now : start_healing_explicitly w' i ≡ heal_rejected w' i (some kept)
      healing_now =
          unfold start_healing_explicitly decide in
          ap (heal_rejected _ i) (Dict.get-put_self String-discrete i _ w.rejected_approvals)

  -- A quarantined agent is still quarantined after its healing was approved or rejected: a rejection
  -- asks for the phase exhausted, which the table refuses from there.
  pub approve_healing-phase :
      (w : Workflow fl W) (i : String) (approved : Bool)
      → phase_at w.system i ≡ AgentPhase.quarantined
      → phase_at (approve_healing w i approved).0.system i ≡ AgentPhase.quarantined
  unfolding approve_healing
  approve_healing-phase w i approved h =
      by_entry approved (Dict.get String-discrete i w.pending_approvals)
    where
      by_entry :
          (b : Bool) (e : Option (Approval fl))
          → phase_at (decide w i b e).0.system i ≡ AgentPhase.quarantined
      by_entry b none = unfold decide in h
      by_entry true (some entry) = unfold decide log_action in h
      by_entry false (some entry) =
          unfold decide log_action mark_exhausted is_allowed allowed_transitions in
          let o = w.system in
          let (returned, moved, grown, kept) =
            transition_parts o.lifecycle i AgentPhase.exhausted "all_actions_exhausted" o.clock in
          set_lifecycle-phase _ _ i ∙ ground (arith, moved, h)
