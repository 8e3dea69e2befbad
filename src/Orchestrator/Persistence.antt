-- ===== src/Orchestrator/Persistence.antt =====
-- What the sentinel does to an agent that stays infected (immune_system/orchestrator.py,
-- `sentinel_loop`).
use ai_agent_immune_system.Common.{
  Floats, List, Option, Result, String, String-discrete, Texts, [], ap, arith, false, if◌then◌else◌,
  inl, inr, length, none, ok, refl, some, subst, suc, sym, true, ℕ, ◌+◌, ◌<◌, ◌∙◌, ◌∷◌, ◌≡◌, ◌≤◌,
  ◌⊎◌,
}
use ai_agent_immune_system.Common.Dict
use ai_agent_immune_system.Common.Dict.{Dict}
use ai_agent_immune_system.Orchestrator.Response.{
  Escalates, IsSuspected-ensure, ensure-ticks, escalate_healthy, escalate_suspected,
  fallback_infection-some, is_stopped, phase_of-suspected, respond_off, respond_on,
}
use ai_agent_immune_system.Orchestrator.Sentinel.{
  Order, check_agent, check_in, escalate_infection, fallback_infection, look, react, respond,
}
use ai_agent_immune_system.Lifecycle.{AgentPhase, ensure, get_phase}
use ai_agent_immune_system.Lifecycle.Transition.{phase_of-ensure, state_of-phase}
use ai_agent_immune_system.Lifecycle.Escalation.{IsSuspected}
use ai_agent_immune_system.Agents.{BaseAgent}
use ai_agent_immune_system.Detection.{InfectionReport}
use ai_agent_immune_system.Correlator.{Detail}
use ai_agent_immune_system.Orchestrator.{Orchestrator}
use ai_agent_immune_system.Orchestrator.Phases.{phase_at}
use ai_agent_immune_system.Orchestrator.Approvals.{Workflow}

module _ {fl : Floats} {W : Type 0} where
  -- A pass over the agent alone, at a time.
  abbrev pub at : Workflow fl W → ℕ → Workflow fl W
  at w now = record w { system = record w.system { clock = now } }

  look-infected :
      (py : Texts) (o : Orchestrator fl W) (i : String) (a : BaseAgent fl) (r : InfectionReport fl)
      → a.infected ≡ true
      → fallback_infection fl py a ≡ some r
      → look py o i a ≡ ok (some (some r))
  unfolding look
  look-infected py o i a r ill known = ground (arith, ill, known)

  react_healthy :
      (show : Detail fl → String) (w : Workflow fl W) (i : String) (r : InfectionReport fl)
      → Dict.has String-discrete i w.rejected_approvals ≡ false
      → react show w i AgentPhase.healthy (some r) ≡ respond show w i AgentPhase.healthy r
  unfolding react
  react_healthy show w i r free =
      ap (λ b. if b then (w, ok none) else respond show w i AgentPhase.healthy r) free

  react_suspected :
      (show : Detail fl → String) (w : Workflow fl W) (i : String) (r : InfectionReport fl)
      → Dict.has String-discrete i w.rejected_approvals ≡ false
      → react show w i AgentPhase.suspected (some r) ≡ respond show w i AgentPhase.suspected r
  unfolding react
  react_suspected show w i r free =
      ap (λ b. if b then (w, ok none) else respond show w i AgentPhase.suspected r) free

  check_in_healthy :
      (py : Texts) (show : Detail fl → String) (w : Workflow fl W) (i : String) (a : BaseAgent fl)
      (r : InfectionReport fl)
      → look py w.system i a ≡ ok (some (some r))
      → Dict.has String-discrete i w.rejected_approvals ≡ false
      → check_in py show w i a AgentPhase.healthy ≡ respond show w i AgentPhase.healthy r
  unfolding check_in
  check_in_healthy py show w i a r seen free = rw seen (react_healthy show w i r free)

  check_in_suspected :
      (py : Texts) (show : Detail fl → String) (w : Workflow fl W) (i : String) (a : BaseAgent fl)
      (r : InfectionReport fl)
      → look py w.system i a ≡ ok (some (some r))
      → Dict.has String-discrete i w.rejected_approvals ≡ false
      → check_in py show w i a AgentPhase.suspected ≡ respond show w i AgentPhase.suspected r
  unfolding check_in
  check_in_suspected py show w i a r seen free = rw seen (react_suspected show w i r free)

  check_agent-healthy :
      (py : Texts) (show : Detail fl → String) (w : Workflow fl W) (i : String) (a : BaseAgent fl)
      (r : InfectionReport fl)
      → a.infected ≡ true
      → fallback_infection fl py a ≡ some r
      → Dict.has String-discrete i w.rejected_approvals ≡ false
      → phase_at w.system i ≡ AgentPhase.healthy
      → let o = record w.system { lifecycle = ensure w.system.lifecycle i w.system.clock } in
        check_agent py show w i a ≡ respond show (record w { system = o }) i AgentPhase.healthy r
  unfolding check_agent get_phase
  check_agent-healthy py show w i a r ill known free h =
      let p = state_of-phase w.system.lifecycle i w.system.clock ∙ h in
      let o = record w.system { lifecycle = ensure w.system.lifecycle i w.system.clock } in
      let w' = record w { system = o } in
      ap (λ q. check_in py show w' i a q) p
      ∙ check_in_healthy py show w' i a r (look-infected py o i a r ill known) free

  check_agent-suspected :
      (py : Texts) (show : Detail fl → String) (w : Workflow fl W) (i : String) (a : BaseAgent fl)
      (r : InfectionReport fl)
      → a.infected ≡ true
      → fallback_infection fl py a ≡ some r
      → Dict.has String-discrete i w.rejected_approvals ≡ false
      → phase_at w.system i ≡ AgentPhase.suspected
      → let o = record w.system { lifecycle = ensure w.system.lifecycle i w.system.clock } in
        check_agent py show w i a ≡ respond show (record w { system = o }) i AgentPhase.suspected r
  unfolding check_agent get_phase
  check_agent-suspected py show w i a r ill known free h =
      let p = state_of-phase w.system.lifecycle i w.system.clock ∙ h in
      let o = record w.system { lifecycle = ensure w.system.lifecycle i w.system.clock } in
      let w' = record w { system = o } in
      ap (λ q. check_in py show w' i a q) p
      ∙ check_in_suspected py show w' i a r (look-infected py o i a r ill known) free

  -- What one pass leaves of a suspected agent, or of one that was healthy.
  abbrev Presses : String → ℕ → ℕ → Workflow fl W × Result (Option (Order fl)) → Type 0
  Presses i s c (w, checked) =
      (is_stopped (phase_at w.system i) ≡ true)
      ⊎ ((checked ≡ ok none)
          × IsSuspected w.system.lifecycle i c
          × (w.system.lifecycle.suspect_ticks ≡ s)
          × ((c < s) ⊎ (c ≡ 1))
          × (Dict.has String-discrete i w.rejected_approvals ≡ false))

  respond-Presses :
      (show : Detail fl → String) (w : Workflow fl W) (i : String) (p : AgentPhase)
      (r : InfectionReport fl) (s c : ℕ)
      → Dict.has String-discrete i w.rejected_approvals ≡ false
      → Escalates i s c (escalate_infection w.system i p r)
      → Presses i s c (respond show w i p r)
  respond-Presses show w i p r s c free (inl (on, drained)) =
      inl (respond_on show w i p r on drained)
  respond-Presses show w i p r s c free (inr (off, still, same, below)) =
      subst (Presses i s c) (sym (respond_off show w i p r off))
        (inr (refl, still, same, below, free))

  check_agent-Presses :
      (py : Texts) (show : Detail fl → String) (w : Workflow fl W) (i : String) (a : BaseAgent fl)
      (c : ℕ)
      → a.infected ≡ true
      → Dict.has String-discrete i w.rejected_approvals ≡ false
      → IsSuspected w.system.lifecycle i c
      → Presses i w.system.lifecycle.suspect_ticks (suc c) (check_agent py show w i a)
  check_agent-Presses py show w i a c ill free h =
      let (r, known) = fallback_infection-some py a ill in
      let m = w.system.lifecycle in
      let now = w.system.clock in
      let o = record w.system { lifecycle = ensure m i now } in
      subst (Presses i m.suspect_ticks (suc c))
        (sym (check_agent-suspected py show w i a r ill known free (phase_of-suspected m i c h)))
        (respond-Presses show (record w { system = o }) i AgentPhase.suspected r m.suspect_ticks
          (suc c) free
          (subst (λ s. Escalates i s (suc c) (escalate_infection o i AgentPhase.suspected r))
            (ensure-ticks m i now) (escalate_suspected o i c r (IsSuspected-ensure m i c now h))))

  check_agent-first :
      (py : Texts) (show : Detail fl → String) (w : Workflow fl W) (i : String) (a : BaseAgent fl)
      → a.infected ≡ true
      → Dict.has String-discrete i w.rejected_approvals ≡ false
      → phase_at w.system i ≡ AgentPhase.healthy
      → Presses i w.system.lifecycle.suspect_ticks 1 (check_agent py show w i a)
  check_agent-first py show w i a ill free h =
      let (r, known) = fallback_infection-some py a ill in
      let m = w.system.lifecycle in
      let now = w.system.clock in
      let o = record w.system { lifecycle = ensure m i now } in
      subst (Presses i m.suspect_ticks 1)
        (sym (check_agent-healthy py show w i a r ill known free h))
        (respond-Presses show (record w { system = o }) i AgentPhase.healthy r m.suspect_ticks 1
          free
          (subst (λ s. Escalates i s 1 (escalate_infection o i AgentPhase.healthy r))
            (ensure-ticks m i now) (escalate_healthy o i r (phase_of-ensure m i i now ∙ h))))

  -- One of the passes over the agent, at the given times, leaves it draining or in quarantine, and those
  -- before that one order no healing and raise nothing.
  abbrev pub Stops :
      Texts → (Detail fl → String) → String → BaseAgent fl → Workflow fl W → List ℕ → Type 0
  Stops py show i a w [] = ⊥
  Stops py show i a w (now ∷ times) =
      let (w', checked) = check_agent py show (at w now) i a in
      (is_stopped (phase_at w'.system i) ≡ true)
      ⊎ ((checked ≡ ok none) × Stops py show i a w' times)

  Stops-suspected :
      (py : Texts) (show : Detail fl → String) (w : Workflow fl W) (i : String) (a : BaseAgent fl)
      (c limit : ℕ) (times : List ℕ)
      → a.infected ≡ true
      → 0 < c
      → limit ≤ c + length times
      → 0 < length times
      → IsSuspected w.system.lifecycle i c
      → w.system.lifecycle.suspect_ticks ≡ limit
      → Dict.has String-discrete i w.rejected_approvals ≡ false
      → Stops py show i a w times
  Stops-suspected py show w i a c limit [] ill pos enough more h same free = omega (arith, more)
  Stops-suspected py show w i a c limit (now ∷ times) ill pos enough more h same free =
      let (w', checked) = check_agent py show (at w now) i a in
      let pressed =
        subst (λ s. Presses i s (suc c) (check_agent py show (at w now) i a)) same
          (check_agent-Presses py show (at w now) i a c ill free h) in
      elim pressed [
        | inl stopped ↦ inl stopped
        | inr (quiet, h', same', below', free') ↦ inr (
          quiet,
          Stops-suspected py show w' i a (suc c) limit times ill (omega arith)
              (omega (arith, enough)) (ground (arith, below', enough, pos)) h' same' free',
        )
      ]

-- An agent that is healthy, stays infected and has no rejected approval is left draining or in
-- quarantine by one of the sentinel's passes over it, where there are at least two passes and at least
-- `suspect_ticks`, at any times, whatever the correlation says of the rest of the fleet. No pass before
-- that one orders a healing or raises.
pub check_agent-Stops :
    {fl : Floats} {W : Type 0} (py : Texts) (show : Detail fl → String) (w : Workflow fl W)
    (i : String) (a : BaseAgent fl) (times : List ℕ)
    → phase_at w.system i ≡ AgentPhase.healthy
    → a.infected ≡ true
    → Dict.has String-discrete i w.rejected_approvals ≡ false
    → 2 ≤ length times
    → w.system.lifecycle.suspect_ticks ≤ length times
    → Stops py show i a w times
check_agent-Stops py show w i a [] h ill free two enough = omega (arith, two)
check_agent-Stops py show w i a (now ∷ times) h ill free two enough =
    let w' = (check_agent py show (at w now) i a).0 in
    elim (check_agent-first py show (at w now) i a ill free h) [
      | inl stopped ↦ inl stopped
      | inr (quiet, h', same', below', free') ↦ inr (
        quiet,
        Stops-suspected py show w' i a 1 w.system.lifecycle.suspect_ticks times ill (omega arith)
            (omega (arith, enough)) (omega (arith, two)) h' same' free',
      )
    ]
