-- ===== src/Quarantine.antt =====
-- The quarantine controller (immune_system/quarantine.py) over an enforcement strategy. Times are
-- natural numbers of seconds. The asynchronous methods wait for the strategy: `drain_async` is two
-- steps, and what other tasks do in between is other steps. Log lines are left out, and so is the
-- branch of `quarantine_async` on the outcome, whose two sides differ in a log line only.
pub mod Tracking
use ai_agent_immune_system.Common.{
  Bool, List, String, String-discrete, [], contains, if◌then◌else◌, length, none, set_add,
  set_discard, some, ℕ, ◌+◌, ◌-◌,
}
use ai_agent_immune_system.Common.Dict
use ai_agent_immune_system.Common.Dict.{Dict}
use ai_agent_immune_system.Enforcement.{EnforcementResult, EnforcementStrategy}

-- The controller, with the state `W` of the strategy that it holds.
pub record QuarantineController (W : Type 0) : Type 0 where
  pub enforcement : W
  pub quarantined : List String
  pub draining : List String
  pub quarantine_times : Dict String ℕ
  pub total_quarantines : ℕ

module _ {W : Type 0} where
  unfoldable pub init : W → QuarantineController W
  init w = record {
    enforcement = w;
    quarantined = [];
    draining = [];
    quarantine_times = [];
    total_quarantines = 0;
  }

  unfoldable pub is_quarantined : QuarantineController W → String → Bool
  is_quarantined q agent_id = contains String-discrete agent_id q.quarantined

  unfoldable pub is_draining : QuarantineController W → String → Bool
  is_draining q agent_id = contains String-discrete agent_id q.draining

  unfoldable pub mark_quarantined : QuarantineController W → String → ℕ → QuarantineController W
  mark_quarantined q agent_id now =
      if is_quarantined q agent_id
      then record q { draining = set_discard String-discrete agent_id q.draining }
      else record q {
        quarantined = set_add String-discrete agent_id q.quarantined;
        quarantine_times = Dict.put String-discrete agent_id now q.quarantine_times;
        total_quarantines = q.total_quarantines + 1;
        draining = set_discard String-discrete agent_id q.draining;
      }

  unfoldable pub mark_released : QuarantineController W → String → QuarantineController W
  mark_released q agent_id = record q {
    quarantined = set_discard String-discrete agent_id q.quarantined;
    draining = set_discard String-discrete agent_id q.draining;
    quarantine_times = Dict.remove String-discrete agent_id q.quarantine_times;
  }

  unfoldable pub quarantine : QuarantineController W → String → ℕ → QuarantineController W
  quarantine q agent_id now = mark_quarantined q agent_id now

  unfoldable pub release : QuarantineController W → String → QuarantineController W
  release q agent_id = mark_released q agent_id

  unfoldable pub quarantine_async :
      EnforcementStrategy W
      → QuarantineController W
      → String
      → String
      → ℕ
      → QuarantineController W × EnforcementResult
  quarantine_async s q agent_id reason now =
      let (w, r) = s.block q.enforcement agent_id reason in
      (mark_quarantined (record q { enforcement = w }) agent_id now, r)

  -- `drain_async` up to its wait, and behind it
  unfoldable pub begin_drain : QuarantineController W → String → QuarantineController W
  begin_drain q agent_id = record q { draining = set_add String-discrete agent_id q.draining }

  unfoldable pub end_drain :
      EnforcementStrategy W
      → QuarantineController W
      → String
      → ℕ
      → ℕ
      → QuarantineController W × EnforcementResult
  end_drain s q agent_id timeout_s now =
      let (w, r) = s.drain q.enforcement agent_id timeout_s in
      let q' = record q {
        enforcement = w;
        draining = set_discard String-discrete agent_id q.draining;
      } in
      (mark_quarantined q' agent_id now, r)

  unfoldable pub release_async :
      EnforcementStrategy W
      → QuarantineController W
      → String
      → QuarantineController W × EnforcementResult
  release_async s q agent_id =
      let (w, r) = s.unblock q.enforcement agent_id in
      (mark_released (record q { enforcement = w }) agent_id, r)

  unfoldable pub get_quarantine_duration : QuarantineController W → String → ℕ → ℕ
  get_quarantine_duration q agent_id now =
      elim (Dict.get String-discrete agent_id q.quarantine_times) [
        | none ↦ 0
        | some started ↦ now - started
      ]

  unfoldable pub get_quarantined_count : QuarantineController W → ℕ
  get_quarantined_count q = length q.quarantined
