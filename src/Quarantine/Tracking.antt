-- ===== src/Quarantine/Tracking.antt =====
-- What the quarantine controller tracks, over any interleaving of its calls
-- (immune_system/quarantine.py).
use ai_agent_immune_system.Common.{
  List, String, String-discrete, [], arith, contains, contains-set_add, contains-set_discard, false,
  if◌then◌else◌, ite, length, length-set_add, length-set_discard-le, true, ℕ, ◌-◌, ◌∷◌, ◌≡◌, ◌≤◌,
}
use ai_agent_immune_system.Common.Dict
use ai_agent_immune_system.Enforcement.{EnforcementStrategy}
use ai_agent_immune_system.Quarantine
use ai_agent_immune_system.Quarantine.{
  QuarantineController, get_quarantine_duration, is_quarantined, mark_quarantined, mark_released,
}

-- A time is kept exactly for the agents in quarantine, and every agent in quarantine was counted.
pub record IsTracked {W : Type 0} (q : QuarantineController W) : Type 0 where
  pub timed :
      (i : String)
      → Dict.has String-discrete i q.quarantine_times ≡ contains String-discrete i q.quarantined
  pub counted : length q.quarantined ≤ q.total_quarantines

module _ {W : Type 0} where
  IsTracked-mark_quarantined :
      (q : QuarantineController W) (i : String) (now : ℕ)
      → IsTracked q
      → IsTracked (mark_quarantined q i now)
  unfolding mark_quarantined is_quarantined
  IsTracked-mark_quarantined q i now h = record {
    timed = λ j. ground (
      arith,
      h.timed j,
      Dict.get-put String-discrete j i now q.quarantine_times,
      contains-set_add String-discrete i j q.quarantined,
    );
    counted = ground (arith, h.counted, length-set_add String-discrete i q.quarantined);
  }

  IsTracked-mark_released :
      (q : QuarantineController W) (i : String) → IsTracked q → IsTracked (mark_released q i)
  unfolding mark_released
  IsTracked-mark_released q i h = record {
    timed = λ j. ground (
      arith,
      h.timed j,
      Dict.get-remove String-discrete j i q.quarantine_times,
      contains-set_discard String-discrete i j q.quarantined,
    );
    counted = omega (arith, h.counted, length-set_discard-le String-discrete i q.quarantined);
  }

pub data Call : Type 0 where
  quarantine : Call
  quarantine_async : String → Call
  begin_drain : Call
  end_drain : ℕ → Call
  release : Call
  release_async : Call

module _ {W : Type 0} (s : EnforcementStrategy W) where
  unfoldable pub step : QuarantineController W → String → ℕ → Call → QuarantineController W
  step q i now quarantine = Quarantine.quarantine q i now
  step q i now (quarantine_async reason) = (Quarantine.quarantine_async s q i reason now).0
  step q i now begin_drain = Quarantine.begin_drain q i
  step q i now (end_drain timeout_s) = (Quarantine.end_drain s q i timeout_s now).0
  step q i now release = Quarantine.release q i
  step q i now release_async = (Quarantine.release_async s q i).0

  unfoldable pub run : QuarantineController W → List (String × ℕ × Call) → QuarantineController W
  run q [] = q
  run q ((i, now, c) ∷ calls) = run (step q i now c) calls

  IsTracked-step :
      (q : QuarantineController W) (i : String) (now : ℕ) (c : Call)
      → IsTracked q
      → IsTracked (step q i now c)
  unfolding step Quarantine.quarantine Quarantine.quarantine_async Quarantine.begin_drain
      Quarantine.end_drain Quarantine.release Quarantine.release_async
  IsTracked-step q i now quarantine h = IsTracked-mark_quarantined q i now h
  IsTracked-step q i now (quarantine_async reason) h =
      IsTracked-mark_quarantined _ i now (record { timed = h.timed; counted = h.counted })
  IsTracked-step q i now begin_drain h = record { timed = h.timed; counted = h.counted }
  IsTracked-step q i now (end_drain timeout_s) h =
      IsTracked-mark_quarantined _ i now (record { timed = h.timed; counted = h.counted })
  IsTracked-step q i now release h = IsTracked-mark_released q i h
  IsTracked-step q i now release_async h =
      IsTracked-mark_released _ i (record { timed = h.timed; counted = h.counted })

  -- Any interleaving of the controller's calls, drains begun and ended included, keeps this: a time
  -- is on record exactly for the agents in quarantine, and the total is at least their number.
  pub run-IsTracked :
      (q : QuarantineController W) (calls : List (String × ℕ × Call))
      → IsTracked q
      → IsTracked (run q calls)
  unfolding run
  run-IsTracked q [] h = h
  run-IsTracked q ((i, now, c) ∷ calls) h =
      run-IsTracked (step q i now c) calls (IsTracked-step q i now c h)

  -- Whether agent `j` is in quarantine after a call for agent `i`: an agent that is quarantined or
  -- whose drain ends is, whatever the strategy reports, one that is released is not, and no call
  -- changes this for another agent.
  pub is_quarantined-step :
      (q : QuarantineController W) (i j : String) (now : ℕ) (c : Call)
      → is_quarantined (step q i now c) j
        ≡ ite
            (String-discrete i j)
            (elim c [
              | release ↦ false
              | release_async ↦ false
              | begin_drain ↦ is_quarantined q i
              | _ ↦ true
            ])
            (is_quarantined q j)
  unfolding step is_quarantined mark_quarantined mark_released Quarantine.quarantine
      Quarantine.quarantine_async Quarantine.begin_drain Quarantine.end_drain Quarantine.release
      Quarantine.release_async
  is_quarantined-step q i j now c = ground (
    arith,
    contains-set_add String-discrete i j q.quarantined,
    contains-set_discard String-discrete i j q.quarantined,
  )

  -- The duration of a quarantine is counted from its first call: a second quarantine of an agent
  -- that is in quarantine leaves its start alone, and an agent outside quarantine has none.
  pub duration-quarantine :
      (q : QuarantineController W) (i : String) (now later : ℕ)
      → IsTracked q
      → get_quarantine_duration (Quarantine.quarantine q i now) i later
        ≡ (if is_quarantined q i then get_quarantine_duration q i later else later - now)
  unfolding get_quarantine_duration is_quarantined mark_quarantined Quarantine.quarantine
  duration-quarantine q i now later h =
      ground (arith, Dict.get-put_self String-discrete i now q.quarantine_times)
