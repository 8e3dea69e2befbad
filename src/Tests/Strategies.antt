-- ===== src/Tests/Strategies.antt =====
-- The theorems on the enforcement strategies and the quarantine at concrete inputs.
use mathlib.Core.Option
use ai_agent_immune_system.Common.{
  Bool, List, Option, String, String-discrete, [], arith, false, if◌then◌else◌, is_some, ite, none,
  refl, some, true, ℕ, ◌+◌, ◌==◌, ◌∷◌, ◌≡◌,
}
use ai_agent_immune_system.Common.Dict
use ai_agent_immune_system.Policy
use ai_agent_immune_system.Policy.{PolicyEngine, block}
use ai_agent_immune_system.Enforcement.{EnforcementResult, EnforcementStrategy, text}
use ai_agent_immune_system.Enforcement.Gateway
use ai_agent_immune_system.Enforcement.Gateway.{
  block_without_effect, drain, quarantine_name, unblock, unblock-block, with_engine,
}
use ai_agent_immune_system.Enforcement.Process.{ProcessEnforcement, Signal}
use ai_agent_immune_system.Enforcement.Container.{ContainerEnforcement, docker}
use ai_agent_immune_system.Enforcement.Composite
use ai_agent_immune_system.Enforcement.Composite.{
  all_fail, block_first, block_none, blocks, try_all,
}
use ai_agent_immune_system.Quarantine.{QuarantineController, is_quarantined}
use ai_agent_immune_system.Quarantine.Tracking
use ai_agent_immune_system.Quarantine.Tracking.{
  Call, IsTracked, duration-quarantine, is_quarantined-step, run-IsTracked,
}
use ai_agent_immune_system.Tests.{glob}

abbrev engine : PolicyEngine
engine = record { rules = []; req_counter = []; tok_counter = [] }

block_without_effect_example :
    let g = with_engine engine [] in
    ((Gateway.block g "a" "infected").1.success ≡ true)
    × (Option.map
          (λ e. (Policy.evaluate glob e "a" "gpt" 9).1)
          (Gateway.block g "a" "infected").0.policy
        ≡ some
            (Policy.evaluate glob (Policy.remove_rule engine (quarantine_name "a")) "a" "gpt" 9).1)
block_without_effect_example = block_without_effect glob engine [] "a" "infected" "a" "gpt" 9

unblock-block_example :
    let g = with_engine engine [] in
    let (g', blocking) = Gateway.block g "a" "infected" in
    let (g'', unblocking) = Gateway.unblock g' "a" in
    (g''.policy ≡ Option.map (λ e. Policy.remove_rule e (quarantine_name "a")) g.policy)
    × (blocking.success ≡ is_some g.policy)
    × (unblocking.success ≡ is_some g.policy)
    × (Dict.get String-discrete "a" g''.blocked
        ≡ (if is_some g.policy then none else Dict.get String-discrete "a" g.blocked))
unblock-block_example = unblock-block (with_engine engine []) "a" "infected"

-- A system that counts its calls and refuses every pid but 7.
unfoldable kill : ℕ → ℕ → Signal → ℕ × Option String
kill os pid s = (os + 1, if pid == 7 then none else some "no such process")

abbrev processes : ProcessEnforcement ℕ
processes = record { pids = ("a", 7) ∷ []; os = 0 }

unfoldable run_command : ℕ → List String → ℕ × Option (Bool × String)
run_command tools words = (tools + 1, some (true, ""))

abbrev containers : ContainerEnforcement ℕ
containers = record { containers = ("a", docker "c1") ∷ []; tools = 0 }

-- A strategy that counts its calls, and answers as it is told.
abbrev answer : Bool → EnforcementResult
answer success = record {
  success = success;
  strategy = "fixed";
  agent_id = "a";
  action = "block";
  detail = text "";
}

abbrev fixed : Bool → EnforcementStrategy ℕ
fixed success = record {
  name = "fixed";
  block = λ w a r. (w + 1, answer success);
  unblock = λ w a. (w + 1, answer success);
  drain = λ w a t. (w + 1, answer success);
}

first_fails : all_fail (blocks (fixed false ∷ []) "a" "infected") 0 ≡ true
unfolding all_fail
first_fails = refl

second_succeeds :
    ((fixed true).block
      (try_all (blocks (fixed false ∷ []) "a" "infected") 0)
      "a"
      "infected").1.success
    ≡ true
second_succeeds = refl

block_first_example :
    Composite.block (fixed false ∷ fixed true ∷ []) 0 "a" "infected"
    ≡ (fixed true).block (try_all (blocks (fixed false ∷ []) "a" "infected") 0) "a" "infected"
block_first_example =
    block_first (fixed false ∷ []) [] (fixed true) 0 "a" "infected" first_fails second_succeeds

abbrev controller : QuarantineController ℕ
controller = record {
  enforcement = 0;
  quarantined = [];
  draining = [];
  quarantine_times = [];
  total_quarantines = 0;
}

controller-IsTracked : IsTracked controller
unfolding Dict.get
controller-IsTracked = record { timed = λ i. refl; counted = omega arith }

abbrev quarantine_calls : List (String × ℕ × Call)
quarantine_calls =
    ("a", 1, Tracking.begin_drain)
    ∷ ("b", 2, Tracking.quarantine)
    ∷ ("a", 3, Tracking.end_drain 30)
    ∷ ("b", 4, Tracking.release_async)
    ∷ []

run-IsTracked_example : IsTracked (Tracking.run (fixed true) controller quarantine_calls)
run-IsTracked_example = run-IsTracked (fixed true) controller quarantine_calls controller-IsTracked

is_quarantined-step_example :
    is_quarantined (Tracking.step (fixed false) controller "a" 3 (Tracking.end_drain 30)) "a"
    ≡ ite (String-discrete "a" "a") true (is_quarantined controller "a")
is_quarantined-step_example =
    is_quarantined-step (fixed false) controller "a" "a" 3 (Tracking.end_drain 30)
