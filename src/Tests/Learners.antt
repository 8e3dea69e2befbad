-- ===== src/Tests/Learners.antt =====
-- The theorems on the cache, the baselines and the executors at concrete inputs.
use ai_agent_immune_system.Common.{
  List, String, String-discrete, [], arith, false, leb, length, none, not, os_error, raise, refl,
  some, some_or, true, ◌&&◌, ◌+◌, ◌∷◌, ◌≡◌, ◌≤◌,
}
use ai_agent_immune_system.Common.Dict
use ai_agent_immune_system.Telemetry.{AgentVitals}
use ai_agent_immune_system.Agents.{AgentStatus, BaseAgent, clean_state}
use ai_agent_immune_system.Healing.{HealingAction}
use ai_agent_immune_system.Healing.Healer.{apply_healing}
use ai_agent_immune_system.Policy.{PolicyEngine, evaluate, window_seconds}
use ai_agent_immune_system.Policy.Windows.{in_window}
use ai_agent_immune_system.Executors.{simulated_execute}
use ai_agent_immune_system.Executors.Gateway.{inject}
use ai_agent_immune_system.Executors.Refusals.{
  forwards, inject-forwards, leaves_undecided, simulated_execute-apply_healing, without,
}
use ai_agent_immune_system.Baseline.{
  AgentEwma, EwmaMetric, ewma_to_profile, max_sorted, new_ewma, new_metric, p95, update_ewma,
  update_metric, update_metrics,
}
use ai_agent_immune_system.Baseline.Learner
use ai_agent_immune_system.Baseline.Learner.{
  BaselineLearner, Cached, Store, accelerate_learning, announce, cache_baseline, check_deceleration,
  count_baselines, fast_alpha, get_ewma, persist_to_store, publish, update,
}
use ai_agent_immune_system.Baseline.Percentile.{IsKept, update_metric-p95}
use ai_agent_immune_system.Baseline.Warmup.{IsWarm}
use ai_agent_immune_system.Baseline.Life
use ai_agent_immune_system.Baseline.Life.{cached_in, learner-IsWarm}
use ai_agent_immune_system.Baseline.Acceleration.{accelerate-feed, constant, feed, view}
use ai_agent_immune_system.Baseline.Restoring.{forget_all, init-update}
use ai_agent_immune_system.Cache
use ai_agent_immune_system.Cache.{
  CacheManager, empty_state, load, missing, mode_not_set, not_replaced, save, save_if_dirty,
  set_baseline, set_run_id, shutdown, written,
}
use ai_agent_immune_system.Cache.Restart
use ai_agent_immune_system.Cache.Restart.{Reloads, restart, save-not_replaced, start-Reloads}
use ai_agent_immune_system.Tests.{glob, hundredths, hundredths_laws}

-- The cache of a text for each agent, quarantined and saved in between.
abbrev cache_calls : List (Restart.Call String)
cache_calls =
    Restart.set_run_id_call "run-1"
    ∷ Restart.add_quarantine_call "a"
    ∷ Restart.save_if_dirty_call written
    ∷ Restart.set_baseline_call "a" "profile"
    ∷ Restart.flush_call mode_not_set
    ∷ []

start-Reloads_example :
    let m = Restart.calls (load (Cache.init String missing)) cache_calls in
    Reloads m × ((restart (shutdown m written)).state ≡ m.state)
start-Reloads_example = start-Reloads missing cache_calls (refl, (refl, (refl, (refl, (refl, tt)))))

abbrev unsaved : CacheManager String
unsaved = set_run_id (Cache.init String missing) "run-1"

abbrev flush_calls : List (Restart.Call String)
flush_calls = Restart.flush_call written ∷ Restart.shutdown_call written ∷ []

save-not_replaced_example :
    let m' = Restart.calls (save unsaved not_replaced).0 flush_calls in
    ((save unsaved not_replaced).1 ≡ raise os_error)
    × (m'.disk ≡ unsaved.disk)
    × (m'.state ≡ unsaved.state)
save-not_replaced_example = save-not_replaced unsaved flush_calls (refl, (refl, tt))

abbrev metric : EwmaMetric hundredths
unfolding hundredths
metric = record { mean = 1500; variance = 0; count = 2; alpha = 4; p95_sorted = 1000 ∷ 2000 ∷ [] }

metric-IsKept : IsKept hundredths metric
unfolding hundredths
metric-IsKept = ((((refl, tt), (tt, tt))), omega arith)

unfoldable value : hundredths.Float
value = hundredths.of_ℕ 15

update_metric-p95_example :
    let m' = update_metric hundredths metric value in
    IsKept hundredths m'
    × (length m'.p95_sorted ≡ 3)
    × (2 ≡ max_sorted → hundredths.lt (p95 hundredths m') (p95 hundredths metric) ≡ false)
unfolding metric
update_metric-p95_example = update_metric-p95 hundredths hundredths_laws metric value metric-IsKept

abbrev no_store : Store hundredths Unit
no_store = record {
  write_baseline_profile = λ w profile. w;
  get_baseline_profile = λ w agent_id. none;
  count_baselines = λ w. 0;
}

unfoldable vitals : AgentVitals hundredths
unfolding hundredths
vitals = record {
  timestamp = 0;
  agent_id = "a";
  agent_type = "coder";
  latency_ms = 20;
  token_count = 30;
  tool_calls = 1;
  retries = 0;
  success = true;
  input_tokens = 10;
  output_tokens = 20;
  cost = 0;
  model = "gpt";
  error_type = "";
  prompt_hash = "";
}

abbrev learner_calls : List (Life.Call hundredths)
learner_calls =
    Life.update_call "a" vitals written
    ∷ Life.accelerate_call "a" 2
    ∷ Life.update_call "a" vitals written
    ∷ Life.reset_call "a"
    ∷ []

learner-IsWarm_example : IsWarm (Life.calls no_store (Learner.init 2 none none 50) learner_calls)
learner-IsWarm_example = learner-IsWarm no_store 2 none none 50 learner_calls tt

unfoldable known : AgentEwma hundredths
known = new_ewma hundredths (hundredths.literal 4 100)

abbrev learner : BaselineLearner hundredths Unit
learner = record (Learner.unlearned 2 none none 50) { ewma = ("a", known) ∷ [] }

learner-known : Dict.get String-discrete "a" learner.ewma ≡ some known
unfolding Dict.get String-discrete
learner-known = refl

accelerate-feed_example :
    view (
      Dict.get String-discrete "a"
        (feed no_store "a" (accelerate_learning learner "a" 2) ((vitals, written) ∷ [])).ewma)
    ≡ some (constant (fast_alpha learner), known.metrics.latency.count + 1)
accelerate-feed_example =
    accelerate-feed no_store "a" learner known 2 ((vitals, written) ∷ []) learner-known

abbrev empty_cache : CacheManager (Cached hundredths)
empty_cache = Cache.init (Cached hundredths) missing

abbrev young : BaselineLearner hundredths Unit
young = Learner.unlearned 1 none (some empty_cache) 50

abbrev grown : BaselineLearner hundredths Unit
grown = (update no_store young "a" vitals written).0

abbrev next_cache : CacheManager (Cached hundredths)
next_cache = some_or grown.cache empty_cache

grown-count : 1 ≤ (get_ewma grown "a").metrics.latency.count
unfolding Learner.unlearned update publish announce check_deceleration cache_baseline
    persist_to_store get_ewma update_ewma update_metrics update_metric new_ewma new_metric
    ewma_to_profile Dict.get Dict.put String-discrete Cache.init empty_state set_baseline
    save_if_dirty save Cache.get_baselines vitals hundredths
grown-count = omega arith

next_cache-baselines : Cache.get_baselines next_cache ≡ cached_in grown.cache
unfolding Learner.unlearned update publish announce check_deceleration cache_baseline
    persist_to_store get_ewma update_ewma update_metrics update_metric new_ewma new_metric
    ewma_to_profile Dict.get Dict.put String-discrete Cache.init empty_state set_baseline
    save_if_dirty save Cache.get_baselines vitals hundredths
next_cache-baselines = refl

init-update_example :
    let a = get_ewma grown "a" in
    let restarted : BaselineLearner hundredths Unit = Learner.init 1 none (some next_cache) 50 in
    (Dict.get String-discrete "a" grown.baselines ≡ some (ewma_to_profile hundredths "a" a))
    × (Dict.get String-discrete "a" restarted.baselines
        ≡ some (
            ewma_to_profile hundredths "a"
              (forget_all hundredths (hundredths.div (hundredths.of_ℕ 2) (hundredths.of_ℕ 51)) a)))
unfolding Learner.unlearned
init-update_example =
    init-update no_store young empty_cache next_cache "a" vitals written none 50 refl
      (unfold Cache.get_baselines Cache.init empty_state in tt) grown-count next_cache-baselines

abbrev agent : BaseAgent hundredths
agent = record {
  agent_id = "a";
  agent_type = "coder";
  state = clean_state hundredths;
  status = AgentStatus.infected;
  infected = true;
  infection_type = some "drift";
}

simulated_execute-apply_healing_example :
    ((simulated_execute hundredths "a" HealingAction.revoke_tools (some agent)).0
      ≡ some (apply_healing hundredths agent HealingAction.revoke_tools).1)
    × ((simulated_execute hundredths "a" HealingAction.revoke_tools (some agent)).1.success ≡ true)
    × ((apply_healing hundredths agent HealingAction.revoke_tools).0.success ≡ true)
simulated_execute-apply_healing_example =
    simulated_execute-apply_healing hundredths agent "a" HealingAction.revoke_tools

-- An engine that has counted two requests of one agent.
abbrev busy : PolicyEngine
busy = record { rules = []; req_counter = ("a", (10, 1) ∷ (20, 1) ∷ []) ∷ []; tok_counter = [] }

inject-forwards_example :
    let others = without busy "a" HealingAction.reduce_autonomy in
    forwards (evaluate glob (inject busy "a" HealingAction.reduce_autonomy).0 "a" "gpt" 30).1 ≡ (
      forwards (evaluate glob others "a" "gpt" 30).1
      && not (
          glob "a" "a"
          && (leaves_undecided glob busy "a" "gpt" 30 others.rules
              && leb 2 (in_window busy.req_counter "a" window_seconds 30))))
inject-forwards_example = inject-forwards glob busy "a" HealingAction.reduce_autonomy "a" "gpt" 30
