-- ===== src/Baseline/Learner.antt =====
-- `BaselineLearner` (immune_system/baseline.py), with its cache (immune_system/cache.py) and its store.
use ai_agent_immune_system.Common.{
  Bool, Floats, List, Option, Result, String, String-discrete, [], if◌then◌else◌, is_some, leb,
  length, ltb, min_float, none, not, ok, raise, some, ℕ, ◌%◌, ◌&&◌, ◌+◌, ◌==◌, ◌>>=◌, ◌∷◌,
}
use ai_agent_immune_system.Policy.{nonempty}
use ai_agent_immune_system.Common.Dict
use ai_agent_immune_system.Common.Dict.{Dict}
use ai_agent_immune_system.Telemetry.{AgentVitals}
use ai_agent_immune_system.Cache
use ai_agent_immune_system.Cache.{CacheManager, Write, save_if_dirty, set_baseline}
use ai_agent_immune_system.Baseline.{
  AgentDict, AgentEwma, BaselineProfile, ewma_from_dict, ewma_to_dict, ewma_to_profile, new_ewma,
  set_alpha, update_ewma,
}

-- The operations of a store. A row that is found gives the profile made from it, or the error that
-- the constructor raises where a field is missing.
pub record Store (fl : Floats) (W : Type 0) : Type 0 where
  pub write_baseline_profile : W → BaselineProfile fl → W
  pub get_baseline_profile : W → String → Option (Result (BaselineProfile fl))
  pub count_baselines : W → ℕ

-- A cached baseline: the dictionary under "ewma", where there is one.
abbrev pub Cached : Floats → Type 0
Cached fl = Option (AgentDict fl)

pub record BaselineLearner (fl : Floats) (W : Type 0) : Type 0 where
  pub min_samples : ℕ
  pub store : Option W
  pub cache : Option (CacheManager (Cached fl))
  pub alpha : fl.Float
  pub ewma : Dict String (AgentEwma fl)
  pub baselines : Dict String (BaselineProfile fl)
  pub pending_deceleration : Dict String (ℕ × fl.Float)

module _ {fl : Floats} {W : Type 0} where
  -- The body of the loop of `_restore_from_cache`.
  unfoldable pub restore_one : BaselineLearner fl W → String → Cached fl → BaselineLearner fl W
  restore_one l agent_id cached =
      let a : AgentEwma fl = elim cached [
        | none ↦ new_ewma fl l.alpha
        | some d ↦ ewma_from_dict fl l.alpha d
      ] in
      record l {
        ewma = Dict.put String-discrete agent_id a l.ewma;
        baselines =
            if leb l.min_samples a.metrics.latency.count
            then Dict.put String-discrete agent_id (ewma_to_profile fl agent_id a) l.baselines
            else l.baselines;
      }

  unfoldable pub restore_all : BaselineLearner fl W → Dict String (Cached fl) → BaselineLearner fl W
  restore_all l [] = l
  restore_all l ((agent_id, cached) ∷ rest) = restore_all (restore_one l agent_id cached) rest

  -- The fields that the constructor sets; `ewma_span` is given.
  unfoldable pub unlearned :
      ℕ → Option W → Option (CacheManager (Cached fl)) → ℕ → BaselineLearner fl W
  unlearned min_samples store cache ewma_span = record {
    min_samples = min_samples;
    store = store;
    cache = cache;
    alpha = fl.div (fl.of_ℕ 2) (fl.of_ℕ (ewma_span + 1));
    ewma = [];
    baselines = [];
    pending_deceleration = [];
  }

  -- The constructor
  unfoldable pub init : ℕ → Option W → Option (CacheManager (Cached fl)) → ℕ → BaselineLearner fl W
  init min_samples store cache ewma_span =
      let l = unlearned min_samples store cache ewma_span in
      elim cache [ none ↦ l | some c ↦ restore_all l (Cache.get_baselines c) ]

  -- `_get_ewma`, whose new metrics are stored by what follows the call
  unfoldable pub get_ewma : BaselineLearner fl W → String → AgentEwma fl
  get_ewma l agent_id = Dict.get_or String-discrete agent_id l.ewma (new_ewma fl l.alpha)

  -- `_check_deceleration`, after the agent's metrics are stored
  unfoldable pub check_deceleration :
      BaselineLearner fl W → String → AgentEwma fl → BaselineLearner fl W
  check_deceleration l agent_id a =
      elim (Dict.get String-discrete agent_id l.pending_deceleration) [
        | none ↦ record l { ewma = Dict.put String-discrete agent_id a l.ewma }
        | some (target_count, normal_alpha) ↦
            if leb target_count a.metrics.latency.count
            then record l {
              ewma = Dict.put String-discrete agent_id (set_alpha fl normal_alpha a) l.ewma;
              pending_deceleration = Dict.remove String-discrete agent_id l.pending_deceleration;
            }
            else record l { ewma = Dict.put String-discrete agent_id a l.ewma }
      ]

  -- `self.cache.set_baseline(agent_id, ...)`, where there is a cache
  unfoldable pub cache_baseline : BaselineLearner fl W → String → Cached fl → BaselineLearner fl W
  cache_baseline l agent_id cached = elim l.cache [
    | none ↦ l
    | some c ↦ record l { cache = some (set_baseline c agent_id cached) }
  ]

  unfoldable pub is_baseline_ready : BaselineLearner fl W → String → ℕ → Bool
  is_baseline_ready l agent_id current_count =
      let absent = not (Dict.has String-discrete agent_id l.baselines) in
      elim (Dict.get String-discrete agent_id l.ewma) [
        | none ↦ leb l.min_samples current_count && absent
        | some a ↦
            if leb l.min_samples a.metrics.latency.count
            then absent
            else leb l.min_samples current_count && absent
      ]

  unfoldable pub reset_baseline : BaselineLearner fl W → String → BaselineLearner fl W
  reset_baseline l agent_id =
      cache_baseline
        (record l {
          ewma = Dict.remove String-discrete agent_id l.ewma;
          baselines = Dict.remove String-discrete agent_id l.baselines;
        })
        agent_id none

  module _ (ops : Store fl W) where
    -- `_persist_to_store`
    unfoldable pub persist_to_store :
        BaselineLearner fl W → BaselineProfile fl → BaselineLearner fl W
    persist_to_store l profile = elim l.store [
      | none ↦ l
      | some w ↦ record l { store = some (ops.write_baseline_profile w profile) }
    ]

    -- The end of `update`, after the profile is cached.
    unfoldable pub announce :
        BaselineLearner fl W
        → BaselineProfile fl
        → Write
        → BaselineLearner fl W × Result (Option (BaselineProfile fl))
    announce l profile w =
        if profile.sample_size == l.min_samples
        then elim l.cache [
          | none ↦ (persist_to_store l profile, ok (some profile))
          | some c ↦
              let (c', saved) = save_if_dirty c w in
              elim saved [
                | ok _ ↦
                    (persist_to_store (record l { cache = some c' }) profile, ok (some profile))
                | raise e ↦ (record l { cache = some c' }, raise e)
              ]
        ]
        else if profile.sample_size % 100 == 0
        then (persist_to_store l profile, ok (some profile))
        else (l, ok (some profile))

    -- `update` once the metrics are updated and stored.
    unfoldable pub publish :
        BaselineLearner fl W
        → String
        → AgentEwma fl
        → Write
        → BaselineLearner fl W × Result (Option (BaselineProfile fl))
    publish l agent_id a w =
        let profile = ewma_to_profile fl agent_id a in
        if ltb a.metrics.latency.count l.min_samples
        then (l, ok none)
        else announce
            (cache_baseline
              (record l { baselines = Dict.put String-discrete agent_id profile l.baselines })
              agent_id (some (ewma_to_dict fl a)))
            profile w

    -- `w` is how a write of the cache would end.
    unfoldable pub update :
        BaselineLearner fl W
        → String
        → AgentVitals fl
        → Write
        → BaselineLearner fl W × Result (Option (BaselineProfile fl))
    update l agent_id v w =
        let l' = check_deceleration l agent_id (update_ewma fl (get_ewma l agent_id) v) in
        publish l' agent_id (get_ewma l' agent_id) w

    -- The loop of `learn_baseline`, with the profile of the last sample so far.
    unfoldable pub learn_samples :
        BaselineLearner fl W
        → String
        → List (AgentVitals fl × Write)
        → Option (BaselineProfile fl)
        → BaselineLearner fl W × Result (Option (BaselineProfile fl))
    learn_samples l agent_id [] last = (l, ok last)
    learn_samples l agent_id ((v, w) ∷ vitals_list) last =
        let (l', r) = update l agent_id v w in
        elim r [
          | ok profile ↦ learn_samples l' agent_id vitals_list profile
          | raise e ↦ (l', raise e)
        ]

    unfoldable pub learn_baseline :
        BaselineLearner fl W
        → String
        → List (AgentVitals fl × Write)
        → BaselineLearner fl W × Result (Option (BaselineProfile fl))
    learn_baseline l agent_id vitals_list = learn_samples l agent_id vitals_list none

    -- The row of the store for an agent that has no profile here.
    unfoldable pub stored_profile :
        BaselineLearner fl W → String → Option (Result (BaselineProfile fl))
    stored_profile l agent_id = elim l.store [
      | none ↦ none
      | some w ↦ ops.get_baseline_profile w agent_id
    ]

    unfoldable pub get_baseline :
        BaselineLearner fl W → String → BaselineLearner fl W × Result (Option (BaselineProfile fl))
    get_baseline l agent_id = elim (Dict.get String-discrete agent_id l.baselines) [
      | some profile ↦ (l, ok (some profile))
      | none ↦ elim (stored_profile l agent_id) [
        | none ↦ (l, ok none)
        | some (raise e) ↦ (l, raise e)
        | some (ok profile) ↦ (
          record l { baselines = Dict.put String-discrete agent_id profile l.baselines },
          ok (some profile),
        )
      ]
    ]

    unfoldable pub has_baseline : BaselineLearner fl W → String → BaselineLearner fl W × Result Bool
    has_baseline l agent_id =
        let (l', r) = get_baseline l agent_id in (l', r >>= λ profile. ok (is_some profile))

    unfoldable pub count_baselines : BaselineLearner fl W → ℕ
    count_baselines l =
        if nonempty l.baselines
        then length l.baselines
        else elim l.store [ none ↦ 0 | some w ↦ ops.count_baselines w ]

  -- `min(0.3, self.alpha * 5)`
  unfoldable pub fast_alpha : BaselineLearner fl W → fl.Float
  fast_alpha l = min_float fl (fl.literal 3 10) (fl.mul l.alpha (fl.of_ℕ 5))

  unfoldable pub accelerate_learning : BaselineLearner fl W → String → ℕ → BaselineLearner fl W
  accelerate_learning l agent_id ticks = elim (Dict.get String-discrete agent_id l.ewma) [
    | none ↦ l
    | some a ↦ record l {
      ewma = Dict.put String-discrete agent_id (set_alpha fl (fast_alpha l) a) l.ewma;
      pending_deceleration =
          Dict.put String-discrete agent_id (a.metrics.latency.count + ticks, l.alpha)
            l.pending_deceleration;
    }
  ]
