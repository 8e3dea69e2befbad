-- ===== src/Baseline/Restoring.antt =====
-- What a learner finds again after a restart (immune_system/baseline.py, `update` and
-- `_restore_from_cache`, with the baselines of immune_system/cache.py).
use ai_agent_immune_system.Common.{
  Floats, Option, String, String-discrete, [], ap, arith, if◌then◌else◌, ite, leb, none, refl, some,
  subst, sym, ℕ, ◌+◌, ◌∙◌, ◌∷◌, ◌≡◌, ◌≢◌, ◌≤◌,
}
use ai_agent_immune_system.Common.Dict
use ai_agent_immune_system.Common.Dict.{Dict}
use ai_agent_immune_system.Telemetry.{AgentVitals}
use ai_agent_immune_system.Baseline.{
  AgentDict, AgentEwma, BaselineProfile, EwmaMetric, ewma_from_dict, ewma_to_dict, ewma_to_profile,
  map_metrics, metric_from_dict, metric_to_dict, new_ewma, new_metric, update_ewma,
}
use ai_agent_immune_system.Baseline.Warmup.{publish-keeps}
use ai_agent_immune_system.Baseline.Learner.{
  BaselineLearner, Cached, Store, announce, cache_baseline, check_deceleration, get_ewma, init,
  persist_to_store, publish, restore_all, restore_one, unlearned, update,
}
use ai_agent_immune_system.Baseline.Life.{IsUnique, cached_in}
use ai_agent_immune_system.Cache
use ai_agent_immune_system.Cache.{
  CacheManager, Write, mode_not_set, no_directory, not_replaced, save, save_if_dirty, set_baseline,
  written,
}

-- A metric without the values behind its percentile, and with another weight.
unfoldable pub forget : (fl : Floats) → fl.Float → EwmaMetric fl → EwmaMetric fl
forget fl alpha m = record m { alpha = alpha; p95_sorted = [] }

unfoldable pub forget_all : (fl : Floats) → fl.Float → AgentEwma fl → AgentEwma fl
forget_all fl alpha a = record a { metrics = map_metrics (forget fl alpha) a.metrics }

ewma_from_dict-ewma_to_dict :
    (fl : Floats) (alpha : fl.Float) (a : AgentEwma fl)
    → ewma_from_dict fl alpha (ewma_to_dict fl a) ≡ forget_all fl alpha a
unfolding ewma_from_dict ewma_to_dict forget_all forget map_metrics metric_to_dict metric_from_dict
    new_metric
ewma_from_dict-ewma_to_dict fl alpha a = refl

restored-count :
    (fl : Floats) (alpha : fl.Float) (a : AgentEwma fl)
    → (ewma_from_dict fl alpha (ewma_to_dict fl a)).metrics.latency.count ≡ a.metrics.latency.count
unfolding ewma_from_dict ewma_to_dict map_metrics metric_to_dict metric_from_dict
restored-count fl alpha a = refl

IsUnique-put :
    {V : Type 0} (k : String) (v : V) (d : Dict String V)
    → IsUnique d
    → IsUnique (Dict.put String-discrete k v d)
unfolding Dict.put Dict.get
IsUnique-put k v [] u = (refl, tt)
IsUnique-put {V} k v ((j, w) ∷ d) u =
    elim (String-discrete j k)
      as (λ x. IsUnique {V = V} (ite x ((j, v) ∷ d) ((j, w) ∷ Dict.put String-discrete k v d))) [
        | yes _ ↦ u
        | no other ↦ (
          ground (arith, Dict.get-put String-discrete j k v d, u.0, other),
          IsUnique-put k v d u.1,
        )
      ]

save_if_dirty-state :
    {fl : Floats} (c : CacheManager (Cached fl)) (w : Write) → (save_if_dirty c w).0.state ≡ c.state
unfolding save_if_dirty save
save_if_dirty-state c no_directory = ground arith
save_if_dirty-state c not_replaced = ground arith
save_if_dirty-state c mode_not_set = ground arith
save_if_dirty-state c written = ground arith

module _ {fl : Floats} {W : Type 0} where
  restore_one-lem :
      (l : BaselineLearner fl W) (i : String) (d : AgentDict fl)
      → let l' = restore_one l i (some d) in
        let a = ewma_from_dict fl l.alpha d in
        (l'.min_samples ≡ l.min_samples)
        × (l'.alpha ≡ l.alpha)
        × (Dict.get String-discrete i l'.baselines ≡ (
            if leb l.min_samples a.metrics.latency.count
            then some (ewma_to_profile fl i a)
            else Dict.get String-discrete i l.baselines))
  unfolding restore_one
  restore_one-lem l i d =
      let a = ewma_from_dict fl l.alpha d in
      ground (arith, Dict.get-put_self String-discrete i (ewma_to_profile fl i a) l.baselines)

  restore_one-other :
      (l : BaselineLearner fl W) (i j : String) (cached : Cached fl)
      → j ≢ i
      → let l' = restore_one l j cached in
        (l'.min_samples ≡ l.min_samples)
        × (l'.alpha ≡ l.alpha)
        × (Dict.get String-discrete i l'.baselines ≡ Dict.get String-discrete i l.baselines)
  unfolding restore_one
  restore_one-other l i j none h =
      let a = new_ewma fl l.alpha in
      ground (arith, h, Dict.get-put_ne String-discrete i j (ewma_to_profile fl j a) l.baselines h)
  restore_one-other l i j (some d) h =
      let a = ewma_from_dict fl l.alpha d in
      ground (arith, h, Dict.get-put_ne String-discrete i j (ewma_to_profile fl j a) l.baselines h)

  restore_all-other :
      (l : BaselineLearner fl W) (i : String) (d : Dict String (Cached fl))
      → Dict.get String-discrete i d ≡ none
      → Dict.get String-discrete i (restore_all l d).baselines
        ≡ Dict.get String-discrete i l.baselines
  unfolding restore_all Dict.get
  restore_all-other l i [] h = refl
  restore_all-other l i ((j, c) ∷ d) h = elim (String-discrete j i) [
    | yes same ↦ ground (arith, h, same)
    | no other ↦
        restore_all-other (restore_one l j c) i d (ground (arith, h, other))
        ∙ (restore_one-other l i j c other).2
  ]

  restore_all-lem :
      (l : BaselineLearner fl W) (i : String) (d : Dict String (Cached fl)) (e : AgentDict fl)
      (alpha : fl.Float) (n : ℕ)
      → IsUnique d
      → Dict.get String-discrete i d ≡ some (some e)
      → l.alpha ≡ alpha
      → l.min_samples ≡ n
      → let a = ewma_from_dict fl alpha e in
        n ≤ a.metrics.latency.count
        → Dict.get String-discrete i (restore_all l d).baselines ≡ some (ewma_to_profile fl i a)
  unfolding restore_all Dict.get
  restore_all-lem l i [] e alpha n u h p q k = ground (arith, h)
  restore_all-lem l i ((j, c) ∷ d) e alpha n u h p q k = elim (String-discrete j i) [
    | yes same ↦
        let is : c ≡ some e = ground (arith, h, same) in
        restore_all-other (restore_one l j c) i d (ground (arith, u.0, same))
        ∙ ground (arith, same, is, p, q, k, restore_one-lem l i e)
    | no other ↦
        let kept = restore_one-other l i j c other in
        restore_all-lem (restore_one l j c) i d e alpha n u.1 (ground (arith, h, other))
          (kept.1 ∙ p) (kept.0 ∙ q) k
  ]

  init-lem :
      (n : ℕ) (store : Option W) (c : CacheManager (Cached fl)) (span : ℕ) (i : String)
      (a : AgentEwma fl)
      → IsUnique (Cache.get_baselines c)
      → Dict.get String-discrete i (Cache.get_baselines c) ≡ some (some (ewma_to_dict fl a))
      → n ≤ a.metrics.latency.count
      → let l : BaselineLearner fl W = init n store (some c) span in
        Dict.get String-discrete i l.baselines
        ≡ some (ewma_to_profile fl i (forget_all fl (fl.div (fl.of_ℕ 2) (fl.of_ℕ (span + 1))) a))
  unfolding init unlearned
  init-lem n store c span i a u h k =
      let alpha = fl.div (fl.of_ℕ 2) (fl.of_ℕ (span + 1)) in
      let e = ewma_to_dict fl a in
      subst
        (λ b.
          Dict.get String-discrete i
            (restore_all (unlearned n store (some c) span) (Cache.get_baselines c)).baselines
          ≡ some (ewma_to_profile fl i b))
        (ewma_from_dict-ewma_to_dict fl alpha a)
        (restore_all-lem (unlearned n store (some c) span) i (Cache.get_baselines c) e alpha n u h
          refl refl (subst (λ m. n ≤ m) (sym (restored-count fl alpha a)) k))

  announce-cached :
      (ops : Store fl W) (l : BaselineLearner fl W) (profile : BaselineProfile fl) (w : Write)
      (c : CacheManager (Cached fl))
      → l.cache ≡ some c
      → (cached_in (announce ops l profile w).0.cache ≡ c.state.baselines)
        × ((announce ops l profile w).0.alpha ≡ l.alpha)
  unfolding announce persist_to_store Cache.get_baselines
  announce-cached ops l profile w c h = ground (arith, h, save_if_dirty-state c w)

  publish-cached :
      (ops : Store fl W) (l : BaselineLearner fl W) (i : String) (a : AgentEwma fl) (w : Write)
      (c : CacheManager (Cached fl))
      → l.cache ≡ some c
      → l.min_samples ≤ a.metrics.latency.count
      → (cached_in (publish ops l i a w).0.cache
          ≡ Dict.put String-discrete i (some (ewma_to_dict fl a)) c.state.baselines)
        × ((publish ops l i a w).0.alpha ≡ l.alpha)
  unfolding publish cache_baseline set_baseline
  publish-cached ops l i a w c h k =
      let l1 = record l {
        baselines = Dict.put String-discrete i (ewma_to_profile fl i a) l.baselines;
      } in
      let c1 = set_baseline c i (some (ewma_to_dict fl a)) in
      let told =
        announce-cached ops (record l1 { cache = some c1 }) (ewma_to_profile fl i a) w c1 refl in
      ground (arith, h, k, told)

  check_deceleration-rest :
      (l : BaselineLearner fl W) (i : String) (a : AgentEwma fl)
      → let l' = check_deceleration l i a in (l'.cache ≡ l.cache) × (l'.min_samples ≡ l.min_samples)
  unfolding check_deceleration
  check_deceleration-rest l i a = ground arith

module _ {fl : Floats} {W : Type 0} where
  publish-get_ewma :
      (ops : Store fl W) (l : BaselineLearner fl W) (i : String) (a : AgentEwma fl) (w : Write)
      → get_ewma (publish ops l i a w).0 i ≡ get_ewma l i
  unfolding publish announce persist_to_store cache_baseline get_ewma
  publish-get_ewma ops l i a w = ground arith

  init-publish :
      (ops : Store fl W) (l : BaselineLearner fl W) (i : String) (a : AgentEwma fl) (w : Write)
      (c c2 : CacheManager (Cached fl)) (store : Option W) (span : ℕ) (a' : AgentEwma fl) (n : ℕ)
      → a' ≡ a
      → l.min_samples ≡ n
      → l.cache ≡ some c
      → IsUnique (Cache.get_baselines c)
      → n ≤ a'.metrics.latency.count
      → let l' = (publish ops l i a w).0 in
        Cache.get_baselines c2 ≡ cached_in l'.cache
        → let restarted : BaselineLearner fl W = init n store (some c2) span in
          (Dict.get String-discrete i l'.baselines ≡ some (ewma_to_profile fl i a'))
          × (Dict.get String-discrete i restarted.baselines
              ≡ some (
                  ewma_to_profile fl i
                    (forget_all fl (fl.div (fl.of_ℕ 2) (fl.of_ℕ (span + 1))) a')))
  init-publish ops l i a w c c2 store span a' n p q h u k same = (now, after)
    where
      enough : l.min_samples ≤ a.metrics.latency.count
      enough = ground (arith, p, q, k)

      held :
          Cache.get_baselines c2
          ≡ Dict.put String-discrete i (some (ewma_to_dict fl a)) (Cache.get_baselines c)
      held = same ∙ unfold Cache.get_baselines in (publish-cached ops l i a w c h enough).0

      held' :
          Cache.get_baselines c2
          ≡ Dict.put String-discrete i (some (ewma_to_dict fl a')) (Cache.get_baselines c)
      held' = ground (arith, held, p)

      now :
          Dict.get String-discrete i (publish ops l i a w).0.baselines
          ≡ some (ewma_to_profile fl i a')
      now = ground (
        arith,
        p,
        enough,
        publish-keeps ops l i a w,
        Dict.get-put_self String-discrete i (ewma_to_profile fl i a) l.baselines,
      )

      after :
          Dict.get String-discrete i (init {fl = fl} {W = W} n store (some c2) span).baselines
          ≡ some (ewma_to_profile fl i (forget_all fl (fl.div (fl.of_ℕ 2) (fl.of_ℕ (span + 1))) a'))
      after =
          init-lem n store c2 span i a'
            (subst IsUnique (sym held')
              (IsUnique-put i (some (ewma_to_dict fl a')) (Cache.get_baselines c) u))
            (ap (Dict.get String-discrete i) held'
              ∙ Dict.get-put_self String-discrete i (some (ewma_to_dict fl a'))
                  (Cache.get_baselines c))
            k

-- An update that leaves an agent with at least the least number of samples, in a learner whose cache
-- has distinct keys, stores the profile of the agent's metrics; and a new learner made from a cache
-- that holds the same baselines has the agent's profile at once, with the same means, deviations,
-- number of samples and hash, but with each percentile fallen to the mean.
pub init-update :
    {fl : Floats} {W : Type 0} (ops : Store fl W) (l : BaselineLearner fl W)
    (c c2 : CacheManager (Cached fl)) (i : String) (v : AgentVitals fl) (w : Write)
    (store : Option W) (span : ℕ)
    → let l' = (update ops l i v w).0 in
      let a = get_ewma l' i in
      l.cache ≡ some c
      → IsUnique (Cache.get_baselines c)
      → l.min_samples ≤ a.metrics.latency.count
      → Cache.get_baselines c2 ≡ cached_in l'.cache
      → let restarted : BaselineLearner fl W = init l.min_samples store (some c2) span in
        (Dict.get String-discrete i l'.baselines ≡ some (ewma_to_profile fl i a))
        × (Dict.get String-discrete i restarted.baselines
            ≡ some
                (ewma_to_profile fl i (forget_all fl (fl.div (fl.of_ℕ 2) (fl.of_ℕ (span + 1))) a)))
unfolding update
init-update {fl} ops l c c2 i v w store span h u k same =
    let l1 = check_deceleration l i (update_ewma fl (get_ewma l i) v) in
    let a1 = get_ewma l1 i in
    let kept = check_deceleration-rest l i (update_ewma fl (get_ewma l i) v) in
    init-publish ops l1 i a1 w c c2 store span (get_ewma (publish ops l1 i a1 w).0 i) l.min_samples
      (publish-get_ewma ops l1 i a1 w) kept.1 (kept.0 ∙ h) u k same
