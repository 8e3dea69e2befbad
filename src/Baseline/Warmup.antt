-- ===== src/Baseline/Warmup.antt =====
-- When an agent has a baseline (immune_system/baseline.py, `BaselineLearner`).
use ai_agent_immune_system.Common.{
  Bool, Floats, Option, Option-cases, String, String-discrete, ap, arith, false, if◌then◌else◌, inl,
  inr, ite, leb, ltb, none, some, some_or, true, ℕ, ◌+◌, ◌<◌, ◌≡◌, ◌≢◌,
}
use ai_agent_immune_system.Common.Dict
use ai_agent_immune_system.Common.Dict.{Dict}
use ai_agent_immune_system.Telemetry.{AgentVitals}
use ai_agent_immune_system.Cache.{Write}
use ai_agent_immune_system.Baseline.{
  AgentEwma, BaselineProfile, ewma_from_dict, ewma_to_dict, ewma_to_profile, map_metrics, new_ewma,
  new_metric, set_alpha, update_ewma, update_metric, update_metrics,
}
use ai_agent_immune_system.Baseline.Learner.{
  BaselineLearner, Cached, Store, accelerate_learning, announce, cache_baseline, check_deceleration,
  fast_alpha, get_ewma, persist_to_store, publish, reset_baseline, restore_one, update,
}

unfoldable pub samples_of : {fl : Floats} → Option (AgentEwma fl) → Option ℕ
samples_of none = none
samples_of (some a) = some a.metrics.latency.count

unfoldable pub at_least : ℕ → Option ℕ → Bool
at_least n none = false
at_least n (some m) = leb n m

module _ {fl : Floats} {W : Type 0} where
  -- Whether the learner has taken in as many samples of the agent as it asks for.
  unfoldable pub is_warm : BaselineLearner fl W → String → Bool
  is_warm l i = at_least l.min_samples (samples_of (Dict.get String-discrete i l.ewma))

  unfoldable pub has_profile : BaselineLearner fl W → String → Bool
  has_profile l i = Dict.has String-discrete i l.baselines

  -- An agent has a profile exactly when its warm-up is over.
  abbrev pub IsWarm : BaselineLearner fl W → Type 0
  IsWarm l = (i : String) → has_profile l i ≡ is_warm l i

  check_deceleration-warm :
      (l : BaselineLearner fl W) (i j : String) (a : AgentEwma fl)
      → let l' = check_deceleration l i a in
        let n = a.metrics.latency.count in
        (is_warm l' j ≡ ite (String-discrete i j) (leb l.min_samples n) (is_warm l j))
        × ((get_ewma l' i).metrics.latency.count ≡ n)
        × (l'.baselines ≡ l.baselines)
        × (l'.min_samples ≡ l.min_samples)
  unfolding check_deceleration is_warm get_ewma set_alpha map_metrics samples_of at_least
  check_deceleration-warm l i j a =
      elim (Option-cases (Dict.get String-discrete i l.pending_deceleration)) [
        | inl none_pending ↦ ground (
          arith,
          none_pending,
          Dict.get-put String-discrete j i a l.ewma,
          Dict.get-put String-discrete i i a l.ewma,
        )
        | inr ((target, normal), pending) ↦ ground (
          arith,
          pending,
          Dict.get-put String-discrete j i a l.ewma,
          Dict.get-put String-discrete i i a l.ewma,
          Dict.get-put String-discrete j i (set_alpha fl normal a) l.ewma,
          Dict.get-put String-discrete i i (set_alpha fl normal a) l.ewma,
        )
      ]

  cache_baseline-keeps :
      (l : BaselineLearner fl W) (i : String) (cached : Cached fl)
      → let l' = cache_baseline l i cached in
        (l'.ewma ≡ l.ewma) × (l'.baselines ≡ l.baselines) × (l'.min_samples ≡ l.min_samples)
  unfolding cache_baseline
  cache_baseline-keeps l i cached = ground arith

  announce-keeps :
      (ops : Store fl W) (l : BaselineLearner fl W) (profile : BaselineProfile fl) (w : Write)
      → let l' = (announce ops l profile w).0 in
        (l'.ewma ≡ l.ewma) × (l'.baselines ≡ l.baselines) × (l'.min_samples ≡ l.min_samples)
  unfolding announce persist_to_store
  announce-keeps ops l profile w = ground arith

  -- What the last part of an update leaves.
  pub publish-keeps :
      (ops : Store fl W) (l : BaselineLearner fl W) (i : String) (a : AgentEwma fl) (w : Write)
      → let l' = (publish ops l i a w).0 in
        (l'.ewma ≡ l.ewma)
        × (l'.min_samples ≡ l.min_samples)
        × (l'.baselines ≡ (
            if ltb a.metrics.latency.count l.min_samples
            then l.baselines
            else Dict.put String-discrete i (ewma_to_profile fl i a) l.baselines))
  unfolding publish
  publish-keeps ops l i a w =
      let profile = ewma_to_profile fl i a in
      let stored = record l { baselines = Dict.put String-discrete i profile l.baselines } in
      ground (
        arith,
        announce-keeps ops (cache_baseline stored i (some (ewma_to_dict fl a))) profile w,
        cache_baseline-keeps stored i (some (ewma_to_dict fl a)),
      )

  publish-warm :
      (ops : Store fl W) (l : BaselineLearner fl W) (i j : String) (a : AgentEwma fl) (w : Write)
      → let l' = (publish ops l i a w).0 in
        (is_warm l' j ≡ is_warm l j)
        × (has_profile l' j ≡ (
            if ltb a.metrics.latency.count l.min_samples
            then has_profile l j
            else ite (String-discrete i j) true (has_profile l j)))
  unfolding is_warm has_profile
  publish-warm ops l i j a w = ground (
    arith,
    publish-keeps ops l i a w,
    Dict.get-put String-discrete j i (ewma_to_profile fl i a) l.baselines,
  )

  update_ewma-count :
      (l : BaselineLearner fl W) (i : String) (v : AgentVitals fl)
      → (update_ewma fl (get_ewma l i) v).metrics.latency.count
        ≡ some_or (samples_of (Dict.get String-discrete i l.ewma)) 0 + 1
  unfolding update_ewma update_metrics update_metric get_ewma new_ewma new_metric samples_of
  update_ewma-count l i v = ground arith

  update-not_warm :
      (l : BaselineLearner fl W) (i : String) (v : AgentVitals fl)
      → (update_ewma fl (get_ewma l i) v).metrics.latency.count < l.min_samples
      → is_warm l i ≡ false
  unfolding is_warm at_least
  update-not_warm l i v early = ground (arith, update_ewma-count l i v, early)

  pub update-IsWarm :
      (ops : Store fl W) (l : BaselineLearner fl W) (i : String) (v : AgentVitals fl) (w : Write)
      → IsWarm l
      → IsWarm (update ops l i v w).0
  unfolding update
  update-IsWarm ops l i v w h j =
      let a = update_ewma fl (get_ewma l i) v in
      let l' = check_deceleration l i a in
      let decelerated = check_deceleration-warm l i j a in
      let published = publish-warm ops l' i j (get_ewma l' i) w in
      let here = h j in
      let same : has_profile l' j ≡ has_profile l j =
        unfold has_profile in
        ap (λ (d : Dict String (BaselineProfile fl)). Dict.has String-discrete j d) decelerated.2 in
      elim (String-discrete i j) [
        | yes own ↦
            let early = update-not_warm l i v in
            let own_warm = ap (is_warm l) own in
            ground (arith, decelerated, published, here, same, own, own_warm, early)
        | no other ↦ ground (arith, decelerated, published, here, same, other)
      ]

  pub accelerate-IsWarm :
      (l : BaselineLearner fl W) (i : String) (ticks : ℕ)
      → IsWarm l
      → IsWarm (accelerate_learning l i ticks)
  unfolding accelerate_learning has_profile is_warm set_alpha map_metrics samples_of
  accelerate-IsWarm l i ticks h j = elim (Option-cases (Dict.get String-discrete i l.ewma)) [
    | inl absent ↦ ground (arith, absent, h j)
    | inr (a, known) ↦
        ground (
          arith,
          known,
          h j,
          Dict.get-put String-discrete j i (set_alpha fl (fast_alpha l) a) l.ewma,
        )
  ]

  pub reset-IsWarm :
      (l : BaselineLearner fl W) (i : String) → IsWarm l → IsWarm (reset_baseline l i)
  unfolding reset_baseline cache_baseline has_profile is_warm samples_of at_least
  reset-IsWarm l i h j = ground (
    arith,
    h j,
    Dict.get-remove String-discrete j i l.ewma,
    Dict.get-remove String-discrete j i l.baselines,
  )

  pub restore_one-IsWarm :
      (l : BaselineLearner fl W) (i : String) (cached : Cached fl)
      → Dict.get String-discrete i l.ewma ≡ none
      → IsWarm l
      → IsWarm (restore_one l i cached)
  unfolding restore_one has_profile is_warm samples_of at_least
  restore_one-IsWarm l i none absent h j =
      let a = new_ewma fl l.alpha in
      ground (
        arith,
        absent,
        h j,
        Dict.get-put String-discrete j i a l.ewma,
        Dict.get-put String-discrete j i (ewma_to_profile fl i a) l.baselines,
      )
  restore_one-IsWarm l i (some d) absent h j =
      let a = ewma_from_dict fl l.alpha d in
      ground (
        arith,
        absent,
        h j,
        Dict.get-put String-discrete j i a l.ewma,
        Dict.get-put String-discrete j i (ewma_to_profile fl i a) l.baselines,
      )

  pub restore_one-ewma :
      (l : BaselineLearner fl W) (i j : String) (cached : Cached fl)
      → i ≢ j
      → Dict.get String-discrete j (restore_one l i cached).ewma ≡ Dict.get String-discrete j l.ewma
  unfolding restore_one
  restore_one-ewma l i j none h = Dict.get-put_ne String-discrete j i (new_ewma fl l.alpha) l.ewma h
  restore_one-ewma l i j (some d) h =
      Dict.get-put_ne String-discrete j i (ewma_from_dict fl l.alpha d) l.ewma h
