-- ===== src/Baseline/Acceleration.antt =====
-- The faster learning after a healing, and its end (immune_system/baseline.py, `accelerate_learning`
-- and `_check_deceleration`).
use ai_agent_immune_system.Common.{
  Bool-cases, Floats, List, Option, Option-cases, String, String-discrete, [], arith, if◌then◌else◌,
  inl, inr, leb, length, ltb, none, refl, some, ℕ, ◌&&◌, ◌+◌, ◌∷◌, ◌≡◌,
}
use ai_agent_immune_system.Common.Dict
use ai_agent_immune_system.Common.Dict.{Dict}
use ai_agent_immune_system.Telemetry.{AgentVitals}
use ai_agent_immune_system.Baseline.{
  AgentEwma, EwmaMetric, PerMetric, map_metrics, set_alpha, update_ewma, update_metric,
  update_metrics,
}
use ai_agent_immune_system.Baseline.Learner.{
  BaselineLearner, Store, accelerate_learning, announce, cache_baseline, check_deceleration,
  fast_alpha, get_ewma, persist_to_store, publish, update,
}
use ai_agent_immune_system.Baseline.Warmup.{publish-keeps}
use ai_agent_immune_system.Cache.{Write}

-- One weight for every metric.
unfoldable pub constant : {F : Type 0} → F → PerMetric F
constant c = record {
  latency = c;
  tokens = c;
  tools = c;
  input_tokens = c;
  output_tokens = c;
  cost = c;
  retry_rate = c;
  error_rate = c;
}

-- The weights and what is pending once a sample makes the number of them `n`.
unfoldable pub next_alphas : {F : Type 0} → Option (ℕ × F) → ℕ → PerMetric F → PerMetric F
next_alphas none n old = old
next_alphas (some (target, normal)) n old = if leb target n then constant normal else old

unfoldable pub next_pending : {F : Type 0} → Option (ℕ × F) → ℕ → Option (ℕ × F)
next_pending none n = none
next_pending (some (target, normal)) n = if leb target n then none else some (target, normal)

module _ {fl : Floats} where
  -- The weights of an agent's metrics.
  unfoldable pub alphas : AgentEwma fl → PerMetric fl.Float
  alphas a = map_metrics (λ (m : EwmaMetric fl). m.alpha) a.metrics

  -- The weights and the number of samples of an agent.
  unfoldable pub view : Option (AgentEwma fl) → Option (PerMetric fl.Float × ℕ)
  view none = none
  view (some a) = some (alphas a, a.metrics.latency.count)

  update_ewma-alphas :
      (a : AgentEwma fl) (v : AgentVitals fl)
      → (alphas (update_ewma fl a v) ≡ alphas a)
        × ((update_ewma fl a v).metrics.latency.count ≡ a.metrics.latency.count + 1)
  unfolding alphas map_metrics update_ewma update_metrics update_metric
  update_ewma-alphas a v = (refl, refl)

  set_alpha-alphas :
      (c : fl.Float) (a : AgentEwma fl)
      → (alphas (set_alpha fl c a) ≡ constant c)
        × ((set_alpha fl c a).metrics.latency.count ≡ a.metrics.latency.count)
  unfolding alphas map_metrics set_alpha constant
  set_alpha-alphas c a = (refl, refl)

module _ {fl : Floats} {W : Type 0} (ops : Store fl W) (i : String) where
  -- The samples of an agent, one after the other, each with how a write of the cache would end.
  unfoldable pub feed : BaselineLearner fl W → List (AgentVitals fl × Write) → BaselineLearner fl W
  feed l [] = l
  feed l ((v, w) ∷ samples) = feed (update ops l i v w).0 samples

  abbrev view_of : BaselineLearner fl W → Option (PerMetric fl.Float × ℕ)
  view_of l = view (Dict.get String-discrete i l.ewma)

  abbrev pending_of : BaselineLearner fl W → Option (ℕ × fl.Float)
  pending_of l = Dict.get String-discrete i l.pending_deceleration

  publish-pending :
      (l : BaselineLearner fl W) (a : AgentEwma fl) (w : Write)
      → (publish ops l i a w).0.pending_deceleration ≡ l.pending_deceleration
  unfolding publish announce persist_to_store cache_baseline
  publish-pending l a w = ground arith

  check_deceleration-view :
      (l : BaselineLearner fl W) (a : AgentEwma fl)
      → let l' = check_deceleration l i a in
        let n = a.metrics.latency.count in
        (view_of l' ≡ some (next_alphas (pending_of l) n (alphas a), n))
        × (pending_of l' ≡ next_pending (pending_of l) n)
  unfolding check_deceleration view next_alphas next_pending
  check_deceleration-view l a = elim (Option-cases (pending_of l)) [
    | inl settled ↦ ground (arith, settled, Dict.get-put_self String-discrete i a l.ewma)
    | inr ((target, normal), waiting) ↦ ground (
      arith,
      waiting,
      Dict.get-put_self String-discrete i a l.ewma,
      Dict.get-put_self String-discrete i (set_alpha fl normal a) l.ewma,
      Dict.get-remove_self String-discrete i l.pending_deceleration,
      set_alpha-alphas normal a,
    )
  ]

  get_ewma-view :
      (l : BaselineLearner fl W) (old : PerMetric fl.Float) (n : ℕ)
      → view_of l ≡ some (old, n)
      → (alphas (get_ewma l i) ≡ old) × ((get_ewma l i).metrics.latency.count ≡ n)
  unfolding view get_ewma
  get_ewma-view l old n h = ground (arith, h)

  update-view :
      (l : BaselineLearner fl W) (v : AgentVitals fl) (w : Write) (old : PerMetric fl.Float) (n : ℕ)
      → view_of l ≡ some (old, n)
      → let l' = (update ops l i v w).0 in
        (view_of l' ≡ some (next_alphas (pending_of l) (n + 1) old, n + 1))
        × (pending_of l' ≡ next_pending (pending_of l) (n + 1))
  unfolding update
  update-view l v w old n h =
      let a = update_ewma fl (get_ewma l i) v in
      let l' = check_deceleration l i a in
      ground (
        arith,
        h,
        get_ewma-view l old n h,
        update_ewma-alphas (get_ewma l i) v,
        check_deceleration-view l a,
        publish-keeps ops l' i (get_ewma l' i) w,
        publish-pending l' (get_ewma l' i) w,
      )

  feed-settled :
      (l : BaselineLearner fl W) (samples : List (AgentVitals fl × Write))
      (old : PerMetric fl.Float) (n : ℕ)
      → view_of l ≡ some (old, n)
      → pending_of l ≡ none
      → view_of (feed l samples) ≡ some (old, n + length samples)
  unfolding feed next_alphas next_pending
  feed-settled l [] old n h settled = ground (arith, h)
  feed-settled l ((v, w) ∷ samples) old n h settled =
      let next = update-view l v w old n h in
      let l' = (update ops l i v w).0 in
      let rest =
        feed-settled l' samples old (n + 1) (ground (arith, next, settled))
          (ground (arith, next, settled)) in
      ground (arith, rest)

  feed-waiting :
      (l : BaselineLearner fl W) (samples : List (AgentVitals fl × Write))
      (old : PerMetric fl.Float) (n target : ℕ) (normal : fl.Float)
      → view_of l ≡ some (old, n)
      → pending_of l ≡ some (target, normal)
      → let m = length samples in
        view_of (feed l samples)
        ≡ some (if ltb 0 m && leb target (n + m) then constant normal else old, n + m)
  unfolding feed next_alphas next_pending
  feed-waiting l [] old n target normal h waiting = ground (arith, h)
  feed-waiting l ((v, w) ∷ samples) old n target normal h waiting =
      let next = update-view l v w old n h in
      let l' = (update ops l i v w).0 in
      elim (Bool-cases (leb target (n + 1))) [
        | inl due ↦
            let rest =
              feed-settled l' samples (constant normal) (n + 1) (ground (arith, next, waiting, due))
                (ground (arith, next, waiting, due)) in
            ground (arith, rest, due)
        | inr early ↦
            let rest =
              feed-waiting l' samples old (n + 1) target normal
                (ground (arith, next, waiting, early)) (ground (arith, next, waiting, early)) in
            ground (arith, rest, early)
      ]

  accelerate-view :
      (l : BaselineLearner fl W) (a : AgentEwma fl) (ticks : ℕ)
      → Dict.get String-discrete i l.ewma ≡ some a
      → let l' = accelerate_learning l i ticks in
        (view_of l' ≡ some (constant (fast_alpha l), a.metrics.latency.count))
        × (pending_of l' ≡ some (a.metrics.latency.count + ticks, l.alpha))
  unfolding accelerate_learning view
  accelerate-view l a ticks known = ground (
    arith,
    known,
    Dict.get-put_self String-discrete i (set_alpha fl (fast_alpha l) a) l.ewma,
    Dict.get-put_self String-discrete i (a.metrics.latency.count + ticks, l.alpha)
        l.pending_deceleration,
    set_alpha-alphas (fast_alpha l) a,
  )

  -- For an agent that the learner knows, an acceleration for some ticks gives all eight metrics the
  -- fast weight; after any samples of the agent they have the learner's own weight if there was a
  -- sample and there were as many as ticks, and the fast weight otherwise.
  pub accelerate-feed :
      (l : BaselineLearner fl W) (a : AgentEwma fl) (ticks : ℕ)
      (samples : List (AgentVitals fl × Write))
      → Dict.get String-discrete i l.ewma ≡ some a
      → let n = length samples in
        view (Dict.get String-discrete i (feed (accelerate_learning l i ticks) samples).ewma)
        ≡ some (
          constant (if ltb 0 n && leb ticks n then l.alpha else fast_alpha l),
          a.metrics.latency.count + n,
        )
  accelerate-feed l a ticks samples known =
      let start = accelerate-view l a ticks known in
      let fed =
        feed-waiting (accelerate_learning l i ticks) samples (constant (fast_alpha l))
          a.metrics.latency.count (a.metrics.latency.count + ticks) l.alpha start.0 start.1 in
      ground (arith, fed)
