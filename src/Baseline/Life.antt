-- ===== src/Baseline/Life.antt =====
-- The baselines of a learner over its whole life (immune_system/baseline.py, `BaselineLearner`).
use ai_agent_immune_system.Common.{
  All, Floats, List, Option, String, String-discrete, [], arith, none, refl, some, ℕ, ◌∙◌, ◌∷◌, ◌≡◌,
}
use ai_agent_immune_system.Common.Dict
use ai_agent_immune_system.Common.Dict.{Dict}
use ai_agent_immune_system.Telemetry.{AgentVitals}
use ai_agent_immune_system.Baseline.Learner.{
  BaselineLearner, Cached, Store, accelerate_learning, init, reset_baseline, restore_all,
  restore_one, unlearned, update,
}
use ai_agent_immune_system.Baseline.Warmup.{
  IsWarm, accelerate-IsWarm, at_least, has_profile, is_warm, reset-IsWarm, restore_one-IsWarm,
  restore_one-ewma, samples_of, update-IsWarm,
}
use ai_agent_immune_system.Cache
use ai_agent_immune_system.Cache.{CacheManager, Write}

-- A call of the learner that learns or forgets.
pub data Call (fl : Floats) : Type 0 where
  update_call : String → AgentVitals fl → Write → Call fl
  accelerate_call : String → ℕ → Call fl
  reset_call : String → Call fl

-- A key stands in a dictionary once.
abbrev pub IsUnique : {V : Type 0} → Dict String V → Type 0
IsUnique [] = Unit {0}
IsUnique ((k, v) ∷ d) = (Dict.get String-discrete k d ≡ none) × IsUnique d

module _ {fl : Floats} {W : Type 0} where
  abbrev IsNew : BaselineLearner fl W → Dict String (Cached fl) → Type 0
  IsNew l d = All (λ e. Dict.get String-discrete e.0 l.ewma ≡ none) d

  restore_one-IsNew :
      (l : BaselineLearner fl W) (i : String) (cached : Cached fl) (d : Dict String (Cached fl))
      → Dict.get String-discrete i d ≡ none
      → IsNew l d
      → IsNew (restore_one l i cached) d
  unfolding Dict.get
  restore_one-IsNew l i cached [] h k = tt
  restore_one-IsNew l i cached ((j, c) ∷ d) h k = elim (String-discrete i j) [
    | yes same ↦ ground (arith, h, same)
    | no other ↦ (
      restore_one-ewma l i j cached other ∙ k.0,
      restore_one-IsNew l i cached d (ground (arith, h, other)) k.1,
    )
  ]

  restore_all-IsWarm :
      (l : BaselineLearner fl W) (d : Dict String (Cached fl))
      → IsUnique d
      → IsNew l d
      → IsWarm l
      → IsWarm (restore_all l d)
  unfolding restore_all
  restore_all-IsWarm l [] u n h = h
  restore_all-IsWarm l ((i, cached) ∷ d) u n h =
      restore_all-IsWarm (restore_one l i cached) d u.1 (restore_one-IsNew l i cached d u.0 n.1)
        (restore_one-IsWarm l i cached n.0 h)

  unfoldable pub call : Store fl W → BaselineLearner fl W → Call fl → BaselineLearner fl W
  call ops l (update_call i v w) = (update ops l i v w).0
  call ops l (accelerate_call i ticks) = accelerate_learning l i ticks
  call ops l (reset_call i) = reset_baseline l i

  unfoldable pub calls : Store fl W → BaselineLearner fl W → List (Call fl) → BaselineLearner fl W
  calls ops l [] = l
  calls ops l (c ∷ cs) = calls ops (call ops l c) cs

  call-IsWarm :
      (ops : Store fl W) (l : BaselineLearner fl W) (c : Call fl) → IsWarm l → IsWarm (call ops l c)
  unfolding call
  call-IsWarm ops l (update_call i v w) h = update-IsWarm ops l i v w h
  call-IsWarm ops l (accelerate_call i ticks) h = accelerate-IsWarm l i ticks h
  call-IsWarm ops l (reset_call i) h = reset-IsWarm l i h

  calls-IsWarm :
      (ops : Store fl W) (l : BaselineLearner fl W) (cs : List (Call fl))
      → IsWarm l
      → IsWarm (calls ops l cs)
  unfolding calls
  calls-IsWarm ops l [] h = h
  calls-IsWarm ops l (c ∷ cs) h = calls-IsWarm ops (call ops l c) cs (call-IsWarm ops l c h)

-- The baselines that a cache holds, if there is a cache.
abbrev pub cached_in : {fl : Floats} → Option (CacheManager (Cached fl)) → Dict String (Cached fl)
cached_in none = []
cached_in (some c) = Cache.get_baselines c

module _ {fl : Floats} {W : Type 0} where
  unlearned-IsNew :
      (n : ℕ) (store : Option W) (cache : Option (CacheManager (Cached fl))) (span : ℕ)
      (d : Dict String (Cached fl))
      → IsNew (unlearned n store cache span) d
  unfolding unlearned Dict.get
  unlearned-IsNew n store cache span [] = tt
  unlearned-IsNew n store cache span (e ∷ d) = (refl, unlearned-IsNew n store cache span d)

  unlearned-IsWarm :
      (n : ℕ) (store : Option W) (cache : Option (CacheManager (Cached fl))) (span : ℕ)
      → IsWarm (unlearned n store cache span)
  unfolding unlearned has_profile is_warm samples_of at_least Dict.get
  unlearned-IsWarm n store cache span j = refl

  init-IsWarm :
      (n : ℕ) (store : Option W) (cache : Option (CacheManager (Cached fl))) (span : ℕ)
      → IsUnique (cached_in cache)
      → IsWarm (init n store cache span)
  unfolding init
  init-IsWarm n store none span u = unlearned-IsWarm n store none span
  init-IsWarm n store (some c) span u =
      restore_all-IsWarm (unlearned n store (some c) span) (Cache.get_baselines c) u
        (unlearned-IsNew n store (some c) span (Cache.get_baselines c))
        (unlearned-IsWarm n store (some c) span)

  -- A learner that is made from a cache, whose keys are distinct, or from none, and then takes
  -- samples, is accelerated and forgets agents in any order, has a profile of an agent exactly when
  -- it has at least the least number of samples of it.
  pub learner-IsWarm :
      (ops : Store fl W) (n : ℕ) (store : Option W) (cache : Option (CacheManager (Cached fl)))
      (span : ℕ) (cs : List (Call fl))
      → IsUnique (cached_in cache)
      → IsWarm (calls ops (init n store cache span) cs)
  learner-IsWarm ops n store cache span cs u =
      calls-IsWarm ops (init n store cache span) cs (init-IsWarm n store cache span u)
