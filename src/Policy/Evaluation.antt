-- ===== src/Policy/Evaluation.antt =====
-- `evaluate` against a description of the decision that neither changes a counter nor keeps one
-- (gateway/policy.py, `PolicyEngine.evaluate`).
use ai_agent_immune_system.Common.{
  Bool, List, Option, Option-cases, Result, String, String-discrete, [], arith, exists,
  if◌then◌else◌, inl, inr, ite, leb, ltb, none, ok, refl, some, subst, sym, ℕ, ◌&&◌, ◌∙◌, ◌∷◌, ◌≡◌,
}
use ai_agent_immune_system.Policy.{
  PolicyDecision, PolicyEngine, PolicyRule, allowed, check_limits, check_models, check_tokens,
  evaluate, evaluate_rules, is_blocked, matching_rules, not_in_allowed_list, rate_limit_exceeded,
  throttled, token_budget_exceeded, violation, window_seconds,
}
use ai_agent_immune_system.Policy.Windows.{count-result, in_window, in_window-count}

module _ (fnmatch : String → String → Bool) where
  -- The decision of a rule's blocklist, and that of both its lists, on a model that a request names: a
  -- list of the allowed ones, if there is one, must have a pattern that fits, and the blocklist none.
  abbrev pub by_blocklist : PolicyRule → String → Option (Result PolicyDecision)
  by_blocklist rule model =
      if exists (fnmatch model) rule.blocked_models
      then some (violation rule (is_blocked model))
      else none

  abbrev pub by_model : PolicyRule → String → Option (Result PolicyDecision)
  by_model rule model = ite (String-discrete model "") none (elim rule.allowed_models [
    | [] ↦ by_blocklist rule model
    | m ∷ ms ↦
        if exists (fnmatch model) (m ∷ ms)
        then by_blocklist rule model
        else some (violation rule (not_in_allowed_list model))
  ])

  check_models-by_model :
      (rule : PolicyRule) (model : String) → check_models fnmatch rule model ≡ by_model rule model
  unfolding check_models
  check_models-by_model rule model = by_lists rule.allowed_models rule.blocked_models refl refl
    where
      by_lists :
          (as' bs : List String)
          → rule.allowed_models ≡ as'
          → rule.blocked_models ≡ bs
          → check_models fnmatch rule model ≡ by_model rule model
      by_lists [] [] e f = ground (arith, e, f)
      by_lists [] (b ∷ bs) e f = ground (arith, e, f)
      by_lists (a ∷ as') [] e f = ground (arith, e, f)
      by_lists (a ∷ as') (b ∷ bs) e f = ground (arith, e, f)

  -- The decision of one rule, from the requests and tokens of the last minute.
  unfoldable pub verdict : PolicyRule → String → ℕ → ℕ → Option (Result PolicyDecision)
  verdict rule model requests tokens = elim (by_model rule model) [
    | some decision ↦ some decision
    | none ↦
        if ltb 0 rule.max_requests_per_minute && leb rule.max_requests_per_minute requests
        then some (ok (throttled rule (rate_limit_exceeded requests rule.max_requests_per_minute)))
        else if ltb 0 rule.max_tokens_per_minute && leb rule.max_tokens_per_minute tokens
        then some (ok (throttled rule (token_budget_exceeded tokens rule.max_tokens_per_minute)))
        else none
  ]

  -- The decision of the first rule that has one.
  unfoldable pub first_verdict : List PolicyRule → String → ℕ → ℕ → Result PolicyDecision
  first_verdict [] model requests tokens = ok allowed
  first_verdict (rule ∷ rules) model requests tokens = elim (verdict rule model requests tokens) [
    | some decision ↦ decision
    | none ↦ first_verdict rules model requests tokens
  ]

abbrev requests_of : PolicyEngine → String → ℕ → ℕ
requests_of e i now = in_window e.req_counter i window_seconds now

abbrev tokens_of : PolicyEngine → String → ℕ → ℕ
tokens_of e i now = in_window e.tok_counter i window_seconds now

module _ (fnmatch : String → String → Bool) (rule : PolicyRule) (i model : String) (now : ℕ) where
  -- The limits of a rule change no count in the window.
  check_limits-counts :
      (e : PolicyEngine) (j : String)
      → let e' = (check_limits fnmatch e rule i now).0 in
        (requests_of e' j now ≡ requests_of e j now) × (tokens_of e' j now ≡ tokens_of e j now)
  unfolding check_limits check_tokens
  check_limits-counts e j = ground (
    arith,
    in_window-count e.req_counter i j window_seconds now,
    in_window-count e.tok_counter i j window_seconds now,
  )

  check_limits-verdict :
      (e : PolicyEngine)
      → check_models fnmatch rule model ≡ none
      → (check_limits fnmatch e rule i now).1
        ≡ verdict fnmatch rule model (requests_of e i now) (tokens_of e i now)
  unfolding check_limits check_tokens verdict
  check_limits-verdict e h = ground (
    arith,
    check_models-by_model fnmatch rule model,
    count-result e.req_counter i window_seconds now,
    count-result e.tok_counter i window_seconds now,
  )

  check_limits-rules : (e : PolicyEngine) → (check_limits fnmatch e rule i now).0.rules ≡ e.rules
  unfolding check_limits check_tokens
  check_limits-rules e = ground arith

-- What an evaluation keeps: the rules, and what every agent has in the window.
abbrev pub Keeps : ℕ → PolicyEngine → PolicyEngine → Type 0
Keeps now e e' =
    (e'.rules ≡ e.rules)
    × ((j : String)
        → (requests_of e' j now ≡ requests_of e j now) × (tokens_of e' j now ≡ tokens_of e j now))

module _ (fnmatch : String → String → Bool) (i model : String) (now : ℕ) where
  evaluate_rules-verdict :
      (rules : List PolicyRule) (e : PolicyEngine)
      → (evaluate_rules fnmatch rules e i model now).1
        ≡ first_verdict fnmatch rules model (requests_of e i now) (tokens_of e i now)
  unfolding evaluate_rules first_verdict
  evaluate_rules-verdict [] e = refl
  evaluate_rules-verdict (rule ∷ rules) e = elim (Option-cases (check_models fnmatch rule model)) [
    | inr (decision, violated) ↦
        unfold verdict in ground (arith, violated, check_models-by_model fnmatch rule model)
    | inl passed ↦
        let e' = (check_limits fnmatch e rule i now).0 in
        ground (
          arith,
          passed,
          check_limits-verdict fnmatch rule i model now e passed,
          check_limits-counts fnmatch rule i model now e i,
          evaluate_rules-verdict rules e',
        )
  ]

  Keeps-check_limits :
      (rule : PolicyRule) (e : PolicyEngine) → Keeps now e (check_limits fnmatch e rule i now).0
  Keeps-check_limits rule e = (
    check_limits-rules fnmatch rule i model now e,
    check_limits-counts fnmatch rule i model now e,
  )

  Keeps-trans : (e e' e'' : PolicyEngine) → Keeps now e e' → Keeps now e' e'' → Keeps now e e''
  Keeps-trans e e' e'' (r, h) (r', h') = (r' ∙ r, λ j. ((h' j).0 ∙ (h j).0, (h' j).1 ∙ (h j).1))

  Keeps-evaluate_rules :
      (rules : List PolicyRule) (e : PolicyEngine)
      → Keeps now e (evaluate_rules fnmatch rules e i model now).0
  unfolding evaluate_rules
  Keeps-evaluate_rules [] e = (refl, λ j. (refl, refl))
  Keeps-evaluate_rules (rule ∷ rules) e = elim (Option-cases (check_models fnmatch rule model)) [
    | inr (decision, violated) ↦
        let step : (evaluate_rules fnmatch (rule ∷ rules) e i model now).0 ≡ e =
          ground (arith, violated) in
        subst (λ s. Keeps now e s) (sym step) (refl, λ j. (refl, refl))
    | inl passed ↦
        let e' = (check_limits fnmatch e rule i now).0 in
        elim (Option-cases (check_limits fnmatch e rule i now).1) [
          | inr (decision, limited) ↦
              let step : (evaluate_rules fnmatch (rule ∷ rules) e i model now).0 ≡ e' =
                ground (arith, passed, limited) in
              subst (λ s. Keeps now e s) (sym step) (Keeps-check_limits rule e)
          | inl free ↦
              let step : (evaluate_rules fnmatch (rule ∷ rules) e i model now).0
                  ≡ (evaluate_rules fnmatch rules e' i model now).0 =
                ground (arith, passed, free) in
              subst (λ s. Keeps now e s) (sym step)
                (Keeps-trans e e' _ (Keeps-check_limits rule e) (Keeps-evaluate_rules rules e'))
        ]
  ]

-- `evaluate` decides as the first matching rule that is violated says, by its model lists and by
-- what the agent has recorded in the last minute, and allows the request if none is (a rule whose
-- action is no known word raises). It keeps the rules and what counts in the window of any agent.
pub evaluate_lem :
    (fnmatch : String → String → Bool) (e : PolicyEngine) (i model : String) (now : ℕ)
    → ((evaluate fnmatch e i model now).1
        ≡ first_verdict fnmatch
            (matching_rules fnmatch e.rules i)
            model
            (in_window e.req_counter i window_seconds now)
            (in_window e.tok_counter i window_seconds now))
      × Keeps now e (evaluate fnmatch e i model now).0
unfolding evaluate
evaluate_lem fnmatch e i model now =
    let rules = matching_rules fnmatch e.rules i in
    (
      evaluate_rules-verdict fnmatch i model now rules e,
      Keeps-evaluate_rules fnmatch i model now rules e,
    )
