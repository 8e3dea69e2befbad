-- ===== src/Policy/RuleSet.antt =====
-- Rules that come and go, and the limits over a sequence of requests (gateway/policy.py, `add_rule`,
-- `remove_rule`, `record_usage`).
use ai_agent_immune_system.Common.{
  Bool, List, String, [], ap, append-nil, arith, count_if, count_if-append, count_if-keep-not,
  if◌then◌else◌, keep, keep-append, keep_idem, leb, none, not, ok, refl, sym, ℕ, ◌++◌, ◌+◌, ◌<◌,
  ◌∙◌, ◌∷◌, ◌≡◌,
}
use ai_agent_immune_system.Policy.{
  PolicyEngine, PolicyRule, add_rule, allowed, check_models, evaluate, is_named, matching_rules,
  rate_limit_exceeded, record_usage, remove_rule, throttled, total, window_seconds,
}
use ai_agent_immune_system.Policy.Windows.{in_window, in_window-record_amount}
use ai_agent_immune_system.Policy.Evaluation.{evaluate_lem, first_verdict, verdict}

-- A rule that no request violates: it lists no models and sets no limit.
abbrev pub IsInert : PolicyRule → Type 0
IsInert r =
    (r.allowed_models ≡ [])
    × (r.blocked_models ≡ [])
    × (r.max_requests_per_minute ≡ 0)
    × (r.max_tokens_per_minute ≡ 0)

verdict_inert :
    (fnmatch : String → String → Bool) (r : PolicyRule) (model : String) (requests tokens : ℕ)
    → IsInert r
    → verdict fnmatch r model requests tokens ≡ none
unfolding verdict check_models
verdict_inert fnmatch r model requests tokens h = ground arith

first_verdict-inert :
    (fnmatch : String → String → Bool) (rules : List PolicyRule) (r : PolicyRule) (model : String)
    (requests tokens : ℕ)
    → IsInert r
    → first_verdict fnmatch (rules ++ r ∷ []) model requests tokens
      ≡ first_verdict fnmatch rules model requests tokens
unfolding first_verdict
first_verdict-inert fnmatch [] r model requests tokens h =
    ground (arith, verdict_inert fnmatch r model requests tokens h)
first_verdict-inert fnmatch (s ∷ rules) r model requests tokens h =
    ground (arith, first_verdict-inert fnmatch rules r model requests tokens h)

-- A rule with no model list and no limit decides nothing, whatever action it names: after it is
-- added every request of every agent is decided as if the rules of its name had been removed.
pub evaluate-add_inert :
    (fnmatch : String → String → Bool) (e : PolicyEngine) (r : PolicyRule) (i model : String)
    (now : ℕ)
    → IsInert r
    → (evaluate fnmatch (add_rule e r) i model now).1
      ≡ (evaluate fnmatch (remove_rule e r.name) i model now).1
evaluate-add_inert fnmatch e r i model now h =
    (evaluate_lem fnmatch (add_rule e r) i model now).0
    ∙ same
    ∙ sym (evaluate_lem fnmatch (remove_rule e r.name) i model now).0
  where
    requests : ℕ
    requests = in_window e.req_counter i window_seconds now

    tokens : ℕ
    tokens = in_window e.tok_counter i window_seconds now

    others : List PolicyRule
    others = keep (λ s. not (is_named r.name s)) e.rules

    matching :
        matching_rules fnmatch (others ++ r ∷ []) i
        ≡ matching_rules fnmatch others i ++ (if fnmatch i r.agent_pattern then r ∷ [] else [])
    matching = unfold matching_rules in keep-append (λ s. fnmatch i s.agent_pattern) others (r ∷ [])

    same :
        first_verdict fnmatch
          (matching_rules fnmatch (add_rule e r).rules i)
          model
          (in_window (add_rule e r).req_counter i window_seconds now)
          (in_window (add_rule e r).tok_counter i window_seconds now)
        ≡ first_verdict fnmatch
            (matching_rules fnmatch (remove_rule e r.name).rules i)
            model
            (in_window (remove_rule e r.name).req_counter i window_seconds now)
            (in_window (remove_rule e r.name).tok_counter i window_seconds now)
    same =
        unfold add_rule remove_rule in
        ground (
          arith,
          matching,
          append-nil (matching_rules fnmatch others i),
          first_verdict-inert fnmatch (matching_rules fnmatch others i) r model requests tokens h,
        )

-- Adding a rule leaves exactly one of its name; removing it again leaves the rules of the other
-- names, which are all the rules if none had that name before.
pub add_rule-remove_rule :
    (e : PolicyEngine) (r : PolicyRule)
    → (count_if (is_named r.name) (add_rule e r).rules ≡ 1)
      × (remove_rule (add_rule e r) r.name ≡ remove_rule e r.name)
unfolding add_rule remove_rule
add_rule-remove_rule e r =
    let p = is_named r.name in
    let q = λ (s : PolicyRule). not (p s) in
    let others = keep q e.rules in
    (
      ground (arith, count_if-append p others (r ∷ []), count_if-keep-not p e.rules),
      ap (λ rules. record e { rules = rules })
          (keep-append q others (r ∷ []) ∙ ground (arith, keep_idem q e.rules, append-nil others)),
    )

-- The requests of one agent, each at a time and with a number of tokens.
unfoldable pub record_uses : PolicyEngine → String → List (ℕ × ℕ) → PolicyEngine
record_uses e i [] = e
record_uses e i ((t, tokens) ∷ uses) = record_uses (record_usage e i tokens t) i uses

record_usage-window :
    (e : PolicyEngine) (i : String) (t tokens now : ℕ)
    → let e' = record_usage e i tokens t in
      (in_window e'.req_counter i window_seconds now
        ≡ in_window e.req_counter i window_seconds now
          + (if leb now (t + window_seconds) then 1 else 0))
      × (in_window e'.tok_counter i window_seconds now
          ≡ in_window e.tok_counter i window_seconds now
            + (if leb now (t + window_seconds) then tokens else 0))
unfolding record_usage
record_usage-window e i t tokens now = ground (
  arith,
  in_window-record_amount e.req_counter i i 1 t window_seconds now,
  in_window-record_amount e.tok_counter i i tokens t window_seconds now,
)

abbrev pub in_last_minute : ℕ → ℕ × ℕ → Bool
in_last_minute now (t, tokens) = leb now (t + window_seconds)

record_uses-window :
    (e : PolicyEngine) (i : String) (uses : List (ℕ × ℕ)) (now : ℕ)
    → let e' = record_uses e i uses in
      (in_window e'.req_counter i window_seconds now
        ≡ in_window e.req_counter i window_seconds now + count_if (in_last_minute now) uses)
      × (in_window e'.tok_counter i window_seconds now
          ≡ in_window e.tok_counter i window_seconds now + total (keep (in_last_minute now) uses))
unfolding record_uses total
record_uses-window e i [] now = omega arith
record_uses-window e i ((t, tokens) ∷ uses) now = ground (
  arith,
  record_usage-window e i t tokens now,
  record_uses-window (record_usage e i tokens t) i uses now,
)

record_uses-rules :
    (e : PolicyEngine) (i : String) (uses : List (ℕ × ℕ)) → (record_uses e i uses).rules ≡ e.rules
unfolding record_uses record_usage
record_uses-rules e i [] = refl
record_uses-rules e i ((t, tokens) ∷ uses) = record_uses-rules (record_usage e i tokens t) i uses

-- Where an agent's matching rules are one rule with a positive request limit, no token limit and no
-- model list, and the engine has counted nothing of it yet: after any requests the next one is
-- throttled exactly when the requests not older than a minute have reached the limit, and is allowed
-- otherwise.
pub evaluate-record_uses :
    (fnmatch : String → String → Bool) (e : PolicyEngine) (rule : PolicyRule) (i model : String)
    (uses : List (ℕ × ℕ)) (now : ℕ)
    → matching_rules fnmatch e.rules i ≡ rule ∷ []
    → (rule.allowed_models ≡ []) × (rule.blocked_models ≡ []) × (rule.max_tokens_per_minute ≡ 0)
    → 0 < rule.max_requests_per_minute
    → in_window e.req_counter i window_seconds now ≡ 0
    → let made = count_if (in_last_minute now) uses in
      (evaluate fnmatch (record_uses e i uses) i model now).1
      ≡ ok (
          if leb rule.max_requests_per_minute made
          then throttled rule (rate_limit_exceeded made rule.max_requests_per_minute)
          else allowed)
evaluate-record_uses fnmatch e rule i model uses now matching plain limit empty =
    (evaluate_lem fnmatch (record_uses e i uses) i model now).0
    ∙ unfold first_verdict verdict check_models in
      ground
        (arith, record_uses-rules e i uses, matching, plain, record_uses-window e i uses now, empty)
