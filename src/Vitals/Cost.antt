-- ===== src/Vitals/Cost.antt =====
-- The rates that the cost of a model is estimated with (gateway/vitals_extractor.py).
use ai_agent_immune_system.Common.{Floats, String, Texts, arith, true, ◌≡◌}
use ai_agent_immune_system.Vitals.{first_match, match_cost, rates}

module _ (fl : Floats) (py : Texts) where
  -- Every model whose name contains that of one of the later GPT-4 models is priced as "gpt-4": the
  -- table has that key first, and a name that contains one of the others contains it too.
  pub match_cost-gpt :
      (model later : String)
      → ((s : String) → py.is_in later s ≡ true → py.is_in "gpt-4" s ≡ true)
      → py.is_in later (py.lower model) ≡ true
      → match_cost fl py model ≡ rates fl 30 60 1000
  unfolding match_cost first_match
  match_cost-gpt model later h k = ground (arith, h (py.lower model) k)
