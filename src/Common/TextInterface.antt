-- ===== src/Common/TextInterface.antt =====
-- What the program takes from Python's library for texts, as a parameter of the model.
use mathlib.Core.Bool.{Bool, true, false}
use mathlib.Core.Logic.{ite}
use Prim.Native.Nat.{ℕ}
use Prim.Native.String.{String}
use ai_agent_immune_system.Common.Tests.{String-discrete, if◌then◌else◌}
use ai_agent_immune_system.Common.Errors.{Result}

pub record ParsedUrl : Type 0 where
  pub scheme : String
  pub hostname : String

-- `strip()`, `rstrip("/")`, `lower()`, `s in t`, `str(n)`, the match with `_PROVIDER_NAME_RE`, `urlparse`, which
-- may raise, and the first digits of a SHA-256 digest.
pub record Texts : Type 0 where
  pub strip : String → String
  pub rstrip_slash : String → String
  pub lower : String → String
  pub is_in : String → String → Bool
  pub str : ℕ → String
  pub sha256 : ℕ → String → String
  pub matches_name : String → Bool
  pub urlparse : String → Result ParsedUrl

-- Whether a text is true, which it is unless it is empty.
unfoldable pub truthy : String → Bool
truthy s = ite (String-discrete s "") false true

-- `a or b`
unfoldable pub or_text : String → String → String
or_text a b = if truthy a then a else b
