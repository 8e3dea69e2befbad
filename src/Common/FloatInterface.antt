-- ===== src/Common/FloatInterface.antt =====
-- Python's `float`, with the operations that the program uses, as a parameter of the model.
use mathlib.Core.Path.{◌≡◌}
use mathlib.Core.Bool.{Bool, true, false}
use Prim.Native.Nat.{ℕ}
use ai_agent_immune_system.Common.Tests.{if◌then◌else◌}

pub record Floats : Type 1 where
  pub Float : Type 0
  -- the literal `n / d`, and `float(n)`
  pub literal : ℕ → ℕ → Float
  pub of_ℕ : ℕ → Float
  pub add : Float → Float → Float
  pub sub : Float → Float → Float
  pub mul : Float → Float → Float
  pub div : Float → Float → Float
  pub abs : Float → Float
  pub sqrt : Float → Float
  -- `round(a, n)`
  pub round : Float → ℕ → Float
  pub lt : Float → Float → Bool
  pub le : Float → Float → Bool

-- What holds of the comparisons where no operand is a NaN.
pub record OrderLaws (fl : Floats) : Type 0 where
  pub lt_asymm : (a b : fl.Float) → fl.lt a b ≡ true → fl.lt b a ≡ false
  pub lt_trans : (a b c : fl.Float) → fl.lt b a ≡ false → fl.lt c b ≡ false → fl.lt c a ≡ false

module _ (fl : Floats) where
  -- `max(a, b)` and `min(a, b)`: the first operand unless the second is strictly beyond it
  abbrev pub max_float : fl.Float → fl.Float → fl.Float
  max_float a b = if fl.lt a b then b else a

  abbrev pub min_float : fl.Float → fl.Float → fl.Float
  min_float a b = if fl.lt b a then b else a
