-- ===== src/Common/Sets.antt =====
-- Python's `set` as a list without repetitions; nothing reads its order.
use Prim.Native.Nat.{◌≤◌, ◌+◌}
use mathlib.Core.Path.{◌≡◌}
use mathlib.Core.Logic.{ite}
use mathlib.Core.Bool.{true, false}
use mathlib.Core.List.{List, [], ◌∷◌, ◌++◌}
use native.Mathlib.Omega.{arith}
use ai_agent_immune_system.Common.Tests.{if◌then◌else◌}
use ai_agent_immune_system.Common.Lists.{contains, length}

module _ {ℓ} {A : Type ℓ} (dec : Discrete A) where
  -- `s.add(a)`
  unfoldable pub set_add : A → List A → List A
  set_add a s = if contains dec a s then s else s ++ a ∷ []

  -- `s.discard(a)`
  unfoldable pub set_discard : A → List A → List A
  set_discard a [] = []
  set_discard a (x ∷ s) =
      let rest = set_discard a s in elim (dec a x) [ yes _ ↦ rest | no _ ↦ x ∷ rest ]

  contains-append_one :
      (a b : A) (s : List A) → contains dec b (s ++ a ∷ []) ≡ ite (dec a b) true (contains dec b s)
  contains-append_one a b [] = ground arith
  contains-append_one a b (x ∷ s) = ground (arith, contains-append_one a b s)

  pub contains-set_add :
      (a b : A) (s : List A) → contains dec b (set_add a s) ≡ ite (dec a b) true (contains dec b s)
  unfolding set_add
  contains-set_add a b s = ground (arith, contains-append_one a b s)

  pub contains-set_discard :
      (a b : A) (s : List A)
      → contains dec b (set_discard a s) ≡ ite (dec a b) false (contains dec b s)
  unfolding set_discard
  contains-set_discard a b [] = ground arith
  contains-set_discard a b (x ∷ s) = ground (arith, contains-set_discard a b s)

  length-append_one : (a : A) (s : List A) → length (s ++ a ∷ []) ≡ length s + 1
  length-append_one a [] = omega arith
  length-append_one a (x ∷ s) = omega (arith, length-append_one a s)

  pub length-set_add :
      (a : A) (s : List A)
      → length (set_add a s) ≡ (if contains dec a s then length s else length s + 1)
  unfolding set_add
  length-set_add a s = ground (arith, length-append_one a s)

  pub length-set_discard-le : (a : A) (s : List A) → length (set_discard a s) ≤ length s
  unfolding set_discard
  length-set_discard-le a [] = omega arith
  length-set_discard-le a (x ∷ s) = ground (arith, length-set_discard-le a s)
