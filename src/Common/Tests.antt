-- ===== src/Common/Tests.antt =====
-- Boolean tests on numbers and on texts, the conditional, and case splits that keep an equation.
use Prim.Native.Nat.{ℕ, compare, Ordering}
use Prim.Native.String.{String, ◌++◌}
use mathlib.Core.Path.{◌≡◌, refl}
use mathlib.Core.Logic.{◌↔◌, ◌⊎◌, inl, inr}
use mathlib.Core.Bool.{Bool, true, false}
use mathlib.Core.Option.{Option, none, some}
use text.Mathlib.Text.{◌==◌ as str_eq}
use text.Mathlib.TextEquality.{eq_iff}

abbrev pub ltb : ℕ → ℕ → Bool
ltb a b = elim (compare a b) [ Ordering.lt ↦ true | _ ↦ false ]

abbrev pub leb : ℕ → ℕ → Bool
leb a b = elim (compare a b) [ Ordering.gt ↦ false | _ ↦ true ]

infix 50 ◌==◌
abbrev pub ◌==◌ : ℕ → ℕ → Bool
a == b = elim (compare a b) [ Ordering.eq ↦ true | _ ↦ false ]

infix 1 if◌then◌else◌
abbrev pub if◌then◌else◌ {ℓ} : {A : Type ℓ} → Bool → A → A → A
if true then x else y = x
if false then x else y = y

-- To split on a computed value and keep the equation.
pub Bool-cases : (b : Bool) → (b ≡ true) ⊎ (b ≡ false)
Bool-cases true = inl refl
Bool-cases false = inr refl

pub Option-cases {ℓ} : {A : Type ℓ} (o : Option A) → (o ≡ none) ⊎ ((a : A) × (o ≡ some a))
Option-cases none = inl refl
Option-cases (some a) = inr (a, refl)

abbrev pub is_some {ℓ} : {A : Type ℓ} → Option A → Bool
is_some none = false
is_some (some _) = true

abbrev pub some_or {ℓ} : {A : Type ℓ} → Option A → A → A
some_or none d = d
some_or (some a) d = a

-- A decision from a Boolean test that decides the same.
dec_of_test {ℓ} : {P : Type ℓ} (t : Bool) → ((t ≡ true) ↔ P) → Dec P
dec_of_test true h = yes (h.0 refl)
dec_of_test false h = no (λ p. cc (h.1 p))

-- Texts are compared by the native test.
unfoldable pub String-discrete : Discrete String
unfolding dec_of_test
String-discrete a b = dec_of_test (str_eq a b) (eq_iff a b)

-- The concatenation of two texts, where `++` is that of lists.
unfoldable pub append_text : String → String → String
append_text s t = s ++ t
