-- ===== src/Common/Sort.antt =====
-- A stable sort by a test "strictly before", as `list.sort` and `sorted` do it, and its laws.
use mathlib.Core.Path.{◌≡◌, refl, subst, ◌∙◌}
use mathlib.Core.Bool.{Bool, true, false}
use mathlib.Core.List.{List, [], ◌∷◌}
use native.Mathlib.Omega.{arith}
use ai_agent_immune_system.Common.Tests.{Bool-cases, if◌then◌else◌}
use ai_agent_immune_system.Common.Lists.{All, count_if}
use mathlib.Core.Logic.{inl, inr}

module _ {ℓ} {A : Type ℓ} (before : A → A → Bool) where
  -- An element goes in front of all that are not strictly before it, its equals too.
  unfoldable pub insert_sorted : A → List A → List A
  insert_sorted x [] = x ∷ []
  insert_sorted x (y ∷ ys) =
      let rest = insert_sorted x ys in if before y x then y ∷ rest else x ∷ y ∷ ys

  unfoldable pub sort_by : List A → List A
  sort_by [] = []
  sort_by (x ∷ xs) = insert_sorted x (sort_by xs)

  -- Each element is strictly before none of those in front of it.
  abbrev pub IsSorted : List A → Type 0
  IsSorted [] = Unit {0}
  IsSorted (x ∷ xs) = All (λ y. before y x ≡ false) xs × IsSorted xs

  count_if-insert_sorted :
      (p : A → Bool) (x : A) (xs : List A) → count_if p (insert_sorted x xs) ≡ count_if p (x ∷ xs)
  unfolding insert_sorted
  count_if-insert_sorted p x [] = refl
  count_if-insert_sorted p x (y ∷ ys) = ground (arith, count_if-insert_sorted p x ys)

  -- Sorting keeps how often anything occurs.
  pub count_if-sort_by : (p : A → Bool) (xs : List A) → count_if p (sort_by xs) ≡ count_if p xs
  unfolding sort_by
  count_if-sort_by p [] = refl
  count_if-sort_by p (x ∷ xs) =
      count_if-insert_sorted p x (sort_by xs) ∙ ground (arith, count_if-sort_by p xs)

  All-insert_sorted {κ} :
      (P : A → Type κ) (x : A) (xs : List A) → P x → All P xs → All P (insert_sorted x xs)
  unfolding insert_sorted
  All-insert_sorted P x [] h k = (h, k)
  All-insert_sorted P x (y ∷ ys) h k = elim (Bool-cases (before y x)) [
    | inl later ↦ rw later (k.0, All-insert_sorted P x ys h k.1)
    | inr here ↦ rw here (h, k)
  ]

  pub All-sort_by {κ} : (P : A → Type κ) (xs : List A) → All P xs → All P (sort_by xs)
  unfolding sort_by
  All-sort_by P [] h = h
  All-sort_by P (x ∷ xs) h = All-insert_sorted P x (sort_by xs) h.0 (All-sort_by P xs h.1)

  All-of_insert_sorted {κ} :
      (P : A → Type κ) (x : A) (xs : List A) → All P (insert_sorted x xs) → P x × All P xs
  unfolding insert_sorted
  All-of_insert_sorted P x [] h = h
  All-of_insert_sorted P x (y ∷ ys) h = elim (Bool-cases (before y x)) [
    | inl later ↦
        let k = subst (λ b. All P (if b then y ∷ insert_sorted x ys else x ∷ y ∷ ys)) later h in
        let rest = All-of_insert_sorted P x ys k.1 in (rest.0, (k.0, rest.1))
    | inr here ↦ subst (λ b. All P (if b then y ∷ insert_sorted x ys else x ∷ y ∷ ys)) here h
  ]

  -- What holds of every element of the sorted list holds of every element of the list.
  pub All-of_sort_by {κ} : (P : A → Type κ) (xs : List A) → All P (sort_by xs) → All P xs
  unfolding sort_by
  All-of_sort_by P [] h = h
  All-of_sort_by P (x ∷ xs) h =
      let k = All-of_insert_sorted P x (sort_by xs) h in (k.0, All-of_sort_by P xs k.1)

  module _ (asymm : (a b : A) → before a b ≡ true → before b a ≡ false)
      (trans : (a b c : A) → before b a ≡ false → before c b ≡ false → before c a ≡ false) where
    All-trans :
        (x y : A) (ys : List A)
        → before y x ≡ false
        → All (λ z. before z y ≡ false) ys
        → All (λ z. before z x ≡ false) ys
    All-trans x y [] h k = k
    All-trans x y (z ∷ zs) h k = (trans x y z h k.0, All-trans x y zs h k.1)

    IsSorted-insert_sorted : (x : A) (xs : List A) → IsSorted xs → IsSorted (insert_sorted x xs)
    unfolding insert_sorted
    IsSorted-insert_sorted x [] h = (tt, tt)
    IsSorted-insert_sorted x (y ∷ ys) h = elim (Bool-cases (before y x)) [
      | inl later ↦ rw later (
        All-insert_sorted (λ z. before z y ≡ false) x ys (asymm y x later) h.0,
        IsSorted-insert_sorted x ys h.1,
      )
      | inr here ↦ rw here ((here, All-trans x y ys here h.0), h)
    ]

    pub sort_by-IsSorted : (xs : List A) → IsSorted (sort_by xs)
    unfolding sort_by
    sort_by-IsSorted [] = tt
    sort_by-IsSorted (x ∷ xs) = IsSorted-insert_sorted x (sort_by xs) (sort_by-IsSorted xs)
