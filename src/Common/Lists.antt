-- ===== src/Common/Lists.antt =====
-- Lists measured by native numbers, under the library's names, and predicates over lists.
use Prim.Native.Nat.{ℕ, zero, suc, ◌+◌, ◌-◌, ◌≤◌, ◌<◌}
use mathlib.Core.Path.{◌≡◌, refl, ap}
use mathlib.Core.Logic.{◌⊎◌, inl, inr}
use mathlib.Core.Bool.{Bool, true, false, not}
use mathlib.Core.List.{List, [], ◌∷◌, ◌++◌}
use native.Mathlib.Omega.{arith}
use ai_agent_immune_system.Common.Tests.{Bool-cases, if◌then◌else◌}

module _ {ℓ} {A : Type ℓ} where
  abbrev pub length : List A → ℕ
  length [] = 0
  length (x ∷ xs) = suc (length xs)

  abbrev pub drop : ℕ → List A → List A
  drop zero xs = xs
  drop (suc n) [] = []
  drop (suc n) (x ∷ xs) = drop n xs

  -- `xs[-n:]` for a positive `n`: the last `n` elements, or all of them.
  abbrev pub take_last : ℕ → List A → List A
  take_last n xs = drop (length xs - n) xs

  -- `[x for x in xs if p(x)]`
  abbrev pub keep : (A → Bool) → List A → List A
  keep p [] = []
  keep p (x ∷ xs) = let rest = keep p xs in if p x then x ∷ rest else rest

  -- `any(p(x) for x in xs)`
  abbrev pub exists : (A → Bool) → List A → Bool
  exists p [] = false
  exists p (x ∷ xs) = if p x then true else exists p xs

  -- `sum(1 for x in xs if p(x))`
  abbrev pub count_if : (A → Bool) → List A → ℕ
  count_if p [] = 0
  count_if p (x ∷ xs) = let rest = count_if p xs in if p x then suc rest else rest

  -- `x in xs`
  abbrev pub contains : Discrete A → A → List A → Bool
  contains dec a [] = false
  contains dec a (x ∷ xs) = elim (dec a x) [ yes _ ↦ true | no _ ↦ contains dec a xs ]

  abbrev pub All {κ} : (A → Type κ) → List A → Type κ
  All P [] = Unit
  All P (x ∷ xs) = P x × All P xs

  abbrev pub Any : (A → Type 0) → List A → Type 0
  Any P [] = ⊥
  Any P (x ∷ xs) = P x ⊎ Any P xs

  pub Any-map : {P Q : A → Type 0} → ((x : A) → P x → Q x) → (xs : List A) → Any P xs → Any Q xs
  Any-map f [] h = absurd h
  Any-map f (x ∷ xs) (inl h) = inl (f x h)
  Any-map f (x ∷ xs) (inr h) = inr (Any-map f xs h)

  pub Any-append_right : (P : A → Type 0) (xs ys : List A) → Any P ys → Any P (xs ++ ys)
  Any-append_right P [] ys h = h
  Any-append_right P (x ∷ xs) ys h = inr (Any-append_right P xs ys h)

  pub All-map {κ μ} :
      {P : A → Type κ} {Q : A → Type μ}
      → ((x : A) → P x → Q x)
      → (xs : List A) → All P xs
      → All Q xs
  All-map f [] h = tt
  All-map f (x ∷ xs) h = (f x h.0, All-map f xs h.1)

  pub length-append : (xs ys : List A) → length (xs ++ ys) ≡ length xs + length ys
  length-append [] ys = omega arith
  length-append (x ∷ xs) ys = omega (arith, length-append xs ys)

  pub length-drop : (n : ℕ) (xs : List A) → length (drop n xs) ≡ length xs - n
  length-drop zero xs = omega arith
  length-drop (suc n) [] = omega arith
  length-drop (suc n) (x ∷ xs) = omega (arith, length-drop n xs)

  pub length-keep-le : (p : A → Bool) (xs : List A) → length (keep p xs) ≤ length xs
  length-keep-le p [] = omega arith
  length-keep-le p (x ∷ xs) = ground (arith, length-keep-le p xs)

  pub All-append {κ} : (P : A → Type κ) (xs ys : List A) → All P xs → All P ys → All P (xs ++ ys)
  All-append P [] ys h k = k
  All-append P (x ∷ xs) ys h k = (h.0, All-append P xs ys h.1 k)

  pub All-keep {κ} : (P : A → Type κ) (p : A → Bool) (xs : List A) → All P xs → All P (keep p xs)
  All-keep P p [] h = h
  All-keep P p (x ∷ xs) h = ground (arith, All-keep P p xs h.1)

  pub keep-append : (p : A → Bool) (xs ys : List A) → keep p (xs ++ ys) ≡ keep p xs ++ keep p ys
  keep-append p [] ys = refl
  keep-append p (x ∷ xs) ys = ground (arith, keep-append p xs ys)

  pub keep_idem : (p : A → Bool) (xs : List A) → keep p (keep p xs) ≡ keep p xs
  keep_idem p [] = refl
  keep_idem p (x ∷ xs) = ground (arith, keep_idem p xs)

  -- A test that holds of every element keeps them all.
  pub keep-All : (p : A → Bool) (xs : List A) → All (λ x. p x ≡ true) xs → keep p xs ≡ xs
  keep-All p [] h = refl
  keep-All p (x ∷ xs) h = ground (arith, keep-All p xs h.1)

  -- No element that is kept fails the test.
  pub count_if-keep-not : (p : A → Bool) (xs : List A) → count_if p (keep (λ x. not (p x)) xs) ≡ 0
  count_if-keep-not p [] = refl
  count_if-keep-not p (x ∷ xs) = ground (arith, count_if-keep-not p xs)

  pub count_if-append :
      (p : A → Bool) (xs ys : List A) → count_if p (xs ++ ys) ≡ count_if p xs + count_if p ys
  count_if-append p [] ys = omega arith
  count_if-append p (x ∷ xs) ys = ground (arith, count_if-append p xs ys)

  pub All-weaken {κ} :
      (P Q : A → Type κ) → ((x : A) → P x → Q x) → (xs : List A) → All P xs → All Q xs
  All-weaken P Q f [] h = h
  All-weaken P Q f (x ∷ xs) h = (f x h.0, All-weaken P Q f xs h.1)

  pub All-contains : (dec : Discrete A) (xs : List A) → All (λ x. contains dec x xs ≡ true) xs
  All-contains dec [] = tt
  All-contains dec (x ∷ xs) = (
    ground arith,
    All-weaken (λ y. contains dec y xs ≡ true) (λ y. contains dec y (x ∷ xs) ≡ true)
        (λ y h. ground (arith, h)) xs (All-contains dec xs),
  )

  pub contains-keep :
      (dec : Discrete A) (p : A → Bool) (a : A) (xs : List A)
      → contains dec a (keep p xs) ≡ (if p a then contains dec a xs else false)
  contains-keep dec p a [] = ground arith
  contains-keep dec p a (x ∷ xs) = ground (arith, contains-keep dec p a xs)

  -- Where nothing is kept, every element fails the test.
  pub keep_none : (p : A → Bool) (xs : List A) → keep p xs ≡ [] → All (λ x. p x ≡ false) xs
  keep_none p [] h = tt
  keep_none p (x ∷ xs) h = elim (Bool-cases (p x)) [
    | inl is ↦ ground (arith, h, is)
    | inr isnt ↦ (isnt, keep_none p xs (ground (arith, h, isnt)))
  ]

  length-keep_mono :
      (p q : A → Bool) (xs : List A)
      → ((x : A) → q x ≡ true → p x ≡ true)
      → length (keep q xs) ≤ length (keep p xs)
  length-keep_mono p q [] h = omega arith
  length-keep_mono p q (x ∷ xs) h = ground (arith, h x, length-keep_mono p q xs h)

  -- A test that holds of less, and not of an element that passed the other, keeps fewer.
  pub length-keep_fewer :
      (dec : Discrete A) (p q : A → Bool) (a : A) (xs : List A)
      → ((x : A) → q x ≡ true → p x ≡ true)
      → q a ≡ false
      → p a ≡ true
      → contains dec a xs ≡ true
      → length (keep q xs) < length (keep p xs)
  length-keep_fewer dec p q a (x ∷ xs) h out was there = elim (dec a x) [
    | yes same ↦ ground (arith, out, was, ap q same, ap p same, length-keep_mono p q xs h)
    | no other ↦ ground (arith, h x, length-keep_fewer dec p q a xs h out was, there, other)
  ]
  length-keep_fewer dec p q a [] h out was there = ground (arith, there)

  pub exists-append :
      (p : A → Bool) (xs ys : List A)
      → exists p (xs ++ ys) ≡ (if exists p xs then true else exists p ys)
  exists-append p [] ys = refl
  exists-append p (x ∷ xs) ys = ground (arith, exists-append p xs ys)

-- Every element of a list is one of its elements.
pub All-Any : {A : Type 0} → (xs : List A) → All (λ x. Any (λ y. y ≡ x) xs) xs
All-Any [] = tt
All-Any (x ∷ xs) = (inl refl, All-map (λ y h. inr h) xs (All-Any xs))
