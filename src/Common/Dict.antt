-- ===== src/Common/Dict.antt =====
-- Python's `dict` as an association list in insertion order, over keys with a decidable equality.
-- An assignment to a key that is there keeps its place; a new key goes to the end.
use mathlib.Core.Path.{◌≡◌, refl, subst}
use mathlib.Core.Logic.{◌≢◌, ite}
use mathlib.Core.Bool.{Bool}
use mathlib.Core.List.{List, [], ◌∷◌, map}
use mathlib.Core.Option.{Option, none, some}
use native.Mathlib.Omega.{arith}
use ai_agent_immune_system.Common.Tests.{is_some, some_or}
use ai_agent_immune_system.Common.Lists.{All}

abbrev pub Dict {ℓ} : Type ℓ → Type ℓ → Type ℓ
Dict K V = List (K × V)

module _ {ℓ} {K V : Type ℓ} where
  abbrev pub keys : Dict K V → List K
  keys = map (λ e. e.0)

  abbrev pub values : Dict K V → List V
  values = map (λ e. e.1)

module _ {ℓ} {K V : Type ℓ} (dec : Discrete K) where
  -- `d.get(k)`
  unfoldable pub get : K → Dict K V → Option V
  get k [] = none
  get k ((j, v) ∷ d) = ite (dec j k) (some v) (get k d)

  -- `d[k] = v`
  unfoldable pub put : K → V → Dict K V → Dict K V
  put k v [] = (k, v) ∷ []
  put k v ((j, w) ∷ d) = ite (dec j k) ((j, v) ∷ d) ((j, w) ∷ put k v d)

  -- `d.pop(k, None)`; a key stands in a dictionary once, so that all entries of the key are one
  unfoldable pub remove : K → Dict K V → Dict K V
  remove k [] = []
  remove k ((j, w) ∷ d) = let rest = remove k d in ite (dec j k) rest ((j, w) ∷ rest)

  -- `k in d`
  abbrev pub has : K → Dict K V → Bool
  has k d = is_some (get k d)

  -- `d.get(k, v)`
  abbrev pub get_or : K → Dict K V → V → V
  get_or k d v = some_or (get k d) v

  pub get-put :
      (j k : K) (v : V) (d : Dict K V) → get j (put k v d) ≡ ite (dec k j) (some v) (get j d)
  unfolding get put
  get-put j k v [] = refl
  get-put j k v ((i, w) ∷ d) = ground (arith, get-put j k v d)

  pub get-put_self : (k : K) (v : V) (d : Dict K V) → get k (put k v d) ≡ some v
  get-put_self k v d = ground (arith, get-put k k v d)

  pub get-put_ne : (j k : K) (v : V) (d : Dict K V) → k ≢ j → get j (put k v d) ≡ get j d
  get-put_ne j k v d h = ground (arith, get-put j k v d)

  pub get-remove : (j k : K) (d : Dict K V) → get j (remove k d) ≡ ite (dec k j) none (get j d)
  unfolding get remove
  get-remove j k [] = ground arith
  get-remove j k ((i, w) ∷ d) = ground (arith, get-remove j k d)

  pub get-remove_self : (k : K) (d : Dict K V) → get k (remove k d) ≡ none
  get-remove_self k d = ground (arith, get-remove k k d)

  pub get-remove_ne : (j k : K) (d : Dict K V) → k ≢ j → get j (remove k d) ≡ get j d
  get-remove_ne j k d h = ground (arith, get-remove j k d)

  -- What an assignment leaves alone, where the key is there already and its value is the same.
  pub put_same : (k : K) (v : V) (d : Dict K V) → get k d ≡ some v → put k v d ≡ d
  unfolding get put
  put_same k v [] h = cc
  put_same k v ((j, w) ∷ d) h = ground (arith, put_same k v d)

  -- What every value has is had by every value after an assignment of one that has it.
  pub All-put :
      (P : V → Type 0) (k : K) (v : V) (d : Dict K V)
      → P v
      → All (λ e. P e.1) d
      → All (λ e. P e.1) (put k v d)
  unfolding put
  All-put P k v [] h a = (h, a)
  All-put P k v ((j, w) ∷ d) h a =
      elim (dec j k) as (λ x. All (λ e. P e.1) (ite x ((j, v) ∷ d) ((j, w) ∷ put k v d))) [
        | yes _ ↦ (h, a.1)
        | no _ ↦ (a.0, All-put P k v d h a.1)
      ]

  pub All-get_or :
      (P : V → Type 0) (k : K) (v : V) (d : Dict K V) → P v → All (λ e. P e.1) d → P (get_or k d v)
  unfolding get
  All-get_or P k v [] h a = h
  All-get_or P k v ((j, w) ∷ d) h a =
      elim (dec j k) as (λ x. P (some_or (ite x (some w) (get k d)) v)) [
        | yes _ ↦ a.0
        | no _ ↦ All-get_or P k v d h a.1
      ]

  pub All-get :
      (P : V → Type 0) (k : K) (v : V) (d : Dict K V) → All (λ e. P e.1) d → get k d ≡ some v → P v
  unfolding get
  All-get P k v [] a h = ground (arith, h)
  All-get P k v ((j, w) ∷ d) a h = elim (dec j k) [
    | yes same ↦ subst P (ground (arith, h, same)) a.0
    | no other ↦ All-get P k v d a.1 (ground (arith, h, other))
  ]

  pub All-remove :
      (P : V → Type 0) (k : K) (d : Dict K V) → All (λ e. P e.1) d → All (λ e. P e.1) (remove k d)
  unfolding remove
  All-remove P k [] a = a
  All-remove P k ((j, w) ∷ d) a =
      elim (dec j k) as (λ x. All (λ e. P e.1) (ite x (remove k d) ((j, w) ∷ remove k d))) [
        | yes _ ↦ All-remove P k d a.1
        | no _ ↦ (a.0, All-remove P k d a.1)
      ]
