-- ===== src/Baseline/Percentile.antt =====
-- The values behind a metric's 95th percentile (immune_system/baseline.py, `_EWMAMetric.update` and
-- `p95`).
use ai_agent_immune_system.Common.{
  All, Bool, Bool-cases, Floats, IsSorted, List, OrderLaws, [], arith, count_if, count_if-append,
  count_if-sort_by, false, if◌then◌else◌, inl, inr, insert_sorted, length, length-append,
  length-drop, ltb, refl, sort_by, sort_by-IsSorted, suc, take_last, zero, ℕ, ◌++◌, ◌+◌, ◌-◌, ◌<◌,
  ◌∷◌, ◌≡◌, ◌≤◌,
}
use ai_agent_immune_system.Baseline.{
  EwmaMetric, max_sorted, nth, p95, p95_place, push_sorted, update_metric,
}

length-insert_sorted :
    {A : Type 0} (before : A → A → Bool) (x : A) (xs : List A)
    → length (insert_sorted before x xs) ≡ suc (length xs)
unfolding insert_sorted
length-insert_sorted before x [] = refl
length-insert_sorted before x (y ∷ ys) = ground (arith, length-insert_sorted before x ys)

length-sort_by :
    {A : Type 0} (before : A → A → Bool) (xs : List A) → length (sort_by before xs) ≡ length xs
unfolding sort_by
length-sort_by before [] = refl
length-sort_by before (x ∷ xs) =
    omega (arith, length-insert_sorted before x (sort_by before xs), length-sort_by before xs)

module _ (fl : Floats) (laws : OrderLaws fl) where
  count_none :
      (c : fl.Float) (xs : List fl.Float)
      → All (λ x. fl.lt x c ≡ false) xs
      → count_if (λ x. fl.lt x c) xs ≡ 0
  count_none c [] h = refl
  count_none c (x ∷ xs) h = ground (arith, count_none c xs h.1, h.0)

  above :
      (c x : fl.Float) (xs : List fl.Float)
      → fl.lt x c ≡ false
      → All (λ y. fl.lt y x ≡ false) xs
      → All (λ y. fl.lt y c ≡ false) xs
  above c x [] e h = tt
  above c x (y ∷ ys) e h = (laws.lt_trans c x y e h.0, above c x ys e h.1)

  irrefl : (x : fl.Float) → fl.lt x x ≡ false
  irrefl x = elim (Bool-cases (fl.lt x x)) [ inl is ↦ laws.lt_asymm x x is | inr isnt ↦ isnt ]

  -- What a sorted list has at a place beyond all the values below a bound is not below it.
  nth-above :
      (c d : fl.Float) (xs : List fl.Float) (k : ℕ)
      → IsSorted fl.lt xs
      → k < length xs
      → count_if (λ x. fl.lt x c) xs ≤ k
      → fl.lt (nth xs k d) c ≡ false
  unfolding nth
  nth-above c d [] k s b h = ground (arith, b)
  nth-above c d (x ∷ xs) zero s b h = ground (arith, h)
  nth-above c d (x ∷ xs) (suc k) s b h = elim (Bool-cases (fl.lt x c)) [
    | inl is ↦ nth-above c d xs k s.1 (omega arith) (ground (arith, h, is))
    | inr isnt ↦
        nth-above c d xs k s.1 (omega arith)
          (omega (arith, count_none c xs (above c x xs isnt s.0)))
  ]

  -- No more values of a sorted list are below the one at a place than stand in front of it.
  count-nth :
      (d : fl.Float) (xs : List fl.Float) (k : ℕ)
      → IsSorted fl.lt xs
      → k < length xs
      → count_if (λ x. fl.lt x (nth xs k d)) xs ≤ k
  unfolding nth
  count-nth d [] k s b = omega arith
  count-nth d (x ∷ xs) zero s b = ground (arith, irrefl x, count_none x xs s.0)
  count-nth d (x ∷ xs) (suc k) s b = ground (arith, count-nth d xs k s.1 (omega arith))

  -- Dropping the first value of a sorted list for a new one leaves no more values below a bound,
  -- or at most the new one.
  count-tail :
      (c v x : fl.Float) (xs : List fl.Float) (k : ℕ)
      → IsSorted fl.lt (x ∷ xs)
      → 0 < k
      → count_if (λ y. fl.lt y c) (x ∷ xs) ≤ k
      → count_if (λ y. fl.lt y c) (xs ++ v ∷ []) ≤ k
  count-tail c v x xs k s pos h = elim (Bool-cases (fl.lt x c)) [
    | inl is ↦ ground (arith, is, h, pos, count_if-append (λ y. fl.lt y c) xs (v ∷ []))
    | inr isnt ↦ ground (
      arith,
      pos,
      count_if-append (λ y. fl.lt y c) xs (v ∷ []),
      count_none c xs (above c x xs isnt s.0),
    )
  ]

  -- The number of kept values below a bound, for a full list.
  count-push_sorted :
      (c v : fl.Float) (xs : List fl.Float) (k : ℕ)
      → IsSorted fl.lt xs
      → length xs ≡ max_sorted
      → 0 < k
      → count_if (λ y. fl.lt y c) xs ≤ k
      → count_if (λ y. fl.lt y c) (push_sorted fl xs v) ≤ k
  unfolding push_sorted
  count-push_sorted c v [] k s full pos h = omega (arith, full)
  count-push_sorted c v (x ∷ xs) k s full pos h = ground (
    arith,
    full,
    length-append xs (v ∷ []),
    count-tail c v x xs k s pos h,
    count_if-sort_by fl.lt (λ y. fl.lt y c) (xs ++ v ∷ []),
  )

  length-push_sorted :
      (xs : List fl.Float) (v : fl.Float)
      → length xs ≤ max_sorted
      → length (push_sorted fl xs v)
        ≡ (if ltb (length xs) max_sorted then length xs + 1 else max_sorted)
  unfolding push_sorted
  length-push_sorted xs v h = ground (
    arith,
    h,
    length-append xs (v ∷ []),
    length-sort_by fl.lt (xs ++ v ∷ []),
    length-sort_by fl.lt (take_last max_sorted (xs ++ v ∷ [])),
    length-drop (length (xs ++ v ∷ []) - max_sorted) (xs ++ v ∷ []),
  )

  push_sorted-IsSorted : (xs : List fl.Float) (v : fl.Float) → IsSorted fl.lt (push_sorted fl xs v)
  unfolding push_sorted
  push_sorted-IsSorted xs v =
      let values' = xs ++ v ∷ [] in
      sort_by-IsSorted fl.lt laws.lt_asymm laws.lt_trans
        (if ltb max_sorted (length values') then take_last max_sorted values' else values')

-- The place of the percentile in a full list.
abbrev last_place : ℕ
last_place = 190

p95_full :
    (fl : Floats) (m : EwmaMetric fl)
    → length m.p95_sorted ≡ max_sorted
    → p95 fl m ≡ nth m.p95_sorted last_place m.mean
unfolding p95 p95_place
p95_full fl m full = rw full refl

-- The values that a metric keeps are sorted, and at most `max_sorted`.
abbrev pub IsKept : (fl : Floats) → EwmaMetric fl → Type 0
IsKept fl m = IsSorted fl.lt m.p95_sorted × (length m.p95_sorted ≤ max_sorted)

-- Where no float is a NaN, a sample keeps the values of a metric sorted and at most `max_sorted`,
-- one more than before until there are so many; and once there are, no sample lowers the 95th
-- percentile, since it is the smallest value that a new one replaces, not the oldest.
pub update_metric-p95 :
    (fl : Floats) (laws : OrderLaws fl) (m : EwmaMetric fl) (value : fl.Float)
    → IsKept fl m
    → let m' = update_metric fl m value in
      let n = length m.p95_sorted in
      IsKept fl m'
      × (length m'.p95_sorted ≡ (if ltb n max_sorted then n + 1 else max_sorted))
      × (n ≡ max_sorted → fl.lt (p95 fl m') (p95 fl m) ≡ false)
update_metric-p95 fl laws m value (s, bound) = ((sorted, short), size, rising)
  where
    size :
        length (update_metric fl m value).p95_sorted
        ≡ (if ltb (length m.p95_sorted) max_sorted then length m.p95_sorted + 1 else max_sorted)
    size = unfold update_metric in length-push_sorted fl laws m.p95_sorted value bound

    sorted : IsSorted fl.lt (update_metric fl m value).p95_sorted
    sorted = unfold update_metric in push_sorted-IsSorted fl laws m.p95_sorted value

    short : length (update_metric fl m value).p95_sorted ≤ max_sorted
    short = ground (arith, size, bound)

    rising :
        length m.p95_sorted ≡ max_sorted
        → fl.lt (p95 fl (update_metric fl m value)) (p95 fl m) ≡ false
    rising full =
        let full' : length (update_metric fl m value).p95_sorted ≡ max_sorted =
          ground (arith, size, full) in
        let c = nth m.p95_sorted last_place m.mean in
        let few : count_if (λ y. fl.lt y c) m.p95_sorted ≤ last_place =
          count-nth fl laws m.mean m.p95_sorted last_place s (omega (arith, full)) in
        rw (p95_full fl m full, p95_full fl (update_metric fl m value) full')
          (nth-above fl laws c (update_metric fl m value).mean (update_metric fl m value).p95_sorted
            last_place sorted (omega (arith, full'))
            (unfold update_metric in
              count-push_sorted fl laws c value m.p95_sorted last_place s full (omega arith) few))
