-- ===== src/Diagnosis/Ranking.antt =====
-- The ranking of the hypotheses (immune_system/diagnosis.py, `diagnose`).
use ai_agent_immune_system.Common.{
  All, All-map, Bool, Bool-cases, Floats, IsSorted, List, OrderLaws, [], ap, arith, contains,
  count_if, count_if-sort_by, exists, false, if◌then◌else◌, inl, inr, ite, ltb, ok, refl, sort_by,
  sort_by-IsSorted, subst, sym, true, ℕ, ◌&&◌, ◌++◌, ◌∙◌, ◌∷◌, ◌≡◌, ◌≢◌, ◌≤◌,
}
use ai_agent_immune_system.Detection.{InfectionReport}
use ai_agent_immune_system.Diagnosis.{
  Diagnosis, DiagnosisContext, DiagnosisType, DiagnosisType-discrete, Diagnostician, collect, dedup,
  diagnose, more_confident, primary, unknown_step,
}

module _ (fl : Floats) where
  -- Whether a hypothesis has type `t`.
  abbrev pub has_type : DiagnosisType → Diagnosis fl → Bool
  has_type t h = ite (DiagnosisType-discrete h.diagnosis_type t) true false

  module _ (seen : List DiagnosisType) (h : Diagnosis fl) (hs : List (Diagnosis fl)) where
    dedup_old :
        contains DiagnosisType-discrete h.diagnosis_type seen ≡ true
        → dedup fl seen (h ∷ hs) ≡ dedup fl seen hs
    unfolding dedup
    dedup_old e = rw (e, dedup) refl

    dedup_new :
        contains DiagnosisType-discrete h.diagnosis_type seen ≡ false
        → dedup fl seen (h ∷ hs) ≡ h ∷ dedup fl (h.diagnosis_type ∷ seen) hs
    unfolding dedup
    dedup_new e = rw (e, dedup) refl

  -- How many hypotheses of type `t` are left, if the types `seen` are dropped.
  abbrev left : DiagnosisType → List DiagnosisType → List (Diagnosis fl) → ℕ
  left t seen hs =
      if contains DiagnosisType-discrete t seen then 0 else if exists (has_type t) hs then 1 else 0

  dedup_count :
      (t : DiagnosisType) (seen : List DiagnosisType) (hs : List (Diagnosis fl))
      → count_if (has_type t) (dedup fl seen hs) ≡ left t seen hs
  dedup_count t seen [] = unfold dedup in ground arith
  dedup_count t seen (h ∷ hs) =
      elim (Bool-cases (contains DiagnosisType-discrete h.diagnosis_type seen)) [
        | inl old ↦
            ap (count_if (has_type t)) (dedup_old seen h hs old)
            ∙ dedup_count t seen hs
            ∙ (elim (DiagnosisType-discrete h.diagnosis_type t) [
              | yes same ↦ ground (arith, same, old)
              | no other ↦ ground (arith, other)
            ])
        | inr new ↦
            ap (count_if (has_type t)) (dedup_new seen h hs new)
            ∙ (elim (DiagnosisType-discrete h.diagnosis_type t) [
              | yes same ↦ ground (arith, same, new, dedup_count t (h.diagnosis_type ∷ seen) hs)
              | no other ↦ ground (arith, other, dedup_count t (h.diagnosis_type ∷ seen) hs)
            ])
      ]

  All-dedup {κ} :
      (P : Diagnosis fl → Type κ) (seen : List DiagnosisType) (hs : List (Diagnosis fl))
      → All P hs
      → All P (dedup fl seen hs)
  All-dedup P seen [] k = unfold dedup in k
  All-dedup P seen (h ∷ hs) k =
      elim (Bool-cases (contains DiagnosisType-discrete h.diagnosis_type seen)) [
        | inl old ↦ subst (All P) (sym (dedup_old seen h hs old)) (All-dedup P seen hs k.1)
        | inr new ↦
            subst (All P) (sym (dedup_new seen h hs new))
              (k.0, All-dedup P (h.diagnosis_type ∷ seen) hs k.1)
      ]

  dedup-IsSorted :
      (seen : List DiagnosisType) (hs : List (Diagnosis fl))
      → IsSorted (more_confident fl) hs
      → IsSorted (more_confident fl) (dedup fl seen hs)
  dedup-IsSorted seen [] k = unfold dedup in k
  dedup-IsSorted seen (h ∷ hs) k =
      elim (Bool-cases (contains DiagnosisType-discrete h.diagnosis_type seen)) [
        | inl old ↦
            subst (IsSorted (more_confident fl)) (sym (dedup_old seen h hs old))
              (dedup-IsSorted seen hs k.1)
        | inr new ↦ subst (IsSorted (more_confident fl)) (sym (dedup_new seen h hs new)) (
          All-dedup (λ x. more_confident fl x h ≡ false) (h.diagnosis_type ∷ seen) hs k.0,
          dedup-IsSorted (h.diagnosis_type ∷ seen) hs k.1,
        )
      ]

  -- Whether a hypothesis has the type of another and is more confident.
  abbrev pub outdoes : Diagnosis fl → Diagnosis fl → Bool
  outdoes h x = has_type h.diagnosis_type x && fl.lt h.confidence x.confidence

  unbeaten :
      (h : Diagnosis fl) (hs : List (Diagnosis fl))
      → All (λ x. more_confident fl x h ≡ false) hs
      → exists (outdoes h) hs ≡ false
  unfolding more_confident
  unbeaten h [] k = refl
  unbeaten h (x ∷ hs) k = ground (arith, k.0, unbeaten h hs k.1)

  -- Of a sorted list, the hypothesis that is kept of a type is as confident as any other of the type.
  dedup-best :
      (laws : OrderLaws fl) (seen : List DiagnosisType) (hs : List (Diagnosis fl))
      → IsSorted (more_confident fl) hs
      → All
          (λ h.
            (contains DiagnosisType-discrete h.diagnosis_type seen ≡ false)
            × (exists (outdoes h) hs ≡ false))
          (dedup fl seen hs)
  dedup-best laws seen [] k = unfold dedup in tt
  dedup-best laws seen (h ∷ hs) k =
      elim (Bool-cases (contains DiagnosisType-discrete h.diagnosis_type seen)) [
        | inl old ↦ subst (All _) (sym (dedup_old seen h hs old)) (
            All-map
              (λ x (fresh, best). (
                fresh,
                elim (DiagnosisType-discrete h.diagnosis_type x.diagnosis_type) [
                  | yes same ↦ ground (arith, same, old, fresh)
                  | no other ↦ ground (arith, other, best)
                ],
              ))
              (dedup fl seen hs) (dedup-best laws seen hs k.1))
        | inr new ↦ subst (All _) (sym (dedup_new seen h hs new)) (
          (new, ground (arith, laws.lt_asymm h.confidence h.confidence, unbeaten h hs k.0)),
          All-map
              (λ x (fresh, best). elim (DiagnosisType-discrete h.diagnosis_type x.diagnosis_type) [
                | yes same ↦ ground (arith, same, fresh)
                | no other ↦ (ground (arith, fresh), ground (arith, other, best))
              ])
              (dedup fl (h.diagnosis_type ∷ seen) hs)
              (dedup-best laws (h.diagnosis_type ∷ seen) hs k.1),
        )
      ]

  unknown_step-ne-nil :
      (d : Diagnostician fl) (infection : InfectionReport fl) (hs : List (Diagnosis fl))
      → hs ++ unknown_step fl d infection hs ≢ []
  unfolding unknown_step
  unknown_step-ne-nil d infection [] e = cc
  unknown_step-ne-nil d infection (h ∷ hs) e = cc

  collect-ne-nil :
      (d : Diagnostician fl) (infection : InfectionReport fl) (ctx : DiagnosisContext fl)
      → collect fl d infection ctx ≢ []
  unfolding collect
  collect-ne-nil d infection ctx = unknown_step-ne-nil d infection _

  -- A list with an element of some type.
  type_of_first :
      (hs : List (Diagnosis fl)) → hs ≢ [] → (t : DiagnosisType) × (exists (has_type t) hs ≡ true)
  type_of_first [] ne = absurd (ne refl)
  type_of_first (h ∷ hs) ne = (h.diagnosis_type, ground arith)

  exists_of_count :
      (p : Diagnosis fl → Bool) (hs : List (Diagnosis fl))
      → (if exists p hs then 1 else 0) ≤ count_if p hs
  exists_of_count p [] = omega arith
  exists_of_count p (h ∷ hs) = ground (arith, exists_of_count p hs)

  count_of_exists :
      (p : Diagnosis fl → Bool) (hs : List (Diagnosis fl)) → exists p hs ≡ ltb 0 (count_if p hs)
  count_of_exists p [] = refl
  count_of_exists p (h ∷ hs) = ground (arith, count_of_exists p hs)

  -- Each type that the code finds evidence for stands exactly once in the result, and no other type.
  pub diagnose_types :
      (d : Diagnostician fl) (infection : InfectionReport fl) (ctx : DiagnosisContext fl)
      (t : DiagnosisType)
      → count_if (has_type t) (diagnose fl d infection ctx).hypotheses
        ≡ (if exists (has_type t) (collect fl d infection ctx) then 1 else 0)
  unfolding diagnose
  diagnose_types d infection ctx t =
      let found = collect fl d infection ctx in
      let ranked = sort_by (more_confident fl) found in
      dedup_count t [] ranked
      ∙ ground (
        arith,
        count_of_exists (has_type t) ranked,
        count_of_exists (has_type t) found,
        count_if-sort_by (more_confident fl) (has_type t) found,
      )

  -- A diagnosis always has a primary hypothesis: to read it never raises.
  pub diagnose-primary :
      (d : Diagnostician fl) (infection : InfectionReport fl) (ctx : DiagnosisContext fl)
      → (h : Diagnosis fl) × (primary fl (diagnose fl d infection ctx) ≡ ok h)
        × (exists (has_type h.diagnosis_type) (collect fl d infection ctx) ≡ true)
  unfolding primary
  diagnose-primary d infection ctx = by_cases (diagnose fl d infection ctx).hypotheses refl
    where
      found : List (Diagnosis fl)
      found = collect fl d infection ctx

      by_cases :
          (hs : List (Diagnosis fl))
          → (diagnose fl d infection ctx).hypotheses ≡ hs
          → (h : Diagnosis fl) × (primary fl (diagnose fl d infection ctx) ≡ ok h)
            × (exists (has_type h.diagnosis_type) found ≡ true)
      by_cases [] e =
          let (t, there) = type_of_first found (collect-ne-nil d infection ctx) in
          absurd (ground (arith, e, there, diagnose_types d infection ctx t))
      by_cases (h ∷ hs) e =
          (h, ground (arith, e), ground (arith, e, diagnose_types d infection ctx h.diagnosis_type))

  found-IsSorted :
      (laws : OrderLaws fl) (hs : List (Diagnosis fl))
      → IsSorted (more_confident fl) (sort_by (more_confident fl) hs)
  unfolding more_confident
  found-IsSorted laws hs =
      sort_by-IsSorted (more_confident fl) (λ a b. laws.lt_asymm b.confidence a.confidence)
        (λ a b c h k. laws.lt_trans c.confidence b.confidence a.confidence k h) hs

  -- Where the comparison of floats obeys the laws of a strict order, the hypotheses descend in
  -- confidence: none has a greater confidence than one in front of it. And each is the best of its type:
  -- no evidence that the code finds for the same type has a greater confidence.
  pub diagnose-IsSorted :
      (laws : OrderLaws fl) (d : Diagnostician fl) (infection : InfectionReport fl)
      (ctx : DiagnosisContext fl)
      → IsSorted (λ a b. fl.lt b.confidence a.confidence) (diagnose fl d infection ctx).hypotheses
        × All
            (λ h. exists (outdoes h) (collect fl d infection ctx) ≡ false)
            (diagnose fl d infection ctx).hypotheses
  unfolding diagnose more_confident
  diagnose-IsSorted laws d infection ctx =
      let found = collect fl d infection ctx in
      let ranked = sort_by (more_confident fl) found in
      let sorted = found-IsSorted laws found in
      (
        dedup-IsSorted [] ranked sorted,
        All-map
            (λ h (_, best). ground (
              arith,
              best,
              count_of_exists (outdoes h) ranked,
              count_of_exists (outdoes h) found,
              count_if-sort_by (more_confident fl) (outdoes h) found,
            ))
            (dedup fl [] ranked) (dedup-best laws [] ranked sorted),
      )
