-- ===== src/Telemetry/Retention.antt =====
-- What the collector keeps of the samples that it is given (immune_system/telemetry.py).
use ai_agent_immune_system.Common.{
  Floats, List, String, String-discrete, [], ap, append-nil, append_assoc, arith, dec_le, drop, ite,
  length, length-append, length-drop, refl, suc, sym, take_last, zero, ℕ, ◌++◌, ◌-◌, ◌∙◌, ◌∷◌, ◌≡◌,
  ◌≤◌,
}
use ai_agent_immune_system.Common.Dict
use ai_agent_immune_system.Telemetry.{
  AgentVitals, TelemetryCollector, VitalsDict, get_all, max_in_memory_samples, record_vitals,
  to_vitals,
}

module _ {ℓ} {A : Type ℓ} where
  drop-append : (n : ℕ) (xs ys : List A) → n ≤ length xs → drop n (xs ++ ys) ≡ drop n xs ++ ys
  drop-append zero xs ys h = refl
  drop-append (suc n) [] ys h = absurd (omega arith)
  drop-append (suc n) (x ∷ xs) ys h = drop-append n xs ys (omega arith)

  drop_one : (n : ℕ) (xs : List A) → drop 1 (drop n xs) ≡ drop (suc n) xs
  drop_one zero xs = refl
  drop_one (suc n) [] = refl
  drop_one (suc n) (x ∷ xs) = drop_one n xs

  -- To keep the last `n` after each of two additions is to keep them once at the end.
  take_last-append_one :
      (n : ℕ) (xs : List A) (y : A)
      → take_last n (take_last n xs ++ y ∷ []) ≡ take_last n (xs ++ y ∷ [])
  take_last-append_one n xs y = elim (dec_le (length xs) n) [
    | yes few ↦
        let all : take_last n xs ≡ xs = ap (λ k. drop k xs) (zero_excess (length xs) n few) in
        ap (λ l. take_last n (l ++ y ∷ [])) all
    | no many ↦
        let k = length xs - n in
        let kept = length-drop k xs in
        let left : length (take_last n xs ++ y ∷ []) - n ≡ 1 =
          omega (arith, length-append (take_last n xs) (y ∷ []), kept) in
        let right : length (xs ++ y ∷ []) - n ≡ suc k = omega (arith, length-append xs (y ∷ [])) in
        ap (λ c. drop c (take_last n xs ++ y ∷ [])) left
        ∙ ap (drop 1) (sym (drop-append k xs (y ∷ []) (omega arith)))
        ∙ drop_one k (xs ++ y ∷ [])
        ∙ ap (λ c. drop c (xs ++ y ∷ [])) (sym right)
  ]
    where
      zero_excess : (a b : ℕ) → a ≤ b → a - b ≡ 0
      zero_excess a b h = omega arith

  length-take_last-le : (n : ℕ) (xs : List A) → length (take_last n xs) ≤ n
  length-take_last-le n xs = omega (arith, length-drop (length xs - n) xs)

  take_last_all : (n : ℕ) (xs : List A) → length xs ≤ n → take_last n xs ≡ xs
  take_last_all n xs h = ap (λ k. drop k xs) none_over
    where
      none_over : length xs - n ≡ 0
      none_over = omega arith

  -- To keep the last `n` on the way changes nothing of what is kept at the end.
  take_last-append :
      (n : ℕ) (xs ys : List A) → take_last n (take_last n xs ++ ys) ≡ take_last n (xs ++ ys)
  take_last-append n xs [] =
      ap (take_last n) (append-nil (take_last n xs))
      ∙ take_last_all n (take_last n xs) (length-take_last-le n xs)
      ∙ ap (take_last n) (sym (append-nil xs))
  take_last-append n xs (z ∷ zs) =
      ap (take_last n) (sym (append_assoc (take_last n xs) (z ∷ []) zs))
      ∙ sym (take_last-append n (take_last n xs ++ z ∷ []) zs)
      ∙ ap (λ l. take_last n (l ++ zs)) (take_last-append_one n xs z)
      ∙ take_last-append n (xs ++ z ∷ []) zs
      ∙ ap (take_last n) (append_assoc xs (z ∷ []) zs)

module _ (fl : Floats) where
  unfoldable pub record_all : TelemetryCollector fl → List (VitalsDict fl) → TelemetryCollector fl
  record_all c [] = c
  record_all c (d ∷ ds) = record_all (record_vitals fl c d) ds

  -- The samples of agent `i` among those given, oldest first.
  unfoldable pub given_by : String → List (VitalsDict fl) → List (AgentVitals fl)
  given_by i [] = []
  given_by i (d ∷ ds) =
      let rest = given_by i ds in ite (String-discrete d.agent_id i) (to_vitals fl d ∷ rest) rest

  get_all-record :
      (c : TelemetryCollector fl) (d : VitalsDict fl) (i : String)
      → get_all fl (record_vitals fl c d) i
        ≡ ite
            (String-discrete d.agent_id i)
            (take_last max_in_memory_samples (get_all fl c i ++ to_vitals fl d ∷ []))
            (get_all fl c i)
  unfolding get_all record_vitals
  get_all-record c d i =
      let v = to_vitals fl d in
      let own : v.agent_id ≡ d.agent_id = unfold to_vitals in refl in
      let stored = take_last max_in_memory_samples (get_all fl c v.agent_id ++ v ∷ []) in
      ground (arith, own, Dict.get-put String-discrete i v.agent_id stored c.samples)

  -- The samples of an agent after any reports, of that agent and of others in any order: the last 500
  -- of those it had and those reported of it, oldest first.
  pub get_all-record_all :
      (c : TelemetryCollector fl) (ds : List (VitalsDict fl)) (i : String)
      → length (get_all fl c i) ≤ max_in_memory_samples
      → get_all fl (record_all c ds) i
        ≡ take_last max_in_memory_samples (get_all fl c i ++ given_by i ds)
  unfolding record_all given_by
  get_all-record_all c [] i h = sym (
      ap (take_last max_in_memory_samples) (append-nil (get_all fl c i))
      ∙ take_last_all max_in_memory_samples (get_all fl c i) h)
  get_all-record_all c (d ∷ ds) i h =
      let c' = record_vitals fl c d in
      let one = to_vitals fl d ∷ [] in
      elim (String-discrete d.agent_id i) [
        | yes same ↦
            let now : get_all fl c' i ≡ take_last max_in_memory_samples (get_all fl c i ++ one) =
              ground (arith, same, get_all-record c d i) in
            let small : length (get_all fl c' i) ≤ max_in_memory_samples =
              rw now (length-take_last-le max_in_memory_samples (get_all fl c i ++ one)) in
            get_all-record_all c' ds i small
            ∙ ap (λ l. take_last max_in_memory_samples (l ++ given_by i ds)) now
            ∙ take_last-append max_in_memory_samples (get_all fl c i ++ one) (given_by i ds)
            ∙ ap (take_last max_in_memory_samples)
                (append_assoc (get_all fl c i) one (given_by i ds))
            ∙ ground (arith, same)
        | no other ↦
            let now : get_all fl c' i ≡ get_all fl c i =
              ground (arith, other, get_all-record c d i) in
            get_all-record_all c' ds i (rw now h) ∙ ground (arith, other, now)
      ]
