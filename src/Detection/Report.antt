-- ===== src/Detection/Report.antt =====
-- What the sentinel reports (immune_system/detection.py, `detect_infection`).
use ai_agent_immune_system.Common.{
  All, Any, Bool, Bool-cases, Floats, List, Option, Option-cases, OrderLaws, String,
  String-discrete, [], ap, append-nil, append_assoc, arith, false, if◌then◌else◌, inl, inr, keep,
  map, max_float, none, ok, refl, some, subst, sym, take_last, ◌++◌, ◌∙◌, ◌∷◌, ◌≡◌, ◌≢◌,
}
use ai_agent_immune_system.Common.Dict
use ai_agent_immune_system.Baseline.{BaselineProfile}
use ai_agent_immune_system.Detection.{
  AnomalyType, Check, Found, InfectionReport, check_prompt, checks_of, detect_infection, findings,
  max_from, max_of, prompt_change, prompt_changed, report_of, run_check, run_checks, safe_deviation,
}
use ai_agent_immune_system.Telemetry.{AgentVitals}

module _ (fl : Floats) (threshold : fl.Float) where
  -- Whether a metric is off by more than the threshold. A metric whose spread is not positive, the
  -- floor of 5% of the mean included, is never off.
  unfoldable pub exceeds : Check fl → Bool
  exceeds c =
      let floor = fl.mul (fl.abs c.mean) (fl.literal 5 100) in
      let spread = if fl.lt c.stddev floor then floor else c.stddev in
      if fl.le spread (fl.of_ℕ 0)
      then false
      else fl.lt threshold (fl.div (fl.abs (fl.sub c.value c.mean)) spread)

  -- The anomalies of the recent vitals: those of the metrics that are off, in the order of the table,
  -- and a change of prompt behind them.
  unfoldable pub anomalies_of : List (AgentVitals fl) → BaselineProfile fl → List AnomalyType
  anomalies_of recent b =
      map (λ c. c.anomaly_type) (keep exceeds (checks_of fl recent b))
      ++ (if prompt_changed fl recent b then prompt_change ∷ [] else [])

  run_checks-anomalies :
      (found : Found fl) (cs : List (Check fl))
      → (run_checks fl threshold found cs).anomalies
        ≡ found.anomalies ++ map (λ c. c.anomaly_type) (keep exceeds cs)
  unfolding run_checks
  run_checks-anomalies found [] = sym (append-nil found.anomalies)
  run_checks-anomalies found (c ∷ cs) =
      run_checks-anomalies (run_check fl threshold found c) cs
      ∙ unfold run_check exceeds safe_deviation in
        ground (
          arith,
          append_assoc found.anomalies (c.anomaly_type ∷ [])
              (map (λ d. d.anomaly_type) (keep exceeds cs)),
        )

  findings-anomalies :
      (recent : List (AgentVitals fl)) (b : BaselineProfile fl)
      → (findings fl threshold recent b).anomalies ≡ anomalies_of recent b
  unfolding findings check_prompt anomalies_of
  findings-anomalies recent b =
      let start : Found fl = record { deviations = []; anomalies = [] } in
      ground (
        arith,
        run_checks-anomalies start (checks_of fl recent b),
        append-nil (map (λ c. c.anomaly_type) (keep exceeds (checks_of fl recent b))),
      )

-- An anomaly comes with a deviation.
abbrev IsBacked : (fl : Floats) → Found fl → Type 0
IsBacked fl found = found.deviations ≡ [] → found.anomalies ≡ []

module _ (fl : Floats) where
  put-ne-nil :
      (k : String) (v : fl.Float) (d : Dict.Dict String fl.Float)
      → Dict.put String-discrete k v d ≢ []
  unfolding Dict.put
  put-ne-nil k v [] e = cc
  put-ne-nil k v ((j, w) ∷ d) e = ground arith

  IsBacked-run_check :
      (threshold : fl.Float) (found : Found fl) (c : Check fl)
      → IsBacked fl found
      → IsBacked fl (run_check fl threshold found c)
  unfolding run_check
  IsBacked-run_check threshold found c h e =
      elim (Option-cases (safe_deviation fl c.value c.mean c.stddev)) [
        | inl skipped ↦ ground (arith, skipped)
        | inr (dev, measured) ↦
            absurd (put-ne-nil c.name dev found.deviations (ground (arith, measured)))
      ]

  IsBacked-run_checks :
      (threshold : fl.Float) (found : Found fl) (cs : List (Check fl))
      → IsBacked fl found
      → IsBacked fl (run_checks fl threshold found cs)
  unfolding run_checks
  IsBacked-run_checks threshold found [] h = h
  IsBacked-run_checks threshold found (c ∷ cs) h =
      IsBacked-run_checks threshold (run_check fl threshold found c) cs
        (IsBacked-run_check threshold found c h)

  IsBacked-findings :
      (threshold : fl.Float) (recent : List (AgentVitals fl)) (b : BaselineProfile fl)
      → IsBacked fl (findings fl threshold recent b)
  unfolding findings check_prompt
  IsBacked-findings threshold recent b e =
      let start : Found fl = record { deviations = []; anomalies = [] } in
      let found = run_checks fl threshold start (checks_of fl recent b) in
      elim (Bool-cases (prompt_changed fl recent b)) [
        | inl changed ↦ absurd (
            put-ne-nil "prompt_change" (fl.literal 10 1) found.deviations (ground (arith, changed)))
        | inr same ↦ rw same (
            IsBacked-run_checks threshold start (checks_of fl recent b) (λ _. refl)
              (ground (arith, same)))
      ]

-- A report fits anomalies of an agent: there is none where there are none, and else it names the agent
-- and all of them, with a maximum that is one of its deviations and below none of them.
abbrev pub Reports :
    (fl : Floats) → String → List AnomalyType → Option (InfectionReport fl) → Type 0
Reports fl agent_id anomalies none = anomalies ≡ []
Reports fl agent_id anomalies (some report) =
    (report.agent_id ≡ agent_id)
    × (report.anomalies ≡ anomalies)
    × (anomalies ≢ [])
    × Any (λ d. d ≡ report.max_deviation) (Dict.values report.deviations)
    × All (λ d. fl.lt report.max_deviation d ≡ false) (Dict.values report.deviations)

module _ (fl : Floats) (laws : OrderLaws fl) where
  max_from-least : (m : fl.Float) (vs : List fl.Float) → fl.lt (max_from fl m vs) m ≡ false
  unfolding max_from
  max_from-least m [] = irreflexive m
    where
      irreflexive : (a : fl.Float) → fl.lt a a ≡ false
      irreflexive a = elim (Bool-cases (fl.lt a a)) [ inl e ↦ laws.lt_asymm a a e | inr e ↦ e ]
  max_from-least m (v ∷ vs) = elim (Bool-cases (fl.lt m v)) [
    | inl more ↦ laws.lt_trans m v _ (laws.lt_asymm m v more) (rw more (max_from-least v vs))
    | inr less ↦ rw less (max_from-least m vs)
  ]

  -- No value is above the maximum.
  max_from-greatest :
      (m : fl.Float) (vs : List fl.Float) → All (λ v. fl.lt (max_from fl m vs) v ≡ false) vs
  unfolding max_from
  max_from-greatest m [] = tt
  max_from-greatest m (v ∷ vs) = (
    elim (Bool-cases (fl.lt m v)) [
      | inl more ↦ rw more (max_from-least v vs)
      | inr less ↦ rw less (laws.lt_trans v m _ less (max_from-least m vs))
    ],
    max_from-greatest (max_float fl m v) vs,
  )

  -- The maximum is one of the values.
  max_from-Any : (m : fl.Float) (vs : List fl.Float) → Any (λ v. v ≡ max_from fl m vs) (m ∷ vs)
  unfolding max_from
  max_from-Any m [] = inl refl
  max_from-Any m (v ∷ vs) =
      let among = λ (top : fl.Float). Any (λ x. x ≡ top) (m ∷ v ∷ vs) in
      let step : (top : fl.Float)
          → max_float fl m v ≡ top
          → max_from fl m (v ∷ vs) ≡ max_from fl top vs =
        λ top e. ap (λ x. max_from fl x vs) e in
      elim (Bool-cases (fl.lt m v)) [
        | inl more ↦ subst among (sym (step v (ground (arith, more)))) (inr (max_from-Any v vs))
        | inr less ↦
            subst among (sym (step m (ground (arith, less))))
              (elim (max_from-Any m vs) [ inl first ↦ inl first | inr later ↦ inr (inr later) ])
      ]

  report_of_lem :
      (b : BaselineProfile fl) (found : Found fl)
      → IsBacked fl found
      → (r : Option (InfectionReport fl)) × (report_of fl b found ≡ ok r)
        × Reports fl b.agent_id found.anomalies r
  unfolding report_of max_of
  report_of_lem b found backed = by_cases found.anomalies found.deviations refl refl
    where
      by_cases :
          (as' : List AnomalyType) (devs : Dict.Dict String fl.Float)
          → found.anomalies ≡ as'
          → found.deviations ≡ devs
          → (r : Option (InfectionReport fl)) × (report_of fl b found ≡ ok r)
            × Reports fl b.agent_id found.anomalies r
      by_cases [] devs e f = (none, ground (arith, e), e)
      by_cases (a ∷ as') [] e f = absurd (ground (arith, backed f))
      by_cases (a ∷ as') ((k, v) ∷ devs) e f = (
        some (record {
          agent_id = b.agent_id;
          max_deviation = max_from fl v (Dict.values devs);
          anomalies = found.anomalies;
          deviations = found.deviations;
        }),
        ground (arith, e, f),
        (
          refl,
          refl,
          ground (arith, e),
          rw f (max_from-Any v (Dict.values devs)),
          rw f (max_from-least v (Dict.values devs), max_from-greatest v (Dict.values devs)),
        ),
      )

  -- Where the comparison of floats obeys the laws of a strict order, detection does not raise. With
  -- vitals and a baseline it reports nothing exactly where the last five vitals show no anomaly;
  -- otherwise it reports the agent of the baseline, those anomalies, and the greatest of the deviations
  -- that it reports.
  pub detect_infection_lem :
      (threshold : fl.Float) (v : AgentVitals fl) (vs : List (AgentVitals fl))
      (b : BaselineProfile fl)
      → (r : Option (InfectionReport fl)) × (detect_infection fl threshold (v ∷ vs) (some b) ≡ ok r)
        × Reports fl b.agent_id (anomalies_of fl threshold (take_last 5 (v ∷ vs)) b) r
  unfolding detect_infection
  detect_infection_lem threshold v vs b =
      let recent = take_last 5 (v ∷ vs) in
      rw (← findings-anomalies fl threshold recent b)
        (report_of_lem b (findings fl threshold recent b) (IsBacked-findings fl threshold recent b))
