-- ===== src/Correlator/Fleet.antt =====
-- What the correlation of an anomaly counts (immune_system/correlator.py, `correlate`).
use ai_agent_immune_system.Common.{
  Bool, Floats, List, Option, Option-cases, OrderLaws, Result, String, String-discrete, [],
  append-nil, append_assoc, arith, contains, count_if, exists, false, if◌then◌else◌, inl, inr, ite,
  keep, length, none, ok, refl, some, sym, ℕ, ◌++◌, ◌+◌, ◌==◌, ◌∷◌, ◌≡◌,
}
use ai_agent_immune_system.Common.Dict
use ai_agent_immune_system.Common.Dict.{Dict}
use ai_agent_immune_system.Policy.{nonempty}
use ai_agent_immune_system.Telemetry.{AgentVitals, TelemetryCollector, get_recent}
use ai_agent_immune_system.Baseline.{BaselineProfile}
use ai_agent_immune_system.Detection.{
  AnomalyType, AnomalyType-discrete, InfectionReport, detect_infection,
}
use ai_agent_immune_system.Detection.Report.{detect_infection_lem}
use ai_agent_immune_system.Correlator.{
  CorrelationResult, CorrelationVerdict, FleetCorrelator, Scan, agent_specific, correlate,
  fleet_wide, judge, note_report, overlap, partial_fleet, report_on, scan_all, scan_one, update_set,
  verdict_of,
}

module _ (fl : Floats) where
  detected :
      (laws : OrderLaws fl) (sensitivity : fl.Float) (recent : List (AgentVitals fl))
      (bl : BaselineProfile fl)
      → (r : Option (InfectionReport fl)) × ((if nonempty recent
            then detect_infection fl sensitivity recent (some bl)
            else ok none)
          ≡ ok r)
  detected laws sensitivity [] bl = (none, refl)
  detected laws sensitivity (v ∷ vs) bl =
      let (r, e, what) = detect_infection_lem fl laws sensitivity v vs bl in (r, e)

  -- Whether a report shows one of the anomalies.
  abbrev pub shares : List AnomalyType → Result (Option (InfectionReport fl)) → Bool
  shares target (ok (some r)) = exists (λ a. contains AnomalyType-discrete a r.anomalies) target
  shares target _ = false

  nonempty-keep :
      (p : AnomalyType → Bool) (xs : List AnomalyType) → nonempty (keep p xs) ≡ exists p xs
  nonempty-keep p [] = refl
  nonempty-keep p (x ∷ xs) = ground (arith, nonempty-keep p xs)

  note_report-lem :
      (target : List AnomalyType) (aid : String) (s : Scan) (r : Option (InfectionReport fl))
      → ((note_report fl target aid s r).monitored_count ≡ s.monitored_count)
        × ((note_report fl target aid s r).affected
            ≡ (if shares target (ok r) then s.affected ++ aid ∷ [] else s.affected))
  unfolding note_report overlap
  note_report-lem target aid s none = (refl, refl)
  note_report-lem target aid s (some r) =
      ground (arith, nonempty-keep (λ a. contains AnomalyType-discrete a r.anomalies) target)

module _ (fl : Floats) (sensitivity : fl.Float) (telemetry : TelemetryCollector fl) (now : ℕ)
    (baselines : Dict String (BaselineProfile fl)) (target : List AnomalyType)
    (target_id : String) where
  -- Whether an agent is another one, with a baseline.
  abbrev pub is_monitored : String → Bool
  is_monitored aid =
      ite (String-discrete aid target_id) false (Dict.has String-discrete aid baselines)

  abbrev pub is_reported : String → Option (BaselineProfile fl) → Bool
  is_reported aid none = false
  is_reported aid (some bl) =
      let recent = get_recent fl telemetry aid 10 now in
      if nonempty recent
      then shares fl target (detect_infection fl sensitivity recent (some bl))
      else false

  -- Whether an agent is monitored, and its recent vitals show one of the anomalies.
  abbrev pub is_affected : String → Bool
  is_affected aid =
      ite (String-discrete aid target_id) false
        (is_reported aid (Dict.get String-discrete aid baselines))

  -- A state of the loop that takes in what one agent adds.
  abbrev Adds : Scan → String → Scan → Type 0
  Adds s aid s' =
      (s'.monitored_count ≡ (if is_monitored aid then s.monitored_count + 1 else s.monitored_count))
      × (s'.affected ≡ (if is_affected aid then s.affected ++ aid ∷ [] else s.affected))

  scan_one-lem :
      (laws : OrderLaws fl) (s : Scan) (aid : String)
      → (s' : Scan) × (scan_one fl sensitivity telemetry now baselines target target_id s aid
          ≡ ok s')
        × Adds s aid s'
  unfolding scan_one
  scan_one-lem laws s aid = elim (String-discrete aid target_id) [
    | yes same ↦ (s, ground (arith, same), (ground (arith, same), ground (arith, same)))
    | no other ↦ elim (Option-cases (Dict.get String-discrete aid baselines)) [
      | inl absent ↦ (
        s,
        ground (arith, absent, other),
        (ground (arith, absent, other), ground (arith, absent, other)),
      )
      | inr (bl, known) ↦
          let (r, e) = detected fl laws sensitivity (get_recent fl telemetry aid 10 now) bl in
          let told : report_on fl sensitivity telemetry now aid bl ≡ ok r = unfold report_on in e in
          let s1 : Scan = record s { monitored_count = s.monitored_count + 1 } in
          let noted = note_report-lem fl target aid s1 r in
          (
            note_report fl target aid s1 r,
            ground (arith, known, other, told),
            (ground (arith, known, other, noted), ground (arith, known, other, told, noted)),
          )
    ]
  ]

  scan_all-lem :
      (laws : OrderLaws fl) (s : Scan) (aids : List String)
      → (s' : Scan) × (scan_all fl sensitivity telemetry now baselines target target_id s aids
          ≡ ok s')
        × (s'.monitored_count ≡ s.monitored_count + count_if is_monitored aids)
        × (s'.affected ≡ s.affected ++ keep is_affected aids)
  unfolding scan_all
  scan_all-lem laws s [] = (s, refl, omega arith, sym (append-nil s.affected))
  scan_all-lem laws s (aid ∷ aids) =
      let (s1, e1, (m1, a1)) = scan_one-lem laws s aid in
      let (s2, e2, m2, a2) = scan_all-lem laws s1 aids in
      (
        s2,
        ground (arith, e1, e2),
        ground (arith, m1, m2),
        ground (arith, a1, a2, append_assoc s.affected (aid ∷ []) (keep is_affected aids)),
      )

module _ (fl : Floats) where
  -- The verdict on so many affected agents of so many monitored ones.
  abbrev pub verdict_on : FleetCorrelator fl → ℕ → ℕ → CorrelationVerdict
  verdict_on c n monitored =
      let fraction = fl.div (fl.of_ℕ n) (fl.of_ℕ monitored) in
      if monitored == 0
      then agent_specific
      else if fl.le c.fleet_wide_threshold fraction
      then fleet_wide
      else if fl.le c.partial_threshold fraction
      then partial_fleet
      else agent_specific

  judge-lem :
      (c : FleetCorrelator fl) (target : List AnomalyType) (s : Scan)
      → ((judge fl c target s).verdict ≡ verdict_on c (length s.affected) s.monitored_count)
        × ((judge fl c target s).affected_agents
            ≡ (if s.monitored_count == 0 then [] else s.affected))
  unfolding judge verdict_of
  judge-lem c target s = ground arith

  -- Where no float is a NaN, a correlation never raises. The agents that it reports are, in order,
  -- the other ones with a baseline whose recent vitals show one of the anomalies, and none where no
  -- other agent has a baseline; the verdict is by the fraction that they are of all the others with a
  -- baseline, at the two thresholds.
  pub correlate_lem :
      (laws : OrderLaws fl) (sensitivity : fl.Float) (telemetry : TelemetryCollector fl) (now : ℕ)
      (baselines : Dict String (BaselineProfile fl)) (c : FleetCorrelator fl)
      (infection : InfectionReport fl) (agents : List String)
      → let target = update_set [] infection.anomalies in
        let i = infection.agent_id in
        let monitored =
          count_if (is_monitored fl sensitivity telemetry now baselines target i) agents in
        let affected = keep (is_affected fl sensitivity telemetry now baselines target i) agents in
        (r : CorrelationResult fl) × (correlate fl sensitivity telemetry now baselines c infection
            agents
          ≡ ok r)
        × (r.affected_agents ≡ (if monitored == 0 then [] else affected))
        × (r.verdict ≡ verdict_on c (length affected) monitored)
  unfolding correlate
  correlate_lem laws sensitivity telemetry now baselines c infection agents =
      let target = update_set [] infection.anomalies in
      let start : Scan = record { monitored_count = 0; affected = []; common = [] } in
      let (s, e, m, a) =
        scan_all-lem fl sensitivity telemetry now baselines target infection.agent_id laws start
          agents in
      let judged = judge-lem c target s in
      (
        judge fl c target s,
        ground (arith, e),
        ground (arith, judged, m, a),
        ground (arith, judged, m, a),
      )
