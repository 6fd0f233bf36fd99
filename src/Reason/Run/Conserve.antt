-- ===== src/Reason/Run/Conserve.antt =====
-- What `run` does with the drifts, the findings and the symptoms of a scan
-- (src/steadystate/reason/pipeline.py).
use steadystate_ai.Prelude.{
  ℕ, suc, ◌+◌, ◌≡◌, refl, ◌∙◌, ap, inl, inr, true, some, List, [], ◌∷◌, ◌++◌, String, arith, ltb,
  length, map, is_empty, Bool-cases, Option-cases, if◌then◌else◌,
}
use steadystate_ai.Prelude.Sums.{tally, tally-append}
use steadystate_ai.Model.{Resource, Drift, Symptom, PolicyFinding}
use steadystate_ai.Reason.Alert.{Alert}
use steadystate_ai.Reason.Report.{Tuning, Report}
use steadystate_ai.Reason.Correlate.{Cluster}
use steadystate_ai.Reason.Correlate.Cover.{Covers, indexes_of}
use steadystate_ai.Reason.Correlate.Weights.{tally-covered}
use steadystate_ai.Reason.Group.{
  SymptomGroups, add_symptom, add_symptoms, group_alert, merge_symptoms, merge_all, is_standalone,
  gather, group_symptom_alerts,
}
use steadystate_ai.Reason.Pipeline.{Domain, Event, evaluate_with, alerts_from_clusters}
use steadystate_ai.Reason.Run.{
  concerns, host_symptom, into_host, diagnose, sort_drifts, sort_posture, sort_symptoms, run,
}
use steadystate_ai.Reason.Run.Measure.{drift_weight, alerts_from_clusters-some}
use steadystate_ai.Reason.Run.Measure
use steadystate_ai.Reason.Run.Sorted.{sort_drifts-total, sort_posture-total, sort_symptoms-total}

tally-is_empty : {A : Type 0} (w : A → ℕ) (xs : List A) → is_empty xs ≡ true → tally w xs ≡ 0
unfolding tally
tally-is_empty w [] h = refl
tally-is_empty w (y ∷ xs) h = absurd (cc)

length-map : {A B : Type 0} (f : A → B) (xs : List A) → length (map f xs) ≡ length xs
length-map f [] = refl
length-map f (y ∷ xs) = ap suc (length-map f xs)

module _ {P : Type 0} (w : Drift P → ℕ) (v : Symptom → ℕ) (x : PolicyFinding → ℕ) where
  abbrev measure : Alert P → ℕ
  measure = Measure.measure w v x

  abbrev total : List (Alert P) → ℕ
  total = Measure.total w v x

  measure-host_symptom : (s : Symptom) (a : Alert P) → measure (host_symptom s a) ≡ measure a + v s
  unfolding host_symptom tally
  measure-host_symptom s a = omega (arith, tally-append v a.symptoms (s ∷ []))

  into_host-total :
      (s : Symptom) (alerts hosted : List (Alert P))
      → into_host s alerts ≡ some hosted
      → total hosted ≡ total alerts + v s
  unfolding into_host tally
  into_host-total s [] hosted h = absurd (cc)
  into_host-total s (a ∷ alerts) hosted h = elim (Bool-cases (concerns s.identity a)) [
    | inl e ↦ ground (arith, h, e, measure-host_symptom s a)
    | inr e ↦ elim (Option-cases (into_host s alerts)) [
      | inl q ↦ absurd (ground (arith, h, e, q))
      | inr (rest, q) ↦ ground (arith, h, e, q, into_host-total s alerts rest q)
    ]
  ]

  diagnose-total :
      (alerts : List (Alert P)) (symptoms : List Symptom)
      → total (diagnose alerts symptoms).0 + total (diagnose alerts symptoms).1
        ≡ total alerts + tally v symptoms
  unfolding diagnose tally
  diagnose-total alerts [] = omega arith
  diagnose-total alerts (s ∷ symptoms) = elim (Option-cases (into_host s alerts)) [
    | inl e ↦ rw (e, diagnose) (ground (arith, diagnose-total alerts symptoms))
    | inr (hosted, e) ↦
        rw (e, diagnose)
          (omega (arith, diagnose-total hosted symptoms, into_host-total s alerts hosted e))
  ]

  abbrev group_weight : SymptomGroups → ℕ
  group_weight groups = tally (λ g. tally v g.1) groups

  add_symptom-weight :
      (s : Symptom) (groups : SymptomGroups)
      → group_weight (add_symptom s groups) ≡ group_weight groups + v s
  unfolding add_symptom tally
  add_symptom-weight s [] = omega arith
  add_symptom-weight s ((key, symptoms) ∷ groups) =
      ground (arith, add_symptom-weight s groups, tally-append v symptoms (s ∷ []))

  add_symptoms-weight :
      (symptoms : List Symptom) (groups : SymptomGroups)
      → group_weight (add_symptoms symptoms groups) ≡ group_weight groups + tally v symptoms
  unfolding add_symptoms tally
  add_symptoms-weight [] groups = omega arith
  add_symptoms-weight (s ∷ symptoms) groups =
      omega
        (arith, add_symptoms-weight symptoms (add_symptom s groups), add_symptom-weight s groups)

  module _ (sha256 : String → String) where
    merge_all-total :
        (groups : SymptomGroups) → total (merge_all sha256 groups) ≡ group_weight groups
    unfolding merge_all merge_symptoms group_alert tally
    merge_all-total [] = refl
    merge_all-total ((key, []) ∷ groups) = omega (arith, merge_all-total groups)
    merge_all-total ((key, s ∷ []) ∷ groups) = omega (arith, merge_all-total groups)
    merge_all-total ((key, s ∷ t ∷ symptoms) ∷ groups) = omega (arith, merge_all-total groups)

    measure-standalone : (a : Alert P) → is_standalone a ≡ true → measure a ≡ tally v a.symptoms
    measure-standalone a h =
        ground (arith, h, tally-is_empty w a.drifts, tally-is_empty x a.findings)

    gather-total :
        (alerts : List (Alert P)) (groups : SymptomGroups)
        → total (gather alerts groups).0 + group_weight (gather alerts groups).1
          ≡ total alerts + group_weight groups
    unfolding gather tally
    gather-total [] groups = refl
    gather-total (a ∷ alerts) groups = elim (Bool-cases (is_standalone a)) [
      | inl e ↦
          rw (e, gather)
            (omega (
              arith,
              gather-total alerts (add_symptoms a.symptoms groups),
              add_symptoms-weight a.symptoms groups,
              measure-standalone a e,
            ))
      | inr e ↦ rw (e, gather) (omega (arith, gather-total alerts groups))
    ]

    group_symptom_alerts-total :
        (alerts : List (Alert P)) → total (group_symptom_alerts sha256 alerts) ≡ total alerts
    unfolding group_symptom_alerts tally
    group_symptom_alerts-total alerts = omega (
      arith,
      gather-total alerts [],
      merge_all-total (gather alerts []).1,
      tally-append measure (gather alerts []).0 (merge_all sha256 (gather alerts []).1),
    )

  abbrev event_drifts : List (Event P) → List (Drift P)
  event_drifts events = map (λ e. e.drift) events

  -- The clusters of the events give their alerts, which weigh what the events do.
  cluster_alerts-some :
      (correlator : List (Drift P) → List Cluster)
      → ((ds : List (Drift P)) → Covers (length ds) (correlator ds))
      → (events : List (Event P))
      → (found : List (Alert P)) × (alerts_from_clusters events (correlator (event_drifts events))
          ≡ some found)
        × (total found ≡ tally (λ e. w e.drift) events)
  unfolding Covers
  cluster_alerts-some correlator covers events =
      let clusters = correlator (event_drifts events) in
      let cover = covers (event_drifts events) in
      let size = length-map (λ (e : Event P). e.drift) events in
      let once = λ (i : ℕ). cover.0 i ∙ ap (λ n. if ltb i n then 1 else 0) size in
      let (found, e, t) =
        alerts_from_clusters-some w v x events clusters (λ j b. once j ∙ ground (arith, b))
          cover.1 in
      (found, e, t ∙ tally-covered (drift_weight w v x) events (indexes_of clusters) once)

  -- With a correlator that puts every event into exactly one cluster, a run gives a report, and the
  -- report is about every drift, every violated rule and every symptom as often as the scan found
  -- it: under any weights, the report weighs what the scan found.
  pub run-total :
      (sha256 : String → String) (domains : List (Domain P)) (tuning : Tuning)
      (correlator : List (Drift P) → List Cluster)
      → ((ds : List (Drift P)) → Covers (length ds) (correlator ds))
      → (drifts : List (Drift P)) (resources : List (Resource P)) (symptoms : List Symptom)
      → (report : Report P) × (run sha256 domains tuning correlator drifts resources symptoms
          ≡ some report)
        × (total report.items
            ≡ tally w drifts
              + (tally (λ domain. tally x (evaluate_with domain resources)) domains
                  + tally v symptoms))
  unfolding run
  run-total sha256 domains tuning correlator covers drifts resources symptoms =
      let sorted = sort_drifts domains tuning drifts in
      let posture = sort_posture tuning domains resources in
      let operational = sort_symptoms {P = P} tuning symptoms in
      let (found, e, t) = cluster_alerts-some correlator covers sorted.1 in
      let diagnosed = diagnose found operational.1 in
      let standalone = group_symptom_alerts sha256 diagnosed.1 in
      (
        record {
          items =
              (sorted.0 ++ (posture.0 ++ operational.0))
              ++ (diagnosed.0 ++ (posture.1 ++ standalone));
          tuning = tuning;
        },
        rw (e, run) refl,
        omega (
          arith,
          t,
          sort_drifts-total w v x domains tuning drifts,
          sort_posture-total w v x tuning domains resources,
          sort_symptoms-total w v x tuning symptoms,
          diagnose-total found operational.1,
          group_symptom_alerts-total sha256 diagnosed.1,
          tally-append measure (sorted.0 ++ (posture.0 ++ operational.0))
              (diagnosed.0 ++ (posture.1 ++ standalone)),
          tally-append measure sorted.0 (posture.0 ++ operational.0),
          tally-append measure posture.0 operational.0,
          tally-append measure diagnosed.0 (posture.1 ++ standalone),
          tally-append measure posture.1 standalone,
        ),
      )
