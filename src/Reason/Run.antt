-- ===== src/Reason/Run.antt =====
-- `_diagnose` and `run` (reason/pipeline.py): the three kinds of departure brought into one report.
pub mod Measure
pub mod Sorted
pub mod Conserve
use Prim.Native.String.{◌++◌ as ◌<>◌}
use steadystate_ai.Prelude.{
  ℕ, Bool, true, false, Option, none, some, List, [], ◌∷◌, ◌++◌, String, str_eq, ltb, any, map,
  if◌then◌else◌,
}
use steadystate_ai.Model.{Resource, Drift, summary, Severity, Symptom, PolicyFinding}
use steadystate_ai.Reason.Alert.{Layer, signal, alert, Alert}
use steadystate_ai.Reason.Report.{Tuning, rank, classify, is_signal, Report}
use steadystate_ai.Reason.Correlate.{Cluster}
use steadystate_ai.Reason.Group.{worse, symptom_alert, workload_name, group_symptom_alerts}
use steadystate_ai.Reason.Pipeline.{
  Domain, Event, evaluate_with, score, signal_of, alerts_from_clusters,
}

module _ {P : Type 0} where
  abbrev pub concerns : String → Alert P → Bool
  concerns identity a = any (λ d. str_eq d.identity identity) a.drifts

  abbrev pub first_summary : List (Drift P) → String
  first_summary [] = ""
  first_summary (d ∷ drifts) = summary d

  -- What `_diagnose` makes of the alert on whose resource a symptom stands.
  unfoldable pub host_symptom : Symptom → Alert P → Alert P
  unfolding workload_name
  host_symptom s host = record host {
    symptoms = host.symptoms ++ (s ∷ []);
    severity = worse host.severity s.severity;
    title = workload_name s.identity <> " is failing -- likely root cause: drift";
    why_it_matters =
        host.why_it_matters
        <> ("  Operational impact: "
            <> (s.detail <> (" -- likely root cause: " <> (first_summary host.drifts <> "."))));
  }

  -- `by_identity.get(...)`: the first alert with a drift of the symptom's resource takes it; `none`
  -- where there is no such alert. An alert keeps its drifts, so the dictionary is that of the start.
  unfoldable pub into_host : Symptom → List (Alert P) → Option (List (Alert P))
  unfolding host_symptom
  into_host s [] = none
  into_host s (a ∷ alerts) =
      let rest = into_host s alerts in
      if concerns s.identity a
      then some (host_symptom s a ∷ alerts)
      else (elim rest [ none ↦ none | some alerts' ↦ some (a ∷ alerts') ])

  -- `_diagnose`, with the alerts of drifts afterwards and the symptoms whose alerts stand alone. The
  -- alert of a symptom holds that symptom and no other.
  unfoldable pub diagnose : List (Alert P) → List Symptom → List (Alert P) × List (Alert P)
  unfolding into_host
  diagnose drift_alerts [] = (drift_alerts, [])
  diagnose drift_alerts (s ∷ symptoms) = elim (into_host s drift_alerts) [
    | some alerts ↦ diagnose alerts symptoms
    | none ↦
        let (alerts, alone) = diagnose drift_alerts symptoms in
        (alerts, symptom_alert s alert none ∷ alone)
  ]

  -- The loop over the drifts: the signals, and the events.
  unfoldable pub sort_drifts :
      List (Domain P) → Tuning → List (Drift P) → List (Alert P) × List (Event P)
  unfolding score signal_of classify
  sort_drifts domains tuning [] = ([], [])
  sort_drifts domains tuning (drift ∷ drifts) =
      let e = score domains drift in
      let (signals, events) = sort_drifts domains tuning drifts in
      if is_signal (classify e.severity tuning)
      then (signal_of e ∷ signals, events)
      else (signals, e ∷ events)

  -- `_alert_from_finding`
  abbrev pub alert_from_finding : PolicyFinding → String → Layer → Alert P
  alert_from_finding f flagged_by layer = record {
    title = f.title;
    severity = f.severity;
    drifts = [];
    why_it_matters = f.detail;
    layer = layer;
    recommended_action = none;
    llm_backed = false;
    flagged_by = some flagged_by;
    references = f.references;
    findings = f ∷ [];
    symptoms = [];
    correlation_fingerprint = none;
    first_seen = none;
    status = none;
    remediable = false;
  }

  -- One round of the standing-policy pass: the signals, and the alerts.
  unfoldable pub sort_findings :
      Tuning → String → List PolicyFinding → List (Alert P) × List (Alert P)
  unfolding classify
  sort_findings tuning name [] = ([], [])
  sort_findings tuning name (f ∷ findings) =
      let (signals, alerts) = sort_findings tuning name findings in
      if is_signal (classify f.severity tuning)
      then (alert_from_finding f name signal ∷ signals, alerts)
      else (signals, alert_from_finding f name alert ∷ alerts)

  unfoldable pub sort_posture :
      Tuning → List (Domain P) → List (Resource P) → List (Alert P) × List (Alert P)
  unfolding sort_findings
  sort_posture tuning [] resources = ([], [])
  sort_posture tuning (domain ∷ domains) resources =
      let (signals, alerts) = sort_findings tuning domain.name (evaluate_with domain resources) in
      let (signals', alerts') = sort_posture tuning domains resources in
      (signals ++ signals', alerts ++ alerts')

  -- The operational pass: the signals, and the symptoms whose alerts are surfaced.
  unfoldable pub sort_symptoms : Tuning → List Symptom → List (Alert P) × List Symptom
  unfolding classify
  sort_symptoms tuning [] = ([], [])
  sort_symptoms tuning (s ∷ symptoms) =
      let (signals, surfaced) = sort_symptoms tuning symptoms in
      if is_signal (classify s.severity tuning)
      then (symptom_alert s signal none ∷ signals, surfaced)
      else (signals, s ∷ surfaced)

  -- `Pipeline.run`; `none` where a cluster names an event that there is not, or none at all.
  unfoldable pub run :
      (String → String)
      → List (Domain P)
      → Tuning
      → (List (Drift P) → List Cluster)
      → List (Drift P)
      → List (Resource P)
      → List Symptom
      → Option (Report P)
  unfolding sort_drifts alerts_from_clusters sort_posture sort_symptoms diagnose
      group_symptom_alerts
  run sha256 domains tuning correlator drifts resources symptoms =
      let (signals, events) = sort_drifts domains tuning drifts in
      let (policy_signals, policy_alerts) = sort_posture tuning domains resources in
      let (symptom_signals, surfaced) = sort_symptoms tuning symptoms in
      elim (alerts_from_clusters events (correlator (map (λ e. e.drift) events))) [
        | none ↦ none
        | some drift_alerts ↦
            let (diagnosed, standalone) = diagnose drift_alerts surfaced in
            some (record {
              items =
                  (signals ++ (policy_signals ++ symptom_signals))
                  ++ (diagnosed ++ (policy_alerts ++ group_symptom_alerts sha256 standalone));
              tuning = tuning;
            })
      ]
