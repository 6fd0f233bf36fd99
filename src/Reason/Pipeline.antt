-- ===== src/Reason/Pipeline.antt =====
-- reason/pipeline.py: the report of a scan, from its drifts, the declared resources and the symptoms.
-- The domain packs and the correlator are parameters of `run`.
use Prim.Native.String.{◌++◌ as ◌<>◌}
use steadystate_ai.Prelude.{
  ℕ, false, not, ◌&&◌, Option, none, some, List, [], ◌∷◌, ◌++◌, String, str_eq, ltb, map, is_empty,
  if◌then◌else◌,
}
use steadystate_ai.Prelude.Texts.{Text, codes}
use steadystate_ai.Model.{
  added, removed, modified, Resource, Drift, summary, Severity, low, medium, high, Reference,
  PolicyFinding,
}
use steadystate_ai.Act.Plan.{assess, plan_reason, plan_blast_radius}
use steadystate_ai.Reason.Alert.{signal, alert, Alert}
use steadystate_ai.Reason.Report.{rank}
use steadystate_ai.Reason.Correlate.{Cluster, get_elem?}
use steadystate_ai.Reason.Group.{worst}

-- A domain pack (domains/base.py); the last two are optional.
pub record Domain (P : Type 0) : Type 0 where
  pub name : String
  pub score : Drift P → Option Severity
  pub references : Option (Drift P → List Reference)
  pub evaluate : Option (List (Resource P) → List PolicyFinding)

-- An event that awaits correlation.
pub record Event (P : Type 0) : Type 0 where
  pub drift : Drift P
  pub severity : Severity
  pub flagged_by : Option String
  pub references : List Reference

abbrev unwords : List Text → Text
unwords [] = []
unwords (w ∷ []) = w
unwords (w ∷ v ∷ words) = w ++ (32 ∷ unwords (v ∷ words))

-- `[items[i] for i in indexes]`; `none` is an `IndexError`.
unfoldable pub pick_all {ℓ} : {A : Type ℓ} → List A → List ℕ → Option (List A)
pick_all items [] = some []
pick_all items (i ∷ indexes) = elim (get_elem? items i) [
  | none ↦ none
  | some item ↦ (elim (pick_all items indexes) [ none ↦ none | some picked ↦ some (item ∷ picked) ])
]

module _ {P : Type 0} where
  -- `references_for`
  abbrev pub references_for : Domain P → Drift P → List Reference
  references_for domain drift = elim domain.references [ none ↦ [] | some getter ↦ getter drift ]

  -- `evaluate_with`
  abbrev pub evaluate_with : Domain P → List (Resource P) → List PolicyFinding
  evaluate_with domain resources = elim domain.evaluate [
    | none ↦ []
    | some getter ↦ getter resources
  ]

  -- `baseline_severity`
  unfoldable pub baseline_severity : Drift P → Severity
  baseline_severity drift =
      if not drift.actionable
      then low
      else (elim drift.change_type [ removed ↦ high | modified ↦ medium | added ↦ low ])

  -- One round of the loop of `_score`.
  unfoldable pub score_by : Domain P → Event P → Event P
  score_by domain e = elim (domain.score e.drift) [
    | none ↦ e
    | some scored ↦
        if ltb (rank e.severity) (rank scored)
        then record {
          drift = e.drift;
          severity = scored;
          flagged_by = some domain.name;
          references = references_for domain e.drift;
        }
        else e
  ]

  unfoldable pub score_all : List (Domain P) → Event P → Event P
  unfolding score_by
  score_all [] e = e
  score_all (domain ∷ domains) e = score_all domains (score_by domain e)

  -- `_score`
  unfoldable pub score : List (Domain P) → Drift P → Event P
  unfolding baseline_severity score_all
  score domains drift = score_all domains (record {
    drift = drift;
    severity = baseline_severity drift;
    flagged_by = none;
    references = [];
  })

  -- `_signal`
  unfoldable pub signal_of : Event P → Alert P
  signal_of e = record {
    title = summary e.drift;
    severity = e.severity;
    drifts = e.drift ∷ [];
    why_it_matters = summary e.drift <> ": declared and observed state diverge.";
    layer = signal;
    recommended_action = none;
    llm_backed = false;
    flagged_by = e.flagged_by;
    references = e.references;
    findings = [];
    symptoms = [];
    correlation_fingerprint = none;
    first_seen = none;
    status = none;
    remediable = false;
  }

  -- `_action_from_plan`, of the plan of a drift
  unfoldable pub action_from_plan : Drift P → Text
  unfolding assess
  action_from_plan drift =
      let plan = assess drift in
      if plan.eligible
      then codes "Reconcile to declared state: "
        ++ (unwords plan.command ++ (codes " (" ++ (codes (plan_blast_radius drift) ++ codes ")")))
      else codes "Manual review required: " ++ codes (plan_reason drift)

  -- The recommendation of a cluster of one is the plan of its drift, where the cluster has none.
  abbrev pub action_of : Option Text → List (Drift P) → Option Text
  action_of none (only ∷ []) =
      if str_eq only.provenance.source "terraform" && only.actionable
      then some (action_from_plan only)
      else none
  action_of action drifts = action

  abbrev pub first_flag : List (Event P) → Option String
  first_flag [] = none
  first_flag (e ∷ events) = elim e.flagged_by [ none ↦ first_flag events | some flag ↦ some flag ]

  abbrev pub first_references : List (Event P) → List Reference
  first_references [] = []
  first_references (e ∷ events) =
      let rest = first_references events in if is_empty e.references then rest else e.references

  -- The alert of a cluster of the given events.
  unfoldable pub alert_of : Cluster → Event P → List (Event P) → Alert P
  unfolding worst
  alert_of cluster e events = record {
    title = cluster.title;
    severity = worst e.severity (map (λ m. m.severity) events);
    drifts = map (λ m. m.drift) (e ∷ events);
    why_it_matters = cluster.why_it_matters;
    layer = alert;
    recommended_action = action_of cluster.recommended_action (map (λ m. m.drift) (e ∷ events));
    llm_backed = cluster.llm_backed;
    flagged_by = first_flag (e ∷ events);
    references = first_references (e ∷ events);
    findings = [];
    symptoms = [];
    correlation_fingerprint = none;
    first_seen = none;
    status = none;
    remediable = false;
  }

  -- `_alert_from_cluster`; `none` where an index is out of range, or `max` has nothing to choose from.
  unfoldable pub alert_from_cluster : List (Event P) → Cluster → Option (Alert P)
  unfolding pick_all alert_of
  alert_from_cluster events cluster = elim (pick_all events cluster.drift_indexes) [
    | none ↦ none
    | some [] ↦ none
    | some (e ∷ members) ↦ some (alert_of cluster e members)
  ]

  unfoldable pub alerts_from_clusters : List (Event P) → List Cluster → Option (List (Alert P))
  unfolding alert_from_cluster
  alerts_from_clusters events [] = some []
  alerts_from_clusters events (cluster ∷ clusters) = elim (alert_from_cluster events cluster) [
    | none ↦ none
    | some first ↦ (elim (alerts_from_clusters events clusters) [
      | none ↦ none
      | some rest ↦ some (first ∷ rest)
    ])
  ]
