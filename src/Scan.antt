-- ===== src/Scan.antt =====
-- reconcile_state.py: a report brought together with the findings table. The file of committed mutes
-- and its path, and the grace window that `resolve_grace` reads, are arguments.
pub mod Window
pub mod Surfaced
use Prim.Native.String.{◌++◌ as ◌<>◌}
use steadystate_ai.Prelude.{
  ℕ, Bool, true, false, not, ◌&&◌, ◌||◌, Option, none, some, List, [], ◌∷◌, ◌++◌, String, str_eq,
  leb, any, all, keep, length, map, is_empty, or_else, if◌then◌else◌,
}
use steadystate_ai.Prelude.Strings.{decimal}
use steadystate_ai.Prelude.Dicts.{item_key, put, lookup}
use steadystate_ai.Model.{
  Drift, change_text, summary, drift_fingerprint, Severity, severity_text, Symptom,
  symptom_fingerprint, PolicyFinding, policy_fingerprint,
}
use steadystate_ai.State.Findings.{
  Instant, Status, opened, muted, snoozed, Findings, Details, Sighting, get, is_suppressed,
  record_seen, resolve_absent,
}
use steadystate_ai.Mutes.{Document, apply_committed_mutes}
use steadystate_ai.Reason.Alert.{Alert}
use steadystate_ai.Reason.Report.{Report, alerts, signals}
use steadystate_ai.Reason.Group.{workload_name}

abbrev pub Evidence : Type 0
Evidence = List (String × Details)

-- A status that is muted or snoozed; those win over plain open.
abbrev has_muted : List Sighting → Bool
has_muted [] = false
has_muted (m ∷ members) = elim m.status [ muted ↦ true | _ ↦ has_muted members ]

abbrev has_snoozed : List Sighting → Bool
has_snoozed [] = false
has_snoozed (m ∷ members) = elim m.status [ snoozed ↦ true | _ ↦ has_snoozed members ]

-- `_summary_status`
unfoldable pub summary_status : List Sighting → Status
summary_status members =
    if has_muted members then muted else if has_snoozed members then snoozed else opened

abbrev earliest : Instant → List Sighting → Instant
earliest t [] = t
earliest t (m ∷ members) = earliest (if leb t m.first_seen then t else m.first_seen) members

-- `[state[fp] for fp in fingerprints if fp in state]`
unfoldable pub members_of : List (String × Sighting) → List String → List Sighting
unfolding lookup
members_of state [] = []
members_of state (fp ∷ fps) = elim (lookup fp state) [
  | none ↦ members_of state fps
  | some sighting ↦ sighting ∷ members_of state fps
]

abbrev pub is_set : Option String → Bool
is_set none = false
is_set (some s) = not (str_eq s "")

-- What the store is to remember of a fingerprint: the severity and the title.
pub record Shown : Type 0 where
  pub severity : String
  pub title : String

abbrev pub SeenFindings : Type 0
SeenFindings = List (String × Shown)

abbrev pub seen_triple : String × Shown → String × String × String
seen_triple item = (item.0, item.1.severity, item.1.title)

abbrev pub scope_of : Symptom → List Symptom → Details
scope_of first symptoms =
    ("correlated", decimal (length symptoms) <> " place(s)")
    ∷ ("workload", workload_name first.identity)
    ∷ ("kind", first.kind)
    ∷ ("category", first.category)
    ∷ []

abbrev pub group_evidence : Option String → List Symptom → Evidence → Evidence
group_evidence correlation [] out = out
group_evidence correlation (first ∷ symptoms) out =
    if is_set correlation
    then put (or_else correlation "") (scope_of first (first ∷ symptoms)) out
    else out

-- A fingerprint that is resolved, with the title to show for it.
abbrev pub titled : Findings → String → String × String
titled rows fp = elim (get rows fp) [ none ↦ (fp, fp) | some f ↦ (fp, f.last_title) ]

module _ {P : Type 0} where
  -- `_annotate`, of the members that the store knows
  abbrev pub annotate_with : List Sighting → Alert P → Alert P
  annotate_with [] a = a
  annotate_with (m ∷ members) a = record a {
    first_seen = some (earliest m.first_seen members);
    status = some (summary_status (m ∷ members));
  }

module _ (sha256 : String → String) where
  unfoldable pub see_findings : Severity → List PolicyFinding → SeenFindings → SeenFindings
  unfolding put
  see_findings severity [] seen = seen
  see_findings severity (f ∷ findings) seen = see_findings severity findings (
      put (policy_fingerprint sha256 f)
        (record { severity = severity_text severity; title = f.title }) seen)

  unfoldable pub see_symptoms : Severity → List Symptom → SeenFindings → SeenFindings
  unfolding put
  see_symptoms severity [] seen = seen
  see_symptoms severity (s ∷ symptoms) seen = see_symptoms severity symptoms (
      put (symptom_fingerprint sha256 s)
        (record { severity = severity_text severity; title = s.title }) seen)

  unfoldable pub symptom_evidence : List Symptom → Evidence → Evidence
  unfolding put
  symptom_evidence [] out = out
  symptom_evidence (s ∷ symptoms) out =
      symptom_evidence symptoms
        (if is_empty s.evidence then out else put (symptom_fingerprint sha256 s) s.evidence out)

module _ (sha256 : String → String) {P : Type 0} where
  -- `_fingerprints`
  unfoldable pub fingerprints : Alert P → List String
  fingerprints a =
      map (drift_fingerprint sha256) a.drifts
      ++ (map (policy_fingerprint sha256) a.findings ++ map (symptom_fingerprint sha256) a.symptoms)

  -- `alert_suppressed`
  unfoldable pub alert_suppressed : Findings → Instant → Alert P → Bool
  unfolding is_suppressed fingerprints
  alert_suppressed rows now a =
      let fps = fingerprints a in
      (is_set a.correlation_fingerprint
        && is_suppressed rows (or_else a.correlation_fingerprint "") now)
      || (not (is_empty fps) && all (λ fp. is_suppressed rows fp now) fps)

  unfoldable pub see_drifts : Severity → List (Drift P) → SeenFindings → SeenFindings
  unfolding put
  see_drifts severity [] seen = seen
  see_drifts severity (d ∷ drifts) seen = see_drifts severity drifts (
      put (drift_fingerprint sha256 d)
        (record { severity = severity_text severity; title = summary d }) seen)

  -- One round of the loop of `seen_findings`.
  unfoldable pub see_item : Alert P → SeenFindings → SeenFindings
  unfolding see_drifts see_findings see_symptoms put
  see_item a seen =
      let members =
        see_symptoms sha256 a.severity a.symptoms
          (see_findings sha256 a.severity a.findings (see_drifts a.severity a.drifts seen)) in
      if is_set a.correlation_fingerprint
      then put (or_else a.correlation_fingerprint "")
          (record { severity = severity_text a.severity; title = a.title }) members
      else members

  unfoldable pub see_items : List (Alert P) → SeenFindings → SeenFindings
  unfolding see_item
  see_items [] seen = seen
  see_items (a ∷ items) seen = see_items items (see_item a seen)

  -- `seen_findings`
  unfoldable pub seen_findings : Report P → SeenFindings
  unfolding see_items
  seen_findings report = see_items report.items []

  unfoldable pub drift_evidence : List (Drift P) → Evidence → Evidence
  unfolding put
  drift_evidence [] out = out
  drift_evidence (d ∷ drifts) out = drift_evidence drifts (
      put (drift_fingerprint sha256 d)
        (("change", change_text d.change_type) ∷ ("kind", d.kind) ∷ []) out)

  unfoldable pub evidence_from : List (Alert P) → Evidence → Evidence
  unfolding drift_evidence symptom_evidence
  evidence_from [] out = out
  evidence_from (a ∷ items) out = evidence_from items (
      group_evidence a.correlation_fingerprint a.symptoms
        (symptom_evidence sha256 a.symptoms (drift_evidence a.drifts out)))

  -- `finding_evidence`
  unfoldable pub finding_evidence : Report P → Evidence
  unfolding evidence_from
  finding_evidence report = evidence_from report.items []

  -- `_annotate`
  unfoldable pub annotate : List (String × Sighting) → Alert P → Alert P
  unfolding members_of fingerprints
  annotate state a = annotate_with (members_of state (fingerprints a)) a

  -- `reconcile`: the report and the table afterwards, and the findings that are resolved.
  unfoldable pub reconcile :
      String
      → Document
      → Instant
      → Instant
      → Report P
      → Findings
      → Report P × Findings × List (String × String)
  unfolding seen_findings finding_evidence record_seen alert_suppressed annotate resolve_absent
      apply_committed_mutes
  reconcile path file grace now report rows =
      let seen = seen_findings report in
      let evidence = finding_evidence report in
      let (recorded, state) =
        record_seen now (λ fp. or_else (lookup fp evidence) []) (map seen_triple seen)
          (apply_committed_mutes path file now rows).0 in
      let surviving =
        map (annotate state) (keep (λ a. not (alert_suppressed recorded now a)) (alerts report)) in
      let (resolved, absent) = resolve_absent (map item_key seen) now grace recorded in
      (
        record report { items = signals report ++ surviving },
        resolved,
        map (titled resolved) absent,
      )
