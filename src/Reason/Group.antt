-- ===== src/Reason/Group.antt =====
-- `group_symptom_alerts` (reason/pipeline.py): the same workload that fails the same way in several
-- places is one alert.
use Prim.Native.String.{◌++◌ as ◌<>◌}
use steadystate_ai.Prelude.{
  ◌-◌, Bool, true, false, not, ◌&&◌, Option, none, some, List, [], ◌∷◌, ◌++◌, String, str_eq, ltb,
  is_empty, length, map, take, if◌then◌else◌,
}
use steadystate_ai.Prelude.Texts.{Text}
use steadystate_ai.Prelude.Strings.{rpartition, after_last, join, distinct, decimal}
use steadystate_ai.Prelude.Sorting.{text_leb, sort}
use steadystate_ai.Model.{Severity, Symptom}
use steadystate_ai.Reason.Alert.{Layer, alert, Alert}
use steadystate_ai.Reason.Report.{rank, is_alert}

-- `_workload_name`: 47 is the slash, 46 the dot.
unfoldable pub workload_name : String → String
unfolding after_last
workload_name identity = after_last 46 (after_last 47 identity)

-- `_place`
unfoldable pub place : String → String
unfolding rpartition
place identity = elim (rpartition 47 identity) [ none ↦ identity | some (head, name) ↦ head ]

-- What a group shares: the kind, the name of the workload and the category.
pub record GroupKey : Type 0 where
  pub kind : String
  pub name : String
  pub category : String

abbrev pub key_of : Symptom → GroupKey
key_of s = record { kind = s.kind; name = workload_name s.identity; category = s.category }

abbrev pub key_eq : GroupKey → GroupKey → Bool
key_eq k j = str_eq k.kind j.kind && str_eq k.name j.name && str_eq k.category j.category

abbrev pub SymptomGroups : Type 0
SymptomGroups = List (GroupKey × List Symptom)

-- `groups[key].append(symptom)`, for a group that is made where it is missing; the keys are in the
-- order in which they were first seen.
unfoldable pub add_symptom : Symptom → SymptomGroups → SymptomGroups
add_symptom s [] = (key_of s, s ∷ []) ∷ []
add_symptom s ((key, symptoms) ∷ groups) =
    let rest = add_symptom s groups in
    if key_eq key (key_of s) then (key, symptoms ++ (s ∷ [])) ∷ groups else (key, symptoms) ∷ rest

unfoldable pub add_symptoms : List Symptom → SymptomGroups → SymptomGroups
unfolding add_symptom
add_symptoms [] groups = groups
add_symptoms (s ∷ symptoms) groups = add_symptoms symptoms (add_symptom s groups)

-- `max(..., key=rank)`: the first of the greatest.
abbrev pub worse : Severity → Severity → Severity
worse a b = if ltb (rank a) (rank b) then b else a

unfoldable pub worst : Severity → List Severity → Severity
worst a [] = a
worst a (b ∷ severities) = worst (worse a b) severities

-- The first recommendation that is not empty.
abbrev pub first_action : List Symptom → Option Text
first_action [] = none
first_action (s ∷ symptoms) = elim s.recommended_action [
  | some (c ∷ action) ↦ some (c ∷ action)
  | _ ↦ first_action symptoms
]

-- `_correlation_fingerprint`
unfoldable pub correlation_fingerprint : (String → String) → GroupKey → String
unfolding join
correlation_fingerprint sha256 key =
    sha256 ("correlated|" <> join "|" (key.kind ∷ key.name ∷ key.category ∷ []))

abbrev pub shown_places : List String → String
unfolding join decimal
shown_places places =
    if ltb 8 (length places)
    then join ", " (take 8 places) <> (" (+" <> (decimal (length places - 8) <> " more)"))
    else join ", " (take 8 places)

module _ {P : Type 0} where
  abbrev pub symptom_alert : Symptom → Layer → Option Text → Alert P
  symptom_alert s layer action = record {
    title = s.title;
    severity = s.severity;
    drifts = [];
    why_it_matters = s.detail;
    layer = layer;
    recommended_action = action;
    llm_backed = false;
    flagged_by = some s.provenance.source;
    references = [];
    findings = [];
    symptoms = s ∷ [];
    correlation_fingerprint = none;
    first_seen = none;
    status = none;
    remediable = false;
  }

  -- The alert of a group of several.
  unfoldable pub group_alert : (String → String) → GroupKey → Symptom → List Symptom → Alert P
  unfolding worst correlation_fingerprint place sort distinct
  group_alert sha256 key s rest =
      let places = sort text_leb (distinct (map (λ t. place t.identity) (s ∷ rest))) in
      record {
        title =
            key.name
            <> (" is " <> (key.category <> (" in " <> (decimal (length places) <> " place(s)"))));
        severity = worst s.severity (map (λ t. t.severity) rest);
        drifts = [];
        why_it_matters =
            decimal (length (s ∷ rest))
            <> (" instances of "
                <> (key.kind
                    <> (" "
                        <> (key.name
                            <> (" are "
                                <> (key.category
                                    <> (" across: "
                                        <> (shown_places places
                                            <> (". Likely one root cause (e.g. a shared image/config) -- grouped "
                                                <> ("mechanically by name + symptom, so handle it once."))))))))));
        layer = alert;
        recommended_action = first_action (s ∷ rest);
        llm_backed = false;
        flagged_by = some s.provenance.source;
        references = [];
        findings = [];
        symptoms = s ∷ rest;
        correlation_fingerprint = some (correlation_fingerprint sha256 key);
        first_seen = none;
        status = none;
        remediable = false;
      }

  -- `_merge_symptoms`; a group that is empty would raise, and `group_symptom_alerts` makes none.
  unfoldable pub merge_symptoms : (String → String) → GroupKey → List Symptom → List (Alert P)
  unfolding group_alert
  merge_symptoms sha256 key [] = []
  merge_symptoms sha256 key (only ∷ []) = symptom_alert only alert only.recommended_action ∷ []
  merge_symptoms sha256 key (s ∷ t ∷ symptoms) = group_alert sha256 key s (t ∷ symptoms) ∷ []

  unfoldable pub merge_all : (String → String) → SymptomGroups → List (Alert P)
  unfolding merge_symptoms
  merge_all sha256 [] = []
  merge_all sha256 ((key, symptoms) ∷ groups) =
      merge_symptoms sha256 key symptoms ++ merge_all sha256 groups

  -- An alert on symptoms alone.
  abbrev pub is_standalone : Alert P → Bool
  is_standalone a =
      is_alert a.layer && not (is_empty a.symptoms) && is_empty a.drifts && is_empty a.findings

  -- The loop: the alerts that pass through, and the groups.
  unfoldable pub gather : List (Alert P) → SymptomGroups → List (Alert P) × SymptomGroups
  unfolding add_symptoms
  gather [] groups = ([], groups)
  gather (a ∷ alerts) groups = elim (is_standalone a) [
    | true ↦ gather alerts (add_symptoms a.symptoms groups)
    | false ↦ let (passed, groups') = gather alerts groups in (a ∷ passed, groups')
  ]

  -- `group_symptom_alerts`
  unfoldable pub group_symptom_alerts : (String → String) → List (Alert P) → List (Alert P)
  unfolding gather merge_all
  group_symptom_alerts sha256 alerts =
      let (passed, groups) = gather alerts [] in passed ++ merge_all sha256 groups
