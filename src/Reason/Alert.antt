-- ===== src/Reason/Alert.antt =====
-- reason/alert.py: what a scan surfaces. The instant of creation, the note on live health and the
-- label of the environment are left out.
use Prim.Native.String.{◌++◌ as ◌<>◌}
use steadystate_ai.Prelude.{
  ℕ, ◌-◌, Bool, Option, none, some, List, [], ◌∷◌, String, length, take, map, ltb, if◌then◌else◌,
}
use steadystate_ai.Prelude.Texts.{Text}
use steadystate_ai.Prelude.Strings.{join, decimal}
use steadystate_ai.Model.{Drift, Severity, Symptom, Reference, PolicyFinding}
use steadystate_ai.State.Findings.{Instant, Status}

pub data Layer : Type 0 where
  signal event alert : Layer

pub record Alert (P : Type 0) : Type 0 where
  pub title : String
  pub severity : Severity
  pub drifts : List (Drift P)
  pub why_it_matters : String
  pub layer : Layer
  pub recommended_action : Option Text
  pub llm_backed : Bool
  pub flagged_by : Option String
  pub references : List Reference
  pub findings : List PolicyFinding
  pub symptoms : List Symptom
  pub correlation_fingerprint : Option String
  pub first_seen : Option Instant
  pub status : Option Status
  pub remediable : Bool

abbrev first_nonempty : List String → List String → List String → List String
first_nonempty (s ∷ names) policies symptoms = s ∷ names
first_nonempty [] (s ∷ names) symptoms = s ∷ names
first_nonempty [] [] symptoms = symptoms

module _ {P : Type 0} where
  -- `Alert.remediation_label`; an empty recommendation is none.
  unfoldable pub remediation_label : Alert P → Option String
  remediation_label a =
      if a.remediable
      then some "steadystate can apply this -- approve to reconcile."
      else (elim a.recommended_action [
        | some (c ∷ action) ↦ some "Manual -- outside what steadystate executes."
        | _ ↦ none
      ])

  -- `Alert.resources`
  unfoldable pub resources : Alert P → List String
  resources a =
      first_nonempty (map (λ d. d.identity) a.drifts) (map (λ f. f.identity) a.findings)
        (map (λ s. s.identity) a.symptoms)

  -- `Alert.resource_label`
  unfoldable pub resource_label : Alert P → ℕ → String
  unfolding resources join decimal
  resource_label a limit =
      let names = resources a in
      let shown = join ", " (take limit names) in
      if ltb limit (length names)
      then shown <> (" (+" <> (decimal (length names - limit) <> " more)"))
      else shown
