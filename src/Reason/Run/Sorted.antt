-- ===== src/Reason/Run/Sorted.antt =====
-- The passes of `run` over the drifts, the findings and the symptoms
-- (src/steadystate/reason/pipeline.py).
use steadystate_ai.Prelude.{
  ℕ, ◌+◌, ◌≡◌, refl, ◌∙◌, ap, inl, inr, none, List, [], ◌∷◌, String, arith, Option-cases,
}
use steadystate_ai.Prelude.Sums.{tally, tally-append}
use steadystate_ai.Model.{Resource, Drift, Symptom, PolicyFinding}
use steadystate_ai.Reason.Alert.{Alert}
use steadystate_ai.Reason.Report.{Tuning}
use steadystate_ai.Reason.Pipeline.{
  Domain, Event, evaluate_with, baseline_severity, score_by, score_all, score, signal_of,
}
use steadystate_ai.Reason.Run.{sort_drifts, sort_findings, sort_posture, sort_symptoms}
use steadystate_ai.Reason.Run.Measure.{drift_weight, alerts_from_clusters-some}
use steadystate_ai.Reason.Run.Measure

module _ {P : Type 0} (w : Drift P → ℕ) (v : Symptom → ℕ) (x : PolicyFinding → ℕ) where
  abbrev measure : Alert P → ℕ
  measure = Measure.measure w v x

  abbrev total : List (Alert P) → ℕ
  total = Measure.total w v x

  score_by-drift : (domain : Domain P) (e : Event P) → (score_by domain e).drift ≡ e.drift
  unfolding score_by
  score_by-drift domain e = elim (Option-cases (domain.score e.drift)) [
    | inl q ↦ rw (q, score_by) refl
    | inr (scored, q) ↦ ground (arith, q)
  ]

  score_all-drift :
      (domains : List (Domain P)) (e : Event P) → (score_all domains e).drift ≡ e.drift
  unfolding score_all
  score_all-drift [] e = refl
  score_all-drift (domain ∷ domains) e =
      score_all-drift domains (score_by domain e) ∙ score_by-drift domain e

  pub sort_drifts-total :
      (domains : List (Domain P)) (tuning : Tuning) (drifts : List (Drift P))
      → total (sort_drifts domains tuning drifts).0
          + tally (λ e. w e.drift) (sort_drifts domains tuning drifts).1
        ≡ tally w drifts
  unfolding sort_drifts score signal_of tally
  sort_drifts-total domains tuning [] = refl
  sort_drifts-total domains tuning (d ∷ drifts) = ground (
    arith,
    sort_drifts-total domains tuning drifts,
    ap w (
        score_all-drift domains (record {
          drift = d;
          severity = baseline_severity d;
          flagged_by = none;
          references = [];
        })),
  )

  pub sort_findings-total :
      (tuning : Tuning) (name : String) (findings : List PolicyFinding)
      → total (sort_findings tuning name findings).0 + total (sort_findings tuning name findings).1
        ≡ tally x findings
  unfolding sort_findings tally
  sort_findings-total tuning name [] = refl
  sort_findings-total tuning name (f ∷ findings) =
      ground (arith, sort_findings-total tuning name findings)

  pub sort_posture-total :
      (tuning : Tuning) (domains : List (Domain P)) (resources : List (Resource P))
      → total (sort_posture tuning domains resources).0
          + total (sort_posture tuning domains resources).1
        ≡ tally (λ domain. tally x (evaluate_with domain resources)) domains
  unfolding sort_posture tally
  sort_posture-total tuning [] resources = refl
  sort_posture-total tuning (domain ∷ domains) resources =
      let these = sort_findings tuning domain.name (evaluate_with domain resources) in
      let others = sort_posture tuning domains resources in
      ground (
        arith,
        sort_posture-total tuning domains resources,
        sort_findings-total tuning domain.name (evaluate_with domain resources),
        tally-append measure these.0 others.0,
        tally-append measure these.1 others.1,
      )

  pub sort_symptoms-total :
      (tuning : Tuning) (symptoms : List Symptom)
      → total (sort_symptoms {P = P} tuning symptoms).0
          + tally v (sort_symptoms {P = P} tuning symptoms).1
        ≡ tally v symptoms
  unfolding sort_symptoms tally
  sort_symptoms-total tuning [] = refl
  sort_symptoms-total tuning (s ∷ symptoms) = ground (arith, sort_symptoms-total tuning symptoms)
