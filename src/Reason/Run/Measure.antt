-- ===== src/Reason/Run/Measure.antt =====
-- A weight for alerts, and the alerts of clusters (src/steadystate/reason/pipeline.py).
use steadystate_ai.Prelude.{
  ℕ, zero, suc, ◌+◌, ◌≡◌, refl, ◌∙◌, sym, inl, inr, true, false, none, some, List, [], ◌∷◌, arith,
  ltb, length, is_empty, All, Option-cases,
}
use steadystate_ai.Prelude.Sums.{tally, tally-append, tally-map}
use steadystate_ai.Model.{Drift, Symptom, PolicyFinding}
use steadystate_ai.Reason.Alert.{Alert}
use steadystate_ai.Reason.Correlate.{Cluster, get_elem?}
use steadystate_ai.Reason.Correlate.Cover.{count, count-append, indexes_of}
use steadystate_ai.Reason.Correlate.Weights.{weight_at}
use steadystate_ai.Reason.Pipeline.{
  Event, pick_all, alert_of, alert_from_cluster, alerts_from_clusters,
}

get_elem?-none :
    {A : Type 0} (xs : List A) (i : ℕ) → get_elem? xs i ≡ none → ltb i (length xs) ≡ false
get_elem?-none [] i h = ground arith
get_elem?-none (x ∷ xs) zero h = absurd (cc)
get_elem?-none (x ∷ xs) (suc i) h = ground (arith, get_elem?-none xs i h)

zero_length : {A : Type 0} (xs : List A) → length xs ≡ 0 → is_empty xs ≡ true
zero_length [] h = refl
zero_length (x ∷ xs) h = absurd (omega (arith, h))

-- The indexes that are out of range do not occur.
abbrev pub InRange : ℕ → List ℕ → Type 0
InRange n js = (j : ℕ) → ltb j n ≡ false → count j js ≡ 0

InRange-tail : (n j : ℕ) (js : List ℕ) → InRange n (j ∷ js) → InRange n js
InRange-tail n j js h i b = ground (arith, h i b)

pick_all-some :
    {A : Type 0} (f : A → ℕ) (es : List A) (js : List ℕ)
    → InRange (length es) js
    → (ms : List A) × (pick_all es js ≡ some ms)
      × (tally f ms ≡ tally (weight_at f es) js)
      × (length ms ≡ length js)
unfolding pick_all tally
pick_all-some f es [] h = ([], refl, refl, refl)
pick_all-some f es (j ∷ js) h = elim (Option-cases (get_elem? es j)) [
  | inl e ↦ absurd (ground (arith, h j (get_elem?-none es j e)))
  | inr (x, e) ↦
      let (ms, p, t, l) = pick_all-some f es js (InRange-tail (length es) j js h) in
      (x ∷ ms, rw (e, pick_all) (rw (p, pick_all) refl), rw e (omega (arith, t)), omega (arith, l))
]

module _ {P : Type 0} (w : Drift P → ℕ) (v : Symptom → ℕ) (x : PolicyFinding → ℕ) where
  -- The weight of all that an alert is about.
  abbrev pub measure : Alert P → ℕ
  measure a = tally w a.drifts + (tally v a.symptoms + tally x a.findings)

  abbrev pub total : List (Alert P) → ℕ
  total alerts = tally measure alerts

  abbrev pub drift_weight : Event P → ℕ
  drift_weight e = w e.drift

  measure-alert_of :
      (c : Cluster) (e : Event P) (ms : List (Event P))
      → measure (alert_of c e ms) ≡ tally drift_weight (e ∷ ms)
  unfolding alert_of tally
  measure-alert_of c e ms = omega (arith, tally-map w (λ (m : Event P). m.drift) ms)

  picked_alert :
      (es : List (Event P)) (c : Cluster) (ms : List (Event P))
      → pick_all es c.drift_indexes ≡ some ms
      → length ms ≡ length c.drift_indexes
      → is_empty c.drift_indexes ≡ false
      → (a : Alert P) × (alert_from_cluster es c ≡ some a) × (measure a ≡ tally drift_weight ms)
  unfolding alert_from_cluster
  picked_alert es c [] p l ne = absurd (ground (arith, zero_length c.drift_indexes (sym l), ne))
  picked_alert es c (e ∷ ms) p l ne =
      (alert_of c e ms, rw (p, alert_from_cluster) refl, measure-alert_of c e ms)

  alert_from_cluster-some :
      (es : List (Event P)) (c : Cluster)
      → InRange (length es) c.drift_indexes
      → is_empty c.drift_indexes ≡ false
      → (a : Alert P) × (alert_from_cluster es c ≡ some a)
        × (measure a ≡ tally (weight_at drift_weight es) c.drift_indexes)
  alert_from_cluster-some es c h ne =
      let (ms, p, t, l) = pick_all-some drift_weight es c.drift_indexes h in
      let (a, q, m) = picked_alert es c ms p l ne in (a, q, m ∙ t)

  -- Where no index is out of range and no cluster is empty, every cluster gives its alert, and the
  -- alerts weigh what the events at the indexes weigh.
  pub alerts_from_clusters-some :
      (es : List (Event P)) (clusters : List Cluster)
      → InRange (length es) (indexes_of clusters)
      → All (λ c. is_empty c.drift_indexes ≡ false) clusters
      → (found : List (Alert P)) × (alerts_from_clusters es clusters ≡ some found)
        × (total found ≡ tally (weight_at drift_weight es) (indexes_of clusters))
  unfolding alerts_from_clusters tally
  alerts_from_clusters-some es [] h ne = ([], refl, refl)
  alerts_from_clusters-some es (c ∷ clusters) h ne =
      let split = λ (j : ℕ). count-append j c.drift_indexes (indexes_of clusters) in
      let (a, p, m) = alert_from_cluster-some es c (λ j b. omega (arith, h j b, split j)) ne.0 in
      let (found, q, t) =
        alerts_from_clusters-some es clusters (λ j b. omega (arith, h j b, split j)) ne.1 in
      (
        a ∷ found,
        rw (p, alerts_from_clusters) (rw (q, alerts_from_clusters) refl),
        omega (
          arith,
          m,
          t,
          tally-append (weight_at drift_weight es) c.drift_indexes (indexes_of clusters),
        ),
      )
