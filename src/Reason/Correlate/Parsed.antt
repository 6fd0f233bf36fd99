-- ===== src/Reason/Correlate/Parsed.antt =====
-- The indexes of the clusters that the correlator with a language model gives (src/steadystate/reason/llm.py).
use mathlib.Core.Option.{some-injective}
use steadystate_ai.Prelude.{
  ℕ, zero, suc, ◌+◌, ◌≤◌, ◌==◌, ◌≡◌, refl, ◌∙◌, ap, inl, inr, Bool, true, false, not, ◌&&◌, Option,
  none, some, List, [], ◌∷◌, arith, leb, ltb, all, All, length, is_empty, subst, all-append,
  and-left, ==_iff, Bool-cases, Option-cases, if◌then◌else◌,
}
use steadystate_ai.Prelude.Texts.{elem}
use steadystate_ai.Model.{Drift}
use steadystate_ai.Reason.Correlate.{Cluster}
use steadystate_ai.Reason.Correlate.Answer.{
  JsonIndex, JsonText, null, other, text, JsonGroup, Answer, parse_group, parse_indexes,
  parse_groups, range, parse_clusters, llm_correlate,
}
use steadystate_ai.Reason.Correlate.Cover.{
  count, count-append, indexes_of, Covers, correlate-Covers,
}

elem-count : (i : ℕ) (xs : List ℕ) → elem i xs ≡ leb 1 (count i xs)
elem-count i [] = refl
elem-count i (x ∷ xs) = ground (arith, elem-count i xs)

abbrev bound : ℕ → ℕ → ℕ
bound n i = if ltb i n then 1 else 0

parse_indexes-count :
    (n i : ℕ) (seen : List ℕ) (xs : List JsonIndex) (norm seen' : List ℕ)
    → parse_indexes n seen xs ≡ some (norm, seen')
    → (count i seen' ≡ count i norm + count i seen)
      × (count i seen ≤ bound n i → count i seen' ≤ bound n i)
      × (length norm ≡ length xs)
unfolding parse_indexes
parse_indexes-count n i seen [] norm seen' h = ground (arith, h)
parse_indexes-count n i seen (JsonIndex.negative ∷ xs) norm seen' h = absurd (cc)
parse_indexes-count n i seen (JsonIndex.not_whole ∷ xs) norm seen' h = absurd (cc)
parse_indexes-count n i seen (JsonIndex.whole x ∷ xs) norm seen' h =
    elim (Bool-cases (ltb x n && not (elem x seen))) [
      | inr e ↦ absurd (ground (arith, h, e))
      | inl e ↦ elim (Option-cases (parse_indexes n (x ∷ seen) xs)) [
        | inl q ↦ absurd (ground (arith, h, e, q))
        | inr ((norm', seen''), q) ↦ ground (
          arith,
          h,
          e,
          q,
          parse_indexes-count n i (x ∷ seen) xs norm' seen'' q,
          elem-count x seen,
        )
      ]
    ]

parse_group-drift_indexes :
    (title why action : JsonText) (o : Option (List ℕ × List ℕ)) (c : Cluster) (seen : List ℕ)
    → parse_group title why action o ≡ some (c, seen)
    → o ≡ some (c.drift_indexes, seen)
parse_group-drift_indexes (text t) (text w) null (some p) c seen h = ground (arith, h)
parse_group-drift_indexes (text t) (text w) (text a) (some p) c seen h = ground (arith, h)
parse_group-drift_indexes (text t) (text w) other (some p) c seen h = absurd (cc)
parse_group-drift_indexes (text t) (text w) action none c seen h = absurd (cc)
parse_group-drift_indexes (text t) null action o c seen h = absurd (cc)
parse_group-drift_indexes (text t) other action o c seen h = absurd (cc)
parse_group-drift_indexes null why action o c seen h = absurd (cc)
parse_group-drift_indexes other why action o c seen h = absurd (cc)

is_empty-length : {A : Type 0} (xs : List A) (n : ℕ) → length xs ≡ suc n → is_empty xs ≡ false
is_empty-length [] n h = absurd (omega (arith, h))
is_empty-length (x ∷ xs) n h = refl

-- What a run of the parser keeps.
record Parsed (n i : ℕ) (seen : List ℕ) (clusters : List Cluster) (seen' : List ℕ) : Type 0 where
  pub counted_once : count i seen' ≡ count i (indexes_of clusters) + count i seen
  pub in_bounds : count i seen ≤ bound n i → count i seen' ≤ bound n i
  pub none_empty : All (λ c. is_empty c.drift_indexes ≡ false) clusters

parse_groups-Parsed :
    (n i : ℕ) (seen : List ℕ) (gs : List JsonGroup) (clusters : List Cluster) (seen' : List ℕ)
    → parse_groups n seen gs ≡ some (clusters, seen')
    → Parsed n i seen clusters seen'
unfolding parse_groups
parse_groups-Parsed n i seen [] clusters seen' h =
    subst (λ (p : List Cluster × List ℕ). Parsed n i seen p.0 p.1) (some-injective _ _ h)
      (record { counted_once = ground arith; in_bounds = λ b. b; none_empty = tt })
parse_groups-Parsed n i seen (JsonGroup.not_dict ∷ gs) clusters seen' h = absurd (cc)
parse_groups-Parsed n i seen (JsonGroup.group none title why action ∷ gs) clusters seen' h =
    absurd (cc)
parse_groups-Parsed n i seen (JsonGroup.group (some []) title why action ∷ gs) clusters seen' h =
    absurd (cc)
parse_groups-Parsed n i seen (JsonGroup.group (some (x ∷ xs)) title why action ∷ gs) clusters seen'
      h =
    elim (Option-cases (parse_group title why action (parse_indexes n seen (x ∷ xs)))) [
      | inl e ↦ absurd (ground (arith, h, e))
      | inr ((c, seen₁), e) ↦ elim (Option-cases (parse_groups n seen₁ gs)) [
        | inl q ↦ absurd (ground (arith, h, e, q))
        | inr ((cs, seen₂), q) ↦
            let first = parse_indexes-count n i seen (x ∷ xs) c.drift_indexes seen₁ (
              parse_group-drift_indexes title why action (parse_indexes n seen (x ∷ xs)) c seen₁
                e) in
            let others = parse_groups-Parsed n i seen₁ gs cs seen₂ q in
            subst (λ (p : List Cluster × List ℕ). Parsed n i seen p.0 p.1) {x = (c ∷ cs, seen₂)}
              {y = (clusters, seen')} (ground (arith, h, e, q))
              (record {
                counted_once = ground (
                  arith,
                  first.0,
                  others.counted_once,
                  count-append i c.drift_indexes (indexes_of cs),
                );
                in_bounds = λ b. others.in_bounds (first.1 b);
                none_empty =
                    (is_empty-length c.drift_indexes (length xs) first.2, others.none_empty);
              })
      ]
    ]

elem-range : (p : ℕ → Bool) (n : ℕ) → all p (range n) ≡ true → (i : ℕ) → ltb i n ≡ true → p i ≡ true
unfolding range
elem-range p zero h i b = absurd (ground (arith, b))
elem-range p (suc n) h i b = elim (Bool-cases (i == n)) [
  | inl e ↦ ap p ((==_iff i n).0 e) ∙ ground (arith, h, all-append p (range n) (n ∷ []))
  | inr e ↦
      elem-range p n (ground (arith, h, all-append p (range n) (n ∷ []))) i (ground (arith, b, e))
]

-- An answer of the model that the parser accepts puts every event into exactly one cluster.
parse_clusters-Covers :
    (n : ℕ) (answer : Answer) (clusters : List Cluster)
    → parse_clusters n answer ≡ some clusters
    → Covers n clusters
unfolding parse_clusters Covers
parse_clusters-Covers n Answer.no_groups clusters h = absurd (cc)
parse_clusters-Covers n (Answer.groups []) clusters h = absurd (cc)
parse_clusters-Covers n (Answer.groups (g ∷ gs)) clusters h =
    elim (Option-cases (parse_groups n [] (g ∷ gs))) [
      | inl e ↦ absurd (ground (arith, h, e))
      | inr ((cs, seen), e) ↦
          elim (Bool-cases (all (λ i. elem i seen) (range n) && all (λ i. elem i (range n)) seen)) [
            | inr b ↦ absurd (ground (arith, h, e, b))
            | inl b ↦
                let kept = λ (i : ℕ). parse_groups-Parsed n i [] (g ∷ gs) cs seen e in
                let full =
                  elem-range (λ i. elem i seen) n
                    (and-left (all (λ i. elem i seen) (range n)) (all (λ i. elem i (range n)) seen)
                      b) in
                subst (Covers n) (ground (arith, h, e, b)) (
                  λ i.
                      ground (
                        arith,
                        (kept i).counted_once,
                        (kept i).in_bounds,
                        full i,
                        elem-count i seen,
                      ),
                  (kept 0).none_empty,
                )
          ]
    ]

-- Whatever a language model answers, and where none does, every event stands in exactly one of the
-- clusters, and no cluster is empty or names an event that there is not.
pub llm_correlate-Covers :
    {P : Type 0} (answer : Option Answer) (drifts : List (Drift P))
    → Covers (length drifts) (llm_correlate answer drifts)
unfolding llm_correlate Covers
llm_correlate-Covers answer [] = (λ i. ground arith, tt)
llm_correlate-Covers none (d ∷ drifts) = correlate-Covers (d ∷ drifts)
llm_correlate-Covers (some answer) (d ∷ drifts) =
    elim (Option-cases (parse_clusters (length (d ∷ drifts)) answer)) [
      | inl e ↦ rw (e, llm_correlate) (correlate-Covers (d ∷ drifts))
      | inr (clusters, e) ↦
          rw (e, llm_correlate) (parse_clusters-Covers (length (d ∷ drifts)) answer clusters e)
    ]
