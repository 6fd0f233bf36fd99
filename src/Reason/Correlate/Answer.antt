-- ===== src/Reason/Correlate/Answer.antt =====
-- The correlator of reason/llm.py: the clusters that a language model answered with. The call of the
-- model is outside the model.
use mathlib.Core.Option
use steadystate_ai.Prelude.{
  ℕ, zero, suc, not, ◌&&◌, Option, none, some, List, [], ◌∷◌, ◌++◌, String, ltb, all, length, true,
  if◌then◌else◌,
}
use steadystate_ai.Prelude.Texts.{codes, elem}
use steadystate_ai.Model.{Drift}
use steadystate_ai.Reason.Correlate.{Cluster, correlate}

-- What the checks of `_parse_clusters` read of the JSON object that the model answered with.
pub data JsonIndex : Type 0 where
  whole : ℕ → JsonIndex
  negative not_whole : JsonIndex

pub data JsonText : Type 0 where
  null other : JsonText
  text : String → JsonText

pub data JsonGroup : Type 0 where
  not_dict : JsonGroup
  group : Option (List JsonIndex) → JsonText → JsonText → JsonText → JsonGroup

-- No object, or one whose `groups` is no list; else the groups.
pub data Answer : Type 0 where
  no_groups : Answer
  groups : List JsonGroup → Answer

-- The loop over the indexes of one group: the indexes, and those seen so far.
unfoldable pub parse_indexes : ℕ → List ℕ → List JsonIndex → Option (List ℕ × List ℕ)
parse_indexes n seen [] = some ([], seen)
parse_indexes n seen (whole x ∷ xs) =
    if ltb x n && not (elem x seen)
    then (elim (parse_indexes n (x ∷ seen) xs) [
      | none ↦ none
      | some (norm, seen') ↦ some (x ∷ norm, seen')
    ])
    else none
parse_indexes n seen (_ ∷ xs) = none

abbrev pub parse_action : JsonText → Option (Option String)
parse_action null = some none
parse_action (text action) = some (some action)
parse_action other = none

abbrev pub parse_group :
    JsonText → JsonText → JsonText → Option (List ℕ × List ℕ) → Option (Cluster × List ℕ)
parse_group (text title) (text why) action (some (norm, seen)) = elim (parse_action action) [
  | none ↦ none
  | some recommended ↦ some (
    record {
      drift_indexes = norm;
      title = title;
      why_it_matters = why;
      recommended_action = Option.map codes recommended;
      llm_backed = true;
    },
    seen,
  )
]
parse_group _ _ _ _ = none

-- The loop over the groups: the clusters, and the indexes seen.
unfoldable pub parse_groups : ℕ → List ℕ → List JsonGroup → Option (List Cluster × List ℕ)
unfolding parse_indexes
parse_groups n seen [] = some ([], seen)
parse_groups n seen (group (some (i ∷ idxs)) title why action ∷ rest) =
    elim (parse_group title why action (parse_indexes n seen (i ∷ idxs))) [
      | none ↦ none
      | some (cluster, seen') ↦ (elim (parse_groups n seen' rest) [
        | none ↦ none
        | some (clusters, seen'') ↦ some (cluster ∷ clusters, seen'')
      ])
    ]
parse_groups n seen (_ ∷ rest) = none

unfoldable pub range : ℕ → List ℕ
range zero = []
range (suc n) = range n ++ (n ∷ [])

-- `_parse_clusters`: `seen == set(range(n))` is that each holds the other.
unfoldable pub parse_clusters : ℕ → Answer → Option (List Cluster)
unfolding parse_groups range
parse_clusters n (groups (g ∷ gs)) = elim (parse_groups n [] (g ∷ gs)) [
  | none ↦ none
  | some (clusters, seen) ↦
      if all (λ i. elem i seen) (range n) && all (λ i. elem i (range n)) seen
      then some clusters
      else none
]
parse_clusters n _ = none

-- `LLMAnalyst.correlate`, of the model's answer, where there is one.
unfoldable pub llm_correlate : {P : Type 0} → Option Answer → List (Drift P) → List Cluster
unfolding parse_clusters correlate
llm_correlate answer [] = []
llm_correlate none (d ∷ drifts) = correlate (d ∷ drifts)
llm_correlate (some answer) (d ∷ drifts) = elim (parse_clusters (length (d ∷ drifts)) answer) [
  | none ↦ correlate (d ∷ drifts)
  | some clusters ↦ clusters
]
