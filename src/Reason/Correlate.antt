-- ===== src/Reason/Correlate.antt =====
-- reason/correlate.py: events grouped into clusters by the attributes that they share.
pub mod Answer
pub mod Cover
pub mod Parsed
pub mod Weights
use Prim.Native.String.{◌++◌ as ◌<>◌}
use mathlib.Core.Option
use steadystate_ai.Prelude.{
  ℕ, zero, suc, ◌==◌, Bool, true, false, not, ◌&&◌, Option, none, some, List, [], ◌∷◌, ◌++◌, String,
  str_eq, ltb, any, all, length, map, if◌then◌else◌,
}
use steadystate_ai.Prelude.Texts.{Text, codes, elem}
use steadystate_ai.Prelude.Strings.{rpartition, partition_text, join, distinct, decimal}
use steadystate_ai.Prelude.Sorting.{text_leb, sort}
use steadystate_ai.Model.{Drift, summary}

pub record Cluster : Type 0 where
  pub drift_indexes : List ℕ
  pub title : String
  pub why_it_matters : String
  pub recommended_action : Option Text
  pub llm_backed : Bool

-- `_namespace`: 46 is the dot.
unfoldable pub namespace : String → Option String
unfolding rpartition
namespace identity = elim (rpartition 46 identity) [
  | none ↦ none
  | some (head, tail) ↦ if str_eq head "" then none else some head
]

-- `items[i]`
abbrev pub get_elem? {ℓ} : {A : Type ℓ} → List A → ℕ → Option A
get_elem? [] i = none
get_elem? (x ∷ xs) zero = some x
get_elem? (x ∷ xs) (suc i) = get_elem? xs i

-- `_group_key`: an empty file name is none.
unfoldable pub group_key : {P : Type 0} → Drift P → Option String
unfolding namespace
group_key drift = elim drift.provenance.file [
  | some file ↦
      if str_eq file ""
      then Option.map (λ ns. "ns:" <> ns) (namespace drift.identity)
      else some ("file:" <> file)
  | none ↦ Option.map (λ ns. "ns:" <> ns) (namespace drift.identity)
]

-- The dictionary of groups, whose keys are in the order in which they were first seen.
abbrev pub Groups : Type 0
Groups = List (String × List ℕ)

-- `groups[bucket].append(i)`, for a bucket that is made where it is missing.
unfoldable pub add_to : String → ℕ → Groups → Groups
add_to bucket i [] = (bucket, i ∷ []) ∷ []
add_to bucket i ((key, indexes) ∷ groups) =
    let rest = add_to bucket i groups in
    if str_eq key bucket then (key, indexes ++ (i ∷ [])) ∷ groups else (key, indexes) ∷ rest

-- A drift without a key has a bucket of its own.
abbrev pub bucket_of : Option String → ℕ → String
bucket_of none i = "solo:" <> decimal i
bucket_of (some key) i = key

unfoldable pub group_from : {P : Type 0} → ℕ → List (Drift P) → Groups → Groups
unfolding add_to group_key
group_from i [] groups = groups
group_from i (drift ∷ drifts) groups =
    group_from (suc i) drifts (add_to (bucket_of (group_key drift) i) i groups)

-- The drifts at the indexes of a group, all of which `correlate` takes from `enumerate`.
unfoldable pub members {ℓ} : {A : Type ℓ} → List A → List ℕ → List A
members items [] = []
members items (i ∷ indexes) = elim (get_elem? items i) [
  | none ↦ members items indexes
  | some item ↦ item ∷ members items indexes
]

abbrev counted : ℕ → List String → String
counted n [] = ""
counted n (kind ∷ []) = decimal n <> (" " <> (kind <> " resources"))
counted n (kind ∷ other ∷ kinds) =
    decimal n <> (" resources (" <> (join ", " (kind ∷ other ∷ kinds) <> ")"))

module _ {P : Type 0} where
  abbrev related : String → String → List (Drift P) → String
  related kind value (only ∷ []) = summary only
  related kind value group =
      if str_eq kind "file"
      then decimal (length group) <> (" related drifts in " <> value)
      else decimal (length group) <> (" drifts under " <> value)

  -- `_title`: 58 is the colon.
  unfoldable pub title_of : String → List (Drift P) → String
  unfolding partition_text decimal
  title_of key group = let (kind, value) = partition_text 58 key in related kind value group

  abbrev reason_of : String → String → List (Drift P) → String
  reason_of kind value (only ∷ []) = summary only <> ": declared and observed state diverge."
  reason_of kind value group =
      let where_found =
        if str_eq kind "file" then "declared in " <> value else "under identity " <> value in
      counted (length group) (sort text_leb (distinct (map (λ d. d.kind) group)))
      <> (" "
          <> (where_found
              <> (" all drifted from their declared state. Grouped mechanically by "
                  <> ("shared attribute, not by analyzed root cause -- configure an LLM provider for "
                      <> "root-cause reasoning."))))

  -- `_why`
  unfoldable pub why_of : String → List (Drift P) → String
  unfolding partition_text
  why_of key group = let (kind, value) = partition_text 58 key in reason_of kind value group

  unfoldable pub clusters_of : List (Drift P) → Groups → List Cluster
  unfolding title_of why_of members
  clusters_of drifts [] = []
  clusters_of drifts ((key, indexes) ∷ groups) =
      record {
        drift_indexes = indexes;
        title = title_of key (members drifts indexes);
        why_it_matters = why_of key (members drifts indexes);
        recommended_action = none;
        llm_backed = false;
      }
      ∷ clusters_of drifts groups

  -- `correlate`
  unfoldable pub correlate : List (Drift P) → List Cluster
  unfolding clusters_of group_from
  correlate drifts = clusters_of drifts (group_from 0 drifts [])
