-- ===== src/Reason/Correlate/Cover.antt =====
-- The indexes of the clusters that the mechanical correlator gives (src/steadystate/reason/correlate.py).
use steadystate_ai.Prelude.{
  ℕ, suc, ◌+◌, ◌==◌, ◌≡◌, refl, ◌∙◌, ap, inl, inr, false, ◌&&◌, List, [], ◌∷◌, ◌++◌, String, str_eq,
  arith, leb, ltb, All, length, is_empty, Bool-cases, if◌then◌else◌,
}
use steadystate_ai.Model.{Drift}
use steadystate_ai.Reason.Correlate.{
  Cluster, Groups, add_to, bucket_of, group_key, group_from, clusters_of, correlate,
}

-- How often an index occurs.
abbrev pub count : ℕ → List ℕ → ℕ
count i [] = 0
count i (j ∷ js) = let rest = count i js in if i == j then suc rest else rest

abbrev pub indexes_of : List Cluster → List ℕ
indexes_of [] = []
indexes_of (c ∷ clusters) = c.drift_indexes ++ indexes_of clusters

-- Each of the first `n` indexes stands in exactly one cluster, no other index in any, and no cluster
-- is empty.
unfoldable pub Covers : ℕ → List Cluster → Type 0
Covers n clusters =
    ((i : ℕ) → count i (indexes_of clusters) ≡ (if ltb i n then 1 else 0))
    × All (λ c. is_empty c.drift_indexes ≡ false) clusters

pub count-append : (i : ℕ) (xs ys : List ℕ) → count i (xs ++ ys) ≡ count i xs + count i ys
count-append i [] ys = omega arith
count-append i (x ∷ xs) ys = ground (arith, count-append i xs ys)

abbrev grouped : Groups → List ℕ
grouped [] = []
grouped ((key, indexes) ∷ groups) = indexes ++ grouped groups

count-add_to :
    (i j : ℕ) (bucket : String) (groups : Groups)
    → count i (grouped (add_to bucket j groups)) ≡ count i (grouped groups) + count i (j ∷ [])
unfolding add_to
count-add_to i j bucket [] = ground arith
count-add_to i j bucket ((key, indexes) ∷ groups) = ground (
  arith,
  count-add_to i j bucket groups,
  count-append i (indexes ++ (j ∷ [])) (grouped groups),
  count-append i indexes (j ∷ []),
  count-append i indexes (grouped groups),
  count-append i indexes (grouped (add_to bucket j groups)),
)

count-group_from :
    {P : Type 0} (i k : ℕ) (drifts : List (Drift P)) (groups : Groups)
    → count i (grouped (group_from k drifts groups))
      ≡ count i (grouped groups) + (if leb k i && ltb i (k + length drifts) then 1 else 0)
unfolding group_from
count-group_from i k [] groups = ground arith
count-group_from i k (drift ∷ drifts) groups = ground (
  arith,
  count-group_from i (suc k) drifts (add_to (bucket_of (group_key drift) k) k groups),
  count-add_to i k (bucket_of (group_key drift) k) groups,
)

abbrev Filled : Groups → Type 0
Filled = All (λ g. is_empty g.1 ≡ false)

filled_cons : (xs : List ℕ) (x : ℕ) → is_empty (xs ++ (x ∷ [])) ≡ false
filled_cons [] x = refl
filled_cons (y ∷ xs) x = refl

add_to-Filled :
    (bucket : String) (i : ℕ) (groups : Groups) → Filled groups → Filled (add_to bucket i groups)
unfolding add_to
add_to-Filled bucket i [] h = (refl, tt)
add_to-Filled bucket i ((key, indexes) ∷ groups) h = elim (Bool-cases (str_eq key bucket)) [
  | inl e ↦ rw e (filled_cons indexes i, h.1)
  | inr e ↦ rw e (h.0, add_to-Filled bucket i groups h.1)
]

module _ {P : Type 0} where
  indexes_of-clusters_of :
      (drifts : List (Drift P)) (groups : Groups)
      → indexes_of (clusters_of drifts groups) ≡ grouped groups
  unfolding clusters_of
  indexes_of-clusters_of drifts [] = refl
  indexes_of-clusters_of drifts ((key, indexes) ∷ groups) =
      ap (λ rest. indexes ++ rest) (indexes_of-clusters_of drifts groups)

  group_from-Filled :
      (k : ℕ) (drifts : List (Drift P)) (groups : Groups)
      → Filled groups
      → Filled (group_from k drifts groups)
  unfolding group_from
  group_from-Filled k [] groups h = h
  group_from-Filled k (drift ∷ drifts) groups h =
      group_from-Filled (suc k) drifts (add_to (bucket_of (group_key drift) k) k groups)
        (add_to-Filled (bucket_of (group_key drift) k) k groups h)

  clusters_of-nonempty :
      (drifts : List (Drift P)) (groups : Groups)
      → Filled groups
      → All (λ c. is_empty c.drift_indexes ≡ false) (clusters_of drifts groups)
  unfolding clusters_of
  clusters_of-nonempty drifts [] h = tt
  clusters_of-nonempty drifts ((key, indexes) ∷ groups) h =
      (h.0, clusters_of-nonempty drifts groups h.1)

  -- The mechanical grouping puts every event into exactly one cluster.
  pub correlate-Covers : (drifts : List (Drift P)) → Covers (length drifts) (correlate drifts)
  unfolding Covers correlate
  correlate-Covers drifts = (
    λ i.
        ap (count i) (indexes_of-clusters_of drifts (group_from 0 drifts []))
        ∙ count-group_from i 0 drifts []
        ∙ ground arith,
    clusters_of-nonempty drifts (group_from 0 drifts []) (group_from-Filled 0 drifts [] tt),
  )
