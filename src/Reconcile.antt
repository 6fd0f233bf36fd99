-- ===== src/Reconcile.antt =====
-- reconcile.py: declared and observed resources are compared. `same` is the equality of two
-- dictionaries of properties.
pub mod Diff
use steadystate_ai.Prelude.{
  Bool, true, false, not, Option, none, some, List, [], ◌∷◌, ◌++◌, String, str_eq, is_some,
  if◌then◌else◌,
}
use steadystate_ai.Prelude.Rows.{by_key}
use steadystate_ai.Model.{added, removed, modified, Resource, Drift}

module _ {P : Type 0} where
  abbrev pub resource_key : Resource P → String
  resource_key r = r.identity

  abbrev pub drift_key : Drift P → String
  drift_key d = d.identity

  -- `rows[r.identity] = r`: a key keeps its place when its value is replaced.
  unfoldable pub put : Resource P → List (Resource P) → List (Resource P)
  put r [] = r ∷ []
  put r (x ∷ rows) =
      let rest = put r rows in if str_eq x.identity r.identity then r ∷ rows else x ∷ rest

  unfoldable pub put_all : List (Resource P) → List (Resource P) → List (Resource P)
  unfolding put
  put_all rows [] = rows
  put_all rows (r ∷ rs) = put_all (put r rows) rs

  -- `{r.identity: r for r in rows}`
  unfoldable pub index : List (Resource P) → List (Resource P)
  unfolding put_all
  index rs = put_all [] rs

  abbrev pub added_drift : Resource P → Drift P
  added_drift d = record {
    identity = d.identity;
    kind = d.kind;
    change_type = added;
    provenance = d.provenance;
    declared = some d.properties;
    observed = none;
    actionable = true;
  }

  abbrev pub modified_drift : Resource P → Resource P → Drift P
  modified_drift d o = record {
    identity = d.identity;
    kind = d.kind;
    change_type = modified;
    provenance = d.provenance;
    declared = some d.properties;
    observed = some o.properties;
    actionable = true;
  }

  abbrev pub removed_drift : Resource P → Drift P
  removed_drift o = record {
    identity = o.identity;
    kind = o.kind;
    change_type = removed;
    provenance = o.provenance;
    declared = none;
    observed = some o.properties;
    actionable = true;
  }

  abbrev pub append_drift : Option (Drift P) → List (Drift P) → List (Drift P)
  append_drift none drifts = drifts
  append_drift (some d) drifts = d ∷ drifts

  module _ (same : P → P → Bool) where
    abbrev pub declared_drift : Resource P → Option (Resource P) → Option (Drift P)
    declared_drift d none = some (added_drift d)
    declared_drift d (some o) =
        if not (same d.properties o.properties) then some (modified_drift d o) else none

    -- The loop over what is declared, and the loop over what is observed.
    unfoldable pub from_declared : List (Resource P) → List (Resource P) → List (Drift P)
    from_declared observed [] = []
    from_declared observed (d ∷ ds) =
        append_drift (declared_drift d (by_key resource_key d.identity observed))
          (from_declared observed ds)

    unfoldable pub from_observed : List (Resource P) → List (Resource P) → List (Drift P)
    from_observed declared [] = []
    from_observed declared (o ∷ os) =
        let rest = from_observed declared os in
        if not (is_some (by_key resource_key o.identity declared))
        then removed_drift o ∷ rest
        else rest

    -- `reconcile`
    unfoldable pub reconcile : List (Resource P) → List (Resource P) → List (Drift P)
    unfolding index from_declared from_observed
    reconcile declared observed =
        let by_declared = index declared in
        let by_observed = index observed in
        from_declared by_observed by_declared ++ from_observed by_declared by_observed
