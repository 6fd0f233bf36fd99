-- ===== src/Reconcile/Diff.antt =====
-- The drifts that `reconcile` reports, by identity (src/steadystate/reconcile.py).
use steadystate_ai.Prelude.{
  ◌≡◌, refl, ◌⊎◌, inl, inr, Bool, Option, none, some, List, [], ◌∷◌, ◌++◌, String, str_eq, eq_iff,
  arith, ap, ◌∙◌, Bool-cases, Option-cases, if◌then◌else◌,
}
use steadystate_ai.Prelude.Rows.{by_key, or_row, Unique}
use steadystate_ai.Model.{Resource, Drift}
use steadystate_ai.Reconcile.{
  resource_key, drift_key, put, put_all, index, added_drift, modified_drift, removed_drift,
  declared_drift, from_declared, from_observed, reconcile,
}

module _ {P : Type 0} where
  -- The last resource of an identity.
  abbrev pub latest : String → List (Resource P) → Option (Resource P)
  latest j [] = none
  latest j (r ∷ rs) = or_row (latest j rs) (if str_eq r.identity j then some r else none)

  by_key-put :
      (j : String) (r : Resource P) (rows : List (Resource P))
      → by_key resource_key j (put r rows)
        ≡ (if str_eq r.identity j then some r else by_key resource_key j rows)
  unfolding put by_key
  by_key-put j r [] = refl
  by_key-put j r (x ∷ rows) = ground (
    arith,
    by_key-put j r rows,
    eq_iff x.identity r.identity,
    eq_iff r.identity j,
    eq_iff x.identity j,
  )

  Unique-put :
      (r : Resource P) (rows : List (Resource P))
      → Unique resource_key rows
      → Unique resource_key (put r rows)
  unfolding put Unique by_key
  Unique-put r [] u = (refl, tt)
  Unique-put r (x ∷ rows) u = elim (Bool-cases (str_eq x.identity r.identity)) [
    | inl e ↦ rw e (
      ground
          (arith, u.0, ap (λ k. by_key resource_key k rows) ((eq_iff x.identity r.identity).0 e)),
      u.1,
    )
    | inr e ↦ rw e (
      ground (
        arith,
        by_key-put x.identity r rows,
        u.0,
        eq_iff r.identity x.identity,
        eq_iff x.identity r.identity,
        e,
      ),
      Unique-put r rows u.1,
    )
  ]

  by_key-put_all :
      (j : String) (rows rs : List (Resource P))
      → by_key resource_key j (put_all rows rs) ≡ or_row (latest j rs) (by_key resource_key j rows)
  unfolding put_all
  by_key-put_all j rows [] = refl
  by_key-put_all j rows (r ∷ rs) = by_key-put_all j (put r rows) rs ∙ rw by_key-put (ground arith)

  Unique-put_all :
      (rows rs : List (Resource P))
      → Unique resource_key rows
      → Unique resource_key (put_all rows rs)
  unfolding put_all
  Unique-put_all rows [] u = u
  Unique-put_all rows (r ∷ rs) u = Unique-put_all (put r rows) rs (Unique-put r rows u)

  by_key-index :
      (j : String) (rs : List (Resource P)) → by_key resource_key j (index rs) ≡ latest j rs
  unfolding index by_key
  by_key-index j rs = by_key-put_all j [] rs ∙ ground arith

  Unique-index : (rs : List (Resource P)) → Unique resource_key (index rs)
  unfolding index Unique
  Unique-index rs = Unique-put_all [] rs tt

  by_key-join :
      (j : String) (xs ys : List (Drift P))
      → by_key drift_key j (xs ++ ys) ≡ or_row (by_key drift_key j xs) (by_key drift_key j ys)
  unfolding by_key
  by_key-join j [] ys = refl
  by_key-join j (x ∷ xs) ys = ground (arith, by_key-join j xs ys)

  module _ (same : P → P → Bool) where
    abbrev of_declared : Option (Resource P) → Option (Resource P) → Option (Drift P)
    of_declared none o = none
    of_declared (some d) o = declared_drift same d o

    abbrev of_observed : Option (Resource P) → Option (Resource P) → Option (Drift P)
    of_observed (some o) none = some (removed_drift o)
    of_observed _ _ = none

    -- The drift of one identity, from what is declared and what is observed of it.
    abbrev pub drift_between : Option (Resource P) → Option (Resource P) → Option (Drift P)
    drift_between none none = none
    drift_between none (some o) = some (removed_drift o)
    drift_between (some d) none = some (added_drift d)
    drift_between (some d) (some o) =
        if same d.properties o.properties then none else some (modified_drift d o)

    by_key-from_declared :
        (j : String) (os ds : List (Resource P))
        → Unique resource_key ds
        → by_key drift_key j (from_declared same os ds)
          ≡ of_declared (by_key resource_key j ds) (by_key resource_key j os)
    unfolding from_declared Unique by_key
    by_key-from_declared j os [] u = refl
    by_key-from_declared j os (d ∷ ds) u = ground (
      arith,
      by_key-from_declared j os ds u.1,
      u.0,
      eq_iff d.identity j,
      ap (λ k. by_key resource_key k os),
    )

    by_key-from_observed :
        (j : String) (ds os : List (Resource P))
        → Unique resource_key os
        → by_key drift_key j (from_observed same ds os)
          ≡ of_observed (by_key resource_key j os) (by_key resource_key j ds)
    unfolding from_observed Unique by_key
    by_key-from_observed j ds [] u = refl
    by_key-from_observed j ds (o ∷ os) u =
        ground (arith, by_key-from_observed j ds os u.1, u.0, eq_iff o.identity j)

    of_observed-known : (o : Option (Resource P)) (d : Resource P) → of_observed o (some d) ≡ none
    of_observed-known none d = refl
    of_observed-known (some o) d = refl

    of_both :
        (d o : Option (Resource P)) → or_row (of_declared d o) (of_observed o d) ≡ drift_between d o
    of_both none none = refl
    of_both none (some o) = refl
    of_both (some d) none = refl
    of_both (some d) (some o) = ground arith

    -- For every identity, `reconcile` reports the drift between the last declared and the last
    -- observed resource of that identity: added, removed, modified, or none.
    pub by_key-reconcile :
        (declared observed : List (Resource P)) (j : String)
        → by_key drift_key j (reconcile same declared observed)
          ≡ drift_between (latest j declared) (latest j observed)
    unfolding reconcile
    by_key-reconcile declared observed j =
        by_key-join j (from_declared same (index observed) (index declared))
          (from_observed same (index declared) (index observed))
        ∙ rw
            (
              by_key-from_declared j (index observed) (index declared) (Unique-index declared),
              by_key-from_observed j (index declared) (index observed) (Unique-index observed),
              by_key-index j declared,
              by_key-index j observed,
            )
            (of_both (latest j declared) (latest j observed))

    apart :
        (declared observed : List (Resource P)) (j : String)
        → (by_key drift_key j (from_declared same (index observed) (index declared)) ≡ none)
          ⊎ (by_key drift_key j (from_observed same (index declared) (index observed)) ≡ none)
    apart declared observed j = elim (Option-cases (by_key resource_key j (index declared))) [
      | inl e ↦ inl (
          by_key-from_declared j (index observed) (index declared) (Unique-index declared)
          ∙ ap (λ d. of_declared d (by_key resource_key j (index observed))) e)
      | inr (d, e) ↦ inr (
          by_key-from_observed j (index declared) (index observed) (Unique-index observed)
          ∙ ap (of_observed _) e
          ∙ of_observed-known _ d)
    ]
