-- ===== src/Prelude/Rows.antt =====
-- A table with a text key, as SQLite keeps one: rows in order of insertion, `SELECT ... WHERE key`,
-- `UPDATE ... WHERE key`, `INSERT` and `DELETE`.
use Prim.Native.String.{String}
use mathlib.Core.Path.{◌≡◌, refl}
use mathlib.Core.Logic.{inl, inr}
use mathlib.Core.Option
use mathlib.Core.Option.{Option, none, some}
use mathlib.Core.List.{List, [], ◌∷◌, ◌++◌}
use native.Mathlib.Omega.{arith}
use text.Mathlib.Text.{◌==◌ as str_eq}
use text.Mathlib.TextEquality.{eq_iff}
use steadystate_ai.Prelude.Tests.{if◌then◌else◌, Bool-cases}

abbrev pub or_row {ℓ} : {R : Type ℓ} → Option R → Option R → Option R
or_row none b = b
or_row (some a) b = some a

module _ {R : Type 0} (key : R → String) where
  unfoldable pub by_key : String → List R → Option R
  by_key k [] = none
  by_key k (r ∷ rows) = let rest = by_key k rows in if str_eq (key r) k then some r else rest

  unfoldable pub modify : String → (R → R) → List R → List R
  modify k f [] = []
  modify k f (r ∷ rows) = (if str_eq (key r) k then f r else r) ∷ modify k f rows

  unfoldable pub delete : String → List R → List R
  delete k [] = []
  delete k (r ∷ rows) = let rest = delete k rows in if str_eq (key r) k then rest else r ∷ rest

  -- The primary key: no two rows share theirs.
  unfoldable pub Unique : List R → Type 0
  Unique [] = Unit
  Unique (r ∷ rows) = (by_key (key r) rows ≡ none) × Unique rows

  pub by_key-append :
      (j : String) (rows : List R) (r : R)
      → by_key j (rows ++ (r ∷ []))
        ≡ or_row (by_key j rows) (if str_eq (key r) j then some r else none)
  unfolding by_key
  by_key-append j [] r = refl
  by_key-append j (x ∷ rows) r = ground (arith, by_key-append j rows r)

  pub key-by_key : (k : String) (rows : List R) (r : R) → by_key k rows ≡ some r → key r ≡ k
  unfolding by_key
  key-by_key k [] r h = cc
  key-by_key k (x ∷ rows) r h = ground (arith, h, eq_iff (key x) k, key-by_key k rows r)

  pub by_key-delete :
      (k j : String) (rows : List R)
      → by_key j (delete k rows) ≡ (if str_eq k j then none else by_key j rows)
  unfolding by_key delete
  by_key-delete k j [] = ground arith
  by_key-delete k j (r ∷ rows) =
      ground (arith, by_key-delete k j rows, eq_iff (key r) k, eq_iff (key r) j, eq_iff k j)

  pub Unique-append :
      (rows : List R) (r : R) → Unique rows → by_key (key r) rows ≡ none → Unique (rows ++ (r ∷ []))
  unfolding Unique by_key
  Unique-append [] r u h = (refl, tt)
  Unique-append (x ∷ rows) r u h = (
    ground (
      arith,
      by_key-append (key x) rows r,
      u.0,
      h,
      eq_iff (key r) (key x),
      eq_iff (key x) (key r),
    ),
    Unique-append rows r u.1 (ground (arith, h)),
  )

  pub Unique-delete : (k : String) (rows : List R) → Unique rows → Unique (delete k rows)
  unfolding Unique delete
  Unique-delete k [] u = tt
  Unique-delete k (r ∷ rows) u = elim (Bool-cases (str_eq (key r) k)) [
    | inl e ↦ rw e (Unique-delete k rows u.1)
    | inr e ↦ rw e (ground (arith, by_key-delete k (key r) rows, u.0), Unique-delete k rows u.1)
  ]

  module _ (k : String) (f : R → R) (same : (r : R) → key (f r) ≡ key r) where
    pub by_key-modify :
        (j : String) (rows : List R)
        → by_key j (modify k f rows)
          ≡ (if str_eq k j then Option.map f (by_key j rows) else by_key j rows)
    unfolding by_key modify
    by_key-modify j [] = ground arith
    by_key-modify j (r ∷ rows) = ground (
      arith,
      by_key-modify j rows,
      same r,
      eq_iff (key r) k,
      eq_iff (key r) j,
      eq_iff (key (f r)) j,
      eq_iff k j,
    )

    fresh :
        (r : R) (rows : List R)
        → by_key (key r) rows ≡ none
        → by_key (key (if str_eq (key r) k then f r else r)) (modify k f rows) ≡ none
    fresh r rows h = elim (Bool-cases (str_eq (key r) k)) [
      | inl e ↦ rw e (rw (same r) (rw by_key-modify (ground (arith, h))))
      | inr e ↦ rw e (rw by_key-modify (ground (arith, h)))
    ]

    pub Unique-modify : (rows : List R) → Unique rows → Unique (modify k f rows)
    unfolding Unique modify
    Unique-modify [] u = tt
    Unique-modify (r ∷ rows) u = (fresh r rows u.0, Unique-modify rows u.1)
