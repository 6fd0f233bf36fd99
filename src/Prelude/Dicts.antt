-- ===== src/Prelude/Dicts.antt =====
-- A Python dictionary whose keys are texts: its items in order of insertion.
use Prim.Native.String.{String}
use mathlib.Core.Path.{◌≡◌, refl}
use mathlib.Core.Logic.{inl, inr}
use mathlib.Core.Bool.{Bool, false, ◌||◌}
use mathlib.Core.Option
use mathlib.Core.Option.{Option, none, some}
use mathlib.Core.List.{List, [], ◌∷◌}
use native.Mathlib.Omega.{arith}
use text.Mathlib.Text.{◌==◌ as str_eq}
use text.Mathlib.TextEquality.{eq_iff}
use steadystate_ai.Prelude.Tests.{if◌then◌else◌, is_some, Bool-cases}
use steadystate_ai.Prelude.Rows.{by_key, Unique}

module _ {V : Type 0} where
  abbrev pub item_key : String × V → String
  item_key item = item.0

  -- `d[k] = v`: a key keeps its place when its value is replaced.
  unfoldable pub put : String → V → List (String × V) → List (String × V)
  put k v [] = (k, v) ∷ []
  put k v (item ∷ d) = let rest = put k v d in if str_eq item.0 k then (k, v) ∷ d else item ∷ rest

  -- `d.get(k)`
  unfoldable pub lookup : String → List (String × V) → Option V
  unfolding by_key
  lookup k d = Option.map (λ item. item.1) (by_key item_key k d)

  -- `k in d`
  unfoldable pub has : String → List (String × V) → Bool
  has k [] = false
  has k (item ∷ d) = str_eq item.0 k || has k d

  pub lookup-put :
      (k j : String) (v : V) (d : List (String × V))
      → lookup j (put k v d) ≡ (if str_eq k j then some v else lookup j d)
  unfolding lookup put by_key
  lookup-put k j v [] = ground arith
  lookup-put k j v (item ∷ d) =
      ground (arith, lookup-put k j v d, eq_iff item.0 k, eq_iff item.0 j, eq_iff k j)

  pub has-put :
      (k j : String) (v : V) (d : List (String × V)) → has j (put k v d) ≡ (str_eq k j || has j d)
  unfolding has put
  has-put k j v [] = ground arith
  has-put k j v (item ∷ d) =
      ground (arith, has-put k j v d, eq_iff item.0 k, eq_iff item.0 j, eq_iff k j)

  pub lookup-has : (k : String) (d : List (String × V)) → is_some (lookup k d) ≡ has k d
  unfolding lookup has by_key
  lookup-has k [] = refl
  lookup-has k (item ∷ d) = ground (arith, lookup-has k d)

  pub Unique-has :
      (k : String) (d : List (String × V)) → has k d ≡ false → by_key item_key k d ≡ none
  unfolding has by_key
  Unique-has k [] h = refl
  Unique-has k (item ∷ d) h = ground (arith, h, Unique-has k d)

  pub has-Unique :
      (k : String) (d : List (String × V)) → by_key item_key k d ≡ none → has k d ≡ false
  unfolding has by_key
  has-Unique k [] h = refl
  has-Unique k (item ∷ d) h = ground (arith, h, has-Unique k d)

  pub put-Unique :
      (k : String) (v : V) (d : List (String × V)) → Unique item_key d → Unique item_key (put k v d)
  unfolding put Unique by_key
  put-Unique k v [] u = (refl, tt)
  put-Unique k v (item ∷ d) u = elim (Bool-cases (str_eq item.0 k)) [
    | inl e ↦ rw e (ground (arith, eq_iff item.0 k, e, u.0), u.1)
    | inr e ↦ rw e (
      Unique-has item.0 (put k v d) (
          ground (
            arith,
            has-put k item.0 v d,
            has-Unique item.0 d,
            u.0,
            e,
            eq_iff item.0 k,
            eq_iff k item.0,
          )),
      put-Unique k v d u.1,
    )
  ]
