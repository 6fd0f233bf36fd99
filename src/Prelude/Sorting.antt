-- ===== src/Prelude/Sorting.antt =====
-- `sorted`: insertion by a Boolean order. What it keeps does not depend on the order.
use Prim.Native.String.{String, compare}
use Prim.Native.Nat.{Ordering}
use mathlib.Core.Path.{◌≡◌, refl}
use mathlib.Core.Bool.{Bool, true, false, ◌||◌}
use mathlib.Core.Option.{none, some}
use mathlib.Core.List.{List, [], ◌∷◌}
use native.Mathlib.Omega.{arith}
use text.Mathlib.Text.{◌==◌ as str_eq}
use text.Mathlib.TextEquality.{eq_iff}
use steadystate_ai.Prelude.Tests.{if◌then◌else◌}
use steadystate_ai.Prelude.Lists.{any}
use steadystate_ai.Prelude.Rows.{by_key, Unique}

-- Texts are compared by their code points.
abbrev pub text_leb : String → String → Bool
text_leb s t = elim (compare s t) [ Ordering.gt ↦ false | _ ↦ true ]

module _ {A : Type 0} (leq : A → A → Bool) where
  unfoldable pub insert : A → List A → List A
  insert x [] = x ∷ []
  insert x (y ∷ ys) = let rest = insert x ys in if leq x y then x ∷ y ∷ ys else y ∷ rest

  unfoldable pub sort : List A → List A
  unfolding insert
  sort [] = []
  sort (x ∷ xs) = insert x (sort xs)

  any-insert : (p : A → Bool) (x : A) (xs : List A) → any p (insert x xs) ≡ (p x || any p xs)
  unfolding insert
  any-insert p x [] = refl
  any-insert p x (y ∷ ys) = ground (arith, any-insert p x ys)

  pub any-sort : (p : A → Bool) (xs : List A) → any p (sort xs) ≡ any p xs
  unfolding sort
  any-sort p [] = refl
  any-sort p (x ∷ xs) = ground (arith, any-insert p x (sort xs), any-sort p xs)

  module _ (key : A → String) where
    by_key-insert :
        (k : String) (x : A) (xs : List A)
        → by_key key (key x) xs ≡ none
        → by_key key k (insert x xs) ≡ (if str_eq (key x) k then some x else by_key key k xs)
    unfolding insert by_key
    by_key-insert k x [] h = ground arith
    by_key-insert k x (y ∷ ys) h =
        ground (
          arith,
          h,
          by_key-insert k x ys,
          eq_iff (key y) k,
          eq_iff (key x) k,
          eq_iff (key y) (key x),
        )

    -- A lookup by a key that no two elements share is the same before and after.
    pub by_key-sort :
        (k : String) (xs : List A) → Unique key xs → by_key key k (sort xs) ≡ by_key key k xs
    unfolding sort by_key Unique
    by_key-sort k [] u = refl
    by_key-sort k (x ∷ xs) u =
        ground (
          arith,
          by_key-insert k x (sort xs),
          by_key-sort (key x) xs u.1,
          by_key-sort k xs u.1,
          u.0,
        )
