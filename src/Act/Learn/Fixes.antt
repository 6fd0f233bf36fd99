-- ===== src/Act/Learn/Fixes.antt =====
-- Which fix the demonstrations of a category agree on (_distinct_fixes of src/steadystate/act/learn.py).
use mathlib.Core.List.{reverse, reverse-cons}
use steadystate_ai.Prelude.{
  ◌≡◌, refl, ◌∙◌, ap, inl, inr, Bool, false, not, ◌&&◌, ◌||◌, none, some, List, [], ◌∷◌, ◌++◌,
  String, str_eq, arith, any, all, all-append, eq_iff, Bool-cases,
}
use steadystate_ai.Act.Learn.{Demonstration, add_fixes, distinct_fixes, sole_fix}

-- What a category's demonstrations say of one fix: some recorded it, and none recorded another.
abbrev pub recorded : String → Demonstration → Bool
recorded fix d = str_eq d.solution fix

abbrev pub agrees : String → Demonstration → Bool
agrees fix d = str_eq d.solution "" || str_eq d.solution fix

abbrev pub is_sole : String → List String → Bool
is_sole fix fixes = elim (sole_fix fixes) [ none ↦ false | some other ↦ str_eq other fix ]

is_sole-two :
    (fix x y : String) (fixes : List String) (demos : List Demonstration)
    → is_sole fix (add_fixes (x ∷ y ∷ fixes) demos) ≡ false
unfolding add_fixes
is_sole-two fix x y fixes [] = refl
is_sole-two fix x y fixes (d ∷ demos) =
    elim (Bool-cases
      (not (str_eq d.solution "") && not (any (str_eq d.solution) (x ∷ y ∷ fixes)))) [
        | inl e ↦ rw e (is_sole-two fix x y (fixes ++ (d.solution ∷ [])) demos)
        | inr e ↦ rw e (is_sole-two fix x y fixes demos)
      ]

is_sole-one :
    (fix x : String) (demos : List Demonstration)
    → is_sole fix (add_fixes (x ∷ []) demos) ≡ (str_eq x fix && all (agrees x) demos)
unfolding add_fixes
is_sole-one fix x [] = ground arith
is_sole-one fix x (d ∷ demos) = ground (
  arith,
  is_sole-one fix x demos,
  is_sole-two fix x d.solution [] demos,
  eq_iff x fix,
  eq_iff d.solution x,
  eq_iff d.solution "",
)

is_sole-none :
    (fix : String) (demos : List Demonstration)
    → str_eq fix "" ≡ false
    → is_sole fix (add_fixes [] demos) ≡ (any (recorded fix) demos && all (agrees fix) demos)
unfolding add_fixes
is_sole-none fix [] set = refl
is_sole-none fix (d ∷ demos) set = ground (
  arith,
  set,
  is_sole-none fix demos set,
  is_sole-one fix d.solution demos,
  eq_iff d.solution fix,
  eq_iff d.solution "",
  eq_iff fix "",
)

any-append :
    (p : Demonstration → Bool) (xs ys : List Demonstration)
    → any p (xs ++ ys) ≡ (any p xs || any p ys)
any-append p [] ys = refl
any-append p (x ∷ xs) ys = ground (arith, any-append p xs ys)

any-reverse : (p : Demonstration → Bool) (xs : List Demonstration) → any p (reverse xs) ≡ any p xs
any-reverse p [] = refl
any-reverse p (x ∷ xs) =
    ap (any p) (reverse-cons x xs)
    ∙ any-append p (reverse xs) (x ∷ [])
    ∙ ground (arith, any-reverse p xs)

all-reverse : (p : Demonstration → Bool) (xs : List Demonstration) → all p (reverse xs) ≡ all p xs
all-reverse p [] = refl
all-reverse p (x ∷ xs) =
    ap (all p) (reverse-cons x xs)
    ∙ all-append p (reverse xs) (x ∷ [])
    ∙ ground (arith, all-reverse p xs)

pub is_sole-distinct_fixes :
    (fix : String) (group : List Demonstration)
    → str_eq fix "" ≡ false
    → is_sole fix (distinct_fixes group) ≡ (any (recorded fix) group && all (agrees fix) group)
unfolding distinct_fixes
is_sole-distinct_fixes fix group set =
    rw
      (
        is_sole-none fix (reverse group) set,
        any-reverse (recorded fix) group,
        all-reverse (agrees fix) group,
      )
      refl
