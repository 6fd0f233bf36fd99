-- ===== src/Act/Learn/Groups.antt =====
-- The categories by which the learner groups what it saw, and the draft that a group gives
-- (src/steadystate/act/learn.py).
use steadystate_ai.Prelude.{
  ◌≡◌, refl, ◌∙◌, sym, ap, inl, inr, ℕ, Bool, true, false, ◌&&◌, ◌||◌, Option, none, some, List, [],
  ◌∷◌, ◌++◌, String, str_eq, arith, any, all, append-nil, keep, length, leb, ltb, eq_iff, eq_refl,
  Bool-cases, if◌then◌else◌, append_assoc,
}
use steadystate_ai.Prelude.Rows.{by_key, Unique}
use steadystate_ai.Prelude.Dicts.{item_key, put, lookup, lookup-put, put-Unique}
use steadystate_ai.Act.Learn.{
  Demonstration, Draft, Groups, members, group_from, distinct_fixes, sole_fix, draft_solution,
  draft_from, draft_of, drafts_of,
}
use steadystate_ai.Act.Learn.Fixes.{recorded, agrees, is_sole-distinct_fixes}

-- A draft for a category that runs a fix.
abbrev pub runs : String → String → Draft → Bool
runs category fix d = str_eq d.category category && str_eq d.run fix

-- What the demonstrations of a category must be for that draft.
abbrev pub earned : ℕ → String → List Demonstration → Bool
earned min fix group = leb min (length group) && any (recorded fix) group && all (agrees fix) group

pub earned-none : (min : ℕ) (fix : String) → earned min fix [] ≡ false
earned-none min fix = ground arith

members-put :
    (j k : String) (group : List Demonstration) (groups : Groups)
    → members j (put k group groups) ≡ (if str_eq k j then group else members j groups)
unfolding members
members-put j k group groups = ground (arith, lookup-put k j group groups)

-- What one demonstration adds to a category.
members-added :
    (category : String) (d : Demonstration) (groups : Groups)
    → members category (put d.category (members d.category groups ++ (d ∷ [])) groups)
      ≡ members category groups ++ (if str_eq d.category category then d ∷ [] else [])
members-added category d groups =
    let more = members d.category groups ++ (d ∷ []) in
    elim (Bool-cases (str_eq d.category category)) [
      | inl e ↦
          members-put category d.category more groups
          ∙ rw e (ap (λ k. members k groups ++ (d ∷ [])) ((eq_iff d.category category).0 e))
      | inr e ↦
          members-put category d.category more groups
          ∙ rw e (sym (append-nil (members category groups)))
    ]

keep-cons :
    (category : String) (d : Demonstration) (demos : List Demonstration)
    → (if str_eq d.category category then d ∷ [] else [])
        ++ keep (λ e. str_eq e.category category) demos
      ≡ keep (λ e. str_eq e.category category) (d ∷ demos)
keep-cons category d demos = elim (Bool-cases (str_eq d.category category)) [
  | inl e ↦ rw e refl
  | inr e ↦ rw e refl
]

pub members-group_from :
    (category : String) (groups : Groups) (demos : List Demonstration)
    → members category (group_from groups demos)
      ≡ members category groups ++ keep (λ d. str_eq d.category category) demos
unfolding group_from
members-group_from category groups [] = sym (append-nil (members category groups))
members-group_from category groups (d ∷ demos) =
    let next = put d.category (members d.category groups ++ (d ∷ [])) groups in
    let rest = keep (λ e. str_eq e.category category) demos in
    let one = if str_eq d.category category then d ∷ [] else [] in
    members-group_from category next demos
    ∙ ap (λ xs. xs ++ rest) (members-added category d groups)
    ∙ append_assoc (members category groups) one rest
    ∙ ap (λ xs. members category groups ++ xs) (keep-cons category d demos)

pub group_from-Unique :
    (groups : Groups) (demos : List Demonstration)
    → Unique item_key groups
    → Unique item_key (group_from groups demos)
unfolding group_from
group_from-Unique groups [] u = u
group_from-Unique groups (d ∷ demos) u =
    group_from-Unique (put d.category (members d.category groups ++ (d ∷ [])) groups) demos
      (put-Unique d.category (members d.category groups ++ (d ∷ [])) groups u)

module _ (lower : String → String) (min : ℕ) where
  runs-draft_from :
      (category fix : String) (n : ℕ) (o : Option String)
      → any (runs category fix) (draft_from lower category n o)
        ≡ (elim o [ none ↦ false | some other ↦ str_eq other fix ])
  unfolding draft_solution
  runs-draft_from category fix n none = refl
  runs-draft_from category fix n (some other) = ground (arith, eq_refl category)

  runs-draft_of :
      (category fix : String) (group : List Demonstration)
      → str_eq fix "" ≡ false
      → any (runs category fix) (draft_of lower min category group) ≡ earned min fix group
  unfolding draft_of
  runs-draft_of category fix group set = elim (Bool-cases (ltb (length group) min)) [
    | inl e ↦ rw e (ground (arith, e))
    | inr e ↦ rw e (
        runs-draft_from category fix (length group) (sole_fix (distinct_fixes group))
        ∙ is_sole-distinct_fixes fix group set
        ∙ ground (arith, e))
  ]

  runs-other_from :
      (category other fix : String) (n : ℕ) (o : Option String)
      → str_eq other category ≡ false
      → any (runs category fix) (draft_from lower other n o) ≡ false
  unfolding draft_solution
  runs-other_from category other fix n none e = refl
  runs-other_from category other fix n (some found) e = rw e refl

  runs-other :
      (category other fix : String) (group : List Demonstration)
      → str_eq other category ≡ false
      → any (runs category fix) (draft_of lower min other group) ≡ false
  unfolding draft_of
  runs-other category other fix group e = elim (Bool-cases (ltb (length group) min)) [
    | inl h ↦ rw h refl
    | inr h ↦
        rw h (runs-other_from category other fix (length group) (sole_fix (distinct_fixes group)) e)
  ]

  any_draft-append :
      (p : Draft → Bool) (xs ys : List Draft) → any p (xs ++ ys) ≡ (any p xs || any p ys)
  any_draft-append p [] ys = refl
  any_draft-append p (x ∷ xs) ys = ground (arith, any_draft-append p xs ys)

  members-absent :
      (category : String) (groups : Groups)
      → by_key item_key category groups ≡ none
      → members category groups ≡ []
  unfolding members lookup
  members-absent category groups h = rw h refl

  runs-same :
      (category other fix : String) (group : List Demonstration)
      → str_eq fix "" ≡ false
      → str_eq other category ≡ true
      → any (runs category fix) (draft_of lower min other group) ≡ earned min fix group
  runs-same category other fix group set e =
      ap (λ k. any (runs k fix) (draft_of lower min other group))
        (sym ((eq_iff other category).0 e))
      ∙ runs-draft_of other fix group set

  members-head :
      (category other : String) (group : List Demonstration) (groups : Groups)
      → str_eq other category ≡ true
      → members category ((other, group) ∷ groups) ≡ group
  unfolding members lookup by_key
  members-head category other group groups e = rw e refl

  -- No other group has the key of the first.
  tail-absent :
      (category other : String) (groups : Groups)
      → str_eq other category ≡ true
      → by_key item_key other groups ≡ none
      → members category groups ≡ []
  tail-absent category other groups e h =
      members-absent category groups
        (ap (λ k. by_key item_key k groups) (sym ((eq_iff other category).0 e)) ∙ h)

  pub runs-drafts_of :
      (category fix : String) (groups : Groups)
      → str_eq fix "" ≡ false
      → Unique item_key groups
      → any (runs category fix) (drafts_of lower min groups)
        ≡ earned min fix (members category groups)
  unfolding drafts_of members lookup by_key Unique
  runs-drafts_of category fix [] set u = sym (earned-none min fix)
  runs-drafts_of category fix ((other, group) ∷ groups) set u =
      any_draft-append (runs category fix) (draft_of lower min other group)
        (drafts_of lower min groups)
      ∙ (elim (Bool-cases (str_eq other category)) [
        | inl e ↦
            let none_left =
              runs-drafts_of category fix groups set u.1
              ∙ ap (earned min fix) (tail-absent category other groups e u.0)
              ∙ earned-none min fix in
            ground (arith, none_left, runs-same category other fix group set e)
            ∙ ap (earned min fix) (sym (members-head category other group groups e))
        | inr e ↦
            rw (e, runs-other category other fix group e)
              (runs-drafts_of category fix groups set u.1)
      ])
