-- ===== src/Act/Learn/Earned.antt =====
-- Which drafts the learner proposes (promotable_solutions of src/steadystate/act/learn.py).
use steadystate_ai.Prelude.{
  ◌≡◌, refl, ◌∙◌, ap, inl, inr, ℕ, suc, Bool, true, false, not, ◌&&◌, ◌||◌, List, [], ◌∷◌, String,
  str_eq, any, all, map, keep, length, leb, eq_iff, Bool-cases, if◌then◌else◌,
}
use steadystate_ai.Prelude.Rows.{Unique}
use steadystate_ai.Prelude.Dicts.{lookup}
use steadystate_ai.Prelude.Sorting.{any-sort}
use steadystate_ai.State.Findings.{Finding, Findings, is_resolved}
use steadystate_ai.Act.Reflex.{field}
use steadystate_ai.Act.Learn.{
  Demonstration, or_empty, demonstration, gather_demonstrations, members, group_from, leb_name,
  drafts_of, promotable_solutions,
}
use steadystate_ai.Act.Learn.Fixes.{recorded, agrees}
use steadystate_ai.Act.Learn.Groups.{
  runs, earned, earned-none, members-group_from, group_from-Unique, runs-drafts_of,
}

-- What a finding shows of a category: somebody else resolved it.
abbrev pub shows : List String → String → Finding → Bool
shows acted category f =
    is_resolved f.status
    && not (any (str_eq f.fingerprint) acted)
    && str_eq (or_empty (field f.details "category")) category

-- One round of the gathering, with what it reads of the finding made variables.
gathered-one :
    (r a : Bool) (found category : String) (f : Finding) (rest : List Demonstration)
    → str_eq category "" ≡ false
    → keep
        (λ d. str_eq d.category category)
        (if not r || a
          then rest
          else if str_eq found ""
          then rest
          else demonstration found f ∷ rest)
      ≡ (let kept = keep (λ d. str_eq d.category category) rest in
          if r && not a && str_eq found category then demonstration category f ∷ kept else kept)
gathered-one false a found category f rest set = refl
gathered-one true true found category f rest set = refl
gathered-one true false found category f rest set = elim (Bool-cases (str_eq found category)) [
  | inl e ↦
      let same = (eq_iff found category).0 e in
      rw (ap (λ k. str_eq k "") same ∙ set, e)
        (ap (λ k. demonstration k f ∷ keep (λ d. str_eq d.category category) rest) same)
  | inr e ↦ elim (Bool-cases (str_eq found "")) [
    | inl blank ↦ rw (blank, e) refl
    | inr filled ↦ rw (filled, e) refl
  ]
]

-- The demonstrations of a category, as findings.
gathered :
    (category : String) (findings : Findings) (acted : List String)
    → str_eq category "" ≡ false
    → keep (λ d. str_eq d.category category) (gather_demonstrations findings acted)
      ≡ map (demonstration category) (keep (shows acted category) findings)
unfolding gather_demonstrations
gathered category [] acted set = refl
gathered category (f ∷ findings) acted set =
    gathered-one (is_resolved f.status) (any (str_eq f.fingerprint) acted)
      (or_empty (field f.details "category")) category f (gather_demonstrations findings acted) set
    ∙ (elim (Bool-cases (shows acted category f)) [
      | inl e ↦
          rw e (ap (λ ds. demonstration category f ∷ ds) (gathered category findings acted set))
      | inr e ↦ rw e (gathered category findings acted set)
    ])

unskipped :
    (category : String) (skip : List String) (demos : List Demonstration)
    → keep (λ d. str_eq d.category category) (keep (λ d. not (any (str_eq d.category) skip)) demos)
      ≡ (if any (str_eq category) skip then [] else keep (λ d. str_eq d.category category) demos)
unskipped category skip [] = elim (Bool-cases (any (str_eq category) skip)) [
  | inl h ↦ rw h refl
  | inr h ↦ rw h refl
]
unskipped category skip (d ∷ demos) =
    let ih = unskipped category skip demos in
    elim (Bool-cases (str_eq d.category category)) [
      | inl e ↦
          let same = ap (λ k. any (str_eq k) skip) ((eq_iff d.category category).0 e) in
          (elim (Bool-cases (any (str_eq category) skip)) [
            | inl h ↦ rw (same ∙ h, h) (ih ∙ rw h refl)
            | inr h ↦ rw (same ∙ h, e, h) (ap (λ ds. d ∷ ds) (ih ∙ rw h refl))
          ])
      | inr e ↦ (elim (Bool-cases (any (str_eq d.category) skip)) [
        | inl h ↦ rw (h, e) ih
        | inr h ↦ rw (h, e) ih
      ])
    ]

-- The note that an operator left at a finding, where one did.
abbrev pub noted : String → Finding → Bool
noted fix f = str_eq (or_empty f.note) fix

abbrev pub unnoted_or : String → Finding → Bool
unnoted_or fix f = str_eq (or_empty f.note) "" || str_eq (or_empty f.note) fix

length-demonstrations :
    (category : String) (findings : Findings)
    → length (map (demonstration category) findings) ≡ length findings
length-demonstrations category [] = refl
length-demonstrations category (f ∷ findings) = ap suc (length-demonstrations category findings)

any-demonstrations :
    (category fix : String) (findings : Findings)
    → any (recorded fix) (map (demonstration category) findings) ≡ any (noted fix) findings
any-demonstrations category fix [] = refl
any-demonstrations category fix (f ∷ findings) =
    ap (λ b. noted fix f || b) (any-demonstrations category fix findings)

all-demonstrations :
    (category fix : String) (findings : Findings)
    → all (agrees fix) (map (demonstration category) findings) ≡ all (unnoted_or fix) findings
all-demonstrations category fix [] = refl
all-demonstrations category fix (f ∷ findings) =
    ap (λ b. unnoted_or fix f && b) (all-demonstrations category fix findings)

earned-skipped :
    (min : ℕ) (fix : String) (skipped : Bool) (group : List Demonstration)
    → earned min fix (if skipped then [] else group) ≡ (not skipped && earned min fix group)
earned-skipped min fix true group = earned-none min fix
earned-skipped min fix false group = refl

-- A draft is proposed for a category and a fix exactly where the runbook has no solution of that
-- category, at least the least number of its findings were resolved by somebody else, the fix is recorded
-- at one of them, and no other fix at any. Both texts are not empty.
pub promotable_solutions-earned_iff :
    (lower : String → String) (findings : Findings) (acted skip : List String) (min : ℕ)
    (category fix : String)
    → str_eq category "" ≡ false
    → str_eq fix "" ≡ false
    → let shown = keep (shows acted category) findings in
      any
        (λ d. str_eq d.category category && str_eq d.run fix)
        (promotable_solutions lower findings acted skip min)
      ≡ (not (any (str_eq category) skip)
          && (leb min (length shown) && any (noted fix) shown && all (unnoted_or fix) shown))
unfolding promotable_solutions members lookup Unique
promotable_solutions-earned_iff lower findings acted skip min category fix named set =
    let demos = gather_demonstrations findings acted in
    let wanted = keep (λ d. not (any (str_eq d.category) skip)) demos in
    let shown = keep (shows acted category) findings in
    any-sort leb_name (runs category fix) (drafts_of lower min (group_from [] wanted))
    ∙ runs-drafts_of lower min category fix (group_from [] wanted) set
        (group_from-Unique [] wanted tt)
    ∙ ap (earned min fix) (members-group_from category [] wanted ∙ unskipped category skip demos)
    ∙ earned-skipped min fix (any (str_eq category) skip)
        (keep (λ d. str_eq d.category category) demos)
    ∙ ap (λ g. not (any (str_eq category) skip) && earned min fix g)
        (gathered category findings acted named)
    ∙ rw
        (
          length-demonstrations category shown,
          any-demonstrations category fix shown,
          all-demonstrations category fix shown,
        )
        refl
