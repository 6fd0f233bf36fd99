-- ===== src/Act/Learn.antt =====
-- act/learn.py: the findings that somebody else resolved, and the drafts of solutions that they give; the
-- lessons are outside the model. `lower` is Python's `str.lower`.
pub mod Fixes
pub mod Groups
pub mod Earned
use Prim.Native.Char.{Char, code}
use Prim.Native.String.{◌++◌ as ◌<>◌}
use mathlib.Core.List.{reverse}
use steadystate_ai.Prelude.{
  ℕ, ◌-◌, Bool, true, false, not, ◌&&◌, ◌||◌, Option, none, some, List, [], ◌∷◌, ◌++◌, String,
  str_eq, any, keep, length, leb, ltb, if◌then◌else◌,
}
use steadystate_ai.Prelude.Dicts.{put, lookup}
use steadystate_ai.Prelude.Sorting.{text_leb, sort}
use steadystate_ai.Prelude.Strings.{join, decimal}
use steadystate_ai.State.Findings.{Instant, Finding, Findings, is_resolved}
use steadystate_ai.Act.Reflex.{field}

pub record Demonstration : Type 0 where
  pub fingerprint : String
  pub category : String
  pub identity : String
  pub namespace : String
  pub cluster : String
  pub open_seconds : ℕ
  pub solution : String

abbrev pub or_empty : Option String → String
or_empty none = ""
or_empty (some s) = s

-- `_open_seconds`
abbrev pub open_seconds : Instant → Instant → ℕ
open_seconds first_seen last_seen = last_seen - first_seen

abbrev pub or_title : Option String → String → String
or_title none title = title
or_title (some s) title = s

abbrev pub demonstration : String → Finding → Demonstration
demonstration category f = record {
  fingerprint = f.fingerprint;
  category = category;
  identity = or_title (field f.details "workload") f.last_title;
  namespace = or_empty (field f.details "namespace");
  cluster = or_empty (field f.details "cluster");
  open_seconds = open_seconds f.first_seen f.last_seen;
  solution = or_empty f.note;
}

-- One round of the loop of `gather_demonstrations`.
abbrev pub demonstrate : List String → Finding → List Demonstration → List Demonstration
demonstrate acted f rest =
    if not (is_resolved f.status) || any (str_eq f.fingerprint) acted
    then rest
    else if str_eq (or_empty (field f.details "category")) ""
    then rest
    else demonstration (or_empty (field f.details "category")) f ∷ rest

-- `gather_demonstrations`
unfoldable pub gather_demonstrations : Findings → List String → List Demonstration
gather_demonstrations [] acted = []
gather_demonstrations (f ∷ findings) acted =
    demonstrate acted f (gather_demonstrations findings acted)

abbrev pub Groups : Type 0
Groups = List (String × List Demonstration)

-- `by_category[category]`
abbrev pub members_or : Option (List Demonstration) → List Demonstration
members_or none = []
members_or (some group) = group

unfoldable pub members : String → Groups → List Demonstration
unfolding lookup
members category groups = members_or (lookup category groups)

-- The loop that fills `by_category`.
unfoldable pub group_from : Groups → List Demonstration → Groups
unfolding members put
group_from groups [] = groups
group_from groups (d ∷ demos) =
    group_from (put d.category (members d.category groups ++ (d ∷ [])) groups) demos

-- One round of the loop of `_distinct_fixes`.
abbrev pub add_fix : String → List String → List String
add_fix fix fixes =
    if not (str_eq fix "") && not (any (str_eq fix) fixes) then fixes ++ (fix ∷ []) else fixes

unfoldable pub add_fixes : List String → List Demonstration → List String
add_fixes fixes [] = fixes
add_fixes fixes (d ∷ demos) = add_fixes (add_fix d.solution fixes) demos

-- `_distinct_fixes`
unfoldable pub distinct_fixes : List Demonstration → List String
unfolding add_fixes
distinct_fixes group = add_fixes [] (reverse group)

-- An entry of the runbook, as `_draft_solution` proposes it; its kind is a command, and both of its levels
-- are medium.
pub record Draft : Type 0 where
  pub name : String
  pub category : String
  pub problem : String
  pub run : String

-- The ASCII letters and digits: 48 to 57, 65 to 90, 97 to 122.
abbrev pub within : ℕ → ℕ → Char → Bool
within low high c = leb low (code c) && leb (code c) high

abbrev pub is_small : Char → Bool
is_small c = within 97 122 c || within 48 57 c

-- The first `re.sub` of `_slug`: a dash between a small letter or digit and a capital.
unfoldable pub spaced : Bool → String → String
spaced after_small String.[] = ""
spaced after_small (String.◌∷◌ c s) =
    let rest = String.◌∷◌ c (spaced (is_small c) s) in
    if after_small && within 65 90 c then "-" <> rest else rest

-- The second, with its `strip`: what is not a small letter or digit separates the words.
unfoldable pub slug_words : String → String × List String
slug_words String.[] = ("", [])
slug_words (String.◌∷◌ c s) =
    let (w, ws) = slug_words s in
    if is_small c then (String.◌∷◌ c w, ws) else ("", if str_eq w "" then ws else w ∷ ws)

abbrev pub slug_of : String × List String → String
slug_of (w, ws) =
    let name = join "-" (if str_eq w "" then ws else w ∷ ws) in
    if str_eq name "" then "fix" else name

abbrev pub leb_name : Draft → Draft → Bool
leb_name a b = text_leb a.name b.name

-- Whether `fixes` is one fix.
abbrev pub sole_fix : List String → Option String
sole_fix (fix ∷ []) = some fix
sole_fix _ = none

module _ (lower : String → String) where
  -- `_slug`
  unfoldable pub slug : String → String
  unfolding spaced slug_words join
  slug text = slug_of (slug_words (lower (spaced false text)))

  -- `_draft_solution`
  unfoldable pub draft_solution : String → String → ℕ → Draft
  unfolding slug decimal
  draft_solution category fix occurrences = record {
    name = slug category <> "-fix";
    category = category;
    problem =
        category
        <> (" recurred " <> (decimal occurrences <> "x; this recorded fix resolved it each time."));
    run = fix;
  }

  abbrev pub draft_from : String → ℕ → Option String → List Draft
  draft_from category occurrences none = []
  draft_from category occurrences (some fix) = draft_solution category fix occurrences ∷ []

  -- One round of the second loop of `promotable_solutions`.
  unfoldable pub draft_of : ℕ → String → List Demonstration → List Draft
  unfolding distinct_fixes draft_solution
  draft_of min_occurrences category group =
      if ltb (length group) min_occurrences
      then []
      else draft_from category (length group) (sole_fix (distinct_fixes group))

  unfoldable pub drafts_of : ℕ → Groups → List Draft
  unfolding draft_of
  drafts_of min_occurrences [] = []
  drafts_of min_occurrences ((category, group) ∷ groups) =
      draft_of min_occurrences category group ++ drafts_of min_occurrences groups

  -- `promotable_solutions`
  unfoldable pub promotable_solutions : Findings → List String → List String → ℕ → List Draft
  unfolding gather_demonstrations group_from drafts_of sort
  promotable_solutions findings acted skip_categories min_occurrences =
      let demos = gather_demonstrations findings acted in
      let wanted = keep (λ d. not (any (str_eq d.category) skip_categories)) demos in
      sort leb_name (drafts_of min_occurrences (group_from [] wanted))
