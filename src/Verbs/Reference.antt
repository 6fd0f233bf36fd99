-- ===== src/Verbs/Reference.antt =====
-- verbs.py: how a reference that an operator types is resolved, and how a duration is read.
-- `is_digit` is `str.isdigit` of a character.
use Prim.Native.String.{String}
use text.Mathlib.Text.{starts_with}
use steadystate_ai.Prelude.{
  ℕ, zero, suc, ◌*◌, Bool, not, ◌&&◌, Option, none, some, [], ◌∷◌, str_eq, find, keep, all,
  is_empty, leb, ltb, length, if◌then◌else◌,
}
use steadystate_ai.Prelude.Texts.{Text, codes, strip}
use steadystate_ai.State.Findings.{Finding, Findings, get}
use steadystate_ai.State.Pending.{PendingAction, Actions}
use steadystate_ai.State.Listing.{find_by_prefix, all_pending}
use steadystate_ai.Scan.Window.{
  Window, seconds, unrecognized, raised, split_last, unit_seconds, int_of, longest,
}

-- Why a reference is refused, with the number of candidates.
pub data Complaint : Type 0 where
  nothing_awaits : Complaint
  say_which : ℕ → Complaint
  no_such_number : ℕ → Complaint
  no_match : Complaint
  ambiguous : ℕ → Complaint

-- A fingerprint, a message, or the `ValueError` of `int`.
pub data Resolved : Type 0 where
  found : String → Resolved
  refused : Complaint → Resolved
  crashed : Resolved

-- `rows[n - 1]` within the bounds
abbrev pub numbered : ℕ → Actions → Option PendingAction
numbered zero rows = none
numbered (suc n) [] = none
numbered (suc zero) (r ∷ rows) = some r
numbered (suc (suc n)) (r ∷ rows) = numbered (suc n) rows

abbrev pub sole_pending : Actions → Resolved
sole_pending [] = refused nothing_awaits
sole_pending (r ∷ []) = found r.fingerprint
sole_pending (r ∷ s ∷ rows) = refused (say_which (length (r ∷ s ∷ rows)))

abbrev pub by_number : Actions → Option ℕ → Resolved
by_number rows none = crashed
by_number rows (some n) = elim (numbered n rows) [
  | none ↦ refused (no_such_number (length rows))
  | some r ↦ found r.fingerprint
]

abbrev pub sole_match : Actions → Resolved
sole_match [] = refused no_match
sole_match (r ∷ []) = found r.fingerprint
sole_match (r ∷ s ∷ rows) = refused (ambiguous (length (r ∷ s ∷ rows)))

abbrev pub exact_or_prefix : Option PendingAction → Actions → Resolved
exact_or_prefix (some r) prefixed = found r.fingerprint
exact_or_prefix none prefixed = sole_match prefixed

module _ (lower : Text → Text) (is_digit : ℕ → Bool) (digit : ℕ → Option ℕ) where
  abbrev pub is_number : Text → Bool
  is_number s = not (is_empty s) && all is_digit s

  unfoldable pub resolve_listed : Actions → String → Resolved
  unfolding int_of
  resolve_listed rows token =
      if is_empty rows
      then refused nothing_awaits
      else if str_eq token ""
      then sole_pending rows
      else if is_number (codes token)
      then by_number rows (int_of lower is_digit digit 0 (codes token))
      else exact_or_prefix (find (λ (r : PendingAction). str_eq r.fingerprint token) rows)
          (keep (λ (r : PendingAction). starts_with r.fingerprint token) rows)

  -- `_resolve_pending`
  unfoldable pub resolve_pending : Actions → String → Resolved
  unfolding resolve_listed all_pending
  resolve_pending rows token = resolve_listed (all_pending rows) token

  -- `timedelta` of a positive number of units, which may be out of its range
  abbrev pub positive : ℕ → Option ℕ → Window
  positive unit none = raised
  positive unit (some n) =
      if not (ltb 0 n)
      then unrecognized
      else if leb (n * unit) longest
      then seconds (n * unit)
      else raised

  abbrev pub counted : ℕ → Text → Window
  counted unit s =
      if is_number s then positive unit (int_of lower is_digit digit 0 s) else unrecognized

  abbrev pub with_unit : Text → Text → Option ℕ → Window
  with_unit head s (some unit) = counted unit head
  with_unit head s none = counted 86400 s

  -- `_parse_duration`
  unfoldable pub parse_duration : Text → Window
  unfolding strip int_of
  parse_duration raw =
      let s = lower (strip raw) in
      elim (split_last s) [
        | none ↦ unrecognized
        | some (head, last) ↦ with_unit head s (unit_seconds last)
      ]

-- `_resolve_mute_target`
abbrev pub sole_or_token : String → Findings → Resolved
sole_or_token token [] = found token
sole_or_token token (f ∷ []) = found f.fingerprint
sole_or_token token (f ∷ g ∷ rows) = refused (ambiguous (length (f ∷ g ∷ rows)))

abbrev pub known_or_prefix : Option Finding → String → Findings → Resolved
known_or_prefix (some f) token matches = found token
known_or_prefix none token matches = sole_or_token token matches

unfoldable pub resolve_mute_target : Findings → String → Resolved
unfolding get find_by_prefix
resolve_mute_target rows token = known_or_prefix (get rows token) token (find_by_prefix rows token)

-- `_lookup_finding`: the finding, or why there is none
pub data Looked : Type 0 where
  finding_found : Finding → Looked
  not_found : Complaint → Looked

abbrev pub sole_finding : Findings → Looked
sole_finding [] = not_found no_match
sole_finding (f ∷ []) = finding_found f
sole_finding (f ∷ g ∷ rows) = not_found (ambiguous (length (f ∷ g ∷ rows)))

abbrev pub known_or_sole : Option Finding → Findings → Looked
known_or_sole (some f) matches = finding_found f
known_or_sole none matches = sole_finding matches

unfoldable pub lookup_finding : Findings → String → Looked
unfolding get find_by_prefix
lookup_finding rows token = known_or_sole (get rows token) (find_by_prefix rows token)
