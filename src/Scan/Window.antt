-- ===== src/Scan/Window.antt =====
-- `resolve_grace` (reconcile_state.py): the window of absence, in seconds. `str.lower`, `str.isdigit` of
-- a character and the value of a decimal digit are arguments.
use steadystate_ai.Prelude.{
  ℕ, ◌+◌, ◌*◌, ◌==◌, Bool, not, ◌&&◌, Option, none, some, [], ◌∷◌, leb, all, is_empty,
  if◌then◌else◌,
}
use steadystate_ai.Prelude.Texts.{Text, strip}

-- What parsing gives: a duration, no duration, or an exception of `int` or `timedelta`.
pub data Window : Type 0 where
  seconds : ℕ → Window
  unrecognized raised : Window

-- DEFAULT_RESOLVE_GRACE
abbrev pub default_resolve_grace : Window
default_resolve_grace = seconds 1800

-- `text[:-1]` and `text[-1]`
abbrev pub split_last : Text → Option (Text × ℕ)
split_last [] = none
split_last (c ∷ s) = elim (split_last s) [
  | none ↦ some ([], c)
  | some (head, last) ↦ some (c ∷ head, last)
]

-- The seconds of the units s, m, h, d and w.
abbrev pub unit_seconds : ℕ → Option ℕ
unit_seconds c =
    if c == 115
    then some 1
    else if c == 109
    then some 60
    else if c == 104
    then some 3600
    else if c == 100
    then some 86400
    else if c == 119
    then some 604800
    else none

-- `timedelta.max`, below which a day more is an `OverflowError`
abbrev pub longest : ℕ
longest = 86399999999999

module _ (lower : Text → Text) (is_digit : ℕ → Bool) (digit : ℕ → Option ℕ) where
  -- `int` of a text of digits; some characters are digits for `isdigit` and not for `int`.
  unfoldable pub int_of : ℕ → Text → Option ℕ
  int_of n [] = some n
  int_of n (c ∷ s) = elim (digit c) [ none ↦ none | some d ↦ int_of (n * 10 + d) s ]

  -- `timedelta(unit=int(text)) if text.isdigit() else None`
  unfoldable pub duration : ℕ → Text → Window
  unfolding int_of
  duration unit s =
      if not (is_empty s) && all is_digit s
      then (elim (int_of 0 s) [
        | none ↦ raised
        | some n ↦ if leb (n * unit) longest then seconds (n * unit) else raised
      ])
      else unrecognized

  abbrev with_unit : Text → Option ℕ → Text → Window
  with_unit head (some unit) s = duration unit head
  with_unit head none s = duration 60 s

  -- `_parse_window`
  unfoldable pub parse_window : Text → Window
  unfolding strip duration
  parse_window raw =
      let s = lower (strip raw) in
      elim (split_last s) [
        | none ↦ unrecognized
        | some (head, last) ↦ with_unit head (unit_seconds last) s
      ]

  abbrev or_default : Window → Window
  or_default unrecognized = default_resolve_grace
  or_default w = w

  -- `resolve_grace`, of the argument or else the setting
  unfoldable pub resolve_grace : Option Text → Window
  unfolding parse_window
  resolve_grace none = default_resolve_grace
  resolve_grace (some raw) = or_default (parse_window raw)
