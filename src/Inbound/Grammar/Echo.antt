-- ===== src/Inbound/Grammar/Echo.antt =====
-- The command that a listener echoes for confirmation, sent back to it (src/steadystate/inbound/base.py,
-- translate.py).
use Prim.Native.String.{String}
use text.Mathlib.TextEquality.{eq_iff}
use steadystate_ai.Prelude.{
  ◌≡◌, inl, inr, true, false, none, List, [], ◌∷◌, arith, ap, sym, ◌∙◌, Bool-cases, All,
}
use steadystate_ai.Prelude.Strings.{join, words, chunks_text}
use steadystate_ai.Prelude.Words.{is_word, IsWord, words-join}
use steadystate_ai.Inbound.Grammar.{Form, pairs, two, one, optional, optional_two, bare, flag_named}
use steadystate_ai.Inbound.Translate.{is_blank}

is_word-blank : (s : String) → is_blank s ≡ true → is_word s ≡ false
is_word-blank s h = ap is_word ((eq_iff s "").0 h)

pub IsWord-not_blank : (s : String) → IsWord s → is_blank s ≡ false
IsWord-not_blank s h = elim (Bool-cases (is_blank s)) [
  | inl e ↦ absurd (ground (arith, is_word-blank s e, h))
  | inr e ↦ e
]

not_empty : {t : String} {texts : List String} → ¬ (t ∷ texts ≡ [])
not_empty e = cc

pub join-not_blank :
    (t : String) (texts : List String)
    → All IsWord (t ∷ texts)
    → is_blank (join " " (t ∷ texts)) ≡ false
unfolding words chunks_text
join-not_blank t texts h = elim (Bool-cases (is_blank (join " " (t ∷ texts)))) [
  | inl e ↦ absurd (not_empty (sym (words-join (t ∷ texts) h) ∙ ap words ((eq_iff _ "").0 e)))
  | inr e ↦ e
]

module _ (lower : String → String) (actor : String) where
  -- A text is read as an argument where it is one word and names no flag.
  pub record IsArgument (s : String) : Type 0 where
    pub word : IsWord s
    pub no_flag : flag_named (lower s) ≡ none

  -- The arguments that the grammar can carry for a verb.
  pub data Sendable : Form → String → String → Type 0 where
    both : (a b : String) → IsArgument a → IsArgument b → Sendable two a b
    single : (a : String) → IsArgument a → Sendable one a ""
    with_option : (a : String) → IsArgument a → Sendable optional a ""
    without_option : Sendable optional "" ""
    with_token : (a b : String) → IsArgument a → IsArgument b → Sendable optional_two a b
    with_reference : (a : String) → IsArgument a → Sendable optional_two a ""
    without_reference : Sendable optional_two "" ""
    with_inputs :
        (a b : String) (inputs : List String)
        → IsWord a
        → All IsWord inputs
        → b ≡ join " " inputs
        → Sendable pairs a b
    alone : Sendable bare "" ""
