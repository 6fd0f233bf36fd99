-- ===== src/Inbound/Grammar/Shaped.antt =====
-- What a command that was read carries (command_from_text of src/steadystate/inbound/base.py).
use mathlib.Core.List.{Memᴰ}
use steadystate_ai.Prelude.{
  ◌≡◌, ◌⊎◌, eq_iff, refl, ◌∙◌, sym, ap, inl, inr, Bool, true, false, not, ◌&&◌, Option, none, some,
  List, [], ◌∷◌, String, str_eq, arith, is_some, is_empty, All, Bool-cases, if◌then◌else◌,
}
use steadystate_ai.Prelude.Strings.{words, distinct, join}
use steadystate_ai.Prelude.Words.{IsWord, words-IsWord}
use steadystate_ai.Inbound.Grammar.Echo.{IsWord-not_blank, join-not_blank}
use steadystate_ai.Inbound.Grammar.{
  Verb, analyze, add_check, add_solution, tool_args, Form, question, pairs, two, one, filter,
  optional, optional_two, bare, form, Command, flag_named, is_alias, read_verb, last, flags_of,
  args_of, typed, with_two, with_one, with_pairs, read_form, or_later, at_token, read_tokens,
  command_from_text,
}

abbrev pub given : String → Bool
given s = not (str_eq s "")

-- Whether a command carries what its branch of the grammar requires; the last branch carries nothing.
abbrev pub carries : Form → Command → Bool
carries question c = given c.argument
carries pairs c = given c.argument
carries two c = given c.argument && given c.argument2
carries one c = given c.argument
carries bare c = str_eq c.argument ""
carries filter c = true
carries optional c = true
carries optional_two c = true

-- Whether each argument that is declared as required is there, in the order of the declaration.
abbrev pub supplied : List (String × Bool) → List String → Bool
supplied [] texts = true
supplied (declared ∷ more) [] = if declared.1 then false else supplied more []
supplied (declared ∷ more) (s ∷ texts) =
    if declared.1 && str_eq s "" then false else supplied more texts

-- The verbs that declare a required argument and stand in the branch without one.
abbrev pub dropped : List Verb
dropped = analyze ∷ add_check ∷ add_solution ∷ []

carries-supplied :
    (v : Verb) (c : Command)
    → carries (form v) c ≡ true
    → (supplied (tool_args v) (c.argument ∷ c.argument2 ∷ []) ≡ true)
      ⊎ (Memᴰ v dropped × (c.argument ≡ ""))
carries-supplied analyze c h = inr (Memᴰ.head refl, (eq_iff c.argument "").0 h)
carries-supplied add_check c h = inr (Memᴰ.tail (Memᴰ.head refl), (eq_iff c.argument "").0 h)
carries-supplied add_solution c h =
    inr (Memᴰ.tail (Memᴰ.tail (Memᴰ.head refl)), (eq_iff c.argument "").0 h)
carries-supplied v c h = inl (ground (arith, h))

abbrev carried : Option Command → Bool
carried none = true
carried (some c) = carries (form c.verb) c

word-given : (s : String) → IsWord s → given s ≡ true
word-given s h = ap not (IsWord-not_blank s h)

last-given : (a : String) (args : List String) → All IsWord (a ∷ args) → given (last a args) ≡ true
last-given a [] h = word-given a h.0
last-given a (b ∷ args) h = last-given b args h.1

module _ (lower : String → String) (actor : String) where
  args_of-IsWord : (rest : List String) → All IsWord rest → All IsWord (args_of lower actor rest)
  args_of-IsWord [] h = tt
  args_of-IsWord (t ∷ rest) h = elim (Bool-cases (is_some (flag_named (lower t)))) [
    | inl e ↦ rw e (args_of-IsWord rest h.1)
    | inr e ↦ rw e (h.0, args_of-IsWord rest h.1)
  ]

  join-carried :
      (v : Verb) (f : Form) (rest : List String)
      → form v ≡ f
      → All IsWord rest
      → ((c : Command) → given c.argument ≡ true → carries f c ≡ true)
      → carried (if is_empty rest then none else some (typed lower actor v (join " " rest) [] ""))
        ≡ true
  join-carried v f [] e h k = refl
  join-carried v f (t ∷ rest) e h k = rw e (k _ (ap not (join-not_blank t rest h)))

  pairs-carried :
      (v : Verb) (rest : List String)
      → form v ≡ pairs
      → All IsWord rest
      → carried (with_pairs lower actor v rest) ≡ true
  pairs-carried v [] e h = refl
  pairs-carried v (t ∷ rest) e h = rw e (word-given t h.0)

  two-carried :
      (v : Verb) (flags args : List String)
      → form v ≡ two
      → All IsWord args
      → carried (with_two lower actor v flags args) ≡ true
  two-carried v flags [] e h = refl
  two-carried v flags (a ∷ []) e h = refl
  two-carried v flags (a ∷ b ∷ args) e h =
      rw e (ground (arith, word-given a h.0, last-given b args h.1))

  one-carried :
      (v : Verb) (alias : Bool) (flags args : List String)
      → form v ≡ one
      → All IsWord args
      → carried (with_one lower actor v alias flags args) ≡ true
  one-carried v true flags [] e h = rw e refl
  one-carried v false flags [] e h = refl
  one-carried v alias flags (a ∷ args) e h = rw e (word-given a h.0)

  read_form-carried :
      (f : Form) (v : Verb) (alias : Bool) (rest : List String)
      → form v ≡ f
      → All IsWord rest
      → carried (read_form lower actor f v alias rest) ≡ true
  read_form-carried question v alias rest e h = join-carried v question rest e h (λ c g. g)
  read_form-carried pairs v alias rest e h = pairs-carried v rest e h
  read_form-carried two v alias rest e h =
      two-carried v (distinct (flags_of lower actor rest)) (args_of lower actor rest) e
        (args_of-IsWord rest h)
  read_form-carried one v alias rest e h =
      one-carried v alias (distinct (flags_of lower actor rest)) (args_of lower actor rest) e
        (args_of-IsWord rest h)
  read_form-carried filter v alias rest e h = rw e refl
  read_form-carried optional v alias rest e h = rw e refl
  read_form-carried optional_two v alias rest e h = rw e refl
  read_form-carried bare v alias rest e h = rw e refl

  or_later-carried :
      (o later : Option Command)
      → carried o ≡ true
      → carried later ≡ true
      → carried (or_later lower actor o later) ≡ true
  or_later-carried none later p q = q
  or_later-carried (some c) later p q = p

  at_token-carried :
      (low : String) (rest : List String) (o : Option Verb) (later : Option Command)
      → All IsWord rest
      → carried later ≡ true
      → carried (at_token lower actor low rest o later) ≡ true
  at_token-carried low rest none later h q = q
  at_token-carried low rest (some v) later h q =
      or_later-carried (read_form lower actor (form v) v (is_alias low) rest) later
        (read_form-carried (form v) v (is_alias low) rest refl h) q

  read_tokens-carried :
      (tokens : List String) → All IsWord tokens → carried (read_tokens lower actor tokens) ≡ true
  unfolding read_tokens
  read_tokens-carried [] h = refl
  read_tokens-carried (t ∷ rest) h =
      at_token-carried (lower t) rest (read_verb (lower t)) (read_tokens lower actor rest) h.1
        (read_tokens-carried rest h.1)

  -- A command that was read from a text carries, non-empty, every argument that the catalogue of the
  -- tools declares as required of its verb; except for `analyze`, `add-check` and `add-solution`,
  -- whose required argument is never read.
  pub command_from_text-carries :
      (text : String) (c : Command)
      → command_from_text lower actor text ≡ some c
      → (supplied (tool_args c.verb) (c.argument ∷ c.argument2 ∷ []) ≡ true)
        ⊎ (Memᴰ c.verb dropped × (c.argument ≡ ""))
  unfolding command_from_text
  command_from_text-carries text c h =
      carries-supplied c.verb c
        (sym (ap carried h) ∙ read_tokens-carried (words text) (words-IsWord text))
