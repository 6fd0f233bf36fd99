-- ===== src/Inbound/Translate.antt =====
-- inbound/translate.py: a free text is a typed command, or it is put to a language model, which may name
-- one verb. What the model answers, with the prompt and the ledger of its cost, is outside the model: a
-- `ModelReply` is what the checks behind the JSON parser see.
use Prim.Native.String.{String}
use steadystate_ai.Prelude.{
  ℕ, Bool, true, false, not, ◌&&◌, ◌||◌, Option, none, some, List, [], ◌∷◌, str_eq, all, keep, leb,
  length, if◌then◌else◌,
}
use steadystate_ai.Prelude.Texts.{codes}
use steadystate_ai.Prelude.Strings.{join, distinct, words, strip_text}
use steadystate_ai.Inbound.Grammar.{
  Verb, ask, run, show, fix, mute, unmute, snooze, send, approve, decline, verb_text, verb_named,
  Effect, tool_effect, is_read_only, Command, typed, command_from_text,
}

abbrev pub is_blank : String → Bool
is_blank s = str_eq s ""

abbrev pub is_hex : ℕ → Bool
is_hex c = (leb 48 c && leb c 57) || (leb 97 c && leb c 102)

-- `_FINGERPRINT_ARG_VERBS`
abbrev pub takes_fingerprint : Verb → Bool
takes_fingerprint show = true
takes_fingerprint fix = true
takes_fingerprint mute = true
takes_fingerprint unmute = true
takes_fingerprint snooze = true
takes_fingerprint send = true
takes_fingerprint _ = false

-- `_OPTIONAL_FINGERPRINT_VERBS`
abbrev pub may_take_fingerprint : Verb → Bool
may_take_fingerprint approve = true
may_take_fingerprint decline = true
may_take_fingerprint _ = false

abbrev pub is_run : Verb → Bool
is_run run = true
is_run _ = false

abbrev pub is_ask : Verb → Bool
is_ask ask = true
is_ask _ = false

-- What the model answered: nothing, no JSON object or an empty one, or an object. A field is `none` where it is not of
-- the type asked for.
pub record ModelObject : Type 0 where
  pub verb : Option String
  pub clarify : Option String
  pub answer : Option String
  pub argument : Option String
  pub argument2 : Option String
  pub flags : Option (List String)

pub data ModelReply : Type 0 where
  no_reply no_object : ModelReply
  object : ModelObject → ModelReply

pub data NlMessage : Type 0 where
  unreachable not_parsed unmapped : NlMessage
  told : String → NlMessage
  confirm : String → Effect → NlMessage

-- `NLResult`: a command to run with its canonical form, or a message to show
pub data NlResult : Type 0 where
  to_run : Command → String → NlResult
  to_say : NlMessage → NlResult

abbrev pub stripped : Option String → String
stripped none = ""
stripped (some s) = strip_text s

-- `" ".join(p for p in [verb, argument, argument2] if p)`
unfoldable pub canonical : Verb → String → String → String
unfolding join
canonical v argument argument2 =
    join " " (keep (λ p. not (is_blank p)) (verb_text v ∷ argument ∷ argument2 ∷ []))

abbrev pub flag_set : Option (List String) → List String
flag_set none = []
flag_set (some flags) = distinct flags

abbrev pub reference_of : Command → String
reference_of c = if is_run c.verb then c.argument2 else c.argument

abbrev pub is_guarded : Command → Bool
is_guarded c =
    takes_fingerprint c.verb
    || is_run c.verb
    || (may_take_fingerprint c.verb && not (is_blank c.argument))

-- The reply where the object names no verb.
abbrev pub say_other : ModelObject → NlMessage
say_other o =
    if not (is_blank (stripped o.clarify))
    then told (stripped o.clarify)
    else if not (is_blank (stripped o.answer))
    then told (stripped o.answer)
    else unmapped

abbrev pub verb_of : Option String → Option Verb
unfolding verb_named
verb_of none = none
verb_of (some name) = verb_named name

-- `lower` and `is_digits` are Python's `str.lower` and `str.isdigit`.
module _ (lower : String → String) (is_digits : String → Bool) where
  unfoldable pub reference_shaped : String → Bool
  reference_shaped arg =
      let low = lower arg in is_digits low || (leb 4 (length (codes low)) && all is_hex (codes low))

module _ (lower : String → String) (is_digits : String → Bool) (actor : String) where
  abbrev pub leads_with_ask : List String → Bool
  leads_with_ask [] = false
  leads_with_ask (t ∷ tokens) = str_eq (lower t) "ask"

  unfoldable pub confident : String → Command → Bool
  unfolding reference_shaped words
  confident text c =
      not (is_ask c.verb && not (leads_with_ask (words text)))
      && not (is_guarded c && not (reference_shaped lower is_digits (reference_of c)))

  abbrev pub if_confident : String → Option Command → Option Command
  if_confident text none = none
  if_confident text (some c) = if confident text c then some c else none

  unfoldable pub confident_command : String → Option Command
  unfolding confident command_from_text
  confident_command text = if_confident text (command_from_text lower actor text)

  abbrev pub use_verb : ModelObject → Verb → NlResult
  use_verb o v =
      let argument = stripped o.argument in
      let argument2 = stripped o.argument2 in
      if is_read_only (tool_effect v)
      then to_run (typed lower actor v argument (flag_set o.flags) argument2)
          (canonical v argument argument2)
      else to_say (confirm (canonical v argument argument2) (tool_effect v))

  abbrev pub use_named : ModelObject → Option Verb → NlResult
  use_named o none = to_say (say_other o)
  use_named o (some v) = use_verb o v

  -- `nl_to_command`, from the model's reply on
  unfoldable pub nl_to_command : ModelReply → NlResult
  unfolding verb_named canonical distinct strip_text
  nl_to_command no_reply = to_say unreachable
  nl_to_command no_object = to_say not_parsed
  nl_to_command (object o) = use_named o (verb_of o.verb)
