-- ===== src/Inbound/Grammar.antt =====
-- inbound/base.py: the verbs, their effects and arguments, and the grammar of a typed command. A set of
-- flags is a list of different names; `lower` is Python's `str.lower`.
pub mod Names
pub mod Echo
pub mod Shaped
use Prim.Native.String.{String}
use steadystate_ai.Prelude.{
  Bool, true, false, not, ◌||◌, Option, none, some, List, [], ◌∷◌, str_eq, find, keep, is_empty,
  is_some, if◌then◌else◌,
}
use steadystate_ai.Prelude.Strings.{join, distinct, words}

-- The keys of `COMMANDS`
pub data Verb : Type 0 where
  start_here help summary ask targets pending probe cost findings show : Verb
  analyze history hold learn health posture metrics runs dispatch requests : Verb
  request checks solutions smoke add_check add_solution vouch surfaces send mute : Verb
  unmute snooze fix run actions approve decline : Verb

abbrev pub verb_text : Verb → String
verb_text start_here = "start-here"
verb_text help = "help"
verb_text summary = "summary"
verb_text ask = "ask"
verb_text targets = "targets"
verb_text pending = "pending"
verb_text probe = "probe"
verb_text cost = "cost"
verb_text findings = "findings"
verb_text show = "show"
verb_text analyze = "analyze"
verb_text history = "history"
verb_text hold = "hold"
verb_text learn = "learn"
verb_text health = "health"
verb_text posture = "posture"
verb_text metrics = "metrics"
verb_text runs = "runs"
verb_text dispatch = "dispatch"
verb_text requests = "requests"
verb_text request = "request"
verb_text checks = "checks"
verb_text solutions = "solutions"
verb_text smoke = "smoke"
verb_text add_check = "add-check"
verb_text add_solution = "add-solution"
verb_text vouch = "vouch"
verb_text surfaces = "surfaces"
verb_text send = "send"
verb_text mute = "mute"
verb_text unmute = "unmute"
verb_text snooze = "snooze"
verb_text fix = "fix"
verb_text run = "run"
verb_text actions = "actions"
verb_text approve = "approve"
verb_text decline = "decline"

-- `COMMANDS`, in its order
abbrev pub commands : List Verb
commands =
    start_here ∷ help ∷ summary ∷ ask ∷ targets ∷ pending ∷ probe ∷ cost ∷ findings ∷ show ∷ analyze
    ∷ history ∷ hold ∷ learn ∷ health ∷ posture ∷ metrics ∷ runs ∷ dispatch ∷ requests ∷ request
    ∷ checks ∷ solutions ∷ smoke ∷ add_check ∷ add_solution ∷ vouch ∷ surfaces ∷ send ∷ mute
    ∷ unmute ∷ snooze ∷ fix ∷ run ∷ actions ∷ approve ∷ decline ∷ []

-- `name in COMMANDS`
unfoldable pub verb_named : String → Option Verb
verb_named name = find (λ v. str_eq (verb_text v) name) commands

pub data Effect : Type 0 where
  read_only state_write guardrailed_write external_send : Effect

-- `_TOOL_EFFECT`
abbrev pub tool_effect : Verb → Effect
tool_effect dispatch = external_send
tool_effect request = external_send
tool_effect send = external_send
tool_effect add_check = state_write
tool_effect add_solution = state_write
tool_effect vouch = state_write
tool_effect mute = state_write
tool_effect unmute = state_write
tool_effect snooze = state_write
tool_effect decline = state_write
tool_effect fix = guardrailed_write
tool_effect run = guardrailed_write
tool_effect approve = guardrailed_write
tool_effect _ = read_only

abbrev pub is_read_only : Effect → Bool
is_read_only read_only = true
is_read_only _ = false

-- `_TOOL_ARGS`: the names of the arguments, and whether each is required
abbrev pub tool_args : Verb → List (String × Bool)
tool_args ask = ("question", true) ∷ []
tool_args health = ("workload", false) ∷ []
tool_args runs = ("workflow", false) ∷ []
tool_args dispatch = ("workflow", true) ∷ ("inputs", false) ∷ []
tool_args request = ("name", true) ∷ ("params", false) ∷ []
tool_args add_check = ("check", true) ∷ []
tool_args add_solution = ("solution", true) ∷ []
tool_args vouch = ("name", true) ∷ []
tool_args probe = ("target", true) ∷ []
tool_args cost = ("period", false) ∷ []
tool_args findings = ("filter", false) ∷ []
tool_args show = ("fingerprint", true) ∷ []
tool_args analyze = ("fingerprint", true) ∷ []
tool_args send = ("fingerprint", true) ∷ ("surface", true) ∷ []
tool_args fix = ("fingerprint", true) ∷ []
tool_args run = ("action", true) ∷ ("fingerprint", true) ∷ []
tool_args mute = ("fingerprint", true) ∷ []
tool_args unmute = ("fingerprint", true) ∷ []
tool_args snooze = ("fingerprint", true) ∷ ("duration", true) ∷ []
tool_args approve = ("fingerprint", false) ∷ []
tool_args decline = ("fingerprint", false) ∷ []
tool_args _ = []

-- The branches of the grammar: `ask`; `dispatch` and `request`; `_NEEDS_TWO`; `_NEEDS_ARGUMENT`;
-- `findings`; the rest of `_OPTIONAL_ARGUMENT`, where `approve` takes an optional second token; and
-- the verbs that take none.
pub data Form : Type 0 where
  question pairs two one filter optional optional_two bare : Form

abbrev pub form : Verb → Form
form ask = question
form dispatch = pairs
form request = pairs
form send = two
form run = two
form snooze = two
form probe = one
form mute = one
form unmute = one
form show = one
form fix = one
form vouch = one
form findings = filter
form cost = optional
form decline = optional
form runs = optional
form approve = optional_two
form _ = bare

pub record Command : Type 0 where
  pub verb : Verb
  pub actor : String
  pub argument : String
  pub flags : List String
  pub argument2 : String

-- `_FLAG_ALIASES`
unfoldable pub flag_named : String → Option String
flag_named t =
    if str_eq t "unmute" || str_eq t "--unmute"
    then some "unmute"
    else if str_eq t "cost" || str_eq t "--cost"
    then some "cost"
    else if str_eq t "verbose" || str_eq t "--verbose" || str_eq t "-v"
    then some "verbose"
    else if str_eq t "deep" || str_eq t "--deep"
    then some "deep"
    else if str_eq t "json" || str_eq t "--json"
    then some "json"
    else none

-- `_VERB_ALIASES`
abbrev pub is_alias : String → Bool
is_alias low = str_eq low "scan" || str_eq low "refresh"

abbrev pub read_verb : String → Option Verb
read_verb low = if is_alias low then some probe else verb_named low

-- `args[0]` and `args[1]`, or the empty text
abbrev pub first : List String → String
first [] = ""
first (a ∷ args) = a

abbrev pub second : List String → String
second (a ∷ b ∷ args) = b
second _ = ""

-- `args[-1]` behind a first one
abbrev pub last : String → List String → String
last a [] = a
last a (b ∷ args) = last b args

abbrev pub add_flag : Option String → List String → List String
add_flag none flags = flags
add_flag (some f) flags = f ∷ flags

module _ (lower : String → String) (actor : String) where
  abbrev pub flags_of : List String → List String
  flags_of [] = []
  flags_of (t ∷ rest) = add_flag (flag_named (lower t)) (flags_of rest)

  abbrev pub args_of : List String → List String
  args_of rest = keep (λ t. not (is_some (flag_named (lower t)))) rest

  abbrev pub typed : Verb → String → List String → String → Command
  typed v argument flags argument2 = record {
    verb = v;
    actor = actor;
    argument = argument;
    flags = flags;
    argument2 = argument2;
  }

  abbrev pub with_two : Verb → List String → List String → Option Command
  with_two v flags (a ∷ b ∷ args) = some (typed v a flags (last b args))
  with_two v flags _ = none

  abbrev pub with_one : Verb → Bool → List String → List String → Option Command
  with_one v alias flags (a ∷ args) = some (typed v a flags "")
  with_one v alias flags [] = if alias then some (typed v "all" flags "") else none

  abbrev pub with_pairs : Verb → List String → Option Command
  with_pairs v [] = none
  with_pairs v (t ∷ rest) = some (typed v t [] (join " " rest))

  -- What the verb makes of the tokens behind it; `none` goes on to the next token.
  abbrev pub read_form : Form → Verb → Bool → List String → Option Command
  read_form question v alias rest =
      if is_empty rest then none else some (typed v (join " " rest) [] "")
  read_form pairs v alias rest = with_pairs v rest
  read_form two v alias rest = with_two v (distinct (flags_of rest)) (args_of rest)
  read_form one v alias rest = with_one v alias (distinct (flags_of rest)) (args_of rest)
  read_form filter v alias rest =
      some (typed v (join " " (args_of rest)) (distinct (flags_of rest)) "")
  read_form optional v alias rest =
      some (typed v (first (args_of rest)) (distinct (flags_of rest)) "")
  read_form optional_two v alias rest =
      some (typed v (first (args_of rest)) (distinct (flags_of rest)) (second (args_of rest)))
  read_form bare v alias rest = some (typed v "" (distinct (flags_of rest)) "")

  abbrev pub or_later : Option Command → Option Command → Option Command
  or_later none later = later
  or_later (some c) later = some c

  abbrev pub at_token : String → List String → Option Verb → Option Command → Option Command
  at_token low rest none later = later
  at_token low rest (some v) later = or_later (read_form (form v) v (is_alias low) rest) later

  unfoldable pub read_tokens : List String → Option Command
  unfolding verb_named flag_named join distinct
  read_tokens [] = none
  read_tokens (t ∷ rest) = at_token (lower t) rest (read_verb (lower t)) (read_tokens rest)

  -- `command_from_text`
  unfoldable pub command_from_text : String → Option Command
  unfolding read_tokens words
  command_from_text text = read_tokens (words text)
