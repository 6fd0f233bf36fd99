-- ===== src/Inbound/Server.antt =====
-- inbound/server.py: the webhook listener. A chat provider's adapter is an interface (`InboundAdapter` of
-- inbound/base.py), and a state of any type `S` passes through `run_command`, so that what is proved holds
-- whatever the verbs do. The posting of a deferred result is outside the model.
pub mod Confirmed
use Prim.Native.String.{String}
use steadystate_ai.Prelude.{ℕ, Bool, true, false, Option, none, some, if◌then◌else◌, not}
use steadystate_ai.Inbound.Grammar.{Verb, Command, probe}
use steadystate_ai.Inbound.Translate.{
  ModelReply, NlMessage, NlResult, to_run, to_say, confident_command, nl_to_command,
}
use steadystate_ai.Act.Host.{Reply, returned, raised}

-- `InboundAdapter`, with the optional `message` and `defer`; `none` where an adapter has no such method.
pub record InboundAdapter (H B : Type 0) : Type 0 where
  pub verify : H → B → Bool
  pub handshake : B → Option String
  pub parse : B → Option Command
  pub message : B → Option (String × String)
  pub defer : B → Option String

-- What is sent back at once.
pub data Answer : Type 0 where
  empty nothing_to_do : Answer
  raw responded : String → Answer
  explained : NlMessage → Answer

-- The status, the reply, and the work left for the background.
pub record HttpReply (S : Type 0) : Type 0 where
  pub status : ℕ
  pub body : Answer
  pub work : Option (S → Reply String × S)

-- `_DEFERRABLE`
abbrev pub is_deferrable : Verb → Bool
is_deferrable probe = true
is_deferrable _ = false

-- What `_resolve_text` gives: nothing, a command, or an immediate reply.
pub data Resolved : Type 0 where
  unresolved : Resolved
  resolved : Command → Resolved
  replied : NlMessage → Resolved

abbrev pub from_model : NlResult → Resolved
from_model (to_run command canonical) = resolved command
from_model (to_say message) = replied message

module _ (lower : String → String) (is_digits : String → Bool) where
  abbrev pub confident_or : Option Command → String → ModelReply → Resolved
  confident_or none actor reply = from_model (nl_to_command lower is_digits actor reply)
  confident_or (some c) actor reply = resolved c

  -- `_resolve_text`; `analyst` is `none` where no model is configured.
  unfoldable pub resolve_text : Option (String × String) → Option (String → ModelReply) → Resolved
  unfolding confident_command nl_to_command
  resolve_text none analyst = unresolved
  resolve_text (some (text, actor)) none = unresolved
  resolve_text (some (text, actor)) (some complete) =
      confident_or (confident_command lower is_digits actor text) actor (complete text)

module _ {S H B : Type 0} (lower : String → String) (is_digits : String → Bool)
    (adapter : InboundAdapter H B) (run_command : Command → S → Reply String × S) where
  abbrev pub answer_with : Answer → S → Reply (HttpReply S) × S
  answer_with a s = (returned (record { status = 200; body = a; work = none }), s)

  abbrev pub ran : Reply String × S → Reply (HttpReply S) × S
  ran (returned text, s) = answer_with (responded text) s
  ran (raised, s) = (raised, s)

  abbrev pub ran_or_deferred : Option String → Command → S → Reply (HttpReply S) × S
  ran_or_deferred none c s = ran (run_command c s)
  ran_or_deferred (some ack) c s =
      (returned (record { status = 200; body = raw ack; work = some (run_command c) }), s)

  unfoldable pub run_or_defer : B → Command → S → Reply (HttpReply S) × S
  run_or_defer body c s =
      ran_or_deferred (if is_deferrable c.verb then adapter.defer body else none) c s

  abbrev pub run_parsed : B → Option Command → S → Reply (HttpReply S) × S
  run_parsed body none s = answer_with nothing_to_do s
  run_parsed body (some c) s = run_or_defer body c s

  abbrev pub run_resolved : B → Resolved → S → Reply (HttpReply S) × S
  run_resolved body unresolved s = run_parsed body (adapter.parse body) s
  run_resolved body (resolved c) s = run_or_defer body c s
  run_resolved body (replied message) s = answer_with (explained message) s

  abbrev pub denied : S → Reply (HttpReply S) × S
  denied s = (returned (record { status = 401; body = empty; work = none }), s)

  abbrev pub after_handshake :
      Option String → B → Option (String → ModelReply) → S → Reply (HttpReply S) × S
  after_handshake (some reply) body analyst s = answer_with (raw reply) s
  after_handshake none body analyst s =
      run_resolved body (resolve_text lower is_digits (adapter.message body) analyst) s

  -- `dispatch`
  unfoldable pub dispatch : H → B → Option (String → ModelReply) → S → Reply (HttpReply S) × S
  unfolding run_or_defer resolve_text
  dispatch headers body analyst s =
      if not (adapter.verify headers body)
      then denied s
      else after_handshake (adapter.handshake body) body analyst s
