-- ===== src/Inbound/Server/Confirmed.antt =====
-- The commands that `dispatch` runs (src/steadystate/inbound/server.py, translate.py).
use Prim.Native.String.{String}
use steadystate_ai.Prelude.{◌≡◌, ◌⊎◌, Bool, true, Option, none, some}
use steadystate_ai.Inbound.Grammar.{Command, tool_effect, is_read_only}
use steadystate_ai.Inbound.Translate.{ModelReply, confident_command}
use steadystate_ai.Inbound.Server.{InboundAdapter, HttpReply, Answer, raw, is_deferrable, ran}
use steadystate_ai.Act.Host.{Reply, returned}

module _ {H B : Type 0} (lower : String → String) (is_digits : String → Bool)
    (adapter : InboundAdapter H B) (analyst : Option (String → ModelReply)) (body : B) where
  -- Where a command comes from: the grammar read it in the text of the message with confidence; a
  -- model named it for the text, and it only reads; or the adapter read it in the payload, and there
  -- is no model or no text.
  pub data Asked (c : Command) : Type 0 where
    by_text :
        (text actor : String)
        → adapter.message body ≡ some (text, actor)
        → confident_command lower is_digits actor text ≡ some c
        → Asked c
    by_model :
        (text actor : String)
        → adapter.message body ≡ some (text, actor)
        → is_read_only (tool_effect c.verb) ≡ true
        → c.actor ≡ actor
        → Asked c
    by_payload :
        adapter.parse body ≡ some c → (adapter.message body ≡ none) ⊎ (analyst ≡ none) → Asked c

  module _ {S : Type 0} (run_command : Command → S → Reply String × S) (s : S) where
    -- How a request that was verified is answered: a command that was asked for is run, and nothing
    -- else; or it is left to the background, and nothing else; or no command is run.
    pub data Handled (r : Reply (HttpReply S) × S) : Type 0 where
      now :
          (c : Command)
          → Asked c
          → r ≡ ran lower is_digits adapter run_command (run_command c s)
          → Handled r
      later :
          (c : Command) (ack : String)
          → Asked c
          → is_deferrable c.verb ≡ true
          → r ≡ (returned (record { status = 200; body = raw ack; work = some (run_command c) }), s)
          → Handled r
      unasked :
          (a : Answer)
          → r ≡ (returned (record { status = 200; body = a; work = none }), s)
          → Handled r
