-- ===== src/Tests/Chats.antt =====
-- The chat and agent surfaces at concrete messages.
use Prim.Native.String.{String}
use text.Mathlib.Text.{◌==◌ as str_eq}
use steadystate_ai.Prelude.{ℕ, suc, ◌≡◌, refl, Bool, true, false, none, some, [], ◌∷◌, leb, ◌&&◌}
use steadystate_ai.Prelude.Texts.{is_space}
use steadystate_ai.Act.Host.{Reply, returned}
use steadystate_ai.Inbound.Grammar.{
  Verb, summary, probe, approve, vouch, analyze, bare, form, verb_text, Command, typed,
}
use steadystate_ai.Inbound.Grammar as Grammar
use steadystate_ai.Inbound.Translate.{confident_command}
use steadystate_ai.Inbound.Server.{InboundAdapter, dispatch}
use steadystate_ai.Inbound.Mcp.{message, tools_call, plain, handle_request, error, unavailable_tool}
use steadystate_ai.Inbound.Mcp.Granted.{Runs, handle_request-Runs}
use steadystate_ai.Tests.{some_findings}

-- A state that counts the commands run.
abbrev counted : Command → ℕ → Reply String × ℕ
counted c n = (returned (verb_text c.verb), suc n)

abbrev is_ascii_digit : ℕ → Bool
is_ascii_digit c = leb 48 c && leb c 57

abbrev same : String → String
same s = s

abbrev no_digits : String → Bool
no_digits s = false

-- An adapter whose signature is the text "signed", and whose bodies are free texts.
abbrev slack : InboundAdapter String String
slack = record {
  verify = λ headers body. str_eq headers "signed";
  handshake = λ body. none;
  parse = λ body. none;
  message = λ body. some (body, "alice");
  defer = λ body. some "working";
}

approve_command : Command
approve_command = typed same "alice" approve "f1" [] ""

handle_request-Runs_example :
    Runs counted
      (λ n. some_findings)
      false
      false
      0
      (handle_request counted
        (λ n. some_findings)
        false
        false
        (message (tools_call (some "approve") (("fingerprint", plain "f1") ∷ [])))
        0).1
handle_request-Runs_example =
    handle_request-Runs counted (λ n. some_findings) false false
      (message (tools_call (some "approve") (("fingerprint", plain "f1") ∷ []))) 0

-- A sentence that holds a verb which the guard does not look at is run as a command.
prose_vouches :
    confident_command same no_digits "alice" "I can vouch for that"
    ≡ some (typed same "alice" vouch "for" [] "")
unfolding confident_command is_space
prose_vouches = refl

prose_dispatches :
    confident_command same no_digits "alice" "did the dispatch job run"
    ≡ some (typed same "alice" Grammar.dispatch "job" [] "run")
unfolding confident_command is_space
prose_dispatches = refl

-- An agent that may only read cannot approve.
agent_refused :
    (handle_request counted
      (λ n. some_findings)
      false
      true
      (message (tools_call (some "approve") []))
      0)
    ≡ (returned (error unavailable_tool), 0)
unfolding handle_request
agent_refused = refl
