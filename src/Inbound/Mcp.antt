-- ===== src/Inbound/Mcp.antt =====
-- inbound/mcp.py: the JSON-RPC server for agents. A request is what the JSON parser gives, of which only
-- what the handlers look at is kept; schemas, descriptions and the texts around an output are left out.
-- A state of any type passes through `run_command`, so that what is proved holds whatever the verbs do.
pub mod Granted
use Prim.Native.String.{String, ◌++◌ as ◌<>◌}
use text.Mathlib.Text.{starts_with}
use steadystate_ai.Prelude.{
  ℕ, Bool, true, false, not, ◌&&◌, ◌||◌, Option, none, some, List, [], ◌∷◌, ◌++◌, str_eq, any, keep,
  map, if◌then◌else◌,
}
use steadystate_ai.Prelude.Dicts.{lookup}
use steadystate_ai.Prelude.Strings.{distinct, strip_text, drop_chars}
use steadystate_ai.State.Findings.{Findings, filter_findings}
use steadystate_ai.Inbound.Grammar.{
  Verb, summary, findings, show, probe, add_check, add_solution, verb_text, verb_named, commands,
  Effect, tool_effect, is_read_only, tool_args, Command, first, second,
}
use steadystate_ai.Act.Host.{Reply, returned, raised}

-- The value of an argument: an object with its JSON text, a list with the texts of its items and its
-- JSON text, or anything else with its `str`.
pub data JsonValue : Type 0 where
  structured : String → JsonValue
  listed : List String → String → JsonValue
  plain : String → JsonValue

abbrev pub Arguments : Type 0
Arguments = List (String × JsonValue)

-- A method with its parameters; a parameter is `none` where it is no text. The last one of a prompt is
-- the `str` of its argument `fingerprint`.
pub data Method : Type 0 where
  initialize tools_list resources_list prompts_list ping unknown_method : Method
  tools_call : Option String → Arguments → Method
  resources_read : Option String → Method
  prompts_get : Option String → String → Method

-- A message without an id, or one that is no object, is not answered.
pub data Request : Type 0 where
  notification : Request
  message : Method → Request

pub data RpcError : Type 0 where
  unavailable_tool unknown_resource unknown_prompt method_not_found : RpcError

pub data RpcResult : Type 0 where
  instructions : String → RpcResult
  tools : List Verb → RpcResult
  tool_output : String → RpcResult
  tool_failed : RpcResult
  resources : List String → RpcResult
  contents : String → String → RpcResult
  prompts : RpcResult
  prompt : List String → RpcResult
  pong : RpcResult

pub data Response : Type 0 where
  no_response : Response
  result : RpcResult → Response
  error : RpcError → Response

-- `_MCP_ACTOR`
abbrev pub mcp_actor : String
mcp_actor = "mcp"

-- `_AUTHORING`
abbrev pub is_authoring : Verb → Bool
is_authoring add_check = true
is_authoring add_solution = true
is_authoring _ = false

-- `mcp_tools`: the tools that a grant exposes, by their verbs
abbrev pub is_granted : Bool → Bool → Verb → Bool
is_granted write author v = is_read_only (tool_effect v) || write || (author && is_authoring v)

unfoldable pub mcp_tools : Bool → Bool → List Verb
mcp_tools write author = keep (is_granted write author) commands

-- `_as_text`
abbrev pub as_text : Option JsonValue → String
as_text none = ""
as_text (some (structured json)) = json
as_text (some (listed items json)) = json
as_text (some (plain s)) = strip_text s

abbrev pub items_of : Option JsonValue → List String
items_of (some (listed items json)) = distinct items
items_of _ = []

abbrev pub is_probe : Verb → Bool
is_probe probe = true
is_probe _ = false

abbrev pub tool_values : Verb → Arguments → List String
tool_values v arguments = map (λ declared. as_text (lookup declared.0 arguments)) (tool_args v)

abbrev pub tool_command : Arguments → Verb → Command
tool_command arguments v = record {
  verb = v;
  actor = mcp_actor;
  argument = first (tool_values v arguments);
  flags = if is_probe v then items_of (lookup "flags" arguments) else [];
  argument2 = second (tool_values v arguments);
}

abbrev pub tool_call : Arguments → Option Verb → Option Command
tool_call arguments none = none
tool_call arguments (some v) = some (tool_command arguments v)

unfoldable pub command_from_tool_call : String → Arguments → Option Command
unfolding verb_named lookup strip_text distinct
command_from_tool_call name arguments = tool_call arguments (verb_named name)

abbrev pub view : Verb → String → Command
view v argument = record {
  verb = v;
  actor = mcp_actor;
  argument = argument;
  flags = [];
  argument2 = "";
}

abbrev pub finding_uri : String
finding_uri = "steadystate://finding/"

-- The command of a resource; the prefix of a finding has 22 characters.
unfoldable pub resource_command : String → Option Command
unfolding drop_chars
resource_command uri =
    if str_eq uri "steadystate://summary"
    then some (view summary "")
    else if str_eq uri "steadystate://findings"
    then some (view findings "")
    else if starts_with uri finding_uri
    then some (view show (drop_chars 22 uri))
    else none

-- `stored` are the findings of the store in `S`, in the order of `all_findings`.
module _ {S : Type 0} (run_command : Command → S → Reply String × S) (stored : S → Findings) where
  -- `mcp_resources`
  unfoldable pub mcp_resources : S → List String
  unfolding filter_findings
  mcp_resources s =
      "steadystate://summary"
      ∷ "steadystate://findings"
      ∷ map (λ f. finding_uri <> f.fingerprint) (filter_findings (stored s) "")

  abbrev pub Handler : Type 0
  Handler = S → Reply Response × S

  abbrev pub answer : Response → Handler
  answer r s = (returned r, s)

  -- What follows a command; an exception goes on.
  abbrev pub proceed_with : Reply String × S → (String → Handler) → Reply Response × S
  proceed_with (returned text, s) then_do = then_do text s
  proceed_with (raised, s) then_do = (raised, s)

  abbrev pub run_then : Command → (String → Handler) → Handler
  run_then c then_do s = proceed_with (run_command c s) then_do

  abbrev pub read_with : String → Option Command → Handler
  read_with uri none = answer (error unknown_resource)
  read_with uri (some c) = run_then c (λ text. answer (result (contents uri text)))

  -- `read_resource`
  unfoldable pub read_resource : Option String → Handler
  unfolding resource_command
  read_resource none = answer (error unknown_resource)
  read_resource (some uri) = read_with uri (resource_command uri)

  -- `get_prompt`
  unfoldable pub get_prompt : Option String → String → Handler
  unfolding strip_text
  get_prompt none fingerprint = answer (error unknown_prompt)
  get_prompt (some name) fingerprint =
      if str_eq name "triage"
      then run_then (view summary "") (λ state.
        run_then (view findings "") (λ listing. answer (result (prompt (state ∷ listing ∷ [])))))
      else if str_eq name "explain-finding"
      then run_then (view show (strip_text fingerprint))
          (λ shown. answer (result (prompt (shown ∷ []))))
      else answer (error unknown_prompt)

  -- The outcome of a tool: what it says, or that it failed.
  abbrev pub tool_result : Reply String × S → Reply Response × S
  tool_result (returned text, s) = (returned (result (tool_output text)), s)
  tool_result (raised, s) = (returned (result tool_failed), s)

  abbrev pub run_tool : Option Command → Handler
  run_tool none s = answer (error unavailable_tool) s
  run_tool (some c) s = tool_result (run_command c s)

  abbrev pub is_exposed : Bool → Bool → String → Bool
  is_exposed write author name = any (λ v. str_eq (verb_text v) name) (mcp_tools write author)

  -- `_tools_call`
  unfoldable pub call_tool : Bool → Bool → Option String → Arguments → Handler
  unfolding command_from_tool_call mcp_tools
  call_tool write author none arguments = answer (error unavailable_tool)
  call_tool write author (some name) arguments =
      if not (is_exposed write author name)
      then answer (error unavailable_tool)
      else run_tool (command_from_tool_call name arguments)

  -- `handle_request`
  abbrev pub handle_method : Bool → Bool → Method → Handler
  handle_method write author initialize =
      run_then (view summary "") (λ text. answer (result (instructions (strip_text text))))
  handle_method write author tools_list = answer (result (tools (mcp_tools write author)))
  handle_method write author (tools_call name arguments) = call_tool write author name arguments
  handle_method write author resources_list =
      λ s. (returned (result (resources (mcp_resources s))), s)
  handle_method write author (resources_read uri) = read_resource uri
  handle_method write author prompts_list = answer (result prompts)
  handle_method write author (prompts_get name fingerprint) = get_prompt name fingerprint
  handle_method write author ping = answer (result pong)
  handle_method write author unknown_method = answer (error method_not_found)

  unfoldable pub handle_request : Bool → Bool → Request → Handler
  unfolding call_tool read_resource get_prompt
  handle_request write author notification = answer no_response
  handle_request write author (message method) = handle_method write author method
