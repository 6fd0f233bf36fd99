-- ===== src/Inbound/Mcp/Granted.antt =====
-- The commands that an agent's requests run (src/steadystate/inbound/mcp.py).
use Prim.Native.String.{String}
use text.Mathlib.TextEquality.{eq_iff}
use text.Mathlib.Text.{starts_with}
use steadystate_ai.Prelude.{
  ◌≡◌, refl, inl, inr, Bool, true, false, Option, none, some, List, [], ◌∷◌, arith, ap, sym, subst,
  ◌∙◌, Bool-cases, Option-cases, any, keep, find, str_eq, if◌then◌else◌,
}
use steadystate_ai.Prelude.Strings.{drop_chars, strip_text}
use steadystate_ai.State.Findings.{Findings}
use steadystate_ai.Inbound.Grammar.{
  Verb, summary, findings, show, verb_text, verb_named, commands, tool_effect, is_read_only,
  Command,
}
use steadystate_ai.Inbound.Grammar.Names.{verb_named-verb_text}
use steadystate_ai.Inbound.Mcp.{
  initialize, tools_list, tools_call, resources_list, resources_read, prompts_list, prompts_get,
  ping, unknown_method, Request, notification, message, result, error, unavailable_tool,
  instructions, contents, prompt, Arguments, mcp_actor, is_authoring, is_granted, mcp_tools,
  tool_command, tool_call, command_from_tool_call, view, finding_uri, Handler, proceed_with,
  run_then, resource_command, read_resource, get_prompt, tool_result, is_exposed, call_tool,
  handle_request, answer,
}
use steadystate_ai.Act.Host.{Reply, returned, raised}

any-keep :
    {A : Type 0} (p q : A → Bool) (xs : List A)
    → any p (keep q xs) ≡ true
    → (x : A) × (q x ≡ true) × (p x ≡ true)
any-keep p q [] h = absurd (cc)
any-keep p q (x ∷ xs) h = elim (Bool-cases (q x)) [
  | inl kept ↦ elim (Bool-cases (p x)) [
    | inl holds ↦ (x, kept, holds)
    | inr fails ↦ any-keep p q xs (ground (arith, h, kept, fails))
  ]
  | inr dropped ↦ any-keep p q xs (ground (arith, h, dropped))
]

find-head :
    {A : Type 0} (p : A → Bool) (y x : A) (xs : List A)
    → find p (y ∷ xs) ≡ some x
    → p y ≡ true
    → y ≡ x
find-head p y x xs h holds = ground (arith, h, holds)

find-any :
    {A : Type 0} (p q : A → Bool) (xs : List A) (x : A)
    → find p xs ≡ some x
    → q x ≡ true
    → any p (keep q xs) ≡ true
find-any p q [] x h k = cc
find-any p q (y ∷ xs) x h k = elim (Bool-cases (p y)) [
  | inl holds ↦
      let kept : q y ≡ true = subst (λ z. q z ≡ true) (sym (find-head p y x xs h holds)) k in
      ground (arith, kept, holds)
  | inr fails ↦ ground (arith, fails, h, find-any p q xs x)
]

-- What a grant allows an agent to run: what only reads, everything with `write`, and the two verbs that
-- author configuration with `author`.
pub data Allowed (write author : Bool) (v : Verb) : Type 0 where
  reads : is_read_only (tool_effect v) ≡ true → Allowed write author v
  writes : write ≡ true → Allowed write author v
  authors : author ≡ true → is_authoring v ≡ true → Allowed write author v

is_granted-Allowed :
    (write author : Bool) (v : Verb) → is_granted write author v ≡ true → Allowed write author v
is_granted-Allowed true author v h = writes refl
is_granted-Allowed false author v h = elim (Bool-cases (is_read_only (tool_effect v))) [
  | inl r ↦ reads r
  | inr w ↦ authors (ground (arith, h, w)) (ground (arith, h, w))
]

-- An exposed name is that of a verb that is granted.
is_exposed-granted :
    (write author : Bool) (name : String)
    → any (λ v. str_eq (verb_text v) name) (mcp_tools write author) ≡ true
    → (v : Verb) × (is_granted write author v ≡ true) × (verb_named name ≡ some v)
unfolding mcp_tools
is_exposed-granted write author name h =
    let (v, granted, same) =
      any-keep (λ v. str_eq (verb_text v) name) (is_granted write author) commands h in
    (
      v,
      granted,
      subst (λ n. verb_named n ≡ some v) ((eq_iff (verb_text v) name).0 same)
          (verb_named-verb_text v),
    )

granted-is_exposed :
    (write author : Bool) (v : Verb)
    → is_granted write author v ≡ true
    → any (λ w. str_eq (verb_text w) (verb_text v)) (mcp_tools write author) ≡ true
unfolding mcp_tools verb_named
granted-is_exposed write author v granted =
    find-any (λ w. str_eq (verb_text w) (verb_text v)) (is_granted write author) commands v
      (verb_named-verb_text v) granted

-- A command of the server, under a grant.
pub record Granted (write author : Bool) (c : Command) : Type 0 where
  pub credited : c.actor ≡ mcp_actor
  pub allowed : Allowed write author c.verb

view-Granted :
    (write author : Bool) (v : Verb) (argument : String)
    → is_read_only (tool_effect v) ≡ true
    → Granted write author (view v argument)
view-Granted write author v argument h = record { credited = refl; allowed = reads h }

resource_command-Granted :
    (write author : Bool) (uri : String) (c : Command)
    → resource_command uri ≡ some c
    → Granted write author c
unfolding resource_command
resource_command-Granted write author uri c h =
    elim (Bool-cases (str_eq uri "steadystate://summary")) [
      | inl e ↦
          subst (Granted write author) (ground (arith, h, e))
            (view-Granted write author summary "" refl)
      | inr ne ↦ elim (Bool-cases (str_eq uri "steadystate://findings")) [
        | inl e ↦
            subst (Granted write author) (ground (arith, h, ne, e))
              (view-Granted write author findings "" refl)
        | inr nf ↦ elim (Bool-cases (starts_with uri finding_uri)) [
          | inl e ↦
              subst (Granted write author) (ground (arith, h, ne, nf, e))
                (view-Granted write author show (drop_chars 22 uri) refl)
          | inr ns ↦ absurd (ground (arith, h, ne, nf, ns))
        ]
      ]
    ]

some_verb : (v w : Verb) → some v ≡ some w → v ≡ w
some_verb v w e = cc

command_from_tool_call_lem :
    (name : String) (arguments : Arguments) (v : Verb)
    → verb_named name ≡ some v
    → command_from_tool_call name arguments ≡ some (tool_command arguments v)
unfolding command_from_tool_call
command_from_tool_call_lem name arguments v h = ap (tool_call arguments) h

module _ {S : Type 0} (run_command : Command → S → Reply String × S) (stored : S → Findings)
    (write author : Bool) where
  -- The states that commands lead to, each of them granted.
  pub data Runs : S → S → Type 0 where
    stopped : {s : S} → Runs s s
    ran : (c : Command) {s t : S} → Granted write author c → Runs (run_command c s).1 t → Runs s t

  proceed-Runs :
      (c : Command) (s : S) (k : String → Handler run_command stored) (r : Reply String × S)
      → Granted write author c
      → run_command c s ≡ r
      → ((text : String) (t : S) → Runs t (k text t).1)
      → Runs s (proceed_with run_command stored r k).1
  proceed-Runs c s k (returned text, t) g e rest =
      ran c g (
        subst (λ u. Runs u (k text t).1) (sym (ap (λ (x : Reply String × S). x.1) e)) (rest text t))
  proceed-Runs c s k (raised, t) g e rest =
      ran c g (subst (λ u. Runs u t) (sym (ap (λ (x : Reply String × S). x.1) e)) stopped)

  run_then-Runs :
      (c : Command) (k : String → Handler run_command stored)
      → Granted write author c
      → ((text : String) (t : S) → Runs t (k text t).1)
      → (s : S) → Runs s (run_then run_command stored c k s).1
  run_then-Runs c k g rest s = proceed-Runs c s k (run_command c s) g refl rest

  read_resource-Runs :
      (uri : Option String) (s : S) → Runs s (read_resource run_command stored uri s).1
  unfolding read_resource
  read_resource-Runs none s = stopped
  read_resource-Runs (some uri) s = elim (Option-cases (resource_command uri)) [
    | inl n ↦ rw n stopped
    | inr (c, f) ↦ rw f (
        run_then-Runs c (λ text. answer run_command stored (result (contents uri text)))
          (resource_command-Granted write author uri c f) (λ text t. stopped) s)
  ]

  get_prompt-Runs :
      (name : Option String) (fingerprint : String) (s : S)
      → Runs s (get_prompt run_command stored name fingerprint s).1
  unfolding get_prompt
  get_prompt-Runs none fingerprint s = stopped
  get_prompt-Runs (some name) fingerprint s = elim (Bool-cases (str_eq name "triage")) [
    | inl e ↦ rw e (
        run_then-Runs (view summary "")
          (λ state.
            run_then run_command stored (view findings "")
              (λ listing. answer run_command stored (result (prompt (state ∷ listing ∷ [])))))
          (view-Granted write author summary "" refl)
          (λ state.
            run_then-Runs (view findings "")
              (λ listing. answer run_command stored (result (prompt (state ∷ listing ∷ []))))
              (view-Granted write author findings "" refl) (λ listing t. stopped))
          s)
    | inr ne ↦ rw ne (elim (Bool-cases (str_eq name "explain-finding")) [
      | inl e ↦ rw e (
          run_then-Runs (view show (strip_text fingerprint))
            (λ shown. answer run_command stored (result (prompt (shown ∷ []))))
            (view-Granted write author show (strip_text fingerprint) refl) (λ shown t. stopped) s)
      | inr nf ↦ rw nf stopped
    ])
  ]

  tool_result-Runs :
      (c : Command) (s : S) (r : Reply String × S)
      → Granted write author c
      → run_command c s ≡ r
      → Runs s (tool_result run_command stored r).1
  tool_result-Runs c s (returned text, t) g e =
      ran c g (subst (λ u. Runs u t) (sym (ap (λ (x : Reply String × S). x.1) e)) stopped)
  tool_result-Runs c s (raised, t) g e =
      ran c g (subst (λ u. Runs u t) (sym (ap (λ (x : Reply String × S). x.1) e)) stopped)

  call_tool-Runs :
      (name : Option String) (arguments : Arguments) (s : S)
      → Runs s (call_tool run_command stored write author name arguments s).1
  unfolding call_tool
  call_tool-Runs none arguments s = stopped
  call_tool-Runs (some name) arguments s =
      elim (Bool-cases (is_exposed run_command stored write author name)) [
        | inl exposed ↦
            let (v, granted, named) = is_exposed-granted write author name exposed in
            rw exposed (
              rw (command_from_tool_call_lem name arguments v named) (
                tool_result-Runs (tool_command arguments v) s
                  (run_command (tool_command arguments v) s)
                  (record { credited = refl; allowed = is_granted-Allowed write author v granted })
                  refl))
        | inr shut ↦ rw shut stopped
      ]

  -- Whatever an agent sends, the server runs only commands that are credited to `mcp` and that its grant
  -- allows: those that only read; every one with the grant `write`; and the two that author a check or a
  -- solution with the grant `author`.
  pub handle_request-Runs :
      (request : Request) (s : S)
      → Runs s (handle_request run_command stored write author request s).1
  unfolding handle_request
  handle_request-Runs notification s = stopped
  handle_request-Runs (message initialize) s =
      run_then-Runs (view summary "")
        (λ text. answer run_command stored (result (instructions (strip_text text))))
        (view-Granted write author summary "" refl) (λ text t. stopped) s
  handle_request-Runs (message (tools_call name arguments)) s = call_tool-Runs name arguments s
  handle_request-Runs (message (resources_read uri)) s = read_resource-Runs uri s
  handle_request-Runs (message (prompts_get name fingerprint)) s =
      get_prompt-Runs name fingerprint s
  handle_request-Runs (message tools_list) s = stopped
  handle_request-Runs (message resources_list) s = stopped
  handle_request-Runs (message prompts_list) s = stopped
  handle_request-Runs (message ping) s = stopped
  handle_request-Runs (message unknown_method) s = stopped

  -- A tool call under a verb's name runs the command of that verb with the arguments given, once and
  -- nothing else, where the grant exposes the verb, and answers what it says or that it failed; where the
  -- grant does not expose it, it is an error and nothing runs.
  pub call_tool-verb :
      (v : Verb) (arguments : Arguments) (s : S)
      → call_tool run_command stored write author (some (verb_text v)) arguments s ≡ (
          if is_granted write author v
          then tool_result run_command stored (run_command (tool_command arguments v) s)
          else (returned (error unavailable_tool), s))
  unfolding call_tool
  call_tool-verb v arguments s = elim (Bool-cases (is_granted write author v)) [
    | inl granted ↦
        rw (granted, granted-is_exposed write author v granted)
          (rw (command_from_tool_call_lem (verb_text v) arguments v (verb_named-verb_text v)) refl)
    | inr refused ↦ elim (Bool-cases (is_exposed run_command stored write author (verb_text v))) [
      | inl exposed ↦
          let (w, granted, named) = is_exposed-granted write author (verb_text v) exposed in
          absurd (
            ground (
              arith,
              refused,
              ap (is_granted write author) (some_verb v w (sym (verb_named-verb_text v) ∙ named)),
              granted,
            ))
      | inr shut ↦ rw (refused, shut) refl
    ]
  ]
