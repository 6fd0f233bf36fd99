-- ===== src/Act/Workflow.antt =====
-- act/workflow.py: the grammar of a workflow solution. The request to the Actions API is outside the
-- model.
use steadystate_ai.Prelude.{
  ℕ, ◌==◌, Bool, not, ◌&&◌, ◌||◌, Option, none, some, List, [], ◌∷◌, ◌++◌, all, length, leb,
  is_empty, if◌then◌else◌,
}
use steadystate_ai.Prelude.Texts.{Text, codes, text_eq, is_space, partition, fields}
use steadystate_ai.Act.Kubectl.{WideWord, is_word}

pub record WorkflowSpec : Type 0 where
  pub owner : Text
  pub repo : Text
  pub workflow : Text
  pub ref : Text
  pub inputs : List (Text × Text)

-- A specification, or the problem with the tokens.
pub data ParsedSpec : Type 0 where
  problem : Text → ParsedSpec
  spec : WorkflowSpec → ParsedSpec

-- `inputs[key] = value`
unfoldable pub put_input : Text → Text → List (Text × Text) → List (Text × Text)
unfolding text_eq
put_input key value [] = (key, value) ∷ []
put_input key value (item ∷ items) =
    let rest = put_input key value items in
    if text_eq item.0 key then (key, value) ∷ items else item ∷ rest

-- `s[-len(end):] == end`
unfoldable pub ends_with : Text → Text → Bool
unfolding text_eq
ends_with end [] = is_empty end
ends_with end (c ∷ s) = text_eq end (c ∷ s) || ends_with end s

-- `$` stands before a last newline as well.
unfoldable pub without_newline : Text → Text
without_newline [] = []
without_newline (c ∷ []) = if c == 10 then [] else c ∷ []
without_newline (c ∷ d ∷ s) = c ∷ without_newline (d ∷ s)

-- `rsplit("/", 1)[-1]`
abbrev last_of : Text → List Text → Text
last_of w [] = w
last_of w (v ∷ ws) = last_of v ws

unfoldable pub base_name : Text → Text
unfolding fields
base_name s = let (w, ws) = fields 47 s in last_of w ws

module _ (wide : WideWord) where
  abbrev pub part_char : ℕ → Bool
  part_char c = is_word wide c || c == 46 || c == 45

  abbrev pub path_char : ℕ → Bool
  path_char c = is_word wide c || c == 46 || c == 47 || c == 45

  -- `[\w./-]+\.ya?ml`
  unfoldable pub is_workflow_file : Text → Bool
  unfolding ends_with
  is_workflow_file s =
      all path_char s
      && ((ends_with (codes ".yml") s && leb 5 (length s))
          || (ends_with (codes ".yaml") s && leb 6 (length s)))

  abbrev is_part : Text → Bool
  is_part s = not (is_empty s) && all part_char s

  -- `match.group("ref") or _DEFAULT_REF`, where the characters of a ref are no white space.
  abbrev ref_of : Option Text → Option Text
  ref_of none = some (codes "main")
  ref_of (some r) = if not (is_empty r) && all (λ c. not (is_space c)) r then some r else none

  abbrev located : Text → Text → Text × Option Text → Option WorkflowSpec
  located owner repo (file, ref) = elim (ref_of ref) [
    | none ↦ none
    | some r ↦
        if is_part owner && is_part repo && is_workflow_file file
        then some
            (record { owner = owner; repo = repo; workflow = base_name file; ref = r; inputs = [] })
        else none
  ]

  -- `_LOCATOR.match`: 47 is the slash, 64 the at sign, neither of which an owner or a repository holds.
  unfoldable pub locate : Text → Option WorkflowSpec
  unfolding partition without_newline
  locate token =
      let (owner, rest) = partition 47 (without_newline token) in
      elim rest [
        | none ↦ none
        | some s ↦
            let (repo, path) = partition 47 s in
            (elim path [ none ↦ none | some p ↦ located owner repo (partition 64 p) ])
      ]

  abbrev add_value : Text → Option Text → List (Text × Text) → Option (List (Text × Text))
  add_value key none inputs = none
  add_value [] (some value) inputs = none
  add_value (c ∷ key) (some value) inputs = some (put_input (c ∷ key) value inputs)

  -- The loop over the inputs, up to the first token that is none.
  unfoldable pub read_inputs : List Text → WorkflowSpec → ParsedSpec
  unfolding partition put_input
  read_inputs [] found = spec found
  read_inputs (token ∷ tokens) found =
      let (key, value) = partition 61 token in
      elim (add_value key value found.inputs) [
        | none ↦ problem (codes "workflow input '" ++ (token ++ codes "' isn't input=value"))
        | some inputs ↦ read_inputs tokens (record found { inputs = inputs })
      ]

  -- `parse_workflow_spec`
  unfoldable pub parse_workflow_spec : List Text → ParsedSpec
  unfolding locate read_inputs
  parse_workflow_spec [] =
      problem (codes "empty workflow spec -- expected owner/repo/workflow.yml[@ref] [input=value]")
  parse_workflow_spec (token ∷ tokens) = elim (locate token) [
    | none ↦ problem (
        codes "'"
        ++ (token
            ++ (codes "' isn't a workflow locator -- expected owner/repo/workflow.yml[@ref] "
                ++ codes "(e.g. your-org/platform-infra/redeploy.yml@main)")))
    | some found ↦ read_inputs tokens found
  ]
