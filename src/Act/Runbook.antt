-- ===== src/Act/Runbook.antt =====
-- What act/solution_remedy.py asks of an entry of the runbook: its envelope, whether it may run unattended,
-- its command; and `solutions_for` of probe/solutions.py. Reading the runbook is outside the model.
use steadystate_ai.Prelude.{
  ◌==◌, Bool, true, false, not, ◌&&◌, ◌||◌, Option, none, some, List, [], ◌∷◌, ◌++◌, String, any,
  keep, is_empty, if◌then◌else◌,
}
use steadystate_ai.Prelude.Texts.{Text, codes, text_eq, strip}
use steadystate_ai.State.Audit.{verified, applied, failed, Outcome}
use steadystate_ai.Act.Bounds.{BoundPolicy, Envelope, within_bounds}
use steadystate_ai.Act.Kubectl.{WideWord, is_word}
use steadystate_ai.Act.Host.{Solution, RemediationResult}
use steadystate_ai.Act.Execute.{solution_reversibility, solution_impact}

-- `_TRUTHY`
abbrev pub true_words : List Text
true_words = codes "1" ∷ codes "true" ∷ codes "yes" ∷ codes "on" ∷ []

unfoldable pub is_truthy : (Text → Text) → Text → Bool
unfolding strip text_eq
is_truthy lower raw = any (text_eq (lower (strip raw))) true_words

-- `_ARBITRARY_KINDS`
unfoldable pub is_arbitrary : Text → Bool
unfolding text_eq
is_arbitrary kind = any (text_eq kind) (codes "command" ∷ codes "playbook" ∷ codes "workflow" ∷ [])

-- `_envelope`
unfoldable pub solution_envelope : Solution → Envelope
solution_envelope sol = record {
  reversibility = solution_reversibility sol.reversibility;
  impact = solution_impact sol.impact;
}

-- `_auto_eligible`, where `net_lifted` is what `no_safety_net` says
unfoldable pub auto_eligible : Bool → Solution → BoundPolicy → Bool
unfolding is_arbitrary solution_envelope
auto_eligible net_lifted sol policy =
    if is_arbitrary sol.kind && not net_lifted
    then false
    else within_bounds (solution_envelope sol) policy

-- The value of a key of the evidence, or what stood in the template where it is missing or empty.
unfoldable pub value_or : Text → Text → List (String × String) → Text
unfolding text_eq
value_or key kept [] = kept
value_or key kept (item ∷ context) =
    let rest = value_or key kept context in
    if text_eq (codes item.0) key
    then if is_empty (codes item.1) then kept else codes item.1
    else rest

module _ (wide : WideWord) where
  -- `_fill`: outside of a placeholder, or behind a brace (123) and the word characters read since. A
  -- placeholder ends with a brace (125) behind a word.
  unfoldable pub fill_from : List (String × String) → Option Text → Text → Text
  unfolding value_or
  fill_from context none [] = []
  fill_from context (some word) [] = 123 ∷ word
  fill_from context none (c ∷ s) =
      let opened = fill_from context (some []) s in
      let rest = fill_from context none s in if c == 123 then opened else c ∷ rest
  fill_from context (some word) (c ∷ s) =
      let longer = fill_from context (some (word ++ (c ∷ []))) s in
      let opened = fill_from context (some []) s in
      let rest = fill_from context none s in
      if is_word wide c
      then longer
      else if c == 125 && not (is_empty word)
      then value_or word (123 ∷ word ++ (125 ∷ [])) context ++ rest
      else if c == 123
      then 123 ∷ word ++ opened
      else 123 ∷ word ++ (c ∷ rest)

  unfoldable pub fill : Text → List (String × String) → Text
  unfolding fill_from
  fill template context = fill_from context none template

  -- `_PLACEHOLDER.search`: whether the word behind the last brace is not empty.
  unfoldable pub unfilled_from : Option Bool → Text → Bool
  unfilled_from state [] = false
  unfilled_from none (c ∷ s) =
      let opened = unfilled_from (some false) s in
      let rest = unfilled_from none s in if c == 123 then opened else rest
  unfilled_from (some word) (c ∷ s) =
      let longer = unfilled_from (some true) s in
      let opened = unfilled_from (some false) s in
      let rest = unfilled_from none s in
      if is_word wide c
      then longer
      else if c == 125 && word
      then true
      else if c == 123
      then opened
      else rest

  unfoldable pub unfilled : Text → Bool
  unfolding unfilled_from
  unfilled command = unfilled_from none command

module _ (lower : Text → Text) (search : Text → Text → Bool) where
  -- The test of `solutions_for`; `search` is `re.search` of a pattern, ignoring case.
  unfoldable pub applies_to : Text → Text → Solution → Bool
  unfolding text_eq strip
  applies_to category title sol =
      let strict =
        not (is_empty sol.for_category)
        && text_eq (lower sol.for_category) (lower (strip category)) in
      let shaped = not (is_empty sol.title_match) && search sol.title_match title in
      if not (is_empty sol.for_category) && not (is_empty sol.title_match)
      then strict && shaped
      else strict || shaped

  -- `solutions_for`
  unfoldable pub solutions_for : Text → Text → List Solution → List Solution
  unfolding applies_to
  solutions_for category title sols = keep (applies_to category title) sols

-- A vouched solution with something to run, or a draft with the net lifted.
abbrev pub is_runnable : Bool → Solution → Bool
is_runnable net_lifted sol = not (is_empty sol.run) && (not sol.proposed || net_lifted)

abbrev pub outcome_of_run : RemediationResult → Outcome
outcome_of_run result =
    if result.verified then verified else if result.applied then applied else failed
