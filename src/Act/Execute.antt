-- ===== src/Act/Execute.antt =====
-- Running an approved action: `run_catalog_action` (act/execute.py), `run_cleanup` (act/cleanup.py)
-- and `run_solution` (act/solution_remedy.py).
pub mod Gated
pub mod Errors
use steadystate_ai.Prelude.{
  ℕ, Bool, true, false, not, ◌&&◌, Option, none, some, List, [], ◌∷◌, ◌++◌, String, str_eq, find,
  is_some, is_empty, take, if◌then◌else◌,
}
use steadystate_ai.Prelude.Texts.{Text, codes, text_eq, strip}
use steadystate_ai.State.Pending.{PendingAction}
use steadystate_ai.Act.Bounds.{
  Reversibility, Impact, Envelope, default_bound, within_bounds, self_healing, recoverable,
  irreversible, service, tenant, node,
}
use steadystate_ai.Act.Kubectl.{after_prefix}
use steadystate_ai.Act.Kubectl.Argv.{shlex_split}
use steadystate_ai.Act.Catalog.{
  CatalogAction, cleanup_envelope, is_safe_cleanup, action_for_command,
}
use steadystate_ai.Act.Workflow.{ParsedSpec, problem, spec, parse_workflow_spec}
use steadystate_ai.Act.Host.{
  Host, World, Exec, Reply, returned, raised, pure, raise, proceed, ◌>>=◌, log_event, Event,
  command, workflow, Process, exited, not_run, undecoded, success, failure, Risk, low, medium, high,
  RemediationPlan, RemediationResult, Detail, not_recognized, outside_bound, action_error,
  action_exit, action_ran, empty_solution, dispatch_refused, dispatched, Solution, Dispatch,
  refused, answered,
}

-- `(proc.stderr or proc.stdout or "").strip()[:200]`
abbrev pub first_text : Text → Text → Text
first_text [] b = b
first_text (c ∷ a) b = c ∷ a

abbrev pub excerpt : Text → Text
excerpt s = take 200 (strip s)

abbrev pub unapplied : RemediationPlan → Detail → RemediationResult
unapplied plan detail = record { plan = plan; applied = false; verified = false; detail = detail }

abbrev pub cleanup_plan : PendingAction → List Text → RemediationPlan
cleanup_plan action argv = record {
  drift_identity = action.drift_identity;
  eligible = true;
  risk = low;
  command = argv;
  envelope = some cleanup_envelope;
}

abbrev pub catalog_plan : PendingAction → Option CatalogAction → List Text → RemediationPlan
catalog_plan action none argv = record {
  drift_identity = action.drift_identity;
  eligible = false;
  risk = medium;
  command = [];
  envelope = none;
}
catalog_plan action (some a) argv = record {
  drift_identity = action.drift_identity;
  eligible = true;
  risk = medium;
  command = argv;
  envelope = some a.envelope;
}

-- The result of a process, every exception caught; `verified` is what the runner claims of a success.
abbrev pub process_result : RemediationPlan → String → Bool → Process → RemediationResult
process_result plan name verified (not_run message) = unapplied plan (action_error message)
process_result plan name verified (undecoded message) = unapplied plan (action_error message)
process_result plan name verified (exited (failure code) out err) =
    unapplied plan (action_exit code (excerpt (first_text err out)))
process_result plan name verified (exited success out err) = record {
  plan = plan;
  applied = true;
  verified = verified;
  detail = action_ran name (excerpt out);
}

-- The same where only `OSError` and `SubprocessError` are caught: a `ValueError` is raised.
unfoldable pub process_reply : RemediationPlan → String → Bool → Process → Exec RemediationResult
process_reply plan name verified (undecoded message) = raise
process_reply plan name verified (not_run message) =
    pure (process_result plan name verified (not_run message))
process_reply plan name verified (exited code out err) =
    pure (process_result plan name verified (exited code out err))

abbrev pub dispatch_result : RemediationPlan → Dispatch → RemediationResult
dispatch_result plan (refused why) = unapplied plan (dispatch_refused why)
dispatch_result plan (answered ok message) = record {
  plan = plan;
  applied = ok;
  verified = false;
  detail = dispatched message;
}

-- `name.split(" (author:", 1)[0]`: the text before the first occurrence of a marker.
unfoldable pub before_marker : Text → Text → Text
unfolding after_prefix
before_marker marker [] = []
before_marker marker (c ∷ s) =
    let rest = before_marker marker s in
    if is_some (after_prefix marker (c ∷ s)) then [] else c ∷ rest

-- `_REVERSIBILITY.get`, `_IMPACT.get` and `_RISK.get`, with their defaults
unfoldable pub solution_reversibility : Text → Reversibility
unfolding text_eq
solution_reversibility s =
    if text_eq s (codes "high")
    then self_healing
    else if text_eq s (codes "low")
    then irreversible
    else recoverable

unfoldable pub solution_impact : Text → Impact
unfolding text_eq
solution_impact s =
    if text_eq s (codes "low") then service else if text_eq s (codes "high") then node else tenant

unfoldable pub solution_risk : Text → Risk
unfolding text_eq
solution_risk s =
    if text_eq s (codes "low") then low else if text_eq s (codes "high") then high else medium

abbrev pub solution_plan : PendingAction → Option Solution → List Text → RemediationPlan
solution_plan action none argv = record {
  drift_identity = action.drift_identity;
  eligible = true;
  risk = medium;
  command = argv;
  envelope = some (record { reversibility = recoverable; impact = tenant });
}
solution_plan action (some sol) argv = record {
  drift_identity = action.drift_identity;
  eligible = true;
  risk = solution_risk sol.impact;
  command = argv;
  envelope = some (record {
    reversibility = solution_reversibility sol.reversibility;
    impact = solution_impact sol.impact;
  });
}

-- `DISPATCH_SENTINEL`
abbrev pub dispatch_sentinel : Text
dispatch_sentinel = codes "workflow-dispatch"

module _ {P : Type 0} (host : Host P) where
  -- `subprocess.run` on an argument list
  unfoldable pub run_argv : List Text → Exec Process
  run_argv argv w = (returned (host.subprocess w.ran argv), log_event (command argv) w)

  -- `parse_workflow_spec`, and `dispatch_workflow` where it succeeds
  unfoldable pub run_dispatch : List Text → Exec Dispatch
  unfolding parse_workflow_spec
  run_dispatch tokens w = elim (parse_workflow_spec host.unicode.wide tokens) [
    | problem why ↦ (returned (refused why), w)
    | spec found ↦
        let (ok, message) = host.dispatch w.ran found in
        (returned (answered ok message), log_event (workflow tokens) w)
  ]

  -- `shlex.split`, whose `ValueError` nothing here catches
  unfoldable pub split_command : Text → Exec (List Text)
  split_command text = elim (shlex_split text) [ none ↦ raise | some argv ↦ pure argv ]

  unfoldable pub run_vetted :
      PendingAction → Bool → CatalogAction → List Text → Exec RemediationResult
  unfolding run_argv
  run_vetted action break_glass a argv =
      let plan = catalog_plan action (some a) argv in
      if not break_glass && not (within_bounds a.envelope default_bound)
      then pure (unapplied plan (outside_bound a.name a.envelope))
      else run_argv argv >>= λ proc. process_reply plan a.name true proc

  -- `run_catalog_action`; `within_bounds` is called with its default policy.
  unfoldable pub run_catalog_action : PendingAction → Bool → Exec RemediationResult
  unfolding run_vetted split_command
  run_catalog_action action break_glass = elim (action_for_command host.unicode action.command) [
    | none ↦ pure (unapplied (catalog_plan action none []) (not_recognized action.command))
    | some a ↦ split_command action.command >>= λ argv. run_vetted action break_glass a argv
  ]

  -- `run_cleanup`; the plan, with its `shlex.split`, is made before the command is checked.
  unfoldable pub run_cleanup : PendingAction → Exec RemediationResult
  unfolding run_argv split_command
  run_cleanup action = split_command action.command >>= λ argv.
      let plan = cleanup_plan action argv in
      if not (is_safe_cleanup host.unicode.wide action.command)
      then pure (unapplied plan (not_recognized action.command))
      else run_argv argv >>= λ proc. process_reply plan "evicted-pod cleanup" true proc

  -- `solution_named`
  unfoldable pub solution_named : String → Option Solution
  unfolding before_marker strip text_eq
  solution_named name =
      let base = strip (before_marker (codes " (author:") (codes name)) in
      find (λ s. text_eq (codes s.name) base) host.solutions

  unfoldable pub run_solution_argv :
      PendingAction → RemediationPlan → List Text → Exec RemediationResult
  unfolding run_argv run_dispatch
  run_solution_argv action plan [] = pure (unapplied plan empty_solution)
  run_solution_argv action plan (head ∷ args) =
      if text_eq head dispatch_sentinel
      then (run_dispatch args >>= λ answer. pure (dispatch_result plan answer))
      else (run_argv (head ∷ args) >>= λ proc. pure (process_result plan "solution" false proc))

  -- `run_solution`
  unfoldable pub run_solution : PendingAction → Option Solution → Exec RemediationResult
  unfolding split_command
  run_solution action sol = split_command action.command >>= λ argv.
      run_solution_argv action (solution_plan action sol argv) argv
