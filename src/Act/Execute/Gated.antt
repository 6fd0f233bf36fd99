-- ===== src/Act/Execute/Gated.antt =====
-- The worlds that the runners leave (src/steadystate/act/execute.py, cleanup.py, solution_remedy.py).
use steadystate_ai.Prelude.{
  ◌≡◌, refl, inl, inr, Bool, true, false, not, ◌&&◌, ◌||◌, String, Option, none, some, List, [],
  ◌∷◌, arith, find-holds, sym, subst, Bool-cases, Option-cases, if◌then◌else◌,
}
use steadystate_ai.Prelude.Texts.{Text, text_eq}
use steadystate_ai.State.Pending.{PendingAction}
use steadystate_ai.Act.Bounds.{default_bound, within_bounds}
use steadystate_ai.Act.Kubectl.Argv.{shlex_split}
use steadystate_ai.Act.Catalog.{
  Unicode, CatalogAction, is_safe_cleanup, action_for_command, builtin_actions,
}
use steadystate_ai.Act.Host.{
  Host, World, Exec, Reply, returned, raised, pure, proceed, ◌>>=◌, log_event, command, workflow,
  RemediationPlan, Solution, Process, exited, not_run, undecoded,
}
use steadystate_ai.Act.Workflow.{ParsedSpec, problem, spec, parse_workflow_spec}
use steadystate_ai.Act.Execute.{
  run_catalog_action, run_cleanup, run_solution_argv, run_solution, run_dispatch, dispatch_sentinel,
  dispatch_result, solution_plan, catalog_plan, cleanup_plan, process_reply,
}

pub action_for_command-valid :
    (u : Unicode) (text : Text) (a : CatalogAction)
    → action_for_command u text ≡ some a
    → a.validate text ≡ true
unfolding action_for_command
action_for_command-valid u text a f = find-holds (λ b. b.validate text) (builtin_actions u) a f

proceed-pure-world :
    {A B : Type 0} (r : Reply A) (f : A → B) (w : World) → (proceed r (λ a. pure (f a)) w).1 ≡ w
proceed-pure-world (returned a) f w = refl
proceed-pure-world raised f w = refl

bind-pure-world :
    {A B : Type 0} (m : Exec A) (f : A → B) (w : World) → ((m >>= λ a. pure (f a)) w).1 ≡ (m w).1
bind-pure-world m f w = let (r, w') = m w in proceed-pure-world r f w'

if-world :
    {A : Type 0} (Q : World → Type 0) (b : Bool) (m n : Exec A) (w : World)
    → Q (m w).1
    → Q (n w).1
    → Q ((if b then m else n) w).1
if-world Q true m n w p q = p
if-world Q false m n w p q = q

process_reply-world :
    (plan : RemediationPlan) (name : String) (verified : Bool) (proc : Process) (w : World)
    → (process_reply plan name verified proc w).1 ≡ w
unfolding process_reply
process_reply-world plan name verified (exited code out err) w = refl
process_reply-world plan name verified (not_run message) w = refl
process_reply-world plan name verified (undecoded message) w = refl

module _ {P : Type 0} (host : Host P) (action : PendingAction) where
  -- The run of a catalog command: some entry accepts it, the bound lets it run or a human overrode
  -- the bound, and what ran is the split of the command.
  pub record CatalogRun (override : Bool) (argv : List Text) : Type 0 where
    pub entry : CatalogAction
    pub found : action_for_command host.unicode action.command ≡ some entry
    pub valid : entry.validate action.command ≡ true
    pub in_bound : (override || within_bounds entry.envelope default_bound) ≡ true
    pub split : shlex_split action.command ≡ some argv

  pub record CleanupRun (argv : List Text) : Type 0 where
    pub valid : is_safe_cleanup host.unicode.wide action.command ≡ true
    pub split : shlex_split action.command ≡ some argv

  -- The world after a runner: as before, or with one command more that `Q` describes.
  pub data Ran (Q : List Text → Type 0) (w w' : World) : Type 0 where
    idle : w' ≡ w → Ran Q w w'
    one : (argv : List Text) → Q argv → w' ≡ log_event (command argv) w → Ran Q w w'

  catalog_split :
      (override : Bool) (a : CatalogAction) (o : Option (List Text)) (w : World)
      → action_for_command host.unicode action.command ≡ some a
      → shlex_split action.command ≡ o
      → Ran (CatalogRun override) w (run_catalog_action host action override w).1
  unfolding run_catalog_action
  catalog_split override a none w f e = idle (ground (arith, f, e))
  catalog_split override a (some argv) w f e =
      elim (Bool-cases (not override && not (within_bounds a.envelope default_bound))) [
        | inl out ↦ idle (ground (arith, f, e, out))
        | inr ok ↦
            one argv
              (record {
                entry = a;
                found = f;
                valid = action_for_command-valid host.unicode action.command a f;
                in_bound = ground (arith, ok);
                split = e;
              })
              (ground (
                arith,
                f,
                e,
                ok,
                process_reply-world (catalog_plan action (some a) argv) a.name true
                    (host.subprocess w.ran argv) (log_event (command argv) w),
              ))
      ]

  -- `run_catalog_action` runs nothing, or the split of a command that a catalog entry accepts, whose
  -- envelope the default bound lets run, or any envelope under break-glass.
  pub run_catalog_action-Ran :
      (override : Bool) (w : World)
      → Ran (CatalogRun override) w (run_catalog_action host action override w).1
  unfolding run_catalog_action
  run_catalog_action-Ran override w =
      elim (Option-cases (action_for_command host.unicode action.command)) [
        | inl e ↦ idle (ground (arith, e))
        | inr (a, f) ↦ catalog_split override a (shlex_split action.command) w f refl
      ]

  -- `run_cleanup` runs nothing, or the split of a command of the evicted-pod shape.
  pub run_cleanup-Ran : (w : World) → Ran CleanupRun w (run_cleanup host action w).1
  unfolding run_cleanup
  run_cleanup-Ran w = elim (Option-cases (shlex_split action.command)) [
    | inl e ↦ idle (ground (arith, e))
    | inr (argv, e) ↦ elim (Bool-cases (is_safe_cleanup host.unicode.wide action.command)) [
      | inl ok ↦
          one argv (record { valid = ok; split = e })
            (ground (
              arith,
              e,
              ok,
              process_reply-world (cleanup_plan action argv) "evicted-pod cleanup" true
                  (host.subprocess w.ran argv) (log_event (command argv) w),
            ))
      | inr no_match ↦ idle (ground (arith, e, no_match))
    ]
  ]

  -- What `run_solution` ran: the split of the command, or the workflow that it names.
  pub data SolutionRun (w w' : World) : Type 0 where
    idle : w' ≡ w → SolutionRun w w'
    process :
        (argv : List Text)
        → shlex_split action.command ≡ some argv
        → w' ≡ log_event (command argv) w
        → SolutionRun w w'
    dispatch :
        (head : Text) (spec : List Text)
        → shlex_split action.command ≡ some (head ∷ spec)
        → w' ≡ log_event (workflow spec) w
        → SolutionRun w w'

  run_dispatch_lem :
      (head : Text) (tokens : List Text) (w : World) (d : ParsedSpec)
      → parse_workflow_spec host.unicode.wide tokens ≡ d
      → shlex_split action.command ≡ some (head ∷ tokens)
      → SolutionRun w (run_dispatch host tokens w).1
  unfolding run_dispatch
  run_dispatch_lem head tokens w (problem why) h e = idle (ground (arith, h))
  run_dispatch_lem head tokens w (spec found) h e = dispatch head tokens e (ground (arith, h))

  run_solution_argv-Run :
      (plan : RemediationPlan) (argv : List Text) (w : World)
      → shlex_split action.command ≡ some argv
      → SolutionRun w (run_solution_argv host action plan argv w).1
  unfolding run_solution_argv
  run_solution_argv-Run plan [] w e = idle refl
  run_solution_argv-Run plan (head ∷ args) w e =
      if-world (SolutionRun w) (text_eq head dispatch_sentinel) _ _ w
        (subst (SolutionRun w)
          (sym (bind-pure-world (run_dispatch host args) (dispatch_result plan) w))
          (run_dispatch_lem head args w (parse_workflow_spec host.unicode.wide args) refl e))
        (process (head ∷ args) e refl)

  run_solution-split :
      (sol : Option Solution) (w : World) (o : Option (List Text))
      → shlex_split action.command ≡ o
      → SolutionRun w (run_solution host action sol w).1
  unfolding run_solution
  run_solution-split sol w none e = idle (ground (arith, e))
  run_solution-split sol w (some argv) e =
      let step : run_solution host action sol w
          ≡ run_solution_argv host action (solution_plan action sol argv) argv w =
        ground (arith, e) in
      subst (λ r. SolutionRun w r.1) (sym step)
        (run_solution_argv-Run (solution_plan action sol argv) argv w e)

  -- `run_solution` runs nothing, the split of the stored command, or the workflow that it names.
  pub run_solution-Run :
      (sol : Option Solution) (w : World) → SolutionRun w (run_solution host action sol w).1
  run_solution-Run sol w = run_solution-split sol w (shlex_split action.command) refl
