-- ===== src/Act/Solutions.antt =====
-- act/solution_remedy.py: the fixes of the runbook that match a symptom are offered or, within the
-- bound, run.
pub mod Unattended
use Prim.Native.String.{◌++◌ as ◌<>◌}
use steadystate_ai.Prelude.{
  ℕ, zero, suc, ◌+◌, ◌==◌, Bool, true, false, not, ◌&&◌, ◌||◌, Option, none, some, List, [], ◌∷◌,
  ◌++◌, String, str_eq, any, keep, find, is_empty, if◌then◌else◌,
}
use steadystate_ai.Prelude.Texts.{Text, codes, text_eq, strip}
use steadystate_ai.Model.{Symptom, symptom_fingerprint}
use steadystate_ai.State.Findings.{Instant}
use steadystate_ai.State.Pending.{PendingAction, pending, record_pending}
use steadystate_ai.State.Audit.{
  approve, verified, applied, failed, Outcome, AuditEntry, record_audit, acted_fingerprints,
}
use steadystate_ai.Act.Bounds.{BoundPolicy, Envelope, within_bounds, bound_from_env}
use steadystate_ai.Act.Kubectl.{WideWord, is_word}
use steadystate_ai.Act.Workflow.{ParsedSpec, problem, spec, parse_workflow_spec}
use steadystate_ai.Act.Host.{
  Host, World, Exec, Reply, returned, raised, pure, raise, proceed, ◌>>=◌, Solution, Detail,
  without_safety_net, RemediationResult,
}
use steadystate_ai.Act.Execute.{
  solution_reversibility, solution_impact, dispatch_sentinel, split_command, run_solution,
}
use steadystate_ai.Act.Approve.{solution_source}
use steadystate_ai.Act.Runbook.{
  is_truthy, is_arbitrary, solution_envelope, auto_eligible, fill, unfilled, applies_to,
  solutions_for, is_runnable, outcome_of_run,
}

-- The settings of a call: `auto`, the lifted net, the bound and the fingerprints that were acted on.
pub record Setting : Type 0 where
  pub auto : Bool
  pub net_lifted : Bool
  pub policy : BoundPolicy
  pub already : List String

-- What the row holds: a workflow's command stands behind the sentinel.
unfoldable pub stored_command : Solution → Text → Text
unfolding text_eq
stored_command sol command =
    if text_eq sol.kind (codes "workflow") then dispatch_sentinel ++ (32 ∷ command) else command

abbrev pub solution_row : String → Solution → Text → Instant → PendingAction
solution_row fingerprint sol command now = record {
  fingerprint = fingerprint;
  source = solution_source;
  path = "";
  drift_identity = sol.name <> (" (author: " <> (sol.author <> ")"));
  command = command;
  status = pending;
  created_at = now;
  actor = none;
  environment = none;
  patch = none;
}

-- The setting of a call: `auto` is the argument, or else `STEADYSTATE_SOLUTION_AUTO`.
abbrev pub setting_of : {P : Type 0} → Host P → Option Bool → Text → Text → World → Setting
setting_of host auto auto_env net_env w = record {
  auto = elim auto [ some b ↦ b | none ↦ is_truthy host.unicode.lower auto_env ];
  net_lifted = is_truthy host.unicode.lower net_env;
  policy = bound_from_env host.unicode.lower host.bound_table host.bound_env;
  already = acted_fingerprints w.audit;
}

module _ {P : Type 0} (host : Host P) (search : Text → Text → Bool) (now : Instant) where
  -- `store.record_audit` of what an unattended run came to
  abbrev pub audit_auto : PendingAction → Bool → RemediationResult → World → World
  audit_auto action via_override result w = record w {
    audit =
        record_audit
          (record {
            fingerprint = action.fingerprint;
            source = solution_source;
            drift_identity = action.drift_identity;
            actor = "auto";
            decision = approve;
            outcome = outcome_of_run result;
            environment = none;
            detail =
                some (if via_override then without_safety_net result.detail else result.detail);
            at = now;
          })
          now w.audit;
  }

  -- `_auto_apply`
  unfoldable pub auto_apply : PendingAction → Solution → Bool → Exec (Unit {0})
  unfolding run_solution
  auto_apply action sol via_override = run_solution host action (some sol) >>= λ result w.
      (returned tt, audit_auto action via_override result w)

  -- Whether the command is offered: a workflow's specification must be good. `shlex.split` may raise.
  unfoldable pub is_offered : Solution → Text → Exec Bool
  unfolding split_command parse_workflow_spec
  is_offered sol command =
      if text_eq sol.kind (codes "workflow")
      then (split_command host command >>= λ argv.
          pure (elim (parse_workflow_spec host.unicode.wide argv) [
            | problem why ↦ false
            | spec found ↦ true
          ]))
      else pure true

  unfoldable pub offer_or_run : Setting → PendingAction → Solution → Exec Bool
  unfolding auto_apply auto_eligible record_pending
  offer_or_run setting action sol =
      if setting.auto
        && not (any (str_eq action.fingerprint) setting.already)
        && auto_eligible setting.net_lifted sol setting.policy
      then (auto_apply action sol (setting.net_lifted && (is_arbitrary sol.kind || sol.proposed))
          >>= λ done. pure true)
      else λ w. (returned true, record w { actions = record_pending action now w.actions })

  abbrev pub offer_if : Setting → Symptom → Solution → Text → Bool → Exec Bool
  offer_if setting s sol command false = pure false
  offer_if setting s sol command true =
      offer_or_run setting
        (solution_row (symptom_fingerprint host.sha256 s) sol (stored_command sol command) now) sol

  abbrev pub remedy : Setting → Symptom → Option Solution → Exec Bool
  remedy setting s none = pure false
  remedy setting s (some sol) =
      let command = fill host.unicode.wide sol.run s.evidence in
      if unfilled host.unicode.wide command
      then pure false
      else is_offered sol command >>= λ good. offer_if setting s sol command good

  -- One round of the loop: whether the symptom counts as recorded.
  unfoldable pub record_solution : Setting → List Solution → Symptom → Exec Bool
  unfolding fill unfilled stored_command is_offered offer_or_run solutions_for
  record_solution setting sols s = remedy setting s (
      find (is_runnable setting.net_lifted)
        (solutions_for host.unicode.lower search (codes s.category) (codes s.title) sols))

  unfoldable pub record_solutions : Setting → List Solution → List Symptom → ℕ → Exec ℕ
  unfolding record_solution
  record_solutions setting sols [] recorded = pure recorded
  record_solutions setting sols (s ∷ symptoms) recorded =
      record_solution setting sols s >>= λ counted.
      record_solutions setting sols symptoms (if counted then suc recorded else recorded)

  -- `record_solution_remediations` over the symptoms of the report's alerts; the two settings are
  -- `STEADYSTATE_SOLUTION_AUTO` and `STEADYSTATE_NO_SAFETY_NET`.
  unfoldable pub record_solution_remediations : Option Bool → Text → Text → List Symptom → Exec ℕ
  unfolding is_truthy record_solutions
  record_solution_remediations auto auto_env net_env symptoms w =
      if is_empty host.solutions
      then (returned 0, w)
      else record_solutions (setting_of host auto auto_env net_env w) host.solutions symptoms 0 w
