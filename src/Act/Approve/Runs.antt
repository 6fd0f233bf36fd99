-- ===== src/Act/Approve/Runs.antt =====
-- The path of a catalog action through `apply_pending` (src/steadystate/act/approve.py).
use steadystate_ai.Prelude.{
  ◌≡◌, refl, true, false, Bool, some, List, [], ◌∷◌, ◌++◌, String, str_eq, arith, ap, ◌∙◌, eq_refl,
  subst, sym,
}
use steadystate_ai.Prelude.Rows.{Unique}
use steadystate_ai.Prelude.Texts.{Text}
use steadystate_ai.State.Findings.{Instant}
use steadystate_ai.State.Pending.{
  PendingAction, pending_key, pending, approved, get_pending, claim_pending,
}
use steadystate_ai.State.Pending.Claims.{claim_pending_iff, get-claim_pending}
use steadystate_ai.State.Audit.{approve, Outcome, verified, failed, record_audit}
use steadystate_ai.Act.Bounds.{default_bound, within_bounds}
use steadystate_ai.Act.Catalog.{CatalogAction, action_for_command}
use steadystate_ai.Act.Kubectl.Argv.{shlex_split}
use steadystate_ai.Act.Host.{
  Host, World, Reply, returned, raised, log_event, command, RemediationResult, Detail, action_error,
  action_exit, action_ran, Process, exited, not_run, undecoded, success, failure, ◌>>=◌,
}
use steadystate_ai.Act.Execute.{
  run_catalog_action, catalog_plan, process_reply, excerpt, first_text,
}
use steadystate_ai.Act.Approve.{
  Applied, said, breakglass_source, cleanup_source, catalog_source, solution_source, conclude,
  apply_command, apply_found, apply_pending,
}

module _ {P : Type 0} (host : Host P) (action : PendingAction) (a : CatalogAction)
    (argv : List Text) (k actor : String) (now : Instant) where
  -- What every run of the action leaves: one effect more, the command; the action approved by the
  -- actor; and the findings as they were.
  pub record After (w w' : World) : Type 0 where
    pub effect : w'.ran ≡ w.ran ++ (command argv ∷ [])
    pub spent :
        get_pending w'.actions k ≡ some (record action { status = approved; actor = some actor })
    pub same_findings : w'.findings ≡ w.findings

  -- A result that claims what happened, answered, and recorded once.
  pub record Completed (happened : Bool) (outcome : Outcome) (detail : Detail) (w : World)
      (o : Reply Applied × World) : Type 0 where
    pub after : After w o.1
    pub result : RemediationResult
    pub answer : o.0 ≡ returned (said detail, some result)
    pub is_applied : result.applied ≡ happened
    pub is_verified : result.verified ≡ happened
    pub explained : result.detail ≡ detail
    pub recorded :
        o.1.audit
        ≡ w.audit
          ++ (record {
            fingerprint = action.fingerprint;
            source = action.source;
            drift_identity = action.drift_identity;
            actor = actor;
            decision = approve;
            outcome = outcome;
            environment = action.environment;
            detail = some detail;
            at = now;
          }
              ∷ [])

  pub record Broken (w : World) (o : Reply Applied × World) : Type 0 where
    pub after : After w o.1
    pub answer : o.0 ≡ raised
    pub unrecorded : o.1.audit ≡ w.audit

  -- What an approval comes to, by what the process does.
  abbrev pub ComesTo : Process → World → Reply Applied × World → Type 0
  ComesTo (exited success out err) w o =
      Completed true verified (action_ran a.name (excerpt out)) w o
  ComesTo (exited (failure code) out err) w o =
      Completed false failed (action_exit code (excerpt (first_text err out))) w o
  ComesTo (not_run message) w o = Completed false failed (action_error message) w o
  ComesTo (undecoded message) w o = Broken w o

  run_catalog_action_lem :
      (w : World)
      → action_for_command host.unicode action.command ≡ some a
      → within_bounds a.envelope default_bound ≡ true
      → shlex_split action.command ≡ some argv
      → run_catalog_action host action false w
        ≡ process_reply
            (catalog_plan action (some a) argv)
            a.name
            true
            (host.subprocess w.ran argv)
            (log_event (command argv) w)
  unfolding run_catalog_action
  run_catalog_action_lem w f b s = ground (arith, f, b, s)

  -- The run behind the claim, as a bind.
  abbrev concluded : Process → World → Reply Applied × World
  concluded proc =
      process_reply (catalog_plan action (some a) argv) a.name true proc
      >>= conclude action actor approve now

  concluded-ComesTo :
      (proc : Process) (w v : World)
      → After w v
      → v.audit ≡ w.audit
      → ComesTo proc w (concluded proc v)
  unfolding process_reply conclude record_audit
  concluded-ComesTo (exited success out err) w v l e = record {
    after = record { effect = l.effect; spent = l.spent; same_findings = l.same_findings };
    result = _;
    answer = refl;
    is_applied = refl;
    is_verified = refl;
    explained = refl;
    recorded = rw e refl;
  }
  concluded-ComesTo (exited (failure code) out err) w v l e = record {
    after = record { effect = l.effect; spent = l.spent; same_findings = l.same_findings };
    result = _;
    answer = refl;
    is_applied = refl;
    is_verified = refl;
    explained = refl;
    recorded = rw e refl;
  }
  concluded-ComesTo (not_run message) w v l e = record {
    after = record { effect = l.effect; spent = l.spent; same_findings = l.same_findings };
    result = _;
    answer = refl;
    is_applied = refl;
    is_verified = refl;
    explained = refl;
    recorded = rw e refl;
  }
  concluded-ComesTo (undecoded message) w v l e = record {
    after = l;
    answer = refl;
    unrecorded = e;
  }

  -- The world in which the process ends.
  abbrev started : World → World
  started w = record w {
    actions = (claim_pending k pending approved (some actor) w.actions).0;
    ran = w.ran ++ (command argv ∷ []);
  }

  started-After :
      (w : World)
      → get_pending w.actions k ≡ some action
      → action.status ≡ pending
      → After w (started w)
  started-After w g p = record {
    effect = refl;
    spent =
        get-claim_pending k pending approved (some actor) w.actions k
        ∙ rw (eq_refl k, g) (ground (arith, p));
    same_findings = refl;
  }

  apply_command-runs :
      (w : World)
      → (claim_pending k pending approved (some actor) w.actions).1 ≡ true
      → str_eq action.source cleanup_source ≡ false
      → action_for_command host.unicode action.command ≡ some a
      → within_bounds a.envelope default_bound ≡ true
      → shlex_split action.command ≡ some argv
      → apply_command host action k actor now w ≡ concluded (host.subprocess w.ran argv) (started w)
  unfolding apply_command
  apply_command-runs w c s f b e = ground (
    arith,
    c,
    s,
    run_catalog_action_lem
        (record w { actions = (claim_pending k pending approved (some actor) w.actions).0 }) f b e,
  )

  apply_found-runs :
      (token : String) (w : World)
      → action.status ≡ pending
      → action.source ≡ catalog_source
      → apply_found host (some action) k actor now token w ≡ apply_command host action k actor now w
  unfolding apply_found
  apply_found-runs token w p s = ground (
    arith,
    p,
    ap (λ x. str_eq x breakglass_source) s,
    ap (λ x. str_eq x solution_source) s,
    ap (λ x. str_eq x cleanup_source) s,
    ap (λ x. str_eq x catalog_source) s,
  )

  -- An approved catalog action runs. Where it is pending under `k`, its command has a catalog shape
  -- whose envelope the default bound lets run, and the command splits, the approval runs that argument
  -- list and nothing else, and leaves the action approved by the actor. An exit with success is answered
  -- as applied and verified, and recorded once so, under the actor; an exit with a failure, or a
  -- process that does not start, as neither, and recorded once as failed; a `ValueError` of the process
  -- is raised, and nothing is recorded.
  pub apply_pending-runs :
      (token : String) (w : World)
      → Unique pending_key w.actions
      → get_pending w.actions k ≡ some action
      → action.status ≡ pending
      → action.source ≡ catalog_source
      → action_for_command host.unicode action.command ≡ some a
      → within_bounds a.envelope default_bound ≡ true
      → shlex_split action.command ≡ some argv
      → ComesTo (host.subprocess w.ran argv) w (apply_pending host k actor now token w)
  unfolding apply_pending
  apply_pending-runs token w u g p s f b e =
      let path : apply_pending host k actor now token w
          ≡ concluded (host.subprocess w.ran argv) (started w) =
        ap (λ o. apply_found host o k actor now token w) g
        ∙ apply_found-runs token w p s
        ∙ apply_command-runs w
            ((claim_pending_iff k pending approved (some actor) w.actions u).1 (action, g, p))
            (ap (λ x. str_eq x cleanup_source) s) f b e in
      subst (ComesTo (host.subprocess w.ran argv) w) (sym path)
        (concluded-ComesTo (host.subprocess w.ran argv) w (started w) (started-After w g p) refl)
