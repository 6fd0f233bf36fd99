-- ===== src/Act/Approve/Audited.antt =====
-- The answers of `apply_pending` (src/steadystate/act/approve.py) against the audit log.
use steadystate_ai.Prelude.{
  List, ◌≡◌, ◌≢◌, eq_iff, refl, ◌⊎◌, inl, inr, Bool, true, false, not, ◌&&◌, ◌||◌, Option, none,
  some, String, str_eq, arith, leb, if◌then◌else◌,
}
use steadystate_ai.State.Findings.{Instant}
use steadystate_ai.State.Pending.{
  PendingAction, pending, approved, same_status, get_pending, claim_pending, Actions,
}
use steadystate_ai.State.Audit.{approve, break_glass, noop, record_audit}
use steadystate_ai.Model.{Drift}
use steadystate_ai.Act.Catalog.{action_for_command}
use steadystate_ai.Act.Host.{
  Host, World, Exec, Reply, returned, pure, ◌>>=◌, RemediationResult, drift_absent,
}
use steadystate_ai.Act.Execute.{run_catalog_action, run_cleanup, run_solution, solution_named}
use steadystate_ai.Act.Execute.Gated.{
  CatalogRun, CleanupRun, run_catalog_action-Ran, run_cleanup-Ran, run_solution-Run,
}
use steadystate_ai.Act.Approve.{
  Applied, nothing_pending, no_pending, breakglass_source, cleanup_source, catalog_source,
  solution_source, breakglass_allowed, breakglass_off, type_target, remediate, observe_only,
  override_tier, claim, claimed, write_audit, conclude, apply_breakglass, apply_solution,
  apply_command, remediate, apply_to_drift, apply_collected, apply_drift, apply_found,
  apply_pending,
}
use steadystate_ai.Act.Approve.Recorded.{
  crashes, overridden, ordinary, not_pending, claim_lost, not_allowed, not_confirmed,
  not_executable, Claimed, Audited, told, absent, Audit, audit_entry-Entry, Ran-Kept,
  SolutionRun-Kept, remediate-Kept, if-Kept, bind-Audited,
}

module _ {P : Type 0} (host : Host P) (action : PendingAction) (k actor token : String)
    (now : Instant) where
  if-Audited :
      (b : Bool) (m n : Exec Applied) (w : World) (Q : Reply Applied × World → Type 0)
      → (b ≡ true → Q (m w))
      → (b ≡ false → Q (n w))
      → Q ((if b then m else n) w)
  if-Audited true m n w Q p q = p refl
  if-Audited false m n w Q p q = q refl

  claimed-Audited :
      (body : Exec Applied) (w : World)
      → ((v : World)
          → Claimed host action k actor token now w.actions v
          → Audited host action k actor token now w.actions v.audit v.ran (body v).0 (body v).1)
      → Audit host action k actor token now w (claimed k actor body w)
  unfolding claimed claim
  claimed-Audited body w d =
      let v : World = record w {
        actions = (claim_pending k pending approved (some actor) w.actions).0;
      } in
      if-Audited (claim_pending k pending approved (some actor) w.actions).1 body
        (pure nothing_pending) v (Audit host action k actor token now w)
        (λ won. d v (record { won = won; taken = refl }))
        (λ lost. told no_pending (claim_lost lost) refl refl refl)

  apply_breakglass-Audited :
      (w : World)
      → action.source ≡ breakglass_source
      → Audit host action k actor token now w (apply_breakglass host action k actor now token w)
  unfolding apply_breakglass
  apply_breakglass-Audited w s =
      if-Audited (not (breakglass_allowed host.breakglass_users actor)) _ _ w
        (Audit host action k actor token now w)
        (λ b. told (breakglass_off actor) (not_allowed s (ground (arith, b))) refl refl refl)
        (λ _.
          if-Audited
            (leb 2 (override_tier (action_for_command host.unicode action.command))
              && not (str_eq token action.drift_identity))
            _ _ w (Audit host action k actor token now w)
            (λ b.
              told (type_target action.fingerprint action.drift_identity)
                (not_confirmed s (λ e. ground (arith, b, (eq_iff token action.drift_identity).1 e)))
                refl refl refl)
            (λ _. claimed-Audited _ w (λ v c.
              bind-Audited host action k actor token now break_glass w.actions
                (run_catalog_action host action true) v (overridden s) c
                (Ran-Kept host action k actor token now (CatalogRun host action true) v _
                  (run_catalog_action-Ran host action true v)))))

  apply_solution-Audited :
      (w : World)
      → action.source ≢ breakglass_source
      → Audit host action k actor token now w (apply_solution host action k actor now w)
  unfolding apply_solution
  apply_solution-Audited w s =
      let m : Exec RemediationResult =
        run_solution host action (solution_named host action.drift_identity) in
      claimed-Audited (m >>= conclude action actor approve now) w (λ v c.
        bind-Audited host action k actor token now approve w.actions m v (ordinary s) c (
          SolutionRun-Kept host action k actor token now v _
            (run_solution-Run host action (solution_named host action.drift_identity) v)))

  apply_command-Audited :
      (w : World)
      → action.source ≢ breakglass_source
      → Audit host action k actor token now w (apply_command host action k actor now w)
  unfolding apply_command
  apply_command-Audited w s =
      let m : Exec RemediationResult =
        if str_eq action.source cleanup_source
        then run_cleanup host action
        else run_catalog_action host action false in
      claimed-Audited (m >>= conclude action actor approve now) w (λ v c.
        bind-Audited host action k actor token now approve w.actions m v (ordinary s) c (
          if-Kept host action k actor token now (str_eq action.source cleanup_source)
            (run_cleanup host action) (run_catalog_action host action false) v
            (Ran-Kept host action k actor token now (CleanupRun host action) v _
              (run_cleanup-Ran host action v))
            (Ran-Kept host action k actor token now (CatalogRun host action false) v _
              (run_catalog_action-Ran host action false v))))

  apply_to_drift-Audited :
      (table : Actions) (o : Option (Drift P)) (v : World)
      → action.source ≢ breakglass_source
      → Claimed host action k actor token now table v
      → Audited host action k actor token now table v.audit v.ran
          (apply_to_drift host action actor now o v).0
          (apply_to_drift host action actor now o v).1
  unfolding apply_to_drift write_audit record_audit
  apply_to_drift-Audited table none v s c =
      absent _ (record { won = c.won; taken = c.taken })
        (audit_entry-Entry host action k actor token now approve noop drift_absent) refl refl refl
  apply_to_drift-Audited table (some drift) v s c =
      bind-Audited host action k actor token now approve table (remediate host action.source drift)
        v (ordinary s) c
        (remediate-Kept host action k actor token now action.source drift v
          (host.remediate v.ran action.source drift) refl)

  apply_collected-Audited :
      (table : Actions) (o : Option (List (Drift P))) (v : World)
      → action.source ≢ breakglass_source
      → Claimed host action k actor token now table v
      → Audited host action k actor token now table v.audit v.ran
          (apply_collected host action k actor now o v).0
          (apply_collected host action k actor now o v).1
  unfolding apply_collected
  apply_collected-Audited table none v s c = crashes c refl refl
  apply_collected-Audited table (some drifts) v s c = apply_to_drift-Audited table _ v s c

  apply_drift-Audited :
      (w : World)
      → action.source ≢ breakglass_source
      → Audit host action k actor token now w (apply_drift host action k actor now w)
  unfolding apply_drift
  apply_drift-Audited w s =
      if-Audited (not (host.is_executable action.source)) _ _ w
        (Audit host action k actor token now w)
        (λ b. told (observe_only action.source) (not_executable (ground (arith, b))) refl refl refl)
        (λ _. claimed-Audited _ w (λ v c. apply_collected-Audited w.actions _ v s c))

  apply_found-Audited :
      (w : World)
      → Audit host action k actor token now w (apply_found host (some action) k actor now token w)
  unfolding apply_found
  apply_found-Audited w =
      if-Audited (not (same_status action.status pending)) _ _ w
        (Audit host action k actor token now w)
        (λ b. told no_pending (not_pending (λ e. ground (arith, b, e))) refl refl refl)
        (λ _.
          if-Audited (str_eq action.source breakglass_source) _ _ w
            (Audit host action k actor token now w)
            (λ b. apply_breakglass-Audited w ((eq_iff action.source breakglass_source).0 b))
            (λ b.
              let other : action.source ≢ breakglass_source =
                λ e. ground (arith, b, (eq_iff action.source breakglass_source).1 e) in
              if-Audited (str_eq action.source solution_source) _ _ w
                (Audit host action k actor token now w) (λ _. apply_solution-Audited w other)
                (λ _.
                  if-Audited
                    (str_eq action.source cleanup_source || str_eq action.source catalog_source) _ _
                    w (Audit host action k actor token now w) (λ _. apply_command-Audited w other)
                    (λ _. apply_drift-Audited w other))))

apply_any-Audited :
    {P : Type 0} (host : Host P) (k actor token : String) (now : Instant) (w : World)
    (o : Option PendingAction)
    → (((o ≡ none) × (apply_found host o k actor now token w ≡ (returned nothing_pending, w)))
        ⊎ ((action : PendingAction) × (o ≡ some action)
            × Audited host action k actor token now w.actions w.audit w.ran
                (apply_found host o k actor now token w).0
                (apply_found host o k actor now token w).1))
unfolding apply_found
apply_any-Audited host k actor token now w none = inl (refl, refl)
apply_any-Audited host k actor token now w (some action) =
    inr (action, refl, apply_found-Audited host action k actor token now w)

-- An approval under `k` finds no action and changes nothing; or, for the action that stands there,
-- one of four. It is refused for a stated reason, with nothing run and nothing recorded. The claim
-- was won and the run raised, with nothing recorded. The claim was won and the drift is gone, which the
-- one new record says. Or the claim was won and a result is answered: the one new record names the
-- action, the actor, the instant, break-glass exactly for the actions of that source, and an outcome
-- that is what the result says of itself.
pub apply_pending-Audited :
    {P : Type 0} (host : Host P) (k actor token : String) (now : Instant) (w : World)
    → (((get_pending w.actions k ≡ none)
          × (apply_pending host k actor now token w ≡ (returned nothing_pending, w)))
        ⊎ ((action : PendingAction) × (get_pending w.actions k ≡ some action)
            × Audited host action k actor token now w.actions w.audit w.ran
                (apply_pending host k actor now token w).0
                (apply_pending host k actor now token w).1))
unfolding apply_pending
apply_pending-Audited host k actor token now w =
    apply_any-Audited host k actor token now w (get_pending w.actions k)
