-- ===== src/Act/Approve/Approval.antt =====
-- The world after `apply_pending` (src/steadystate/act/approve.py): the claim and the effect.
use steadystate_ai.Prelude.{
  List, ◌≡◌, refl, ◌⊎◌, inl, inr, Bool, true, false, not, ◌&&◌, ◌||◌, Option, none, some, String,
  str_eq, eq_iff, arith, find-holds, leb, Bool-cases, if◌then◌else◌,
}
use steadystate_ai.State.Findings.{Instant}
use steadystate_ai.State.Pending.{PendingAction, pending, approved, same_status, claim_pending}
use steadystate_ai.State.Pending.Claims.{same_status_sound}
use steadystate_ai.State.Audit.{approve, break_glass}
use steadystate_ai.Model.{Drift, drift_fingerprint}
use steadystate_ai.Act.Catalog.{action_for_command}
use steadystate_ai.Act.Host.{Host, World, Exec, pure}
use steadystate_ai.Act.Execute.{run_catalog_action, run_cleanup, run_solution, solution_named}
use steadystate_ai.Act.Execute.Gated.{
  CatalogRun, CleanupRun, run_catalog_action-Ran, run_cleanup-Ran, run_solution-Run,
}
use steadystate_ai.Act.Approve.{
  Applied, nothing_pending, breakglass_source, cleanup_source, catalog_source, solution_source,
  breakglass_allowed, override_tier, claim, claimed, write_audit, apply_breakglass, apply_solution,
  apply_command, remediate, apply_to_drift, apply_collected, apply_drift, apply_found,
}
use steadystate_ai.Act.Approve.Licensed.{
  Does, Licensed, by_override, by_catalog, by_cleanup, Does-same, Does-conclude, Ran-Does,
  SolutionRun-Does, remediate-Does, if-Does,
}

module _ {P : Type 0} (host : Host P) (action : PendingAction) (k actor token : String) where
  -- The world after an approval: as before, or after the claim and at most one licensed effect.
  pub data Approval (w w' : World) : Type 0 where
    untouched : w' ≡ w → Approval w w'
    acted :
        Does
          (Licensed host action k actor token)
          (record w { actions = (claim_pending k pending approved (some actor) w.actions).0 })
          w'
        → Approval w w'

  if-Approval :
      {A : Type 0} (b : Bool) (m n : Exec A) (w : World)
      → (b ≡ true → Approval w (m w).1)
      → (b ≡ false → Approval w (n w).1)
      → Approval w ((if b then m else n) w).1
  if-Approval true m n w p q = p refl
  if-Approval false m n w p q = q refl

  claimed-Approval :
      (body : Exec Applied) (w : World)
      → ((v : World) → Does (Licensed host action k actor token) v (body v).1)
      → Approval w (claimed k actor body w).1
  unfolding claimed claim
  claimed-Approval body w d =
      let v : World = record w {
        actions = (claim_pending k pending approved (some actor) w.actions).0;
      } in
      acted (
        if-Does host action k actor token
          (claim_pending k pending approved (some actor) w.actions).1 body (pure nothing_pending) v
          (λ _. d v) (λ _. Does-same host action k actor token v))

  apply_breakglass-Approval :
      (now : Instant) (w : World)
      → str_eq action.source breakglass_source ≡ true
      → Approval w (apply_breakglass host action k actor now token w).1
  unfolding apply_breakglass
  apply_breakglass-Approval now w s =
      if-Approval (not (breakglass_allowed host.breakglass_users actor)) _ _ w (λ _. untouched refl)
        (λ allowed.
          if-Approval
            (leb 2 (override_tier (action_for_command host.unicode action.command))
              && not (str_eq token action.drift_identity))
            _ _ w (λ _. untouched refl)
            (λ confirmed. claimed-Approval _ w (λ v.
              Does-conclude host action k actor token break_glass now
                (run_catalog_action host action true) v
                (Ran-Does host action k actor token (CatalogRun host action true) v _
                  (λ argv run. by_override argv s (ground (arith, allowed)) confirmed run refl)
                  (run_catalog_action-Ran host action true v)))))

  apply_solution-Approval :
      (now : Instant) (w : World)
      → str_eq action.source solution_source ≡ true
      → Approval w (apply_solution host action k actor now w).1
  unfolding apply_solution
  apply_solution-Approval now w s = claimed-Approval _ w (λ v.
      Does-conclude host action k actor token approve now
        (run_solution host action (solution_named host action.drift_identity)) v
        (SolutionRun-Does host action k actor token v _ s
          (run_solution-Run host action (solution_named host action.drift_identity) v)))

  apply_command-Approval :
      (now : Instant) (w : World)
      → (str_eq action.source cleanup_source || str_eq action.source catalog_source) ≡ true
      → Approval w (apply_command host action k actor now w).1
  unfolding apply_command
  apply_command-Approval now w s = claimed-Approval _ w (λ v.
      Does-conclude host action k actor token approve now
        (if str_eq action.source cleanup_source
          then run_cleanup host action
          else run_catalog_action host action false)
        v
        (if-Does host action k actor token (str_eq action.source cleanup_source)
          (run_cleanup host action) (run_catalog_action host action false) v
          (λ c.
            Ran-Does host action k actor token (CleanupRun host action) v _
              (λ argv run. by_cleanup argv c run refl) (run_cleanup-Ran host action v))
          (λ c.
            Ran-Does host action k actor token (CatalogRun host action false) v _
              (λ argv run. by_catalog argv (ground (arith, s, c)) run refl)
              (run_catalog_action-Ran host action false v))))

  apply_to_drift-Does :
      (now : Instant) (o : Option (Drift P)) (w : World)
      → host.is_executable action.source ≡ true
      → (str_eq action.source cleanup_source || str_eq action.source catalog_source) ≡ false
      → ((d : Drift P) → o ≡ some d → drift_fingerprint host.sha256 d ≡ k)
      → Does (Licensed host action k actor token) w (apply_to_drift host action actor now o w).1
  unfolding apply_to_drift write_audit
  apply_to_drift-Does now none w x other same = record {
    same_findings = refl;
    same_actions = refl;
    effect = inl refl;
  }
  apply_to_drift-Does now (some drift) w x other same =
      Does-conclude host action k actor token approve now (remediate host action.source drift) w (
        remediate-Does host action k actor token drift w (host.remediate w.ran action.source drift)
          refl x other (same drift refl))

  apply_collected-Does :
      (now : Instant) (o : Option (List (Drift P))) (w : World)
      → host.is_executable action.source ≡ true
      → (str_eq action.source cleanup_source || str_eq action.source catalog_source) ≡ false
      → Does (Licensed host action k actor token) w (apply_collected host action k actor now o w).1
  unfolding apply_collected
  apply_collected-Does now none w x other = Does-same host action k actor token w
  apply_collected-Does now (some drifts) w x other = apply_to_drift-Does now _ w x other (λ d f.
      (eq_iff (drift_fingerprint host.sha256 d) k).0
        (find-holds (λ d. str_eq (drift_fingerprint host.sha256 d) k) drifts d f))

  apply_drift-Approval :
      (now : Instant) (w : World)
      → (str_eq action.source cleanup_source || str_eq action.source catalog_source) ≡ false
      → Approval w (apply_drift host action k actor now w).1
  unfolding apply_drift
  apply_drift-Approval now w other =
      if-Approval (not (host.is_executable action.source)) _ _ w (λ _. untouched refl)
        (λ x. claimed-Approval _ w (λ v.
          apply_collected-Does now (host.collect_drift v.ran action.source action.path) v
            (ground (arith, x)) other))

  apply_found-Approval :
      (now : Instant) (w : World)
      → Approval w (apply_found host (some action) k actor now token w).1
  unfolding apply_found
  apply_found-Approval now w =
      if-Approval (not (same_status action.status pending)) _ _ w (λ _. untouched refl)
        (λ _.
          if-Approval (str_eq action.source breakglass_source) _ _ w
            (apply_breakglass-Approval now w)
            (λ _.
              if-Approval (str_eq action.source solution_source) _ _ w
                (apply_solution-Approval now w)
                (λ _.
                  if-Approval
                    (str_eq action.source cleanup_source || str_eq action.source catalog_source) _ _
                    w (apply_command-Approval now w) (apply_drift-Approval now w))))

-- The same, for the action that stands under `k`.
pub apply_any-Approval :
    {P : Type 0} (host : Host P) (k actor token : String) (now : Instant) (w : World)
    (o : Option PendingAction)
    → (((apply_found host o k actor now token w).1 ≡ w)
        ⊎ ((action : PendingAction) × (o ≡ some action)
            × (action.status ≡ pending)
            × Approval host action k actor token w (apply_found host o k actor now token w).1))
unfolding apply_found
apply_any-Approval host k actor token now w none = inl refl
apply_any-Approval host k actor token now w (some action) =
    elim (Bool-cases (same_status action.status pending)) [
      | inl p ↦ inr (
        action,
        refl,
        same_status_sound action.status pending p,
        apply_found-Approval host action k actor token now w,
      )
      | inr p ↦ inl (rw p refl)
    ]
