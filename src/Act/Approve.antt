-- ===== src/Act/Approve.antt =====
-- act/approve.py and act/breakglass.py: approving and declining a pending action.
pub mod Licensed
pub mod Approval
pub mod Steady
pub mod Recorded
pub mod Safety
pub mod Runs
pub mod Declined
pub mod Audited
use steadystate_ai.Prelude.{
  ℕ, Bool, true, false, not, ◌&&◌, ◌||◌, Option, none, some, List, [], ◌∷◌, String, str_eq, find,
  keep, any, map, leb, is_empty, if◌then◌else◌,
}
use steadystate_ai.Prelude.Texts.{Text, codes, text_eq, strip, split_on}
use steadystate_ai.State.Findings.{Instant}
use steadystate_ai.State.Pending.{
  PendingAction, pending, approved, declined, same_status, get_pending, set_pending_status,
  claim_pending,
}
use steadystate_ai.State.Audit.{
  AuditEntry, Decision, approve, decline, break_glass, Outcome, verified, applied, failed, noop,
  turned_down, record_audit,
}
use steadystate_ai.Model.{Drift, drift_fingerprint}
use steadystate_ai.Act.Bounds.{default_bound, confirmation_tier}
use steadystate_ai.Act.Catalog.{CatalogAction, action_for_command}
use steadystate_ai.Act.Host.{
  Host, World, Exec, returned, raised, pure, raise, proceed, ◌>>=◌, ◌>>◌, log_event, remediation,
  RemediationResult, Detail, drift_absent, Attempt, finished, crashed,
}
use steadystate_ai.Act.Execute.{run_catalog_action, run_cleanup, run_solution, solution_named}

abbrev pub breakglass_source : String
breakglass_source = "kubectl-breakglass"

abbrev pub cleanup_source : String
cleanup_source = "kubectl-cleanup"

abbrev pub catalog_source : String
catalog_source = "kubectl-catalog"

abbrev pub solution_source : String
solution_source = "solution"

-- The texts that `apply_pending` returns.
pub data Message : Type 0 where
  no_pending : Message
  breakglass_off : String → Message
  type_target : String → String → Message
  observe_only : String → Message
  drift_gone : Message
  said : Detail → Message

abbrev pub Applied : Type 0
Applied = Message × Option RemediationResult

abbrev pub nothing_pending : Applied
nothing_pending = (no_pending, none)

-- `VERIFIED if result.verified else APPLIED if result.applied else FAILED`
abbrev pub outcome_of : RemediationResult → Outcome
outcome_of result = if result.verified then verified else if result.applied then applied else failed

-- `_audit`
abbrev pub audit_entry :
    PendingAction → String → Decision → Outcome → Option Detail → Instant → AuditEntry Detail
audit_entry action actor decision outcome detail now = record {
  fingerprint = action.fingerprint;
  source = action.source;
  drift_identity = action.drift_identity;
  actor = actor;
  decision = decision;
  outcome = outcome;
  environment = action.environment;
  detail = detail;
  at = now;
}

-- `breakglass_users` and `breakglass_allowed`
unfoldable pub breakglass_users : Text → List Text
unfolding split_on strip
breakglass_users raw = keep (λ u. not (is_empty u)) (map strip (split_on 44 raw))

unfoldable pub breakglass_allowed : Text → String → Bool
unfolding breakglass_users text_eq
breakglass_allowed raw actor = any (text_eq (codes actor)) (breakglass_users raw)

-- `store.claim_pending(fingerprint, PENDING, APPROVED, actor)`
unfoldable pub claim : String → String → Exec Bool
claim k actor w =
    let (actions, won) = claim_pending k pending approved (some actor) w.actions in
    (returned won, record w { actions = actions })

unfoldable pub write_audit : AuditEntry Detail → Instant → Exec (Unit {0})
write_audit entry now w = (returned tt, record w { audit = record_audit entry now w.audit })

-- What follows a run: the audit record and the answer.
unfoldable pub conclude :
    PendingAction → String → Decision → Instant → RemediationResult → Exec Applied
unfolding write_audit
conclude action actor decision now result = do
  write_audit (audit_entry action actor decision (outcome_of result) (some result.detail) now) now
  pure (said result.detail, some result)

-- The claim that every path makes before anything that cannot be undone.
unfoldable pub claimed : String → String → Exec Applied → Exec Applied
unfolding claim
claimed k actor body = claim k actor >>= λ won. if won then body else pure nothing_pending

abbrev pub override_tier : Option CatalogAction → ℕ
override_tier none = 0
override_tier (some a) = confirmation_tier a.envelope default_bound

module _ {P : Type 0} (host : Host P) where
  unfoldable pub apply_breakglass :
      PendingAction → String → String → Instant → String → Exec Applied
  unfolding claimed conclude breakglass_allowed
  apply_breakglass action k actor now token =
      if not (breakglass_allowed host.breakglass_users actor)
      then pure (breakglass_off actor, none)
      else if leb 2 (override_tier (action_for_command host.unicode action.command))
          && not (str_eq token action.drift_identity)
      then pure (type_target action.fingerprint action.drift_identity, none)
      else claimed k actor
          (run_catalog_action host action true >>= conclude action actor break_glass now)

  unfoldable pub apply_solution : PendingAction → String → String → Instant → Exec Applied
  unfolding claimed conclude
  apply_solution action k actor now = claimed k actor (
      run_solution host action (solution_named host action.drift_identity)
      >>= conclude action actor approve now)

  unfoldable pub apply_command : PendingAction → String → String → Instant → Exec Applied
  unfolding claimed conclude
  apply_command action k actor now = claimed k actor (
      (if str_eq action.source cleanup_source
        then run_cleanup host action
        else run_catalog_action host action false)
      >>= conclude action actor approve now)

  -- `executor.remediate(drift, confirm=True)`
  unfoldable pub remediate : String → Drift P → Exec RemediationResult
  remediate source drift w =
      let w' = log_event (remediation source (drift_fingerprint host.sha256 drift)) w in
      elim (host.remediate w.ran source drift) [
        | finished result ↦ (returned result, w')
        | crashed ↦ (raised, w')
      ]

  unfoldable pub apply_to_drift : PendingAction → String → Instant → Option (Drift P) → Exec Applied
  unfolding conclude write_audit remediate
  apply_to_drift action actor now none = do
    write_audit (audit_entry action actor approve noop (some drift_absent) now) now
    pure (drift_gone, none)
  apply_to_drift action actor now (some drift) =
      remediate action.source drift >>= conclude action actor approve now

  -- What follows the re-collection, which may raise: the drift with the fingerprint, if it is there.
  unfoldable pub apply_collected :
      PendingAction → String → String → Instant → Option (List (Drift P)) → Exec Applied
  unfolding apply_to_drift
  apply_collected action k actor now none = raise
  apply_collected action k actor now (some drifts) =
      apply_to_drift action actor now
        (find (λ d. str_eq (drift_fingerprint host.sha256 d) k) drifts)

  unfoldable pub apply_drift : PendingAction → String → String → Instant → Exec Applied
  unfolding claimed apply_collected
  apply_drift action k actor now =
      if not (host.is_executable action.source)
      then pure (observe_only action.source, none)
      else claimed k actor (λ w.
        apply_collected action k actor now (host.collect_drift w.ran action.source action.path) w)

  unfoldable pub apply_found :
      Option PendingAction → String → String → Instant → String → Exec Applied
  unfolding apply_breakglass apply_solution apply_command apply_drift
  apply_found none k actor now token = pure nothing_pending
  apply_found (some action) k actor now token =
      if not (same_status action.status pending)
      then pure nothing_pending
      else if str_eq action.source breakglass_source
      then apply_breakglass action k actor now token
      else if str_eq action.source solution_source
      then apply_solution action k actor now
      else if str_eq action.source cleanup_source || str_eq action.source catalog_source
      then apply_command action k actor now
      else apply_drift action k actor now

  -- `apply_pending`
  unfoldable pub apply_pending : String → String → Instant → String → Exec Applied
  unfolding apply_found
  apply_pending k actor now token w = apply_found (get_pending w.actions k) k actor now token w

-- `decline_pending`: whether there was an action to decline
unfoldable pub decline_found : Option PendingAction → String → String → Instant → Exec Bool
unfolding write_audit
decline_found none k actor now w = (returned false, w)
decline_found (some action) k actor now w =
    (write_audit (audit_entry action actor decline turned_down none now) now >>= λ _. pure true)
      (record w { actions = set_pending_status k declined (some actor) w.actions })

unfoldable pub decline_pending : String → String → Instant → Exec Bool
unfolding decline_found
decline_pending k actor now w = decline_found (get_pending w.actions k) k actor now w
