-- ===== src/Act/Approve/Recorded.antt =====
-- What `apply_pending` writes to the audit log behind a run (src/steadystate/act/approve.py).
use steadystate_ai.Prelude.{
  ◌≡◌, ◌≢◌, subst, Bool-cases, ◌++◌, [], ◌∷◌, ◌∙◌, refl, inl, inr, Bool, true, false, none, some,
  List, String, arith, ap, if◌then◌else◌,
}
use steadystate_ai.Prelude.Texts.{Text}
use steadystate_ai.State.Findings.{Instant}
use steadystate_ai.State.Pending.{PendingAction, pending, approved, claim_pending, Actions}
use steadystate_ai.State.Audit.{
  Decision, approve, break_glass, Outcome, verified, applied, failed, noop, AuditEntry,
  record_audit,
}
use steadystate_ai.Model.{Drift}
use steadystate_ai.Act.Host.{
  Host, World, Exec, Reply, returned, raised, proceed, ◌>>=◌, RemediationResult, Detail,
  drift_absent, Attempt, finished, crashed, Event,
}
use steadystate_ai.Act.Execute.Gated.{Ran, idle, one, SolutionRun, process, dispatch}
use steadystate_ai.Act.Approve.{
  Applied, no_pending, breakglass_source, breakglass_allowed, Message, said, drift_gone,
  breakglass_off, type_target, outcome_of, remediate, observe_only, write_audit, conclude,
  audit_entry, remediate,
}

-- What the record of a result says of it.
pub data Reports (result : RemediationResult) : Outcome → Type 0 where
  verifies : result.verified ≡ true → Reports result verified
  applies : result.verified ≡ false → result.applied ≡ true → Reports result applied
  fails : result.verified ≡ false → result.applied ≡ false → Reports result failed

outcome_of-Reports : (result : RemediationResult) → Reports result (outcome_of result)
outcome_of-Reports result = elim (Bool-cases result.verified) [
  | inl v ↦ subst (Reports result) (ground (arith, v)) (verifies v)
  | inr v ↦ elim (Bool-cases result.applied) [
    | inl a ↦ subst (Reports result) (ground (arith, v, a)) (applies v a)
    | inr a ↦ subst (Reports result) (ground (arith, v, a)) (fails v a)
  ]
]

-- A run adds no record and leaves the actions.
abbrev pub Kept : World → World → Type 0
Kept w w' = (w'.audit ≡ w.audit) × (w'.actions ≡ w.actions)

module _ {P : Type 0} (host : Host P) (action : PendingAction) (k actor token : String)
    (now : Instant) where
  -- A record of the action and of who approved it, and when.
  pub record Entry (decision : Decision) (outcome : Outcome) (detail : Detail)
      (e : AuditEntry Detail) : Type 0 where
    pub same_fingerprint : e.fingerprint ≡ action.fingerprint
    pub same_source : e.source ≡ action.source
    pub same_identity : e.drift_identity ≡ action.drift_identity
    pub same_environment : e.environment ≡ action.environment
    pub by_actor : e.actor ≡ actor
    pub decided : e.decision ≡ decision
    pub came_out : e.outcome ≡ outcome
    pub said_detail : e.detail ≡ some detail
    pub at_now : e.at ≡ now

  -- Break-glass is recorded for the actions of its source and for no other.
  pub data Decided : Decision → Type 0 where
    overridden : action.source ≡ breakglass_source → Decided break_glass
    ordinary : action.source ≢ breakglass_source → Decided approve

  -- Why an approval answers without a result, before it runs anything.
  pub data Refusal (table : Actions) : Message → Type 0 where
    not_pending : action.status ≢ pending → Refusal table no_pending
    claim_lost :
        (claim_pending k pending approved (some actor) table).1 ≡ false → Refusal table no_pending
    not_allowed :
        action.source ≡ breakglass_source
        → breakglass_allowed host.breakglass_users actor ≡ false
        → Refusal table (breakglass_off actor)
    not_confirmed :
        action.source ≡ breakglass_source
        → token ≢ action.drift_identity
        → Refusal table (type_target action.fingerprint action.drift_identity)
    not_executable :
        host.is_executable action.source ≡ false → Refusal table (observe_only action.source)

  pub record Claimed (table : Actions) (w' : World) : Type 0 where
    pub won : (claim_pending k pending approved (some actor) table).1 ≡ true
    pub taken : w'.actions ≡ (claim_pending k pending approved (some actor) table).0

  -- An answer, with the world behind it, after an approval of this action from a table of actions, a
  -- log and the effects so far.
  pub data Audited (table : Actions) (log : List (AuditEntry Detail)) (past : List Event)
      (r : Reply Applied) (w' : World) : Type 0 where
    told :
        (m : Message)
        → Refusal table m
        → r ≡ returned (m, none)
        → w'.audit ≡ log
        → w'.ran ≡ past
        → Audited table log past r w'
    crashes : Claimed table w' → r ≡ raised → w'.audit ≡ log → Audited table log past r w'
    absent :
        (e : AuditEntry Detail)
        → Claimed table w'
        → Entry approve noop drift_absent e
        → r ≡ returned (drift_gone, none)
        → w'.audit ≡ log ++ (e ∷ [])
        → w'.ran ≡ past
        → Audited table log past r w'
    ran :
        (decision : Decision) (outcome : Outcome) (result : RemediationResult)
        (e : AuditEntry Detail)
        → Claimed table w'
        → Decided decision
        → Reports result outcome
        → Entry decision outcome result.detail e
        → r ≡ returned (said result.detail, some result)
        → w'.audit ≡ log ++ (e ∷ [])
        → Audited table log past r w'

  abbrev pub Audit : World → Reply Applied × World → Type 0
  Audit w o = Audited w.actions w.audit w.ran o.0 o.1

  pub audit_entry-Entry :
      (decision : Decision) (outcome : Outcome) (detail : Detail)
      → Entry decision outcome detail (audit_entry action actor decision outcome (some detail) now)
  audit_entry-Entry decision outcome detail = record {
    same_fingerprint = refl;
    same_source = refl;
    same_identity = refl;
    same_environment = refl;
    by_actor = refl;
    decided = refl;
    came_out = refl;
    said_detail = refl;
    at_now = refl;
  }

  pub Ran-Kept : (Q : List Text → Type 0) (w w' : World) → Ran host action Q w w' → Kept w w'
  Ran-Kept Q w w' (idle e) = (ap (λ v. v.audit) e, ap (λ v. v.actions) e)
  Ran-Kept Q w w' (one argv q e) = (ap (λ v. v.audit) e, ap (λ v. v.actions) e)

  pub SolutionRun-Kept : (w w' : World) → SolutionRun host action w w' → Kept w w'
  SolutionRun-Kept w w' (idle e) = (ap (λ v. v.audit) e, ap (λ v. v.actions) e)
  SolutionRun-Kept w w' (process argv h e) = (ap (λ v. v.audit) e, ap (λ v. v.actions) e)
  SolutionRun-Kept w w' (dispatch head spec h e) = (ap (λ v. v.audit) e, ap (λ v. v.actions) e)

  pub remediate-Kept :
      (source : String) (drift : Drift P) (w : World) (a : Attempt)
      → host.remediate w.ran source drift ≡ a
      → Kept w (remediate host source drift w).1
  unfolding remediate
  remediate-Kept source drift w (finished result) h = (ground (arith, h), ground (arith, h))
  remediate-Kept source drift w crashed h = (ground (arith, h), ground (arith, h))

  pub if-Kept :
      (b : Bool) (m n : Exec RemediationResult) (w : World)
      → Kept w (m w).1
      → Kept w (n w).1
      → Kept w ((if b then m else n) w).1
  if-Kept true m n w p q = p
  if-Kept false m n w p q = q

  conclude-reply :
      (decision : Decision) (table : Actions) (v : World) (r : Reply RemediationResult) (w' : World)
      → Decided decision
      → Claimed table v
      → Kept v w'
      → Audited table v.audit v.ran
          (proceed r (conclude action actor decision now) w').0
          (proceed r (conclude action actor decision now) w').1
  unfolding conclude write_audit record_audit
  conclude-reply decision table v (returned result) w' d c h =
      ran decision (outcome_of result) result _ (record { won = c.won; taken = h.1 ∙ c.taken }) d
        (outcome_of-Reports result) (audit_entry-Entry decision (outcome_of result) result.detail)
        refl
        (ap
          (λ log.
            log
            ++ (audit_entry action actor decision (outcome_of result) (some result.detail) now
                ∷ []))
          h.0)
  conclude-reply decision table v raised w' d c h =
      crashes (record { won = c.won; taken = h.1 ∙ c.taken }) refl h.0

  pub bind-Audited :
      (decision : Decision) (table : Actions) (m : Exec RemediationResult) (v : World)
      → Decided decision
      → Claimed table v
      → Kept v (m v).1
      → Audited table v.audit v.ran
          ((m >>= conclude action actor decision now) v).0
          ((m >>= conclude action actor decision now) v).1
  bind-Audited decision table m v d c h = conclude-reply decision table v (m v).0 (m v).1 d c h
