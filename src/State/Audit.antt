-- ===== src/State/Audit.antt =====
-- The audit_log table of src/steadystate/state.py.
use steadystate_ai.Prelude.{
  ℕ, Bool, true, false, Option, none, some, List, [], ◌∷◌, ◌++◌, String, str_eq, keep, map, take,
}
use mathlib.Core.List.{reverse}
use steadystate_ai.State.Findings.{Instant}

-- APPROVED, DECLINED, BREAKGLASS
pub data Decision : Type 0 where
  approve decline break_glass : Decision

-- VERIFIED, APPLIED, FAILED, NOOP, or DECLINED for a decline
pub data Outcome : Type 0 where
  verified applied failed noop turned_down : Outcome

-- What a decision says for the record; `Detail` stands for the text of the executor's message.
pub record AuditEntry (Detail : Type 0) : Type 0 where
  pub fingerprint : String
  pub source : String
  pub drift_identity : String
  pub actor : String
  pub decision : Decision
  pub outcome : Outcome
  pub environment : Option String
  pub detail : Option Detail
  pub at : Instant

abbrev pub is_success : Outcome → Bool
is_success applied = true
is_success verified = true
is_success _ = false

module _ {Detail : Type 0} where
  -- `StateStore.record_audit`; the newest row stands last.
  unfoldable pub record_audit :
      AuditEntry Detail → Instant → List (AuditEntry Detail) → List (AuditEntry Detail)
  record_audit entry now rows = rows ++ (record entry { at = now } ∷ [])

  abbrev pub in_environment : String → AuditEntry Detail → Bool
  in_environment environment entry = elim entry.environment [
    | none ↦ false
    | some e ↦ str_eq e environment
  ]

  -- `StateStore.audit_log`
  unfoldable pub audit_log : ℕ → Option String → List (AuditEntry Detail) → List (AuditEntry Detail)
  audit_log limit none rows = take limit (reverse rows)
  audit_log limit (some environment) rows =
      take limit (reverse (keep (in_environment environment) rows))

  -- `StateStore.acted_fingerprints`, a set: only membership is asked of it
  unfoldable pub acted_fingerprints : List (AuditEntry Detail) → List String
  acted_fingerprints rows = map (λ e. e.fingerprint) (keep (λ e. is_success e.outcome) rows)
