-- ===== src/Act/Cleanup.antt =====
-- `record_cleanups` (act/cleanup.py): the safe fix of an evicted pod is offered for approval.
pub mod Offers
use steadystate_ai.Prelude.{
  ℕ, suc, Bool, true, false, Option, none, some, List, [], ◌∷◌, String, if◌then◌else◌,
}
use steadystate_ai.Prelude.Texts.{Text}
use steadystate_ai.Model.{Symptom, symptom_fingerprint}
use steadystate_ai.State.Findings.{Instant}
use steadystate_ai.State.Pending.{PendingAction, pending, Actions, record_pending}
use steadystate_ai.Act.Kubectl.{WideWord}
use steadystate_ai.Act.Catalog.{is_safe_cleanup}
use steadystate_ai.Act.Approve.{cleanup_source}

module _ (wide : WideWord) (sha256 : String → String) (now : Instant) where
  abbrev pub cleanup_row : Symptom → Text → PendingAction
  cleanup_row s command = record {
    fingerprint = symptom_fingerprint sha256 s;
    source = cleanup_source;
    path = "";
    drift_identity = s.identity;
    command = command;
    status = pending;
    created_at = now;
    actor = none;
    environment = none;
    patch = none;
  }

  -- One round of the loop: the table, and how many rows were recorded.
  abbrev pub record_cleanup : Symptom → Option Text → Actions × ℕ → Actions × ℕ
  record_cleanup s none state = state
  record_cleanup s (some []) state = state
  record_cleanup s (some (c ∷ command)) state =
      if is_safe_cleanup wide (c ∷ command)
      then (record_pending (cleanup_row s (c ∷ command)) now state.0, suc state.1)
      else state

  -- `record_cleanups` over the symptoms of the report's alerts
  unfoldable pub record_cleanups : List Symptom → Actions × ℕ → Actions × ℕ
  record_cleanups [] state = state
  record_cleanups (s ∷ symptoms) state =
      record_cleanups symptoms (record_cleanup s s.recommended_action state)
