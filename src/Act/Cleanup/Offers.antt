-- ===== src/Act/Cleanup/Offers.antt =====
-- The actions that `record_cleanups` leaves in the table (src/steadystate/act/cleanup.py).
use steadystate_ai.Prelude.{
  ℕ, ◌≡◌, inl, inr, true, Option, none, some, List, [], ◌∷◌, String, str_eq, arith, ap, sym, ◌∙◌,
  Bool-cases,
}
use mathlib.Core.Option.{some-injective}
use steadystate_ai.Prelude.Texts.{Text}
use steadystate_ai.Model.{Symptom}
use steadystate_ai.State.Findings.{Instant}
use steadystate_ai.State.Pending.{
  PendingAction, pending, declined, same_status, Actions, get_pending, record_pending,
}
use steadystate_ai.State.Pending.Claims.{offered_row, get-record_pending}
use steadystate_ai.Act.Kubectl.{WideWord}
use steadystate_ai.Act.Catalog.{is_safe_cleanup}
use steadystate_ai.Act.Approve.{cleanup_source}
use steadystate_ai.Act.Cleanup.{cleanup_row, record_cleanup, record_cleanups}

-- Every cleanup that waits for an approval is a command that the gate accepts.
unfoldable pub OnlySafe : WideWord → Actions → Type 0
OnlySafe wide rows =
    (j : String) (a : PendingAction)
    → get_pending rows j ≡ some a
    → a.source ≡ cleanup_source
    → a.status ≡ pending
    → is_safe_cleanup wide a.command ≡ true

module _ (wide : WideWord) (sha256 : String → String) (now : Instant) where
  offered-safe :
      (o : Option PendingAction) (row a : PendingAction)
      → is_safe_cleanup wide row.command ≡ true
      → offered_row o row now ≡ a
      → a.status ≡ pending
      → is_safe_cleanup wide a.command ≡ true
  offered-safe none row a v e p = ap (λ x. is_safe_cleanup wide x.command) (sym e) ∙ v
  offered-safe (some existing) row a v e p =
      elim (Bool-cases (same_status existing.status declined)) [
        | inl d ↦ ground (arith, d, e, p)
        | inr d ↦ ap (λ x. is_safe_cleanup wide x.command) (sym e) ∙ rw d v
      ]

  record_pending-OnlySafe :
      (rows : Actions) (row : PendingAction)
      → OnlySafe wide rows
      → is_safe_cleanup wide row.command ≡ true
      → OnlySafe wide (record_pending row now rows)
  unfolding OnlySafe
  record_pending-OnlySafe rows row h v j a g s p =
      let g' = sym (get-record_pending row now rows j) ∙ g in
      elim (Bool-cases (str_eq row.fingerprint j)) [
        | inl e ↦
            offered-safe (get_pending rows row.fingerprint) row a v
              (some-injective _ _ (rw e at g')) p
        | inr e ↦ h j a (rw e at g') s p
      ]

  record_cleanup-OnlySafe :
      (s : Symptom) (o : Option Text) (state : Actions × ℕ)
      → OnlySafe wide state.0
      → OnlySafe wide (record_cleanup wide sha256 now s o state).0
  record_cleanup-OnlySafe s none state h = h
  record_cleanup-OnlySafe s (some []) state h = h
  record_cleanup-OnlySafe s (some (c ∷ command)) state h =
      elim (Bool-cases (is_safe_cleanup wide (c ∷ command))) [
        | inl e ↦
            rw e (record_pending-OnlySafe state.0 (cleanup_row wide sha256 now s (c ∷ command)) h e)
        | inr e ↦ rw e h
      ]

  -- Offering the fixes of a report, whatever a probe suggests, keeps it true that every cleanup that
  -- waits for an approval is a command that the gate accepts.
  pub record_cleanups-OnlySafe :
      (symptoms : List Symptom) (state : Actions × ℕ)
      → OnlySafe wide state.0
      → OnlySafe wide (record_cleanups wide sha256 now symptoms state).0
  unfolding record_cleanups
  record_cleanups-OnlySafe [] state h = h
  record_cleanups-OnlySafe (s ∷ symptoms) state h =
      record_cleanups-OnlySafe symptoms
        (record_cleanup wide sha256 now s s.recommended_action state)
        (record_cleanup-OnlySafe s s.recommended_action state h)
