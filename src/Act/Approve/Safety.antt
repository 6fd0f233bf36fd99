-- ===== src/Act/Approve/Safety.antt =====
-- The effects and the claim of `apply_pending` (src/steadystate/act/approve.py).
use steadystate_ai.Prelude.{
  ◌≡◌, refl, ◌⊎◌, inl, inr, Option, none, some, List, [], ◌∷◌, ◌++◌, String, arith, ap, ◌∙◌,
}
use steadystate_ai.State.Findings.{Instant}
use steadystate_ai.State.Pending.{PendingAction, pending, get_pending}
use steadystate_ai.State.Pending.Claims.{matching, after_claim}
use steadystate_ai.Act.Host.{Host, World, returned, Event}
use steadystate_ai.Act.Approve.{nothing_pending, apply_found, apply_pending}
use steadystate_ai.Act.Approve.Licensed.{Licensed}
use steadystate_ai.Act.Approve.Approval.{untouched, acted, apply_any-Approval}
use steadystate_ai.Act.Approve.Steady.{approvals, approvals-Steady, Steady-matching}

-- An approval makes no effect, or exactly one, for the action that was pending under the fingerprint:
-- a catalog command that an actor of the allowlist overrode with its confirmation, a catalog command
-- within the default bound, an evicted-pod cleanup, the stored command or the workflow of an authored
-- solution, or an executor's remediation of the drift with that fingerprint.
pub apply_pending-Licensed :
    {P : Type 0} (host : Host P) (k actor token : String) (now : Instant) (w : World)
    → (((apply_pending host k actor now token w).1.ran ≡ w.ran)
        ⊎ ((action : PendingAction) × (e : Event) × (get_pending w.actions k ≡ some action)
            × (action.status ≡ pending)
            × Licensed host action k actor token e
            × ((apply_pending host k actor now token w).1.ran ≡ w.ran ++ (e ∷ []))))
unfolding apply_pending
apply_pending-Licensed host k actor token now w =
    elim (apply_any-Approval host k actor token now w (get_pending w.actions k)) [
      | inl e ↦ inl (ap (λ v. v.ran) e)
      | inr (action, found, p, a) ↦ elim a [
        | untouched e ↦ inl (ap (λ v. v.ran) e)
        | acted d ↦ elim d.effect [
          | inl e ↦ inl e
          | inr (e, l, r) ↦ inr (action, e, found, p, l, r)
        ]
      ]
    ]

-- An approval changes nothing, or leaves nothing pending under the fingerprint.
approval-spent :
    {P : Type 0} (host : Host P) (k actor token : String) (now : Instant) (w : World)
    → (((apply_pending host k actor now token w).1 ≡ w)
        ⊎ (matching pending (get_pending (apply_pending host k actor now token w).1.actions k) ≡ 0))
unfolding apply_pending
approval-spent host k actor token now w =
    elim (apply_any-Approval host k actor token now w (get_pending w.actions k)) [
      | inl e ↦ inl e
      | inr (action, found, p, a) ↦ elim a [
        | untouched e ↦ inl e
        | acted d ↦ inr (
            ap (λ rows. matching pending (get_pending rows k)) d.same_actions
            ∙ after_claim k (some actor) w.actions)
      ]
    ]

pub apply_found-none :
    {P : Type 0} (host : Host P) (k actor token : String) (now : Instant) (w : World)
    (o : Option PendingAction)
    → matching pending o ≡ 0
    → apply_found host o k actor now token w ≡ (returned nothing_pending, w)
unfolding apply_found
apply_found-none host k actor token now w none h = refl
apply_found-none host k actor token now w (some action) h = ground (arith, h)

-- Where an approval changed anything, an approval of the same fingerprint in the world that it leaves,
-- or after any further approvals there, by whomever and at whatever instant, answers that nothing is
-- pending and changes nothing. No action is offered in between.
pub apply_pending-once :
    {P : Type 0} (host : Host P) (k actor token : String) (now : Instant) (w : World)
    (between : List (String × String × Instant × String)) (actor' token' : String) (later : Instant)
    → (((apply_pending host k actor now token w).1 ≡ w)
        ⊎ (apply_pending host k actor' later token'
              (approvals host between (apply_pending host k actor now token w).1)
            ≡ (
              returned nothing_pending,
              approvals host between (apply_pending host k actor now token w).1,
            )))
unfolding apply_pending
apply_pending-once host k actor token now w between actor' token' later =
    let u : World = (apply_pending host k actor now token w).1 in
    let v : World = approvals host between u in
    elim (approval-spent host k actor token now w) [
      | inl e ↦ inl e
      | inr e ↦ inr (
          apply_found-none host k actor' token' later v (get_pending v.actions k)
            (Steady-matching k u v (approvals-Steady host between u) e))
    ]
