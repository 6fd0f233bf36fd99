-- ===== src/Act/Approve/Steady.antt =====
-- What approvals leave pending (src/steadystate/act/approve.py).
use steadystate_ai.Prelude.{
  ◌≡◌, refl, inl, inr, Option, none, some, List, [], ◌∷◌, String, str_eq, eq_iff, arith, ap, sym,
  ◌∙◌, Bool-cases,
}
use steadystate_ai.State.Findings.{Instant}
use steadystate_ai.State.Pending.{
  PendingAction, pending, approved, same_status, get_pending, claim_pending,
}
use steadystate_ai.State.Pending.Claims.{
  matching, after_claim, same_status_sound, get-claim_pending,
}
use steadystate_ai.Act.Host.{Host, World}
use steadystate_ai.Act.Approve.{apply_pending}
use steadystate_ai.Act.Approve.Approval.{untouched, acted, apply_any-Approval}

-- What is pending in a world was the same row in an earlier one.
unfoldable pub Steady : World → World → Type 0
Steady w v =
    (j : String) (action : PendingAction)
    → get_pending v.actions j ≡ some action
    → action.status ≡ pending
    → get_pending w.actions j ≡ some action

Steady-same : (w v : World) → v ≡ w → Steady w v
unfolding Steady
Steady-same w v e j action found p = ap (λ u. get_pending u.actions j) (sym e) ∙ found

pub Steady-refl : (w : World) → Steady w w
Steady-refl w = Steady-same w w refl

pub Steady-then : (u v w : World) → Steady u v → Steady v w → Steady u w
unfolding Steady
Steady-then u v w h g j action found p = h j action (g j action found p) p

claim_pending-Steady :
    (k : String) (actor : Option String) (w v : World)
    → v.actions ≡ (claim_pending k pending approved actor w.actions).0
    → Steady w v
unfolding Steady
claim_pending-Steady k actor w v e j action found p = elim (Bool-cases (str_eq k j)) [
  | inl same ↦ absurd (
      ground (
        arith,
        after_claim k actor w.actions,
        ap (λ rows. get_pending rows j) e,
        (eq_iff k j).0 same,
        found,
        p,
      ))
  | inr other ↦
      let kept : get_pending (claim_pending k pending approved actor w.actions).0 j
          ≡ get_pending w.actions j =
        get-claim_pending k pending approved actor w.actions j ∙ rw other refl in
      sym kept ∙ ap (λ rows. get_pending rows j) (sym e) ∙ found
]

-- An approval makes no action pending and changes none that it leaves pending.
pub apply_pending-Steady :
    {P : Type 0} (host : Host P) (k actor token : String) (now : Instant) (w : World)
    → Steady w (apply_pending host k actor now token w).1
unfolding apply_pending
apply_pending-Steady host k actor token now w =
    elim (apply_any-Approval host k actor token now w (get_pending w.actions k)) [
      | inl e ↦ Steady-same w _ e
      | inr (action, found, p, a) ↦ elim a [
        | untouched e ↦ Steady-same w _ e
        | acted d ↦ claim_pending-Steady k (some actor) w _ d.same_actions
      ]
    ]

unpending :
    (o : Option PendingAction)
    → ((action : PendingAction) → o ≡ some action → ¬ (action.status ≡ pending))
    → matching pending o ≡ 0
unpending none h = refl
unpending (some action) h = elim (Bool-cases (same_status action.status pending)) [
  | inl e ↦ absurd (h action refl (same_status_sound action.status pending e))
  | inr e ↦ ground (arith, e)
]

-- What is not pending does not become so.
pub Steady-matching :
    (k : String) (w v : World)
    → Steady w v
    → matching pending (get_pending w.actions k) ≡ 0
    → matching pending (get_pending v.actions k) ≡ 0
unfolding Steady
Steady-matching k w v steady h =
    unpending (get_pending v.actions k)
      (λ action found p. ground (arith, ap (matching pending) (steady k action found p), h, p))

-- Approvals in a row, each with a fingerprint, an actor, an instant and a token.
unfoldable pub approvals :
    {P : Type 0} → Host P → List (String × String × Instant × String) → World → World
unfolding apply_pending
approvals host [] w = w
approvals host ((k, actor, now, token) ∷ more) w =
    approvals host more (apply_pending host k actor now token w).1

pub approvals-Steady :
    {P : Type 0} (host : Host P) (more : List (String × String × Instant × String)) (w : World)
    → Steady w (approvals host more w)
unfolding approvals
approvals-Steady host [] w = Steady-refl w
approvals-Steady host ((k, actor, now, token) ∷ more) w =
    let v : World = (apply_pending host k actor now token w).1 in
    Steady-then w v (approvals host more v) (apply_pending-Steady host k actor token now w)
      (approvals-Steady host more v)
