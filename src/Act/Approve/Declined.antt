-- ===== src/Act/Approve/Declined.antt =====
-- `decline_pending` and what may follow it (src/steadystate/act/approve.py).
use mathlib.Core.Option
use steadystate_ai.Prelude.{◌≡◌, refl, Option, some, String, eq_refl, ap, sym, subst, ◌∙◌}
use steadystate_ai.Prelude.Rows.{by_key-modify}
use steadystate_ai.State.Findings.{Instant}
use steadystate_ai.State.Pending.{
  PendingAction, pending_key, pending, declined, Actions, set_status, set_pending_status,
  get_pending, record_pending,
}
use steadystate_ai.State.Pending.Claims.{matching, offered_row, get-record_pending}
use steadystate_ai.Act.Host.{Host, World, returned}
use steadystate_ai.Act.Approve.{nothing_pending, decline_found, decline_pending, apply_pending}
use steadystate_ai.Act.Approve.Safety.{apply_found-none}

get-set_declined :
    (k : String) (actor : Option String) (rows : Actions) (action : PendingAction)
    → get_pending rows k ≡ some action
    → get_pending (set_pending_status k declined actor rows) k
      ≡ some (set_status declined actor action)
unfolding get_pending set_pending_status
get-set_declined k actor rows action h =
    by_key-modify pending_key k (set_status declined actor) (λ a. refl) k rows
    ∙ rw (eq_refl k) (ap (Option.map (set_status declined actor)) h)

declined_row :
    (o : Option PendingAction) (actor : Option String) (action offer : PendingAction) (t : Instant)
    → o ≡ some (set_status declined actor action)
    → matching pending (some (offered_row o offer t)) ≡ 0
declined_row o actor action offer t h =
    subst (λ x. matching pending (some (offered_row x offer t)) ≡ 0) (sym h) refl

matching-offer :
    (k : String) (actor : Option String) (rows : Actions) (action offer : PendingAction)
    (t : Instant)
    → get_pending rows k ≡ some (set_status declined actor action)
    → offer.fingerprint ≡ k
    → matching pending (get_pending (record_pending offer t rows) k) ≡ 0
matching-offer k actor rows action offer t h f =
    ap (matching pending) {y = some (offered_row (get_pending rows k) offer t)}
      (get-record_pending offer t rows k ∙ rw (f, eq_refl k) refl)
    ∙ declined_row (get_pending rows k) actor action offer t h

actions-declined :
    (k actor : String) (now : Instant) (w : World) (action : PendingAction)
    → get_pending w.actions k ≡ some action
    → (decline_pending k actor now w).1.actions
      ≡ set_pending_status k declined (some actor) w.actions
unfolding decline_pending decline_found
actions-declined k actor now w action h = ap (λ o. (decline_found o k actor now w).1.actions) h

-- A decline is final: once an action that is in the store was declined, it may be offered again
-- under its fingerprint, and every approval of it still answers that nothing is pending and changes
-- nothing.
pub decline_pending-final :
    {P : Type 0} (host : Host P) (k actor : String) (now : Instant) (w : World)
    (action offer : PendingAction) (t : Instant) (actor' token : String) (later : Instant)
    → get_pending w.actions k ≡ some action
    → offer.fingerprint ≡ k
    → let v : World = (decline_pending k actor now w).1 in
      let u : World = record v { actions = record_pending offer t v.actions } in
      apply_pending host k actor' later token u ≡ (returned nothing_pending, u)
unfolding apply_pending
decline_pending-final host k actor now w action offer t actor' token later h f =
    let v : World = (decline_pending k actor now w).1 in
    let u : World = record v { actions = record_pending offer t v.actions } in
    apply_found-none host k actor' token later u (get_pending u.actions k) (
      matching-offer k (some actor) v.actions action offer t
        (ap (λ rows. get_pending rows k) (actions-declined k actor now w action h)
          ∙ get-set_declined k (some actor) w.actions action h)
        f)
