-- ===== src/State/Pending/Claims.antt =====
-- Claiming and offering in the pending_actions table (src/steadystate/state.py).
use mathlib.Core.Option
use steadystate_ai.Prelude.{
  ℕ, ◌+◌, ◌≤◌, ◌≡◌, ◌↔◌, refl, inl, inr, Bool, true, Option, none, some, List, [], ◌∷◌, String,
  str_eq, eq_iff, eq_refl, arith, ap, ◌∙◌, ◌==◌, Bool-cases, if◌then◌else◌,
}
use steadystate_ai.Prelude.Rows.{
  by_key, modify, delete, Unique, by_key-append, by_key-modify, by_key-delete, Unique-append,
  Unique-modify, Unique-delete,
}
use steadystate_ai.State.Findings.{Instant}
use steadystate_ai.State.Pending.{
  PendingStatus, pending, approved, declined, same_status, PendingAction, pending_key, Actions,
  get_pending, replace, offered, offer, record_pending, set_status, update_claimed, claimed_rows,
  claim_pending,
}

pub same_status_sound : (s t : PendingStatus) → same_status s t ≡ true → s ≡ t
same_status_sound s t h = ground arith

pub same_status_refl : (s : PendingStatus) → same_status s s ≡ true
same_status_refl s = ground arith

abbrev pub claim_row : PendingStatus → PendingStatus → Option String → PendingAction → PendingAction
claim_row from to actor a = if same_status a.status from then set_status to actor a else a

claim_row-key :
    (from to : PendingStatus) (actor : Option String) (a : PendingAction)
    → (claim_row from to actor a).fingerprint ≡ a.fingerprint
claim_row-key from to actor a = ground arith

-- How many rows a claim finds: the row of the action, if it has the status claimed from.
abbrev pub matching : PendingStatus → Option PendingAction → ℕ
matching from none = 0
matching from (some a) = if same_status a.status from then 1 else 0

matching-one :
    (from : PendingStatus) (o : Option PendingAction)
    → (matching from o == 1) ≡ true
    → (a : PendingAction) × (o ≡ some a) × (a.status ≡ from)
matching-one from none h = absurd (cc)
matching-one from (some a) h = (a, refl, same_status_sound a.status from (ground (arith, h)))

matching-of :
    (from : PendingStatus) (o : Option PendingAction) (a : PendingAction)
    → o ≡ some a
    → a.status ≡ from
    → (matching from o == 1) ≡ true
matching-of from o a h e = ground (arith, h, e, same_status_refl from)

module _ (k : String) (from to : PendingStatus) (actor : Option String) where
  update_claimed_lem :
      (rows : Actions)
      → update_claimed k from to actor rows ≡ modify pending_key k (claim_row from to actor) rows
  unfolding update_claimed modify
  update_claimed_lem [] = refl
  update_claimed_lem (a ∷ rows) = ground (arith, update_claimed_lem rows)

  claimed_rows_lem :
      (rows : Actions)
      → Unique pending_key rows
      → claimed_rows k from rows ≡ matching from (get_pending rows k)
  unfolding claimed_rows get_pending by_key Unique
  claimed_rows_lem [] u = refl
  claimed_rows_lem (a ∷ rows) u =
      ground (arith, claimed_rows_lem rows u.1, u.0, eq_iff a.fingerprint k)

  -- A claim succeeds exactly when the action is there with the status claimed from.
  pub claim_pending_iff :
      (rows : Actions)
      → Unique pending_key rows
      → ((claim_pending k from to actor rows).1 ≡ true)
        ↔ ((a : PendingAction) × (get_pending rows k ≡ some a) × (a.status ≡ from))
  unfolding claim_pending
  claim_pending_iff rows u = (
    λ h. matching-one from (get_pending rows k) (rw (← claimed_rows_lem rows u) h),
    λ (a, found, e). rw (claimed_rows_lem rows u) (matching-of from (get_pending rows k) a found e),
  )

  pub get-claim_pending :
      (rows : Actions) (j : String)
      → get_pending (claim_pending k from to actor rows).0 j ≡ (
          if str_eq k j
          then Option.map (claim_row from to actor) (get_pending rows j)
          else get_pending rows j)
  unfolding claim_pending get_pending
  get-claim_pending rows j =
      ap (by_key pending_key j) (update_claimed_lem rows)
      ∙ by_key-modify pending_key k (claim_row from to actor) (claim_row-key from to actor) j rows

  pub claim_pending-Unique :
      (rows : Actions)
      → Unique pending_key rows
      → Unique pending_key (claim_pending k from to actor rows).0
  unfolding claim_pending
  claim_pending-Unique rows u =
      rw update_claimed_lem
        (Unique-modify pending_key k (claim_row from to actor) (claim_row-key from to actor) rows u)

-- Approvers who claim one action in turn, each by one atomic statement, with what each is told.
unfoldable pub race : String → List String → Actions → List Bool × Actions
race k [] rows = ([], rows)
race k (actor ∷ actors) rows =
    let (rows', won) = claim_pending k pending approved (some actor) rows in
    let (told, rows'') = race k actors rows' in (won ∷ told, rows'')

abbrev pub wins : List Bool → ℕ
wins [] = 0
wins (b ∷ bs) = (if b then 1 else 0) + wins bs

-- What a claim leaves has nothing more to claim.
matching-claimed :
    (actor : Option String) (o : Option PendingAction)
    → matching pending (Option.map (claim_row pending approved actor) o) ≡ 0
matching-claimed actor none = refl
matching-claimed actor (some a) = ground arith

pub claim-won :
    (k : String) (from to : PendingStatus) (actor : Option String) (rows : Actions)
    → Unique pending_key rows
    → (claim_pending k from to actor rows).1 ≡ (matching from (get_pending rows k) == 1)
unfolding claim_pending
claim-won k from to actor rows u = rw (claimed_rows_lem k from to actor rows u) refl

pub after_claim :
    (k : String) (actor : Option String) (rows : Actions)
    → matching pending (get_pending (claim_pending k pending approved actor rows).0 k) ≡ 0
after_claim k actor rows =
    ap (matching pending) (get-claim_pending k pending approved actor rows k ∙ rw (eq_refl k) refl)
    ∙ matching-claimed actor (get_pending rows k)

matching-le : (from : PendingStatus) (o : Option PendingAction) → matching from o ≤ 1
matching-le from none = omega arith
matching-le from (some a) = ground arith

race-none :
    (k : String) (actors : List String) (rows : Actions)
    → Unique pending_key rows
    → matching pending (get_pending rows k) ≡ 0
    → wins (race k actors rows).0 ≡ 0
unfolding race
race-none k [] rows u h = refl
race-none k (actor ∷ actors) rows u h =
    let later : ℕ = wins (race k actors (claim_pending k pending approved (some actor) rows).0).0 in
    let none_later : later ≡ 0 =
      race-none k actors (claim_pending k pending approved (some actor) rows).0
        (claim_pending-Unique k pending approved (some actor) rows u)
        (after_claim k (some actor) rows) in
    ground (arith, claim-won k pending approved (some actor) rows u, none_later, h)

-- Of the approvers who race for a pending action exactly one wins; for an action that is absent or
-- no longer pending none does.
pub race-one_winner :
    (k actor : String) (actors : List String) (rows : Actions)
    → Unique pending_key rows
    → wins (race k (actor ∷ actors) rows).0 ≡ matching pending (get_pending rows k)
unfolding race
race-one_winner k actor actors rows u =
    let later : ℕ = wins (race k actors (claim_pending k pending approved (some actor) rows).0).0 in
    let none_later : later ≡ 0 =
      race-none k actors (claim_pending k pending approved (some actor) rows).0
        (claim_pending-Unique k pending approved (some actor) rows u)
        (after_claim k (some actor) rows) in
    ground (
      arith,
      claim-won k pending approved (some actor) rows u,
      none_later,
      matching-le pending (get_pending rows k),
    )

-- The row that `record_pending` leaves for an action: a declined one stays as it is, any other is
-- pending, with the instant at which it was first offered.
abbrev pub offered_row : Option PendingAction → PendingAction → Instant → PendingAction
offered_row none action now = offered action now
offered_row (some existing) action now =
    if same_status existing.status declined then existing else offered action existing.created_at

get-replace :
    (row : PendingAction) (rows : Actions) (j : String)
    → get_pending (replace row rows) j
      ≡ (if str_eq row.fingerprint j then some row else get_pending rows j)
unfolding get_pending
get-replace row rows j =
    by_key-append pending_key j (delete pending_key row.fingerprint rows) row
    ∙ rw by_key-delete (ground arith)

get-offer :
    (action : PendingAction) (now : Instant) (rows : Actions) (j : String)
    (o : Option PendingAction)
    → get_pending rows action.fingerprint ≡ o
    → get_pending (offer o action now rows) j ≡ (
        if str_eq action.fingerprint j then some (offered_row o action now) else get_pending rows j)
get-offer action now rows j none h = get-replace (offered action now) rows j
get-offer action now rows j (some existing) h =
    elim (Bool-cases (same_status existing.status declined)) [
      | inl e ↦ ground (arith, h, e, eq_iff action.fingerprint j, ap (get_pending rows))
      | inr e ↦ rw e (get-replace (offered action existing.created_at) rows j)
    ]

Unique-replace :
    (row : PendingAction) (rows : Actions)
    → Unique pending_key rows
    → Unique pending_key (replace row rows)
Unique-replace row rows u =
    Unique-append pending_key (delete pending_key row.fingerprint rows) row
      (Unique-delete pending_key row.fingerprint rows u)
      (by_key-delete pending_key row.fingerprint row.fingerprint rows
        ∙ rw (eq_refl row.fingerprint) refl)

Unique-offer :
    (action : PendingAction) (now : Instant) (rows : Actions) (o : Option PendingAction)
    → Unique pending_key rows
    → Unique pending_key (offer o action now rows)
Unique-offer action now rows none u = Unique-replace (offered action now) rows u
Unique-offer action now rows (some existing) u =
    elim (Bool-cases (same_status existing.status declined)) [
      | inl e ↦ rw e u
      | inr e ↦ rw e (Unique-replace (offered action existing.created_at) rows u)
    ]

-- `record_pending` offers an action unless it was declined, keeps the instant at which it was first
-- offered, clears the actor, and touches no other action.
pub get-record_pending :
    (action : PendingAction) (now : Instant) (rows : Actions) (j : String)
    → get_pending (record_pending action now rows) j ≡ (
        if str_eq action.fingerprint j
        then some (offered_row (get_pending rows action.fingerprint) action now)
        else get_pending rows j)
unfolding record_pending
get-record_pending action now rows j =
    get-offer action now rows j (get_pending rows action.fingerprint) refl

pub record_pending-Unique :
    (action : PendingAction) (now : Instant) (rows : Actions)
    → Unique pending_key rows
    → Unique pending_key (record_pending action now rows)
unfolding record_pending
record_pending-Unique action now rows u =
    Unique-offer action now rows (get_pending rows action.fingerprint) u
