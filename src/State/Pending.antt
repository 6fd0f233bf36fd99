-- ===== src/State/Pending.antt =====
-- The pending_actions table of state.py.
pub mod Claims
pub mod Refinement
use steadystate_ai.Prelude.{
  ℕ, suc, Bool, true, false, ◌&&◌, Option, none, some, List, [], ◌∷◌, ◌++◌, String, str_eq, ◌==◌,
  keep, if◌then◌else◌,
}
use steadystate_ai.Prelude.Texts.{Text}
use steadystate_ai.Prelude.Rows.{by_key, modify, delete}
use steadystate_ai.State.Findings.{Instant}

-- PENDING, APPROVED, DECLINED
pub data PendingStatus : Type 0 where
  pending approved declined : PendingStatus

abbrev pub same_status : PendingStatus → PendingStatus → Bool
same_status pending pending = true
same_status approved approved = true
same_status declined declined = true
same_status _ _ = false

pub record PendingAction : Type 0 where
  pub fingerprint : String
  pub source : String
  pub path : String
  pub drift_identity : String
  pub command : Text
  pub status : PendingStatus
  pub created_at : Instant
  pub actor : Option String
  pub environment : Option String
  pub patch : Option String

abbrev pub pending_key : PendingAction → String
pending_key a = a.fingerprint

abbrev pub Actions : Type 0
Actions = List PendingAction

-- `StateStore.get_pending`
unfoldable pub get_pending : Actions → String → Option PendingAction
get_pending rows fingerprint = by_key pending_key fingerprint rows

-- INSERT OR REPLACE: the row with the same key goes, and the new one is added.
abbrev pub replace : PendingAction → Actions → Actions
replace row rows = delete pending_key row.fingerprint rows ++ (row ∷ [])

abbrev pub offered : PendingAction → Instant → PendingAction
offered action created = record action { status = pending; created_at = created; actor = none }

abbrev pub offer : Option PendingAction → PendingAction → Instant → Actions → Actions
offer none action now rows = replace (offered action now) rows
offer (some existing) action now rows =
    if same_status existing.status declined
    then rows
    else replace (offered action existing.created_at) rows

-- `StateStore.record_pending`
unfoldable pub record_pending : PendingAction → Instant → Actions → Actions
record_pending action now rows = offer (get_pending rows action.fingerprint) action now rows

abbrev pub set_status : PendingStatus → Option String → PendingAction → PendingAction
set_status status actor a = record a { status = status; actor = actor }

-- `StateStore.set_pending_status`
unfoldable pub set_pending_status : String → PendingStatus → Option String → Actions → Actions
set_pending_status fingerprint status actor =
    modify pending_key fingerprint (set_status status actor)

-- UPDATE ... WHERE fingerprint = ? AND status = ?
unfoldable pub claims : String → PendingStatus → PendingAction → Bool
claims fingerprint from a = str_eq a.fingerprint fingerprint && same_status a.status from

unfoldable pub update_claimed :
    String → PendingStatus → PendingStatus → Option String → Actions → Actions
unfolding claims
update_claimed fingerprint from to actor [] = []
update_claimed fingerprint from to actor (a ∷ rows) =
    (if claims fingerprint from a then set_status to actor a else a)
    ∷ update_claimed fingerprint from to actor rows

-- `cursor.rowcount`
unfoldable pub claimed_rows : String → PendingStatus → Actions → ℕ
unfolding claims
claimed_rows fingerprint from [] = 0
claimed_rows fingerprint from (a ∷ rows) =
    let rest = claimed_rows fingerprint from rows in
    if claims fingerprint from a then suc rest else rest

-- `StateStore.claim_pending`
unfoldable pub claim_pending :
    String → PendingStatus → PendingStatus → Option String → Actions → Actions × Bool
unfolding update_claimed claimed_rows
claim_pending fingerprint from to actor rows =
    (update_claimed fingerprint from to actor rows, claimed_rows fingerprint from rows == 1)
