-- ===== src/State/Pending/Refinement.antt =====
-- The pending_actions table against a book with one page for each fingerprint
-- (src/steadystate/state.py).
use mathlib.Core.Option
use mathlib.Core.Path.{fun_ext}
use steadystate_ai.Prelude.{
  ◌≡◌, refl, Bool, Option, none, some, List, [], ◌∷◌, String, str_eq, ap, ◌∙◌, ◌==◌, if◌then◌else◌,
}
use steadystate_ai.Prelude.Rows.{Unique, by_key-modify, Unique-modify}
use steadystate_ai.State.Findings.{Instant}
use steadystate_ai.State.Pending.{
  PendingStatus, PendingAction, pending_key, Actions, get_pending, record_pending, set_status,
  set_pending_status, claim_pending,
}
use steadystate_ai.State.Pending.Claims.{
  claim_row, matching, offered_row, get-claim_pending, claim-won, claim_pending-Unique,
  get-record_pending, record_pending-Unique,
}

-- A call of the store that changes the table.
pub data Call : Type 0 where
  offer : PendingAction → Instant → Call
  claim : String → PendingStatus → PendingStatus → Option String → Call
  decide : String → PendingStatus → Option String → Call

-- Only a claim answers.
pub call : Call → Actions → Actions × Option Bool
call (offer action now) rows = (record_pending action now rows, none)
call (claim k from to actor) rows =
    let (rows', won) = claim_pending k from to actor rows in (rows', some won)
call (decide k status actor) rows = (set_pending_status k status actor rows, none)

pub calls : List Call → Actions → Actions × List (Option Bool)
calls [] rows = (rows, [])
calls (c ∷ cs) rows =
    let (rows', answer) = call c rows in
    let (rows'', answers) = calls cs rows' in (rows'', answer ∷ answers)

-- What the table promises: a book from fingerprints to actions, with no rows and no order.
abbrev pub Book : Type 0
Book = String → Option PendingAction

abbrev pub turn : String → (Option PendingAction → Option PendingAction) → Book → Book
turn k f book j = if str_eq k j then f (book j) else book j

pub write : Call → Book → Book × Option Bool
write (offer action now) book = (
  turn action.fingerprint (λ o. some (offered_row (book action.fingerprint) action now)) book,
  none,
)
write (claim k from to actor) book =
    (turn k (Option.map (claim_row from to actor)) book, some (matching from (book k) == 1))
write (decide k status actor) book = (turn k (Option.map (set_status status actor)) book, none)

pub writes : List Call → Book → Book × List (Option Bool)
writes [] book = (book, [])
writes (c ∷ cs) book =
    let (book', answer) = write c book in
    let (book'', answers) = writes cs book' in (book'', answer ∷ answers)

call-Unique :
    (c : Call) (rows : Actions) → Unique pending_key rows → Unique pending_key (call c rows).0
unfolding call set_pending_status
call-Unique (offer action now) rows u = record_pending-Unique action now rows u
call-Unique (claim k from to actor) rows u = claim_pending-Unique k from to actor rows u
call-Unique (decide k status actor) rows u =
    Unique-modify pending_key k (set_status status actor) (λ a. refl) rows u

call-write :
    (c : Call) (rows : Actions)
    → Unique pending_key rows
    → (get_pending (call c rows).0 ≡ (write c (get_pending rows)).0)
      × ((call c rows).1 ≡ (write c (get_pending rows)).1)
unfolding call write set_pending_status get_pending
call-write (offer action now) rows u = (fun_ext (get-record_pending action now rows), refl)
call-write (claim k from to actor) rows u =
    (fun_ext (get-claim_pending k from to actor rows), ap some (claim-won k from to actor rows u))
call-write (decide k status actor) rows u =
    (fun_ext (λ j. by_key-modify pending_key k (set_status status actor) (λ a. refl) j rows), refl)

-- Any sequence of offers, claims and decisions on the table answers what the book answers, and
-- leaves what stands in the book.
pub calls-writes :
    (cs : List Call) (rows : Actions)
    → Unique pending_key rows
    → (get_pending (calls cs rows).0 ≡ (writes cs (get_pending rows)).0)
      × ((calls cs rows).1 ≡ (writes cs (get_pending rows)).1)
unfolding calls writes
calls-writes [] rows u = (refl, refl)
calls-writes (c ∷ cs) rows u =
    let step = call-write c rows u in
    let rest = calls-writes cs (call c rows).0 (call-Unique c rows u) in
    (
      rest.0 ∙ ap (λ book. (writes cs book).0) step.0,
      ap (λ answer. answer ∷ (calls cs (call c rows).0).1) step.1
          ∙ ap (λ answers. (write c (get_pending rows)).1 ∷ answers)
              (rest.1 ∙ ap (λ book. (writes cs book).1) step.0),
    )
