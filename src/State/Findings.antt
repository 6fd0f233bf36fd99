-- ===== src/State/Findings.antt =====
-- The findings table of state.py. An instant is a number: the store keeps the ISO-8601 text of a UTC
-- datetime, whose order as a text is the order of the instants.
pub mod Recording
pub mod Suppression
pub mod Absence
use steadystate_ai.Prelude.{
  ℕ, ◌-◌, Bool, true, false, not, ◌&&◌, ◌||◌, Option, none, some, List, [], ◌∷◌, ◌++◌, String,
  str_eq, leb, ltb, any, all, keep, map, is_empty, if◌then◌else◌,
}
use steadystate_ai.Prelude.Rows.{by_key, modify}

abbrev pub Instant : Type 0
Instant = ℕ

-- OPEN, MUTED, SNOOZED, RESOLVED
pub data Status : Type 0 where
  opened muted snoozed resolved : Status

-- The text that the column holds.
abbrev pub status_text : Status → String
status_text opened = "open"
status_text muted = "muted"
status_text snoozed = "snoozed"
status_text resolved = "resolved"

abbrev pub is_opened : Status → Bool
is_opened opened = true
is_opened _ = false

abbrev pub is_resolved : Status → Bool
is_resolved resolved = true
is_resolved _ = false

-- The evidence of a finding; the NULL that the column may hold is read as the empty dictionary.
abbrev pub Details : Type 0
Details = List (String × String)

pub record Finding : Type 0 where
  pub fingerprint : String
  pub first_seen : Instant
  pub last_seen : Instant
  pub last_severity : String
  pub last_title : String
  pub status : Status
  pub snooze_until : Option Instant
  pub note : Option String
  pub actor : Option String
  pub details : Details

abbrev pub finding_key : Finding → String
finding_key f = f.fingerprint

abbrev pub Findings : Type 0
Findings = List Finding

-- `filter_findings`
unfoldable pub filter_findings : Findings → String → Findings
filter_findings rows status =
    if str_eq status "all"
    then rows
    else if str_eq status "open"
        || str_eq status "resolved"
        || str_eq status "muted"
        || str_eq status "snoozed"
    then keep (λ f. str_eq (status_text f.status) status) rows
    else keep (λ f. not (is_resolved f.status)) rows

-- `StateStore.get`
unfoldable pub get : Findings → String → Option Finding
get rows fingerprint = by_key finding_key fingerprint rows

-- `StateStore.status`
unfoldable pub status_of : Findings → String → Option Status
unfolding get
status_of rows fingerprint = elim (get rows fingerprint) [ none ↦ none | some f ↦ some f.status ]

abbrev pub snooze_holds : Instant → Option Instant → Bool
snooze_holds now none = false
snooze_holds now (some until) = ltb now until

abbrev pub withheld : Instant → Status → Option Instant → Bool
withheld now muted until = true
withheld now snoozed until = snooze_holds now until
withheld now _ until = false

abbrev pub withheld_row : Instant → Option Finding → Bool
withheld_row now none = false
withheld_row now (some f) = withheld now f.status f.snooze_until

-- `StateStore.is_suppressed`
unfoldable pub is_suppressed : Findings → String → Instant → Bool
is_suppressed rows fingerprint now = withheld_row now (get rows fingerprint)

abbrev pub refresh : Status → Option Instant → Instant → Status × Option Instant
refresh resolved until now = (opened, until)
refresh snoozed (some until) now = if leb until now then (opened, none) else (snoozed, some until)
refresh status until now = (status, until)

-- `_refreshed_status`
unfoldable pub refreshed_status : Finding → Instant → Status × Option Instant
refreshed_status existing now = refresh existing.status existing.snooze_until now

-- What `record` returns for one fingerprint.
pub record Sighting : Type 0 where
  pub is_new : Bool
  pub first_seen : Instant
  pub status : Status

-- COALESCE(?, details), where no evidence is given as NULL
abbrev pub coalesce : Details → Details → Details
coalesce fields old = if is_empty fields then old else fields

abbrev pub new_finding : String → String → String → Details → Instant → Finding
new_finding fingerprint severity title fields now = record {
  fingerprint = fingerprint;
  first_seen = now;
  last_seen = now;
  last_severity = severity;
  last_title = title;
  status = opened;
  snooze_until = none;
  note = none;
  actor = none;
  details = fields;
}

abbrev pub seen_again :
    String → String → Details → Instant → Status × Option Instant → Finding → Finding
seen_again severity title fields now (status, until) f = record f {
  last_seen = now;
  last_severity = severity;
  last_title = title;
  status = status;
  snooze_until = until;
  details = coalesce fields f.details;
}

-- One round of the loop of `record`.
unfoldable pub record_one :
    Instant → (String → Details) → String → String → String → Findings → Findings × Sighting
unfolding get refreshed_status
record_one now evidence fingerprint severity title rows = elim (get rows fingerprint) [
  | none ↦ (
    rows ++ (new_finding fingerprint severity title (evidence fingerprint) now ∷ []),
    record { is_new = true; first_seen = now; status = opened },
  )
  | some existing ↦
      let fresh = refreshed_status existing now in
      (
        modify finding_key fingerprint (seen_again severity title (evidence fingerprint) now fresh)
            rows,
        record { is_new = false; first_seen = existing.first_seen; status = fresh.0 },
      )
]

-- A dictionary of what was seen: fingerprint, severity, title.
abbrev pub Seen : Type 0
Seen = List (String × String × String)

-- `StateStore.record`
unfoldable pub record_seen :
    Instant → (String → Details) → Seen → Findings → Findings × List (String × Sighting)
unfolding record_one
record_seen now evidence [] rows = (rows, [])
record_seen now evidence ((fingerprint, severity, title) ∷ seen) rows =
    let (rows', sighting) = record_one now evidence fingerprint severity title rows in
    let (rows'', out) = record_seen now evidence seen rows' in
    (rows'', (fingerprint, sighting) ∷ out)

-- `cutoff`: a grace longer than the time since the first instant is out of a datetime's range.
unfoldable pub is_absent : List String → Instant → Finding → Bool
is_absent current cutoff f =
    is_opened f.status && not (any (str_eq f.fingerprint) current) && leb f.last_seen cutoff

abbrev pub resolve_row : Instant → Finding → Finding
resolve_row now f = record f { status = resolved; last_seen = now }

unfoldable pub resolve_each : Instant → List String → Findings → Findings
resolve_each now [] rows = rows
resolve_each now (fingerprint ∷ absent) rows =
    resolve_each now absent (modify finding_key fingerprint (resolve_row now) rows)

-- `StateStore.resolve_absent`
unfoldable pub resolve_absent : List String → Instant → Instant → Findings → Findings × List String
unfolding is_absent resolve_each
resolve_absent current now grace rows =
    let absent = map finding_key (keep (is_absent current (now - grace)) rows) in
    (resolve_each now absent rows, absent)

abbrev pub status_row :
    Status → Option Instant → Option String → Option String → Instant → Finding → Finding
status_row status until note actor now f = record f {
  status = status;
  snooze_until = until;
  note = note;
  actor = actor;
  last_seen = now;
}

-- The row of a fingerprint that no scan has shown yet.
abbrev pub unseen_row :
    String → Status → Option Instant → Option String → Option String → Instant → Finding
unseen_row fingerprint status until note actor now = record {
  fingerprint = fingerprint;
  first_seen = now;
  last_seen = now;
  last_severity = "unknown";
  last_title = fingerprint;
  status = status;
  snooze_until = until;
  note = note;
  actor = actor;
  details = [];
}

-- `_upsert_status`
unfoldable pub upsert_status :
    String → Status → Option Instant → Option String → Option String → Instant → Findings → Findings
unfolding get
upsert_status fingerprint status until note actor now rows = elim (get rows fingerprint) [
  | none ↦ rows ++ (unseen_row fingerprint status until note actor now ∷ [])
  | some existing ↦ modify finding_key fingerprint (status_row status until note actor now) rows
]

unfoldable pub mute : String → Option String → Option String → Instant → Findings → Findings
unfolding upsert_status
mute fingerprint note actor now = upsert_status fingerprint muted none note actor now

unfoldable pub snooze : String → Instant → Option String → Instant → Findings → Findings
unfolding upsert_status
snooze fingerprint until actor now = upsert_status fingerprint snoozed (some until) none actor now

unfoldable pub resolve : String → Option String → Option String → Instant → Findings → Findings
unfolding upsert_status
resolve fingerprint note actor now = upsert_status fingerprint resolved none note actor now

unfoldable pub unmute : String → Instant → Findings → Findings
unfolding get
unmute fingerprint now rows = elim (get rows fingerprint) [
  | none ↦ rows
  | some existing ↦ modify finding_key fingerprint (status_row opened none none none now) rows
]
