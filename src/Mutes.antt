-- ===== src/Mutes.antt =====
-- mutes.py: the file of committed mutes. Finding the file, reading and writing it are outside the
-- model: `path` is what `resolve_mutes_path` gives, `today` the date of the commit.
pub mod Roundtrip
pub mod Export
use Prim.Native.String.{◌++◌ as ◌<>◌}
use steadystate_ai.Prelude.{
  ℕ, suc, Bool, true, false, not, ◌&&◌, Option, none, some, List, [], ◌∷◌, String, str_eq, leb, ltb,
  is_empty, length, or_else, if◌then◌else◌,
}
use steadystate_ai.Prelude.Texts.{codes, strip}
use steadystate_ai.Prelude.Dicts.{item_key, put, lookup, has}
use steadystate_ai.Prelude.Sorting.{text_leb, sort}
use steadystate_ai.State.Findings.{Instant, Status, muted, Finding, Findings, is_suppressed, mute}

-- `a or b` at a text
abbrev pub or_text : String → String → String
or_text a b = if str_eq a "" then b else a

-- A value of the file: a text, or any other JSON value with the text that `str(value or "")` gives.
pub data Value : Type 0 where
  text other : String → Value

abbrev pub value_text : Value → String
value_text (text s) = s
value_text (other s) = s

-- An entry of the file's object.
pub data Entry : Type 0 where
  not_dict : Entry
  fields : List (String × Value) → Entry

-- What reading the file gives.
pub data Document : Type 0 where
  missing malformed not_object : Document
  entries : List (String × Entry) → Document

-- _META_KEYS
pub record Meta : Type 0 where
  pub title : String
  pub by : String
  pub note : String
  pub added : String

abbrev pub Mutes : Type 0
Mutes = List (String × Meta)

-- `str(meta.get(k) or "")`
abbrev pub field_text : String → List (String × Value) → String
field_text k meta = elim (lookup k meta) [ none ↦ "" | some v ↦ value_text v ]

unfoldable pub read_meta : List (String × Value) → Meta
read_meta meta = record {
  title = field_text "title" meta;
  by = field_text "by" meta;
  note = field_text "note" meta;
  added = field_text "added" meta;
}

-- `not str(fingerprint).strip()`
unfoldable pub is_blank : String → Bool
unfolding strip
is_blank k = is_empty (strip (codes k))

unfoldable pub load_entries : List (String × Entry) → Mutes
unfolding is_blank read_meta
load_entries [] = []
load_entries ((k, not_dict) ∷ rest) = load_entries rest
load_entries ((k, fields meta) ∷ rest) =
    let out = load_entries rest in if is_blank k then out else (k, read_meta meta) ∷ out

-- `load_committed_mutes`; the keys of a JSON object differ from each other once it is parsed.
unfoldable pub load_committed_mutes : Document → Mutes
unfolding load_entries
load_committed_mutes (entries items) = load_entries items
load_committed_mutes _ = []

abbrev pub nonempty_field : String → String → List (String × Value) → List (String × Value)
nonempty_field k v rest = if str_eq v "" then rest else (k, text v) ∷ rest

unfoldable pub write_meta : Meta → Entry
write_meta m = fields (
    nonempty_field "title" m.title
      (nonempty_field "by" m.by (nonempty_field "note" m.note (nonempty_field "added" m.added []))))

unfoldable pub write_items : Mutes → List (String × Entry)
unfolding write_meta
write_items [] = []
write_items ((k, m) ∷ rest) = (k, write_meta m) ∷ write_items rest

-- `_write`
unfoldable pub write : Mutes → Document
unfolding write_items sort
write mutes = entries (write_items (sort (λ a b. text_leb a.0 b.0) mutes))

-- The mute that a committed entry stands for.
abbrev pub mute_committed : String → String → Meta → Instant → Findings → Findings
mute_committed path k meta now rows =
    mute k (some (or_text meta.note (("committed mute (" <> path) <> ")")))
      (some (or_text meta.by "committed")) now rows

unfoldable pub apply_each : String → Mutes → Instant → Findings → Findings × ℕ
unfolding is_suppressed
apply_each path [] now rows = (rows, 0)
apply_each path ((k, meta) ∷ rest) now rows = elim (is_suppressed rows k now) [
  | true ↦ apply_each path rest now rows
  | false ↦
      let (rows', applied) = apply_each path rest now (mute_committed path k meta now rows) in
      (rows', suc applied)
]

-- `apply_committed_mutes`
unfoldable pub apply_committed_mutes : String → Document → Instant → Findings → Findings × ℕ
unfolding load_committed_mutes apply_each
apply_committed_mutes path file now rows = apply_each path (load_committed_mutes file) now rows

-- `commit_mute`
unfoldable pub commit_mute : String → String → String → String → String → Document → Document
unfolding load_committed_mutes put write
commit_mute today k title by note file = write (
    put k (record { title = title; by = by; note = note; added = today })
      (load_committed_mutes file))

-- `ORDER BY first_seen, fingerprint`
abbrev pub earlier : Finding → Finding → Bool
earlier f g =
    if ltb f.first_seen g.first_seen
    then true
    else leb f.first_seen g.first_seen && text_leb f.fingerprint g.fingerprint

-- `StateStore.all_findings`
unfoldable pub all_findings : Findings → Findings
unfolding sort
all_findings rows = sort earlier rows

abbrev pub is_muted : Status → Bool
is_muted muted = true
is_muted _ = false

abbrev pub meta_of : String → Finding → Meta
meta_of today f = record {
  title = f.last_title;
  by = or_else f.actor "";
  note = or_else f.note "";
  added = today;
}

unfoldable pub export_each : String → Findings → Mutes → Mutes × ℕ
unfolding has put
export_each today [] mutes = (mutes, 0)
export_each today (f ∷ findings) mutes = elim (is_muted f.status && not (has f.fingerprint mutes)) [
  | false ↦ export_each today findings mutes
  | true ↦
      let (mutes', added) =
        export_each today findings (put f.fingerprint (meta_of today f) mutes) in
      (mutes', suc added)
]

-- `export_mutes`: the file afterwards, how many entries are new, and how many there are.
unfoldable pub export_mutes : String → Findings → Document → Document × ℕ × ℕ
unfolding load_committed_mutes all_findings export_each write
export_mutes today rows file =
    let (mutes, added) = export_each today (all_findings rows) (load_committed_mutes file) in
    (if ltb 0 added then write mutes else file, added, length mutes)

-- `committed_warning`: whether it warns.
unfoldable pub committed_warning : String → Document → Bool
unfolding load_committed_mutes has
committed_warning k file = has k (load_committed_mutes file)
