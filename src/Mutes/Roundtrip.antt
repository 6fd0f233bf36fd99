-- ===== src/Mutes/Roundtrip.antt =====
-- The file of committed mutes and the findings table (src/steadystate/mutes.py).
use Prim.Native.String.{◌++◌ as ◌<>◌}
use mathlib.Core.Option
use steadystate_ai.Prelude.{
  ◌≡◌, refl, ◌∙◌, sym, ap, inl, inr, true, false, not, ◌&&◌, ◌||◌, none, some, List, [], ◌∷◌,
  String, str_eq, eq_iff, eq_refl, arith, if◌then◌else◌, Bool-cases,
}
use steadystate_ai.Prelude.Rows.{by_key, Unique}
use steadystate_ai.Prelude.Dicts.{item_key, lookup, has, lookup-has}
use steadystate_ai.Prelude.Sorting.{text_leb, sort, by_key-sort}
use steadystate_ai.State.Findings.{Instant, muted, Findings, finding_key, is_suppressed, mute}
use steadystate_ai.State.Findings.Suppression.{operator_actions-is_suppressed, upsert_status-Unique}
use steadystate_ai.Mutes.{
  Value, Entry, not_dict, fields, Document, entries, Meta, Mutes, field_text, read_meta, is_blank,
  load_entries, load_committed_mutes, nonempty_field, write_meta, write_items, write, or_text,
  committed_warning, mute_committed, apply_each, apply_committed_mutes,
}

skip_field :
    (j k v : String) (rest : List (String × Value))
    → str_eq k j ≡ false
    → field_text j (nonempty_field k v rest) ≡ field_text j rest
unfolding lookup by_key
skip_field j k v rest h = elim (Bool-cases (str_eq v "")) [
  | inl e ↦ rw e refl
  | inr e ↦ rw e (rw (h, field_text) refl)
]

own_field :
    (k v : String) (rest : List (String × Value))
    → field_text k rest ≡ ""
    → field_text k (nonempty_field k v rest) ≡ v
unfolding lookup by_key
own_field k v rest h = elim (Bool-cases (str_eq v "")) [
  | inl e ↦ rw e (h ∙ sym ((eq_iff v "").0 e))
  | inr e ↦ rw e (rw (eq_refl k, field_text) refl)
]

abbrev added_field : Meta → List (String × Value)
added_field m = nonempty_field "added" m.added []

abbrev note_fields : Meta → List (String × Value)
note_fields m = nonempty_field "note" m.note (added_field m)

abbrev by_fields : Meta → List (String × Value)
by_fields m = nonempty_field "by" m.by (note_fields m)

-- The fields of an entry come back from the file.
read_meta-nonempty_field : (m : Meta) → read_meta (nonempty_field "title" m.title (by_fields m)) ≡ m
unfolding read_meta lookup by_key
read_meta-nonempty_field m = ground (
  arith,
  own_field "title" m.title (by_fields m) (
      skip_field "title" "by" m.by (note_fields m) refl
      ∙ skip_field "title" "note" m.note (added_field m) refl
      ∙ skip_field "title" "added" m.added [] refl),
  skip_field "by" "title" m.title (by_fields m) refl
      ∙ own_field "by" m.by (note_fields m) (
          skip_field "by" "note" m.note (added_field m) refl
          ∙ skip_field "by" "added" m.added [] refl),
  skip_field "note" "title" m.title (by_fields m) refl
      ∙ skip_field "note" "by" m.by (note_fields m) refl
      ∙ own_field "note" m.note (added_field m) (skip_field "note" "added" m.added [] refl),
  skip_field "added" "title" m.title (by_fields m) refl
      ∙ skip_field "added" "by" m.by (note_fields m) refl
      ∙ skip_field "added" "note" m.note (added_field m) refl
      ∙ own_field "added" m.added [] refl,
)

lookup-load_entries :
    (mutes : Mutes) (k : String)
    → lookup k (load_entries (write_items mutes)) ≡ (if is_blank k then none else lookup k mutes)
unfolding load_entries write_items write_meta lookup by_key
lookup-load_entries [] k = ground arith
lookup-load_entries ((j, m) ∷ mutes) k =
    ground (arith, lookup-load_entries mutes k, read_meta-nonempty_field m, eq_iff j k)

-- What is written comes back when it is read, under every fingerprint that is not blank.
pub load_committed_mutes-write :
    (mutes : Mutes) (k : String)
    → Unique item_key mutes
    → lookup k (load_committed_mutes (write mutes)) ≡ (if is_blank k then none else lookup k mutes)
unfolding load_committed_mutes write lookup
load_committed_mutes-write mutes k u =
    lookup-load_entries (sort (λ a b. text_leb a.0 b.0) mutes) k
    ∙ ap (λ o. if is_blank k then none else Option.map (λ item. item.1) o)
        (by_key-sort (λ a b. text_leb a.0 b.0) item_key k mutes u)

pub has-load_committed_mutes-write :
    (mutes : Mutes) (k : String)
    → Unique item_key mutes
    → has k (load_committed_mutes (write mutes)) ≡ (not (is_blank k) && has k mutes)
has-load_committed_mutes-write mutes k u = ground (
  arith,
  sym (lookup-has k (load_committed_mutes (write mutes))),
  load_committed_mutes-write mutes k u,
  lookup-has k mutes,
)

load_entries-blank :
    (items : List (String × Entry)) (k : String)
    → is_blank k ≡ true
    → has k (load_entries items) ≡ false
unfolding load_entries has
load_entries-blank [] k h = refl
load_entries-blank ((j, not_dict) ∷ items) k h = load_entries-blank items k h
load_entries-blank ((j, fields meta) ∷ items) k h =
    ground (arith, h, load_entries-blank items k h, eq_iff j k)

pub load_committed_mutes-blank :
    (file : Document) (k : String) → is_blank k ≡ true → has k (load_committed_mutes file) ≡ false
unfolding load_committed_mutes has
load_committed_mutes-blank Document.missing k h = refl
load_committed_mutes-blank Document.malformed k h = refl
load_committed_mutes-blank Document.not_object k h = refl
load_committed_mutes-blank (entries items) k h = load_entries-blank items k h

module _ (path : String) (now : Instant) where
  mute_committed-is_suppressed :
      (k : String) (meta : Meta) (rows : Findings) (j : String)
      → is_suppressed (mute_committed path k meta now rows) j now
        ≡ (if str_eq k j then true else is_suppressed rows j now)
  mute_committed-is_suppressed k meta rows j =
      (operator_actions-is_suppressed k now 0
        (some (or_text meta.note (("committed mute (" <> path) <> ")")))
        (some (or_text meta.by "committed")) rows j now).0

  apply_each-is_suppressed :
      (mutes : Mutes) (rows : Findings) (j : String)
      → is_suppressed (apply_each path mutes now rows).0 j now
        ≡ (has j mutes || is_suppressed rows j now)
  unfolding apply_each has
  apply_each-is_suppressed [] rows j = refl
  apply_each-is_suppressed ((k, meta) ∷ mutes) rows j =
      elim (Bool-cases (is_suppressed rows k now)) [
        | inl e ↦
            rw (e, apply_each)
              (ground (arith, apply_each-is_suppressed mutes rows j, e, eq_iff k j))
        | inr e ↦
            rw (e, apply_each)
              (ground (
                arith,
                apply_each-is_suppressed mutes (mute_committed path k meta now rows) j,
                mute_committed-is_suppressed k meta rows j,
              ))
      ]

  -- Applying the committed mutes withholds the committed fingerprints and those that were withheld
  -- before, and no others.
  pub apply_committed_mutes-is_suppressed :
      (file : Document) (rows : Findings) (j : String)
      → is_suppressed (apply_committed_mutes path file now rows).0 j now
        ≡ (committed_warning j file || is_suppressed rows j now)
  unfolding apply_committed_mutes committed_warning
  apply_committed_mutes-is_suppressed file rows j =
      apply_each-is_suppressed (load_committed_mutes file) rows j

  apply_each-Unique :
      (mutes : Mutes) (rows : Findings)
      → Unique finding_key rows
      → Unique finding_key (apply_each path mutes now rows).0
  unfolding apply_each mute
  apply_each-Unique [] rows u = u
  apply_each-Unique ((k, meta) ∷ mutes) rows u = elim (Bool-cases (is_suppressed rows k now)) [
    | inl e ↦ rw (e, apply_each) (apply_each-Unique mutes rows u)
    | inr e ↦
        rw (e, apply_each)
          (apply_each-Unique mutes (mute_committed path k meta now rows) (
            upsert_status-Unique k now muted none
              (some (or_text meta.note (("committed mute (" <> path) <> ")")))
              (some (or_text meta.by "committed")) rows u))
  ]

  pub apply_committed_mutes-Unique :
      (file : Document) (rows : Findings)
      → Unique finding_key rows
      → Unique finding_key (apply_committed_mutes path file now rows).0
  unfolding apply_committed_mutes
  apply_committed_mutes-Unique file rows u = apply_each-Unique (load_committed_mutes file) rows u
