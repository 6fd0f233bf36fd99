-- ===== src/Mutes/Export.antt =====
-- The mutes of one store, exported and applied to another (src/steadystate/mutes.py).
use steadystate_ai.Prelude.{
  ◌≡◌, refl, ◌∙◌, ap, inl, inr, Bool, false, not, ◌&&◌, ◌||◌, Option, none, some, [], ◌∷◌, String,
  str_eq, eq_iff, arith, any, ltb, Bool-cases,
}
use steadystate_ai.Prelude.Rows.{by_key, Unique}
use steadystate_ai.Prelude.Dicts.{item_key, put, has, has-put, put-Unique}
use steadystate_ai.Prelude.Sorting.{any-sort}
use steadystate_ai.State.Findings.{Instant, Finding, Findings, finding_key, get, is_suppressed}
use steadystate_ai.Mutes.{
  Document, Mutes, is_blank, load_committed_mutes, committed_warning, apply_committed_mutes,
  earlier, all_findings, is_muted, meta_of, export_each, export_mutes,
}
use steadystate_ai.Mutes.Roundtrip.{
  has-load_committed_mutes-write, load_committed_mutes-blank, apply_committed_mutes-is_suppressed,
}

-- Whether the row of a fingerprint holds a permanent mute.
abbrev pub muted_row : Option Finding → Bool
muted_row none = false
muted_row (some f) = is_muted f.status

abbrev muted_as : String → Finding → Bool
muted_as j f = str_eq f.fingerprint j && is_muted f.status

any-muted_as :
    (j : String) (rows : Findings)
    → Unique finding_key rows
    → any (muted_as j) rows ≡ muted_row (by_key finding_key j rows)
unfolding by_key Unique
any-muted_as j [] u = refl
any-muted_as j (f ∷ rows) u = ground (arith, any-muted_as j rows u.1, u.0, eq_iff f.fingerprint j)

module _ (today : String) where
  has-export_each :
      (findings : Findings) (mutes : Mutes) (j : String)
      → has j (export_each today findings mutes).0 ≡ (any (muted_as j) findings || has j mutes)
  unfolding export_each
  has-export_each [] mutes j = refl
  has-export_each (f ∷ findings) mutes j =
      elim (Bool-cases (is_muted f.status && not (has f.fingerprint mutes))) [
        | inl e ↦
            rw (e, export_each)
              (ground (
                arith,
                e,
                has-export_each findings (put f.fingerprint (meta_of today f) mutes) j,
                has-put f.fingerprint j (meta_of today f) mutes,
              ))
        | inr e ↦
            rw (e, export_each)
              (ground (arith, e, has-export_each findings mutes j, eq_iff f.fingerprint j))
      ]

  export_each-Unique :
      (findings : Findings) (mutes : Mutes)
      → Unique item_key mutes
      → Unique item_key (export_each today findings mutes).0
  unfolding export_each
  export_each-Unique [] mutes u = u
  export_each-Unique (f ∷ findings) mutes u =
      elim (Bool-cases (is_muted f.status && not (has f.fingerprint mutes))) [
        | inl e ↦
            rw (e, export_each)
              (export_each-Unique findings (put f.fingerprint (meta_of today f) mutes)
                (put-Unique f.fingerprint (meta_of today f) mutes u))
        | inr e ↦ rw (e, export_each) (export_each-Unique findings mutes u)
      ]

  -- Where nothing is new, the dictionary is the one that was read.
  export_each-none_added :
      (findings : Findings) (mutes : Mutes)
      → ltb 0 (export_each today findings mutes).1 ≡ false
      → (export_each today findings mutes).0 ≡ mutes
  unfolding export_each
  export_each-none_added [] mutes h = refl
  export_each-none_added (f ∷ findings) mutes h =
      elim (Bool-cases (is_muted f.status && not (has f.fingerprint mutes))) [
        | inl e ↦ ground (arith, h, e)
        | inr e ↦ ground (arith, h, e, export_each-none_added findings mutes)
      ]

  -- What the file commits after an export: what it committed before, and the fingerprints that
  -- the store mutes for good and that are not blank.
  committed_warning-export_mutes :
      (rows : Findings) (file : Document) (j : String)
      → Unique finding_key rows
      → Unique item_key (load_committed_mutes file)
      → committed_warning j (export_mutes today rows file).0
        ≡ ((not (is_blank j) && muted_row (get rows j)) || committed_warning j file)
  unfolding committed_warning export_mutes get all_findings
  committed_warning-export_mutes rows file j u v =
      let exported = export_each today (all_findings rows) (load_committed_mutes file) in
      elim (Bool-cases (ltb 0 exported.1)) [
        | inl e ↦
            rw (e, export_mutes)
              (has-load_committed_mutes-write exported.0 j
                  (export_each-Unique (all_findings rows) (load_committed_mutes file) v)
                ∙ ground (
                  arith,
                  has-export_each (all_findings rows) (load_committed_mutes file) j,
                  any-sort earlier (muted_as j) rows,
                  any-muted_as j rows u,
                  load_committed_mutes-blank file j,
                ))
        | inr e ↦
            rw (e, export_mutes)
              (ground (
                arith,
                ap (has j)
                    (export_each-none_added (all_findings rows) (load_committed_mutes file) e),
                has-export_each (all_findings rows) (load_committed_mutes file) j,
                any-sort earlier (muted_as j) rows,
                any-muted_as j rows u,
                load_committed_mutes-blank file j,
              ))
      ]

  -- The mutes of a store that are exported to the file are in force in any other store to which the
  -- file is applied, with what the file held before and what the other store withheld itself, and
  -- nothing else is withheld there; a fingerprint that is blank is never carried over.
  pub export_mutes-apply :
      (path : String) (now : Instant) (rows others : Findings) (file : Document) (j : String)
      → Unique finding_key rows
      → Unique item_key (load_committed_mutes file)
      → is_suppressed
          (apply_committed_mutes path (export_mutes today rows file).0 now others).0
          j
          now
        ≡ ((not (is_blank j) && muted_row (get rows j))
            || committed_warning j file
            || is_suppressed others j now)
  export_mutes-apply path now rows others file j u v = ground (
    arith,
    apply_committed_mutes-is_suppressed path now (export_mutes today rows file).0 others j,
    committed_warning-export_mutes rows file j u v,
  )
