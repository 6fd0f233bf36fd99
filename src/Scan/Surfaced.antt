-- ===== src/Scan/Surfaced.antt =====
-- The report and the table that a stateful scan leaves (src/steadystate/reconcile_state.py).
use steadystate_ai.Prelude.{
  ◌-◌, ◌≡◌, ◌≢◌, refl, ◌∙◌, sym, ap, inl, inr, Bool, true, false, not, none, some, List, [], ◌∷◌,
  ◌++◌, String, str_eq, eq_iff, arith, any, all, keep, map, or_else, Bool-cases, Option-cases,
}
use steadystate_ai.Prelude.Rows.{Unique, key-by_key}
use steadystate_ai.Prelude.Dicts.{item_key, lookup, has}
use steadystate_ai.State.Findings.{
  Instant, resolved, Finding, Findings, finding_key, Details, Sighting, get, is_suppressed,
  record_seen, resolve_absent, is_absent,
}
use steadystate_ai.State.Findings.Recording.{
  record_seen-is_suppressed, record_seen-IsFresh, record_seen-Unique,
}
use steadystate_ai.State.Findings.Absence.{get-resolve_absent_if}
use steadystate_ai.Mutes.{Document, apply_committed_mutes}
use steadystate_ai.Mutes.Roundtrip.{apply_committed_mutes-Unique}
use steadystate_ai.Reason.Alert.{Alert}
use steadystate_ai.Reason.Report.{Report, alerts, signals}
use steadystate_ai.Scan.{
  members_of, fingerprints, alert_suppressed, SeenFindings, seen_triple, titled, seen_findings,
  finding_evidence, annotate_with, annotate, reconcile,
}

all_cong :
    (p q : String → Bool) (xs : List String) → ((s : String) → p s ≡ q s) → all p xs ≡ all q xs
all_cong p q [] h = refl
all_cong p q (s ∷ xs) h = ground (arith, h s, all_cong p q xs h)

-- An alert without the notes of the store.
abbrev pub bare : {P : Type 0} → Alert P → Alert P
bare a = record a { first_seen = none; status = none }

bare-annotate_with :
    {P : Type 0} (members : List Sighting) (a : Alert P) → bare (annotate_with members a) ≡ bare a
bare-annotate_with [] a = refl
bare-annotate_with (m ∷ members) a = refl

module _ (sha256 : String → String) {P : Type 0} (now : Instant) where
  -- An alert is withheld by two tables alike that withhold the same fingerprints.
  alert_suppressed-is_suppressed :
      (rows others : Findings)
      → ((fp : String) → is_suppressed rows fp now ≡ is_suppressed others fp now)
      → (a : Alert P) → alert_suppressed sha256 rows now a ≡ alert_suppressed sha256 others now a
  unfolding alert_suppressed
  alert_suppressed-is_suppressed rows others h a = ground (
    arith,
    h (or_else a.correlation_fingerprint ""),
    all_cong (λ fp. is_suppressed rows fp now) (λ fp. is_suppressed others fp now)
        (fingerprints sha256 a) h,
  )

  map-keep :
      (state : List (String × Sighting)) (p q : Alert P → Bool) (items : List (Alert P))
      → ((a : Alert P) → p a ≡ q a)
      → map bare (map (annotate sha256 state) (keep p items)) ≡ map bare (keep q items)
  unfolding annotate
  map-keep state p q [] h = refl
  map-keep state p q (a ∷ items) h = ground (
    arith,
    h a,
    bare-annotate_with (members_of state (fingerprints sha256 a)) a,
    map-keep state p q items h,
  )

  map-append : (xs ys : List (Alert P)) → map bare (xs ++ ys) ≡ map bare xs ++ map bare ys
  map-append [] ys = refl
  map-append (a ∷ xs) ys = ap (λ rest. bare a ∷ rest) (map-append xs ys)

  abbrev evidence_of : Report P → String → Details
  evidence_of report fp = or_else (lookup fp (finding_evidence sha256 report)) []

  -- What `record` makes of the table, the committed mutes applied.
  abbrev recorded : String → Document → Report P → Findings → Findings × List (String × Sighting)
  recorded path file report rows =
      record_seen now (evidence_of report) (map seen_triple (seen_findings sha256 report))
        (apply_committed_mutes path file now rows).0

  -- A scan surfaces its signals and exactly those of its alerts that the store does not withhold once
  -- the committed mutes are applied to it, in their order and unchanged but for the notes of the store.
  pub reconcile-items :
      (path : String) (file : Document) (grace : Instant) (report : Report P) (rows : Findings)
      → map bare (reconcile sha256 path file grace now report rows).0.items
        ≡ map bare (
            signals report
            ++ keep
                (λ a.
                  not (alert_suppressed sha256 (apply_committed_mutes path file now rows).0 now a))
                (alerts report))
  unfolding reconcile
  reconcile-items path file grace report rows =
      let applied = (apply_committed_mutes path file now rows).0 in
      let (table, state) = recorded path file report rows in
      map-append (signals report) (
        map (annotate sha256 state)
          (keep (λ a. not (alert_suppressed sha256 table now a)) (alerts report)))
      ∙ ap (λ rest. map bare (signals report) ++ rest)
          (map-keep state (λ a. not (alert_suppressed sha256 table now a))
            (λ a. not (alert_suppressed sha256 applied now a)) (alerts report)
            (λ a. ap not (
              alert_suppressed-is_suppressed table applied
                (record_seen-is_suppressed now (evidence_of report)
                  (map seen_triple (seen_findings sha256 report)) applied)
                a)))
      ∙ sym (
          map-append (signals report)
            (keep (λ a. not (alert_suppressed sha256 applied now a)) (alerts report)))

any-seen_triple :
    (j : String) (seen : SeenFindings) → any (λ s. str_eq s.0 j) (map seen_triple seen) ≡ has j seen
unfolding has
any-seen_triple j [] = refl
any-seen_triple j (item ∷ seen) = ground (arith, any-seen_triple j seen)

any-item_key : (j : String) (seen : SeenFindings) → any (str_eq j) (map item_key seen) ≡ has j seen
unfolding has
any-item_key j [] = refl
any-item_key j (item ∷ seen) = ground (arith, any-item_key j seen, eq_iff j item.0, eq_iff item.0 j)

titled-key : (rows : Findings) (fp : String) → (titled rows fp).0 ≡ fp
titled-key rows fp = elim (Option-cases (get rows fp)) [
  | inl e ↦ rw (e, titled) refl
  | inr (f, e) ↦ rw (e, titled) refl
]

present-is_absent :
    (j : String) (current : List String) (cutoff : Instant) (f : Finding)
    → str_eq f.fingerprint j ≡ true
    → any (str_eq j) current ≡ true
    → is_absent current cutoff f ≡ false
unfolding is_absent
present-is_absent j current cutoff f e h =
    ground (arith, ap (λ k. any (str_eq k) current) ((eq_iff f.fingerprint j).0 e), h)

never_announced :
    (j : String) (current : List String) (cutoff : Instant) (table rows : Findings)
    → any (str_eq j) current ≡ true
    → any
        (λ r. str_eq r.0 j)
        (map (titled table) (map finding_key (keep (is_absent current cutoff) rows)))
      ≡ false
unfolding is_absent
never_announced j current cutoff table [] h = refl
never_announced j current cutoff table (f ∷ rows) h =
    elim (Bool-cases (is_absent current cutoff f)) [
      | inl e ↦ ground (
        arith,
        e,
        h,
        titled-key table f.fingerprint,
        present-is_absent j current cutoff f,
        never_announced j current cutoff table rows h,
      )
      | inr e ↦ rw e (never_announced j current cutoff table rows h)
    ]

module _ (sha256 : String → String) {P : Type 0} (now : Instant) where
  -- Every fingerprint of a report is on record after the scan as seen now and not as resolved, and
  -- it is not announced as resolved, whatever the table held and however short the grace window is.
  pub reconcile-seen_findings :
      (path : String) (file : Document) (grace : Instant) (report : Report P) (rows : Findings)
      (fp : String)
      → Unique finding_key rows
      → has fp (seen_findings sha256 report) ≡ true
      → (f : Finding) × (get (reconcile sha256 path file grace now report rows).1 fp ≡ some f)
        × (f.last_seen ≡ now)
        × (f.status ≢ resolved)
        × (any (λ r. str_eq r.0 fp) (reconcile sha256 path file grace now report rows).2 ≡ false)
  unfolding reconcile resolve_absent get
  reconcile-seen_findings path file grace report rows fp u h =
      let seen = seen_findings sha256 report in
      let table = (recorded sha256 now path file report rows).0 in
      let current = any-item_key fp seen ∙ h in
      let (f, e, fresh) =
        record_seen-IsFresh now (evidence_of sha256 now report) (map seen_triple seen)
          (apply_committed_mutes path file now rows).0 fp (any-seen_triple fp seen ∙ h) in
      let here = (eq_iff f.fingerprint fp).1 (key-by_key finding_key fp table f e) in
      let unique =
        record_seen-Unique now (evidence_of sha256 now report) (map seen_triple seen)
          (apply_committed_mutes path file now rows).0
          (apply_committed_mutes-Unique path now file rows u) in
      (
        f,
        get-resolve_absent_if (map item_key seen) now grace table fp unique
            ∙ rw e
                (rw (present-is_absent fp (map item_key seen) (now - grace) f here current) refl),
        fresh.seen_now,
        fresh.not_resolved,
        never_announced fp (map item_key seen) (now - grace)
            (resolve_absent (map item_key seen) now grace table).0 table current,
      )
