-- ===== src/State/Findings/Recording.antt =====
-- `record` on the findings table (src/steadystate/state.py).
use steadystate_ai.Prelude.{
  ◌≡◌, ◌≢◌, refl, inl, inr, true, Option, none, some, [], ◌∷◌, String, str_eq, eq_iff, eq_refl,
  arith, any, ap, sym, ◌∙◌, Bool-cases, Option-cases, if◌then◌else◌,
}
use steadystate_ai.Prelude.Rows.{
  by_key, Unique, by_key-append, by_key-modify, Unique-append, Unique-modify,
}
use steadystate_ai.State.Findings.{
  Instant, resolved, Finding, Findings, finding_key, Details, Seen, get, is_suppressed,
  withheld_row, refresh, new_finding, seen_again, record_one, record_seen,
}

-- What `record` makes of the row of a fingerprint that it sees.
abbrev seen_row : Instant → String → String → String → Details → Option Finding → Finding
seen_row now k severity title fields none = new_finding k severity title fields now
seen_row now k severity title fields (some f) =
    seen_again severity title fields now (refresh f.status f.snooze_until now) f

module _ (now : Instant) (evidence : String → Details) where
  get-record_one :
      (k severity title : String) (rows : Findings) (j : String)
      → get (record_one now evidence k severity title rows).0 j ≡ (
          if str_eq k j
          then some (seen_row now k severity title (evidence k) (get rows k))
          else get rows j)
  unfolding record_one
  get-record_one k severity title rows j = elim (Option-cases (by_key finding_key k rows)) [
    | inl e ↦ ground (
      arith,
      e,
      by_key-append finding_key j rows (new_finding k severity title (evidence k) now),
      eq_iff k j,
    )
    | inr (f, e) ↦ ground (
      arith,
      e,
      by_key-modify finding_key k
          (seen_again severity title (evidence k) now (refresh f.status f.snooze_until now))
          (λ r. refl) j rows,
      eq_iff k j,
    )
  ]

  seen_row-withheld :
      (k severity title : String) (fields : Details) (o : Option Finding)
      → withheld_row now (some (seen_row now k severity title fields o)) ≡ withheld_row now o
  seen_row-withheld k severity title fields none = refl
  seen_row-withheld k severity title fields (some f) = ground arith

  record_one-is_suppressed :
      (k severity title : String) (rows : Findings) (j : String)
      → is_suppressed (record_one now evidence k severity title rows).0 j now
        ≡ is_suppressed rows j now
  unfolding is_suppressed
  record_one-is_suppressed k severity title rows j =
      ap (withheld_row now) (get-record_one k severity title rows j)
      ∙ elim (Bool-cases (str_eq k j)) [
        | inl e ↦
            rw e
              (rw ((eq_iff k j).0 e) (seen_row-withheld j severity title (evidence j) (get rows j)))
        | inr e ↦ rw e refl
      ]

  -- `record`, the recording of what a scan saw, never changes what is withheld at its own instant: a
  -- mute and a running snooze survive a sighting, and what it reopens was not withheld.
  pub record_seen-is_suppressed :
      (seen : Seen) (rows : Findings) (j : String)
      → is_suppressed (record_seen now evidence seen rows).0 j now ≡ is_suppressed rows j now
  unfolding record_seen
  record_seen-is_suppressed [] rows j = refl
  record_seen-is_suppressed ((k, severity, title) ∷ seen) rows j =
      record_seen-is_suppressed seen (record_one now evidence k severity title rows).0 j
      ∙ record_one-is_suppressed k severity title rows j

  -- A finding that the scan saw.
  pub record IsFresh (f : Finding) : Type 0 where
    pub seen_now : f.last_seen ≡ now
    pub not_resolved : f.status ≢ resolved

  seen_row-IsFresh :
      (k severity title : String) (fields : Details) (o : Option Finding)
      → IsFresh (seen_row now k severity title fields o)
  seen_row-IsFresh k severity title fields none = ground arith
  seen_row-IsFresh k severity title fields (some f) = ground arith

  record_one-IsFresh :
      (k severity title : String) (rows : Findings)
      → (g : Finding) × (get (record_one now evidence k severity title rows).0 k ≡ some g)
        × IsFresh g
  record_one-IsFresh k severity title rows = (
    seen_row now k severity title (evidence k) (get rows k),
    get-record_one k severity title rows k ∙ rw (eq_refl k) refl,
    seen_row-IsFresh k severity title (evidence k) (get rows k),
  )

  record_one-stays_IsFresh :
      (k severity title : String) (rows : Findings) (j : String) (f : Finding)
      → get rows j ≡ some f
      → IsFresh f
      → (g : Finding) × (get (record_one now evidence k severity title rows).0 j ≡ some g)
        × IsFresh g
  record_one-stays_IsFresh k severity title rows j f h fresh = elim (Bool-cases (str_eq k j)) [
    | inl e ↦ (
      seen_row now k severity title (evidence k) (get rows k),
      get-record_one k severity title rows j ∙ rw e refl,
      seen_row-IsFresh k severity title (evidence k) (get rows k),
    )
    | inr e ↦ (f, get-record_one k severity title rows j ∙ rw e h, fresh)
  ]

  record_seen-stays_IsFresh :
      (seen : Seen) (rows : Findings) (j : String) (f : Finding)
      → get rows j ≡ some f
      → IsFresh f
      → (g : Finding) × (get (record_seen now evidence seen rows).0 j ≡ some g) × IsFresh g
  unfolding record_seen
  record_seen-stays_IsFresh [] rows j f h fresh = (f, h, fresh)
  record_seen-stays_IsFresh ((k, severity, title) ∷ seen) rows j f h fresh =
      let one = record_one-stays_IsFresh k severity title rows j f h fresh in
      record_seen-stays_IsFresh seen (record_one now evidence k severity title rows).0 j one.0 one.1
        one.2

  -- Every finding that the scan saw is in the table afterwards, seen at this instant and not
  -- resolved: a resolved one that recurs has been reopened.
  pub record_seen-IsFresh :
      (seen : Seen) (rows : Findings) (j : String)
      → any (λ s. str_eq s.0 j) seen ≡ true
      → (g : Finding) × (get (record_seen now evidence seen rows).0 j ≡ some g) × IsFresh g
  unfolding record_seen
  record_seen-IsFresh [] rows j h = absurd (cc)
  record_seen-IsFresh ((k, severity, title) ∷ seen) rows j h = elim (Bool-cases (str_eq k j)) [
    | inl e ↦
        let one = record_one-IsFresh k severity title rows in
        record_seen-stays_IsFresh seen (record_one now evidence k severity title rows).0 j one.0
          (ap (get (record_one now evidence k severity title rows).0) (sym ((eq_iff k j).0 e))
            ∙ one.1)
          one.2
    | inr e ↦
        record_seen-IsFresh seen (record_one now evidence k severity title rows).0 j
          (ground (arith, h, e))
  ]

  record_one-Unique :
      (k severity title : String) (rows : Findings)
      → Unique finding_key rows
      → Unique finding_key (record_one now evidence k severity title rows).0
  unfolding record_one
  record_one-Unique k severity title rows u = elim (Option-cases (by_key finding_key k rows)) [
    | inl e ↦
        rw (e, record_one)
          (Unique-append finding_key rows (new_finding k severity title (evidence k) now) u e)
    | inr (f, e) ↦
        rw (e, record_one)
          (Unique-modify finding_key k
            (seen_again severity title (evidence k) now (refresh f.status f.snooze_until now))
            (λ r. refl) rows u)
  ]

  -- A scan keeps the primary key.
  pub record_seen-Unique :
      (seen : Seen) (rows : Findings)
      → Unique finding_key rows
      → Unique finding_key (record_seen now evidence seen rows).0
  unfolding record_seen
  record_seen-Unique [] rows u = u
  record_seen-Unique ((k, severity, title) ∷ seen) rows u =
      record_seen-Unique seen (record_one now evidence k severity title rows).0
        (record_one-Unique k severity title rows u)
