-- ===== src/State/Findings/Suppression.antt =====
-- The operator's actions on the findings table, and `is_suppressed` (src/steadystate/state.py).
use steadystate_ai.Prelude.{
  ◌≡◌, ◌⊎◌, Bool-cases, refl, inl, inr, true, false, Option, none, some, String, str_eq, eq_iff,
  arith, ltb, Option-cases, if◌then◌else◌,
}
use steadystate_ai.Prelude.Rows.{
  by_key, Unique, by_key-append, by_key-modify, Unique-append, Unique-modify,
}
use steadystate_ai.State.Findings.{
  Instant, Status, opened, muted, snoozed, resolved, Findings, get, finding_key, is_suppressed,
  withheld, status_row, unseen_row, upsert_status, mute, snooze, resolve, unmute,
}

module _ (k : String) (now : Instant) where
  -- After an upsert a finding of that fingerprint is withheld as its new status says, at every
  -- instant, and the others are withheld as before.
  upsert_status-is_suppressed :
      (status : Status) (until : Option Instant) (note actor : Option String) (rows : Findings)
      (j : String) (t : Instant)
      → is_suppressed (upsert_status k status until note actor now rows) j t
        ≡ (if str_eq k j then withheld t status until else is_suppressed rows j t)
  unfolding is_suppressed upsert_status
  upsert_status-is_suppressed status until note actor rows j t =
      elim (Option-cases (by_key finding_key k rows)) [
        | inl e ↦ ground (
          arith,
          e,
          by_key-append finding_key j rows (unseen_row k status until note actor now),
          eq_iff k j,
        )
        | inr (f, e) ↦ ground (
          arith,
          e,
          by_key-modify finding_key k (status_row status until note actor now) (λ r. refl) j rows,
          eq_iff k j,
        )
      ]

  unmute-is_suppressed :
      (rows : Findings) (j : String) (t : Instant)
      → is_suppressed (unmute k now rows) j t
        ≡ (if str_eq k j then false else is_suppressed rows j t)
  unfolding is_suppressed unmute
  unmute-is_suppressed rows j t = elim (Option-cases (by_key finding_key k rows)) [
    | inl e ↦ ground (arith, e, eq_iff k j)
    | inr (f, e) ↦ ground (
      arith,
      e,
      by_key-modify finding_key k (status_row opened none none none now) (λ r. refl) j rows,
      eq_iff k j,
    )
  ]

  upsert_status-others :
      (status : Status) (until : Option Instant) (note actor : Option String) (rows : Findings)
      (j : String)
      → str_eq k j ≡ false
      → get (upsert_status k status until note actor now rows) j ≡ get rows j
  unfolding get upsert_status
  upsert_status-others status until note actor rows j other =
      elim (Option-cases (by_key finding_key k rows)) [
        | inl e ↦ ground (
          arith,
          e,
          other,
          by_key-append finding_key j rows (unseen_row k status until note actor now),
        )
        | inr (f, e) ↦ ground (
          arith,
          e,
          other,
          by_key-modify finding_key k (status_row status until note actor now) (λ r. refl) j rows,
        )
      ]

  unmute-others :
      (rows : Findings) (j : String) → str_eq k j ≡ false → get (unmute k now rows) j ≡ get rows j
  unfolding get unmute
  unmute-others rows j other = elim (Option-cases (by_key finding_key k rows)) [
    | inl e ↦ ground (arith, e)
    | inr (f, e) ↦ ground (
      arith,
      e,
      other,
      by_key-modify finding_key k (status_row opened none none none now) (λ r. refl) j rows,
    )
  ]

  -- The row of another fingerprint is as before, after each of the four.
  pub record Same (until : Instant) (note actor : Option String) (rows : Findings) (j : String)
      : Type 0 where
    pub after_mute : get (mute k note actor now rows) j ≡ get rows j
    pub after_snooze : get (snooze k until actor now rows) j ≡ get rows j
    pub after_resolve : get (resolve k note actor now rows) j ≡ get rows j
    pub after_unmute : get (unmute k now rows) j ≡ get rows j

  others-Same :
      (until : Instant) (note actor : Option String) (rows : Findings) (j : String)
      → (k ≡ j) ⊎ Same until note actor rows j
  unfolding mute snooze resolve
  others-Same until note actor rows j = elim (Bool-cases (str_eq k j)) [
    | inl e ↦ inl ((eq_iff k j).0 e)
    | inr e ↦ inr (record {
      after_mute = upsert_status-others muted none note actor rows j e;
      after_snooze = upsert_status-others snoozed (some until) none actor rows j e;
      after_resolve = upsert_status-others resolved none note actor rows j e;
      after_unmute = unmute-others rows j e;
    })
  ]

  -- A mute withholds its finding at every instant, a snooze exactly before the instant given, and
  -- `resolve` and `unmute` at none. Each leaves what is withheld of every other fingerprint, and the
  -- row that stands under it.
  pub operator_actions-is_suppressed :
      (until : Instant) (note actor : Option String) (rows : Findings) (j : String) (t : Instant)
      → (is_suppressed (mute k note actor now rows) j t
          ≡ (if str_eq k j then true else is_suppressed rows j t))
        × (is_suppressed (snooze k until actor now rows) j t
            ≡ (if str_eq k j then ltb t until else is_suppressed rows j t))
        × (is_suppressed (resolve k note actor now rows) j t
            ≡ (if str_eq k j then false else is_suppressed rows j t))
        × (is_suppressed (unmute k now rows) j t
            ≡ (if str_eq k j then false else is_suppressed rows j t))
        × ((k ≡ j) ⊎ Same until note actor rows j)
  unfolding mute snooze resolve
  operator_actions-is_suppressed until note actor rows j t = (
    upsert_status-is_suppressed muted none note actor rows j t,
    upsert_status-is_suppressed snoozed (some until) none actor rows j t,
    upsert_status-is_suppressed resolved none note actor rows j t,
    unmute-is_suppressed rows j t,
    others-Same until note actor rows j,
  )

  -- They keep the primary key.
  pub upsert_status-Unique :
      (status : Status) (until : Option Instant) (note actor : Option String) (rows : Findings)
      → Unique finding_key rows
      → Unique finding_key (upsert_status k status until note actor now rows)
  unfolding upsert_status
  upsert_status-Unique status until note actor rows u =
      elim (Option-cases (by_key finding_key k rows)) [
        | inl e ↦
            rw (e, upsert_status)
              (Unique-append finding_key rows (unseen_row k status until note actor now) u e)
        | inr (f, e) ↦
            rw (e, upsert_status)
              (Unique-modify finding_key k (status_row status until note actor now) (λ r. refl) rows
                u)
      ]
