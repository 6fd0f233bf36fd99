-- ===== src/State/Findings/Absence.antt =====
-- `resolve_absent` on the findings table (src/steadystate/state.py).
use mathlib.Core.Option
use mathlib.Core.List.{Memᴰ}
use steadystate_ai.Prelude.{
  ◌-◌, ◌≤◌, ◌≡◌, ◌↔◌, ◌⊎◌, inl, inr, Bool-cases, refl, Bool, true, false, ◌||◌, Option, none, some,
  List, [], ◌∷◌, String, str_eq, eq_iff, arith, any, keep, map, ap, ◌∙◌, if◌then◌else◌,
}
use steadystate_ai.Prelude.Rows.{by_key, modify, Unique, by_key-modify}
use steadystate_ai.State.Findings.{
  Instant, Status, opened, resolved, is_opened, Finding, finding_key, Findings, get, is_absent,
  resolve_row, resolve_each, resolve_absent,
}

abbrev is_such : (Finding → Bool) → Option Finding → Bool
is_such p none = false
is_such p (some f) = p f

listed :
    (p : Finding → Bool) (j : String) (rows : Findings)
    → Unique finding_key rows
    → any (λ k. str_eq k j) (map finding_key (keep p rows)) ≡ is_such p (by_key finding_key j rows)
unfolding by_key Unique
listed p j [] u = refl
listed p j (f ∷ rows) u = ground (arith, listed p j rows u.1, u.0, eq_iff f.fingerprint j)

mapped :
    (p : Finding → Bool) (f : Finding → Finding) (o : Option Finding)
    → (if is_such p o then Option.map f o else o) ≡ Option.map (λ x. if p x then f x else x) o
mapped p f none = refl
mapped p f (some x) = ground arith

twice :
    (f : Finding → Finding) (idem : (x : Finding) → f (f x) ≡ f x) (a b : Bool) (o : Option Finding)
    → (if b
        then Option.map f (if a then Option.map f o else o)
        else if a
        then Option.map f o
        else o)
      ≡ (if a || b then Option.map f o else o)
twice f idem true true none = refl
twice f idem true true (some x) = ap some (idem x)
twice f idem true false o = refl
twice f idem false true o = refl
twice f idem false false o = refl

get-resolve_each :
    (now : Instant) (j : String) (absent : List String) (rows : Findings)
    → by_key finding_key j (resolve_each now absent rows) ≡ (
        if any (λ k. str_eq k j) absent
        then Option.map (resolve_row now) (by_key finding_key j rows)
        else by_key finding_key j rows)
unfolding resolve_each
get-resolve_each now j [] rows = refl
get-resolve_each now j (k ∷ absent) rows =
    get-resolve_each now j absent (modify finding_key k (resolve_row now) rows)
    ∙ rw (by_key-modify finding_key k (resolve_row now) (λ f. refl) j rows) (
        twice (resolve_row now) (λ f. refl) (str_eq k j) (any (λ k. str_eq k j) absent)
          (by_key finding_key j rows))

pub get-resolve_absent_if :
    (current : List String) (now grace : Instant) (rows : Findings) (j : String)
    → Unique finding_key rows
    → get (resolve_absent current now grace rows).0 j
      ≡ Option.map
          (λ f. if is_absent current (now - grace) f then resolve_row now f else f)
          (get rows j)
unfolding resolve_absent get
get-resolve_absent_if current now grace rows j u =
    get-resolve_each now j (map finding_key (keep (is_absent current (now - grace)) rows)) rows
    ∙ rw (listed (is_absent current (now - grace)) j rows u)
        (mapped (is_absent current (now - grace)) (resolve_row now) (by_key finding_key j rows))

Mem-any : (k : String) (ks : List String) → any (str_eq k) ks ≡ true → Memᴰ k ks
Mem-any k [] h = absurd (cc)
Mem-any k (j ∷ ks) h = elim (Bool-cases (str_eq k j)) [
  | inl e ↦ Memᴰ.head ((eq_iff k j).0 e)
  | inr e ↦ Memᴰ.tail (Mem-any k ks (ground (arith, h, e)))
]

any-Mem : (k : String) (ks : List String) → Memᴰ k ks → any (str_eq k) ks ≡ true
any-Mem k [] m = elim m [ ]
any-Mem k (j ∷ ks) (Memᴰ.head e) = ground (arith, (eq_iff k j).1 e)
any-Mem k (j ∷ ks) (Memᴰ.tail m) = ground (arith, any-Mem k ks m)

any-flip : (j : String) (ks : List String) → any (str_eq j) ks ≡ any (λ k. str_eq k j) ks
any-flip j [] = refl
any-flip j (k ∷ ks) = ground (arith, any-flip j ks, eq_iff j k, eq_iff k j)

answered :
    (current : List String) (now grace : Instant) (rows : Findings) (j : String) (f : Finding)
    → Unique finding_key rows
    → get rows j ≡ some f
    → any (λ k. str_eq k j) (resolve_absent current now grace rows).1
      ≡ is_absent current (now - grace) f
unfolding resolve_absent get
answered current now grace rows j f u h =
    listed (is_absent current (now - grace)) j rows u ∙ rw h refl

-- A finding of that fingerprint is gone: it is open, the scan did not see it, and it was last seen at
-- the start of the grace window or before.
pub record Gone (current : List String) (now grace : Instant) (f : Finding) : Type 0 where
  pub is_open : f.status ≡ opened
  pub unseen : ¬ Memᴰ f.fingerprint current
  pub stale : f.last_seen ≤ now - grace

opened_iff : (s : Status) → (is_opened s ≡ true) ↔ (s ≡ opened)
opened_iff s = (λ h. ground (arith, h), λ h. ground (arith, h))

is_absent-Gone :
    (current : List String) (now grace : Instant) (f : Finding)
    → is_absent current (now - grace) f ≡ true
    → Gone current now grace f
unfolding is_absent
is_absent-Gone current now grace f h = record {
  is_open = (opened_iff f.status).0 (ground (arith, h));
  unseen = λ m. ground (arith, h, any-Mem f.fingerprint current m);
  stale = ground (arith, h);
}

Gone-is_absent :
    (current : List String) (now grace : Instant) (f : Finding)
    → Gone current now grace f
    → is_absent current (now - grace) f ≡ true
unfolding is_absent
Gone-is_absent current now grace f g = elim (Bool-cases (any (str_eq f.fingerprint) current)) [
  | inl e ↦ absurd (g.unseen (Mem-any f.fingerprint current e))
  | inr e ↦ ground (arith, e, (opened_iff f.status).1 g.is_open, g.stale)
]

-- `resolve_absent` resolves a finding at this instant, keeps its other fields and names it in its
-- answer, where it is open, was not seen, and was last seen at the start of the grace window or
-- before; where one of these fails, the finding is as it was and the answer does not name it.
pub get-resolve_absent :
    (current : List String) (now grace : Instant) (rows : Findings) (j : String) (f : Finding)
    → Unique finding_key rows
    → get rows j ≡ some f
    → (Gone current now grace f
        × (get (resolve_absent current now grace rows).0 j
            ≡ some (record f { status = resolved; last_seen = now }))
        × Memᴰ j (resolve_absent current now grace rows).1)
      ⊎ ((¬ Gone current now grace f)
          × (get (resolve_absent current now grace rows).0 j ≡ some f)
          × (¬ Memᴰ j (resolve_absent current now grace rows).1))
get-resolve_absent current now grace rows j f u h =
    elim (Bool-cases (is_absent current (now - grace) f)) [
      | inl e ↦ inl (
        is_absent-Gone current now grace f e,
        get-resolve_absent_if current now grace rows j u ∙ rw (h, e) refl,
        Mem-any j _ (any-flip j _ ∙ answered current now grace rows j f u h ∙ e),
      )
      | inr e ↦ inr (
        λ g. ground (arith, e, Gone-is_absent current now grace f g),
        get-resolve_absent_if current now grace rows j u ∙ rw (h, e) refl,
        λ m. ground (
          arith,
          e,
          answered current now grace rows j f u h,
          any-flip j (resolve_absent current now grace rows).1,
          any-Mem j _ m,
        ),
      )
    ]
