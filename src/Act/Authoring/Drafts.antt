-- ===== src/Act/Authoring/Drafts.antt =====
-- What adding and vouching do to the solutions that the runbook holds
-- (src/steadystate/probe/solutions.py).
use mathlib.Core.Option
use mathlib.Core.Option.{some-injective}
use steadystate_ai.Prelude.{
  ◌≡◌, refl, ◌∙◌, sym, ap, subst, inl, inr, Bool, true, false, not, Option, none, some, List, [],
  ◌∷◌, ◌++◌, String, str_eq, arith, keep, Option-cases, if◌then◌else◌,
}
use steadystate_ai.Prelude.Texts.{Text}
use steadystate_ai.Prelude.Dicts.{put, lookup, lookup-put}
use steadystate_ai.Mutes.{Value}
use steadystate_ai.Act.Host.{Solution}
use steadystate_ai.Act.Authoring.{
  Field, Raw, Item, entry, raw_text, solution_object, solution_of, is_valid, parse_object,
  parse_solution, load_solutions, is_named, flag, signed, dated, stamp, store_solution,
  add_solution,
}

lookup-other :
    (k j : String) (f : Field) (raw : Raw)
    → str_eq k j ≡ false
    → lookup j (put k f raw) ≡ lookup j raw
lookup-other k j f raw h = ground (arith, lookup-put k j f raw, h)

raw_text-put :
    (k j : String) (f : Field) (raw : Raw)
    → str_eq k j ≡ false
    → raw_text j (put k f raw) ≡ raw_text j raw
unfolding raw_text
raw_text-put k j f raw h = rw (lookup-other k j f raw h, raw_text) refl

-- Two entries that say the same but for the trust in them.
record Alike (raw old : Raw) : Type 0 where
  pub same_name : raw_text "name" raw ≡ raw_text "name" old
  pub same_author : raw_text "author" raw ≡ raw_text "author" old
  pub same_for : raw_text "for" raw ≡ raw_text "for" old
  pub same_match : raw_text "match" raw ≡ raw_text "match" old
  pub same_problem : raw_text "problem" raw ≡ raw_text "problem" old
  pub same_impact : raw_text "impact" raw ≡ raw_text "impact" old
  pub same_reversibility : raw_text "reversibility" raw ≡ raw_text "reversibility" old
  pub same_added : raw_text "added" raw ≡ raw_text "added" old
  pub same_solution : lookup "solution" raw ≡ lookup "solution" old

Alike-proposed : (f : Field) (raw : Raw) → Alike (put "proposed" f raw) raw
Alike-proposed f raw = record {
  same_name = raw_text-put "proposed" "name" f raw refl;
  same_author = raw_text-put "proposed" "author" f raw refl;
  same_for = raw_text-put "proposed" "for" f raw refl;
  same_match = raw_text-put "proposed" "match" f raw refl;
  same_problem = raw_text-put "proposed" "problem" f raw refl;
  same_impact = raw_text-put "proposed" "impact" f raw refl;
  same_reversibility = raw_text-put "proposed" "reversibility" f raw refl;
  same_added = raw_text-put "proposed" "added" f raw refl;
  same_solution = lookup-other "proposed" "solution" f raw refl;
}

raw_text-proposed :
    (b : Bool) (raw : Raw)
    → raw_text "proposed" (put "proposed" (flag b) raw) ≡ (if b then "True" else "")
unfolding raw_text
raw_text-proposed true raw = rw (lookup-put "proposed" "proposed" (flag true) raw, raw_text) refl
raw_text-proposed false raw = rw (lookup-put "proposed" "proposed" (flag false) raw, raw_text) refl

abbrev pub with_trust : Bool → Solution → Solution
with_trust drafted sol = record sol { proposed = drafted }

module _ (lower : Text → Text) (compiles : String → Bool) where
  solution_of-Alike :
      (raw old : Raw) (fields : List (String × Value)) (b : Bool)
      → Alike raw old
      → not (str_eq (raw_text "proposed" raw) "") ≡ b
      → solution_of lower compiles raw fields ≡ with_trust b (solution_of lower compiles old fields)
  solution_of-Alike raw old fields b a p = ground (
    arith, a.same_name, a.same_author, a.same_for, a.same_match, a.same_problem, a.same_impact,
    a.same_reversibility, a.same_added, p,
  )

  is_valid-Alike :
      (raw old : Raw) (fields : List (String × Value))
      → Alike raw old
      → is_valid lower compiles raw fields ≡ is_valid lower compiles old fields
  unfolding is_valid
  is_valid-Alike raw old fields a = ground (
    arith, a.same_name, a.same_author, a.same_for, a.same_match, a.same_impact,
    a.same_reversibility,
  )

  parse_object-Alike :
      (raw old : Raw) (b : Bool) (o : Option (List (String × Value)))
      → Alike raw old
      → not (str_eq (raw_text "proposed" raw) "") ≡ b
      → parse_object lower compiles raw o
        ≡ Option.map (with_trust b) (parse_object lower compiles old o)
  parse_object-Alike raw old b none a p = refl
  parse_object-Alike raw old b (some sol) a p =
      ground (arith, is_valid-Alike raw old sol a, solution_of-Alike raw old sol b a p)

  parse_solution-Alike :
      (raw old : Raw) (b : Bool)
      → Alike raw old
      → not (str_eq (raw_text "proposed" raw) "") ≡ b
      → parse_solution lower compiles (entry raw)
        ≡ Option.map (with_trust b) (parse_solution lower compiles (entry old))
  unfolding parse_solution
  parse_solution-Alike raw old b a p =
      ap (λ o. parse_object lower compiles raw (solution_object o)) a.same_solution
      ∙ parse_object-Alike raw old b (solution_object (lookup "solution" old)) a p

  trusted :
      (b : Bool) (raw : Raw)
      → not (str_eq (raw_text "proposed" (put "proposed" (flag b) raw)) "") ≡ b
  trusted true raw = ap (λ s. not (str_eq s "")) (raw_text-proposed true raw)
  trusted false raw = ap (λ s. not (str_eq s "")) (raw_text-proposed false raw)

  load_solutions-append :
      (items others : List Item)
      → load_solutions lower compiles (items ++ others)
        ≡ load_solutions lower compiles items ++ load_solutions lower compiles others
  unfolding load_solutions
  load_solutions-append [] others = refl
  load_solutions-append (item ∷ items) others = ground (arith, load_solutions-append items others)

  load_solutions-one :
      (item : Item) (s : Solution)
      → parse_solution lower compiles item ≡ some s
      → load_solutions lower compiles (item ∷ []) ≡ s ∷ []
  unfolding load_solutions
  load_solutions-one item s e = rw (e, load_solutions) refl

  trust_of :
      (b : Bool) (o : Option Solution) (s : Solution)
      → Option.map (with_trust b) o ≡ some s
      → s.proposed ≡ b
  trust_of b none s h = absurd (cc)
  trust_of b (some t) s h = ap (λ u. u.proposed) (sym (some-injective _ _ h))

  drafted :
      (b : Bool) (old : Raw) (s : Solution)
      → parse_solution lower compiles (entry (put "proposed" (flag b) old)) ≡ some s
      → s.proposed ≡ b
  drafted b old s h = trust_of b (parse_solution lower compiles (entry old)) s (
      sym (
        parse_solution-Alike (put "proposed" (flag b) old) old b (Alike-proposed (flag b) old)
          (trusted b old))
      ∙ h)

  -- An entry that is added stands last in the runbook, behind the entries that are kept, and is a
  -- draft exactly where the writer stamps it so, whatever the entry itself says of its trust. Kept are
  -- the entries whose name, as it is stored, is not the stripped name of the new one: an entry whose
  -- name differs from it only by the blanks around it is kept too.
  pub add_solution-load_solutions :
      (raw : Raw) (author today : String) (proposed : Bool) (items added : List Item)
      (sol : Solution)
      → add_solution lower compiles raw author today proposed items ≡ some (sol, added)
      → (load_solutions lower compiles added
          ≡ load_solutions lower compiles (keep (λ it. not (is_named sol.name it)) items)
            ++ (sol ∷ []))
        × (sol.proposed ≡ proposed)
  unfolding add_solution stamp
  add_solution-load_solutions raw author today proposed items added sol h =
      let stamped = entry (stamp author today proposed raw) in
      elim (Option-cases (parse_solution lower compiles stamped)) [
        | inl e ↦ absurd (ground (arith, h, e))
        | inr (s, e) ↦
            subst
              (λ (p : Solution × List Item).
                (load_solutions lower compiles p.1
                  ≡ load_solutions lower compiles (keep (λ it. not (is_named p.0.name it)) items)
                    ++ (p.0 ∷ []))
                × (p.0.proposed ≡ proposed))
              (some-injective _ _ (ap (store_solution items stamped) (sym e) ∙ h))
              (
                load_solutions-append (keep (λ it. not (is_named s.name it)) items) (stamped ∷ [])
                    ∙ ap
                        (λ rest.
                          load_solutions lower compiles
                            (keep (λ it. not (is_named s.name it)) items)
                          ++ rest)
                        (load_solutions-one stamped s e),
                drafted proposed (dated today (signed author raw)) s e,
              )
      ]
