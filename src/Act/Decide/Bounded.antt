-- ===== src/Act/Decide/Bounded.antt =====
-- The runs of `act_on_proposals` (src/steadystate/act/decide.py).
use steadystate_ai.Prelude.{
  ◌≡◌, refl, inl, inr, true, false, ◌||◌, Option, none, some, List, [], ◌∷◌, ◌++◌, append-nil,
  String, str_eq, eq_refl, arith, All, ap, sym, subst, ◌∙◌,
}
use mathlib.Core.Option.{some-injective}
use mathlib.Core.List.{Memᴰ}
use steadystate_ai.Prelude.Texts.{Text}
use steadystate_ai.State.Findings.{Instant}
use steadystate_ai.State.Pending.{PendingAction, pending, get_pending, record_pending}
use steadystate_ai.State.Pending.Claims.{offered_row, get-record_pending}
use steadystate_ai.Act.Bounds.{default_bound, within_bounds}
use steadystate_ai.Act.Catalog.{CatalogAction, action_for_command}
use steadystate_ai.Act.Kubectl.Argv.{shlex_split}
use steadystate_ai.Act.Host.{Host, World, Event, command}
use steadystate_ai.Act.Execute.Gated.{CatalogRun}
use steadystate_ai.Act.Approve.{catalog_source, cleanup_source}
use steadystate_ai.Act.Approve.Licensed.{
  Licensed, by_override, by_catalog, by_cleanup, by_solution, by_workflow, by_executor,
}
use steadystate_ai.Act.Approve.Safety.{apply_pending-Licensed}
use steadystate_ai.Act.Runs.{Runs, Runs-none, bind-Runs, bind-pure-Runs}
use steadystate_ai.Act.Decide.{
  Verdict, GatedProposal, authorized, rejected, escalate, proposed_row, act_on, act_verdict,
  act_on_proposals,
}

other_source :
    (source b : String)
    → source ≡ catalog_source
    → str_eq catalog_source b ≡ false
    → str_eq source b ≡ true
    → ⊥
other_source source b s f h = ground (arith, ap (λ x. str_eq x b) s, f, h)

-- An action from the catalog source is licensed by the catalog alone.
Licensed-catalog :
    {P : Type 0} (host : Host P) (action : PendingAction) (k actor token : String) (e : Event)
    → action.source ≡ catalog_source
    → Licensed host action k actor token e
    → (argv : List Text) × CatalogRun host action false argv × (e ≡ command argv)
Licensed-catalog host action k actor token e s (by_override argv h a c run q) =
    absurd (other_source action.source _ s refl h)
Licensed-catalog host action k actor token e s (by_catalog argv h run q) = (argv, run, q)
Licensed-catalog host action k actor token e s (by_cleanup argv h run q) =
    absurd (other_source action.source _ s refl h)
Licensed-catalog host action k actor token e s (by_solution argv h f q) =
    absurd (other_source action.source _ s refl h)
Licensed-catalog host action k actor token e s (by_workflow head spec h f q) =
    absurd (other_source action.source _ s refl h)
Licensed-catalog host action k actor token e s (by_executor x h q) =
    absurd (ground (arith, ap (λ x. str_eq x cleanup_source || str_eq x catalog_source) s, h))

-- What is pending after an offer is what was offered.
offered_row-same :
    (o : Option PendingAction) (row : PendingAction) (now : Instant)
    → (offered_row o row now).status ≡ pending
    → ((offered_row o row now).source ≡ row.source)
      × ((offered_row o row now).command ≡ row.command)
offered_row-same none row now h = (refl, refl)
offered_row-same (some existing) row now h = (ground (arith, h), ground (arith, h))

module _ {P : Type 0} (host : Host P) (actor : String) (now : Instant) where
  -- A command that the decider ran: that of an authorized proposal, in the catalog, within the
  -- default bound.
  pub record DeciderRun (gs : List GatedProposal) (e : Event) : Type 0 where
    pub of : GatedProposal
    pub from : Memᴰ of gs
    pub passed : of.verdict ≡ authorized
    pub entry : CatalogAction
    pub found : action_for_command host.unicode of.proposal.command ≡ some entry
    pub valid : entry.validate of.proposal.command ≡ true
    pub in_bound : within_bounds entry.envelope default_bound ≡ true
    pub argv : List Text
    pub split : shlex_split of.proposal.command ≡ some argv
    pub event : e ≡ command argv

  later :
      (g : GatedProposal) (gs : List GatedProposal) (e : Event)
      → DeciderRun gs e
      → DeciderRun (g ∷ gs) e
  later g gs e r = record {
    of = r.of;
    from = Memᴰ.tail r.from;
    passed = r.passed;
    entry = r.entry;
    found = r.found;
    valid = r.valid;
    in_bound = r.in_bound;
    argv = r.argv;
    split = r.split;
    event = r.event;
  }

  All-later :
      (g : GatedProposal) (gs : List GatedProposal) (es : List Event)
      → All (DeciderRun gs) es
      → All (DeciderRun (g ∷ gs)) es
  All-later g gs [] h = tt
  All-later g gs (e ∷ es) h = (later g gs e h.0, All-later g gs es h.1)

  act_on-Runs :
      (g : GatedProposal) (gs : List GatedProposal) (w : World)
      → g.verdict ≡ authorized
      → Runs (DeciderRun (g ∷ gs)) w (act_on host actor now g w).1
  unfolding act_on Runs
  act_on-Runs g gs w passed =
      let row = proposed_row g now in
      let v : World = record w { actions = record_pending row now w.actions } in
      elim (apply_pending-Licensed host g.proposal.fingerprint actor "" now v) [
        | inl e ↦ ([], tt, e ∙ sym (append-nil w.ran))
        | inr (action, e, found, p, l, r) ↦
            let same : action ≡ offered_row (get_pending w.actions g.proposal.fingerprint) row now =
              some-injective _ _ (
                sym found
                ∙ get-record_pending row now w.actions g.proposal.fingerprint
                ∙ rw (eq_refl g.proposal.fingerprint) refl) in
            let is : (action.source ≡ catalog_source) × (action.command ≡ g.proposal.command) =
              subst (λ a. (a.source ≡ catalog_source) × (a.command ≡ g.proposal.command)) (sym same)
                (offered_row-same (get_pending w.actions g.proposal.fingerprint) row now
                  (ap (λ a. a.status) (sym same) ∙ p)) in
            let (argv, run, q) =
              Licensed-catalog host action g.proposal.fingerprint actor "" e is.0 l in
            (
              e ∷ [],
              (
                record {
                  of = g;
                  from = Memᴰ.head refl;
                  passed = passed;
                  entry = run.entry;
                  found = ap (action_for_command host.unicode) (sym is.1) ∙ run.found;
                  valid = ap run.entry.validate (sym is.1) ∙ run.valid;
                  in_bound = run.in_bound;
                  argv = argv;
                  split = ap shlex_split (sym is.1) ∙ run.split;
                  event = q;
                },
                tt,
              ),
              r,
            )
      ]

  Runs-later :
      (g : GatedProposal) (gs : List GatedProposal) (w w' : World)
      → Runs (DeciderRun gs) w w'
      → Runs (DeciderRun (g ∷ gs)) w w'
  unfolding Runs
  Runs-later g gs w w' (es, h, e) = (es, All-later g gs es h, e)

  act_verdict-Runs :
      (v : Verdict) (g : GatedProposal) (gs : List GatedProposal) (w : World)
      → g.verdict ≡ v
      → ((u : World) → Runs (DeciderRun gs) u (act_on_proposals host actor now gs u).1)
      → Runs
          (DeciderRun (g ∷ gs))
          w
          (act_verdict host actor now v g (act_on_proposals host actor now gs) w).1
  act_verdict-Runs authorized g gs w e rest =
      bind-Runs (DeciderRun (g ∷ gs)) (act_on host actor now g) _ w (act_on-Runs g gs w e)
        (λ answer u.
          bind-pure-Runs (DeciderRun (g ∷ gs)) (act_on_proposals host actor now gs) _ u
            (Runs-later g gs u _ (rest u)))
  act_verdict-Runs rejected g gs w e rest =
      bind-pure-Runs (DeciderRun (g ∷ gs)) (act_on_proposals host actor now gs) _ w
        (Runs-later g gs w _ (rest w))
  act_verdict-Runs escalate g gs w e rest =
      bind-pure-Runs (DeciderRun (g ∷ gs)) (act_on_proposals host actor now gs) _ w
        (Runs-later g gs w _ (rest w))

  -- Whatever was proposed, and by whom: what a decider that acts by itself runs is the command of an
  -- authorized proposal, which a catalog entry accepts and whose envelope the default bound lets
  -- run, split into arguments; nothing else happens outside the store.
  pub act_on_proposals-bounded :
      (gs : List GatedProposal) (w : World)
      → (es : List Event) × All (DeciderRun gs) es
        × ((act_on_proposals host actor now gs w).1.ran ≡ w.ran ++ es)
  unfolding Runs act_on_proposals
  act_on_proposals-bounded [] w = Runs-none (DeciderRun []) w
  act_on_proposals-bounded (g ∷ gs) w =
      act_verdict-Runs g.verdict g gs w refl (act_on_proposals-bounded gs)
