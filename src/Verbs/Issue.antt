-- ===== src/Verbs/Issue.antt =====
-- The command that `fix` and `run` issue for a finding (src/steadystate/verbs.py).
use Prim.Native.String.{String}
use text.Mathlib.TextPositions.{eq_refl}
use steadystate_ai.Prelude.{
  ℕ, ◌≡◌, refl, ◌⊎◌, inl, inr, true, false, Option, none, some, List, [], ◌∷◌, ◌++◌, arith, ap, sym,
  ◌∙◌, Bool-cases, ltb, str_eq, if◌then◌else◌,
}
use steadystate_ai.Prelude.Texts.{Text}
use steadystate_ai.State.Findings.{Instant, Finding}
use steadystate_ai.State.Pending.{
  PendingAction, pending, declined, same_status, Actions, get_pending, record_pending, offered,
}
use steadystate_ai.State.Pending.Claims.{offered_row, get-record_pending}
use steadystate_ai.Act.Bounds.{Envelope, default_bound, confirmation_tier, within_bounds}
use steadystate_ai.Act.Catalog.{CatalogAction}
use steadystate_ai.Act.Kubectl.Argv.{shlex_split}
use steadystate_ai.Act.Host.{
  Host, World, Exec, Reply, returned, raised, pure, proceed, ◌>>=◌, ◌>>◌, Event,
}
use steadystate_ai.Act.Host as Host
use steadystate_ai.Act.Approve.{catalog_source, breakglass_allowed, solution_source, apply_pending}
use steadystate_ai.Act.Approve.Licensed.{
  Licensed, by_override, by_catalog, by_cleanup, by_solution, by_workflow, by_executor,
}
use steadystate_ai.Act.Approve.Safety.{apply_pending-Licensed}
use steadystate_ai.Verbs.{
  Target, VerbMessage, finding_fields, issued_row, breakglass_challenge, issue, gate_command,
  apply_catalog_action,
}

proceed-world :
    {A B : Type 0} (r : Reply A) (f : A → B) (w : World) → (proceed r (λ a. pure (f a)) w).1 ≡ w
proceed-world (returned a) f w = refl
proceed-world raised f w = refl

-- The world that a run leaves does not depend on what is made of its answer.
pub pure-world :
    {A B : Type 0} (m : Exec A) (f : A → B) (w : World) → ((m >>= λ a. pure (f a)) w).1 ≡ (m w).1
pure-world m f w = proceed-world (m w).0 f (m w).1

tier-within :
    (e : Envelope)
    → ltb 0 (confirmation_tier e default_bound) ≡ false
    → within_bounds e default_bound ≡ true
unfolding confirmation_tier
tier-within e h = ground (arith, h)

-- An action that waits under a fingerprint at which `row` was just offered is `row`.
offered_row-pending :
    (o : Option PendingAction) (row action : PendingAction) (now : Instant)
    → offered_row o row now ≡ action
    → action.status ≡ pending
    → (action.source ≡ row.source) × (action.command ≡ row.command)
offered_row-pending none row action now e p =
    (sym (ap (λ (a : PendingAction). a.source) e), sym (ap (λ (a : PendingAction). a.command) e))
offered_row-pending (some existing) row action now e p =
    elim (Bool-cases (same_status existing.status declined)) [
      | inl d ↦
          let same : existing ≡ action =
            sym (ap (λ b. if b then existing else offered row existing.created_at) d) ∙ e in
          absurd (
            ground (
              arith,
              d,
              ap (λ s. same_status s declined) (ap (λ (a : PendingAction). a.status) same ∙ p),
            ))
      | inr nd ↦ ground (
        arith,
        nd,
        ap (λ (a : PendingAction). a.source) e,
        ap (λ (a : PendingAction). a.command) e,
      )
    ]

some_action : (a b : PendingAction) → some a ≡ some b → a ≡ b
some_action a b e = cc

recorded :
    (row : PendingAction) (now : Instant) (rows : Actions) (action : PendingAction)
    → get_pending (record_pending row now rows) row.fingerprint ≡ some action
    → offered_row (get_pending rows row.fingerprint) row now ≡ action
recorded row now rows action at =
    some_action (offered_row (get_pending rows row.fingerprint) row now) action (
      sym (
        ap
          (λ b.
            if b
            then some (offered_row (get_pending rows row.fingerprint) row now)
            else get_pending rows row.fingerprint)
          (eq_refl row.fingerprint))
      ∙ sym (get-record_pending row now rows row.fingerprint)
      ∙ at)

module _ {P : Type 0} (host : Host P) (targets : List Target) where
  -- The command of an action that a verb issues for a finding.
  pub record Issued (f : Finding) (a : CatalogAction) (argv : List Text) : Type 0 where
    pub command : Text
    pub composed : a.compose (finding_fields targets f) ≡ some command
    pub valid : a.validate command ≡ true
    pub in_bound : within_bounds a.envelope default_bound ≡ true
    pub split : shlex_split command ≡ some argv

  Licensed-catalog :
      (action : PendingAction) (k actor token : String) (e : Event)
      → action.source ≡ catalog_source
      → Licensed host action k actor token e
      → (argv : List Text) × (shlex_split action.command ≡ some argv) × (e ≡ Host.command argv)
  Licensed-catalog action k actor token e s (by_catalog argv h made same) = (argv, made.split, same)
  Licensed-catalog action k actor token e s (by_override argv h allowed typed made same) =
      (argv, made.split, same)
  Licensed-catalog action k actor token e s (by_cleanup argv h made same) = (argv, made.split, same)
  Licensed-catalog action k actor token e s (by_solution argv h split same) = (argv, split, same)
  Licensed-catalog action k actor token e s (by_workflow head spec h split same) =
      absurd (ground (arith, h, ap (λ t. str_eq t solution_source) s))
  Licensed-catalog action k actor token e s (by_executor h other same) =
      absurd (ground (arith, other, ap (λ t. str_eq t catalog_source) s))

  module _ (now : Instant) (actor : String) where
    offered_world : Finding → String → String → Text → World → World
    offered_world f source target command w = record w {
      actions = record_pending (issued_row f source target command now) now w.actions;
    }

    -- What an issued command runs is its own list of arguments.
    issue-effect :
        (f : Finding) (a : CatalogAction) (command : Text) (w : World)
        → ((issue host targets now actor f a command w).1.ran ≡ w.ran)
          ⊎ ((argv : List Text) × (shlex_split command ≡ some argv)
              × ((issue host targets now actor f a command w).1.ran
                  ≡ w.ran ++ (Host.command argv ∷ [])))
    unfolding issue offered_world
    issue-effect f a command w =
        let w' = offered_world f catalog_source f.last_title command w in
        rw
          (pure-world (apply_pending host f.fingerprint actor now "")
            (λ answer. VerbMessage.issued a.name answer.0 command) w')
          (elim (apply_pending-Licensed host f.fingerprint actor "" now w') [
            | inl e ↦ inl e
            | inr (action, e, at, p, l, r) ↦
                let row = issued_row f catalog_source f.last_title command now in
                let (source, same) =
                  offered_row-pending (get_pending w.actions f.fingerprint) row action now
                    (recorded row now w.actions action at) p in
                let (argv, split, ran) =
                  Licensed-catalog action f.fingerprint actor "" e source l in
                inr (argv, ap shlex_split (sym same) ∙ split, r ∙ ap (λ x. w.ran ++ (x ∷ [])) ran)
          ])

    -- The effect of a verb for a finding: none, or its issued command.
    abbrev pub OneIssued : Finding → CatalogAction → World → World → Type 0
    OneIssued f a w w' =
        (w'.ran ≡ w.ran)
        ⊎ ((argv : List Text) × Issued f a argv × (w'.ran ≡ w.ran ++ (Host.command argv ∷ [])))

    breakglass_challenge-ran :
        (f : Finding) (a : CatalogAction) (command : Text) (tier : ℕ) (w : World)
        → (breakglass_challenge host targets now actor f a command tier w).1.ran ≡ w.ran
    unfolding breakglass_challenge
    breakglass_challenge-ran f a command tier w =
        elim (Bool-cases (breakglass_allowed host.breakglass_users actor)) [
          | inl y ↦ rw y refl
          | inr n ↦ rw n refl
        ]

    gate_command-effect :
        (f : Finding) (a : CatalogAction) (composed : Option Text) (w : World)
        → a.compose (finding_fields targets f) ≡ composed
        → OneIssued f a w (gate_command host targets now actor f a composed w).1
    gate_command-effect f a none w c = inl refl
    gate_command-effect f a (some command) w c = elim (Bool-cases (a.validate command)) [
      | inr n ↦ rw n (inl refl)
      | inl v ↦ rw v (elim (Bool-cases (ltb 0 (confirmation_tier a.envelope default_bound))) [
        | inl out ↦ rw out (
            inl
              (breakglass_challenge-ran f a command (confirmation_tier a.envelope default_bound) w))
        | inr within ↦ rw within (elim (issue-effect f a command w) [
          | inl e ↦ inl e
          | inr (argv, split, r) ↦ inr (
            argv,
            record {
              command = command;
              composed = c;
              valid = v;
              in_bound = tier-within a.envelope within;
              split = split;
            },
            r,
          )
        ])
      ])
    ]

    pub apply_catalog_action-effect :
        (f : Finding) (a : CatalogAction) (w : World)
        → OneIssued f a w (apply_catalog_action host targets now actor f a w).1
    unfolding apply_catalog_action
    apply_catalog_action-effect f a w =
        gate_command-effect f a (a.compose (finding_fields targets f)) w refl
