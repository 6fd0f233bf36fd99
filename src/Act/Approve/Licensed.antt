-- ===== src/Act/Approve/Licensed.antt =====
-- What licenses an effect of an approval, and the runs of one action (act/approve.py).
use steadystate_ai.Prelude.{
  ◌≡◌, refl, ◌⊎◌, inl, inr, Bool, true, false, not, ◌&&◌, ◌||◌, some, List, [], ◌∷◌, ◌++◌, String,
  str_eq, arith, leb, ap, sym, subst, if◌then◌else◌,
}
use steadystate_ai.Prelude.Texts.{Text}
use steadystate_ai.State.Findings.{Instant}
use steadystate_ai.State.Pending.{PendingAction}
use steadystate_ai.State.Audit.{Decision}
use steadystate_ai.Model.{Drift, drift_fingerprint}
use steadystate_ai.Act.Catalog.{action_for_command}
use steadystate_ai.Act.Kubectl.Argv.{shlex_split}
use steadystate_ai.Act.Host.{
  Host, World, Exec, Reply, returned, raised, proceed, ◌>>=◌, log_event, Event, command, workflow,
  remediation, RemediationResult, Attempt, finished, crashed,
}
use steadystate_ai.Act.Execute.Gated.{
  CatalogRun, CleanupRun, Ran, idle, one, SolutionRun, process, dispatch,
}
use steadystate_ai.Act.Approve.{
  breakglass_source, cleanup_source, catalog_source, solution_source, breakglass_allowed,
  override_tier, conclude, remediate,
}

-- One run: the tables of findings and actions are kept, and at most one effect is made, of which `L`
-- holds.
pub record Does (L : Event → Type 0) (w w' : World) : Type 0 where
  pub same_findings : w'.findings ≡ w.findings
  pub same_actions : w'.actions ≡ w.actions
  pub effect : (w'.ran ≡ w.ran) ⊎ ((e : Event) × L e × (w'.ran ≡ w.ran ++ (e ∷ [])))

module _ {P : Type 0} (host : Host P) (action : PendingAction) (k actor token : String) where
  -- What allows an effect of the approval of `action`, by its source.
  pub data Licensed (e : Event) : Type 0 where
    by_override :
        (argv : List Text)
        → str_eq action.source breakglass_source ≡ true
        → breakglass_allowed host.breakglass_users actor ≡ true
        → (leb 2 (override_tier (action_for_command host.unicode action.command))
            && not (str_eq token action.drift_identity))
          ≡ false
        → CatalogRun host action true argv
        → e ≡ command argv
        → Licensed e
    by_catalog :
        (argv : List Text)
        → str_eq action.source catalog_source ≡ true
        → CatalogRun host action false argv
        → e ≡ command argv
        → Licensed e
    by_cleanup :
        (argv : List Text)
        → str_eq action.source cleanup_source ≡ true
        → CleanupRun host action argv
        → e ≡ command argv
        → Licensed e
    by_solution :
        (argv : List Text)
        → str_eq action.source solution_source ≡ true
        → shlex_split action.command ≡ some argv
        → e ≡ command argv
        → Licensed e
    by_workflow :
        (head : Text) (spec : List Text)
        → str_eq action.source solution_source ≡ true
        → shlex_split action.command ≡ some (head ∷ spec)
        → e ≡ workflow spec
        → Licensed e
    by_executor :
        host.is_executable action.source ≡ true
        → (str_eq action.source cleanup_source || str_eq action.source catalog_source) ≡ false
        → e ≡ remediation action.source k
        → Licensed e

  pub Does-same : (w : World) → Does Licensed w w
  Does-same w = record { same_findings = refl; same_actions = refl; effect = inl refl }

  conclude-reply :
      (decision : Decision) (now : Instant) (w : World) (r : Reply RemediationResult) (w' : World)
      → Does Licensed w w'
      → Does Licensed w (proceed r (conclude action actor decision now) w').1
  unfolding conclude
  conclude-reply decision now w (returned result) w' d = record {
    same_findings = d.same_findings;
    same_actions = d.same_actions;
    effect = d.effect;
  }
  conclude-reply decision now w raised w' d = d

  pub Does-conclude :
      (decision : Decision) (now : Instant) (m : Exec RemediationResult) (w : World)
      → Does Licensed w (m w).1
      → Does Licensed w ((m >>= conclude action actor decision now) w).1
  Does-conclude decision now m w d = conclude-reply decision now w (m w).0 (m w).1 d

  pub Ran-Does :
      (Q : List Text → Type 0) (w w' : World)
      → ((argv : List Text) → Q argv → Licensed (command argv))
      → Ran host action Q w w'
      → Does Licensed w w'
  Ran-Does Q w w' license (idle e) = subst (Does Licensed w) (sym e) (Does-same w)
  Ran-Does Q w w' license (one argv q e) = subst (Does Licensed w) (sym e) (record {
    same_findings = refl;
    same_actions = refl;
    effect = inr (command argv, license argv q, refl);
  })

  pub SolutionRun-Does :
      (w w' : World)
      → str_eq action.source solution_source ≡ true
      → SolutionRun host action w w'
      → Does Licensed w w'
  SolutionRun-Does w w' s (idle e) = subst (Does Licensed w) (sym e) (Does-same w)
  SolutionRun-Does w w' s (process argv h e) = subst (Does Licensed w) (sym e) (record {
    same_findings = refl;
    same_actions = refl;
    effect = inr (command argv, by_solution argv s h refl, refl);
  })
  SolutionRun-Does w w' s (dispatch head spec h e) = subst (Does Licensed w) (sym e) (record {
    same_findings = refl;
    same_actions = refl;
    effect = inr (workflow spec, by_workflow head spec s h refl, refl);
  })

  remediation-Does :
      (drift : Drift P) (w : World)
      → host.is_executable action.source ≡ true
      → (str_eq action.source cleanup_source || str_eq action.source catalog_source) ≡ false
      → drift_fingerprint host.sha256 drift ≡ k
      → Does Licensed w
          (log_event (remediation action.source (drift_fingerprint host.sha256 drift)) w)
  remediation-Does drift w x o f = record {
    same_findings = refl;
    same_actions = refl;
    effect = inr (
      remediation action.source (drift_fingerprint host.sha256 drift),
      by_executor x o (ap (remediation action.source) f),
      refl,
    );
  }

  pub remediate-Does :
      (drift : Drift P) (w : World) (a : Attempt)
      → host.remediate w.ran action.source drift ≡ a
      → host.is_executable action.source ≡ true
      → (str_eq action.source cleanup_source || str_eq action.source catalog_source) ≡ false
      → drift_fingerprint host.sha256 drift ≡ k
      → Does Licensed w (remediate host action.source drift w).1
  unfolding remediate
  remediate-Does drift w (finished result) h x o f =
      let step : (remediate host action.source drift w).1
          ≡ log_event (remediation action.source (drift_fingerprint host.sha256 drift)) w =
        ground (arith, h) in
      subst (Does Licensed w) (sym step) (remediation-Does drift w x o f)
  remediate-Does drift w crashed h x o f =
      let step : (remediate host action.source drift w).1
          ≡ log_event (remediation action.source (drift_fingerprint host.sha256 drift)) w =
        ground (arith, h) in
      subst (Does Licensed w) (sym step) (remediation-Does drift w x o f)

  pub if-Does :
      {A : Type 0} (b : Bool) (m n : Exec A) (w : World)
      → (b ≡ true → Does Licensed w (m w).1)
      → (b ≡ false → Does Licensed w (n w).1)
      → Does Licensed w ((if b then m else n) w).1
  if-Does true m n w p q = p refl
  if-Does false m n w p q = q refl
