-- ===== src/Act/Solutions/Unattended.antt =====
-- The effects of `record_solution_remediations` (src/steadystate/act/solution_remedy.py).
use mathlib.Core.List.{Memᴰ}
use steadystate_ai.Prelude.{
  ℕ, suc, ◌≡◌, refl, ◌∙◌, sym, ap, subst, inl, inr, Bool, true, false, not, ◌&&◌, ◌||◌, Option,
  none, some, List, [], ◌∷◌, ◌++◌, str_eq, arith, any, keep, find, find-holds, is_empty, append-nil,
  All, Bool-cases, Option-cases, if◌then◌else◌,
}
use steadystate_ai.Prelude.Texts.{Text, codes, text_eq}
use steadystate_ai.Model.{Symptom, symptom_fingerprint}
use steadystate_ai.State.Findings.{Instant}
use steadystate_ai.State.Pending.{PendingAction}
use steadystate_ai.Act.Bounds.{within_bounds}
use steadystate_ai.Act.Kubectl.{WideWord}
use steadystate_ai.Act.Host.{Host, World, Event, command, workflow, Solution}
use steadystate_ai.Act.Kubectl.Argv.{shlex_split}
use steadystate_ai.Act.Execute.{split_command, run_solution}
use steadystate_ai.Act.Execute.Gated.{SolutionRun, idle, process, dispatch, run_solution-Run}
use steadystate_ai.Act.Runs.{Runs, Runs-none, bind-Runs, bind-pure-Runs}
use steadystate_ai.Act.Runbook.{
  is_arbitrary, solution_envelope, auto_eligible, fill, unfilled, applies_to, solutions_for,
  is_runnable,
}
use steadystate_ai.Act.Solutions.{
  Setting, setting_of, solution_row, auto_apply, stored_command, is_offered, offer_or_run, offer_if,
  remedy, record_solution, record_solutions, record_solution_remediations,
}

-- The effect of running a stored text: the process that it splits into, or the workflow behind the
-- first word.
pub data SplitOf (stored : Text) (e : Event) : Type 0 where
  as_process :
      (argv : List Text) → shlex_split stored ≡ some argv → e ≡ command argv → SplitOf stored e
  as_workflow :
      (head : Text) (tokens : List Text)
      → shlex_split stored ≡ some (head ∷ tokens)
      → e ≡ workflow tokens
      → SplitOf stored e

-- An unattended effect: the filled command of a solution of the runbook that is vouched for and of no
-- open kind, unless the safety net is lifted, and within the bound.
pub record Unattended (wide : WideWord) (setting : Setting) (sols : List Solution) (e : Event)
    : Type 0 where
  pub solution : Solution
  pub symptom : Symptom
  pub ran : SplitOf (stored_command solution (fill wide solution.run symptom.evidence)) e
  pub listed : Memᴰ solution sols
  pub switched_on : setting.auto ≡ true
  pub vouched : (not solution.proposed || setting.net_lifted) ≡ true
  pub closed : (not (is_arbitrary solution.kind) || setting.net_lifted) ≡ true
  pub bounded : within_bounds (solution_envelope solution) setting.policy ≡ true

find-keep-Mem :
    {A : Type 0} (q p : A → Bool) (xs : List A) (x : A) → find q (keep p xs) ≡ some x → Memᴰ x xs
find-keep-Mem q p [] x h = absurd (cc)
find-keep-Mem q p (y ∷ xs) x h = elim (Bool-cases (p y && q y)) [
  | inl e ↦ Memᴰ.head (ground (arith, h, e))
  | inr e ↦ Memᴰ.tail (find-keep-Mem q p xs x (ground (arith, h, e)))
]

auto_eligible-facts :
    (net_lifted : Bool) (sol : Solution) (setting : Setting)
    → auto_eligible net_lifted sol setting.policy ≡ true
    → ((not (is_arbitrary sol.kind) || net_lifted) ≡ true)
      × (within_bounds (solution_envelope sol) setting.policy ≡ true)
unfolding auto_eligible
auto_eligible-facts net_lifted sol setting h =
    elim (Bool-cases (is_arbitrary sol.kind && not net_lifted)) [
      | inl e ↦ absurd (ground (arith, h, e))
      | inr e ↦ (ground (arith, e), ground (arith, h, e))
    ]

module _ {P : Type 0} (host : Host P) (search : Text → Text → Bool) (now : Instant)
    (setting : Setting) (sols : List Solution) where
  abbrev Effect : Event → Type 0
  Effect = Unattended host.unicode.wide setting sols

  run_solution-Runs :
      (Q : Event → Type 0) (action : PendingAction) (sol : Solution) (w w' : World)
      → ((e : Event) → SplitOf action.command e → Q e)
      → SolutionRun host action w w'
      → Runs Q w w'
  unfolding Runs
  run_solution-Runs Q action sol w w' q (idle e) =
      ([], tt, ap (λ v. v.ran) e ∙ sym (append-nil w.ran))
  run_solution-Runs Q action sol w w' q (process argv s e) =
      (_ ∷ [], (q _ (as_process argv s refl), tt), ap (λ v. v.ran) e)
  run_solution-Runs Q action sol w w' q (dispatch head tokens s e) =
      (_ ∷ [], (q _ (as_workflow head tokens s refl), tt), ap (λ v. v.ran) e)

  auto_apply-Runs :
      (action : PendingAction) (sol : Solution) (via_override : Bool) (w : World)
      → ((e : Event) → SplitOf action.command e → Effect e)
      → Runs Effect w (auto_apply host search now action sol via_override w).1
  unfolding auto_apply Runs
  auto_apply-Runs action sol via_override w q =
      bind-Runs Effect (run_solution host action (some sol)) _ w
        (run_solution-Runs Effect action sol w (run_solution host action (some sol) w).1 q
          (run_solution-Run host action (some sol) w))
        (λ result v. ([], tt, sym (append-nil v.ran)))

  offer_or_run-Runs :
      (action : PendingAction) (sol : Solution) (s : Symptom) (w : World)
      → action.command ≡ stored_command sol (fill host.unicode.wide sol.run s.evidence)
      → Memᴰ sol sols
      → is_runnable setting.net_lifted sol ≡ true
      → Runs Effect w (offer_or_run host search now setting action sol w).1
  unfolding offer_or_run Runs
  offer_or_run-Runs action sol s w c m r =
      elim (Bool-cases (
        setting.auto
        && not (any (str_eq action.fingerprint) setting.already)
        && auto_eligible setting.net_lifted sol setting.policy)) [
          | inl e ↦
              rw (e, offer_or_run)
                (bind-pure-Runs Effect
                  (auto_apply host search now action sol
                    (setting.net_lifted && (is_arbitrary sol.kind || sol.proposed)))
                  (λ done. true) w
                  (auto_apply-Runs action sol
                    (setting.net_lifted && (is_arbitrary sol.kind || sol.proposed)) w
                    (λ effect split.
                      let (closed, bounded) =
                        auto_eligible-facts setting.net_lifted sol setting (ground (arith, e)) in
                      record {
                        solution = sol;
                        symptom = s;
                        ran = subst (λ t. SplitOf t effect) c split;
                        listed = m;
                        switched_on = ground (arith, e);
                        vouched = ground (arith, r);
                        closed = closed;
                        bounded = bounded;
                      })))
          | inr e ↦ rw (e, offer_or_run) ([], tt, sym (append-nil w.ran))
        ]

  is_offered-world :
      (sol : Solution) (filled : Text) (w : World) → (is_offered host search now sol filled w).1 ≡ w
  unfolding is_offered split_command
  is_offered-world sol filled w = elim (Bool-cases (text_eq sol.kind (codes "workflow"))) [
    | inr e ↦ rw (e, is_offered) refl
    | inl e ↦ elim (Option-cases (shlex_split filled)) [
      | inl q ↦ rw (e, is_offered) (rw (q, split_command) refl)
      | inr (argv, q) ↦ rw (e, is_offered) (rw (q, split_command) refl)
    ]
  ]

  offer_if-Runs :
      (s : Symptom) (sol : Solution) (good : Bool) (w : World)
      → Memᴰ sol sols
      → is_runnable setting.net_lifted sol ≡ true
      → Runs Effect w
          (offer_if host search now setting s sol
            (fill host.unicode.wide sol.run s.evidence)
            good
            w).1
  offer_if-Runs s sol false w m r = Runs-none Effect w
  offer_if-Runs s sol true w m r =
      offer_or_run-Runs
        (solution_row (symptom_fingerprint host.sha256 s) sol
          (stored_command sol (fill host.unicode.wide sol.run s.evidence)) now)
        sol s w refl m r

  remedy-Runs :
      (s : Symptom) (o : Option Solution) (w : World)
      → find
          (is_runnable setting.net_lifted)
          (solutions_for host.unicode.lower search (codes s.category) (codes s.title) sols)
        ≡ o
      → Runs Effect w (remedy host search now setting s o w).1
  unfolding solutions_for
  remedy-Runs s none w f = Runs-none Effect w
  remedy-Runs s (some sol) w f =
      let filled = fill host.unicode.wide sol.run s.evidence in
      let listed =
        find-keep-Mem (is_runnable setting.net_lifted)
          (applies_to host.unicode.lower search (codes s.category) (codes s.title)) sols sol f in
      let runnable =
        find-holds (is_runnable setting.net_lifted)
          (keep (applies_to host.unicode.lower search (codes s.category) (codes s.title)) sols) sol
          f in
      elim (Bool-cases (unfilled host.unicode.wide filled)) [
        | inl e ↦ rw e (Runs-none Effect w)
        | inr e ↦ rw e (
            bind-Runs Effect (is_offered host search now sol filled) _ w
              (subst (Runs Effect w) (sym (is_offered-world sol filled w)) (Runs-none Effect w))
              (λ good v. offer_if-Runs s sol good v listed runnable))
      ]

  record_solutions-Runs :
      (symptoms : List Symptom) (recorded : ℕ) (w : World)
      → Runs Effect w (record_solutions host search now setting sols symptoms recorded w).1
  unfolding record_solutions record_solution
  record_solutions-Runs [] recorded w = Runs-none Effect w
  record_solutions-Runs (s ∷ symptoms) recorded w =
      bind-Runs Effect (record_solution host search now setting sols s) _ w
        (remedy-Runs s
          (find (is_runnable setting.net_lifted)
            (solutions_for host.unicode.lower search (codes s.category) (codes s.title) sols))
          w refl)
        (λ counted v. record_solutions-Runs symptoms (if counted then suc recorded else recorded) v)

-- Everything that a scan runs on its own account from the runbook is the command of a listed
-- solution, filled from a symptom's evidence, and within the bound; the solution is vouched for and of no open kind unless the safety
-- net is lifted, and the opt-in is on.
pub record_solution_remediations-Unattended :
    {P : Type 0} (host : Host P) (search : Text → Text → Bool) (now : Instant) (auto : Option Bool)
    (auto_env net_env : Text) (symptoms : List Symptom) (w : World)
    → (es : List Event) × All
        (Unattended host.unicode.wide (setting_of host auto auto_env net_env w) host.solutions)
        es
      × ((record_solution_remediations host search now auto auto_env net_env symptoms w).1.ran
          ≡ w.ran ++ es)
unfolding record_solution_remediations Runs
record_solution_remediations-Unattended host search now auto auto_env net_env symptoms w =
    elim (Bool-cases (is_empty host.solutions)) [
      | inl e ↦ rw e ([], tt, sym (append-nil w.ran))
      | inr e ↦ rw e (
          record_solutions-Runs host search now (setting_of host auto auto_env net_env w)
            host.solutions symptoms 0 w)
    ]
