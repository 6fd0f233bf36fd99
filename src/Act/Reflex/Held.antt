-- ===== src/Act/Reflex/Held.antt =====
-- The effects of a hold tick (src/steadystate/act/reflex.py).
use steadystate_ai.Prelude.{
  ◌≡◌, refl, inl, inr, Bool, true, false, List, [], ◌∷◌, ◌++◌, append-nil, String, All, sym, ◌∙◌,
  is_some, some,
}
use mathlib.Core.List.{Memᴰ}
use steadystate_ai.Model.{Symptom}
use steadystate_ai.State.Findings.{Instant}
use steadystate_ai.State.Pending.{PendingAction, pending, get_pending}
use steadystate_ai.Act.Host.{Host, World, Event}
use steadystate_ai.Act.Runs.{Runs, Runs-none, bind-Runs_at, bind-pure-Runs}
use steadystate_ai.Act.Approve.{apply_pending}
use steadystate_ai.Act.Approve.Licensed.{Licensed}
use steadystate_ai.Act.Approve.Safety.{apply_pending-Licensed}
use steadystate_ai.Act.Approve.Steady.{Steady, Steady-refl, Steady-then, apply_pending-Steady}
use steadystate_ai.Act.Reflex.{ReflexDecision, to_act, hold_plan, hold_one, hold_all, run_hold}

module _ {P : Type 0} (host : Host P) (actor : String) (now : Instant) (start : World) where
  -- An effect of a tick: of one of the decisions, and licensed for the action that stood pending under
  -- its fingerprint when the tick began.
  pub record HoldRun (ds : List ReflexDecision) (e : Event) : Type 0 where
    pub decision : ReflexDecision
    pub from : Memᴰ decision ds
    pub action : PendingAction
    pub found : get_pending start.actions decision.fingerprint ≡ some action
    pub waiting : action.status ≡ pending
    pub licensed : Licensed host action decision.fingerprint actor "" e

  All-later :
      (d : ReflexDecision) (ds : List ReflexDecision) (es : List Event)
      → All (HoldRun ds) es
      → All (HoldRun (d ∷ ds)) es
  All-later d ds [] h = tt
  All-later d ds (e ∷ es) h = (
    record {
      decision = h.0.decision;
      from = Memᴰ.tail h.0.from;
      action = h.0.action;
      found = h.0.found;
      waiting = h.0.waiting;
      licensed = h.0.licensed;
    },
    All-later d ds es h.1,
  )

  Runs-later :
      (d : ReflexDecision) (ds : List ReflexDecision) (w w' : World)
      → Runs (HoldRun ds) w w'
      → Runs (HoldRun (d ∷ ds)) w w'
  unfolding Runs
  Runs-later d ds w w' (es, h, e) = (es, All-later d ds es h, e)

  apply-Runs :
      (d : ReflexDecision) (ds : List ReflexDecision) (w : World)
      → Steady start w
      → Runs (HoldRun (d ∷ ds)) w (apply_pending host d.fingerprint actor now "" w).1
  unfolding Runs Steady
  apply-Runs d ds w steady = elim (apply_pending-Licensed host d.fingerprint actor "" now w) [
    | inl e ↦ ([], tt, e ∙ sym (append-nil w.ran))
    | inr (action, e, found, p, l, r) ↦ (
      e ∷ [],
      (
        record {
          decision = d;
          from = Memᴰ.head refl;
          action = action;
          found = steady d.fingerprint action found p;
          waiting = p;
          licensed = l;
        },
        tt,
      ),
      r,
    )
  ]

  hold_one-Runs :
      (b : Bool) (d : ReflexDecision) (ds : List ReflexDecision) (w : World)
      → Steady start w
      → is_some (get_pending w.actions d.fingerprint) ≡ b
      → ((v : World) → Steady start v → Runs (HoldRun ds) v (hold_all host actor now ds v).1)
      → Runs (HoldRun (d ∷ ds)) w (hold_one host actor now d (hold_all host actor now ds) w).1
  unfolding hold_one
  hold_one-Runs true d ds w steady b rest =
      let v : World = (apply_pending host d.fingerprint actor now "" w).1 in
      rw b (
        bind-Runs_at (HoldRun (d ∷ ds)) (apply_pending host d.fingerprint actor now "") _ w
          (apply-Runs d ds w steady)
          (λ answer. bind-pure-Runs (HoldRun (d ∷ ds)) (hold_all host actor now ds) _ v (
            Runs-later d ds v _ (
              rest v (
                Steady-then start w v steady
                  (apply_pending-Steady host d.fingerprint actor "" now w))))))
  hold_one-Runs false d ds w steady b rest = rw b (Runs-later d ds w _ (rest w steady))

  hold_all-Runs :
      (ds : List ReflexDecision) (w : World)
      → Steady start w
      → Runs (HoldRun ds) w (hold_all host actor now ds w).1
  unfolding hold_all
  hold_all-Runs [] w steady = Runs-none (HoldRun []) w
  hold_all-Runs (d ∷ ds) w steady = hold_one-Runs _ d ds w steady refl (hold_all-Runs ds)

-- Each effect of a tick is of a decision to act of its plan, and licensed for the very action that
-- stood pending under the fingerprint of that decision when the tick began.
pub run_hold-licensed :
    {P : Type 0} (host : Host P) (actor : String) (now : Instant) (alerts : List (List Symptom))
    (apply : Bool) (w : World)
    → (es : List Event) × All
        (HoldRun host actor now w (to_act (hold_plan host actor now alerts w)))
        es
      × ((run_hold host actor now alerts apply w).1.ran ≡ w.ran ++ es)
unfolding run_hold Runs
run_hold-licensed host actor now alerts true w =
    let ds = to_act (hold_plan host actor now alerts w) in
    bind-pure-Runs (HoldRun host actor now w ds) (hold_all host actor now ds) _ w
      (hold_all-Runs host actor now w ds w (Steady-refl w))
run_hold-licensed host actor now alerts false w = Runs-none _ w
