-- ===== src/Tests/Approvals.antt =====
-- Approvals, the decider and a hold tick at a concrete world.
use steadystate_ai.Prelude.{
  ◌≡◌, ◌↔◌, refl, ◌⊎◌, true, false, none, some, List, [], ◌∷◌, ◌++◌, All, String,
}
use mathlib.Core.List.{Memᴰ}
use steadystate_ai.Prelude.Rows.{by_key, Unique}
use steadystate_ai.Prelude.Texts.{split, codes}
use steadystate_ai.State.Findings.{Instant}
use steadystate_ai.State.Pending.{PendingAction, pending_key, pending, get_pending, record_pending}
use steadystate_ai.Act.Bounds.{lossless, tenant, within_bounds}
use steadystate_ai.Act.Kubectl.Argv.{shlex_split-split}
use steadystate_ai.Act.Catalog.{action_for_command, builtin_actions, reclaim_evicted_pods}
use steadystate_ai.Act.Catalog.Disjoint.{action_for_command_unique}
use steadystate_ai.Act.Approve.Runs.{ComesTo, apply_pending-runs}
use steadystate_ai.Act.Host.{World, Event, returned, raised, exited, success}
use steadystate_ai.Act.Execute.{run_catalog_action, run_cleanup}
use steadystate_ai.Act.Execute.Errors.{CatalogRaise, CleanupRaise, runners-raised}
use steadystate_ai.Act.Approve.{nothing_pending, apply_pending, decline_pending}
use steadystate_ai.Act.Approve.Licensed.{Licensed}
use steadystate_ai.Act.Approve.Steady.{approvals}
use steadystate_ai.Act.Approve.Safety.{apply_pending-Licensed, apply_pending-once}
use steadystate_ai.Act.Approve.Declined.{decline_pending-final}
use steadystate_ai.Act.Approve.Audited.{apply_pending-Audited}
use steadystate_ai.Act.Approve.Recorded.{Audited}
use steadystate_ai.Act.Decide.{GatedProposal, authorized, act_on_proposals}
use steadystate_ai.Act.Cleanup.{record_cleanups}
use steadystate_ai.Act.Cleanup.Offers.{OnlySafe, record_cleanups-OnlySafe}
use steadystate_ai.Act.Decide.Bounded.{DeciderRun, act_on_proposals-bounded}
use steadystate_ai.Act.Reflex.{to_act, hold_plan, run_hold}
use steadystate_ai.Act.Reflex.Held.{HoldRun, run_hold-licensed}
use steadystate_ai.Tests.Gates.{reclaim-plain, reclaim-blank, reclaim-valid}
use steadystate_ai.Tests.{
  cluster, ascii, reclaim, reclaim_command, one_pending, evicted_pods, proposal,
}

abbrev passed : GatedProposal
passed = record {
  proposal = proposal;
  verdict = authorized;
  envelope = some (record { reversibility = lossless; impact = tenant });
}

apply_pending-Licensed_example :
    ((apply_pending cluster "f1" "alice" 5 "" one_pending).1.ran ≡ one_pending.ran)
    ⊎ ((action : PendingAction) × (e : Event) × (get_pending one_pending.actions "f1" ≡ some action)
        × (action.status ≡ pending)
        × Licensed cluster action "f1" "alice" "" e
        × ((apply_pending cluster "f1" "alice" 5 "" one_pending).1.ran
            ≡ one_pending.ran ++ (e ∷ [])))
apply_pending-Licensed_example = apply_pending-Licensed cluster "f1" "alice" "" 5 one_pending

abbrev in_between : List (String × String × Instant × String)
in_between = ("f1", "carol", 6, "") ∷ ("f2", "bob", 7, "") ∷ []

apply_pending-once_example :
    ((apply_pending cluster "f1" "alice" 5 "" one_pending).1 ≡ one_pending)
    ⊎ (apply_pending cluster "f1" "bob" 8 ""
          (approvals cluster in_between (apply_pending cluster "f1" "alice" 5 "" one_pending).1)
        ≡ (
          returned nothing_pending,
          approvals cluster in_between (apply_pending cluster "f1" "alice" 5 "" one_pending).1,
        ))
apply_pending-once_example =
    apply_pending-once cluster "f1" "alice" "" 5 one_pending in_between "bob" "" 8

apply_pending-Audited_example :
    ((get_pending one_pending.actions "f1" ≡ none)
      × (apply_pending cluster "f1" "alice" 5 "" one_pending
          ≡ (returned nothing_pending, one_pending)))
    ⊎ ((action : PendingAction) × (get_pending one_pending.actions "f1" ≡ some action)
        × Audited cluster action "f1" "alice" "" 5 one_pending.actions one_pending.audit
            one_pending.ran
            (apply_pending cluster "f1" "alice" 5 "" one_pending).0
            (apply_pending cluster "f1" "alice" 5 "" one_pending).1)
apply_pending-Audited_example = apply_pending-Audited cluster "f1" "alice" "" 5 one_pending

act_on_proposals-bounded_example :
    (es : List Event) × All (DeciderRun cluster "decider" 5 (passed ∷ [])) es
    × ((act_on_proposals cluster "decider" 5 (passed ∷ []) one_pending).1.ran
        ≡ one_pending.ran ++ es)
act_on_proposals-bounded_example =
    act_on_proposals-bounded cluster "decider" 5 (passed ∷ []) one_pending

run_hold-licensed_example :
    (es : List Event) × All
      (HoldRun cluster "hold" 5 one_pending
        (to_act (hold_plan cluster "hold" 5 ((evicted_pods ∷ []) ∷ []) one_pending)))
      es
    × ((run_hold cluster "hold" 5 ((evicted_pods ∷ []) ∷ []) true one_pending).1.ran
        ≡ one_pending.ran ++ es)
run_hold-licensed_example =
    run_hold-licensed cluster "hold" 5 ((evicted_pods ∷ []) ∷ []) true one_pending

one_pending-Unique : Unique pending_key one_pending.actions
unfolding Unique by_key
one_pending-Unique = (refl, tt)

one_pending-reclaim : get_pending one_pending.actions "f1" ≡ some reclaim
unfolding get_pending by_key
one_pending-reclaim = refl

reclaim-found : action_for_command ascii reclaim_command ≡ some (reclaim_evicted_pods ascii)
unfolding builtin_actions
reclaim-found =
    action_for_command_unique ascii reclaim_command (reclaim_evicted_pods ascii) (Memᴰ.head refl)
      reclaim-valid

apply_pending-runs_example :
    ComesTo cluster reclaim
      (reclaim_evicted_pods ascii)
      (split reclaim_command)
      "f1"
      "alice"
      5
      (exited success (codes "done") [])
      one_pending
      (apply_pending cluster "f1" "alice" 5 "" one_pending)
unfolding within_bounds
apply_pending-runs_example =
    apply_pending-runs cluster reclaim (reclaim_evicted_pods ascii) (split reclaim_command) "f1"
      "alice" 5 "" one_pending one_pending-Unique one_pending-reclaim refl refl reclaim-found refl
      (shlex_split-split reclaim_command reclaim-plain reclaim-blank)

decline_pending-final_example :
    let v : World = (decline_pending "f1" "alice" 5 one_pending).1 in
    let u : World = record v { actions = record_pending reclaim 6 v.actions } in
    apply_pending cluster "f1" "bob" 7 "" u ≡ (returned nothing_pending, u)
decline_pending-final_example =
    decline_pending-final cluster "f1" "alice" 5 one_pending reclaim reclaim 6 "bob" "" 7
      one_pending-reclaim refl

none_waiting : OnlySafe (λ c. false) []
unfolding OnlySafe get_pending by_key
none_waiting j a g s p = absurd (cc)

record_cleanups-OnlySafe_example :
    OnlySafe (λ c. false) (record_cleanups (λ c. false) (λ s. s) 5 (evicted_pods ∷ []) ([], 0)).0
record_cleanups-OnlySafe_example =
    record_cleanups-OnlySafe (λ c. false) (λ s. s) 5 (evicted_pods ∷ []) ([], 0) none_waiting

runners-raised_example :
    (((run_catalog_action cluster reclaim false one_pending).0 ≡ raised)
      ↔ CatalogRaise cluster reclaim false one_pending)
    × (((run_cleanup cluster reclaim one_pending).0 ≡ raised)
        ↔ CleanupRaise cluster reclaim one_pending)
runners-raised_example = runners-raised cluster reclaim false one_pending
