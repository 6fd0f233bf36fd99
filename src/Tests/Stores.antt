-- ===== src/Tests/Stores.antt =====
-- The tables and the reconciler at concrete rows.
use mathlib.Core.List.{Memᴰ}
use steadystate_ai.Prelude.{
  ◌⊎◌, String, ◌≡◌, refl, true, false, none, some, List, [], ◌∷◌, str_eq, ltb, ◌==◌, if◌then◌else◌,
}
use steadystate_ai.Prelude.Rows.{by_key, Unique}
use steadystate_ai.State.Findings.{
  resolved, finding_key, get, is_suppressed, resolve_absent, record_seen, mute, snooze, resolve,
  unmute, Seen,
}
use steadystate_ai.State.Findings.Recording.{record_seen-is_suppressed}
use steadystate_ai.State.Findings.Suppression.{Same, operator_actions-is_suppressed}
use steadystate_ai.State.Findings.Absence.{Gone, get-resolve_absent}
use steadystate_ai.State.Pending.{pending_key, pending, approved, declined, get_pending}
use steadystate_ai.State.Pending.Claims.{race, wins, matching, race-one_winner}
use steadystate_ai.State.Pending.Refinement.{
  Call, offer, claim, decide, calls, writes, calls-writes,
}
use steadystate_ai.Reconcile.{drift_key, reconcile}
use steadystate_ai.Reconcile.Diff.{latest, drift_between, by_key-reconcile}
use steadystate_ai.Tests.{reclaim, old_finding, some_findings, bucket}

abbrev scanned : Seen
scanned = ("f1", "high", "Evicted Pod prod/web") ∷ ("f3", "low", "gone") ∷ []

findings-Unique : Unique finding_key some_findings
unfolding Unique by_key
findings-Unique = (refl, (refl, (refl, tt)))

actions-Unique : Unique pending_key (reclaim ∷ [])
unfolding Unique by_key
actions-Unique = (refl, tt)

race-one_winner_example :
    wins (race "f1" ("alice" ∷ "bob" ∷ "hold" ∷ []) (reclaim ∷ [])).0
    ≡ matching pending (get_pending (reclaim ∷ []) "f1")
race-one_winner_example =
    race-one_winner "f1" "alice" ("bob" ∷ "hold" ∷ []) (reclaim ∷ []) actions-Unique

record_seen-is_suppressed_example :
    is_suppressed (record_seen 9 (λ k. []) scanned some_findings).0 "f2" 9
    ≡ is_suppressed some_findings "f2" 9
record_seen-is_suppressed_example = record_seen-is_suppressed 9 (λ k. []) scanned some_findings "f2"

get-resolve_absent_example :
    (Gone ("f2" ∷ []) 100 30 old_finding
      × (get (resolve_absent ("f2" ∷ []) 100 30 some_findings).0 "f1"
          ≡ some (record old_finding { status = resolved; last_seen = 100 }))
      × Memᴰ "f1" (resolve_absent ("f2" ∷ []) 100 30 some_findings).1)
    ⊎ ((¬ Gone ("f2" ∷ []) 100 30 old_finding)
        × (get (resolve_absent ("f2" ∷ []) 100 30 some_findings).0 "f1" ≡ some old_finding)
        × (¬ Memᴰ "f1" (resolve_absent ("f2" ∷ []) 100 30 some_findings).1))
unfolding get by_key
get-resolve_absent_example =
    get-resolve_absent ("f2" ∷ []) 100 30 some_findings "f1" old_finding findings-Unique refl

by_key-reconcile_example :
    by_key drift_key "aws_s3_bucket.logs" (reconcile ◌==◌ (bucket 1 ∷ []) (bucket 2 ∷ []))
    ≡ drift_between ◌==◌
        (latest "aws_s3_bucket.logs" (bucket 1 ∷ []))
        (latest "aws_s3_bucket.logs" (bucket 2 ∷ []))
by_key-reconcile_example =
    by_key-reconcile ◌==◌ (bucket 1 ∷ []) (bucket 2 ∷ []) "aws_s3_bucket.logs"

operator_actions-is_suppressed_example :
    (is_suppressed (mute "f1" none (some "alice") 5 some_findings) "f1" 9
      ≡ (if str_eq "f1" "f1" then true else is_suppressed some_findings "f1" 9))
    × (is_suppressed (snooze "f1" 8 (some "alice") 5 some_findings) "f1" 9
        ≡ (if str_eq "f1" "f1" then ltb 9 8 else is_suppressed some_findings "f1" 9))
    × (is_suppressed (resolve "f1" none (some "alice") 5 some_findings) "f1" 9
        ≡ (if str_eq "f1" "f1" then false else is_suppressed some_findings "f1" 9))
    × (is_suppressed (unmute "f1" 5 some_findings) "f1" 9
        ≡ (if str_eq "f1" "f1" then false else is_suppressed some_findings "f1" 9))
    × ((◌≡◌ {A = String} "f1" "f1") ⊎ Same "f1" 5 8 none (some "alice") some_findings "f1")
operator_actions-is_suppressed_example =
    operator_actions-is_suppressed "f1" 5 8 none (some "alice") some_findings "f1" 9

abbrev approvals : List Call
approvals =
    offer reclaim 7 ∷ claim "f1" pending approved (some "alice") ∷ decide "f1" declined none ∷ []

calls-writes_example :
    (get_pending (calls approvals (reclaim ∷ [])).0
      ≡ (writes approvals (get_pending (reclaim ∷ []))).0)
    × ((calls approvals (reclaim ∷ [])).1 ≡ (writes approvals (get_pending (reclaim ∷ []))).1)
calls-writes_example = calls-writes approvals (reclaim ∷ []) actions-Unique
