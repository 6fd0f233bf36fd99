-- ===== src/Tests/Runbooks.antt =====
-- The runbook at a concrete host.
use steadystate_ai.Prelude.{ℕ, ◌≡◌, refl, true, false, some, List, [], ◌∷◌, ◌++◌, All}
use steadystate_ai.Prelude.Texts.{codes, is_space}
use steadystate_ai.Act.Bounds.{within_bounds, bound_from_env}
use steadystate_ai.Act.Kubectl.Argv.{shlex_split}
use steadystate_ai.Act.Host.{Host, Event, command, Solution}
use steadystate_ai.State.Audit.{acted_fingerprints}
use steadystate_ai.Act.Kubectl.{is_word}
use steadystate_ai.Act.Execute.{run_solution_argv, solution_reversibility, solution_impact}
use steadystate_ai.Act.Solutions.{setting_of, record_solution_remediations}
use steadystate_ai.Act.Solutions.Unattended.{Unattended, record_solution_remediations-Unattended}
use steadystate_ai.Tests.{cluster, one_pending, evicted_pods}
use steadystate_ai.Prelude.{keep, not}
use steadystate_ai.Mutes.{Value, text}
use steadystate_ai.Act.Authoring.{
  Raw, Item, value, object, entry, load_solutions, is_named, add_solution, is_valid,
}
use steadystate_ai.Act.Authoring.Drafts.{add_solution-load_solutions}
use mathlib.Core.Option

-- A vouched fix of an evicted pod that is of no open kind, and one that an agent drafted.
abbrev scale : Solution
scale = record {
  name = "scale";
  kind = codes "script";
  run = codes "scale-down {unhealthy_pods}";
  target = [];
  for_category = codes "Evicted";
  title_match = [];
  problem = [];
  impact = codes "low";
  reversibility = codes "high";
  author = "alice";
  added = [];
  proposed = false;
}

abbrev runbook : Host ℕ
runbook = record cluster {
  solutions = record scale { name = "draft"; proposed = true } ∷ scale ∷ [];
  bound_env = codes "self-healing=service";
}

record_solution_remediations-Unattended_example :
    (es : List Event) × All
      (Unattended (λ c. false) (setting_of runbook (some true) [] [] one_pending) runbook.solutions)
      es
    × ((record_solution_remediations runbook
          (λ p t. false)
          5
          (some true)
          []
          []
          (evicted_pods ∷ [])
          one_pending).1.ran
        ≡ one_pending.ran ++ es)
record_solution_remediations-Unattended_example =
    record_solution_remediations-Unattended runbook (λ p t. false) 5 (some true) [] []
      (evicted_pods ∷ []) one_pending

scaled :
    (record_solution_remediations runbook
      (λ p t. false)
      5
      (some true)
      []
      []
      (evicted_pods ∷ [])
      one_pending).1.ran
    ≡ command (codes "scale-down" ∷ codes "12" ∷ []) ∷ []
unfolding record_solution_remediations within_bounds is_word acted_fingerprints bound_from_env
    solution_reversibility solution_impact shlex_split run_solution_argv
scaled = refl

-- What an agent submits: it claims to be trusted, and gives no author.
abbrev submitted : Raw
submitted =
    ("name", value (text "grow"))
    ∷ ("for", value (text "DiskFull"))
    ∷ ("proposed", value (text ""))
    ∷ ("solution", object (("kind", text "command") ∷ ("run", text "grow {node}") ∷ []) "{...}")
    ∷ []

abbrev grow : Solution
grow = record {
  name = "grow";
  kind = codes "command";
  run = codes "grow {node}";
  target = [];
  for_category = codes "DiskFull";
  title_match = [];
  problem = [];
  impact = codes "medium";
  reversibility = codes "medium";
  author = "agent";
  added = codes "2026-01-01";
  proposed = true;
}

abbrev stored : Item
stored = entry (
    ("name", value (text "grow"))
    ∷ ("for", value (text "DiskFull"))
    ∷ ("proposed", value (Value.other "True"))
    ∷ ("solution", object (("kind", text "command") ∷ ("run", text "grow {node}") ∷ []) "{...}")
    ∷ ("author", value (text "agent"))
    ∷ ("added", value (text "2026-01-01"))
    ∷ [])

add_solution-load_solutions_example :
    (load_solutions (λ s. s) (λ p. true) (stored ∷ [])
      ≡ load_solutions (λ s. s) (λ p. true) (keep (λ it. not (is_named "grow" it)) [])
        ++ (grow ∷ []))
    × (grow.proposed ≡ true)
unfolding add_solution is_valid is_space
add_solution-load_solutions_example =
    add_solution-load_solutions (λ s. s) (λ p. true) submitted "agent" "2026-01-01" true []
      (stored ∷ []) grow refl

-- A name with blanks around it is shown without them, and is not found by what is shown.
blank_name : is_named "grow" (entry (("name", value (text " grow ")) ∷ [])) ≡ false
unfolding is_named
blank_name = refl
