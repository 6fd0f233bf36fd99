-- ===== src/Verbs/Effects.antt =====
-- The effects of the verbs that write (src/steadystate/verbs.py, act/approve.py).
use Prim.Native.String.{String}
use steadystate_ai.Prelude.{ℕ, ◌≡◌, ◌⊎◌, Bool, some, List, [], ◌∷◌, ◌++◌}
use steadystate_ai.Prelude.Texts.{Text}
use steadystate_ai.State.Findings.{Instant, Finding}
use steadystate_ai.State.Pending.{PendingAction, pending, get_pending}
use steadystate_ai.Act.Catalog.{CatalogAction, catalog_action, offered_action}
use steadystate_ai.Act.Host.{Host, World, Reply, returned, pure, proceed, ◌>>=◌, ◌>>◌, Event}
use steadystate_ai.Act.Host as Host
use steadystate_ai.Act.Approve.Licensed.{Licensed}
use steadystate_ai.Inbound.Grammar.{Command, fix, run, approve}
use steadystate_ai.Inbound.Grammar as Grammar
use steadystate_ai.Verbs.Reference.{found, finding_found, lookup_finding}
use steadystate_ai.Scan.Window.{Window}
use steadystate_ai.Verbs.Issue.{Issued}
use steadystate_ai.Verbs.{Target, detail, pending_named}

module _ {P : Type 0} (host : Host P) (targets : List Target) (now : Instant) (actor : String)
    (is_digit : ℕ → Bool) (latest : Instant) where
  -- Why a command may make an effect: an action issued for the finding that it names, or the
  -- approval of the pending action that it names.
  pub data Cause (c : Command) (w : World) (e : Event) : Type 0 where
    by_fix :
        (f : Finding) (a : CatalogAction) (argv : List Text)
        → c.verb ≡ fix
        → lookup_finding w.findings c.argument ≡ finding_found f
        → offered_action host.unicode (detail f "category") ≡ some a
        → Issued host targets f a argv
        → e ≡ Host.command argv
        → Cause c w e
    by_run :
        (f : Finding) (a : CatalogAction) (argv : List Text)
        → c.verb ≡ run
        → lookup_finding w.findings c.argument2 ≡ finding_found f
        → catalog_action host.unicode c.argument ≡ some a
        → Issued host targets f a argv
        → e ≡ Host.command argv
        → Cause c w e
    by_approval :
        (k : String) (action : PendingAction)
        → c.verb ≡ approve
        → pending_named host targets now actor is_digit latest w c.argument ≡ found k
        → get_pending w.actions k ≡ some action
        → action.status ≡ pending
        → Licensed host action k actor c.argument2 e
        → Cause c w e

  abbrev OneCaused : Command → World → World → Type 0
  OneCaused c w w' = (w'.ran ≡ w.ran) ⊎ ((e : Event) × Cause c w e × (w'.ran ≡ w.ran ++ (e ∷ [])))
