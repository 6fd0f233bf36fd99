-- ===== src/Act/Decide.antt =====
-- act/decide.py: a decider proposes, the gate judges, and what is authorized is offered or run. What
-- a model proposes is a `ProposedAction` like any other; the reasons of a verdict are prose and are
-- left out.
pub mod Gate
pub mod Bounded
use steadystate_ai.Prelude.{
  Bool, true, false, not, Option, none, some, List, [], ◌∷◌, String, find, if◌then◌else◌,
}
use steadystate_ai.Prelude.Texts.{Text}
use steadystate_ai.Model.{Symptom, symptom_fingerprint}
use steadystate_ai.State.Findings.{Instant}
use steadystate_ai.State.Pending.{PendingAction, pending, Actions, record_pending}
use steadystate_ai.Act.Bounds.{Envelope, BoundPolicy, within_bounds, bound_from_env}
use steadystate_ai.Act.Catalog.{Unicode, CatalogAction, builtin_actions, catalog_action}
use steadystate_ai.Act.Host.{
  Host, World, Exec, returned, raised, pure, proceed, ◌>>=◌, ◌>>◌, RemediationResult,
}
use steadystate_ai.Act.Approve.{Applied, catalog_source, apply_pending}

-- AUTHORIZED, REJECTED, ESCALATE
pub data Verdict : Type 0 where
  authorized rejected escalate : Verdict

pub record ProposedAction : Type 0 where
  pub action : String
  pub command : Text
  pub identity : String
  pub fingerprint : String
  pub rationale : Text
  pub proposer : String

pub record GatedProposal : Type 0 where
  pub proposal : ProposedAction
  pub verdict : Verdict
  pub envelope : Option Envelope

-- `bound_from_env()`, the policy that the gate takes when none is given
abbrev pub active_bound : {P : Type 0} → Host P → BoundPolicy
active_bound host = bound_from_env host.unicode.lower host.bound_table host.bound_env

abbrev pub gated : ProposedAction → Verdict → Option Envelope → GatedProposal
gated p verdict envelope = record { proposal = p; verdict = verdict; envelope = envelope }

abbrev pub gate_entry : BoundPolicy → ProposedAction → Option CatalogAction → GatedProposal
gate_entry policy p none = gated p rejected none
gate_entry policy p (some a) =
    if not (a.validate p.command)
    then gated p rejected (some a.envelope)
    else if not (within_bounds a.envelope policy)
    then gated p escalate (some a.envelope)
    else gated p authorized (some a.envelope)

unfoldable pub gate_proposal : Unicode → BoundPolicy → ProposedAction → GatedProposal
gate_proposal u policy p = gate_entry policy p (catalog_action u p.action)

-- `CatalogDecider.propose`
abbrev pub propose_command :
    (String → String) → Symptom → Text → Option CatalogAction → Option ProposedAction
propose_command sha256 s command none = none
propose_command sha256 s command (some a) = some (record {
  action = a.name;
  command = command;
  identity = s.identity;
  fingerprint = symptom_fingerprint sha256 s;
  rationale = [];
  proposer = "catalog";
})

abbrev pub propose_action :
    Unicode → (String → String) → Symptom → Option Text → Option ProposedAction
propose_action u sha256 s none = none
propose_action u sha256 s (some []) = none
propose_action u sha256 s (some (c ∷ command)) =
    propose_command sha256 s (c ∷ command)
      (find (λ a. a.validate (c ∷ command)) (builtin_actions u))

unfoldable pub propose : Unicode → (String → String) → Symptom → Option ProposedAction
propose u sha256 s = propose_action u sha256 s s.recommended_action

-- The row that an authorized proposal is offered as.
abbrev pub proposed_row : GatedProposal → Instant → PendingAction
proposed_row g now = record {
  fingerprint = g.proposal.fingerprint;
  source = catalog_source;
  path = "";
  drift_identity = g.proposal.identity;
  command = g.proposal.command;
  status = pending;
  created_at = now;
  actor = none;
  environment = none;
  patch = none;
}

abbrev pub record_verdict : Verdict → GatedProposal → Instant → Actions → Actions
record_verdict authorized g now rows = record_pending (proposed_row g now) now rows
record_verdict escalate g now rows = rows
record_verdict rejected g now rows = rows

-- `record_proposals`, as it changes the table
unfoldable pub record_proposals : List GatedProposal → Instant → Actions → Actions
record_proposals [] now rows = rows
record_proposals (g ∷ gs) now rows = record_proposals gs now (record_verdict g.verdict g now rows)

-- The three lists that `act_on_proposals` returns.
pub record Deeds : Type 0 where
  pub acted : List (GatedProposal × Option RemediationResult)
  pub advised : List GatedProposal
  pub dropped : List GatedProposal

abbrev pub no_deeds : Deeds
no_deeds = record { acted = []; advised = []; dropped = [] }

abbrev pub add_acted : GatedProposal → Applied → Deeds → Deeds
add_acted g (m, result) d = record d { acted = (g, result) ∷ d.acted }

abbrev pub add_advised : GatedProposal → Deeds → Deeds
add_advised g d = record d { advised = g ∷ d.advised }

abbrev pub add_dropped : GatedProposal → Deeds → Deeds
add_dropped g d = record d { dropped = g ∷ d.dropped }

-- `store.record_pending(...)` inside a run
abbrev pub offer_action : PendingAction → Instant → Exec (Unit {0})
offer_action action now w =
    (returned tt, record w { actions = record_pending action now w.actions })

module _ {P : Type 0} (host : Host P) (actor : String) (now : Instant) where
  -- The pending row is recorded, and at once approved.
  unfoldable pub act_on : GatedProposal → Exec Applied
  act_on g w =
      apply_pending host g.proposal.fingerprint actor now ""
        (record w { actions = record_pending (proposed_row g now) now w.actions })

  abbrev pub act_verdict : Verdict → GatedProposal → Exec Deeds → Exec Deeds
  act_verdict authorized g rest = act_on g >>= λ answer. rest >>= λ d. pure (add_acted g answer d)
  act_verdict escalate g rest = rest >>= λ d. pure (add_advised g d)
  act_verdict rejected g rest = rest >>= λ d. pure (add_dropped g d)

  -- `act_on_proposals`
  unfoldable pub act_on_proposals : List GatedProposal → Exec Deeds
  act_on_proposals [] = pure no_deeds
  act_on_proposals (g ∷ gs) = act_verdict g.verdict g (act_on_proposals gs)
