-- ===== src/Act/Decide/Gate.antt =====
-- The verdicts of the gate, and the catalog decider (src/steadystate/act/decide.py).
use steadystate_ai.Prelude.{◌≡◌, ◌↔◌, refl, true, Option, none, some, arith}
use steadystate_ai.Act.Bounds.{BoundPolicy, within_bounds}
use steadystate_ai.Act.Catalog.{Unicode, CatalogAction, catalog_action}
use steadystate_ai.Act.Decide.{ProposedAction, authorized, gate_entry, gate_proposal}

-- A proposal that the vetted catalog and the bound let run.
pub record Vetted (u : Unicode) (policy : BoundPolicy) (p : ProposedAction) : Type 0 where
  pub entry : CatalogAction
  pub found : catalog_action u p.action ≡ some entry
  pub valid : entry.validate p.command ≡ true
  pub in_bound : within_bounds entry.envelope policy ≡ true

entry-authorized :
    (u : Unicode) (policy : BoundPolicy) (p : ProposedAction) (o : Option CatalogAction)
    → catalog_action u p.action ≡ o
    → (gate_entry policy p o).verdict ≡ authorized
    → Vetted u policy p
entry-authorized u policy p none f h = absurd (cc)
entry-authorized u policy p (some a) f h = record {
  entry = a;
  found = f;
  valid = ground (arith, h);
  in_bound = ground (arith, h);
}

Vetted-authorized :
    (u : Unicode) (policy : BoundPolicy) (p : ProposedAction)
    → Vetted u policy p
    → (gate_proposal u policy p).verdict ≡ authorized
unfolding gate_proposal
Vetted-authorized u policy p v = ground (arith, v.found, v.valid, v.in_bound)

-- The gate authorizes a proposal exactly when it names a catalog action, its command has that
-- action's shape, and the catalog's own envelope is within the bound.
pub gate_proposal-authorized_iff :
    (u : Unicode) (policy : BoundPolicy) (p : ProposedAction)
    → ((gate_proposal u policy p).verdict ≡ authorized) ↔ Vetted u policy p
unfolding gate_proposal
gate_proposal-authorized_iff u policy p =
    (entry-authorized u policy p (catalog_action u p.action) refl, Vetted-authorized u policy p)
