-- ===== src/Act/Plan.antt =====
-- act/plan.py: which drift may be reconciled, and which without a human.
use Prim.Native.String.{◌++◌ as ◌<>◌}
use steadystate_ai.Prelude.{
  ◌≡◌, ◌≢◌, ◌↔◌, refl, Bool, true, false, not, none, some, [], ◌∷◌, String, if◌then◌else◌,
}
use steadystate_ai.Prelude.Texts.{codes}
use steadystate_ai.Model.{ChangeType, added, removed, modified, Drift}
use steadystate_ai.Act.Bounds.{
  BoundPolicy, Envelope, recoverable, irreversible, service, within_bounds,
}
use steadystate_ai.Act.Host.{RemediationPlan, Risk, low, medium, high}

-- `can_run_unattended` with the policy given
unfoldable pub can_run_unattended : RemediationPlan → BoundPolicy → Bool
can_run_unattended plan policy =
    if not plan.eligible
    then false
    else (elim plan.envelope [ none ↦ true | some envelope ↦ within_bounds envelope policy ])

abbrev pub is_eligible : ChangeType → Bool
is_eligible removed = false
is_eligible _ = true

abbrev pub risk_of : ChangeType → Risk
risk_of removed = high
risk_of added = low
risk_of modified = medium

abbrev pub envelope_of : ChangeType → Envelope
envelope_of removed = record { reversibility = irreversible; impact = service }
envelope_of added = record { reversibility = recoverable; impact = service }
envelope_of modified = record { reversibility = recoverable; impact = service }

-- What `assess` says in `reason`.
unfoldable pub plan_reason : {P : Type 0} → Drift P → String
plan_reason drift = elim drift.change_type [
  | removed ↦
      "Reconciling would destroy a live resource that is not in declared config. "
      <> "Requires explicit operator approval -- never automatic."
  | added ↦ "Declared resource is missing from the environment; reconciling creates it."
  | modified ↦ "Resource configuration drifted; reconciling re-applies the declared values."
]

-- What `assess` says in `blast_radius`.
unfoldable pub plan_blast_radius : {P : Type 0} → Drift P → String
plan_blast_radius drift =
    let named = drift.kind <> (" " <> drift.identity) in
    elim drift.change_type [
      | removed ↦ "Destroys " <> (named <> " in the real environment.")
      | added ↦ "Creates " <> (named <> " as declared.")
      | modified ↦ "Updates " <> (named <> " in place to match declared config.")
    ]

-- `assess`; the texts for the reader stand in `plan_reason` and `plan_blast_radius`.
unfoldable pub assess : {P : Type 0} → Drift P → RemediationPlan
assess drift = record {
  drift_identity = drift.identity;
  eligible = is_eligible drift.change_type;
  risk = risk_of drift.change_type;
  command =
      codes "terraform"
      ∷ codes "apply"
      ∷ codes "-target"
      ∷ codes drift.identity
      ∷ codes "-auto-approve"
      ∷ [];
  envelope = some (envelope_of drift.change_type);
}

unattended :
    (c : ChangeType) (policy : BoundPolicy)
    → ((if not (is_eligible c) then false else within_bounds (envelope_of c) policy) ≡ true) ↔ (
        (c ≢ removed)
        × (within_bounds (record { reversibility = recoverable; impact = service }) policy ≡ true))
unattended added policy = (λ h. (cc, h), λ h. h.1)
unattended removed policy = (λ h. absurd (cc), λ h. absurd (h.0 refl))
unattended modified policy = (λ h. (cc, h), λ h. h.1)

-- What runs without a human is a creation or an update, never a destruction, and only when the bound
-- lets a recoverable change of one service run.
pub can_run_unattended-assess_iff :
    {P : Type 0} (drift : Drift P) (policy : BoundPolicy)
    → (can_run_unattended (assess drift) policy ≡ true) ↔ (
        (drift.change_type ≢ removed)
        × (within_bounds (record { reversibility = recoverable; impact = service }) policy ≡ true))
unfolding can_run_unattended assess
can_run_unattended-assess_iff drift policy = unattended drift.change_type policy
