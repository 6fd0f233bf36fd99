-- ===== src/Act/Bounds/Order.antt =====
-- The order of envelopes, against the bound and the confirmation tiers (src/steadystate/act/bounds.py).
use steadystate_ai.Prelude.{ℕ, ◌≤◌, arith}
use steadystate_ai.Act.Bounds.{
  Reversibility, Impact, Envelope, lossless, self_healing, recoverable, irreversible,
  reversibility_rank, impact_rank, default_bound, confirmation_tier,
}

-- One envelope is no worse than another on both axes.
pub record NoWorse (a b : Envelope) : Type 0 where
  pub undo : reversibility_rank a.reversibility ≤ reversibility_rank b.reversibility
  pub reach : impact_rank a.impact ≤ impact_rank b.impact

tier_at : Reversibility → Impact → ℕ
unfolding confirmation_tier
tier_at r i = confirmation_tier (record { reversibility = r; impact = i }) default_bound

tier_mono :
    (r s : Reversibility) (i j : Impact)
    → reversibility_rank r ≤ reversibility_rank s
    → impact_rank i ≤ impact_rank j
    → tier_at r i ≤ tier_at s j
unfolding tier_at
tier_mono lossless s i j h k = ground arith
tier_mono self_healing s i j h k = ground arith
tier_mono recoverable s i j h k = ground arith
tier_mono irreversible s i j h k = ground arith

-- Under the default bound the confirmation asked never falls when an action is harder to undo or
-- reaches further.
pub confirmation_tier_mono :
    (a b : Envelope)
    → NoWorse a b
    → confirmation_tier a default_bound ≤ confirmation_tier b default_bound
unfolding tier_at
confirmation_tier_mono a b h =
    tier_mono a.reversibility b.reversibility a.impact b.impact h.undo h.reach
