-- ===== src/Act/Bounds.antt =====
-- act/bounds.py: envelopes, the bound, and the reading of the bound from the configuration.
pub mod Order
pub mod Settings
use steadystate_ai.Prelude.{
  ℕ, Bool, true, false, ◌&&◌, ◌||◌, Option, none, some, List, [], ◌∷◌, leb, is_some, ◌==◌,
  if◌then◌else◌,
}
use steadystate_ai.Prelude.Texts.{Text, codes, text_eq, strip, partition, split_on}

-- The members of the two `IntEnum`s, in their order.
pub data Reversibility : Type 0 where
  lossless self_healing recoverable irreversible : Reversibility

pub data Impact : Type 0 where
  one service tenant node fleet : Impact

abbrev pub reversibility_rank : Reversibility → ℕ
reversibility_rank lossless = 0
reversibility_rank self_healing = 1
reversibility_rank recoverable = 2
reversibility_rank irreversible = 3

abbrev pub impact_rank : Impact → ℕ
impact_rank one = 0
impact_rank service = 1
impact_rank tenant = 2
impact_rank node = 3
impact_rank fleet = 4

pub record Envelope : Type 0 where
  pub reversibility : Reversibility
  pub impact : Impact

-- A dictionary from `Reversibility` to `Impact | None`; `policy.get` gives `None` for a missing key.
abbrev pub BoundPolicy : Type 0
BoundPolicy = Reversibility → Option Impact

abbrev pub default_bound : BoundPolicy
default_bound lossless = some tenant
default_bound self_healing = some service
default_bound recoverable = none
default_bound irreversible = none

unfoldable pub within_bounds : Envelope → BoundPolicy → Bool
within_bounds envelope policy = elim (policy envelope.reversibility) [
  | none ↦ false
  | some ceiling ↦ leb (impact_rank envelope.impact) (impact_rank ceiling)
]

unfoldable pub confirmation_tier : Envelope → BoundPolicy → ℕ
unfolding within_bounds
confirmation_tier envelope policy =
    if within_bounds envelope policy
    then 0
    else if leb 3 (reversibility_rank envelope.reversibility) || leb 3 (impact_rank envelope.impact)
    then 2
    else 1

-- `_REVERSIBILITY_BY_NAME` and `_IMPACT_BY_NAME`
unfoldable pub reversibility_by_name : Text → Option Reversibility
unfolding text_eq
reversibility_by_name name =
    if text_eq name (codes "lossless")
    then some lossless
    else if text_eq name (codes "self_healing")
    then some self_healing
    else if text_eq name (codes "recoverable")
    then some recoverable
    else if text_eq name (codes "irreversible")
    then some irreversible
    else none

unfoldable pub impact_by_name : Text → Option Impact
unfolding text_eq
impact_by_name name =
    if text_eq name (codes "one")
    then some one
    else if text_eq name (codes "service")
    then some service
    else if text_eq name (codes "tenant")
    then some tenant
    else if text_eq name (codes "node")
    then some node
    else if text_eq name (codes "fleet")
    then some fleet
    else none

unfoldable pub is_never : Text → Bool
unfolding text_eq
is_never name =
    text_eq name (codes "none") || text_eq name (codes "never") || text_eq name (codes "")

abbrev pub same_reversibility : Reversibility → Reversibility → Bool
same_reversibility a b =
    leb (reversibility_rank a) (reversibility_rank b)
    && leb (reversibility_rank b) (reversibility_rank a)

-- `policy[reversibility] = value`
abbrev pub set_ceiling : BoundPolicy → Reversibility → Option Impact → BoundPolicy
set_ceiling policy r value s = if same_reversibility r s then value else policy s

-- `raw.replace(";", ",")`
unfoldable pub commas : Text → Text
commas [] = []
commas (c ∷ s) = (if c == 59 then 44 else c) ∷ commas s

-- `lower` is Python's `str.lower`.
module _ (lower : Text → Text) where
  unfoldable pub apply_bound_pair : BoundPolicy → Text → Text → BoundPolicy
  unfolding reversibility_by_name impact_by_name is_never strip
  apply_bound_pair policy rev_name impact_name =
      elim (reversibility_by_name (lower (strip rev_name))) [
        | none ↦ policy
        | some r ↦
            let impact = lower (strip impact_name) in
            if is_never impact then set_ceiling policy r none else elim (impact_by_name impact) [
              | none ↦ policy
              | some i ↦ set_ceiling policy r (some i)
            ]
      ]

  -- One item of the `STEADYSTATE_BOUND` list: a token with no `=` is skipped.
  unfoldable pub apply_bound_split : BoundPolicy → Text × Option Text → BoundPolicy
  unfolding apply_bound_pair
  apply_bound_split policy (key, none) = policy
  apply_bound_split policy (key, some value) = apply_bound_pair policy key value

  unfoldable pub apply_bound_token : BoundPolicy → Text → BoundPolicy
  unfolding apply_bound_split partition
  apply_bound_token policy token = apply_bound_split policy (partition 61 token)

  unfoldable pub apply_bound_tokens : BoundPolicy → List Text → BoundPolicy
  unfolding apply_bound_token
  apply_bound_tokens policy [] = policy
  apply_bound_tokens policy (token ∷ tokens) =
      apply_bound_tokens (apply_bound_token policy token) tokens

  -- The loop over the committed `[bound]` table.
  unfoldable pub apply_bound_table : BoundPolicy → List (Text × Text) → BoundPolicy
  unfolding apply_bound_pair
  apply_bound_table policy [] = policy
  apply_bound_table policy ((rev_name, impact) ∷ table) =
      apply_bound_table (apply_bound_pair policy rev_name impact) table

  -- `bound_from_env(None)`: the default, the committed `[bound]` table, then `STEADYSTATE_BOUND`.
  unfoldable pub bound_from_env : List (Text × Text) → Text → BoundPolicy
  unfolding apply_bound_table apply_bound_tokens split_on commas
  bound_from_env table raw =
      apply_bound_tokens (apply_bound_table default_bound table) (split_on 44 (commas raw))
