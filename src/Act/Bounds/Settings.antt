-- ===== src/Act/Bounds/Settings.antt =====
-- The reading of the bound from the configuration (src/steadystate/act/bounds.py).
use steadystate_ai.Prelude.{
  ◌≡◌, refl, ◌⊎◌, inl, inr, Bool, true, false, Option, none, some, List, [], ◌∷◌, ◌++◌, arith, leb,
  or_else, Option-cases, any, sym, ◌∙◌, ap, if◌then◌else◌,
}
use steadystate_ai.Prelude.Texts.{Text, strip, partition, split_on}
use steadystate_ai.Act.Bounds.{
  Reversibility, Impact, Envelope, BoundPolicy, impact_rank, default_bound, within_bounds,
  reversibility_by_name, impact_by_name, is_never, same_reversibility, apply_bound_pair,
  apply_bound_split, apply_bound_token, apply_bound_tokens, apply_bound_table, bound_from_env,
  commas,
}

-- The pairs that a list of tokens holds: a token with no `=` gives none.
abbrev pub pairs_of_split : Text × Option Text → List (Text × Text) → List (Text × Text)
pairs_of_split (key, none) rest = rest
pairs_of_split (key, some value) rest = (key, value) ∷ rest

abbrev pub pairs_of : List Text → List (Text × Text)
pairs_of [] = []
pairs_of (token ∷ tokens) = pairs_of_split (partition 61 token) (pairs_of tokens)

-- All that the operator wrote: the committed table first, then the variable.
abbrev pub written : List (Text × Text) → Text → List (Text × Text)
written table raw = table ++ pairs_of (split_on 44 (commas raw))

module _ (lower : Text → Text) where
  -- What one pair decides about `r`: nothing, or its ceiling (`some none` forbids every impact).
  abbrev pub reading : Text → Option (Option Impact)
  reading impact =
      if is_never impact
      then some none
      else elim (impact_by_name impact) [ none ↦ none | some i ↦ some (some i) ]

  abbrev pub decides : Option Reversibility → Reversibility → Text → Option (Option Impact)
  decides none r impact = none
  decides (some s) r impact = if same_reversibility s r then reading impact else none

  abbrev pub decision : Reversibility → Text × Text → Option (Option Impact)
  decision r (rev_name, impact_name) =
      decides (reversibility_by_name (lower (strip rev_name))) r (lower (strip impact_name))

  -- The decision of the last pair that decides about `r`.
  abbrev pub last_decision : Reversibility → List (Text × Text) → Option (Option Impact)
  last_decision r [] = none
  last_decision r (p ∷ ps) = elim (last_decision r ps) [ none ↦ decision r p | some d ↦ some d ]

  apply_bound_pair_lem :
      (policy : BoundPolicy) (r : Reversibility) (k v : Text)
      → apply_bound_pair lower policy k v r ≡ or_else (decision r (k, v)) (policy r)
  unfolding apply_bound_pair
  apply_bound_pair_lem policy r k v = ground arith

  apply_bound_table_lem :
      (policy : BoundPolicy) (r : Reversibility) (ps : List (Text × Text))
      → apply_bound_table lower policy ps r ≡ or_else (last_decision r ps) (policy r)
  unfolding apply_bound_table
  apply_bound_table_lem policy r [] = refl
  apply_bound_table_lem policy r ((k, v) ∷ ps) = ground (
    arith,
    apply_bound_table_lem (apply_bound_pair lower policy k v) r ps,
    apply_bound_pair_lem policy r k v,
  )

  split-table :
      (policy : BoundPolicy) (kv : Text × Option Text) (ps : List (Text × Text))
      → apply_bound_table lower policy (pairs_of_split kv ps)
        ≡ apply_bound_table lower (apply_bound_split lower policy kv) ps
  unfolding apply_bound_table apply_bound_split
  split-table policy (k, none) ps = refl
  split-table policy (k, some v) ps = refl

  tokens-table :
      (policy : BoundPolicy) (ts : List Text)
      → apply_bound_tokens lower policy ts ≡ apply_bound_table lower policy (pairs_of ts)
  unfolding apply_bound_table apply_bound_tokens apply_bound_token
  tokens-table policy [] = refl
  tokens-table policy (t ∷ ts) =
      tokens-table (apply_bound_split lower policy (partition 61 t)) ts
      ∙ sym (split-table policy (partition 61 t) (pairs_of ts))

  table-append :
      (policy : BoundPolicy) (ps qs : List (Text × Text))
      → apply_bound_table lower policy (ps ++ qs)
        ≡ apply_bound_table lower (apply_bound_table lower policy ps) qs
  unfolding apply_bound_table
  table-append policy [] qs = refl
  table-append policy ((k, v) ∷ ps) qs = table-append (apply_bound_pair lower policy k v) ps qs

  -- The active bound at each reversibility is what the last readable pair about it says, over the
  -- committed table followed by the variable, and the default where there is none.
  pub bound_from_env_lem :
      (table : List (Text × Text)) (raw : Text) (r : Reversibility)
      → bound_from_env lower table raw r
        ≡ or_else (last_decision r (written table raw)) (default_bound r)
  unfolding bound_from_env
  bound_from_env_lem table raw r =
      ap (λ (p : BoundPolicy). p r)
        (tokens-table (apply_bound_table lower default_bound table) (split_on 44 (commas raw)))
      ∙ ap (λ (p : BoundPolicy). p r)
          (sym (table-append default_bound table (pairs_of (split_on 44 (commas raw)))))
      ∙ apply_bound_table_lem default_bound r (written table raw)

  -- A pair that spells the reversibility of `e` and an impact no smaller than that of `e`.
  abbrev pub grants : Envelope → Text × Text → Bool
  grants e (k, v) = elim (decision e.reversibility (k, v)) [
    | none ↦ false
    | some none ↦ false
    | some (some i) ↦ leb (impact_rank e.impact) (impact_rank i)
  ]

  last_decision-grants :
      (e : Envelope) (ps : List (Text × Text)) (i : Impact)
      → last_decision e.reversibility ps ≡ some (some i)
      → leb (impact_rank e.impact) (impact_rank i) ≡ true
      → any (grants e) ps ≡ true
  last_decision-grants e [] i h l = cc
  last_decision-grants e (p ∷ ps) i h l = elim (Option-cases (last_decision e.reversibility ps)) [
    | inl none_later ↦ ground (arith, h, l, none_later)
    | inr (d, later) ↦
        ground
          (arith, h, l, later, last_decision-grants e ps i (later ∙ (ground (arith, h, later))) l)
  ]

  widening :
      (e : Envelope) (policy : BoundPolicy) (ps : List (Text × Text)) (d : Option (Option Impact))
      → last_decision e.reversibility ps ≡ d
      → policy e.reversibility ≡ or_else d (default_bound e.reversibility)
      → within_bounds e policy ≡ true
      → (within_bounds e default_bound ≡ true) ⊎ (any (grants e) ps ≡ true)
  unfolding within_bounds
  widening e policy ps none l p w = inl (ground (arith, w, p))
  widening e policy ps (some none) l p w = ground (arith, w, p)
  widening e policy ps (some (some i)) l p w =
      inr (last_decision-grants e ps i l (ground (arith, w, p)))

  -- A typo never widens the bound: what the active bound lets run and the default does not is
  -- granted by a pair that the operator wrote, in the table or in the variable, whose reversibility
  -- is that of the action and whose impact reaches at least as far.
  pub bound_widening-granted :
      (table : List (Text × Text)) (raw : Text) (e : Envelope)
      → within_bounds e (bound_from_env lower table raw) ≡ true
      → (within_bounds e default_bound ≡ true) ⊎ (any (grants e) (written table raw) ≡ true)
  bound_widening-granted table raw e h =
      widening e (bound_from_env lower table raw) (written table raw)
        (last_decision e.reversibility (written table raw)) refl
        (bound_from_env_lem table raw e.reversibility) h
