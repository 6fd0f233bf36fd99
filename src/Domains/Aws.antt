-- ===== src/Domains/Aws.antt =====
-- domains/security.py: the pack for AWS.
use Prim.Native.String.{String}
use steadystate_ai.Prelude.{
  Bool, true, false, not, ◌&&◌, ◌||◌, Option, none, some, List, [], ◌∷◌, str_eq, any, if◌then◌else◌,
}
use steadystate_ai.Prelude.Strings.{strip_text}
use steadystate_ai.Prelude.Strings.{ends_with}
use steadystate_ai.Model.{Drift, Severity, Reference}
use steadystate_ai.Domains.Properties.{
  Value, null, text, array, object, Items, nil, cons, Fields, end, field, get, as_dict, is_true,
  items_list, one_of, shown_in, truthy, norm, t1530, t1190, t1098, t1562, when,
}

abbrev pub open_cidrs : List String
open_cidrs = "0.0.0.0/0" ∷ "::/0" ∷ []

abbrev pub public_acls : List String
public_acls = "public-read" ∷ "public-read-write" ∷ "authenticated-read" ∷ []

abbrev pub pab_keys : List String
pab_keys =
    "block_public_acls" ∷ "block_public_policy" ∷ "ignore_public_acls" ∷ "restrict_public_buckets"
    ∷ []

abbrev pub cidrs_open : Option Value → Bool
cidrs_open (some (text s)) = one_of open_cidrs s
cidrs_open (some (array items)) = any (shown_in open_cidrs) (items_list items)
cidrs_open _ = false

-- `_opened_to_world`, with `_cidrs`
unfoldable pub opened_to_world : Fields → Bool
opened_to_world observed =
    any (λ key. cidrs_open (get key observed))
      ("cidr_blocks" ∷ "ipv6_cidr_blocks" ∷ "cidr_ipv4" ∷ "cidr_ipv6" ∷ [])

-- `_is_pab_kind`
unfoldable pub is_pab_kind : String → Bool
unfolding ends_with
is_pab_kind kind = str_eq kind "public_access_block" || ends_with "_public_access_block" kind

-- `_has_wildcard`
unfoldable mutual
  pub has_wildcard : Value → Bool
  has_wildcard (text s) = str_eq s "*"
  has_wildcard (array items) = any_wildcard items
  has_wildcard (object fields) = any_wildcard_field fields
  has_wildcard _ = false

  pub any_wildcard : Items → Bool
  any_wildcard nil = false
  any_wildcard (cons v items) = has_wildcard v || any_wildcard items

  pub any_wildcard_field : Fields → Bool
  any_wildcard_field end = false
  any_wildcard_field (field k v fields) = has_wildcard v || any_wildcard_field fields

abbrev pub wildcard_at : Option Value → Bool
wildcard_at none = false
wildcard_at (some v) = has_wildcard v

-- `props.get(key) or props.get(other)`
abbrev pub either_field : Option Value → Option Value → Option Value
either_field none other = other
either_field (some v) other = if is_true v then some v else other

-- `props.get(key, props.get(other))`
abbrev pub or_field : Option Value → Option Value → Option Value
or_field none other = other
or_field (some v) other = some v

module _ (lower : String → String) where
  abbrev pub key_relaxed : Option Value → Option Value → Bool
  key_relaxed none observed = false
  key_relaxed (some now) none = not (truthy lower now)
  key_relaxed (some now) (some was) = truthy lower was && not (truthy lower now)

  -- `_public_access_block_relaxed`
  unfoldable pub public_access_block_relaxed : Fields → Fields → Bool
  unfolding strip_text
  public_access_block_relaxed declared observed =
      any (λ key. key_relaxed (get key declared) (get key observed)) pab_keys

  -- `_acl_went_public`
  unfoldable pub acl_went_public : Fields → Fields → Bool
  unfolding strip_text
  acl_went_public declared observed =
      one_of public_acls (norm lower (get "acl" declared))
      && not (one_of public_acls (norm lower (get "acl" observed)))

  abbrev pub allows : Option Value → Bool
  allows (some (text s)) = str_eq (lower (strip_text s)) "allow"
  allows _ = true

  -- `_statement_is_open`
  unfoldable pub statement_is_open : Value → Bool
  unfolding has_wildcard strip_text
  statement_is_open (object stmt) =
      allows (either_field (get "Effect" stmt) (get "effect" stmt))
      && (wildcard_at (or_field (get "Action" stmt) (get "action" stmt))
          && wildcard_at (or_field (get "Resource" stmt) (get "resource" stmt)))
  statement_is_open _ = false

  abbrev pub inner_statement : Fields → Option Value
  inner_statement value = either_field (get "Statement" value) (get "statement" value)

  abbrev pub statements_of : Value → Option (List Value)
  statements_of (object fields) = some (object fields ∷ [])
  statements_of (array items) = some (items_list items)
  statements_of _ = none

  -- A null `inner` is no statement: `Statement` or `statement` that is null leaves the dictionary.
  abbrev pub unwrap_statement : Fields → Option Value → Value
  unwrap_statement value none = object value
  unwrap_statement value (some null) = object value
  unwrap_statement value (some inner) = inner

  abbrev pub statements_at : Option Value → Option (List Value)
  statements_at none = none
  statements_at (some (object value)) =
      statements_of (unwrap_statement value (inner_statement value))
  statements_at (some v) = statements_of v

  abbrev pub first_statements : Fields → List String → List Value
  first_statements props [] = []
  first_statements props (key ∷ keys) =
      let rest = first_statements props keys in
      elim (statements_at (get key props)) [ none ↦ rest | some found ↦ found ]

  -- `_statements`
  unfoldable pub statements : Fields → List Value
  statements props = first_statements props ("Statement" ∷ "statement" ∷ "policy" ∷ "Policy" ∷ [])

  -- `_policy_widened`
  unfoldable pub policy_widened : Fields → Fields → Bool
  unfolding statement_is_open statements
  policy_widened declared observed =
      any statement_is_open (statements declared)
      && not (any statement_is_open (statements observed))

  module _ (drift : Drift Fields) where
    abbrev declared_of : Fields
    declared_of = as_dict drift.declared

    abbrev observed_of : Fields
    observed_of = as_dict drift.observed

    abbrev pub pab_relaxed : Bool
    pab_relaxed =
        is_pab_kind (lower drift.kind) && public_access_block_relaxed declared_of observed_of

    -- `SecurityDomain.score`
    unfoldable pub score : Option Severity
    unfolding is_pab_kind public_access_block_relaxed acl_went_public opened_to_world policy_widened
    score =
        if pab_relaxed
        then some Severity.critical
        else if acl_went_public declared_of observed_of
        then some Severity.critical
        else if opened_to_world observed_of
        then some Severity.high
        else if policy_widened declared_of observed_of
        then some Severity.high
        else none

    -- `SecurityDomain.references`
    unfoldable pub references : List Reference
    unfolding is_pab_kind public_access_block_relaxed acl_went_public opened_to_world policy_widened
    references = when pab_relaxed (t1562 ∷ t1530 ∷ []) (
        when (acl_went_public declared_of observed_of) (t1530 ∷ []) (
          when (opened_to_world observed_of) (t1190 ∷ [])
            (when (policy_widened declared_of observed_of) (t1098 ∷ []) [])))
