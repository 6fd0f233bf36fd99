-- ===== src/Domains/Azure.antt =====
-- domains/security_azure.py: the pack for Azure.
use Prim.Native.String.{String}
use steadystate_ai.Prelude.{
  Bool, true, not, ◌&&◌, ◌||◌, Option, none, some, List, [], ◌∷◌, str_eq, any, if◌then◌else◌,
}
use steadystate_ai.Prelude.Strings.{strip_text}
use steadystate_ai.Model.{Drift, Severity, Reference}
use steadystate_ai.Domains.Properties.{
  Value, text, object, Fields, get, as_dict, as_list, one_of, truthy_field, norm, t1530, t1190,
  t1098, t1562, when,
}

abbrev pub open_sources : List String
open_sources = "*" ∷ "0.0.0.0/0" ∷ "internet" ∷ []

abbrev pub public_container_access : List String
public_container_access = "blob" ∷ "container" ∷ []

abbrev pub admin_roles : List String
admin_roles = "owner" ∷ "contributor" ∷ "user access administrator" ∷ []

abbrev pub nsg_kinds : List String
nsg_kinds = "azurerm_network_security_rule" ∷ "azurerm_network_security_group" ∷ []

abbrev pub sql_firewall_kinds : List String
sql_firewall_kinds = "azurerm_sql_firewall_rule" ∷ "azurerm_mssql_firewall_rule" ∷ []

-- `[r for r in values if isinstance(r, dict)]`
abbrev pub dicts : List Value → List Fields
dicts [] = []
dicts (object fields ∷ values) = fields ∷ dicts values
dicts (v ∷ values) = dicts values

abbrev pub or_itself : List Fields → Fields → List Fields
or_itself [] observed = observed ∷ []
or_itself (rule ∷ rules) observed = rule ∷ rules

-- `_nsg_rules`
abbrev pub nsg_rules : Fields → List Fields
nsg_rules observed = or_itself (dicts (as_list (get "security_rule" observed))) observed

module _ (lower : String → String) where
  -- `_is_inbound` and `_is_allow`: the word, or no text at all
  abbrev pub is_or_unset : String → Option Value → Bool
  is_or_unset word (some (text s)) = str_eq (lower (strip_text s)) word
  is_or_unset word _ = true

  -- `_rule_opens_to_world`, with `_rule_sources`
  unfoldable pub rule_opens_to_world : Fields → Bool
  unfolding strip_text
  rule_opens_to_world rule =
      is_or_unset "inbound" (get "direction" rule)
      && (is_or_unset "allow" (get "access" rule)
          && (one_of open_sources (norm lower (get "source_address_prefix" rule))
              || any (λ v. one_of open_sources (norm lower (some v)))
                  (as_list (get "source_address_prefixes" rule))))

  -- `_nsg_opened_to_world`
  unfoldable pub nsg_opened_to_world : Fields → Bool
  unfolding rule_opens_to_world
  nsg_opened_to_world observed = any rule_opens_to_world (nsg_rules observed)

  -- `_sql_opened_to_all`
  unfoldable pub sql_opened_to_all : Fields → Bool
  unfolding strip_text
  sql_opened_to_all observed =
      str_eq (norm lower (get "start_ip_address" observed)) "0.0.0.0"
      && str_eq (norm lower (get "end_ip_address" observed)) "255.255.255.255"

  -- A setting that is on in reality and is not in the configuration.
  abbrev pub switched_on : String → Fields → Fields → Bool
  switched_on key declared observed =
      truthy_field lower (get key observed) && not (truthy_field lower (get key declared))

  -- `_storage_network_relaxed`
  unfoldable pub storage_network_relaxed : Fields → Fields → Bool
  unfolding strip_text
  storage_network_relaxed = switched_on "public_network_access_enabled"

  -- `_storage_account_relaxed`, with `_storage_blob_public_relaxed`
  unfoldable pub storage_account_relaxed : Fields → Fields → Bool
  unfolding storage_network_relaxed
  storage_account_relaxed declared observed =
      any (λ key. switched_on key declared observed)
        ("allow_nested_items_to_be_public" ∷ "allow_blob_public_access" ∷ [])
      || storage_network_relaxed declared observed

  -- `_container_made_public`
  unfoldable pub container_made_public : Fields → Fields → Bool
  unfolding strip_text
  container_made_public declared observed =
      one_of public_container_access (norm lower (get "container_access_type" observed))
      && not (one_of public_container_access (norm lower (get "container_access_type" declared)))

  -- `_role_broadened`
  unfoldable pub assigned_role_broadened : Fields → Fields → Bool
  unfolding strip_text
  assigned_role_broadened declared observed =
      one_of admin_roles (norm lower (get "role_definition_name" observed))
      && not (one_of admin_roles (norm lower (get "role_definition_name" declared)))

  module _ (drift : Drift Fields) where
    abbrev declared_of : Fields
    declared_of = as_dict drift.declared

    abbrev observed_of : Fields
    observed_of = as_dict drift.observed

    abbrev pub nsg_open : Bool
    nsg_open = one_of nsg_kinds (lower drift.kind) && nsg_opened_to_world observed_of

    abbrev pub sql_open : Bool
    sql_open = one_of sql_firewall_kinds (lower drift.kind) && sql_opened_to_all observed_of

    abbrev pub account_relaxed : Bool
    account_relaxed =
        str_eq (lower drift.kind) "azurerm_storage_account"
        && storage_account_relaxed declared_of observed_of

    abbrev pub container_public : Bool
    container_public =
        str_eq (lower drift.kind) "azurerm_storage_container"
        && container_made_public declared_of observed_of

    abbrev pub role_open : Bool
    role_open =
        str_eq (lower drift.kind) "azurerm_role_assignment"
        && assigned_role_broadened declared_of observed_of

    -- `AzureSecurityDomain.score`
    unfoldable pub score : Option Severity
    unfolding nsg_opened_to_world sql_opened_to_all storage_account_relaxed container_made_public
        assigned_role_broadened
    score =
        if nsg_open
        then some Severity.high
        else if sql_open
        then some Severity.high
        else if account_relaxed
        then some Severity.high
        else if container_public
        then some Severity.critical
        else if role_open
        then some Severity.high
        else none

    -- `AzureSecurityDomain.references`
    unfoldable pub references : List Reference
    unfolding nsg_opened_to_world sql_opened_to_all storage_account_relaxed container_made_public
        assigned_role_broadened
    references = when nsg_open (t1190 ∷ []) (
        when sql_open (t1190 ∷ []) (
          when account_relaxed
            (t1530 ∷ when (storage_network_relaxed declared_of observed_of) (t1562 ∷ []) [])
            (when container_public (t1530 ∷ []) (when role_open (t1098 ∷ []) []))))
