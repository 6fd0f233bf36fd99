-- ===== src/Domains/Gcp.antt =====
-- domains/security_gcp.py: the pack for GCP.
use Prim.Native.String.{String}
use steadystate_ai.Prelude.{
  Bool, true, not, ◌&&◌, ◌||◌, Option, none, some, List, [], ◌∷◌, ◌++◌, str_eq, any, if◌then◌else◌,
}
use steadystate_ai.Prelude.Strings.{strip_text}
use steadystate_ai.Model.{Drift, Severity, Reference}
use steadystate_ai.Domains.Properties.{
  Value, text, Fields, get, as_dict, as_list, one_of, shown_in, truthy_field, norm, t1530, t1190,
  t1098, t1562, when,
}
use steadystate_ai.Domains.Aws.{open_cidrs}

abbrev pub public_members : List String
public_members = "allusers" ∷ "allauthenticatedusers" ∷ []

abbrev pub broad_roles : List String
broad_roles = "roles/owner" ∷ "roles/editor" ∷ []

abbrev pub bucket_iam_kinds : List String
bucket_iam_kinds = "google_storage_bucket_iam_member" ∷ "google_storage_bucket_iam_binding" ∷ []

abbrev pub project_iam_kinds : List String
project_iam_kinds = "google_project_iam_member" ∷ "google_project_iam_binding" ∷ []

-- `upper` is Python's `str.upper`.
module _ (lower upper : String → String) where
  -- `_is_ingress`
  abbrev pub is_ingress : Option Value → Bool
  is_ingress (some (text s)) = str_eq (upper (strip_text s)) "INGRESS"
  is_ingress _ = true

  -- `_firewall_opened_to_world`, with `_source_ranges`
  unfoldable pub firewall_opened_to_world : Fields → Bool
  unfolding strip_text
  firewall_opened_to_world observed =
      is_ingress (get "direction" observed)
      && any (shown_in open_cidrs) (as_list (get "source_ranges" observed))

  -- `_pap_enforced`
  abbrev pub pap_enforced : Option Value → Bool
  pap_enforced v = str_eq (norm lower v) "enforced"

  -- `_bucket_guardrail_relaxed`
  unfoldable pub bucket_guardrail_relaxed : Fields → Fields → Bool
  unfolding strip_text
  bucket_guardrail_relaxed declared observed =
      if pap_enforced (get "public_access_prevention" declared)
        && not (pap_enforced (get "public_access_prevention" observed))
      then true
      else truthy_field lower (get "uniform_bucket_level_access" declared)
        && not (truthy_field lower (get "uniform_bucket_level_access" observed))

  -- `_gained_public_members`, with `_members`
  unfoldable pub gained_public_members : Fields → Bool
  unfolding strip_text
  gained_public_members observed =
      any (λ v. one_of public_members (norm lower (some v)))
        (as_list (get "member" observed) ++ as_list (get "members" observed))

  -- `_role_broadened`, with `_role`
  unfoldable pub project_role_broadened : Fields → Fields → Bool
  unfolding strip_text
  project_role_broadened declared observed =
      one_of broad_roles (norm lower (get "role" observed))
      && not (one_of broad_roles (norm lower (get "role" declared)))

  module _ (drift : Drift Fields) where
    abbrev declared_of : Fields
    declared_of = as_dict drift.declared

    abbrev observed_of : Fields
    observed_of = as_dict drift.observed

    abbrev pub firewall_open : Bool
    firewall_open =
        str_eq (lower drift.kind) "google_compute_firewall" && firewall_opened_to_world observed_of

    abbrev pub bucket_relaxed : Bool
    bucket_relaxed =
        str_eq (lower drift.kind) "google_storage_bucket"
        && bucket_guardrail_relaxed declared_of observed_of

    abbrev pub bucket_public : Bool
    bucket_public = one_of bucket_iam_kinds (lower drift.kind) && gained_public_members observed_of

    abbrev pub project_open : Bool
    project_open =
        one_of project_iam_kinds (lower drift.kind)
        && (project_role_broadened declared_of observed_of || gained_public_members observed_of)

    -- `GCPSecurityDomain.score`
    unfoldable pub score : Option Severity
    unfolding firewall_opened_to_world bucket_guardrail_relaxed gained_public_members
        project_role_broadened
    score =
        if firewall_open
        then some Severity.high
        else if bucket_relaxed
        then some Severity.high
        else if bucket_public
        then some Severity.critical
        else if project_open
        then some Severity.high
        else none

    -- `GCPSecurityDomain.references`
    unfoldable pub references : List Reference
    unfolding firewall_opened_to_world bucket_guardrail_relaxed gained_public_members
        project_role_broadened
    references = when firewall_open (t1190 ∷ []) (
        when bucket_relaxed (t1530 ∷ t1562 ∷ [])
          (when bucket_public (t1530 ∷ []) (when project_open (t1098 ∷ []) [])))
