-- ===== src/Tests/Domains.antt =====
-- The security packs at concrete drifts.
use Prim.Native.String.{String}
use steadystate_ai.Prelude.{
  ◌≡◌, refl, true, false, not, none, some, [], ◌∷◌, is_some, is_empty, ltb, leb,
}
use steadystate_ai.Model.{modified, Drift, Severity}
use steadystate_ai.Domains.Properties.{text, array, boolean, nil, cons, Fields, end, field}
use steadystate_ai.Domains.Aws
use steadystate_ai.Domains.Azure
use steadystate_ai.Domains.Flagged.{aws_domain, gcp_domain, azure_domain, score-flagged_iff}
use steadystate_ai.Reason.Report.{rank}
use steadystate_ai.Reason.Pipeline.{baseline_severity, score}
use steadystate_ai.Tests.{from_git}

abbrev changed : String → Fields → Fields → Drift Fields
changed kind declared observed = record {
  identity = "x";
  kind = kind;
  change_type = modified;
  provenance = from_git;
  declared = some declared;
  observed = some observed;
  actionable = true;
}

-- An ingress rule that reality opens to every address.
abbrev opened_rule : Drift Fields
opened_rule =
    changed "aws_security_group_rule" end
      (field "cidr_blocks" (array (cons (text "0.0.0.0/0") nil)) end)

opened_rule_high : Aws.score (λ s. s) opened_rule ≡ some Severity.high
unfolding Aws.score
opened_rule_high = refl

score-flagged_iff_example :
    let packs =
      aws_domain (λ s. s) (λ s. s)
      ∷ gcp_domain (λ s. s) (λ s. s)
      ∷ azure_domain (λ s. s) (λ s. s)
      ∷ [] in
    let base = rank (baseline_severity opened_rule) in
    let e = score packs opened_rule in
    (is_some e.flagged_by ≡ not (is_empty e.references))
    × (is_some e.flagged_by ≡ ltb base (rank e.severity))
    × (leb base (rank e.severity) ≡ true)
score-flagged_iff_example = score-flagged_iff (λ s. s) (λ s. s) opened_rule

-- A block on public access that the configuration asks for and reality has switched off, and the reverse.
blocks_off :
    Aws.score
      (λ s. s)
      (changed "aws_s3_bucket_public_access_block"
        (field "block_public_acls" (boolean true) end)
        (field "block_public_acls" (boolean false) end))
    ≡ none
unfolding Aws.score
blocks_off = refl

blocks_on :
    Aws.score
      (λ s. s)
      (changed "aws_s3_bucket_public_access_block"
        (field "block_public_acls" (boolean false) end)
        (field "block_public_acls" (boolean true) end))
    ≡ some Severity.critical
unfolding Aws.score
blocks_on = refl

-- The Azure pack reads a setting the other way round.
account_opened :
    Azure.score
      (λ s. s)
      (changed "azurerm_storage_account"
        (field "allow_blob_public_access" (boolean false) end)
        (field "allow_blob_public_access" (boolean true) end))
    ≡ some Severity.high
unfolding Azure.score
account_opened = refl
