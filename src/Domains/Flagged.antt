-- ===== src/Domains/Flagged.antt =====
-- The severity and the techniques that the packs give to a drift (src/steadystate/domains, and `_score` of
-- reason/pipeline.py).
use Prim.Native.String.{String}
use steadystate_ai.Prelude.{
  ◌≡◌, refl, Bool, true, false, not, Option, none, some, List, [], ◌∷◌, arith, is_some, is_empty,
  All, ℕ, ltb, leb, sym, Bool-cases, if◌then◌else◌, inl, inr,
}
use steadystate_ai.Model.{Drift, Severity, Reference}
use steadystate_ai.Domains.Properties.{Fields, as_dict, when, t1530, t1190, t1098, t1562}
use steadystate_ai.Domains.Aws
use steadystate_ai.Domains.Gcp
use steadystate_ai.Domains.Azure
use steadystate_ai.Reason.Report.{rank}
use steadystate_ai.Reason.Pipeline.{
  Domain, Event, references_for, baseline_severity, score_by, score_all, score,
}

-- A severity that is found goes with a technique that is found.
abbrev Agrees : Option Severity → List Reference → Type 0
Agrees found references = is_some found ≡ not (is_empty references)

-- A pack as a list of rules: a test, the severity that it gives, and the techniques.
abbrev Rule : Type 0
Rule = Bool × Severity × Reference × List Reference

abbrev severity_of : List Rule → Option Severity
severity_of [] = none
severity_of ((test, s, r, more) ∷ rules) = if test then some s else severity_of rules

abbrev techniques_of : List Rule → List Reference
techniques_of [] = []
techniques_of ((test, s, r, more) ∷ rules) = when test (r ∷ more) (techniques_of rules)

rule-Agrees :
    (test : Bool) (s : Severity) (r : Reference) (more rest : List Reference)
    (found : Option Severity)
    → Agrees found rest
    → Agrees (if test then some s else found) (when test (r ∷ more) rest)
rule-Agrees true s r more rest found h = refl
rule-Agrees false s r more rest found h = h

rules-Agree : (rules : List Rule) → Agrees (severity_of rules) (techniques_of rules)
rules-Agree [] = refl
rules-Agree ((test, s, r, more) ∷ rules) =
    rule-Agrees test s r more (techniques_of rules) (severity_of rules) (rules-Agree rules)

module _ (lower upper : String → String) where
  aws-Agrees : (drift : Drift Fields) → Agrees (Aws.score lower drift) (Aws.references lower drift)
  unfolding Aws.score Aws.references
  aws-Agrees drift =
      let declared = as_dict drift.declared in
      let observed = as_dict drift.observed in
      rules-Agree (
        (Aws.pab_relaxed lower drift, Severity.critical, t1562, t1530 ∷ [])
        ∷ (Aws.acl_went_public lower declared observed, Severity.critical, t1530, [])
        ∷ (Aws.opened_to_world observed, Severity.high, t1190, [])
        ∷ (Aws.policy_widened lower declared observed, Severity.high, t1098, [])
        ∷ [])

  gcp-Agrees :
      (drift : Drift Fields)
      → Agrees (Gcp.score lower upper drift) (Gcp.references lower upper drift)
  unfolding Gcp.score Gcp.references
  gcp-Agrees drift = rules-Agree (
      (Gcp.firewall_open lower upper drift, Severity.high, t1190, [])
      ∷ (Gcp.bucket_relaxed lower upper drift, Severity.high, t1530, t1562 ∷ [])
      ∷ (Gcp.bucket_public lower upper drift, Severity.critical, t1530, [])
      ∷ (Gcp.project_open lower upper drift, Severity.high, t1098, [])
      ∷ [])

  azure-Agrees :
      (drift : Drift Fields) → Agrees (Azure.score lower drift) (Azure.references lower drift)
  unfolding Azure.score Azure.references
  azure-Agrees drift = rules-Agree (
      (Azure.nsg_open lower drift, Severity.high, t1190, [])
      ∷ (Azure.sql_open lower drift, Severity.high, t1190, [])
      ∷ (
        Azure.account_relaxed lower drift,
        Severity.high,
        t1530,
        when (Azure.storage_network_relaxed lower (as_dict drift.declared) (as_dict drift.observed))
            (t1562 ∷ []) [],
      )
      ∷ (Azure.container_public lower drift, Severity.critical, t1530, [])
      ∷ (Azure.role_open lower drift, Severity.high, t1098, [])
      ∷ [])

  abbrev pub aws_domain : Domain Fields
  aws_domain = record {
    name = "security";
    score = Aws.score lower;
    references = some (Aws.references lower);
    evaluate = none;
  }

  abbrev pub gcp_domain : Domain Fields
  gcp_domain = record {
    name = "security-gcp";
    score = Gcp.score lower upper;
    references = some (Gcp.references lower upper);
    evaluate = none;
  }

  abbrev pub azure_domain : Domain Fields
  azure_domain = record {
    name = "security-azure";
    score = Azure.score lower;
    references = some (Azure.references lower);
    evaluate = none;
  }

leb-ltb : (a b c : ℕ) → leb a b ≡ true → ltb b c ≡ true → ltb a c ≡ true
leb-ltb a b c h k = ground arith

ltb-leb : (a b : ℕ) → ltb a b ≡ true → leb a b ≡ true
ltb-leb a b h = ground arith

ltb-same : (n : ℕ) → ltb n n ≡ false
ltb-same n = ground arith

leb-same : (n : ℕ) → leb n n ≡ true
leb-same n = ground arith

-- An event is flagged where it has a technique, and where its severity is above the one that it began
-- with, and only there; and its severity is never below that one.
abbrev Consistent : ℕ → Event Fields → Type 0
Consistent base e =
    (is_some e.flagged_by ≡ not (is_empty e.references))
    × (is_some e.flagged_by ≡ ltb base (rank e.severity))
    × (leb base (rank e.severity) ≡ true)

abbrev IsHonest : Domain Fields → Type 0
IsHonest domain = (drift : Drift Fields) → Agrees (domain.score drift) (references_for domain drift)

raised-Consistent :
    (domain : Domain Fields) (base : ℕ) (e : Event Fields) (s : Severity)
    → Agrees (some s) (references_for domain e.drift)
    → Consistent base e
    → ltb (rank e.severity) (rank s) ≡ true
    → Consistent base (record {
      drift = e.drift;
      severity = s;
      flagged_by = some domain.name;
      references = references_for domain e.drift;
    })
raised-Consistent domain base e s h (_, _, above) worse =
    let higher = leb-ltb base (rank e.severity) (rank s) above worse in
    (h, sym higher, ltb-leb base (rank s) higher)

-- One round, with what the pack found made a variable.
scored-Consistent :
    (domain : Domain Fields) (base : ℕ) (e : Event Fields) (found : Option Severity)
    → Agrees found (references_for domain e.drift)
    → Consistent base e
    → Consistent base (elim found [
      | none ↦ e
      | some s ↦
          if ltb (rank e.severity) (rank s)
          then record {
            drift = e.drift;
            severity = s;
            flagged_by = some domain.name;
            references = references_for domain e.drift;
          }
          else e
    ])
scored-Consistent domain base e none h c = c
scored-Consistent domain base e (some s) h c = elim (Bool-cases (ltb (rank e.severity) (rank s))) [
  | inl worse ↦ rw worse (raised-Consistent domain base e s h c worse)
  | inr same ↦ rw same c
]

score_by-Consistent :
    (domain : Domain Fields) (base : ℕ) (e : Event Fields)
    → IsHonest domain
    → Consistent base e
    → Consistent base (score_by domain e)
unfolding score_by
score_by-Consistent domain base e honest c =
    scored-Consistent domain base e (domain.score e.drift) (honest e.drift) c

score_all-Consistent :
    (domains : List (Domain Fields)) (base : ℕ) (e : Event Fields)
    → All IsHonest domains
    → Consistent base e
    → Consistent base (score_all domains e)
unfolding score_all
score_all-Consistent [] base e h c = c
score_all-Consistent (domain ∷ domains) base e h c =
    score_all-Consistent domains base (score_by domain e) h.1
      (score_by-Consistent domain base e h.0 c)

-- The packs never disagree with the techniques that they name: an event that the security packs of the
-- three clouds have scored is flagged by one of them exactly where it carries a technique, and exactly
-- where its severity is above the baseline of the drift; and its severity is never below that baseline.
pub score-flagged_iff :
    (lower upper : String → String) (drift : Drift Fields)
    → let packs = aws_domain lower upper ∷ gcp_domain lower upper ∷ azure_domain lower upper ∷ [] in
      let base = rank (baseline_severity drift) in
      let e = score packs drift in
      (is_some e.flagged_by ≡ not (is_empty e.references))
      × (is_some e.flagged_by ≡ ltb base (rank e.severity))
      × (leb base (rank e.severity) ≡ true)
unfolding score
score-flagged_iff lower upper drift =
    let base = rank (baseline_severity drift) in
    score_all-Consistent
      (aws_domain lower upper ∷ gcp_domain lower upper ∷ azure_domain lower upper ∷ []) base _
      (aws-Agrees lower upper, (gcp-Agrees lower upper, (azure-Agrees lower upper, tt)))
      (refl, sym (ltb-same base), leb-same base)
