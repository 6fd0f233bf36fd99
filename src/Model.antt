-- ===== src/Model.antt =====
-- model.py: the records that every source is brought to. What a source declares or observes of a
-- resource is a dictionary of a type `P` of its own; the instants of detection are left out.
use Prim.Native.String.{◌++◌ as ◌<>◌}
use steadystate_ai.Prelude.{ℕ, Bool, Option, List, String}

pub data ChangeType : Type 0 where
  added removed modified : ChangeType

abbrev pub change_text : ChangeType → String
change_text added = "added"
change_text removed = "removed"
change_text modified = "modified"

pub record Provenance : Type 0 where
  pub source : String
  pub address : Option String
  pub file : Option String
  pub line : Option ℕ

pub record Resource (P : Type 0) : Type 0 where
  pub kind : String
  pub identity : String
  pub provenance : Provenance
  pub properties : P

pub record Drift (P : Type 0) : Type 0 where
  pub identity : String
  pub kind : String
  pub change_type : ChangeType
  pub provenance : Provenance
  pub declared : Option P
  pub observed : Option P
  pub actionable : Bool

-- `Drift.summary`
abbrev pub summary : {P : Type 0} → Drift P → String
summary d = ((change_text d.change_type <> " ") <> (d.kind <> " ")) <> d.identity

-- `Drift.fingerprint`; `sha256` is the hex digest of `hashlib`.
abbrev pub drift_fingerprint : (String → String) → {P : Type 0} → Drift P → String
drift_fingerprint sha256 d =
    sha256 (((d.provenance.source <> "|") <> (d.identity <> "|")) <> change_text d.change_type)

-- `Severity` (reason/alert.py)
pub data Severity : Type 0 where
  low medium high critical : Severity

abbrev pub severity_text : Severity → String
severity_text low = "low"
severity_text medium = "medium"
severity_text high = "high"
severity_text critical = "critical"

-- `Symptom` (probe/base.py): a malfunction of a declared resource. Its instant is left out.
pub record Symptom : Type 0 where
  pub identity : String
  pub kind : String
  pub category : String
  pub severity : Severity
  pub title : String
  pub detail : String
  pub provenance : Provenance
  pub evidence : List (String × String)
  pub recommended_action : Option (List ℕ)

-- `Symptom.fingerprint`
abbrev pub symptom_fingerprint : (String → String) → Symptom → String
symptom_fingerprint sha256 s =
    sha256 (((s.provenance.source <> "|") <> (s.identity <> "|")) <> s.category)

-- `Reference` (domains/base.py)
pub record Reference : Type 0 where
  pub framework : String
  pub id : String
  pub name : String
  pub url : Option String
  pub level : Option ℕ

-- `PolicyFinding` (domains/base.py): a rule that a declared resource violates.
pub record PolicyFinding : Type 0 where
  pub rule_id : String
  pub identity : String
  pub provenance : Provenance
  pub severity : Severity
  pub title : String
  pub detail : String
  pub references : List Reference

-- `PolicyFinding.fingerprint`
abbrev pub policy_fingerprint : (String → String) → PolicyFinding → String
policy_fingerprint sha256 f =
    sha256 (((f.provenance.source <> "|") <> (f.identity <> "|")) <> f.rule_id)
