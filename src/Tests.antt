-- ===== src/Tests.antt =====
-- Concrete data for the tests: a host whose programs all succeed, and a small store.
pub mod Stores
pub mod Gates
pub mod Approvals
pub mod Scans
pub mod Runbooks
pub mod Chats
pub mod Domains
pub mod Lessons
pub mod Commands
use steadystate_ai.Prelude.{
  ℕ, ◌-◌, Bool, true, false, ◌&&◌, Option, none, some, List, [], ◌∷◌, String, str_eq, leb,
  if◌then◌else◌,
}
use steadystate_ai.Prelude.Texts.{Text, codes}
use steadystate_ai.Model.{added, Provenance, Resource, Drift, Severity, Symptom}
use steadystate_ai.State.Findings.{Finding, Findings, opened, muted, resolved}
use steadystate_ai.State.Pending.{PendingAction, pending}
use steadystate_ai.Act.Catalog.{Unicode}
use steadystate_ai.Act.Host.{Host, World, exited, success, answered, crashed}
use steadystate_ai.Act.Approve.{catalog_source}
use steadystate_ai.Act.Decide.{ProposedAction}

abbrev pub digit_of : ℕ → Option ℕ
digit_of c = if leb 48 c && leb c 57 then some (c - 48) else none

abbrev pub ascii : Unicode
ascii = record { wide = λ c. false; lower = λ s. s; digit = digit_of }

abbrev pub from_git : Provenance
from_git = record { source = "terraform"; address = none; file = none; line = none }

abbrev pub missing_bucket : Drift ℕ
missing_bucket = record {
  identity = "aws_s3_bucket.logs";
  kind = "aws_s3_bucket";
  change_type = added;
  provenance = from_git;
  declared = some 1;
  observed = none;
  actionable = true;
}

abbrev pub cluster : Host ℕ
cluster = record {
  unicode = ascii;
  sha256 = λ s. s;
  breakglass_users = codes "alice, bob";
  bound_table = [];
  bound_env = [];
  reflex_auto = codes "reclaim-evicted";
  subprocess = λ ran argv. exited success (codes "done") [];
  dispatch = λ ran spec. (true, codes "queued");
  solutions = [];
  is_executable = λ source. str_eq source "terraform";
  collect_drift = λ ran source path. some (missing_bucket ∷ []);
  remediate = λ ran source drift. crashed;
}

abbrev pub reclaim_command : Text
reclaim_command = codes "kubectl delete pods -n prod --field-selector=status.phase=Failed"

abbrev pub reclaim : PendingAction
reclaim = record {
  fingerprint = "f1";
  source = catalog_source;
  path = "";
  drift_identity = "prod/web";
  command = reclaim_command;
  status = pending;
  created_at = 1;
  actor = none;
  environment = none;
  patch = none;
}

abbrev pub old_finding : Finding
old_finding = record {
  fingerprint = "f1";
  first_seen = 1;
  last_seen = 2;
  last_severity = "high";
  last_title = "Evicted Pod prod/web";
  status = opened;
  snooze_until = none;
  note = none;
  actor = none;
  details = [];
}

abbrev pub noise : Finding
noise = record {
  fingerprint = "f2";
  first_seen = 1;
  last_seen = 2;
  last_severity = "low";
  last_title = "noise";
  status = muted;
  snooze_until = none;
  note = some "benign";
  actor = some "alice";
  details = [];
}

abbrev pub gone : Finding
gone = record {
  fingerprint = "f3";
  first_seen = 1;
  last_seen = 2;
  last_severity = "low";
  last_title = "gone";
  status = resolved;
  snooze_until = none;
  note = none;
  actor = none;
  details = [];
}

abbrev pub some_findings : Findings
some_findings = old_finding ∷ noise ∷ gone ∷ []

abbrev pub one_pending : World
one_pending = record { findings = some_findings; actions = reclaim ∷ []; audit = []; ran = [] }

abbrev pub evicted_pods : Symptom
evicted_pods = record {
  identity = "prod/web";
  kind = "Pod";
  category = "Evicted";
  severity = Severity.medium;
  title = "evicted pods";
  detail = "12 pods are evicted";
  provenance = from_git;
  evidence = ("unhealthy_pods", "12") ∷ [];
  recommended_action = some reclaim_command;
}

abbrev pub proposal : ProposedAction
proposal = record {
  action = "reclaim-evicted-pods";
  command = reclaim_command;
  identity = "prod/web";
  fingerprint = "f9";
  rationale = [];
  proposer = "llm";
}

abbrev pub bucket : ℕ → Resource ℕ
bucket n = record {
  kind = "aws_s3_bucket";
  identity = "aws_s3_bucket.logs";
  provenance = from_git;
  properties = n;
}
