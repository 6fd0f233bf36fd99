-- ===== src/Act/Host.antt =====
-- What the act side runs in: the environment and the external programs (`Host`), the tables and the
-- effects so far (`World`), and actions over them that may raise.
use steadystate_ai.Prelude.{Bool, Option, List, [], ◌∷◌, ◌++◌, String}
use steadystate_ai.Prelude.Texts.{Text}
use steadystate_ai.State.Findings.{Findings}
use steadystate_ai.State.Pending.{Actions}
use steadystate_ai.State.Audit.{AuditEntry}
use steadystate_ai.Model.{Drift}
use steadystate_ai.Act.Bounds.{Envelope}
use steadystate_ai.Act.Catalog.{Unicode}
use steadystate_ai.Act.Workflow.{WorkflowSpec}

-- An effect outside the store: a subprocess, a dispatched workflow, an executor's remediation (the
-- source and the fingerprint of the drift).
pub data Event : Type 0 where
  command : List Text → Event
  workflow : List Text → Event
  remediation : String → String → Event

pub data ReturnCode : Type 0 where
  success : ReturnCode
  failure : Text → ReturnCode

-- What `subprocess.run` with `text=True` gives: the code with the two outputs; or an `OSError` or
-- `SubprocessError`; or a `ValueError`, as for an output that cannot be decoded.
pub data Process : Type 0 where
  exited : ReturnCode → Text → Text → Process
  not_run : Text → Process
  undecoded : Text → Process

-- act/plan.py
pub data Risk : Type 0 where
  low medium high : Risk

-- The explanations of a plan are prose and are left out.
pub record RemediationPlan : Type 0 where
  pub drift_identity : String
  pub eligible : Bool
  pub risk : Risk
  pub command : List Text
  pub envelope : Option Envelope

-- The texts of `RemediationResult.detail`, one constructor for each, with what it quotes.
pub data Detail : Type 0 where
  not_recognized : Text → Detail
  outside_bound : String → Envelope → Detail
  action_error : Text → Detail
  action_exit : Text → Text → Detail
  action_ran : String → Text → Detail
  empty_solution : Detail
  dispatch_refused : Text → Detail
  dispatched : Text → Detail
  executor_said : Text → Detail
  drift_absent : Detail
  without_safety_net : Detail → Detail

-- act/base.py; the snapshot is for the record only and is left out.
pub record RemediationResult : Type 0 where
  pub plan : RemediationPlan
  pub applied : Bool
  pub verified : Bool
  pub detail : Detail

-- probe/solutions.py: an entry of the runbook
pub record Solution : Type 0 where
  pub name : String
  pub kind : Text
  pub run : Text
  pub target : Text
  pub for_category : Text
  pub title_match : Text
  pub problem : Text
  pub impact : Text
  pub reversibility : Text
  pub author : String
  pub added : Text
  pub proposed : Bool

-- `parse_workflow_spec` followed by `dispatch_workflow` (act/workflow.py): the problem with the
-- specification, or whether the service accepted, with its message.
pub data Dispatch : Type 0 where
  refused : Text → Dispatch
  answered : Bool → Text → Dispatch

-- An executor's `remediate(drift, confirm=True)` returns, or raises (`CalledProcessError`).
pub data Attempt : Type 0 where
  finished : RemediationResult → Attempt
  crashed : Attempt

-- What stands outside the program, and the environment variables. What an external program answers
-- may depend on all that ran before it. `collect_drift` gives none where it raises.
pub record Host (P : Type 0) : Type 0 where
  pub unicode : Unicode
  pub sha256 : String → String
  pub breakglass_users : Text
  pub bound_table : List (Text × Text)
  pub bound_env : Text
  pub reflex_auto : Text
  pub subprocess : List Event → List Text → Process
  pub dispatch : List Event → WorkflowSpec → Bool × Text
  pub solutions : List Solution
  pub is_executable : String → Bool
  pub collect_drift : List Event → String → String → Option (List (Drift P))
  pub remediate : List Event → String → Drift P → Attempt

pub record World : Type 0 where
  pub findings : Findings
  pub actions : Actions
  pub audit : List (AuditEntry Detail)
  pub ran : List Event

pub data Reply {ℓ} (A : Type ℓ) : Type ℓ where
  returned : A → Reply A
  raised : Reply A

abbrev pub Exec : Type 0 → Type 0
Exec A = World → Reply A × World

abbrev pub pure : {A : Type 0} → A → Exec A
pure a w = (returned a, w)

abbrev pub raise : {A : Type 0} → Exec A
raise w = (raised, w)

abbrev pub proceed : {A B : Type 0} → Reply A → (A → Exec B) → Exec B
proceed (returned a) f w = f a w
proceed raised f w = (raised, w)

infixl 5 ◌>>=◌ ◌>>◌
abbrev pub ◌>>=◌ : {A B : Type 0} → Exec A → (A → Exec B) → Exec B
◌>>=◌ m f w = let (r, w') = m w in proceed r f w'

abbrev pub ◌>>◌ : {A : Type 0} → Exec (Unit {0}) → Exec A → Exec A
m >> k = m >>= λ _. k

-- What a run did outside the store is written behind what was done before.
abbrev pub log_event : Event → World → World
log_event e w = record w { ran = w.ran ++ (e ∷ []) }
