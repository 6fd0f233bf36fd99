-- ===== src/Lib.antt =====
-- steadystate lets an agent operate infrastructure through a deterministic gate. A source compares
-- what is declared with what is observed and reports drift; a probe reports malfunctions. A pipeline
-- sorts both into signals and alerts, and a scan brings the report together with a store of findings
-- and withholds what an operator muted. A remediation is offered as a pending action, and a human, a
-- reflex or a decider approves it: the approval claims the action in the store, checks it again, runs
-- it and writes the audit log. This library models the store, the gates and every way to an effect,
-- from the sources under src/steadystate.
--
-- The files and the code:
--   Model            model.py and the Symptom of probe/base.py: the records that pass between the parts
--   Reconcile        reconcile.py: `reconcile`, over any type of properties with an equality test
--   State.Findings   the findings table of state.py: record, resolve_absent, mute, snooze, resolve,
--                    unmute, is_suppressed
--   State.Pending    the pending_actions table of state.py: record_pending, claim_pending and the rest
--   State.Audit      the audit_log table of state.py
--   State.Listing    the queries of state.py that list, and the analyses table
--   Mutes            mutes.py: the file of committed mutes, applied to a store and exported from one
--   Reason.Alert     reason/alert.py; Reason.Report is reason/report.py
--   Reason.Correlate reason/correlate.py; Correlate/Answer is the correlator of reason/llm.py
--   Reason.Group     `group_symptom_alerts` of reason/pipeline.py
--   Reason.Pipeline  the scoring and the alerts of reason/pipeline.py; Reason.Run is its `run`
--   Domains          domains/security.py, security_gcp.py and security_azure.py: what the security
--                    packs of AWS, GCP and Azure score, over Domains/Properties
--   Scan             reconcile_state.py: `reconcile` over a report, a store and the committed mutes;
--                    Scan/Window is `resolve_grace`
--   Act.Bounds       act/bounds.py: envelopes, within_bounds, confirmation_tier, bound_from_env
--   Act.Kubectl      `safe_kubectl` of act/cleanup.py, with its loop; Kubectl/Argv is shlex.split,
--                    Kubectl/Loop the loop by its index
--   Act.Catalog      act/catalog.py: validators, composers and the five entries; Catalog/Lines and
--                    Flags are lines of words as the gate reads them
--   Act.Workflow     act/workflow.py: parse_workflow_spec
--   Act.Host         the environment, the external programs, the state of a run, and runs that may raise
--   Act.Execute      act/execute.py, run_cleanup of act/cleanup.py, run_solution of act/solution_remedy.py
--   Act.Approve      act/approve.py and act/breakglass.py: apply_pending and decline_pending
--   Act.Decide       act/decide.py: the gate, the catalog decider, act_on_proposals
--   Act.Reflex       act/reflex.py: plan_hold and run_hold
--   Act.Cleanup      record_cleanups of act/cleanup.py
--   Act.Plan         act/plan.py: assess and can_run_unattended
--   Act.Runbook      what act/solution_remedy.py asks of a solution, and `solutions_for`
--   Act.Learn        act/learn.py: gather_demonstrations and promotable_solutions
--   Act.Authoring    probe/solutions.py: parse_solution, load_solutions, add_solution, vouch_solution
--   Act.Solutions    record_solution_remediations of act/solution_remedy.py
--   Inbound.Grammar  inbound/base.py: the verbs, their effects, and command_from_text
--   Inbound.Translate inbound/translate.py: confident_command, and nl_to_command behind a model's reply
--   Inbound.Server   inbound/server.py: dispatch, over any adapter
--   Inbound.Mcp      inbound/mcp.py: handle_request and the tools that a grant exposes
--   Verbs            verbs.py: fix, run, approve, decline, mute, unmute and snooze of run_command;
--                    Verbs/Reference resolves what an operator types
--   Prelude          lists, Python's text operations, tables with a text key, dictionaries, sums
--   Tests            concrete data, and each result at a concrete input
--
-- How the code is read. A method of the store becomes a function on the list of the table's rows, in
-- the order of insertion; `Unique` is the primary key. An instant is a natural number. A run of the act
-- side is a function of `World` (the tables and the list of effects so far) that returns or raises and
-- gives the next `World`; an effect is a subprocess with its argument list, a dispatched workflow, or
-- an executor's remediation. The two loops that are not over a list, the scanner of `safe_kubectl` and
-- the lexer of shlex, go along the list of tokens and of characters. Only Kubectl/Loop runs on fuel: it
-- is the scanner by its index, and more fuel than the command has tokens is enough. A text that is
-- taken apart is a list of code points; one that is only compared is a String.
--
-- Parameters, since they are not code of this repository: sha256, str.lower, the characters outside
-- ASCII that match `\w` and their decimal values, the environment variables, subprocess.run, the
-- Actions API, what a language model answers, and the regular expressions of the runbook. Parameters
-- too, since they are outside the model or plug in: the executors, the drift sources, a correlator,
-- and the packs and the probes that a pipeline is given. What an external program answers may depend
-- on all the effects before it. A drift source and an executor may raise, and so may
-- subprocess.run on an output that cannot be decoded (`Process`). The text of a JSON file or answer
-- is not parsed: `Document` and `Answer` are what the checks behind the parser see.
--
-- The surfaces are modelled from the message on: the listener and the agent server pass any state through
-- any `run_command`, so that their theorems hold whatever the verbs do, and Verbs gives those of its
-- branches that write to the store or act on the infrastructure.
--
-- Not modelled: the advice on reverting in a plan, and menus; the schema and the connection of the
-- database; the lessons of act/learn.py, enrichment, the packs of Kubernetes and compliance, the
-- sources, probes, notifiers, the adapters of chat providers, sockets, the prompts, the verbs that
-- render, and the command line.
pub mod Prelude
pub mod Model
pub mod Domains
pub mod Inbound
pub mod Mutes
pub mod Reason
pub mod State
pub mod Act
pub mod Reconcile
pub mod Scan
pub mod Tests
pub mod Verbs
