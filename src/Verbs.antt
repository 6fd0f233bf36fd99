-- ===== src/Verbs.antt =====
-- verbs.py: the verbs of the chat that write, as `run_command` dispatches them. The state file is taken to
-- exist. A message is one constructor for each text, with what it quotes; the targets are what
-- `load_targets_from_env` gives.
pub mod Reference
pub mod Issue
pub mod Effects
use Prim.Native.String.{String}
use steadystate_ai.Prelude.{
  ℕ, ◌+◌, Bool, true, false, not, Option, none, some, List, [], ◌∷◌, str_eq, find, is_empty, ltb,
  leb, or_else, if◌then◌else◌,
}
use steadystate_ai.Prelude.Texts.{Text, codes}
use steadystate_ai.Prelude.Dicts.{lookup}
use steadystate_ai.State.Findings.{Instant, Finding, mute, snooze, unmute}
use steadystate_ai.State.Pending.{PendingAction, pending}
use steadystate_ai.Act.Bounds.{Envelope, default_bound, confirmation_tier}
use steadystate_ai.Act.Catalog.{CatalogAction, FindingFields, catalog_action, offered_action}
use steadystate_ai.Act.Host.{Host, World, Exec, returned, raised, pure, raise, proceed, ◌>>=◌, ◌>>◌}
use steadystate_ai.Act.Approve.{
  Message, Applied, catalog_source, breakglass_source, breakglass_allowed, apply_pending,
  decline_pending,
}
use steadystate_ai.Act.Decide.{offer_action}
use steadystate_ai.Scan.Window.{Window, seconds, unrecognized}
use steadystate_ai.Scan.Window as Window
use steadystate_ai.Inbound.Grammar.{Verb, Command, fix, run, approve, decline}
use steadystate_ai.Inbound.Grammar as Grammar
use steadystate_ai.Verbs.Reference.{
  Resolved, found, refused, crashed, Complaint, resolve_pending, resolve_mute_target,
  lookup_finding, Looked, finding_found, not_found, parse_duration,
}

pub record Target : Type 0 where
  pub context : String
  pub kubeconfig : String

pub data VerbMessage : Type 0 where
  complaint : Complaint → VerbMessage
  applied : Message → VerbMessage
  declined : Bool → VerbMessage
  muted unmuted : String → VerbMessage
  snoozed : String → String → VerbMessage
  no_duration : String → VerbMessage
  no_fix_offered : String → VerbMessage
  unknown_action : String → VerbMessage
  not_composed : String → VerbMessage
  pattern_refused : String → VerbMessage
  issued : String → Message → Text → VerbMessage
  not_authorized : String → Envelope → VerbMessage
  challenge : Envelope → Text → String → String → Bool → VerbMessage
  nothing_to_do : VerbMessage

-- `details.get(key, "")`
abbrev pub detail : Finding → String → String
detail f key = or_else (lookup key f.details) ""

abbrev pub context_kubeconfig : List Target → String → String
context_kubeconfig targets context =
    if str_eq context ""
    then ""
    else elim (find (λ (t : Target). str_eq t.context context) targets) [
      | none ↦ ""
      | some t ↦ t.kubeconfig
    ]

-- `_finding_fields`
unfoldable pub finding_fields : List Target → Finding → FindingFields
unfolding lookup
finding_fields targets f = record {
  kind = codes (detail f "kind");
  name = codes (if str_eq (detail f "workload") "" then detail f "node" else detail f "workload");
  namespace = codes (detail f "namespace");
  context = codes (detail f "cluster");
  kubeconfig = codes (context_kubeconfig targets (detail f "cluster"));
}

-- `fields.name or finding.last_title`
abbrev pub challenge_target : Finding → String
challenge_target f =
    let named = if str_eq (detail f "workload") "" then detail f "node" else detail f "workload" in
    if str_eq named "" then f.last_title else named

-- The row that a verb records for a finding.
abbrev pub issued_row : Finding → String → String → Text → Instant → PendingAction
issued_row f source target command now = record {
  fingerprint = f.fingerprint;
  source = source;
  path = "";
  drift_identity = target;
  command = command;
  status = pending;
  created_at = now;
  actor = none;
  environment = none;
  patch = none;
}

module _ {P : Type 0} (host : Host P) (targets : List Target) (now : Instant) (actor : String) where
  -- `_breakglass_challenge`
  unfoldable pub breakglass_challenge : Finding → CatalogAction → Text → ℕ → Exec VerbMessage
  unfolding breakglass_allowed lookup
  breakglass_challenge f a command tier =
      if not (breakglass_allowed host.breakglass_users actor)
      then pure (not_authorized a.name a.envelope)
      else offer_action (issued_row f breakglass_source (challenge_target f) command now) now
        >>= λ _. pure (challenge a.envelope command f.fingerprint (challenge_target f) (leb 2 tier))

  -- `apply_pending` behind `record_pending`
  unfoldable pub issue : Finding → CatalogAction → Text → Exec VerbMessage
  unfolding apply_pending
  issue f a command =
      offer_action (issued_row f catalog_source f.last_title command now) now >>= λ _.
      apply_pending host f.fingerprint actor now "" >>= λ answer.
      pure (issued a.name answer.0 command)

  abbrev pub gate_command : Finding → CatalogAction → Option Text → Exec VerbMessage
  gate_command f a none = pure (not_composed a.name)
  gate_command f a (some command) =
      if not (a.validate command)
      then pure (pattern_refused a.name)
      else if ltb 0 (confirmation_tier a.envelope default_bound)
      then breakglass_challenge f a command (confirmation_tier a.envelope default_bound)
      else issue f a command

  -- `_apply_catalog_action`
  unfoldable pub apply_catalog_action : Finding → CatalogAction → Exec VerbMessage
  unfolding breakglass_challenge issue confirmation_tier finding_fields
  apply_catalog_action f a = gate_command f a (a.compose (finding_fields targets f))

  abbrev pub fix_with : Finding → Option CatalogAction → Exec VerbMessage
  fix_with f none = pure (
      no_fix_offered
        (if str_eq (detail f "category") "" then f.last_title else detail f "category"))
  fix_with f (some a) = apply_catalog_action f a

  abbrev pub fix_looked : Looked → Exec VerbMessage
  fix_looked (not_found why) = pure (complaint why)
  fix_looked (finding_found f) = fix_with f (offered_action host.unicode (detail f "category"))

  -- `_fix_finding`
  unfoldable pub fix_finding : String → Exec VerbMessage
  unfolding apply_catalog_action lookup_finding offered_action lookup
  fix_finding token w = fix_looked (lookup_finding w.findings token) w

  abbrev pub run_looked : CatalogAction → Looked → Exec VerbMessage
  run_looked a (not_found why) = pure (complaint why)
  run_looked a (finding_found f) = apply_catalog_action f a

  abbrev pub run_named : String → String → Option CatalogAction → Exec VerbMessage
  run_named name token none w = pure (unknown_action name) w
  run_named name token (some a) w = run_looked a (lookup_finding w.findings token) w

  -- `_run_action`
  unfoldable pub run_action : String → String → Exec VerbMessage
  unfolding apply_catalog_action lookup_finding catalog_action
  run_action name token = run_named name token (catalog_action host.unicode name)

  abbrev pub approve_resolved : String → Resolved → Exec VerbMessage
  approve_resolved token (found k) =
      apply_pending host k actor now token >>= λ answer. pure (applied answer.0)
  approve_resolved token (refused why) = pure (complaint why)
  approve_resolved token crashed = raise

  abbrev pub decline_resolved : Resolved → Exec VerbMessage
  decline_resolved (found k) = decline_pending k actor now >>= λ done. pure (declined done)
  decline_resolved (refused why) = pure (complaint why)
  decline_resolved crashed = raise

  abbrev pub mute_resolved : Resolved → Exec VerbMessage
  mute_resolved (found k) w =
      (returned (muted k), record w { findings = mute k none (some actor) now w.findings })
  mute_resolved (refused why) w = pure (complaint why) w
  mute_resolved crashed w = raise w

  abbrev pub unmute_looked : Looked → Exec VerbMessage
  unmute_looked (finding_found f) w = (
    returned (unmuted f.fingerprint),
    record w { findings = unmute f.fingerprint now w.findings },
  )
  unmute_looked (not_found why) w = pure (complaint why) w

  -- `latest` is the last instant of a datetime, behind which the sum is an `OverflowError`.
  abbrev pub snooze_resolved : Instant → ℕ → String → Resolved → Exec VerbMessage
  snooze_resolved latest n text (found k) w = if ltb latest (now + n) then raise w else (
    returned (snoozed k text),
    record w { findings = snooze k (now + n) (some actor) now w.findings },
  )
  snooze_resolved latest n text (refused why) w = pure (complaint why) w
  snooze_resolved latest n text crashed w = raise w

  -- `_snooze_finding`
  abbrev pub snooze_for : Instant → String → String → Window → Exec VerbMessage
  snooze_for latest token text (seconds n) w =
      snooze_resolved latest n text (resolve_mute_target w.findings token) w
  snooze_for latest token text unrecognized w = pure (no_duration text) w
  snooze_for latest token text Window.raised w = raise w

  -- The branches of `run_command` for the verbs that write to the store or act by a catalog command or an
  -- approval; `none` where another branch answers. `is_digit` is `str.isdigit` of a character.
  module _ (is_digit : ℕ → Bool) (latest : Instant) where
    abbrev pub pending_named : World → String → Resolved
    pending_named w = resolve_pending host.unicode.lower is_digit host.unicode.digit w.actions

    abbrev pub verb_branch : Verb → String → String → Option (Exec VerbMessage)
    verb_branch fix argument argument2 = some (fix_finding argument)
    verb_branch run argument argument2 = some (run_action argument argument2)
    verb_branch approve argument argument2 =
        some (λ w. approve_resolved argument2 (pending_named w argument) w)
    verb_branch decline argument argument2 =
        some (λ w. decline_resolved (pending_named w argument) w)
    verb_branch Grammar.mute argument argument2 =
        some (λ w. mute_resolved (resolve_mute_target w.findings argument) w)
    verb_branch Grammar.unmute argument argument2 =
        some (λ w. unmute_looked (lookup_finding w.findings argument) w)
    verb_branch Grammar.snooze argument argument2 = some (
        snooze_for latest argument argument2
          (parse_duration host.unicode.lower is_digit host.unicode.digit (codes argument2)))
    verb_branch _ argument argument2 = none

    unfoldable pub run_command : Command → Option (Exec VerbMessage)
    unfolding fix_finding run_action resolve_pending resolve_mute_target lookup_finding
        parse_duration apply_pending decline_pending mute unmute snooze
    run_command c = verb_branch c.verb c.argument c.argument2
