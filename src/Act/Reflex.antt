-- ===== src/Act/Reflex.antt =====
-- act/reflex.py: which malfunctions a hold tick acts on by itself, and the tick.
pub mod Plan
pub mod Held
use steadystate_ai.Prelude.{
  ℕ, ◌+◌, ◌-◌, ◌*◌, Bool, true, false, not, ◌&&◌, ◌||◌, Option, none, some, List, [], ◌∷◌, ◌++◌,
  String, str_eq, find, keep, any, map, length, leb, ltb, is_some, is_empty, ◌==◌, if◌then◌else◌,
}
use steadystate_ai.Prelude.Texts.{Text, codes, text_eq, strip, split_on}
use steadystate_ai.Model.{Symptom, symptom_fingerprint}
use steadystate_ai.State.Findings.{Instant, Findings, Finding, Details, is_opened}
use steadystate_ai.State.Pending.{get_pending}
use steadystate_ai.State.Audit.{acted_fingerprints}
use steadystate_ai.Act.Bounds.{Envelope, BoundPolicy, within_bounds}
use steadystate_ai.Act.Catalog.{Unicode, cleanup_envelope, is_safe_cleanup}
use steadystate_ai.Act.Host.{
  Host, World, Exec, returned, raised, pure, proceed, ◌>>=◌, RemediationResult,
}
use steadystate_ai.Act.Approve.{apply_pending}
use steadystate_ai.Act.Decide.{active_bound}

-- OBSERVE, PROPOSE, AUTO
pub data Autonomy : Type 0 where
  observe propose auto : Autonomy

-- ACT, WATCH, ESCALATE
pub data HoldVerdict : Type 0 where
  act watch escalate : HoldVerdict

pub record Reflex : Type 0 where
  pub name : String
  pub category : String
  pub autonomy : Autonomy
  pub max_per_action : ℕ
  pub max_per_tick : ℕ
  pub envelope : Envelope
  pub distrust_after : ℕ

-- `_BUILTIN_REFLEXES`
abbrev pub builtin_reflexes : List Reflex
builtin_reflexes =
    record {
      name = "reclaim-evicted";
      category = "Evicted";
      autonomy = propose;
      max_per_action = 50;
      max_per_tick = 10;
      envelope = cleanup_envelope;
      distrust_after = 3;
    }
    ∷ []

unfoldable pub promoted_names : Text → List Text
unfolding split_on strip
promoted_names raw = keep (λ n. not (is_empty n)) (map strip (split_on 44 raw))

abbrev pub promote : List Text → Reflex → Reflex
promote names r = if any (text_eq (codes r.name)) names then record r { autonomy = auto } else r

-- `reflexes()` with the text of `STEADYSTATE_REFLEX_AUTO`
unfoldable pub reflexes : Text → List Reflex
unfolding promoted_names text_eq
reflexes raw = map (promote (promoted_names raw)) builtin_reflexes

unfoldable pub reflex_for_category : String → List Reflex → Option Reflex
reflex_for_category category active = find (λ r. str_eq category r.category) active

-- `dict.get`
abbrev pub field : Details → String → Option String
field [] key = none
field ((k, v) ∷ fields) key = if str_eq k key then some v else field fields key

abbrev pub recurs_of : String → List Reflex → Option String → Bool
recurs_of name active none = false
recurs_of name active (some category) =
    not (str_eq category "")
    && (elim (reflex_for_category category active) [ none ↦ false | some r ↦ str_eq r.name name ])

-- A finding that was acted on and is open again counts against the reflex of its category.
abbrev pub recurs : List String → List Reflex → String → Finding → Bool
recurs acted active name f =
    is_opened f.status
    && any (str_eq f.fingerprint) acted
    && recurs_of name active (field f.details "category")

-- `reflex_recurrence`, whose counts are read by `.get(name, 0)`
unfoldable pub reflex_recurrence : Findings → List String → List Reflex → String → ℕ
unfolding reflex_for_category
reflex_recurrence findings acted active name = length (keep (recurs acted active name) findings)

-- `{r.category: r for r in active}.get(category)`: of two reflexes the later counts.
abbrev pub by_category : List Reflex → String → Option Reflex
by_category [] category = none
by_category (r ∷ active) category = elim (by_category active category) [
  | some later ↦ some later
  | none ↦ if str_eq r.category category then some r else none
]

-- `int` of a text without its sign: digits with single underscores between them.
unfoldable pub int_digits : (ℕ → Option ℕ) → Bool → ℕ → Text → Option ℕ
int_digits digit after_digit n [] = if after_digit then some n else none
int_digits digit after_digit n (c ∷ s) = elim (digit c) [
  | some d ↦ int_digits digit true (n * 10 + d) s
  | none ↦ let rest = int_digits digit false n s in if c == 95 && after_digit then rest else none
]

abbrev pub int_signed : (ℕ → Option ℕ) → Text → Option ℕ
int_signed digit [] = none
int_signed digit (c ∷ s) =
    if c == 45
    then (elim (int_digits digit false 0 s) [ none ↦ none | some n ↦ some 0 ])
    else if c == 43
    then int_digits digit false 0 s
    else int_digits digit false 0 (c ∷ s)

-- `_action_size`; a number below 0 is given as 0, since it is only compared with a budget.
unfoldable pub action_size : (ℕ → Option ℕ) → Details → ℕ
unfolding int_digits strip
action_size digit evidence = elim (field evidence "unhealthy_pods") [
  | none ↦ 0
  | some raw ↦ elim (int_signed digit (strip (codes raw))) [ none ↦ 0 | some n ↦ n ]
]

-- One for each of the reasons given.
pub data Reason : Type 0 where
  no_reflex oversized systemic not_holding outside_bound within_radius dry_run : Reason

pub record ReflexDecision : Type 0 where
  pub fingerprint : String
  pub identity : String
  pub category : String
  pub decision : HoldVerdict
  pub reflex : Option String
  pub reason : Reason
  pub command : Option Text

-- The symptoms of the alerts of a report
abbrev pub symptoms_of : List (List Symptom) → List Symptom
symptoms_of [] = []
symptoms_of (alert ∷ alerts) = alert ++ symptoms_of alerts

abbrev pub is_auto : Autonomy → Bool
is_auto auto = true
is_auto _ = false

module _ (u : Unicode) (sha256 : String → String) where
  abbrev pub safe_action : Option Text → Bool
  safe_action none = false
  safe_action (some []) = false
  safe_action (some (c ∷ s)) = is_safe_cleanup u.wide (c ∷ s)

  abbrev pub is_actionable : Symptom → Bool
  is_actionable s = safe_action s.recommended_action

  -- `matched_per_category[category]`, asked only of a category with a reflex
  abbrev pub matched : List Symptom → String → ℕ
  matched actionable category = length (keep (λ s. str_eq s.category category) actionable)

  -- The verdict and its reason, in the order of the tests.
  abbrev pub judge :
      BoundPolicy → (String → ℕ) → List Symptom → Symptom → Option Reflex → HoldVerdict × Reason
  judge policy recurrence actionable s none = (escalate, no_reflex)
  judge policy recurrence actionable s (some r) =
      if ltb r.max_per_action (action_size u.digit s.evidence)
      then (escalate, oversized)
      else if ltb r.max_per_tick (matched actionable s.category)
      then (escalate, systemic)
      else if leb r.distrust_after (recurrence r.name)
      then (escalate, not_holding)
      else if not (within_bounds r.envelope policy)
      then (escalate, outside_bound)
      else if is_auto r.autonomy
      then (act, within_radius)
      else (watch, dry_run)

  abbrev pub reflex_name : Option Reflex → Option String
  reflex_name none = none
  reflex_name (some r) = some r.name

  unfoldable pub decide :
      BoundPolicy → (String → ℕ) → List Symptom → List Reflex → Symptom → ReflexDecision
  unfolding action_size
  decide policy recurrence actionable active s =
      let reflex = by_category active s.category in
      let (verdict, reason) = judge policy recurrence actionable s reflex in
      record {
        fingerprint = symptom_fingerprint sha256 s;
        identity = s.identity;
        category = s.category;
        decision = verdict;
        reflex = reflex_name reflex;
        reason = reason;
        command = s.recommended_action;
      }

  -- `plan_hold`
  unfoldable pub plan_hold :
      List (List Symptom) → List Reflex → (String → ℕ) → BoundPolicy → List ReflexDecision
  unfolding decide
  plan_hold alerts active recurrence policy =
      let actionable = keep is_actionable (symptoms_of alerts) in
      map (decide policy recurrence actionable active) actionable

abbrev pub is_act : HoldVerdict → Bool
is_act act = true
is_act _ = false

-- `HoldPlan.to_act`
abbrev pub to_act : List ReflexDecision → List ReflexDecision
to_act plan = keep (λ d. is_act d.decision) plan

abbrev pub Applications : Type 0
Applications = List (ReflexDecision × Option RemediationResult)

pub record HoldOutcome : Type 0 where
  pub plan : List ReflexDecision
  pub applied : Applications
  pub did_apply : Bool

module _ {P : Type 0} (host : Host P) (actor : String) (now : Instant) where
  -- One round of the loop: a decision with no recorded action is skipped.
  unfoldable pub hold_one : ReflexDecision → Exec Applications → Exec Applications
  hold_one d rest w =
      if is_some (get_pending w.actions d.fingerprint)
      then (apply_pending host d.fingerprint actor now "" >>= λ answer.
            rest >>= λ applied. pure ((d, answer.1) ∷ applied))
          w
      else rest w

  unfoldable pub hold_all : List ReflexDecision → Exec Applications
  unfolding hold_one
  hold_all [] = pure []
  hold_all (d ∷ ds) = hold_one d (hold_all ds)

  -- `run_hold`
  unfoldable pub hold_plan : List (List Symptom) → World → List ReflexDecision
  unfolding reflexes reflex_recurrence plan_hold
  hold_plan alerts w =
      let active = reflexes host.reflex_auto in
      plan_hold host.unicode host.sha256 alerts active
        (reflex_recurrence w.findings (acted_fingerprints w.audit) active) (active_bound host)

  unfoldable pub run_hold : List (List Symptom) → Bool → Exec HoldOutcome
  unfolding hold_plan hold_all
  run_hold alerts apply w =
      let plan = hold_plan alerts w in
      (if apply
          then (hold_all (to_act plan) >>= λ applied.
              pure (record { plan = plan; applied = applied; did_apply = apply }))
          else pure (record { plan = plan; applied = []; did_apply = apply }))
        w
