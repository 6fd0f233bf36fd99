-- ===== src/Reason/Report.antt =====
-- reason/report.py: the bar between a counted signal and an event, and the report of a scan. The
-- calls of a language model are left out.
use steadystate_ai.Prelude.{
  ℕ, ◌+◌, Bool, true, false, List, [], ◌∷◌, leb, length, keep, if◌then◌else◌,
}
use steadystate_ai.Model.{Severity, low, medium, high, critical}
use steadystate_ai.Reason.Alert.{Layer, signal, event, alert, Alert}

pub data Tuning : Type 0 where
  lenient default strict : Tuning

-- _RANK, and _SEVERITY_RANK of the pipeline
abbrev pub rank : Severity → ℕ
rank low = 0
rank medium = 1
rank high = 2
rank critical = 3

-- _EVENT_FLOOR
abbrev pub event_floor : Tuning → Severity
event_floor strict = low
event_floor default = medium
event_floor lenient = high

unfoldable pub classify : Severity → Tuning → Layer
classify severity tuning = if leb (rank (event_floor tuning)) (rank severity) then event else signal

abbrev pub is_signal : Layer → Bool
is_signal signal = true
is_signal _ = false

abbrev pub is_alert : Layer → Bool
is_alert alert = true
is_alert _ = false

pub record Report (P : Type 0) : Type 0 where
  pub items : List (Alert P)
  pub tuning : Tuning

module _ {P : Type 0} where
  -- `Report.alerts`
  abbrev pub alerts : Report P → List (Alert P)
  alerts report = keep (λ item. is_alert item.layer) report.items

  -- `Report.signals`
  abbrev pub signals : Report P → List (Alert P)
  signals report = keep (λ item. is_signal item.layer) report.items

  -- `Report.signal_count`
  abbrev pub signal_count : Report P → ℕ
  signal_count report = length (signals report)

  abbrev pub drift_count : List (Alert P) → ℕ
  drift_count [] = 0
  drift_count (a ∷ items) = length a.drifts + drift_count items

  -- `Report.event_count`
  abbrev pub event_count : Report P → ℕ
  event_count report = drift_count (alerts report)
