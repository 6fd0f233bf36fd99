-- ===== src/Tests/Scans.antt =====
-- The pipeline, a stateful scan and the committed mutes at concrete inputs.
use steadystate_ai.Prelude.{
  ℕ, ◌≡◌, ◌≢◌, refl, Bool, false, not, ◌&&◌, ◌||◌, none, some, [], ◌∷◌, ◌++◌, str_eq, any, keep,
  map, ◌==◌, is_some,
}
use steadystate_ai.Prelude.Rows.{by_key, Unique}
use steadystate_ai.Prelude.Texts.{codes}
use steadystate_ai.Prelude.Sums.{tally}
use steadystate_ai.Prelude.Dicts.{item_key, has}
use steadystate_ai.Model.{Severity, PolicyFinding}
use steadystate_ai.State.Findings.{Finding, finding_key, resolved, get, is_suppressed}
use steadystate_ai.Mutes.{
  Document, text, fields, entries, is_blank, load_committed_mutes, committed_warning,
  apply_committed_mutes, export_mutes,
}
use steadystate_ai.Mutes.Export.{muted_row, export_mutes-apply}
use steadystate_ai.Reason.Alert.{Alert, alert}
use steadystate_ai.Reason.Group.{symptom_alert}
use steadystate_ai.Reason.Report.{Tuning, Report, alerts, signals}
use steadystate_ai.Reason.Correlate.Cover.{Covers}
use steadystate_ai.Reason.Correlate.Answer.{
  Answer, groups, group, whole, JsonText, null, llm_correlate,
}
use steadystate_ai.Reason.Correlate.Parsed.{llm_correlate-Covers}
use steadystate_ai.Reason.Pipeline.{Domain}
use steadystate_ai.Reason.Run.{run}
use steadystate_ai.Reason.Run.Measure.{total}
use steadystate_ai.Reason.Run.Conserve.{run-total}
use steadystate_ai.Scan.{seen_findings, alert_suppressed, reconcile}
use steadystate_ai.Scan.Window.{Window, seconds, resolve_grace}
use steadystate_ai.Scan.Surfaced.{bare, reconcile-items, reconcile-seen_findings}
use steadystate_ai.Tests.{missing_bucket, bucket, evicted_pods, from_git, some_findings, digit_of}

abbrev exposed : PolicyFinding
exposed = record {
  rule_id = "CIS-1";
  identity = "aws_s3_bucket.logs";
  provenance = from_git;
  severity = Severity.high;
  title = "public bucket";
  detail = "the bucket is public";
  references = [];
}

abbrev pack : Domain ℕ
pack = record {
  name = "cis";
  score = λ d. some Severity.medium;
  references = none;
  evaluate = some (λ rs. map (λ r. exposed) rs);
}

run-total_example :
    (report : Report ℕ) × (run
        (λ s. s)
        (pack ∷ [])
        Tuning.default
        (llm_correlate none)
        (missing_bucket ∷ [])
        (bucket 1 ∷ [])
        (evicted_pods ∷ [])
      ≡ some report)
    × (total (λ d. 1) (λ s. 1) (λ f. 1) report.items ≡ 3)
unfolding tally
run-total_example =
    run-total (λ d. 1) (λ s. 1) (λ f. 1) (λ s. s) (pack ∷ []) Tuning.default (llm_correlate none)
      (llm_correlate-Covers none) (missing_bucket ∷ []) (bucket 1 ∷ []) (evicted_pods ∷ [])

-- An answer that puts two events into one group.
abbrev answer : Answer
answer = groups (
    group (some (whole 1 ∷ whole 0 ∷ [])) (JsonText.text "storage") (JsonText.text "full") null
    ∷ [])

llm_correlate-Covers_example :
    Covers 2 (llm_correlate (some answer) (missing_bucket ∷ missing_bucket ∷ []))
llm_correlate-Covers_example =
    llm_correlate-Covers (some answer) (missing_bucket ∷ missing_bucket ∷ [])

abbrev evicted : Alert ℕ
evicted = symptom_alert evicted_pods alert none

abbrev report : Report ℕ
report = record { items = evicted ∷ []; tuning = Tuning.default }

-- A file that commits the mute of the symptom above.
abbrev committed : Document
committed = entries (
    ("terraform|prod/web|Evicted", fields (("by", text "alice") ∷ ("note", text "benign") ∷ []))
    ∷ [])

reconcile-items_example :
    map bare (reconcile (λ s. s) "mutes.json" committed 1800 9 report some_findings).0.items
    ≡ map bare (
        signals report
        ++ keep
            (λ a. not (
              alert_suppressed
                (λ s. s)
                (apply_committed_mutes "mutes.json" committed 9 some_findings).0
                9
                a))
            (alerts report))
reconcile-items_example =
    reconcile-items (λ s. s) 9 "mutes.json" committed 1800 report some_findings

findings-Unique : Unique finding_key some_findings
unfolding Unique by_key
findings-Unique = (refl, (refl, (refl, tt)))

reconcile-seen_findings_example :
    (f : Finding) × (get
        (reconcile (λ s. s) "mutes.json" committed 1800 9 report some_findings).1
        "terraform|prod/web|Evicted"
      ≡ some f)
    × (f.last_seen ≡ 9)
    × (f.status ≢ resolved)
    × (any
          (λ r. str_eq r.0 "terraform|prod/web|Evicted")
          (reconcile (λ s. s) "mutes.json" committed 1800 9 report some_findings).2
        ≡ false)
unfolding has seen_findings
reconcile-seen_findings_example =
    reconcile-seen_findings (λ s. s) 9 "mutes.json" committed 1800 report some_findings
      "terraform|prod/web|Evicted" findings-Unique refl

committed-Unique : Unique item_key (load_committed_mutes committed)
unfolding Unique by_key load_committed_mutes
committed-Unique = (refl, tt)

export_mutes-apply_example :
    is_suppressed
      (apply_committed_mutes "mutes.json"
        (export_mutes "2026-01-01" some_findings committed).0
        9
        []).0
      "f2"
      9
    ≡ ((not (is_blank "f2") && muted_row (get some_findings "f2"))
        || committed_warning "f2" committed
        || is_suppressed [] "f2" 9)
export_mutes-apply_example =
    export_mutes-apply "2026-01-01" "mutes.json" 9 some_findings [] committed "f2" findings-Unique
      committed-Unique

-- The characters that `str.isdigit` accepts: the ASCII digits, and a superscript two (178).
abbrev is_digit : ℕ → Bool
is_digit c = c == 178 || is_some (digit_of c)

half_an_hour : resolve_grace (λ s. s) is_digit digit_of (some (codes " 30m ")) ≡ seconds 1800
unfolding resolve_grace
half_an_hour = refl

mistyped : resolve_grace (λ s. s) is_digit digit_of (some (codes "soon")) ≡ seconds 1800
unfolding resolve_grace
mistyped = refl

superscript : resolve_grace (λ s. s) is_digit digit_of (some (178 ∷ codes "m")) ≡ Window.raised
unfolding resolve_grace
superscript = refl
