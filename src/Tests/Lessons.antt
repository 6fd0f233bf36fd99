-- ===== src/Tests/Lessons.antt =====
-- The learner at concrete findings.
use steadystate_ai.Prelude.{
  ◌≡◌, refl, not, ◌&&◌, Option, none, some, [], ◌∷◌, String, str_eq, any, all, keep, length, leb,
  map,
}
use steadystate_ai.State.Findings.{Finding, Findings, resolved}
use steadystate_ai.Act.Learn.{promotable_solutions, slug}
use steadystate_ai.Act.Learn.Earned.{shows, noted, unnoted_or, promotable_solutions-earned_iff}

abbrev cleared : String → Option String → Finding
cleared fingerprint note = record {
  fingerprint = fingerprint;
  first_seen = 1;
  last_seen = 9;
  last_severity = "high";
  last_title = "web is crash-looping";
  status = resolved;
  snooze_until = none;
  note = note;
  actor = none;
  details = ("category", "CrashLoop") ∷ [];
}

-- Three that were resolved, one of them by the program itself; a fix is recorded at one of the others.
abbrev history : Findings
history =
    cleared "f1" none ∷ cleared "f2" (some "restart web") ∷ cleared "f3" (some "scale web") ∷ []

promotable_solutions-earned_iff_example :
    let shown = keep (shows ("f3" ∷ []) "CrashLoop") history in
    any
      (λ d. str_eq d.category "CrashLoop" && str_eq d.run "restart web")
      (promotable_solutions (λ s. s) history ("f3" ∷ []) [] 2)
    ≡ (not (any (str_eq "CrashLoop") [])
        && (leb 2 (length shown)
            && any (noted "restart web") shown
            && all (unnoted_or "restart web") shown))
promotable_solutions-earned_iff_example =
    promotable_solutions-earned_iff (λ s. s) history ("f3" ∷ []) [] 2 "CrashLoop" "restart web" refl
      refl

-- The fix was recorded once.
overstated :
    map (λ d. d.problem) (promotable_solutions (λ s. s) history ("f3" ∷ []) [] 2)
    ≡ "CrashLoop recurred 2x; this recorded fix resolved it each time." ∷ []
unfolding promotable_solutions
overstated = refl

slug_spaced : slug (λ s. s) "image pull/back-off " ≡ "image-pull-back-off"
unfolding slug
slug_spaced = refl
