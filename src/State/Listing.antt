-- ===== src/State/Listing.antt =====
-- The listings of state.py, in the order that their query asks for, and the analyses table.
use Prim.Native.String.{String}
use steadystate_ai.Prelude.{
  ℕ, ◌+◌, ◌==◌, Bool, true, false, ◌&&◌, ◌||◌, Option, List, [], ◌∷◌, leb, ltb, keep, if◌then◌else◌,
}
use steadystate_ai.Prelude.Texts.{Text, codes}
use steadystate_ai.Prelude.Sorting.{sort, text_leb}
use steadystate_ai.Prelude.Dicts.{lookup, put}
use steadystate_ai.State.Findings.{Instant, Finding, Findings}
use steadystate_ai.State.Pending.{PendingAction, pending, Actions, same_status}

-- SQLite's LIKE takes an ASCII letter for either of its cases.
abbrev pub fold_case : ℕ → ℕ
fold_case c = if leb 65 c && leb c 90 then c + 32 else c

unfoldable pub is_like : Text → Text → Bool
is_like [] s = true
is_like (c ∷ prefix) [] = false
is_like (c ∷ prefix) (d ∷ s) = fold_case c == fold_case d && is_like prefix s

-- `StateStore.find_by_prefix`
unfoldable pub find_by_prefix : Findings → String → Findings
unfolding is_like sort
find_by_prefix rows prefix =
    sort (λ f g. text_leb f.fingerprint g.fingerprint)
      (keep (λ (f : Finding). is_like (codes prefix) (codes f.fingerprint)) rows)

-- `ORDER BY created_at, fingerprint`
abbrev pub offered_before : PendingAction → PendingAction → Bool
offered_before a b =
    ltb a.created_at b.created_at
    || (a.created_at == b.created_at && text_leb a.fingerprint b.fingerprint)

-- `StateStore.all_pending`
unfoldable pub all_pending : Actions → Actions
unfolding sort
all_pending rows =
    sort offered_before (keep (λ (a : PendingAction). same_status a.status pending) rows)

-- The analyses table: a fingerprint, the analysis and its instant.
abbrev pub Analyses : Type 0
Analyses = List (String × (String × Instant))

-- `StateStore.save_analysis`
unfoldable pub save_analysis : String → String → Instant → Analyses → Analyses
unfolding put
save_analysis fingerprint rca now rows = put fingerprint (rca, now) rows

-- `StateStore.get_analysis`
unfoldable pub get_analysis : Analyses → String → Option (String × Instant)
unfolding lookup
get_analysis rows fingerprint = lookup fingerprint rows
