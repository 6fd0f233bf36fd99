-- ===== src/Act/Catalog/Disjoint.antt =====
-- The five patterns of the catalog side by side (src/steadystate/act/catalog.py).
use steadystate_ai.Prelude.{
  ℕ, ◌≡◌, ◌≢◌, refl, inl, inr, Bool, true, false, Option, none, some, List, [], ◌∷◌, ◌++◌, arith,
  any, All, All-mem, head?, ap, sym, ◌∙◌, Option-cases,
}
use mathlib.Core.Option.{some-injective}
use mathlib.Core.List.{Memᴰ}
use steadystate_ai.Prelude.Texts.{Text, codes, text_eq, text_eq_sound, split, partition}
use steadystate_ai.Act.Kubectl.{
  WideWord, Shape, Scan, after_verb, scan_token, scan_flag, scan_tokens, scan_end, scan_start,
  safe_kubectl, flag_value, is_value, is_positional,
}
use steadystate_ai.Act.Kubectl.Parts.{safe_kubectl-parts}
use steadystate_ai.Act.Catalog.{
  Unicode, CatalogAction, delete_pods, failed_phase, succeeded_phase, restart_shape, scale_shape,
  delete_node_shape, is_safe_cleanup, is_safe_completed_cleanup, is_safe_rollout_restart,
  is_safe_scale_to_zero, is_safe_delete_node, builtin_actions, action_for_command,
}

abbrev selector : Text
selector = codes "--field-selector"

module _ (wide : WideWord) (va vb : Text) (differ : va ≢ vb) where
  clash_value : (o : Option Text) → is_value o va ≡ true → is_value o vb ≡ true → ⊥
  clash_value none p q = cc
  clash_value (some w) p q = differ (sym (text_eq_sound w va p) ∙ text_eq_sound w vb q)

  flag_together :
      (sa sb : Scan) (key : Text) (inline : Option Text) (tok : Text) (next : Option Text)
      {ra rb : Scan × Bool}
      → any (text_eq selector) sa.seen_required ≡ false
      → scan_flag wide (delete_pods va) sa key inline tok next ≡ some ra
      → scan_flag wide (delete_pods vb) sb key inline tok next ≡ some rb
      → (any (text_eq selector) ra.0.seen_required ≡ false) × (ra.1 ≡ rb.1)
  unfolding scan_flag is_positional
  flag_together sa sb key inline tok next n p q =
      ground (arith, clash_value (flag_value inline next))

  token_together :
      (sa sb : Scan) (tok : Text) (next : Option Text) {ra rb : Scan × Bool}
      → any (text_eq selector) sa.seen_required ≡ false
      → scan_token wide (delete_pods va) sa tok next ≡ some ra
      → scan_token wide (delete_pods vb) sb tok next ≡ some rb
      → (any (text_eq selector) ra.0.seen_required ≡ false) × (ra.1 ≡ rb.1)
  unfolding scan_token
  token_together sa sb tok next n p q =
      let (key, inline) = partition b'=' tok in flag_together sa sb key inline tok next n p q

  scan_clash :
      (sa sb : Scan) (skip : Bool) (toks : List Text)
      → any (text_eq selector) sa.seen_required ≡ false
      → scan_tokens wide (delete_pods va) sa skip toks ≡ true
      → scan_tokens wide (delete_pods vb) sb skip toks ≡ true
      → ⊥
  unfolding scan_tokens scan_end
  scan_clash sa sb skip [] n p q = ground (arith, n, p)
  scan_clash sa sb true (tok ∷ toks) n p q = scan_clash sa sb false toks n p q
  scan_clash sa sb false (tok ∷ toks) n p q =
      elim (Option-cases (scan_token wide (delete_pods va) sa tok (head? toks))) [
        | inl e ↦ ground (arith, p, e)
        | inr (ra, ea) ↦
            elim (Option-cases (scan_token wide (delete_pods vb) sb tok (head? toks))) [
              | inl e ↦ ground (arith, q, e)
              | inr (rb, eb) ↦
                  let t : (any (text_eq selector) ra.0.seen_required ≡ false) × (ra.1 ≡ rb.1) =
                    token_together sa sb tok (head? toks) n ea eb in
                  scan_clash ra.0 rb.0 ra.1 toks t.0 (ground (arith, p, ea))
                    (ground (arith, q, eb, t.1))
            ]
      ]

  phases_clash :
      (command : Text)
      → safe_kubectl wide (delete_pods va) command ≡ true
      → safe_kubectl wide (delete_pods vb) command ≡ true
      → ⊥
  unfolding scan_start
  phases_clash command p q =
      let a = safe_kubectl-parts wide (delete_pods va) command p in
      let b = safe_kubectl-parts wide (delete_pods vb) command q in
      scan_clash (scan_start (delete_pods va)) (scan_start (delete_pods vb)) false a.rest refl
        a.scanned (rw (some-injective a.rest b.rest (sym a.behind ∙ b.behind)) b.scanned)

after_verb-append : (vs toks rest : List Text) → after_verb vs toks ≡ some rest → toks ≡ vs ++ rest
unfolding after_verb
after_verb-append [] toks rest h = ground (arith, h)
after_verb-append (v ∷ vs) [] rest h = cc
after_verb-append (v ∷ vs) (t ∷ toks) rest h =
    ground (arith, h, text_eq_sound t v, after_verb-append vs toks rest)

-- Two verbs that begin differently accept no command in common.
verbs_clash :
    (wide : WideWord) (a b : Shape) (command : Text)
    → ((ra rb : List Text) → a.verb ++ ra ≢ b.verb ++ rb)
    → safe_kubectl wide a command ≡ true
    → safe_kubectl wide b command ≡ true
    → ⊥
verbs_clash wide a b command apart p q =
    let x = safe_kubectl-parts wide a command p in
    let y = safe_kubectl-parts wide b command q in
    apart x.rest y.rest (
      sym (after_verb-append a.verb (split command) x.rest x.behind)
      ∙ after_verb-append b.verb (split command) y.rest y.behind)

-- The first letter of the third token.
abbrev third_letter : List Text → ℕ
third_letter (a ∷ b ∷ (c ∷ s) ∷ l) = c
third_letter _ = 0

refuted : (b : Bool) → (b ≡ true → ⊥) → b ≡ false
refuted true h = absurd (h refl)
refuted false h = refl

module _ (u : Unicode) (command : Text) where
  evicted-completed :
      is_safe_cleanup u.wide command ≡ true → is_safe_completed_cleanup u.wide command ≡ true → ⊥
  unfolding is_safe_cleanup is_safe_completed_cleanup
  evicted-completed p q = phases_clash u.wide failed_phase succeeded_phase (λ e. cc) command p q

  evicted-restart :
      is_safe_cleanup u.wide command ≡ true → is_safe_rollout_restart u.wide command ≡ true → ⊥
  unfolding is_safe_cleanup is_safe_rollout_restart
  evicted-restart =
      verbs_clash u.wide (delete_pods failed_phase) (restart_shape u.wide) command (λ ra rb e. cc)

  evicted-scale :
      is_safe_cleanup u.wide command ≡ true → is_safe_scale_to_zero u.wide command ≡ true → ⊥
  unfolding is_safe_cleanup is_safe_scale_to_zero
  evicted-scale =
      verbs_clash u.wide (delete_pods failed_phase) (scale_shape u.wide) command (λ ra rb e. cc)

  evicted-node :
      is_safe_cleanup u.wide command ≡ true → is_safe_delete_node u.wide command ≡ true → ⊥
  unfolding is_safe_cleanup is_safe_delete_node
  evicted-node =
      verbs_clash u.wide (delete_pods failed_phase) (delete_node_shape u.wide) command
        (λ ra rb e. omega (arith, ap third_letter e))

  completed-restart :
      is_safe_completed_cleanup u.wide command ≡ true
      → is_safe_rollout_restart u.wide command ≡ true
      → ⊥
  unfolding is_safe_completed_cleanup is_safe_rollout_restart
  completed-restart =
      verbs_clash u.wide (delete_pods succeeded_phase) (restart_shape u.wide) command
        (λ ra rb e. cc)

  completed-scale :
      is_safe_completed_cleanup u.wide command ≡ true
      → is_safe_scale_to_zero u.wide command ≡ true
      → ⊥
  unfolding is_safe_completed_cleanup is_safe_scale_to_zero
  completed-scale =
      verbs_clash u.wide (delete_pods succeeded_phase) (scale_shape u.wide) command (λ ra rb e. cc)

  completed-node :
      is_safe_completed_cleanup u.wide command ≡ true
      → is_safe_delete_node u.wide command ≡ true
      → ⊥
  unfolding is_safe_completed_cleanup is_safe_delete_node
  completed-node =
      verbs_clash u.wide (delete_pods succeeded_phase) (delete_node_shape u.wide) command
        (λ ra rb e. omega (arith, ap third_letter e))

  restart-scale :
      is_safe_rollout_restart u.wide command ≡ true
      → is_safe_scale_to_zero u.wide command ≡ true
      → ⊥
  unfolding is_safe_rollout_restart is_safe_scale_to_zero
  restart-scale =
      verbs_clash u.wide (restart_shape u.wide) (scale_shape u.wide) command (λ ra rb e. cc)

  restart-node :
      is_safe_rollout_restart u.wide command ≡ true → is_safe_delete_node u.wide command ≡ true → ⊥
  unfolding is_safe_rollout_restart is_safe_delete_node
  restart-node =
      verbs_clash u.wide (restart_shape u.wide) (delete_node_shape u.wide) command (λ ra rb e. cc)

  scale-node :
      is_safe_scale_to_zero u.wide command ≡ true → is_safe_delete_node u.wide command ≡ true → ⊥
  unfolding is_safe_scale_to_zero is_safe_delete_node
  scale-node =
      verbs_clash u.wide (scale_shape u.wide) (delete_node_shape u.wide) command (λ ra rb e. cc)

  abbrev Found : CatalogAction → Type 0
  Found a = a.validate command ≡ true → action_for_command u command ≡ some a

  Found-All : All Found (builtin_actions u)
  unfolding action_for_command
  Found-All = (
    λ v. ground (arith, v),
    (
      λ v. ground (arith, v, refuted (is_safe_cleanup u.wide command) (λ p. evicted-completed p v)),
      (
        λ v. ground (
          arith,
          v,
          refuted (is_safe_cleanup u.wide command) (λ p. evicted-restart p v),
          refuted (is_safe_completed_cleanup u.wide command) (λ p. completed-restart p v),
        ),
        (
          λ v. ground (
            arith,
            v,
            refuted (is_safe_cleanup u.wide command) (λ p. evicted-scale p v),
            refuted (is_safe_completed_cleanup u.wide command) (λ p. completed-scale p v),
            refuted (is_safe_rollout_restart u.wide command) (λ p. restart-scale p v),
          ),
          (
            λ v. ground (
              arith,
              v,
              refuted (is_safe_cleanup u.wide command) (λ p. evicted-node p v),
              refuted (is_safe_completed_cleanup u.wide command) (λ p. completed-node p v),
              refuted (is_safe_rollout_restart u.wide command) (λ p. restart-node p v),
              refuted (is_safe_scale_to_zero u.wide command) (λ p. scale-node p v),
            ),
            tt,
          ),
        ),
      ),
    ),
  )

  -- The run-time lookup gives back every entry at the commands that its pattern accepts: no command
  -- is accepted by two entries, so the order of the catalog does not matter.
  pub action_for_command_unique :
      (a : CatalogAction)
      → Memᴰ a (builtin_actions u)
      → a.validate command ≡ true
      → action_for_command u command ≡ some a
  action_for_command_unique a m v = All-mem Found (builtin_actions u) a Found-All m v
