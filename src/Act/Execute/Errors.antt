-- ===== src/Act/Execute/Errors.antt =====
-- When a runner raises (src/steadystate/act/execute.py, cleanup.py).
use steadystate_ai.Prelude.{
  ◌≡◌, ◌↔◌, refl, inl, inr, Bool, true, false, none, some, List, [], ◌∷◌, ◌++◌, arith, any, is_some,
  ◌||◌, Bool-cases, String, find-Mem, All, All-mem, Option-cases,
}
use steadystate_ai.Prelude.Texts.{Text}
use steadystate_ai.State.Pending.{PendingAction}
use steadystate_ai.Act.Kubectl.{is_shell_meta}
use steadystate_ai.Act.Kubectl.Parts.{safe_kubectl-parts}
use steadystate_ai.Act.Kubectl.Argv.{between, in_word, lex, shlex_split, no_quoting}
use steadystate_ai.Act.Catalog.{
  Unicode, CatalogAction, builtin_actions, action_for_command, is_safe_cleanup,
  is_safe_completed_cleanup, is_safe_rollout_restart, is_safe_scale_to_zero, is_safe_delete_node,
}
use steadystate_ai.Act.Host.{
  Host, World, raised, log_event, command, RemediationPlan, Process, exited, not_run, undecoded,
}
use steadystate_ai.Act.Execute.{
  run_catalog_action, run_cleanup, process_reply, catalog_plan, cleanup_plan,
}
use steadystate_ai.Act.Bounds.{within_bounds, default_bound}
use steadystate_ai.Act.Execute.Gated.{action_for_command-valid}

-- A text with no shell character has no quote and no backslash, so the lexer reads it.
lexes :
    (s : Text)
    → any is_shell_meta s ≡ false
    → (is_some (lex between [] s) ≡ true) × ((token : Text) → is_some (lex in_word token s) ≡ true)
unfolding lex
lexes [] n = (refl, λ token. refl)
lexes (c ∷ s) n =
    let rest = lexes s (ground (arith, n)) in
    let plain = no_quoting c (ground (arith, n)) in
    (
      ground (arith, plain, rest.0, rest.1 (c ∷ [])),
      λ token. ground (arith, plain, rest.0, rest.1 (token ++ (c ∷ []))),
    )

shlex_split-some :
    (s : Text) → any is_shell_meta s ≡ false → (argv : List Text) × (shlex_split s ≡ some argv)
unfolding shlex_split
shlex_split-some s n = elim (Option-cases (lex between [] s)) [
  | inl e ↦ absurd (ground (arith, e, (lexes s n).0))
  | inr r ↦ r
]

Plain : CatalogAction → Type 0
Plain a = (s : Text) → a.validate s ≡ true → any is_shell_meta s ≡ false

All-Plain : (u : Unicode) → All Plain (builtin_actions u)
unfolding Plain builtin_actions is_safe_cleanup is_safe_completed_cleanup is_safe_rollout_restart
    is_safe_scale_to_zero is_safe_delete_node
All-Plain u = (
  (λ s v. (safe_kubectl-parts u.wide _ s v).plain),
  (
    (λ s v. (safe_kubectl-parts u.wide _ s v).plain),
    (
      (λ s v. (safe_kubectl-parts u.wide _ s v).plain),
      (
        (λ s v. (safe_kubectl-parts u.wide _ s v).plain),
        ((λ s v. (safe_kubectl-parts u.wide _ s v).plain), tt),
      ),
    ),
  ),
)

recognized-some :
    (u : Unicode) (text : Text) (a : CatalogAction)
    → action_for_command u text ≡ some a
    → (argv : List Text) × (shlex_split text ≡ some argv)
unfolding Plain action_for_command
recognized-some u text a f = shlex_split-some text (
    All-mem Plain (builtin_actions u) a (All-Plain u)
      (find-Mem (λ b. b.validate text) (builtin_actions u) a f) text
      (action_for_command-valid u text a f))

process_reply_iff :
    (plan : RemediationPlan) (name : String) (verified : Bool) (proc : Process) (w : World)
    → ((process_reply plan name verified proc w).0 ≡ raised)
      ↔ ((message : Text) × (proc ≡ undecoded message))
unfolding process_reply
process_reply_iff plan name verified (exited code out err) w =
    (λ h. absurd (cc), λ (message, e). absurd (cc))
process_reply_iff plan name verified (not_run said) w =
    (λ h. absurd (cc), λ (message, e). absurd (cc))
process_reply_iff plan name verified (undecoded said) w = ((λ h. (said, refl)), λ _. refl)

module _ {P : Type 0} (host : Host P) (action : PendingAction) where
  -- The stored command splits into these arguments, and what they run fails with a `ValueError`.
  pub record Undecoded (w : World) (argv : List Text) : Type 0 where
    pub split : shlex_split action.command ≡ some argv
    pub message : Text
    pub reply : host.subprocess w.ran argv ≡ undecoded message

  -- A catalog entry that may run, with such a process.
  pub record CatalogRaise (override : Bool) (w : World) : Type 0 where
    pub entry : CatalogAction
    pub found : action_for_command host.unicode action.command ≡ some entry
    pub in_bound : (override || within_bounds entry.envelope default_bound) ≡ true
    pub argv : List Text
    pub process : Undecoded w argv

  -- A stored command that shlex refuses, or one that the gate accepts, with such a process.
  pub data CleanupRaise (w : World) : Type 0 where
    refused : shlex_split action.command ≡ none → CleanupRaise w
    accepted :
        (argv : List Text)
        → is_safe_cleanup host.unicode.wide action.command ≡ true
        → Undecoded w argv
        → CleanupRaise w

  catalog-raised :
      (override : Bool) (w : World)
      → (run_catalog_action host action override w).0 ≡ raised
      → CatalogRaise override w
  unfolding run_catalog_action
  catalog-raised override w h =
      elim (Option-cases (action_for_command host.unicode action.command)) [
        | inl e ↦ absurd (ground (arith, e, h))
        | inr (a, f) ↦
            let (argv, s) = recognized-some host.unicode action.command a f in
            elim (Bool-cases (override || within_bounds a.envelope default_bound)) [
              | inl b ↦
                  let (message, reply) =
                    (process_reply_iff (catalog_plan action (some a) argv) a.name true
                        (host.subprocess w.ran argv) (log_event (command argv) w)).0
                      (ground (arith, f, s, b, h)) in
                  record {
                    entry = a;
                    found = f;
                    in_bound = b;
                    argv = argv;
                    process = record { split = s; message = message; reply = reply };
                  }
              | inr b ↦ absurd (ground (arith, f, s, b, h))
            ]
      ]

  raised-catalog :
      (override : Bool) (w : World)
      → CatalogRaise override w
      → (run_catalog_action host action override w).0 ≡ raised
  unfolding run_catalog_action
  raised-catalog override w r =
      let reply =
        (process_reply_iff (catalog_plan action (some r.entry) r.argv) r.entry.name true
            (host.subprocess w.ran r.argv) (log_event (command r.argv) w)).1
          (r.process.message, r.process.reply) in
      ground (arith, r.found, r.process.split, r.in_bound, reply)

  cleanup-raised : (w : World) → (run_cleanup host action w).0 ≡ raised → CleanupRaise w
  unfolding run_cleanup
  cleanup-raised w h = elim (Option-cases (shlex_split action.command)) [
    | inl e ↦ refused e
    | inr (argv, e) ↦ elim (Bool-cases (is_safe_cleanup host.unicode.wide action.command)) [
      | inl ok ↦
          let (message, reply) =
            (process_reply_iff (cleanup_plan action argv) "evicted-pod cleanup" true
                (host.subprocess w.ran argv) (log_event (command argv) w)).0
              (ground (arith, e, ok, h)) in
          accepted argv ok (record { split = e; message = message; reply = reply })
      | inr no_match ↦ absurd (ground (arith, e, no_match, h))
    ]
  ]

  raised-cleanup : (w : World) → CleanupRaise w → (run_cleanup host action w).0 ≡ raised
  unfolding run_cleanup
  raised-cleanup w (refused e) = ground (arith, e)
  raised-cleanup w (accepted argv ok r) =
      let reply =
        (process_reply_iff (cleanup_plan action argv) "evicted-pod cleanup" true
            (host.subprocess w.ran argv) (log_event (command argv) w)).1
          (r.message, r.reply) in
      ground (arith, r.split, ok, reply)

  -- `run_catalog_action` raises exactly where a catalog entry accepts the stored command, the bound
  -- lets it run or is overridden, and the process fails with a `ValueError`, as for an output that
  -- cannot be decoded. `run_cleanup` raises exactly where the gate accepts the command and the process
  -- fails so, or where shlex refuses the stored command, which is read before the gate looks at it.
  pub runners-raised :
      (override : Bool) (w : World)
      → (((run_catalog_action host action override w).0 ≡ raised) ↔ CatalogRaise override w)
        × (((run_cleanup host action w).0 ≡ raised) ↔ CleanupRaise w)
  runners-raised override w =
      ((catalog-raised override w, raised-catalog override w), (cleanup-raised w, raised-cleanup w))
