-- ===== src/Act/Catalog/Composed.antt =====
-- What the composers of src/steadystate/act/catalog.py build, and what the patterns accept.
use mathlib.Core.List.{Memᴰ}
use steadystate_ai.Prelude.{
  append_assoc, ◌≡◌, refl, ◌∙◌, sym, ap, subst, inl, inr, true, false, not, ◌||◌, some, List, [],
  ◌∷◌, ◌++◌, arith, any, All, All-mem, is_empty, Bool-cases,
}
use steadystate_ai.Prelude.Texts.{Text, codes, text_eq, text_eq_sound, split}
use steadystate_ai.Act.Kubectl.{
  Shape, is_name_behind, is_kind_name, after_prefix, safe_kubectl, is_shell_meta,
}
use steadystate_ai.Act.Kubectl.Argv.{blank_only, shlex_split, shlex_split-split}
use steadystate_ai.Act.Kubectl.Parts.{safe_kubectl-parts}
use steadystate_ai.Act.Catalog.{
  Unicode, CatalogAction, FindingFields, delete_pods, failed_phase, succeeded_phase, restart_shape,
  scale_shape, delete_node_shape, is_safe_cleanup, is_safe_completed_cleanup,
  is_safe_rollout_restart, is_safe_scale_to_zero, is_safe_delete_node, compose_rollout_restart,
  compose_scale_to_zero, restart_kinds, scale_kinds, contains_text, builtin_actions,
  action_for_command,
}
use steadystate_ai.Act.Catalog.Disjoint.{action_for_command_unique}
use steadystate_ai.Act.Catalog.Lines.{is_clean, spaced, line}
use steadystate_ai.Act.Catalog.Flags.{tail_words, tail_flags-spaced, IsPlain}
use steadystate_ai.Act.Catalog.Pods.{Passes, chosen, evicted-accepted, completed-accepted}
use steadystate_ai.Act.Catalog.Workloads.{
  kind_ok, workload, kind_ok-IsWorkload, restart-line, scale-line, node-accepted, name-nsname,
}

contains_text-Mem : (kinds : List Text) (k : Text) → contains_text kinds k ≡ true → Memᴰ k kinds
contains_text-Mem [] k h = absurd (cc)
contains_text-Mem (kind ∷ kinds) k h = elim (Bool-cases (text_eq k kind)) [
  | inl e ↦ Memᴰ.head (text_eq_sound k kind e)
  | inr e ↦ Memᴰ.tail (contains_text-Mem kinds k (ground (arith, h, e)))
]

module _ (u : Unicode) (f : FindingFields) (p : IsPlain u.wide f) where
  abbrev Fits : List Text → Text → Type 0
  Fits kinds kind =
      (kind_ok kind ≡ true) × (is_kind_name u.wide kinds (workload u.wide f p kind) ≡ true)

  restart-Fits : is_empty f.name ≡ false → All (Fits restart_kinds) restart_kinds
  unfolding is_clean after_prefix is_kind_name is_name_behind
  restart-Fits e =
      let named = name-nsname u.wide f p e in
      (
        (refl, ground (arith, named)),
        ((refl, ground (arith, named)), ((refl, ground (arith, named)), tt)),
      )

  scale-Fits : is_empty f.name ≡ false → All (Fits scale_kinds) scale_kinds
  unfolding is_clean after_prefix is_kind_name is_name_behind
  scale-Fits e =
      let named = name-nsname u.wide f p e in
      ((refl, ground (arith, named)), ((refl, ground (arith, named)), tt))

  restart-accepted :
      (c : Text)
      → compose_rollout_restart u.lower f ≡ some c
      → (is_safe_rollout_restart u.wide c ≡ true) × (blank_only c ≡ true)
  unfolding compose_rollout_restart is_safe_rollout_restart line spaced
  restart-accepted c h =
      let kind = u.lower f.kind in
      let known = contains_text restart_kinds kind in
      let (e, same) = chosen (not known || is_empty f.name || is_empty f.namespace) _ c h in
      let named : is_empty f.name ≡ false = ground (arith, e) in
      let fits =
        All-mem (Fits restart_kinds) restart_kinds kind (restart-Fits named)
          (contains_text-Mem restart_kinds kind (ground (arith, e))) in
      subst (Passes u.wide (restart_shape u.wide))
        (ap (λ t. codes "kubectl rollout restart " ++ t)
            (append_assoc kind (codes "/" ++ f.name)
              (spaced (codes "-n" ∷ f.namespace ∷ tail_words f)))
          ∙ ap
              (λ t.
                codes "kubectl rollout restart "
                ++ (kind ++ (codes "/" ++ (f.name ++ (codes " -n " ++ (f.namespace ++ t))))))
              (sym (tail_flags-spaced f))
          ∙ same)
        (restart-line u.wide f p kind (ground (arith, e))
          (kind_ok-IsWorkload u.wide f p named kind fits.0) fits.1)

  scale-accepted :
      (c : Text)
      → compose_scale_to_zero u.lower f ≡ some c
      → (is_safe_scale_to_zero u.wide c ≡ true) × (blank_only c ≡ true)
  unfolding compose_scale_to_zero is_safe_scale_to_zero line spaced
  scale-accepted c h =
      let kind = u.lower f.kind in
      let known = contains_text scale_kinds kind in
      let (e, same) = chosen (not known || is_empty f.name || is_empty f.namespace) _ c h in
      let named : is_empty f.name ≡ false = ground (arith, e) in
      let fits =
        All-mem (Fits scale_kinds) scale_kinds kind (scale-Fits named)
          (contains_text-Mem scale_kinds kind (ground (arith, e))) in
      let rest = codes "--replicas=0" ∷ codes "-n" ∷ f.namespace ∷ tail_words f in
      subst (Passes u.wide (scale_shape u.wide))
        (ap (λ t. codes "kubectl scale " ++ t)
            (append_assoc kind (codes "/" ++ f.name) (spaced rest))
          ∙ ap
              (λ t.
                codes "kubectl scale "
                ++ (kind
                    ++ (codes "/"
                        ++ (f.name ++ (codes " --replicas=0 -n " ++ (f.namespace ++ t))))))
              (sym (tail_flags-spaced f))
          ∙ same)
        (scale-line u.wide f p kind (ground (arith, e))
          (kind_ok-IsWorkload u.wide f p named kind fits.0) fits.1)

  abbrev IsVetted : CatalogAction → Type 0
  IsVetted a = (c : Text) → a.compose f ≡ some c → (a.validate c ≡ true) × (blank_only c ≡ true)

  IsVetted-All : All IsVetted (builtin_actions u)
  unfolding builtin_actions
  IsVetted-All = (
    evicted-accepted u.wide f p,
    (
      completed-accepted u.wide f p,
      (restart-accepted, (scale-accepted, (node-accepted u.wide f p, tt))),
    ),
  )

  plain-gate :
      (shape : Shape) (c : Text) → safe_kubectl u.wide shape c ≡ true → any is_shell_meta c ≡ false
  plain-gate shape c v = (safe_kubectl-parts u.wide shape c v).plain

  -- No pattern of the catalog accepts a character that the shell reads.
  validate-plain :
      (c : Text) → All (λ a. a.validate c ≡ true → any is_shell_meta c ≡ false) (builtin_actions u)
  unfolding builtin_actions is_safe_cleanup is_safe_completed_cleanup is_safe_rollout_restart
      is_safe_scale_to_zero is_safe_delete_node
  validate-plain c = (
    plain-gate (delete_pods failed_phase) c,
    (
      plain-gate (delete_pods succeeded_phase) c,
      (
        plain-gate (restart_shape u.wide) c,
        (plain-gate (scale_shape u.wide) c, (plain-gate (delete_node_shape u.wide) c, tt)),
      ),
    ),
  )

  -- A command that an entry of the catalog composes from the fields of a finding is accepted by the pattern
  -- of that entry, the run-time lookup gives that entry back, and what runs is the list of the words between
  -- its blanks. The name, the namespace, the context and the path of the kubeconfig are each empty or ASCII
  -- characters that the gate takes for such a value, and the name does not begin with a dash.
  pub compose-action_for_command :
      (a : CatalogAction) (c : Text)
      → Memᴰ a (builtin_actions u)
      → a.compose f ≡ some c
      → (a.validate c ≡ true) × (action_for_command u c ≡ some a) × (shlex_split c ≡ some (split c))
  compose-action_for_command a c m h =
      let vetted = All-mem IsVetted (builtin_actions u) a IsVetted-All m c h in
      (
        vetted.0,
        action_for_command_unique u c a m vetted.0,
        shlex_split-split c
            (All-mem (λ b. b.validate c ≡ true → any is_shell_meta c ≡ false) (builtin_actions u) a
              (validate-plain c) m vetted.0)
            vetted.1,
      )
