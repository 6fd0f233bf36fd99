-- ===== src/Tests/Commands.antt =====
-- Commands that are composed, scanned and read, at concrete values.
use mathlib.Core.List.{Memᴰ}
use steadystate_ai.Prelude.{◌≡◌, ◌⊎◌, ◌∷◌, refl, true, false, some, []}
use steadystate_ai.Prelude.Texts.{Text, codes, text_eq, split, chunks, is_space}
use steadystate_ai.Prelude.Strings.{words, chunks_text}
use steadystate_ai.Act.Kubectl.{
  safe_kubectl, is_word, name_char, context_char, kubeconfig_char, starts_with, after_prefix,
}
use steadystate_ai.Act.Kubectl.Argv.{shlex_split}
use steadystate_ai.Act.Kubectl.Loop.{safe_kubectl_loop, safe_kubectl_loop-ends}
use steadystate_ai.Act.Catalog.{
  FindingFields, tail_flags, delete_pods, failed_phase, builtin_actions, action_for_command,
  rollout_restart_workload, compose_rollout_restart,
}
use steadystate_ai.Act.Catalog.Flags.{IsPlain}
use steadystate_ai.Act.Catalog.Composed.{compose-action_for_command}
use steadystate_ai.Inbound.Grammar.{
  tool_args, Command, typed, snooze, verb_named, command_from_text, read_tokens,
}
use steadystate_ai.Inbound.Grammar.Shaped.{supplied, dropped, command_from_text-carries}
use steadystate_ai.Tests.{ascii, reclaim_command}

safe_kubectl_loop-ends_example :
    safe_kubectl_loop (λ c. false) (delete_pods failed_phase) 7 reclaim_command
    ≡ some (safe_kubectl (λ c. false) (delete_pods failed_phase) reclaim_command)
unfolding split chunks is_space
safe_kubectl_loop-ends_example =
    safe_kubectl_loop-ends (λ c. false) (delete_pods failed_phase) reclaim_command 7 refl

abbrev crash_looping : FindingFields
crash_looping = record {
  kind = codes "deployment";
  name = codes "web";
  namespace = codes "prod";
  context = codes "kind-a";
  kubeconfig = [];
}

crash_looping-IsPlain : IsPlain ascii.wide crash_looping
unfolding kubeconfig_char context_char name_char is_word starts_with after_prefix
crash_looping-IsPlain = record { name = refl; namespace = refl; context = refl; kubeconfig = refl }

abbrev restart_web : Text
restart_web = codes "kubectl rollout restart deployment/web -n prod --context kind-a"

compose-action_for_command_example :
    ((rollout_restart_workload ascii).validate restart_web ≡ true)
    × (action_for_command ascii restart_web ≡ some (rollout_restart_workload ascii))
    × (shlex_split restart_web ≡ some (split restart_web))
unfolding builtin_actions compose_rollout_restart tail_flags text_eq
compose-action_for_command_example =
    compose-action_for_command ascii crash_looping crash_looping-IsPlain
      (rollout_restart_workload ascii) restart_web (Memᴰ.tail (Memᴰ.tail (Memᴰ.head refl))) refl

abbrev snooze_typed : Command
snooze_typed = typed (λ s. s) "alice" snooze "f1" [] "2h"

snooze_read : command_from_text (λ s. s) "alice" "please snooze f1 2h" ≡ some snooze_typed
unfolding command_from_text read_tokens verb_named words chunks_text is_space
snooze_read = refl

command_from_text-carries_example :
    (supplied (tool_args snooze_typed.verb) (snooze_typed.argument ∷ snooze_typed.argument2 ∷ [])
      ≡ true)
    ⊎ (Memᴰ snooze_typed.verb dropped × (snooze_typed.argument ≡ ""))
command_from_text-carries_example =
    command_from_text-carries (λ s. s) "alice" "please snooze f1 2h" snooze_typed snooze_read
