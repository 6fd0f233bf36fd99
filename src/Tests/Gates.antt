-- ===== src/Tests/Gates.antt =====
-- The gates at concrete commands, envelopes and proposals.
use steadystate_ai.Prelude.{
  ◌≤◌, ◌≡◌, ◌↔◌, refl, ◌⊎◌, true, false, ◌&&◌, some, [], ◌∷◌, str_eq, any, keep, length, or_else,
}
use mathlib.Core.List.{Memᴰ}
use steadystate_ai.Prelude.Texts.{
  codes, text_eq, is_space, split, chunks, partition, split_on, strip, drop_space, drop_space_end,
}
use steadystate_ai.Act.Bounds.{
  recoverable, lossless, service, tenant, default_bound, within_bounds, bound_from_env, commas,
  apply_bound_table, apply_bound_tokens, apply_bound_token, apply_bound_split, apply_bound_pair,
  reversibility_by_name, impact_by_name, is_never,
}
use steadystate_ai.Act.Bounds.Settings.{
  last_decision, written, grants, bound_from_env_lem, bound_widening-granted,
}
use steadystate_ai.Act.Kubectl.{
  is_shell_meta, safe_kubectl, after_verb, scan_behind, scan_tokens, scan_start, scan_token,
  scan_end, scan_flag, value_ok, is_positional, is_nsname, name_char,
}
use steadystate_ai.Act.Kubectl.Argv.{blank_only}
use steadystate_ai.Act.Catalog.{
  builtin_actions, action_for_command, reclaim_evicted_pods, is_safe_cleanup,
}
use steadystate_ai.Act.Catalog.Disjoint.{action_for_command_unique}
use steadystate_ai.Act.Decide.{authorized, gate_proposal}
use steadystate_ai.Act.Decide.Gate.{Vetted, gate_proposal-authorized_iff}
use steadystate_ai.Act.Reflex.{Reflex, auto, act, is_act, decide, plan_hold, reflexes}
use steadystate_ai.Act.Reflex.Plan.{Autonomous, decide-act_iff, plan_hold-storm}
use steadystate_ai.Tests.{ascii, reclaim_command, evicted_pods, proposal}

pub reclaim-plain : any is_shell_meta reclaim_command ≡ false
unfolding is_shell_meta
reclaim-plain = refl

pub reclaim-blank : blank_only reclaim_command ≡ true
unfolding is_space
reclaim-blank = refl

pub reclaim-valid : is_safe_cleanup (λ c. false) reclaim_command ≡ true
unfolding safe_kubectl is_shell_meta split after_verb scan_behind scan_tokens scan_start scan_token
    scan_end scan_flag value_ok is_positional partition text_eq chunks is_space is_nsname name_char
    is_safe_cleanup
reclaim-valid = refl

action_for_command_unique_example :
    action_for_command ascii reclaim_command ≡ some (reclaim_evicted_pods ascii)
unfolding builtin_actions
action_for_command_unique_example =
    action_for_command_unique ascii reclaim_command (reclaim_evicted_pods ascii) (Memᴰ.head refl)
      reclaim-valid

bound_from_env_lem_example :
    bound_from_env (λ s. s) [] (codes "recoverable=service") recoverable
    ≡ or_else
        (last_decision (λ s. s) recoverable (written [] (codes "recoverable=service")))
        (default_bound recoverable)
bound_from_env_lem_example =
    bound_from_env_lem (λ s. s) [] (codes "recoverable=service") recoverable

gate_proposal-authorized_iff_example :
    ((gate_proposal ascii default_bound proposal).verdict ≡ authorized)
    ↔ Vetted ascii default_bound proposal
gate_proposal-authorized_iff_example = gate_proposal-authorized_iff ascii default_bound proposal

decide-act_iff_example :
    ((decide ascii
        (λ s. s)
        default_bound
        (λ n. 0)
        (evicted_pods ∷ [])
        (reflexes (codes "reclaim-evicted"))
        evicted_pods).decision
      ≡ act)
    ↔ Autonomous ascii
        (λ s. s)
        default_bound
        (λ n. 0)
        (evicted_pods ∷ [])
        (reflexes (codes "reclaim-evicted"))
        evicted_pods
decide-act_iff_example =
    decide-act_iff ascii (λ s. s) default_bound (λ n. 0) (evicted_pods ∷ [])
      (reflexes (codes "reclaim-evicted")) evicted_pods

abbrev evicted_reflex : Reflex
evicted_reflex = record {
  name = "reclaim-evicted";
  category = "Evicted";
  autonomy = auto;
  max_per_action = 50;
  max_per_tick = 10;
  envelope = record { reversibility = lossless; impact = tenant };
  distrust_after = 3;
}

plan_hold-storm_example :
    length (
      keep
        (λ d. is_act d.decision && str_eq d.category "Evicted")
        (plan_hold ascii
          (λ s. s)
          ((evicted_pods ∷ []) ∷ [])
          (evicted_reflex ∷ [])
          (λ n. 0)
          default_bound))
    ≤ 10
plan_hold-storm_example =
    plan_hold-storm ascii (λ s. s) ((evicted_pods ∷ []) ∷ []) (evicted_reflex ∷ []) (λ n. 0)
      default_bound "Evicted" evicted_reflex refl

bound_widening-granted_example :
    (within_bounds (record { reversibility = recoverable; impact = service }) default_bound ≡ true)
    ⊎ (any
          (grants (λ s. s) (record { reversibility = recoverable; impact = service }))
          (written [] (codes "recoverable=service"))
        ≡ true)
unfolding within_bounds bound_from_env commas apply_bound_table apply_bound_tokens apply_bound_token
    apply_bound_split apply_bound_pair reversibility_by_name impact_by_name is_never text_eq
    split_on strip partition drop_space drop_space_end is_space
bound_widening-granted_example =
    bound_widening-granted (λ s. s) [] (codes "recoverable=service")
      (record { reversibility = recoverable; impact = service }) refl
