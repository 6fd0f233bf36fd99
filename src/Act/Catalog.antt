-- ===== src/Act/Catalog.antt =====
-- act/catalog.py: the vetted actions, with the cleanup shape and envelope of act/cleanup.py.
pub mod Disjoint
pub mod Lines
pub mod Flags
pub mod Pods
pub mod Workloads
pub mod Composed
use steadystate_ai.Prelude.{
  ℕ, Bool, true, false, ◌&&◌, ◌||◌, not, Option, none, some, List, [], ◌∷◌, ◌++◌, String, str_eq,
  any, find, is_empty, if◌then◌else◌,
}
use steadystate_ai.Prelude.Texts.{Text, codes, text_eq}
use steadystate_ai.Act.Bounds.{
  Envelope, lossless, self_healing, recoverable, irreversible, service, tenant, node,
}
use steadystate_ai.Act.Kubectl.{
  WideWord, Shape, allowed, needed, forbidden, is_kind_name, is_nsname, safe_kubectl,
}

-- `CLEANUP_ENVELOPE`
abbrev pub cleanup_envelope : Envelope
cleanup_envelope = record { reversibility = lossless; impact = tenant }

-- The deletion of the pods of one phase.
abbrev pub delete_pods : Text → Shape
delete_pods phase = record {
  verb = codes "kubectl" ∷ codes "delete" ∷ codes "pods" ∷ [];
  positional = none;
  required = (codes "--field-selector", phase) ∷ [];
  namespace = allowed;
}

abbrev pub failed_phase : Text
failed_phase = codes "status.phase=Failed"

abbrev pub succeeded_phase : Text
succeeded_phase = codes "status.phase=Succeeded"

abbrev pub restart_kinds : List Text
restart_kinds = codes "deployment" ∷ codes "statefulset" ∷ codes "daemonset" ∷ []

abbrev pub scale_kinds : List Text
scale_kinds = codes "deployment" ∷ codes "statefulset" ∷ []

module _ (wide : WideWord) where
  abbrev pub restart_shape : Shape
  restart_shape = record {
    verb = codes "kubectl" ∷ codes "rollout" ∷ codes "restart" ∷ [];
    positional = some (is_kind_name wide restart_kinds);
    required = [];
    namespace = needed;
  }

  abbrev pub scale_shape : Shape
  scale_shape = record {
    verb = codes "kubectl" ∷ codes "scale" ∷ [];
    positional = some (is_kind_name wide scale_kinds);
    required = (codes "--replicas", codes "0") ∷ [];
    namespace = needed;
  }

  abbrev pub delete_node_shape : Shape
  delete_node_shape = record {
    verb = codes "kubectl" ∷ codes "delete" ∷ codes "node" ∷ [];
    positional = some (is_nsname wide);
    required = [];
    namespace = forbidden;
  }

  unfoldable pub is_safe_cleanup : Text → Bool
  is_safe_cleanup = safe_kubectl wide (delete_pods failed_phase)

  unfoldable pub is_safe_completed_cleanup : Text → Bool
  is_safe_completed_cleanup = safe_kubectl wide (delete_pods succeeded_phase)

  unfoldable pub is_safe_rollout_restart : Text → Bool
  is_safe_rollout_restart = safe_kubectl wide restart_shape

  unfoldable pub is_safe_scale_to_zero : Text → Bool
  is_safe_scale_to_zero = safe_kubectl wide scale_shape

  unfoldable pub is_safe_delete_node : Text → Bool
  is_safe_delete_node = safe_kubectl wide delete_node_shape

pub record FindingFields : Type 0 where
  pub kind : Text
  pub name : Text
  pub namespace : Text
  pub context : Text
  pub kubeconfig : Text

-- `_tail`
unfoldable pub tail_flags : FindingFields → Text
tail_flags f =
    (if is_empty f.context then [] else codes " --context " ++ f.context)
    ++ (if is_empty f.kubeconfig then [] else codes " --kubeconfig " ++ f.kubeconfig)

abbrev pub contains_text : List Text → Text → Bool
contains_text names name = any (text_eq name) names

unfoldable pub compose_evicted : FindingFields → Option Text
unfolding tail_flags
compose_evicted f =
    if is_empty f.namespace
    then none
    else some (
        codes "kubectl delete pods -n "
        ++ (f.namespace ++ (codes " --field-selector=status.phase=Failed" ++ tail_flags f)))

unfoldable pub compose_completed : FindingFields → Option Text
unfolding tail_flags
compose_completed f =
    if is_empty f.namespace
    then none
    else some (
        codes "kubectl delete pods -n "
        ++ (f.namespace ++ (codes " --field-selector=status.phase=Succeeded" ++ tail_flags f)))

unfoldable pub compose_delete_node : FindingFields → Option Text
unfolding tail_flags
compose_delete_node f =
    if is_empty f.name
    then none
    else some (codes "kubectl delete node " ++ (f.name ++ tail_flags f))

-- `lower` is Python's `str.lower`.
module _ (lower : Text → Text) where
  unfoldable pub compose_rollout_restart : FindingFields → Option Text
  unfolding tail_flags text_eq
  compose_rollout_restart f =
      if not (contains_text restart_kinds (lower f.kind)) || is_empty f.name || is_empty f.namespace
      then none
      else some (
          codes "kubectl rollout restart "
          ++ (lower f.kind
              ++ (codes "/" ++ (f.name ++ (codes " -n " ++ (f.namespace ++ tail_flags f))))))

  unfoldable pub compose_scale_to_zero : FindingFields → Option Text
  unfolding tail_flags text_eq
  compose_scale_to_zero f =
      if not (contains_text scale_kinds (lower f.kind)) || is_empty f.name || is_empty f.namespace
      then none
      else some (
          codes "kubectl scale "
          ++ (lower f.kind
              ++ (codes "/"
                  ++ (f.name ++ (codes " --replicas=0 -n " ++ (f.namespace ++ tail_flags f))))))

-- What Python's text methods take from the Unicode database.
pub record Unicode : Type 0 where
  pub wide : WideWord
  pub lower : Text → Text
  pub digit : ℕ → Option ℕ

-- A catalog entry; its description is prose for a reader and is left out.
pub record CatalogAction : Type 0 where
  pub name : String
  pub envelope : Envelope
  pub validate : Text → Bool
  pub categories : List String
  pub compose : FindingFields → Option Text

abbrev pub restart_categories : List String
restart_categories =
    "CrashLoopBackOff" ∷ "ImagePullBackOff" ∷ "ErrImagePull" ∷ "CreateContainerConfigError"
    ∷ "CreateContainerError" ∷ "RunContainerError" ∷ "Erroring" ∷ []

module _ (u : Unicode) where
  abbrev pub reclaim_evicted_pods : CatalogAction
  reclaim_evicted_pods = record {
    name = "reclaim-evicted-pods";
    envelope = cleanup_envelope;
    validate = is_safe_cleanup u.wide;
    categories = "Evicted" ∷ [];
    compose = compose_evicted;
  }

  abbrev pub delete_completed_pods : CatalogAction
  delete_completed_pods = record {
    name = "delete-completed-pods";
    envelope = record { reversibility = lossless; impact = tenant };
    validate = is_safe_completed_cleanup u.wide;
    categories = [];
    compose = compose_completed;
  }

  abbrev pub rollout_restart_workload : CatalogAction
  rollout_restart_workload = record {
    name = "rollout-restart-workload";
    envelope = record { reversibility = self_healing; impact = service };
    validate = is_safe_rollout_restart u.wide;
    categories = restart_categories;
    compose = compose_rollout_restart u.lower;
  }

  abbrev pub scale_to_zero : CatalogAction
  scale_to_zero = record {
    name = "scale-to-zero";
    envelope = record { reversibility = recoverable; impact = service };
    validate = is_safe_scale_to_zero u.wide;
    categories = [];
    compose = compose_scale_to_zero u.lower;
  }

  abbrev pub delete_node : CatalogAction
  delete_node = record {
    name = "delete-node";
    envelope = record { reversibility = irreversible; impact = node };
    validate = is_safe_delete_node u.wide;
    categories = [];
    compose = compose_delete_node;
  }

  -- `_BUILTIN_ACTIONS`, and the values of `ACTIONS` in their order
  unfoldable pub builtin_actions : List CatalogAction
  builtin_actions =
      reclaim_evicted_pods ∷ delete_completed_pods ∷ rollout_restart_workload ∷ scale_to_zero
      ∷ delete_node ∷ []

  unfoldable pub catalog_action : String → Option CatalogAction
  unfolding builtin_actions
  catalog_action name = find (λ a. str_eq a.name name) builtin_actions

  unfoldable pub offered_action : String → Option CatalogAction
  unfolding builtin_actions
  offered_action category = find (λ a. any (str_eq category) a.categories) builtin_actions

  unfoldable pub action_for_command : Text → Option CatalogAction
  unfolding builtin_actions
  action_for_command command = find (λ a. a.validate command) builtin_actions
