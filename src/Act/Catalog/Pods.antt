-- ===== src/Act/Catalog/Pods.antt =====
-- The commands on pods that src/steadystate/act/catalog.py composes, and the gate.
use mathlib.Core.Option.{some-injective}
use steadystate_ai.Prelude.{
  ◌≡◌, refl, ◌∙◌, sym, ap, subst, Bool, true, false, not, ◌&&◌, ◌||◌, Option, none, some, List, [],
  ◌∷◌, ◌++◌, head?, arith, All, is_empty, if◌then◌else◌,
}
use steadystate_ai.Prelude.Texts.{Text, codes, text_eq, partition}
use steadystate_ai.Act.Kubectl.{
  WideWord, Shape, Scan, name_char, is_nsname, value_ok, required_value, scan_flag, scan_token,
  scan_tokens, scan_end, scan_start, after_verb, starts_with, safe_kubectl,
}
use steadystate_ai.Act.Kubectl.Argv.{blank_only}
use steadystate_ai.Act.Kubectl.Parts.{safe_kubectl-build}
use steadystate_ai.Act.Catalog.{
  FindingFields, delete_pods, failed_phase, succeeded_phase, is_safe_cleanup,
  is_safe_completed_cleanup, compose_evicted, compose_completed,
}
use steadystate_ai.Act.Catalog.Lines.{
  is_clean, IsWord, spaced, line, split-line, meta-line, blank-line, plain, class_plus_end-plain,
  plain-IsWord, name-narrow,
}
use steadystate_ai.Act.Catalog.Flags.{
  tail_words, tail_flags-spaced, IsPlain, tail_words-IsWord, scan_tokens-two, scan_tokens-one,
  scan_flag-allowed, scan-tail_words,
}

-- A command that the pattern accepts, and whose white space is blanks.
abbrev pub Passes : WideWord → Shape → Text → Type 0
Passes wide shape command = (safe_kubectl wide shape command ≡ true) × (blank_only command ≡ true)

-- A line of words whose verb is the pattern's, and that the loop accepts.
pub line-Passes :
    (wide : WideWord) (shape : Shape) (words rest : List Text)
    → All IsWord words
    → after_verb shape.verb words ≡ some rest
    → scan_tokens wide shape (scan_start shape) false rest ≡ true
    → Passes wide shape (line words)
line-Passes wide shape words rest w v h = (
  safe_kubectl-build wide shape (line words) (record {
    plain = meta-line words w;
    rest = rest;
    behind = ap (after_verb shape.verb) (split-line words w) ∙ v;
    scanned = h;
  }),
  blank-line words w,
)

-- A composer's test.
pub chosen : (b : Bool) (t c : Text) → (if b then none else some t) ≡ some c → (b ≡ false) × (t ≡ c)
chosen true t c h = absurd (cc)
chosen false t c h = (refl, some-injective t c h)

pub filled : (v : Text) (b : Bool) → is_empty v ≡ false → (is_empty v || b) ≡ true → b ≡ true
filled v b e h = ground (arith, e, h)

module _ (wide : WideWord) (f : FindingFields) (p : IsPlain wide f) where
  namespace-plain : is_empty f.namespace ≡ false → plain (name_char wide) f.namespace ≡ true
  namespace-plain e = filled f.namespace (plain (name_char wide) f.namespace) e p.namespace

  pub namespace-IsWord : is_empty f.namespace ≡ false → IsWord f.namespace
  namespace-IsWord e =
      plain-IsWord wide (name_char wide) (name-narrow wide) f.namespace (namespace-plain e)

  namespace-ok : is_empty f.namespace ≡ false → value_ok wide (codes "-n") (some f.namespace) ≡ true
  unfolding value_ok text_eq is_nsname
  namespace-ok e = class_plus_end-plain (name_char wide) f.namespace (namespace-plain e)

  pub name-plain :
      is_empty f.name ≡ false
      → (plain (name_char wide) f.name && not (starts_with f.name (codes "-"))) ≡ true
  name-plain e =
      filled f.name (plain (name_char wide) f.name && not (starts_with f.name (codes "-"))) e p.name

  -- The namespace, as a flag and its value.
  pub scan-namespace :
      (shape : Shape) (st : Scan) (rest : List Text)
      → required_value shape.required (codes "-n") ≡ none
      → is_empty f.namespace ≡ false
      → scan_tokens wide shape st false (codes "-n" ∷ f.namespace ∷ rest)
        ≡ scan_tokens wide shape (record st { seen_ns = st.seen_ns || true }) false rest
  unfolding scan_token partition text_eq
  scan-namespace shape st rest r e =
      scan_tokens-two wide shape st (record st { seen_ns = st.seen_ns || true }) (codes "-n")
        f.namespace rest
        (scan_flag-allowed wide shape st (codes "-n") (codes "-n") f.namespace r refl
          (namespace-ok e))

  module _ (phase selector : Text) where
    abbrev pod_words : List Text
    pod_words =
        codes "kubectl"
        ∷ codes "delete"
        ∷ codes "pods"
        ∷ codes "-n"
        ∷ f.namespace
        ∷ selector
        ∷ tail_words f

    pods-Passes :
        IsWord selector
        → is_empty f.namespace ≡ false
        → ((st : Scan) (next : Option Text)
            → scan_token wide (delete_pods phase) st selector next
              ≡ some (
                record st { seen_required = codes "--field-selector" ∷ st.seen_required },
                false,
              ))
        → Passes wide (delete_pods phase) (line pod_words)
    unfolding is_clean after_verb text_eq scan_start scan_end
    pods-Passes w e h =
        let shape = delete_pods phase in
        let st = record (scan_start shape) { seen_ns = true } in
        let after = record st { seen_required = codes "--field-selector" ∷ [] } in
        line-Passes wide shape pod_words (codes "-n" ∷ f.namespace ∷ selector ∷ tail_words f)
          (refl, (refl, (refl, (refl, (namespace-IsWord e, (w, tail_words-IsWord wide f p)))))) refl
          (scan-namespace shape (scan_start shape) (selector ∷ tail_words f) refl e
            ∙ scan_tokens-one wide shape st after selector (tail_words f)
                (h st (head? (tail_words f)))
            ∙ scan-tail_words wide shape after f refl refl p)

  pub evicted-accepted :
      (c : Text)
      → compose_evicted f ≡ some c
      → (is_safe_cleanup wide c ≡ true) × (blank_only c ≡ true)
  unfolding compose_evicted is_safe_cleanup line spaced is_clean scan_token scan_flag partition
      text_eq
  evicted-accepted c h =
      let selector = codes "--field-selector=status.phase=Failed" in
      let (e, same) = chosen (is_empty f.namespace) _ c h in
      subst (Passes wide (delete_pods failed_phase))
        (ap
            (λ t.
              codes "kubectl delete pods -n "
              ++ (f.namespace ++ (codes " --field-selector=status.phase=Failed" ++ t)))
            (sym (tail_flags-spaced f))
          ∙ same)
        (pods-Passes failed_phase selector refl e (λ st next. refl))

  pub completed-accepted :
      (c : Text)
      → compose_completed f ≡ some c
      → (is_safe_completed_cleanup wide c ≡ true) × (blank_only c ≡ true)
  unfolding compose_completed is_safe_completed_cleanup line spaced is_clean scan_token scan_flag
      partition text_eq
  completed-accepted c h =
      let selector = codes "--field-selector=status.phase=Succeeded" in
      let (e, same) = chosen (is_empty f.namespace) _ c h in
      subst (Passes wide (delete_pods succeeded_phase))
        (ap
            (λ t.
              codes "kubectl delete pods -n "
              ++ (f.namespace ++ (codes " --field-selector=status.phase=Succeeded" ++ t)))
            (sym (tail_flags-spaced f))
          ∙ same)
        (pods-Passes succeeded_phase selector refl e (λ st next. refl))
