-- ===== src/Act/Catalog/Workloads.antt =====
-- The commands on nodes and workloads that src/steadystate/act/catalog.py composes, and the gate.
use steadystate_ai.Prelude.{
  ℕ, ◌==◌, ◌≡◌, refl, ◌∙◌, sym, ap, subst, Bool, true, false, not, ◌&&◌, none, some, List, [], ◌∷◌,
  ◌++◌, head?, ltb, arith, all, is_empty, and-left, and-right,
}
use steadystate_ai.Prelude.Texts.{Text, codes, text_eq, partition}
use steadystate_ai.Act.Kubectl.{
  WideWord, Shape, Scan, name_char, is_nsname, is_kind_name, required_value, always_allowed,
  scan_flag, scan_token, scan_tokens, scan_end, scan_start, after_verb, after_prefix, starts_with,
  is_positional,
}
use steadystate_ai.Act.Kubectl.Argv.{blank_only}
use steadystate_ai.Act.Catalog.{
  FindingFields, restart_shape, scale_shape, delete_node_shape, is_safe_delete_node,
  compose_delete_node, restart_kinds, scale_kinds,
}
use steadystate_ai.Act.Catalog.Lines.{
  is_clean, IsWord, spaced, line, plain, class_plus_end-plain, plain-IsWord, partition-plain,
  name-narrow,
}
use steadystate_ai.Act.Catalog.Flags.{
  tail_words, tail_flags-spaced, IsPlain, tail_words-IsWord, scan_tokens-one, scan-tail_words,
  scan_token-positional,
}
use steadystate_ai.Act.Catalog.Pods.{
  Passes, line-Passes, chosen, namespace-IsWord, name-plain, scan-namespace,
}

-- What does not begin with a dash is no flag.
no_flag : (s : Text) → not (starts_with s (codes "-")) ≡ true → always_allowed s ≡ false
unfolding starts_with after_prefix text_eq
no_flag [] h = refl
no_flag (c ∷ s) h = ground (arith, h)

abbrev kind_char : ℕ → Bool
kind_char c = is_clean c && not (c == 61)

-- A kind: it does not begin with a dash, and none of its characters ends a word or a key.
abbrev pub kind_ok : Text → Bool
kind_ok [] = false
kind_ok (c ∷ s) = not (c == 45) && all kind_char (c ∷ s)

clean-append :
    (s r : Text) → all kind_char s ≡ true → all is_clean r ≡ true → all is_clean (s ++ r) ≡ true
clean-append [] r h k = k
clean-append (c ∷ s) r h k =
    ground (arith, h, clean-append s r (and-right (kind_char c) (all kind_char s) h) k)

partition-append :
    (s r : Text)
    → all kind_char s ≡ true
    → partition 61 r ≡ (r, none)
    → partition 61 (s ++ r) ≡ (s ++ r, none)
unfolding partition
partition-append [] r h e = e
partition-append (c ∷ s) r h e =
    ground (arith, h, partition-append s r (and-right (kind_char c) (all kind_char s) h) e)

slash-clean : (s : Text) → all is_clean s ≡ true → all is_clean (codes "/" ++ s) ≡ true
unfolding is_clean
slash-clean s h = h

slash-partition :
    (s : Text) → partition 61 s ≡ (s, none) → partition 61 (codes "/" ++ s) ≡ (codes "/" ++ s, none)
unfolding partition
slash-partition s e = rw e refl

letter-ahead :
    (c : ℕ) (s : Text) → not (c == 45) ≡ true → not (starts_with (c ∷ s) (codes "-")) ≡ true
unfolding starts_with after_prefix
letter-ahead c s h = ground (arith, h)

letter-replicas :
    (c : ℕ) (s : Text) → not (c == 45) ≡ true → text_eq (c ∷ s) (codes "--replicas") ≡ false
unfolding text_eq
letter-replicas c s h = ground (arith, h)

module _ (wide : WideWord) (f : FindingFields) (p : IsPlain wide f) where
  name-word : is_empty f.name ≡ false → plain (name_char wide) f.name ≡ true
  name-word e =
      and-left (plain (name_char wide) f.name) (not (starts_with f.name (codes "-")))
        (name-plain wide f p e)

  name-ahead : is_empty f.name ≡ false → not (starts_with f.name (codes "-")) ≡ true
  name-ahead e =
      and-right (plain (name_char wide) f.name) (not (starts_with f.name (codes "-")))
        (name-plain wide f p e)

  pub name-nsname : is_empty f.name ≡ false → is_nsname wide f.name ≡ true
  unfolding is_nsname
  name-nsname e = class_plus_end-plain (name_char wide) f.name (name-word e)

  name-partition : is_empty f.name ≡ false → partition 61 f.name ≡ (f.name, none)
  name-partition e = partition-plain wide (name_char wide) (name-narrow wide) f.name (
      and-right (not (is_empty f.name)) (all (λ c. ltb c 128 && name_char wide c) f.name)
        (name-word e))

  pub node-accepted :
      (c : Text)
      → compose_delete_node f ≡ some c
      → (is_safe_delete_node wide c ≡ true) × (blank_only c ≡ true)
  unfolding is_positional compose_delete_node is_safe_delete_node line spaced is_clean after_verb
      text_eq scan_start scan_end
  node-accepted c h =
      let shape = delete_node_shape wide in
      let st = scan_start shape in
      let (e, same) = chosen (is_empty f.name) _ c h in
      subst (Passes wide shape)
        (ap (λ t. codes "kubectl delete node " ++ (f.name ++ t)) (sym (tail_flags-spaced f)) ∙ same)
        (line-Passes wide shape
          (codes "kubectl" ∷ codes "delete" ∷ codes "node" ∷ f.name ∷ tail_words f)
          (f.name ∷ tail_words f)
          (
            refl,
            (
              refl,
              (
                refl,
                (
                  plain-IsWord wide (name_char wide) (name-narrow wide) f.name (name-word e),
                  tail_words-IsWord wide f p,
                ),
              ),
            ),
          )
          refl
          (scan_tokens-one wide shape st (record st { got_positional = true }) f.name (tail_words f)
              (scan_token-positional wide shape st f.name (head? (tail_words f)) (name-partition e)
                refl (no_flag f.name (name-ahead e)) (ground (arith, name-ahead e, name-nsname e)))
            ∙ scan-tail_words wide shape (record st { got_positional = true }) f refl refl p))

  -- A workload, as its kind and its name.
  abbrev pub workload : Text → Text
  workload kind = kind ++ (codes "/" ++ f.name)

  name-clean : is_empty f.name ≡ false → all is_clean f.name ≡ true
  name-clean e =
      and-right (not (is_empty f.name)) (all is_clean f.name)
        (plain-IsWord wide (name_char wide) (name-narrow wide) f.name (name-word e))

  -- What the gate reads of a workload.
  pub record IsWorkload (kind : Text) : Type 0 where
    word : IsWord (workload kind)
    whole : partition 61 (workload kind) ≡ (workload kind, none)
    ahead : not (starts_with (workload kind) (codes "-")) ≡ true
    no_replicas : text_eq (workload kind) (codes "--replicas") ≡ false

  pub kind_ok-IsWorkload :
      is_empty f.name ≡ false → (kind : Text) → kind_ok kind ≡ true → IsWorkload kind
  kind_ok-IsWorkload e [] h = absurd (cc)
  kind_ok-IsWorkload e (c ∷ s) h = record {
    word =
        clean-append (c ∷ s) (codes "/" ++ f.name)
          (and-right (not (c == 45)) (all kind_char (c ∷ s)) h) (slash-clean f.name (name-clean e));
    whole =
        partition-append (c ∷ s) (codes "/" ++ f.name)
          (and-right (not (c == 45)) (all kind_char (c ∷ s)) h)
          (slash-partition f.name (name-partition e));
    ahead =
        letter-ahead c (s ++ (codes "/" ++ f.name))
          (and-left (not (c == 45)) (all kind_char (c ∷ s)) h);
    no_replicas =
        letter-replicas c (s ++ (codes "/" ++ f.name))
          (and-left (not (c == 45)) (all kind_char (c ∷ s)) h);
  }

  -- The workload is read as the positional token.
  scan-workload :
      (shape : Shape) (kinds : List Text) (st : Scan) (kind : Text) (rest : List Text)
      → shape.positional ≡ some (is_kind_name wide kinds)
      → st.got_positional ≡ false
      → required_value shape.required (workload kind) ≡ none
      → IsWorkload kind
      → is_kind_name wide kinds (workload kind) ≡ true
      → scan_tokens wide shape st false (workload kind ∷ rest)
        ≡ scan_tokens wide shape (record st { got_positional = true }) false rest
  unfolding is_positional
  scan-workload shape kinds st kind rest s g r w m =
      scan_tokens-one wide shape st (record st { got_positional = true }) (workload kind) rest
        (scan_token-positional wide shape st (workload kind) (head? rest) w.whole r
          (no_flag (workload kind) w.ahead) (rw s (ground (arith, g, w.ahead, m))))

  pub restart-line :
      (kind : Text)
      → is_empty f.namespace ≡ false
      → IsWorkload kind
      → is_kind_name wide restart_kinds (workload kind) ≡ true
      → Passes wide (restart_shape wide) (
          line (
            codes "kubectl"
            ∷ codes "rollout"
            ∷ codes "restart"
            ∷ workload kind
            ∷ codes "-n"
            ∷ f.namespace
            ∷ tail_words f))
  unfolding is_clean after_verb text_eq scan_start scan_end
  restart-line kind e w m =
      let shape = restart_shape wide in
      let st = record (scan_start shape) { got_positional = true } in
      line-Passes wide shape _ (workload kind ∷ codes "-n" ∷ f.namespace ∷ tail_words f)
        (
          refl,
          (
            refl,
            (refl, (w.word, (refl, (namespace-IsWord wide f p e, tail_words-IsWord wide f p)))),
          ),
        )
        refl
        (scan-workload shape restart_kinds (scan_start shape) kind
            (codes "-n" ∷ f.namespace ∷ tail_words f) refl refl refl w m
          ∙ scan-namespace wide f p shape st (tail_words f) refl e
          ∙ scan-tail_words wide shape (record st { seen_ns = true }) f refl refl p)

  pub scale-line :
      (kind : Text)
      → is_empty f.namespace ≡ false
      → IsWorkload kind
      → is_kind_name wide scale_kinds (workload kind) ≡ true
      → Passes wide (scale_shape wide) (
          line (
            codes "kubectl"
            ∷ codes "scale"
            ∷ workload kind
            ∷ codes "--replicas=0"
            ∷ codes "-n"
            ∷ f.namespace
            ∷ tail_words f))
  unfolding is_clean after_verb text_eq scan_start scan_end scan_token scan_flag partition
  scale-line kind e w m =
      let shape = scale_shape wide in
      let st = record (scan_start shape) { got_positional = true } in
      let scaled = record st { seen_required = codes "--replicas" ∷ [] } in
      let rest = codes "-n" ∷ f.namespace ∷ tail_words f in
      line-Passes wide shape _ (workload kind ∷ codes "--replicas=0" ∷ rest)
        (
          refl,
          (
            refl,
            (w.word, (refl, (refl, (namespace-IsWord wide f p e, tail_words-IsWord wide f p)))),
          ),
        )
        refl
        (scan-workload shape scale_kinds (scan_start shape) kind (codes "--replicas=0" ∷ rest) refl
            refl (rw w.no_replicas refl) w m
          ∙ scan_tokens-one wide shape st scaled (codes "--replicas=0") rest refl
          ∙ scan-namespace wide f p shape scaled (tail_words f) refl e
          ∙ scan-tail_words wide shape (record scaled { seen_ns = true }) f refl refl p)
