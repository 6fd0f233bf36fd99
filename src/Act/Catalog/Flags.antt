-- ===== src/Act/Catalog/Flags.antt =====
-- The flags that a composed command may end with (`_tail` of src/steadystate/act/catalog.py), and how the
-- gate passes over them.
use steadystate_ai.Prelude.{
  ℕ, ◌≡◌, refl, ◌∙◌, sym, ap, Bool, true, false, not, ◌&&◌, ◌||◌, Option, none, some, List, [], ◌∷◌,
  ◌++◌, append-nil, head?, arith, All, All-append, is_empty, if◌then◌else◌,
}
use steadystate_ai.Prelude.Texts.{Text, codes, text_eq, partition}
use steadystate_ai.Act.Kubectl.{
  WideWord, Shape, Scan, name_char, context_char, kubeconfig_char, is_context_val,
  is_kubeconfig_val, value_ok, required_value, namespace_flag, always_allowed, scan_flag,
  scan_token, scan_tokens, scan_end, starts_with, is_positional,
}
use steadystate_ai.Act.Catalog.{FindingFields, tail_flags}
use steadystate_ai.Act.Catalog.Lines.{
  is_clean, IsWord, spaced, plain, class_plus_end-plain, plain-IsWord, context-narrow,
}

-- The words of a flag that is left out where its value is empty.
abbrev pub flag_words : Text → Text → List Text
flag_words flag [] = []
flag_words flag (c ∷ s) = flag ∷ (c ∷ s) ∷ []

abbrev pub tail_words : FindingFields → List Text
tail_words f =
    flag_words (codes "--context") f.context ++ flag_words (codes "--kubeconfig") f.kubeconfig

pub tail_flags-spaced : (f : FindingFields) → tail_flags f ≡ spaced (tail_words f)
unfolding tail_flags spaced
tail_flags-spaced f = both f.context f.kubeconfig
  where
    both :
        (c k : Text)
        → (if is_empty c then [] else codes " --context " ++ c)
            ++ (if is_empty k then [] else codes " --kubeconfig " ++ k)
          ≡ spaced (flag_words (codes "--context") c ++ flag_words (codes "--kubeconfig") k)
    both [] [] = refl
    both [] (b ∷ k) = ap (λ s. codes " --kubeconfig " ++ s) (sym (append-nil (b ∷ k)))
    both (a ∷ c) [] = ap (λ s. codes " --context " ++ s) refl
    both (a ∷ c) (b ∷ k) =
        ap (λ s. codes " --context " ++ ((a ∷ c) ++ (codes " --kubeconfig " ++ s)))
          (sym (append-nil (b ∷ k)))

-- Where the values of a finding are ones that a Kubernetes object and a kubeconfig can have.
pub record IsPlain (wide : WideWord) (f : FindingFields) : Type 0 where
  pub name :
      (is_empty f.name || (plain (name_char wide) f.name && not (starts_with f.name (codes "-"))))
      ≡ true
  pub namespace : (is_empty f.namespace || plain (name_char wide) f.namespace) ≡ true
  pub context : (is_empty f.context || plain (context_char wide) f.context) ≡ true
  pub kubeconfig : (is_empty f.kubeconfig || plain (kubeconfig_char wide) f.kubeconfig) ≡ true

or_false : (b : Bool) → (b || false) ≡ b
or_false b = ground arith

empty_or :
    (v : Text) (p q : Text → Bool)
    → ((s : Text) → p s ≡ true → q s ≡ true)
    → (is_empty v || p v) ≡ true
    → (is_empty v || q v) ≡ true
empty_or [] p q f h = refl
empty_or (c ∷ s) p q f h = f (c ∷ s) h

abbrev is_some_value : WideWord → Text → Text → Bool
is_some_value wide flag v = value_ok wide flag (some v)

module _ (wide : WideWord) where
  flag_words-IsWord :
      (flag v : Text) (p : ℕ → Bool)
      → ((c : ℕ) → p c ≡ true → kubeconfig_char wide c ≡ true)
      → IsWord flag
      → (is_empty v || plain p v) ≡ true
      → All IsWord (flag_words flag v)
  flag_words-IsWord flag [] p n w h = tt
  flag_words-IsWord flag (c ∷ s) p n w h = (w, (plain-IsWord wide p n (c ∷ s) h, tt))

  pub tail_words-IsWord : (f : FindingFields) → IsPlain wide f → All IsWord (tail_words f)
  unfolding is_clean
  tail_words-IsWord f h =
      All-append IsWord (flag_words (codes "--context") f.context)
        (flag_words (codes "--kubeconfig") f.kubeconfig)
        (flag_words-IsWord (codes "--context") f.context (context_char wide) (context-narrow wide)
          refl h.context)
        (flag_words-IsWord (codes "--kubeconfig") f.kubeconfig (kubeconfig_char wide) (λ c k. k)
          refl h.kubeconfig)

module _ (wide : WideWord) (shape : Shape) where
  pub scan_tokens-two :
      (st st' : Scan) (tok v : Text) (rest : List Text)
      → scan_token wide shape st tok (some v) ≡ some (st', true)
      → scan_tokens wide shape st false (tok ∷ v ∷ rest) ≡ scan_tokens wide shape st' false rest
  unfolding scan_tokens
  scan_tokens-two st st' tok v rest e = rw (e, scan_tokens) refl

  pub scan_tokens-one :
      (st st' : Scan) (tok : Text) (rest : List Text)
      → scan_token wide shape st tok (head? rest) ≡ some (st', false)
      → scan_tokens wide shape st false (tok ∷ rest) ≡ scan_tokens wide shape st' false rest
  unfolding scan_tokens
  scan_tokens-one st st' tok rest e = rw (e, scan_tokens) refl

  pub scan_flag-allowed :
      (st : Scan) (key tok v : Text)
      → required_value shape.required key ≡ none
      → always_allowed key ≡ true
      → value_ok wide key (some v) ≡ true
      → scan_flag wide shape st key none tok (some v)
        ≡ some (record st { seen_ns = st.seen_ns || namespace_flag key }, true)
  unfolding scan_flag
  scan_flag-allowed st key tok v r a k = ground (arith, r, a, k)

  unseen : (st : Scan) → record st { seen_ns = st.seen_ns || false } ≡ st
  unseen st = ap (λ b. record st { seen_ns = b }) (or_false st.seen_ns)

  -- A flag of the tail leaves the variables of the loop as they were.
  scan-flag_words :
      (st : Scan) (flag v : Text) (rest : List Text)
      → partition 61 flag ≡ (flag, none)
      → required_value shape.required flag ≡ none
      → always_allowed flag ≡ true
      → namespace_flag flag ≡ false
      → (is_empty v || is_some_value wide flag v) ≡ true
      → scan_tokens wide shape st false (flag_words flag v ++ rest)
        ≡ scan_tokens wide shape st false rest
  unfolding scan_token
  scan-flag_words st flag [] rest p r a n h = refl
  scan-flag_words st flag (c ∷ s) rest p r a n h =
      scan_tokens-two st (record st { seen_ns = st.seen_ns || namespace_flag flag }) flag (c ∷ s)
        rest (rw p (scan_flag-allowed st flag flag (c ∷ s) r a h))
      ∙ ap (λ b. scan_tokens wide shape (record st { seen_ns = st.seen_ns || b }) false rest) n
      ∙ ap (λ t. scan_tokens wide shape t false rest) (unseen st)

  -- A token that is the positional one.
  pub scan_token-positional :
      (st : Scan) (tok : Text) (next : Option Text)
      → partition 61 tok ≡ (tok, none)
      → required_value shape.required tok ≡ none
      → always_allowed tok ≡ false
      → is_positional shape st tok ≡ true
      → scan_token wide shape st tok next ≡ some (record st { got_positional = true }, false)
  unfolding scan_token scan_flag
  scan_token-positional st tok next p r a h = rw p (ground (arith, r, a, h))

  scan_tokens-end : (st : Scan) → scan_tokens wide shape st false [] ≡ scan_end shape st
  unfolding scan_tokens
  scan_tokens-end st = refl

  -- The tail is read to its end.
  pub scan-tail_words :
      (st : Scan) (f : FindingFields)
      → required_value shape.required (codes "--context") ≡ none
      → required_value shape.required (codes "--kubeconfig") ≡ none
      → IsPlain wide f
      → scan_tokens wide shape st false (tail_words f) ≡ scan_end shape st
  unfolding value_ok is_context_val is_kubeconfig_val partition text_eq
  scan-tail_words st f rc rk plain_f =
      scan-flag_words st (codes "--context") f.context
        (flag_words (codes "--kubeconfig") f.kubeconfig) refl rc refl refl
        (empty_or f.context (plain (context_char wide)) (is_context_val wide)
          (class_plus_end-plain (context_char wide)) plain_f.context)
      ∙ ap (scan_tokens wide shape st false)
          (sym (append-nil (flag_words (codes "--kubeconfig") f.kubeconfig)))
      ∙ scan-flag_words st (codes "--kubeconfig") f.kubeconfig [] refl rk refl refl (
          empty_or f.kubeconfig (plain (kubeconfig_char wide)) (is_kubeconfig_val wide)
            (class_plus_end-plain (kubeconfig_char wide)) plain_f.kubeconfig)
      ∙ scan_tokens-end st
