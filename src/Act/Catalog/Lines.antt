-- ===== src/Act/Catalog/Lines.antt =====
-- Command lines as words between blanks, and how the gate of act/cleanup.py reads them.
use steadystate_ai.Prelude.{
  ℕ, zero, suc, ◌≡◌, refl, inl, inr, Bool-cases, ==_iff, ◌∙◌, sym, ap, Bool, true, false, not, ◌&&◌,
  ◌||◌, none, List, [], ◌∷◌, ◌++◌, ◌==◌, ltb, arith, any, all, All, is_empty, and-left, and-right,
}
use steadystate_ai.Prelude.Texts.{Text, is_space, split, chunks, emit, partition}
use steadystate_ai.Act.Kubectl.Argv.{blank_only}
use steadystate_ai.Act.Kubectl.{
  WideWord, is_word, is_shell_meta, class_star_end, class_plus_end, name_char, context_char,
  kubeconfig_char,
}

-- A character of a word: neither white space nor one that the shell reads.
unfoldable pub is_clean : ℕ → Bool
unfolding is_space is_shell_meta
is_clean c = not (is_space c) && not (is_shell_meta c)

abbrev pub clean_word : Text → Bool
clean_word w = not (is_empty w) && all is_clean w

abbrev pub IsWord : Text → Type 0
IsWord w = clean_word w ≡ true

-- Each word behind a blank.
unfoldable pub spaced : List Text → Text
spaced [] = []
spaced (w ∷ ws) = 32 ∷ (w ++ spaced ws)

unfoldable pub line : List Text → Text
unfolding spaced
line [] = []
line (w ∷ ws) = w ++ spaced ws

chunks-word :
    (w r : Text) (ws : List Text)
    → all is_clean w ≡ true
    → chunks is_space r ≡ ([], ws)
    → chunks is_space (w ++ r) ≡ (w, ws)
unfolding chunks is_clean
chunks-word [] r ws h e = e
chunks-word (c ∷ w) r ws h e =
    ground (arith, h, chunks-word w r ws (and-right (is_clean c) (all is_clean w) h) e)

emit-word : (w : Text) (ws : List Text) → IsWord w → emit w ws ≡ w ∷ ws
emit-word [] ws h = absurd (cc)
emit-word (c ∷ w) ws h = refl

chunks-spaced : (ws : List Text) → All IsWord ws → chunks is_space (spaced ws) ≡ ([], ws)
unfolding spaced chunks is_space
chunks-spaced [] h = refl
chunks-spaced (w ∷ ws) h =
    rw
      (chunks-word w (spaced ws) ws (and-right (not (is_empty w)) (all is_clean w) h.0)
        (chunks-spaced ws h.1))
      (ap (λ l. ([], l)) (emit-word w ws h.0))

-- `split` gives back the words of a line.
pub split-line : (ws : List Text) → All IsWord ws → split (line ws) ≡ ws
unfolding line split
split-line [] h = refl
split-line (w ∷ ws) h =
    rw
      (chunks-word w (spaced ws) ws (and-right (not (is_empty w)) (all is_clean w) h.0)
        (chunks-spaced ws h.1))
      (emit-word w ws h.0)

meta-append :
    (w r : Text) → all is_clean w ≡ true → any is_shell_meta (w ++ r) ≡ any is_shell_meta r
unfolding is_clean
meta-append [] r h = refl
meta-append (c ∷ w) r h = ground (arith, h, meta-append w r)

meta-spaced : (ws : List Text) → All IsWord ws → any is_shell_meta (spaced ws) ≡ false
unfolding spaced is_shell_meta
meta-spaced [] h = refl
meta-spaced (w ∷ ws) h =
    meta-append w (spaced ws) (and-right (not (is_empty w)) (all is_clean w) h.0)
    ∙ meta-spaced ws h.1

pub meta-line : (ws : List Text) → All IsWord ws → any is_shell_meta (line ws) ≡ false
unfolding line
meta-line [] h = refl
meta-line (w ∷ ws) h =
    meta-append w (spaced ws) (and-right (not (is_empty w)) (all is_clean w) h.0)
    ∙ meta-spaced ws h.1

blank-append :
    (w r : Text) → all is_clean w ≡ true → blank_only r ≡ true → blank_only (w ++ r) ≡ true
unfolding is_clean
blank-append [] r h k = k
blank-append (c ∷ w) r h k =
    ground (arith, h, blank-append w r (and-right (is_clean c) (all is_clean w) h) k)

blank-spaced : (ws : List Text) → All IsWord ws → blank_only (spaced ws) ≡ true
unfolding spaced is_space
blank-spaced [] h = refl
blank-spaced (w ∷ ws) h =
    blank-append w (spaced ws) (and-right (not (is_empty w)) (all is_clean w) h.0)
      (blank-spaced ws h.1)

pub blank-line : (ws : List Text) → All IsWord ws → blank_only (line ws) ≡ true
unfolding line
blank-line [] h = refl
blank-line (w ∷ ws) h =
    blank-append w (spaced ws) (and-right (not (is_empty w)) (all is_clean w) h.0)
      (blank-spaced ws h.1)

-- An ASCII value of a class of characters, not empty: what Kubernetes takes for a name, and a plain path.
abbrev pub plain : (ℕ → Bool) → Text → Bool
plain p s = not (is_empty s) && all (λ c. ltb c 128 && p c) s

pub class_plus_end-plain : (p : ℕ → Bool) (s : Text) → plain p s ≡ true → class_plus_end p s ≡ true
unfolding class_plus_end class_star_end
class_plus_end-plain p [] h = h
class_plus_end-plain p (c ∷ s) h = ground (arith, h, star p s)
  where
    star :
        (p : ℕ → Bool) (s : Text) → all (λ c. ltb c 128 && p c) s ≡ true → class_star_end p s ≡ true
    star p [] h = refl
    star p (c ∷ []) h = ground (arith, h)
    star p (c ∷ d ∷ s) h = ground (arith, h, star p (d ∷ s))

-- A test that holds of every number below a bound.
all_below : (ℕ → Bool) → ℕ → Bool
all_below test zero = true
all_below test (suc n) = test n && all_below test n

all_below-holds :
    (test : ℕ → Bool) (n c : ℕ) → all_below test n ≡ true → ltb c n ≡ true → test c ≡ true
unfolding all_below
all_below-holds test zero c h k = ground (arith, k)
all_below-holds test (suc n) c h k = elim (Bool-cases (c == n)) [
  | inl e ↦ rw ((==_iff c n).0 e) (and-left (test n) (all_below test n) h)
  | inr e ↦
      all_below-holds test n c (and-right (test n) (all_below test n) h) (ground (arith, k, e))
]

-- The widest class of the gate leaves out white space, what the shell reads, and `=`.
abbrev left_out : ℕ → Bool
left_out c = not (kubeconfig_char (λ d. false) c) || (is_clean c && not (c == 61))

left_out-ascii : all_below left_out 128 ≡ true
unfolding all_below is_clean is_space is_shell_meta kubeconfig_char context_char name_char is_word
left_out-ascii = refl

module _ (wide : WideWord) where
  ascii-char : (c : ℕ) → ltb c 128 ≡ true → kubeconfig_char wide c ≡ kubeconfig_char (λ d. false) c
  unfolding kubeconfig_char context_char name_char is_word
  ascii-char c a = rw a refl

  plain_char-clean :
      (c : ℕ)
      → ltb c 128 ≡ true
      → kubeconfig_char wide c ≡ true
      → (is_clean c && not (c == 61)) ≡ true
  plain_char-clean c a h =
      ground (arith, all_below-holds left_out 128 c left_out-ascii a, sym (ascii-char c a) ∙ h)

  module _ (p : ℕ → Bool) (narrow : (c : ℕ) → p c ≡ true → kubeconfig_char wide c ≡ true) where
    plain-clean : (s : Text) → all (λ c. ltb c 128 && p c) s ≡ true → all is_clean s ≡ true
    plain-clean [] h = refl
    plain-clean (c ∷ s) h = ground (
      arith,
      h,
      plain_char-clean c,
      narrow c,
      plain-clean s (and-right (ltb c 128 && p c) (all (λ d. ltb d 128 && p d) s) h),
    )

    pub plain-IsWord : (s : Text) → plain p s ≡ true → IsWord s
    plain-IsWord [] h = h
    plain-IsWord (c ∷ s) h = plain-clean (c ∷ s) h

    pub partition-plain :
        (s : Text) → all (λ c. ltb c 128 && p c) s ≡ true → partition 61 s ≡ (s, none)
    unfolding partition
    partition-plain [] h = refl
    partition-plain (c ∷ s) h = ground (
      arith,
      h,
      plain_char-clean c,
      narrow c,
      partition-plain s (and-right (ltb c 128 && p c) (all (λ d. ltb d 128 && p d) s) h),
    )

  pub context-narrow : (c : ℕ) → context_char wide c ≡ true → kubeconfig_char wide c ≡ true
  unfolding kubeconfig_char
  context-narrow c h = ground (arith, h)

  pub name-narrow : (c : ℕ) → name_char wide c ≡ true → kubeconfig_char wide c ≡ true
  unfolding kubeconfig_char context_char
  name-narrow c h = ground (arith, h)
