-- ===== src/Prelude/Words.antt =====
-- `text.split()` undoes `" ".join(words)`.
use Prim.Native.Char.{Char, char, code}
use Prim.Native.String.{String, ◌++◌ as ◌<>◌}
use mathlib.Core.Path.{◌≡◌, refl, ap, ◌∙◌}
use mathlib.Core.Bool.{Bool, true, false, not, ◌&&◌}
use mathlib.Core.List.{List, [], ◌∷◌}
use native.Mathlib.Omega.{arith}
use text.Mathlib.TextLemmas.{nil-append, cons-append, append_assoc}
use mathlib.Core.Logic.{inl, inr}
use steadystate_ai.Prelude.Tests.{and-left, and-right, Bool-cases}
use steadystate_ai.Prelude.Lists.{All}
use steadystate_ai.Prelude.Texts.{is_space}
use steadystate_ai.Prelude.Strings.{chunks_text, emit_word, words, join}

-- No character of the text is white space.
unfoldable pub unbroken : String → Bool
unbroken String.[] = true
unbroken (String.◌∷◌ c s) = not (is_space (code c)) && unbroken s

-- A word: not empty, and with no white space.
abbrev pub is_word : String → Bool
is_word String.[] = false
is_word (String.◌∷◌ c s) = unbroken (String.◌∷◌ c s)

abbrev pub IsWord : String → Type 0
IsWord s = is_word s ≡ true

chunks_text-unbroken : (s : String) → unbroken s ≡ true → chunks_text s ≡ (s, [])
unfolding chunks_text unbroken
chunks_text-unbroken String.[] h = refl
chunks_text-unbroken (String.◌∷◌ c s) h = ground (arith, h, chunks_text-unbroken s)

chunks_text-cons :
    (c : Char) (s w : String) (ws : List String)
    → not (is_space (code c)) ≡ true
    → chunks_text s ≡ (w, ws)
    → chunks_text (String.◌∷◌ c s) ≡ (String.◌∷◌ c w, ws)
unfolding chunks_text
chunks_text-cons c s w ws h e = ground (arith, h, e)

-- A word in front of a text that begins with white space.
chunks_text-word :
    (s r : String) (ws : List String)
    → unbroken s ≡ true
    → chunks_text r ≡ ("", ws)
    → chunks_text (s <> r) ≡ (s, ws)
unfolding unbroken
chunks_text-word String.[] r ws h e = ap chunks_text (nil-append r) ∙ e
chunks_text-word (String.◌∷◌ c s) r ws h e =
    ap chunks_text (cons-append c s r)
    ∙ chunks_text-cons c (s <> r) s ws (and-left (not (is_space (code c))) (unbroken s) h)
        (chunks_text-word s r ws (and-right (not (is_space (code c))) (unbroken s) h) e)

chunks_text-blank : (t : String) → chunks_text (String.◌∷◌ (char 32 tt) t) ≡ ("", words t)
unfolding words chunks_text is_space
chunks_text-blank t = refl

blank-text : (t : String) → (" " <> t) ≡ String.◌∷◌ (char 32 tt) t
blank-text t = cons-append (char 32 tt) "" t ∙ ap (λ s. String.◌∷◌ (char 32 tt) s) (nil-append t)

emit_word-word : (s : String) (ws : List String) → IsWord s → emit_word s ws ≡ s ∷ ws
emit_word-word String.[] ws h = cc
emit_word-word (String.◌∷◌ c s) ws h = refl

word-unbroken : (s : String) → IsWord s → unbroken s ≡ true
word-unbroken String.[] h = cc
word-unbroken (String.◌∷◌ c s) h = h

words-word : (s t : String) → IsWord s → words ((s <> " ") <> t) ≡ s ∷ words t
unfolding words
words-word s t h = rw (append_assoc s " " t ∙ ap (λ r. s <> r) (blank-text t)) (
    rw
      (chunks_text-word s (String.◌∷◌ (char 32 tt) t) (words t) (word-unbroken s h)
        (chunks_text-blank t))
      (emit_word-word s (words t) h))

words-one : (s : String) → IsWord s → words s ≡ s ∷ []
unfolding words
words-one s h = rw (chunks_text-unbroken s (word-unbroken s h)) (emit_word-word s [] h)

pub words-join : (texts : List String) → All IsWord texts → words (join " " texts) ≡ texts
unfolding join words chunks_text
words-join [] h = refl
words-join (s ∷ []) h = words-one s h.0
words-join (s ∷ t ∷ texts) h =
    words-word s (join " " (t ∷ texts)) h.0 ∙ ap (λ ws. s ∷ ws) (words-join (t ∷ texts) h.1)

emit_word-IsWord :
    (w : String) (ws : List String)
    → unbroken w ≡ true
    → All IsWord ws
    → All IsWord (emit_word w ws)
emit_word-IsWord String.[] ws u h = h
emit_word-IsWord (String.◌∷◌ c w) ws u h = (u, h)

chunks_text-IsWord :
    (s : String) → (unbroken (chunks_text s).0 ≡ true) × All IsWord (chunks_text s).1
unfolding chunks_text unbroken
chunks_text-IsWord String.[] = (refl, tt)
chunks_text-IsWord (String.◌∷◌ c s) = elim (Bool-cases (is_space (code c))) [
  | inl e ↦ rw e (
    refl,
    emit_word-IsWord (chunks_text s).0 (chunks_text s).1 (chunks_text-IsWord s).0
        (chunks_text-IsWord s).1,
  )
  | inr e ↦ rw e (rw e (chunks_text-IsWord s).0, (chunks_text-IsWord s).1)
]

-- `text.split()` gives words.
pub words-IsWord : (s : String) → All IsWord (words s)
unfolding words
words-IsWord s =
    let found = chunks_text-IsWord s in
    emit_word-IsWord (chunks_text s).0 (chunks_text s).1 found.0 found.1
