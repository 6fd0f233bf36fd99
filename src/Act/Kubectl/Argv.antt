-- ===== src/Act/Kubectl/Argv.antt =====
-- The argument list that runs: `shlex.split(command)` in its default, POSIX mode.
use steadystate_ai.Prelude.{
  ℕ, ◌≡◌, refl, inl, inr, Bool, true, false, not, ◌&&◌, ◌||◌, Option, none, some, List, [], ◌∷◌,
  ◌++◌, append-nil, append_assoc, arith, any, all, ap, ◌==◌, Bool-cases, if◌then◌else◌,
}
use steadystate_ai.Prelude.Texts.{Text, split, chunks, emit, is_space}
use steadystate_ai.Act.Kubectl.{is_shell_meta}

-- The lexer's `state`: white space, a word, inside a quote, behind a backslash (with the state to go
-- back to).
pub data Lexing : Type 0 where
  between in_word : Lexing
  quoted : ℕ → Lexing
  escaped : Lexing
  escaped_in : ℕ → Lexing

abbrev pub shlex_space : ℕ → Bool
shlex_space c = c == 32 || c == 9 || c == 13 || c == 10

abbrev pub is_quote : ℕ → Bool
is_quote c = c == 39 || c == 34

-- What a character does between two words: the next state and token.
unfoldable pub lex_between : ℕ → Lexing × Text
lex_between c =
    if shlex_space c
    then (between, [])
    else if c == 92
    then (escaped, [])
    else if is_quote c
    then (quoted c, [])
    else (in_word, c ∷ [])

abbrev pub add_word : Text → Option (List Text) → Option (List Text)
add_word w none = none
add_word w (some ws) = some (w ∷ ws)

-- The words of a text, `none` for a `ValueError` ("No closing quotation", "No escaped character").
-- The token of a word that is being read is not empty, or was opened by a quote.
unfoldable pub lex : Lexing → Text → Text → Option (List Text)
unfolding lex_between
lex between token [] = some []
lex between token (c ∷ s) = let next = lex_between c in lex next.0 next.1 s
lex in_word token [] = some (token ∷ [])
lex in_word token (c ∷ s) =
    let rest = lex between [] s in
    let quote = lex (quoted c) token s in
    let escape = lex escaped token s in
    let more = lex in_word (token ++ (c ∷ [])) s in
    if shlex_space c
    then add_word token rest
    else if is_quote c
    then quote
    else if c == 92
    then escape
    else more
lex (quoted q) token [] = none
lex (quoted q) token (c ∷ s) =
    let closed = lex in_word token s in
    let escape = lex (escaped_in q) token s in
    let more = lex (quoted q) (token ++ (c ∷ [])) s in
    if c == q then closed else if c == 92 && q == 34 then escape else more
lex escaped token [] = none
lex escaped token (c ∷ s) = lex in_word (token ++ (c ∷ [])) s
lex (escaped_in q) token [] = none
lex (escaped_in q) token (c ∷ s) =
    lex (quoted q) (if c == 92 || c == q then token ++ (c ∷ []) else token ++ (92 ∷ c ∷ [])) s

unfoldable pub shlex_split : Text → Option (List Text)
unfolding lex
shlex_split command = lex between [] command

-- The white space of a text is blanks: no tab, line break, or white space of other scripts.
abbrev pub blank_only : Text → Bool
blank_only s = all (λ c. not (is_space c) || c == 32) s

-- What is known of a character of a vetted command whose white space is blanks.
record IsPlain (c : ℕ) : Type 0 where
  no_quote : is_quote c ≡ false
  no_escape : (c == 92) ≡ false
  shlex_blank : shlex_space c ≡ (c == 32)
  split_blank : is_space c ≡ (c == 32)

meta_elem : (c d : ℕ) → is_shell_meta d ≡ true → is_shell_meta c ≡ false → (c == d) ≡ false
meta_elem c d m n = ground (arith, m, n, ap is_shell_meta)

blank_is_space : (c : ℕ) → (not (is_space c) || c == 32) ≡ true → is_space c ≡ (c == 32)
unfolding is_space
blank_is_space c h = ground (arith, h)

pub no_quoting : (c : ℕ) → is_shell_meta c ≡ false → (is_quote c ≡ false) × ((c == 92) ≡ false)
no_quoting c n = (
  ground (
    arith,
    meta_elem c 39 (unfold is_shell_meta in refl) n,
    meta_elem c 34 (unfold is_shell_meta in refl) n,
  ),
  meta_elem c 92 (unfold is_shell_meta in refl) n,
)

IsPlain-of : (c : ℕ) → is_shell_meta c ≡ false → (not (is_space c) || c == 32) ≡ true → IsPlain c
IsPlain-of c n b = record {
  no_quote = (no_quoting c n).0;
  no_escape = (no_quoting c n).1;
  shlex_blank = ground (
    arith,
    meta_elem c 9 (unfold is_shell_meta in refl) n,
    meta_elem c 10 (unfold is_shell_meta in refl) n,
    meta_elem c 13 (unfold is_shell_meta in refl) n,
  );
  split_blank = blank_is_space c b;
}

-- Both states of the lexer that a plain text goes through, against `split`.
record Words (s : Text) : Type 0 where
  outside : lex between [] s ≡ some (emit (chunks is_space s).0 (chunks is_space s).1)
  inside :
      (token : Text)
      → lex in_word token s ≡ some ((token ++ (chunks is_space s).0) ∷ (chunks is_space s).1)

Words-blank : (c : ℕ) (s : Text) → IsPlain c → (c == 32) ≡ true → Words s → Words (c ∷ s)
unfolding lex chunks
Words-blank c s p e h = record {
  outside = ground (arith, h.outside);
  inside = λ token. ground (arith, h.outside, append-nil token);
}

Words-letter : (c : ℕ) (s : Text) → IsPlain c → (c == 32) ≡ false → Words s → Words (c ∷ s)
unfolding lex chunks
Words-letter c s p e h = record {
  outside = ground (arith, h.inside (c ∷ []));
  inside = λ token.
      ground
        (arith, h.inside (token ++ (c ∷ [])), append_assoc token (c ∷ []) (chunks is_space s).0);
}

Words-of : (s : Text) → any is_shell_meta s ≡ false → blank_only s ≡ true → Words s
unfolding lex chunks
Words-of [] n b = record { outside = refl; inside = λ token. rw append-nil refl }
Words-of (c ∷ s) n b =
    let p : IsPlain c = IsPlain-of c (ground (arith, n)) (ground (arith, b)) in
    let h : Words s = Words-of s (ground (arith, n)) (ground (arith, b)) in
    elim (Bool-cases (c == 32)) [ inl e ↦ Words-blank c s p e h | inr e ↦ Words-letter c s p e h ]

pub shlex_split-split :
    (command : Text)
    → any is_shell_meta command ≡ false
    → blank_only command ≡ true
    → shlex_split command ≡ some (split command)
unfolding shlex_split split
shlex_split-split command n b = (Words-of command n b).outside
