-- ===== src/Act/Kubectl/Loop.antt =====
-- The loop of `safe_kubectl` by its index, as act/cleanup.py writes it, on fuel; and that it ends.
use steadystate_ai.Prelude.{
  ℕ, zero, suc, ◌⊎◌, ◌≡◌, refl, ◌∙◌, sym, ap, inl, inr, Bool, true, false, Option, none, some, List,
  [], ◌∷◌, arith, any, length, ltb, head?, Option-cases, Bool-cases, if◌then◌else◌,
}
use steadystate_ai.Prelude.Texts.{Text, split}
use steadystate_ai.Act.Kubectl.{
  WideWord, Shape, Scan, scan_token, scan_end, scan_tokens, scan_start, scan_behind, after_verb,
  safe_kubectl, is_shell_meta,
}

-- `rest[i]`, where there is one
unfoldable pub token_at : List Text → ℕ → Option Text
token_at [] i = none
token_at (tok ∷ rest) zero = some tok
token_at (tok ∷ rest) (suc i) = token_at rest i

-- `rest[i:]`
drop : ℕ → List Text → List Text
drop zero rest = rest
drop (suc i) [] = []
drop (suc i) (tok ∷ rest) = drop i rest

module _ (wide : WideWord) (shape : Shape) where
  -- `while i < len(rest)`, and the tests behind the loop; `none` where the fuel runs out.
  unfoldable pub scan_loop : List Text → ℕ → ℕ → Scan → Option Bool
  unfolding token_at
  scan_loop rest zero i st = none
  scan_loop rest (suc fuel) i st = elim (token_at rest i) [
    | none ↦ some (scan_end shape st)
    | some tok ↦ elim (scan_token wide shape st tok (token_at rest (suc i))) [
      | none ↦ some false
      | some r ↦ scan_loop rest fuel (if r.1 then suc (suc i) else suc i) r.0
    ]
  ]

  abbrev pub loop_behind : ℕ → Option (List Text) → Option Bool
  loop_behind fuel none = some false
  loop_behind fuel (some rest) = scan_loop rest fuel 0 (scan_start shape)

  -- `safe_kubectl` with the loop by its index
  unfoldable pub safe_kubectl_loop : ℕ → Text → Option Bool
  unfolding scan_loop
  safe_kubectl_loop fuel command =
      if any is_shell_meta command
      then some false
      else loop_behind fuel (after_verb shape.verb (split command))

token_at-head : (rest : List Text) (i : ℕ) → token_at rest i ≡ head? (drop i rest)
unfolding token_at drop
token_at-head [] zero = refl
token_at-head [] (suc i) = refl
token_at-head (tok ∷ rest) zero = refl
token_at-head (tok ∷ rest) (suc i) = token_at-head rest i

-- What stands behind the token at an index.
drop-behind :
    (rest : List Text) (i : ℕ) (tok : Text) (l : List Text)
    → drop i rest ≡ tok ∷ l
    → drop (suc i) rest ≡ l
unfolding drop
drop-behind [] zero tok l h = cc
drop-behind [] (suc i) tok l h = cc
drop-behind (t ∷ rest) zero tok l h = ground (arith, h)
drop-behind (t ∷ rest) (suc i) tok l h = drop-behind rest i tok l h

drop-suc : (i : ℕ) (rest : List Text) → drop (suc i) rest ≡ drop 1 (drop i rest)
unfolding drop
drop-suc zero rest = refl
drop-suc (suc i) [] = refl
drop-suc (suc i) (t ∷ rest) = drop-suc i rest

length-drop_one :
    (l : List Text) (n : ℕ) → ltb (length l) n ≡ true → ltb (length (drop 1 l)) n ≡ true
unfolding drop
length-drop_one [] n h = h
length-drop_one (tok ∷ l) n h = ground (arith, h)

list-cases : (l : List Text) → (l ≡ []) ⊎ ((tok : Text) × (rest : List Text) × (l ≡ tok ∷ rest))
list-cases [] = inl refl
list-cases (tok ∷ rest) = inr (tok, rest, refl)

module _ (wide : WideWord) (shape : Shape) where
  scan_tokens-skip :
      (st : Scan) (l : List Text)
      → scan_tokens wide shape st true l ≡ scan_tokens wide shape st false (drop 1 l)
  unfolding scan_tokens drop
  scan_tokens-skip st [] = refl
  scan_tokens-skip st (tok ∷ l) = refl

  -- What the rest of the loop gives, behind a token of which the round is done.
  Rest : List Text → ℕ → ℕ → Scan → List Text → Type 0
  Rest rest fuel j st l =
      scan_loop wide shape rest fuel j st ≡ some (scan_tokens wide shape st false l)

  scan_loop-round :
      (rest : List Text) (fuel i : ℕ) (tok : Text) (l : List Text) (st : Scan)
      → drop i rest ≡ tok ∷ l
      → ((st' : Scan) → Rest rest fuel (suc i) st' l)
      → ((st' : Scan) → Rest rest fuel (suc (suc i)) st' (drop 1 l))
      → scan_loop wide shape rest (suc fuel) i st ≡ some (scan_tokens wide shape st false (tok ∷ l))
  unfolding scan_loop Rest scan_tokens
  scan_loop-round rest fuel i tok l st e one two =
      let here : token_at rest i ≡ some tok = token_at-head rest i ∙ ap head? e in
      let next = token_at-head rest (suc i) ∙ ap head? (drop-behind rest i tok l e) in
      elim (Option-cases (scan_token wide shape st tok (head? l))) [
        | inl h ↦ rw (scan_loop, scan_tokens, here, next, h) refl
        | inr (r, h) ↦ elim (Bool-cases r.1) [
          | inl t ↦
              rw (scan_loop, scan_tokens, here, next, h, t)
                (two r.0 ∙ ap some (sym (scan_tokens-skip r.0 l)))
          | inr t ↦ rw (scan_loop, scan_tokens, here, next, h, t) (one r.0)
        ]
      ]

  scan_loop-ends :
      (rest : List Text) (fuel i : ℕ) (st : Scan)
      → ltb (length (drop i rest)) fuel ≡ true
      → scan_loop wide shape rest fuel i st ≡ some (scan_tokens wide shape st false (drop i rest))
  unfolding Rest scan_loop scan_tokens
  scan_loop-ends rest zero i st h = ground (arith, h)
  scan_loop-ends rest (suc fuel) i st h = elim (list-cases (drop i rest)) [
    | inl e ↦ rw (e, scan_loop, scan_tokens, token_at-head rest i ∙ ap head? e) refl
    | inr (tok, l, e) ↦
        let fewer : ltb (length l) fuel ≡ true = ground (arith, h, e) in
        let behind = drop-behind rest i tok l e in
        let behind_two = drop-suc (suc i) rest ∙ ap (drop 1) behind in
        rw e (
          scan_loop-round rest fuel i tok l st e
            (λ st'.
              scan_loop-ends rest fuel (suc i) st' (rw behind fewer)
              ∙ ap (λ k. some (scan_tokens wide shape st' false k)) behind)
            (λ st'.
              scan_loop-ends rest fuel (suc (suc i)) st'
                (rw behind_two (length-drop_one l fuel fewer))
              ∙ ap (λ k. some (scan_tokens wide shape st' false k)) behind_two))
  ]

  loop_behind-ends :
      (fuel : ℕ) (o : Option (List Text)) (n : ℕ)
      → ((rest : List Text) → o ≡ some rest → ltb (length rest) n ≡ true)
      → ltb n (suc fuel) ≡ true
      → loop_behind wide shape fuel o ≡ some (scan_behind wide shape o)
  unfolding scan_behind drop
  loop_behind-ends fuel none n h k = refl
  loop_behind-ends fuel (some rest) n h k =
      scan_loop-ends rest fuel 0 (scan_start shape) (ground (arith, h rest refl, k))

after_verb-length :
    (vs toks rest : List Text)
    → after_verb vs toks ≡ some rest
    → ltb (length rest) (suc (length toks)) ≡ true
unfolding after_verb
after_verb-length [] toks rest h = ground (arith, h)
after_verb-length (v ∷ vs) [] rest h = absurd (cc)
after_verb-length (v ∷ vs) (tok ∷ toks) rest h = ground (arith, h, after_verb-length vs toks rest)

-- The loop ends: with more fuel than the command has tokens, the gate written with the index gives a
-- result, and it is the one of the gate that goes along the tokens.
pub safe_kubectl_loop-ends :
    (wide : WideWord) (shape : Shape) (command : Text) (fuel : ℕ)
    → ltb (length (split command)) fuel ≡ true
    → safe_kubectl_loop wide shape fuel command ≡ some (safe_kubectl wide shape command)
unfolding safe_kubectl_loop safe_kubectl
safe_kubectl_loop-ends wide shape command fuel h =
    let ends =
      loop_behind-ends wide shape fuel (after_verb shape.verb (split command))
        (suc (length (split command))) (after_verb-length shape.verb (split command))
        (ground (arith, h)) in
    elim (Bool-cases (any is_shell_meta command)) [ inl e ↦ rw e refl | inr e ↦ rw e ends ]
