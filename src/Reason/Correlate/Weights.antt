-- ===== src/Reason/Correlate/Weights.antt =====
-- The events of the clusters that cover them (src/steadystate/reason/pipeline.py).
use steadystate_ai.Prelude.{
  ℕ, zero, suc, ◌+◌, ◌≡◌, refl, ◌∙◌, sym, ap, false, Option, none, some, List, [], ◌∷◌, arith, ltb,
  length, ==_iff, if◌then◌else◌,
}
use steadystate_ai.Prelude.Sums.{tally, below, below-first, below-cong, below-zero}
use steadystate_ai.Reason.Correlate.{get_elem?}
use steadystate_ai.Reason.Correlate.Cover.{count}

abbrev pub times : ℕ → ℕ → ℕ
times zero g = 0
times (suc c) g = g + times c g

module _ (g : ℕ → ℕ) where
  below-count-cons :
      (j : ℕ) (js : List ℕ) (n : ℕ)
      → below (λ i. times (count i (j ∷ js)) (g i)) n
        ≡ below (λ i. times (count i js) (g i)) n + (if ltb j n then g j else 0)
  unfolding below
  below-count-cons j js zero = ground arith
  below-count-cons j js (suc n) = ground (arith, below-count-cons j js n, ==_iff n j, ap g)

  -- A sum over indexes, by how often each occurs.
  tally-count :
      (js : List ℕ) (n : ℕ)
      → ((j : ℕ) → ltb j n ≡ false → g j ≡ 0)
      → tally g js ≡ below (λ i. times (count i js) (g i)) n
  unfolding tally
  tally-count [] n z = sym (below-zero n)
  tally-count (j ∷ js) n z = ground (arith, tally-count js n z, below-count-cons j js n, z j)

module _ {A : Type 0} (w : A → ℕ) where
  abbrev pub weight_of : Option A → ℕ
  weight_of none = 0
  weight_of (some x) = w x

  abbrev pub weight_at : List A → ℕ → ℕ
  weight_at xs i = weight_of (get_elem? xs i)

  weight_at-beyond : (xs : List A) (i : ℕ) → ltb i (length xs) ≡ false → weight_at xs i ≡ 0
  weight_at-beyond [] i h = refl
  weight_at-beyond (x ∷ xs) zero h = absurd (ground (arith, h))
  weight_at-beyond (x ∷ xs) (suc i) h = weight_at-beyond xs i (ground (arith, h))

  below-weight_at : (xs : List A) → below (weight_at xs) (length xs) ≡ tally w xs
  unfolding below tally
  below-weight_at [] = refl
  below-weight_at (x ∷ xs) =
      below-first (weight_at (x ∷ xs)) (length xs) ∙ ap (λ s. w x + s) (below-weight_at xs)

  -- Indexes that name each element exactly once weigh what the elements weigh.
  pub tally-covered :
      (xs : List A) (js : List ℕ)
      → ((i : ℕ) → count i js ≡ (if ltb i (length xs) then 1 else 0))
      → tally (weight_at xs) js ≡ tally w xs
  tally-covered xs js c =
      tally-count (weight_at xs) js (length xs) (weight_at-beyond xs)
      ∙ below-cong (λ i. times (count i js) (weight_at xs i)) (weight_at xs) (length xs)
          (λ i b.
            ap (λ m. times m (weight_at xs i)) {y = 1} (c i ∙ ground (arith, b)) ∙ omega arith)
      ∙ below-weight_at xs
