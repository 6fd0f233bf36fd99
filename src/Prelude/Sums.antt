-- ===== src/Prelude/Sums.antt =====
-- Sums of weights over lists and over the first numbers.
use Prim.Native.Nat.{ℕ, zero, suc, ◌+◌}
use mathlib.Core.Path.{◌≡◌, refl}
use mathlib.Core.Bool.{true}
use mathlib.Core.List.{List, [], ◌∷◌, ◌++◌, map}
use native.Mathlib.Omega.{arith}
use steadystate_ai.Prelude.Tests.{ltb}

-- The sum of the weights of the elements. Two lists have equal sums under every weight exactly where
-- they hold the same elements equally often.
unfoldable pub tally {ℓ} : {A : Type ℓ} → (A → ℕ) → List A → ℕ
tally w [] = 0
tally w (x ∷ xs) = w x + tally w xs

pub tally-append :
    {A : Type 0} (w : A → ℕ) (xs ys : List A) → tally w (xs ++ ys) ≡ tally w xs + tally w ys
unfolding tally
tally-append w [] ys = omega arith
tally-append w (x ∷ xs) ys = omega (arith, tally-append w xs ys)

pub tally-map :
    {A B : Type 0} (w : B → ℕ) (f : A → B) (xs : List A)
    → tally w (map f xs) ≡ tally (λ x. w (f x)) xs
unfolding tally
tally-map w f [] = refl
tally-map w f (x ∷ xs) = omega (arith, tally-map w f xs)

-- The sum of `h` over the first `n` numbers.
unfoldable pub below : (ℕ → ℕ) → ℕ → ℕ
below h zero = 0
below h (suc n) = below h n + h n

pub below-first : (h : ℕ → ℕ) (n : ℕ) → below h (suc n) ≡ h 0 + below (λ i. h (suc i)) n
unfolding below
below-first h zero = omega arith
below-first h (suc n) = omega (arith, below-first h n)

pub below-cong :
    (h k : ℕ → ℕ) (n : ℕ) → ((i : ℕ) → ltb i n ≡ true → h i ≡ k i) → below h n ≡ below k n
unfolding below
below-cong h k zero e = refl
below-cong h k (suc n) e =
    ground (arith, below-cong h k n (λ i b. e i (ground (arith, b))), e n (ground arith))

pub below-zero : (n : ℕ) → below (λ i. 0) n ≡ 0
unfolding below
below-zero zero = refl
below-zero (suc n) = omega (arith, below-zero n)
