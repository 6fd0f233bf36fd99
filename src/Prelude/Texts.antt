-- ===== src/Prelude/Texts.antt =====
-- Python's text operations over lists of code points: `split`, `partition`, `strip`, membership.
use Prim.Native.Char.{code}
use Prim.Native.Nat.{ℕ}
use Prim.Native.String.{String}
use mathlib.Core.Path.{◌≡◌, refl}
use mathlib.Core.Bool.{Bool, true, false, ◌&&◌, ◌||◌}
use mathlib.Core.Option.{Option, none, some}
use mathlib.Core.List.{List, [], ◌∷◌}
use native.Mathlib.Omega.{arith}
use steadystate_ai.Prelude.Tests.{◌==◌, leb, if◌then◌else◌}

abbrev pub Text : Type 0
Text = List ℕ

abbrev pub codes : String → Text
codes String.[] = []
codes (String.◌∷◌ c s) = code c ∷ codes s

-- `c in text`
abbrev pub elem : ℕ → Text → Bool
elem c [] = false
elem c (d ∷ s) = c == d || elem c s

unfoldable pub text_eq : Text → Text → Bool
text_eq [] [] = true
text_eq (c ∷ s) (d ∷ t) = c == d && text_eq s t
text_eq _ _ = false

pub text_eq_sound : (s t : Text) → text_eq s t ≡ true → s ≡ t
unfolding text_eq
text_eq_sound [] [] h = refl
text_eq_sound [] (d ∷ t) h = cc
text_eq_sound (c ∷ s) [] h = cc
text_eq_sound (c ∷ s) (d ∷ t) h = ground (arith, text_eq_sound s t)

-- `str.isspace` of one character: ASCII and Unicode white space.
unfoldable pub is_space : ℕ → Bool
is_space c =
    (leb 9 c && leb c 13)
    || (leb 28 c && leb c 32)
    || c == 133
    || c == 160
    || c == 5760
    || (leb 8192 c && leb c 8202)
    || c == 8232
    || c == 8233
    || c == 8239
    || c == 8287
    || c == 12288

-- A word is kept when it is not empty.
abbrev pub emit : Text → List Text → List Text
emit [] ws = ws
emit (c ∷ w) ws = (c ∷ w) ∷ ws

-- The word that a text begins with, up to a separator, and the words behind it.
unfoldable pub chunks : (ℕ → Bool) → Text → Text × List Text
chunks sep [] = ([], [])
chunks sep (c ∷ s) = let (w, ws) = chunks sep s in if sep c then ([], emit w ws) else (c ∷ w, ws)

-- `text.split()`
unfoldable pub split : Text → List Text
unfolding chunks is_space
split s = let (w, ws) = chunks is_space s in emit w ws

-- `text.split(sep)`: the first field, and the fields behind it.
unfoldable pub fields : ℕ → Text → Text × List Text
fields sep [] = ([], [])
fields sep (c ∷ s) = let (w, ws) = fields sep s in if c == sep then ([], w ∷ ws) else (c ∷ w, ws)

unfoldable pub split_on : ℕ → Text → List Text
unfolding fields
split_on sep s = let (w, ws) = fields sep s in w ∷ ws

-- `text.partition(sep)`: what stands before the first separator, and what stands behind it; `none`
-- where there is no separator.
unfoldable pub partition : ℕ → Text → Text × Option Text
partition sep [] = ([], none)
partition sep (c ∷ s) =
    let (key, rest) = partition sep s in if c == sep then ([], some s) else (c ∷ key, rest)

unfoldable pub drop_space : Text → Text
unfolding is_space
drop_space [] = []
drop_space (c ∷ s) = let rest = drop_space s in if is_space c then rest else c ∷ s

unfoldable pub cons_unless_space : ℕ → Text → Text
unfolding is_space
cons_unless_space c [] = if is_space c then [] else c ∷ []
cons_unless_space c (d ∷ r) = c ∷ d ∷ r

unfoldable pub drop_space_end : Text → Text
unfolding cons_unless_space
drop_space_end [] = []
drop_space_end (c ∷ s) = cons_unless_space c (drop_space_end s)

-- `text.strip()`
unfoldable pub strip : Text → Text
unfolding drop_space drop_space_end
strip s = drop_space_end (drop_space s)
