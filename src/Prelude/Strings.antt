-- ===== src/Prelude/Strings.antt =====
-- Python's text operations over native texts: `rpartition`, `partition`, `join`, `str` of a number.
use Prim.Native.Char.{Char, code}
use Prim.Native.Nat.{ℕ, zero, suc}
use Prim.Native.String.{String, ◌++◌ as ◌<>◌}
use mathlib.Core.Bool.{Bool, ◌||◌}
use mathlib.Core.Option.{Option, none, some}
use mathlib.Core.List.{List, [], ◌∷◌}
use text.Mathlib.Text.{◌==◌ as str_eq}
use steadystate_ai.Prelude.Tests.{◌==◌, if◌then◌else◌}
use steadystate_ai.Prelude.Lists.{any}
use steadystate_ai.Prelude.Texts.{is_space}

-- `text.rpartition(sep)`: what stands before and behind the last separator, if there is one.
unfoldable pub rpartition : ℕ → String → Option (String × String)
rpartition sep String.[] = none
rpartition sep (String.◌∷◌ c s) = elim (rpartition sep s) [
  | some (head, tail) ↦ some (String.◌∷◌ c head, tail)
  | none ↦ if code c == sep then some ("", s) else none
]

-- `text.rsplit(sep, 1)[-1]`
unfoldable pub after_last : ℕ → String → String
unfolding rpartition
after_last sep s = elim (rpartition sep s) [ none ↦ s | some (head, tail) ↦ tail ]

-- `text.partition(sep)`, where the part behind is empty without a separator.
unfoldable pub partition_text : ℕ → String → String × String
partition_text sep String.[] = ("", "")
partition_text sep (String.◌∷◌ c s) =
    let (head, tail) = partition_text sep s in
    if code c == sep then ("", s) else (String.◌∷◌ c head, tail)

-- `sep.join(texts)`
unfoldable pub join : String → List String → String
join sep [] = ""
join sep (s ∷ []) = s
join sep (s ∷ t ∷ texts) = (s <> sep) <> join sep (t ∷ texts)

-- The elements of `set(texts)`, at their first occurrence.
unfoldable pub distinct : List String → List String
distinct [] = []
distinct (s ∷ texts) = let rest = distinct texts in if any (str_eq s) rest then rest else s ∷ rest

abbrev pub nth_text : List String → ℕ → String
nth_text [] d = ""
nth_text (s ∷ texts) zero = s
nth_text (s ∷ texts) (suc d) = nth_text texts d

abbrev pub glyphs : List String
glyphs = "0" ∷ "1" ∷ "2" ∷ "3" ∷ "4" ∷ "5" ∷ "6" ∷ "7" ∷ "8" ∷ "9" ∷ []

-- The decimal digits of a number, the last one first.
abbrev pub next_digits : List ℕ → List ℕ
next_digits [] = 1 ∷ []
next_digits (d ∷ ds) = let carried = next_digits ds in if d == 9 then 0 ∷ carried else suc d ∷ ds

unfoldable pub digits : ℕ → List ℕ
digits zero = 0 ∷ []
digits (suc n) = next_digits (digits n)

unfoldable pub spell : List ℕ → String → String
spell [] s = s
spell (d ∷ ds) s = spell ds (nth_text glyphs d <> s)

-- `str(n)`
unfoldable pub decimal : ℕ → String
unfolding digits spell
decimal n = spell (digits n) ""

unfoldable pub drop_blanks : String → String
drop_blanks String.[] = ""
drop_blanks (String.◌∷◌ c s) =
    let rest = drop_blanks s in if is_space (code c) then rest else String.◌∷◌ c s

abbrev pub cons_unless_blank : Char → String → String
cons_unless_blank c String.[] = if is_space (code c) then "" else String.◌∷◌ c ""
cons_unless_blank c (String.◌∷◌ d s) = String.◌∷◌ c (String.◌∷◌ d s)

unfoldable pub drop_blanks_end : String → String
drop_blanks_end String.[] = ""
drop_blanks_end (String.◌∷◌ c s) = cons_unless_blank c (drop_blanks_end s)

-- `text.strip()`
unfoldable pub strip_text : String → String
unfolding drop_blanks drop_blanks_end
strip_text s = drop_blanks_end (drop_blanks s)

abbrev pub emit_word : String → List String → List String
emit_word String.[] ws = ws
emit_word (String.◌∷◌ c w) ws = String.◌∷◌ c w ∷ ws

-- The word that a text begins with, up to white space, and the words behind it.
unfoldable pub chunks_text : String → String × List String
chunks_text String.[] = ("", [])
chunks_text (String.◌∷◌ c s) =
    let (w, ws) = chunks_text s in
    if is_space (code c) then ("", emit_word w ws) else (String.◌∷◌ c w, ws)

-- `text.split()`
unfoldable pub words : String → List String
unfolding chunks_text
words s = let (w, ws) = chunks_text s in emit_word w ws

-- `text[n:]`
unfoldable pub drop_chars : ℕ → String → String
drop_chars zero s = s
drop_chars (suc n) String.[] = ""
drop_chars (suc n) (String.◌∷◌ c s) = drop_chars n s

-- `text.endswith(tail)`
unfoldable pub ends_with : String → String → Bool
ends_with tail String.[] = str_eq "" tail
ends_with tail (String.◌∷◌ c s) = str_eq (String.◌∷◌ c s) tail || ends_with tail s
