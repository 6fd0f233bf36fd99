-- ===== src/Act/Kubectl.antt =====
-- The command gate of act/cleanup.py: `safe_kubectl` and what it is built from.
pub mod Parts
pub mod Argv
pub mod Loop
use steadystate_ai.Prelude.{
  ℕ, Bool, true, false, not, ◌&&◌, ◌||◌, Option, none, some, List, [], ◌∷◌, ◌++◌, ◌==◌, leb, ltb,
  any, all, head?, is_some, String, if◌then◌else◌,
}
use steadystate_ai.Prelude.Texts.{Text, codes, elem, text_eq, is_space, split, partition}

-- What Python's `re` takes from the Unicode database: whether a character that is not ASCII
-- matches `\w`.
abbrev pub WideWord : Type 0
WideWord = ℕ → Bool

unfoldable pub is_word : WideWord → ℕ → Bool
is_word wide c =
    if ltb c 128
    then (leb b'a' c && leb c b'z')
      || (leb b'A' c && leb c b'Z')
      || (leb b'0' c && leb c b'9')
      || c == b'_'
    else wide c

-- `_SHELL_META`
abbrev pub shell_meta : Text
shell_meta = codes ";&|`$<>(){}[]*?!\\'\"\n\r\t"

unfoldable pub is_shell_meta : ℕ → Bool
is_shell_meta c = elem c shell_meta

-- `[...]*$`: characters of a class up to the end, where `$` also matches before a last newline.
unfoldable pub class_star_end : (ℕ → Bool) → Text → Bool
class_star_end p [] = true
class_star_end p (c ∷ []) = p c || c == 10
class_star_end p (c ∷ s) = p c && class_star_end p s

-- `^[...]+$`
unfoldable pub class_plus_end : (ℕ → Bool) → Text → Bool
unfolding class_star_end
class_plus_end p [] = false
class_plus_end p (c ∷ s) = p c && class_star_end p s

-- What stands behind `prefix` in a text that begins with it.
unfoldable pub after_prefix : Text → Text → Option Text
after_prefix [] s = some s
after_prefix (c ∷ p) [] = none
after_prefix (c ∷ p) (d ∷ s) = let rest = after_prefix p s in if c == d then rest else none

unfoldable pub starts_with : Text → Text → Bool
unfolding after_prefix
starts_with s p = is_some (after_prefix p s)

module _ (wide : WideWord) where
  -- `[\w.-]`, `[\w.@:/-]` and `[\w.@:/~-]`
  unfoldable pub name_char : ℕ → Bool
  unfolding is_word
  name_char c = is_word wide c || c == b'.' || c == b'-'

  unfoldable pub context_char : ℕ → Bool
  unfolding name_char
  context_char c = name_char c || c == b'@' || c == b':' || c == b'/'

  unfoldable pub kubeconfig_char : ℕ → Bool
  unfolding context_char
  kubeconfig_char c = context_char c || c == b'~'

  -- `_NSNAME`, `_CONTEXT_VAL` and `_KUBECONFIG_VAL`
  unfoldable pub is_nsname : Text → Bool
  unfolding class_plus_end name_char
  is_nsname = class_plus_end name_char

  unfoldable pub is_context_val : Text → Bool
  unfolding class_plus_end context_char
  is_context_val = class_plus_end context_char

  unfoldable pub is_kubeconfig_val : Text → Bool
  unfolding class_plus_end kubeconfig_char
  is_kubeconfig_val = class_plus_end kubeconfig_char

  -- `^(?:kind|...)/[\w.-]+$`
  unfoldable pub is_name_behind : Option Text → Bool
  unfolding is_nsname
  is_name_behind none = false
  is_name_behind (some name) = is_nsname name

  unfoldable pub is_kind_name : List Text → Text → Bool
  unfolding after_prefix is_name_behind
  is_kind_name [] s = false
  is_kind_name (kind ∷ kinds) s =
      is_name_behind (after_prefix (kind ++ codes "/") s) || is_kind_name kinds s

abbrev pub namespace_flag : Text → Bool
namespace_flag key = text_eq key (codes "-n") || text_eq key (codes "--namespace")

abbrev pub always_allowed : Text → Bool
always_allowed key =
    namespace_flag key || text_eq key (codes "--context") || text_eq key (codes "--kubeconfig")

-- `_value_ok`
unfoldable pub value_ok : WideWord → Text → Option Text → Bool
unfolding is_nsname is_context_val is_kubeconfig_val text_eq
value_ok wide flag none = false
value_ok wide flag (some value) =
    if namespace_flag flag
    then is_nsname wide value
    else if text_eq flag (codes "--context")
    then is_context_val wide value
    else if text_eq flag (codes "--kubeconfig")
    then is_kubeconfig_val wide value
    else false

pub data NamespaceRule : Type 0 where
  allowed needed forbidden : NamespaceRule

-- The keyword arguments of `safe_kubectl`; the positional pattern is its `match` test.
pub record Shape : Type 0 where
  pub verb : List Text
  pub positional : Option (Text → Bool)
  pub required : List (Text × Text)
  pub namespace : NamespaceRule

-- The variables of the loop but `i`.
pub record Scan : Type 0 where
  pub seen_required : List Text
  pub seen_ns : Bool
  pub got_positional : Bool

-- `key in req`, with the value that it must have
abbrev pub required_value : List (Text × Text) → Text → Option Text
required_value [] key = none
required_value ((k, v) ∷ req) key =
    let rest = required_value req key in if text_eq key k then some v else rest

abbrev pub is_value : Option Text → Text → Bool
is_value none v = false
is_value (some w) v = text_eq w v

abbrev pub pattern_matches : Option (Text → Bool) → Text → Bool
pattern_matches none tok = false
pattern_matches (some p) tok = p tok

unfoldable pub is_positional : Shape → Scan → Text → Bool
unfolding starts_with
is_positional shape st tok =
    not st.got_positional
    && not (starts_with tok (codes "-"))
    && pattern_matches shape.positional tok

-- The value of a flag: what stands behind its `=`, or the next token.
abbrev pub flag_value : Option Text → Option Text → Option Text
flag_value (some inline) next = some inline
flag_value none next = next

-- One round of the loop: `none` for `return False`, else the variables and whether the next token is
-- passed over too.
unfoldable pub scan_flag :
    WideWord → Shape → Scan → Text → Option Text → Text → Option Text → Option (Scan × Bool)
scan_flag wide shape st key inline tok next = elim (required_value shape.required key) [
  | some v ↦
      if is_value (flag_value inline next) v
      then some (record st { seen_required = key ∷ st.seen_required }, not (is_some inline))
      else none
  | none ↦
      if always_allowed key
      then if value_ok wide key (flag_value inline next)
        then some (record st { seen_ns = st.seen_ns || namespace_flag key }, not (is_some inline))
        else none
      else if is_positional shape st tok
      then some (record st { got_positional = true }, false)
      else none
]

unfoldable pub scan_token : WideWord → Shape → Scan → Text → Option Text → Option (Scan × Bool)
scan_token wide shape st tok next =
    let (key, inline) = partition b'=' tok in scan_flag wide shape st key inline tok next

abbrev pub namespace_ok : NamespaceRule → Bool → Bool
namespace_ok allowed seen = true
namespace_ok needed seen = seen
namespace_ok forbidden seen = not seen

-- The tests after the loop.
unfoldable pub scan_end : Shape → Scan → Bool
scan_end shape st =
    st.got_positional
    && all (λ kv. any (text_eq kv.0) st.seen_required) shape.required
    && namespace_ok shape.namespace st.seen_ns

-- The loop over `rest[i:]`; the flag is set while the token is the value of the flag before it.
unfoldable pub scan_tokens : WideWord → Shape → Scan → Bool → List Text → Bool
scan_tokens wide shape st skip [] = scan_end shape st
scan_tokens wide shape st true (tok ∷ rest) = scan_tokens wide shape st false rest
scan_tokens wide shape st false (tok ∷ rest) = elim (scan_token wide shape st tok (head? rest)) [
  | none ↦ false
  | some r ↦ scan_tokens wide shape r.0 r.1 rest
]

-- `toks[len(verb):]` where `toks[:len(verb)]` is the verb
unfoldable pub after_verb : List Text → List Text → Option (List Text)
unfolding text_eq
after_verb [] toks = some toks
after_verb (v ∷ vs) [] = none
after_verb (v ∷ vs) (t ∷ toks) = let rest = after_verb vs toks in if text_eq t v then rest else none

unfoldable pub scan_start : Shape → Scan
scan_start shape = record {
  seen_required = [];
  seen_ns = false;
  got_positional = not (is_some shape.positional);
}

unfoldable pub scan_behind : WideWord → Shape → Option (List Text) → Bool
scan_behind wide shape none = false
scan_behind wide shape (some rest) = scan_tokens wide shape (scan_start shape) false rest

unfoldable pub safe_kubectl : WideWord → Shape → Text → Bool
safe_kubectl wide shape command =
    not (any is_shell_meta command)
    && scan_behind wide shape (after_verb shape.verb (split command))
