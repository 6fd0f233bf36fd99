-- ===== src/Domains/Properties.antt =====
-- The JSON properties of a resource, and what the packs of src/steadystate/domains share to read them.
use Prim.Native.String.{String}
use steadystate_ai.Prelude.{
  Bool, true, false, not, Option, none, some, List, [], ◌∷◌, ◌++◌, str_eq, any, if◌then◌else◌,
}
use steadystate_ai.Prelude.Strings.{strip_text}
use steadystate_ai.Model.{Reference}

-- A number is kept with whether it is not zero, and with its text.
mutual
  pub data Value : Type 0 where
    null : Value
    boolean : Bool → Value
    number : Bool → String → Value
    text : String → Value
    array : Items → Value
    object : Fields → Value

  pub data Items : Type 0 where
    nil : Items
    cons : Value → Items → Items

  pub data Fields : Type 0 where
    end : Fields
    field : String → Value → Fields → Fields

-- `props.get(key)`
abbrev pub get : String → Fields → Option Value
get key end = none
get key (field k v fields) = let rest = get key fields in if str_eq k key then some v else rest

abbrev pub items_list : Items → List Value
items_list nil = []
items_list (cons v items) = v ∷ items_list items

-- `_as_dict`
abbrev pub as_dict : Option Fields → Fields
as_dict none = end
as_dict (some fields) = fields

-- `bool(value)`
abbrev pub is_true : Value → Bool
is_true null = false
is_true (boolean b) = b
is_true (number nonzero s) = nonzero
is_true (text s) = not (str_eq s "")
is_true (array nil) = false
is_true (array (cons v items)) = true
is_true (object end) = false
is_true (object (field k v fields)) = true

-- `_as_list`
abbrev pub as_list : Option Value → List Value
as_list none = []
as_list (some null) = []
as_list (some (array items)) = items_list items
as_list (some v) = v ∷ []

abbrev pub one_of : List String → String → Bool
one_of texts s = any (str_eq s) texts

-- Whether `str(value)` is one of the texts, none of which the text of a container, a Boolean or null is.
abbrev pub shown_in : List String → Value → Bool
shown_in texts (text s) = one_of texts s
shown_in texts (number nonzero s) = one_of texts s
shown_in texts _ = false

-- `lower` is Python's `str.lower`.
module _ (lower : String → String) where
  -- `_truthy`
  abbrev pub truthy : Value → Bool
  truthy (text s) = one_of ("true" ∷ "1" ∷ "yes" ∷ []) (lower (strip_text s))
  truthy v = is_true v

  -- `_truthy(props.get(key))`
  abbrev pub truthy_field : Option Value → Bool
  truthy_field none = false
  truthy_field (some v) = truthy v

  -- `_norm`: the text in lower case without blanks at its ends, or the empty text
  abbrev pub norm : Option Value → String
  norm (some (text s)) = lower (strip_text s)
  norm _ = ""

abbrev mitre : String → String → String → Reference
mitre id name url = record {
  framework = "MITRE";
  id = id;
  name = name;
  url = some url;
  level = none;
}

abbrev pub t1530 : Reference
t1530 = mitre "T1530" "Data from Cloud Storage" "https://attack.mitre.org/techniques/T1530/"

abbrev pub t1190 : Reference
t1190 =
    mitre "T1190" "Exploit Public-Facing Application" "https://attack.mitre.org/techniques/T1190/"

abbrev pub t1098 : Reference
t1098 = mitre "T1098" "Account Manipulation" "https://attack.mitre.org/techniques/T1098/"

abbrev pub t1562 : Reference
t1562 = mitre "T1562" "Impair Defenses" "https://attack.mitre.org/techniques/T1562/"

-- `if test: out.extend(found)`
abbrev pub when : Bool → List Reference → List Reference → List Reference
when true found rest = found ++ rest
when false found rest = rest
