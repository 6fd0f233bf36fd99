-- ===== src/Act/Authoring.antt =====
-- probe/solutions.py: the entries of the runbook are read, added as drafts and vouched for. Finding,
-- reading and writing the file are outside the model; `compiles` is `re.compile`.
pub mod Drafts
use steadystate_ai.Prelude.{
  Bool, true, false, not, ◌&&◌, ◌||◌, Option, none, some, List, [], ◌∷◌, ◌++◌, String, str_eq, any,
  keep, find, is_some, if◌then◌else◌,
}
use steadystate_ai.Prelude.Texts.{Text, codes, text_eq}
use steadystate_ai.Prelude.Strings.{strip_text}
use steadystate_ai.Prelude.Dicts.{put, lookup}
use steadystate_ai.Mutes.{Value, text, other, value_text, or_text}
use steadystate_ai.Act.Host.{Solution}

-- A value of an entry: no object, or an object with the text that `str(value or "")` gives.
pub data Field : Type 0 where
  value : Value → Field
  object : List (String × Value) → String → Field

abbrev pub field_value : Field → String
field_value (value v) = value_text v
field_value (object fields s) = s

abbrev pub Raw : Type 0
Raw = List (String × Field)

-- An item of the file's list.
pub data Item : Type 0 where
  not_object : Item
  entry : Raw → Item

-- `str(raw.get(key) or "")`; the text is empty exactly where the value is missing or falsy.
unfoldable pub raw_text : String → Raw → String
unfolding lookup
raw_text key raw = elim (lookup key raw) [ none ↦ "" | some f ↦ field_value f ]

abbrev pub item_text : String → List (String × Value) → String
item_text key fields = elim (lookup key fields) [ none ↦ "" | some v ↦ value_text v ]

-- `_BOUND_LEVELS`
unfoldable pub is_level : Text → Bool
unfolding text_eq
is_level s = any (text_eq s) (codes "low" ∷ codes "medium" ∷ codes "high" ∷ [])

abbrev pub solution_object : Option Field → Option (List (String × Value))
solution_object (some (object fields s)) = some fields
solution_object _ = none

-- `it.get("name") == name`
unfoldable pub is_named : String → Item → Bool
unfolding lookup
is_named name not_object = false
is_named name (entry raw) = elim (lookup "name" raw) [
  | some (value (text s)) ↦ str_eq s name
  | _ ↦ false
]

-- `bool` as JSON, with the text of `str(value or "")`
abbrev pub flag : Bool → Field
flag true = value (other "True")
flag false = value (other "")

-- The author and the date, where they are missing.
abbrev pub signed : String → Raw → Raw
signed author raw =
    if not (str_eq author "") && str_eq (raw_text "author" raw) ""
    then put "author" (value (text author)) raw
    else raw

abbrev pub dated : String → Raw → Raw
dated today raw =
    if str_eq (raw_text "added" raw) "" then put "added" (value (text today)) raw else raw

-- What the writer stamps; the trust is stamped whatever the entry says.
unfoldable pub stamp : String → String → Bool → Raw → Raw
unfolding raw_text put
stamp author today proposed raw = put "proposed" (flag proposed) (dated today (signed author raw))

-- The items of the same name are replaced.
abbrev pub store_solution : List Item → Item → Option Solution → Option (Solution × List Item)
store_solution items stamped none = none
store_solution items stamped (some sol) =
    some (sol, keep (λ it. not (is_named sol.name it)) items ++ (stamped ∷ []))

module _ (lower : Text → Text) (compiles : String → Bool) where
  abbrev pub solution_of : Raw → List (String × Value) → Solution
  solution_of raw sol = record {
    name = strip_text (raw_text "name" raw);
    kind = codes (strip_text (item_text "kind" sol));
    run = codes (strip_text (item_text "run" sol));
    target = codes (strip_text (item_text "target" sol));
    for_category = codes (strip_text (raw_text "for" raw));
    title_match = codes (strip_text (raw_text "match" raw));
    problem = codes (strip_text (raw_text "problem" raw));
    impact = lower (codes (strip_text (or_text (raw_text "impact" raw) "medium")));
    reversibility = lower (codes (strip_text (or_text (raw_text "reversibility" raw) "medium")));
    author = strip_text (raw_text "author" raw);
    added = codes (strip_text (raw_text "added" raw));
    proposed = not (str_eq (raw_text "proposed" raw) "");
  }

  -- What must hold of an entry, besides that its `solution` is an object.
  unfoldable pub is_valid : Raw → List (String × Value) → Bool
  unfolding raw_text strip_text is_level
  is_valid raw sol =
      let set = λ (s : String). not (str_eq (strip_text s) "") in
      set (raw_text "name" raw)
      && set (raw_text "author" raw)
      && (set (raw_text "for" raw) || set (raw_text "match" raw))
      && (not (set (raw_text "match" raw)) || compiles (strip_text (raw_text "match" raw)))
      && set (item_text "kind" sol)
      && (set (item_text "run" sol) || set (item_text "target" sol))
      && is_level (solution_of raw sol).impact
      && is_level (solution_of raw sol).reversibility

  abbrev pub parse_object : Raw → Option (List (String × Value)) → Option Solution
  parse_object raw none = none
  parse_object raw (some sol) = if is_valid raw sol then some (solution_of raw sol) else none

  -- `parse_solution`
  unfoldable pub parse_solution : Item → Option Solution
  unfolding lookup
  parse_solution not_object = none
  parse_solution (entry raw) = parse_object raw (solution_object (lookup "solution" raw))

  -- `load_solutions`, of the list that the file holds, or else the empty one
  unfoldable pub load_solutions : List Item → List Solution
  unfolding parse_solution
  load_solutions [] = []
  load_solutions (item ∷ items) = elim (parse_solution item) [
    | none ↦ load_solutions items
    | some sol ↦ sol ∷ load_solutions items
  ]

  -- `add_solution`: the solution and the list afterwards, or nothing where it does not validate.
  unfoldable pub add_solution :
      Raw → String → String → Bool → List Item → Option (Solution × List Item)
  unfolding stamp parse_solution
  add_solution raw author today proposed items =
      let stamped = entry (stamp author today proposed raw) in
      store_solution items stamped (parse_solution stamped)

-- The change of an entry that is vouched for.
abbrev pub vouch_raw : String → Raw → Raw
vouch_raw actor raw =
    let vouched = put "proposed" (flag false) raw in
    if str_eq actor "" then vouched else put "vouched_by" (value (text actor)) vouched

unfoldable pub vouch_item : String → String → Item → Item
unfolding is_named
vouch_item name actor not_object = not_object
vouch_item name actor (entry raw) =
    if is_named name (entry raw) then entry (vouch_raw actor raw) else entry raw

unfoldable pub vouch_each : String → String → List Item → List Item
unfolding vouch_item
vouch_each name actor [] = []
vouch_each name actor (item ∷ items) = vouch_item name actor item ∷ vouch_each name actor items

-- `vouch_solution`: the list afterwards, or nothing where no entry has that name.
unfoldable pub vouch_solution : String → String → List Item → Option (List Item)
unfolding vouch_each is_named
vouch_solution name actor items =
    if any (is_named name) items then some (vouch_each name actor items) else none
