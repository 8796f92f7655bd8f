-- ===== src/Suggest/Structure.antt =====
-- useQuerySuggestions.ts: `getStructureFromValue`, `getAttributesStructure` and
-- `getAttributeSuggestions`. An object of the program is a list of its members in the order in which
-- they were made. `JSON.parse` is a parameter; `none` is a text that it refuses.
pub mod Sound
pub mod Paths
use mwdb_core.Common.{
  ℕ, ◌≡◌, refl, ◌∙◌, Bool, true, false, Option, none, some, List, [], ◌∷◌, ◌++◌, if◌then◌else◌, not,
  ◌||◌, arith, map, Bool-cases, inl, inr,
}
use mwdb_core.Common.Text.{Text, text_eq}
use mwdb_core.Suggest.Fields.{FieldDefinition}
use mwdb_core.Suggest.Current.{QuerySuggestion, make_suggestion}
use mwdb_core.Suggest.Fetch.{push_some, set_key, lookup_key}

-- A value of `JSON.parse`; a number is not looked into.
mutual
  pub data Json : Type 0 where
    null : Json
    bool : Bool → Json
    num : ℕ → Json
    str : Text → Json
    arr : Items → Json
    obj : Members → Json

  pub data Items : Type 0 where
    nil : Items
    cons : Json → Items → Items

  pub data Members : Type 0 where
    end : Members
    member : Text → Json → Members → Members

-- An object whose members are such objects.
mutual
  pub data Structure : Type 0 where
    node : Fields → Structure

  pub data Fields : Type 0 where
    none_left : Fields
    field : Text → Structure → Fields → Fields

abbrev pub fields : Structure → Fields
fields (node fs) = fs

-- `structure[key] = value`
unfoldable pub put : Text → Structure → Fields → Fields
put k v none_left = field k v none_left
put k v (field j w fs) = if text_eq j k then field k v fs else field j w (put k v fs)

-- `Object.assign(target, source)`
unfoldable pub assign : Fields → Fields → Fields
assign target none_left = target
assign target (field k v fs) = assign (put k v target) fs

-- `Object.keys(structure)`
unfoldable pub keys : Fields → List Text
keys none_left = []
keys (field k v fs) = k ∷ keys fs

-- `structure[key]`
unfoldable pub get : Text → Fields → Option Structure
get k none_left = none
get k (field j v fs) = if text_eq j k then some v else get k fs

infixl 5 ◌>>=◌
abbrev pub ◌>>=◌ {ℓ κ} : {A : Type ℓ} {B : Type κ} → Option A → (A → Option B) → Option B
none >>= f = none
some a >>= f = f a

-- `getStructureFromValue`; `none` is the error of `Object.entries(null)`.
unfoldable mutual
  pub structure : Json → Option Structure
  structure null = none
  structure (bool b) = some (node none_left)
  structure (num n) = some (node none_left)
  structure (str s) = some (node none_left)
  structure (arr items) = items_structure items none_left
  structure (obj members) = members_structure members none_left

  pub items_structure : Items → Fields → Option Structure
  items_structure nil acc = some (node acc)
  items_structure (cons j items) acc =
      structure j >>= λ s. items_structure items (assign acc (fields s))

  pub members_structure : Members → Fields → Option Structure
  members_structure end acc = some (node acc)
  members_structure (member k j members) acc =
      structure j >>= λ s. members_structure members (put k s acc)

pub record AttributeDefinition : Type 0 where
  pub key : Text
  pub description : Text
  pub example_value : Text

pub record AttributesStructure : Type 0 where
  pub descriptions : List (Text × Text)
  pub values : Fields

-- The value of the `try` block, `{}` if it throws or there is no example.
abbrev pub example_structure : (Text → Option Json) → Text → Structure
example_structure parse [] = node none_left
example_structure parse (c ∷ cs) = elim (parse (c ∷ cs) >>= structure) [
  | none ↦ node none_left
  | some s ↦ s
]

unfoldable pub add_definition :
    (Text → Option Json) → AttributesStructure → AttributeDefinition → AttributesStructure
add_definition parse a d = record {
  descriptions = set_key d.key d.description a.descriptions;
  values = put d.key (example_structure parse d.example_value) a.values;
}

unfoldable pub get_attributes_structure :
    (Text → Option Json) → AttributesStructure → List AttributeDefinition → AttributesStructure
get_attributes_structure parse a [] = a
get_attributes_structure parse a (d ∷ ds) =
    get_attributes_structure parse (add_definition parse a d) ds

-- `Object.keys(value || {}).length > 0`
abbrev pub has_subfields : Option Structure → Bool
has_subfields none = false
has_subfields (some (node none_left)) = false
has_subfields (some (node (field k v fs))) = true

abbrev pub or_empty : Option Structure → Fields
or_empty none = none_left
or_empty (some s) = fields s

unfoldable pub suggest_attributes : Text → List (Text × Text) → Fields → List QuerySuggestion
suggest_attributes partial [] values = []
suggest_attributes partial ((key, description) ∷ rest) values =
    push_some
      (make_suggestion partial key
        (record {
          description = description;
          subfields = has_subfields (get key values);
          subquery = false;
        })
        [])
      (suggest_attributes partial rest values)

unfoldable pub suggest_subfields : Text → List Text → Fields → List QuerySuggestion
suggest_subfields partial [] values = []
suggest_subfields partial (key ∷ rest) values =
    push_some
      (make_suggestion partial key
        (record { description = []; subfields = has_subfields (get key values); subquery = false })
        [])
      (suggest_subfields partial rest values)

-- The loop over `currentField.slice(2, currentField.length - 1)`, and what follows it.
unfoldable pub descend : Text → List Text → Fields → List QuerySuggestion
descend first [] values = suggest_subfields first (keys values) values
descend first (next ∷ path) values =
    if has_subfields (get first values) then descend next path (or_empty (get first values)) else []

unfoldable pub get_attribute_suggestions : List Text → AttributesStructure → List QuerySuggestion
get_attribute_suggestions [] a = []
get_attribute_suggestions (f ∷ []) a = []
get_attribute_suggestions (f ∷ partial ∷ []) a = suggest_attributes partial a.descriptions a.values
get_attribute_suggestions (f ∷ key ∷ first ∷ path) a =
    descend first path (or_empty (get key a.values))
