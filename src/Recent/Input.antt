-- ===== src/Recent/Input.antt =====
-- components/RecentView/common/QueryInput.tsx: what is pasted, how the annotations of the query are
-- shown, and the three texts that the component keeps. The editor (slate) is its one line of text.
pub mod Ranges
use mwdb_core.Common.{
  ℕ, ◌+◌, Bool, true, false, Option, none, some, List, [], ◌∷◌, ◌++◌, ◌==◌, if◌then◌else◌, map,
  length, ◌&&◌, any, ◌||◌,
}
use mwdb_core.Common.Text.{Text, text, text_eq}
use mwdb_core.Query.Lexer.{
  TokenType, Scan, value_phrase, value_phrase_unfin, oper_types, field_types,
}
use mwdb_core.Query.Annotate.{AnnotationType, QueryAnnotation, annotate_query}
use mwdb_core.Suggest.Current.{type_in}

abbrev pasted_unit : Bool → ℕ → Text
pasted_unit behind_return c =
    if c == 13 then 32 ∷ [] else if c == 10 then (if behind_return then [] else 32 ∷ []) else c ∷ []

-- `textData.replaceAll(/\r\n|\r|\n/g, " ")`; the flag tells that a carriage return stands before.
unfoldable pub without_breaks : Bool → Text → Text
without_breaks behind_return [] = []
without_breaks behind_return (c ∷ s) = pasted_unit behind_return c ++ without_breaks (c == 13) s

abbrev pub is_break : ℕ → Bool
is_break c = c == 10 || c == 13

unfoldable pub insert_text_data : Text → Text
insert_text_data s = if any is_break s then without_breaks false s else s

pub data LeafStyle : Type 0 where
  plain opened_bracket operator field_name phrase syntax_error : LeafStyle

abbrev is_opened : Option Bool → Bool
is_opened none = false
is_opened (some b) = b

abbrev has_failure : {A : Type 0} → Option A → Bool
has_failure none = false
has_failure (some e) = true

unfoldable pub leaf_style : QueryAnnotation → LeafStyle
leaf_style a =
    if is_opened a.last_opened_bracket
    then opened_bracket
    else if type_in oper_types a.type
    then operator
    else if type_in field_types a.type
    then field_name
    else if type_in (value_phrase ∷ value_phrase_unfin ∷ []) a.type
    then phrase
    else if has_failure a.failure
    then syntax_error
    else plain

-- the decorated range of an annotation
pub record DecoratedRange : Type 0 where
  pub annotation : QueryAnnotation
  pub anchor : ℕ
  pub focus : ℕ

abbrev pub range_of : QueryAnnotation → DecoratedRange
range_of a = record { annotation = a; anchor = a.offset; focus = a.offset + length a.value }

-- For the text of the one text node.
unfoldable pub decorate : (Text → Scan) → Text → List DecoratedRange
decorate moo query = map range_of (annotate_query moo query).annotations

-- The property `value`, the state `rawValue`, and the text of the editor.
pub record QueryInput : Type 0 where
  pub value : Text
  pub raw_value : Text
  pub editor : Text

-- The effect that puts a value from outside into the editor.
unfoldable pub show_value : QueryInput → QueryInput
show_value i =
    if text_eq i.raw_value i.value then i else record i { editor = i.value; raw_value = i.value }

-- `updateValue`, with the parent's `onChange`, which sets the property.
unfoldable pub update_value : Text → QueryInput → QueryInput
update_value typed i = show_value (record i { editor = typed; raw_value = typed; value = typed })

unfoldable pub apply_suggestion : (Text → Text) → QueryInput → QueryInput
apply_suggestion apply i = show_value (record i { value = apply i.raw_value })
