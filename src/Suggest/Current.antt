-- ===== src/Suggest/Current.antt =====
-- useQuerySuggestions.ts: `getCurrentField` and `makeSuggestion`.
use mwdb_core.Common.{
  ℕ, ◌-◌, Bool, false, Option, none, some, List, [], ◌∷◌, ◌++◌, if◌then◌else◌, leb, length, take,
  any,
}
use mwdb_core.Common.Text.{Text, text, starts_with}
use mwdb_core.Query.Lexer.{
  TokenType, value_lpar, type_eq, includes, lpar_types, rpar_types, field_types, field_part_types,
}
use mwdb_core.Query.Annotate.{AnnotationType, token, error, QueryAnnotation, AnnotatedQuery}
use mwdb_core.Suggest.Fields.{FieldDefinition}

-- `types.includes(annotation.type)`, where the type may be "error"
unfoldable pub type_in : List TokenType → AnnotationType → Bool
type_in types (token t) = includes types t
type_in types error = false

-- The two variables of the loop; the stack has its top at the head.
pub record Scope : Type 0 where
  pub current_field : List Text
  pub bracket_stack : List AnnotationType

abbrev pop : List AnnotationType → List AnnotationType
pop [] = []
pop (t ∷ ts) = ts

abbrev pub next_field : List Text → QueryAnnotation → List Text
next_field fields a =
    if type_in field_types a.type
    then fields ++ a.value ∷ []
    else if type_in field_part_types a.type
    then fields
    else []

abbrev next_stack : List AnnotationType → QueryAnnotation → List AnnotationType
next_stack stack a =
    if type_in lpar_types a.type
    then a.type ∷ stack
    else if type_in rpar_types a.type
    then pop stack
    else stack

unfoldable pub scan_fields : Scope → List QueryAnnotation → Scope
scan_fields s [] = s
scan_fields s (a ∷ as') =
    scan_fields
      (record {
        current_field = next_field s.current_field a;
        bracket_stack = next_stack s.bracket_stack a;
      })
      as'

abbrev is_value_lpar : AnnotationType → Bool
is_value_lpar (token t) = type_eq t value_lpar
is_value_lpar error = false

-- The current field path, and whether it is inside a subquery.
unfoldable pub get_current_field : AnnotatedQuery → List Text × Bool
get_current_field r =
    let s = scan_fields (record { current_field = []; bracket_stack = [] }) r.annotations in
    (
      if any (includes field_types) r.next_possible_tokens
          then s.current_field ++ [] ∷ []
          else s.current_field,
      any is_value_lpar s.bracket_stack,
    )

pub record QuerySuggestion : Type 0 where
  pub suggestion : Text
  pub description : Text
  pub apply : Text → Text

-- `query.slice(0, query.length - n)`; a negative end is counted from the end of the text.
abbrev pub slice_off : ℕ → Text → Text
slice_off n query =
    if leb n (length query)
    then take (length query - n) query
    else take (length query - (n - length query)) query

abbrev pub suffix : FieldDefinition → Text
suffix d = if d.subquery then text ":(" else if d.subfields then text "." else text ":"

unfoldable pub make_suggestion : Text → Text → FieldDefinition → Text → Option QuerySuggestion
make_suggestion partial suggested definition prefix =
    if starts_with (prefix ++ suggested) partial
    then some (record {
      suggestion = (prefix ++ suggested) ++ suffix definition;
      description = definition.description;
      apply =
          λ query. slice_off (length partial) query ++ ((prefix ++ suggested) ++ suffix definition);
    })
    else none
