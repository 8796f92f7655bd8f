-- ===== src/Rich/Query.antt =====
-- RichAttributeRenderer.tsx: `makeAttributeQuery`.
use mwdb_core.Common.{Option, none, some, List, [], ◌∷◌, ◌++◌, ◌||◌, if◌then◌else◌}
use mwdb_core.Common.Text.{Text, text, text_eq}
use mwdb_core.Common.Strings.{join}
use mwdb_core.Search.Quote.{SearchValue, escape_search_value}

unfoldable pub make_attribute_query : List Text → SearchValue → Text → Option Text
make_attribute_query [] value attribute_key = none
make_attribute_query (top ∷ path) value attribute_key =
    if text_eq top (text "value") || text_eq top (text "value*")
    then some (
        join
          (text "attribute"
            ∷ (if text_eq top (text "value*") then attribute_key ++ text "*" else attribute_key)
            ∷ path)
          (text ".")
        ++ (text ":" ++ escape_search_value value))
    else none
