-- ===== src/Search/Field.antt =====
-- search.ts: `makeSearchParams` and its kin, `isHash`, `multiFromHashes` and `addFieldToQuery`.
use mwdb_core.Common.{
  ℕ, ◌+◌, Bool, true, false, Option, List, [], ◌∷◌, ◌++◌, if◌then◌else◌, leb, ◌==◌, ◌&&◌, ◌||◌,
  length, every, drop, map,
}
use mwdb_core.Common.Text.{Text, text, starts_with}
use mwdb_core.Common.Strings.{trim, split_spaces, join, includes_text, remove_first}
use mwdb_core.Search.Quote.{string, escape_search_value}

-- A link of the router.
pub record SearchLink : Type 0 where
  pub pathname : Option Text
  pub search : Text

-- A field, or the path of a field.
pub data FieldPath : Type 0 where
  plain : Text → FieldPath
  nested : List Text → FieldPath

-- `${field}` joins an array with commas.
abbrev shown : FieldPath → Text
shown (plain field) = field
shown (nested path) = join path (text ",")

abbrev dotted : FieldPath → Text
dotted (plain field) = field
dotted (nested path) = join path (text ".")

-- `URLSearchParams` and `Date` are the platform's: the query string of the one parameter `q`, and
-- the date of a time, `new Date(value).toISOString().split("T")[0]`.
module _ (query_string : Text → Text) (iso_date : Text → Text) where
  unfoldable pub make_search_params : FieldPath → Text → Bool → Text
  make_search_params field value no_escape =
      text "?"
      ++ query_string
          (shown field ++ 58 ∷ (if no_escape then value else escape_search_value (string value)))

  unfoldable pub make_search_link : FieldPath → Text → Bool → Option Text → SearchLink
  make_search_link field value no_escape pathname = record {
    pathname = pathname;
    search = make_search_params field value no_escape;
  }

  unfoldable pub make_search_config_link : FieldPath → Text → Option Text → SearchLink
  make_search_config_link field value pathname =
      make_search_link (plain (text "cfg." ++ dotted field)) value false pathname

  unfoldable pub make_search_date_link : FieldPath → Text → Option Text → SearchLink
  make_search_date_link field value pathname = make_search_link field (iso_date value) true pathname

unfoldable pub is_hex : ℕ → Bool
is_hex c = (leb 48 c && leb c 57) || ((leb 97 c && leb c 102) || (leb 65 c && leb c 70))

unfoldable pub is_hash_length : ℕ → Bool
is_hash_length n = n == 8 || (n == 32 || (n == 40 || (n == 64 || n == 128)))

unfoldable pub is_hash : Text → Bool
is_hash element = every is_hex element && is_hash_length (length element)

-- `toLowerCase`, on ASCII
unfoldable pub lower_unit : ℕ → ℕ
lower_unit c = if leb 65 c && leb c 90 then c + 32 else c

unfoldable pub multi_from_hashes : Text → Text
multi_from_hashes query =
    if every is_hash (split_spaces query)
    then text "multi:\"" ++ (map lower_unit (join (split_spaces query) (text " ")) ++ text "\"")
    else query

abbrev pub op_not : Text
op_not = text "NOT "

abbrev pub op_and : Text
op_and = text " AND "

abbrev pub op_pre_and : Text
op_pre_and = text "AND "

unfoldable pub negate_query_component : Text → Text
negate_query_component component =
    if starts_with component op_not then drop (length op_not) component else op_not ++ component

unfoldable pub query_component : Text → Text → Text
query_component field value = field ++ 58 ∷ escape_search_value (string value)

-- The branches that the two kinds of field share.
unfoldable pub add_negated : Text → Text → Text
add_negated query component =
    let negated = negate_query_component component in
    if includes_text query component
    then query
    else if includes_text query (op_and ++ negated)
    then remove_first query (op_and ++ negated)
    else if includes_text query negated
    then remove_first query negated
    else query ++ (op_and ++ component)

unfoldable pub add_positive : Text → Text → Text
add_positive query component =
    let negated = negate_query_component component in
    if includes_text query (op_and ++ negated)
    then remove_first query (op_and ++ negated)
    else if includes_text query negated
    then remove_first query negated
    else if includes_text query component
    then query
    else query ++ (op_and ++ component)

abbrev pub add_component : Text → Text → Text → Text
add_component [] field component = component
add_component (c ∷ query) field component =
    if starts_with field op_not
    then add_negated (c ∷ query) component
    else add_positive (c ∷ query) component

abbrev pub strip_pre_and : Text → Text
strip_pre_and query = if starts_with query op_pre_and then drop (length op_pre_and) query else query

unfoldable pub add_field_to_query : Text → Text → Text → Text
add_field_to_query query field value =
    strip_pre_and (trim (add_component query field (query_component field value)))
