-- ===== src/Search/Tests.antt =====
-- Runs of the search modules at small inputs, and their theorems at such inputs.
use mwdb_core.Common.{◌≡◌, refl, some, [], ◌∷◌, ◌++◌, map}
use mwdb_core.Common.Text.{Text, text, starts_with}
use mwdb_core.Common.Strings.{
  is_space, trim_start, trim_end, trim, join, split_first, includes_text,
}
use mwdb_core.Search.Quote.{
  hex_digit, unicode_escape, quote_unit, is_high, is_low, quote_units, stringify, string,
  escape_search_value, is_special, escape_field_unit, escape_search_field,
}
use mwdb_core.Search.Field.{
  is_hex, is_hash_length, is_hash, lower_unit, multi_from_hashes, op_not, op_and,
  negate_query_component, query_component, add_positive, add_field_to_query,
}
use mwdb_core.Search.Tokens.{match_phrase, escape_search_value-IsPhrase}
use mwdb_core.Search.Hashes.{multi_from_hashes_lem}
use mwdb_core.Search.Toggle.{IsTidy, IsNew, add_field_to_query-new, add_field_to_query-negation}

escaped_field : escape_search_field (text "08:00") ≡ text "08\\:00"
unfolding escape_search_field escape_field_unit is_special
escaped_field = refl

escaped_value : escape_search_value (string (text "a\"b")) ≡ text "\"a\\\"b\""
unfolding escape_search_value stringify quote_units quote_unit is_high is_low unicode_escape
    hex_digit
escaped_value = refl

escape_search_value-IsPhrase_example :
    match_phrase (escape_search_value (string (text "a\"b")) ++ text " AND") ≡ some (text " AND")
escape_search_value-IsPhrase_example = escape_search_value-IsPhrase (text "a\"b") (text " AND")

multi_from_hashes_lem_example :
    multi_from_hashes (join (text "DEADBEEF" ∷ text "01234567" ∷ []) (32 ∷ text " "))
    ≡ text "multi:\""
      ++ (map lower_unit (join (text "DEADBEEF" ∷ text "01234567" ∷ []) (text " ")) ++ text "\"")
unfolding is_hash is_hex is_hash_length is_space
multi_from_hashes_lem_example =
    multi_from_hashes_lem (text "DEADBEEF") (text "01234567" ∷ []) 32 (text " ") refl refl
      (refl, tt)

abbrev query : Text
query = text "tag:\"a\""

query-IsTidy : IsTidy query
unfolding trim_start trim_end is_space starts_with
query-IsTidy = record {
  nonempty = λ e. cc;
  no_space_before = refl;
  no_space_after = refl;
  no_operator = refl;
  no_operator_alone = refl;
}

query-IsNew : IsNew query (query_component (text "size") (text "1"))
unfolding includes_text split_first starts_with query_component escape_search_value stringify
    quote_units quote_unit is_high is_low negate_query_component
query-IsNew = record { no_component = refl; no_negation = refl; no_and_negation = refl }

component_added :
    add_field_to_query query (text "size") (text "1")
    ≡ query ++ (op_and ++ query_component (text "size") (text "1"))
unfolding starts_with
component_added =
    add_field_to_query-new query (text "size") (text "1") query-IsTidy refl query-IsNew

component_removed :
    add_field_to_query
      (query ++ (op_and ++ query_component (text "size") (text "1")))
      (op_not ++ text "size")
      (text "1")
    ≡ query
unfolding includes_text split_first starts_with query_component escape_search_value stringify
    quote_units quote_unit is_high is_low
component_removed =
    add_field_to_query-negation query (text "size") (text "1") query-IsTidy refl refl

-- A field that ends another field name is not added.
file_type_hides_type :
    add_field_to_query (text "file.type:\"a\"") (text "type") (text "a") ≡ text "file.type:\"a\""
unfolding add_field_to_query add_positive negate_query_component query_component includes_text
    split_first starts_with escape_search_value stringify quote_units quote_unit is_high is_low trim
    trim_start trim_end is_space
file_type_hides_type = refl
