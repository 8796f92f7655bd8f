-- ===== src/Rich/Tests.antt =====
-- Runs of the templates, and their theorems at small inputs.
use mwdb_core.Common.{
  ℕ, ◌≡◌, refl, Bool, true, false, Option, none, some, List, [], ◌∷◌, ◌++◌, map, arith, ◌↔◌,
}
use mwdb_core.Common.Text.{Text, text, text_eq}
use mwdb_core.Common.Strings.{join, trim, trim_start, trim_end, is_space}
use mwdb_core.Search.Quote.{
  string, escape_search_value, stringify, quote_units, quote_unit, is_high, is_low, unicode_escape,
  hex_digit,
}
use mwdb_core.Suggest.Structure.{Json, str, obj, end, member}
use mwdb_core.Rich.Split.{
  append_to_last_element, delimiter, split_from, unescape_from, gather, without_last,
  split_by_unescaped_separator, split_name,
}
use mwdb_core.Rich.Split.Reader.{read_parts}
use mwdb_core.Rich.Split.Agrees.{split-reads}
use mwdb_core.Rich.Split.RoundTrip.{write_key, write_path, split_name-write_path}
use mwdb_core.Rich.Escape.{is_markdown, escape_markdown}
use mwdb_core.Rich.Context.{
  threw, found, own_property, member_of, walk, Context, Lambda, searchable, lookup,
}
use mwdb_core.Rich.Query.{make_attribute_query}
use mwdb_core.Rich.Lambdas.{
  push_to_group, group_from, group, indented_trim, keep_lines, split_lines, header_line, paginated,
  limit_after,
}
use mwdb_core.Rich.Lambdas.Group.{items_of, with_key, group_lem, some_unusable, group_throws_iff}
use mwdb_core.Rich.Lambdas.Paginated.{paginated-limit_after}
use mwdb_core.Rich.Lookup.{HasName, lookup-searchable}

escaped_dot : split_name (text "a\\.b.c\\\\.d") ≡ text "a.b" ∷ text "c\\" ∷ text "d" ∷ []
unfolding split_name split_by_unescaped_separator gather split_from delimiter unescape_from
    without_last append_to_last_element text_eq
escaped_dot = refl

-- A hyphen has no backslash: `+-,` is a range of two characters.
hyphen_kept : escape_markdown (text "- a") ≡ text "- a"
unfolding escape_markdown is_markdown
hyphen_kept = refl

-- Two paths that differ have one query.
dotted_key :
    make_attribute_query (text "value" ∷ text "a.b" ∷ []) (string (text "x")) (text "k")
    ≡ make_attribute_query (text "value" ∷ text "a" ∷ text "b" ∷ []) (string (text "x")) (text "k")
unfolding make_attribute_query text_eq join escape_search_value stringify quote_units quote_unit
    is_high is_low unicode_escape hex_digit
dotted_key = refl

split-reads_example :
    split_by_unescaped_separator (text "a\\.b.c") 46 ≡ read_parts 46 false [] (text "a\\.b.c")
split-reads_example = split-reads 46 refl (text "a\\.b.c")

split_name-write_path_example :
    split_name (write_path 46 (text "a.b" ∷ text "c\\" ∷ [])) ≡ text "a.b" ∷ text "c\\" ∷ []
unfolding write_path write_key join
split_name-write_path_example = split_name-write_path (text "a.b") (text "c\\" ∷ []) (λ e. cc e)

abbrev context : Context
context = record {
  view = obj (member (text "value") (obj (member (text "a.b") (str (text "x*")) end)) end);
  parent_path = [];
  last_path = [];
  local_vars = [];
}

abbrev no_lambdas : Text → Option (Lambda ℕ)
no_lambdas name = none

abbrev query_for : List Text → Json → Option Text
query_for path v = some (text "q")

named : HasName (text "value") (text "a.b" ∷ [])
unfolding write_path write_key join
named = record { filled = λ e. cc e; no_dot = λ e. cc e }

found_there : walk context.view (text "value" ∷ text "a.b" ∷ []) ≡ found (str (text "x*"))
unfolding walk own_property member_of text_eq
found_there = refl

lookup-searchable_example :
    (lookup no_lambdas query_for context (64 ∷ write_path 46 (text "value" ∷ text "a.b" ∷ []))).1
    ≡ found (searchable (text "q") (str (text "x*")))
lookup-searchable_example =
    lookup-searchable no_lambdas query_for context (text "value") (text "a.b" ∷ []) (text "x*") 113
      [] named found_there refl

abbrev by_first : Text → Option Text
by_first [] = some (text "undefined")
by_first (c ∷ s) = some (c ∷ [])

abbrev nothing_inherited : Text → Bool
nothing_inherited name = false

abbrev grouped : List (Text × List Text)
grouped = (text "a", text "ab" ∷ text "ac" ∷ []) ∷ (text "b", text "bd" ∷ []) ∷ []

group_lem_example :
    items_of grouped (text "a")
    ≡ with_key by_first nothing_inherited (text "a") (text "ab" ∷ text "bd" ∷ text "ac" ∷ [])
unfolding group group_from push_to_group text_eq
group_lem_example =
    group_lem by_first nothing_inherited (text "ab" ∷ text "bd" ∷ text "ac" ∷ []) grouped (text "a")
      refl

abbrev is_constructor : Text → Bool
is_constructor name = text_eq name (text "constructor")

abbrev some_text : Text → Option Text
some_text s = some s

group_throws_iff_example :
    (group some_text is_constructor (text "a" ∷ text "constructor" ∷ []) ≡ threw)
    ↔ (some_unusable some_text is_constructor (text "a" ∷ text "constructor" ∷ []) ≡ true)
group_throws_iff_example =
    group_throws_iff some_text is_constructor (text "a" ∷ text "constructor" ∷ [])

leading_lines_dropped : indented_trim (text " \n  a\n b \n") ≡ text "  a\n b"
unfolding indented_trim keep_lines split_lines trim trim_start trim_end is_space
leading_lines_dropped = refl

paginated-limit_after_example :
    paginated (λ s. s) none (limit_after 1) (text "a" ∷ text "b" ∷ []) ≡ (
      header_line none ++ join (map (λ x. indented_trim x) (text "a" ∷ text "b" ∷ [])) (10 ∷ []),
      none,
    )
paginated-limit_after_example =
    paginated-limit_after (λ s. s) none 1 (text "a" ∷ text "b" ∷ []) (omega arith)
