-- ===== src/Recent/Tests.antt =====
-- Runs of the list and of the query input at small inputs.
use mwdb_core.Common.{◌≡◌, refl, true, Option, none, some, List, [], ◌∷◌, if◌then◌else◌}
use mwdb_core.Common.Text.{Text, text, text_eq}
use mwdb_core.Query.Lexer.{expr_term, Scan}
use mwdb_core.Common.Strings.{is_space, split_from, split_spaces, join}
use mwdb_core.Search.Field.{is_hash, is_hex, is_hash_length, lower_unit, multi_from_hashes}
use mwdb_core.Recent.View.{
  RecentView, set_current_query, make_count_for_query, submit_query, show_query,
}
use mwdb_core.Recent.View.Settles.{written, show_query-settles}
use mwdb_core.Recent.List.{
  list_state_reducer, PageRequest, ListView, load_page, load_more, get_page, change_query,
  mount_list,
}
use mwdb_core.Recent.List.Pages.{
  pages, Reachable, mounted, after, loads_more, gets_page, HasRequest, elements-pages,
  Reachable-HasRequest,
}
use mwdb_core.Recent.List.Stale.{loading_first, get_page-change_query}
use mwdb_core.Recent.Input.{decorate, insert_text_data, without_breaks}
use mwdb_core.Recent.Input.Ranges.{Tiles, decorate-Tiles}

-- The server has the objects `c`, `b` and `a`, and gives them one by one.
abbrev served_behind : Option Text → List Text
served_behind none = text "c" ∷ []
served_behind (some e) =
    if text_eq e (text "c")
    then text "b" ∷ []
    else if text_eq e (text "b")
    then text "a" ∷ []
    else []

abbrev answer : PageRequest → List Text
answer r = served_behind r.older_than

abbrev own_id : Text → Text
own_id e = e

abbrev first_loaded : ListView Text
first_loaded = get_page own_id (text "c" ∷ []) (mount_list own_id true (text "q"))

abbrev second_loaded : ListView Text
second_loaded = get_page own_id (text "b" ∷ []) (load_more own_id first_loaded)

first_loaded-Reachable : Reachable own_id true answer first_loaded
unfolding get_page load_page mount_list list_state_reducer
first_loaded-Reachable = after (mounted (text "q")) (
    gets_page (mount_list own_id true (text "q")) (record { query = text "q"; older_than = none })
      refl)

second_loaded-Reachable : Reachable own_id true answer second_loaded
unfolding get_page load_page mount_list list_state_reducer load_more text_eq
second_loaded-Reachable = after (after first_loaded-Reachable (loads_more first_loaded)) (
    gets_page (load_more own_id first_loaded)
      (record { query = text "q"; older_than = some (text "c") }) refl)

two_pages : second_loaded.state.elements ≡ text "c" ∷ text "b" ∷ []
unfolding get_page load_page mount_list list_state_reducer load_more
two_pages = refl

elements-pages_example :
    second_loaded.state.elements
    ≡ pages own_id true answer second_loaded.query second_loaded.state.loaded_pages
unfolding get_page load_page mount_list list_state_reducer load_more
elements-pages_example =
    elements-pages own_id true answer second_loaded second_loaded-Reachable refl

Reachable-HasRequest_example : HasRequest own_id true answer (load_more own_id first_loaded)
unfolding get_page load_page mount_list list_state_reducer load_more
Reachable-HasRequest_example =
    Reachable-HasRequest own_id true answer (load_more own_id first_loaded)
      (after first_loaded-Reachable (loads_more first_loaded)) refl

abbrev old_request : PageRequest
old_request = record { query = text "old"; older_than = none }

stale_page :
    (change_query own_id true (text "new") (loading_first (text "old") old_request)).request
      ≡ some old_request
    × ((get_page own_id (text "c" ∷ []) (
          change_query own_id true
            (text "new")
            (loading_first (text "old") old_request))).state.elements
        ≡ text "c" ∷ [])
    × ((get_page own_id
          (text "c" ∷ [])
          (change_query own_id true (text "new") (loading_first (text "old") old_request))).query
        ≡ text "new")
stale_page =
    get_page-change_query own_id true 110 (text "ew") (text "old") old_request (text "c" ∷ [])

breaks_pasted : insert_text_data (text "a\r\nb\nc") ≡ text "a b c"
unfolding insert_text_data without_breaks
breaks_pasted = refl

-- A tokenizer that knows no break.
abbrev moo : Text → Scan
moo query = record {
  tokens = record { type = some expr_term; value = query; offset = 0 } ∷ [];
  failure = none;
}

one_range : Tiles 0 1 (decorate moo (text "a"))
one_range = decorate-Tiles moo (text "a") (refl, refl, refl)

-- The address `?q=AAAABBBB&count=1`.
abbrev hash_view : RecentView
hash_view = record {
  params = record { q = some (text "AAAABBBB"); count = some (text "1"); query = none };
  query_input = [];
  query_error = none;
  object_count = none;
  counting = [];
}

abbrev outcome : Option RecentView → Option (Option Text)
outcome none = none
outcome (some v) = some v.params.q

hash_is_converted : outcome (show_query hash_view) ≡ some (some (text "multi:\"aaaabbbb\""))
unfolding show_query submit_query set_current_query make_count_for_query multi_from_hashes
    split_spaces split_from is_space is_hash is_hex is_hash_length join lower_unit text_eq
hash_is_converted = refl

show_query-settles_example :
    (w : RecentView) × (show_query hash_view ≡ some w)
    × (w.query_input ≡ text "AAAABBBB")
    × (w.params.q ≡ some (written (text "AAAABBBB")))
    × ((u : RecentView) × (show_query w ≡ some u) × (u.params ≡ w.params))
show_query-settles_example = show_query-settles hash_view refl
