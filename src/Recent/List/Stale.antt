-- ===== src/Recent/List/Stale.antt =====
-- RecentViewList.tsx: a change of the query while the first page is being loaded.
use mwdb_core.Common.{ℕ, ◌≡◌, refl, Bool, some, List, ◌∷◌}
use mwdb_core.Common.Text.{Text}
use mwdb_core.Recent.List.{
  PageRequest, first_state, list_state_reducer, ListView, load_page, change_query, get_page,
}

-- the list while its first page is being loaded
abbrev pub loading_first : {E : Type 0} → Text → PageRequest → ListView E
loading_first query r = record {
  query = query;
  state = record first_state { page_to_load = 1 };
  deps = (1, 0);
  request = some r;
}

-- If the query changes to one that is loaded while the first page of another is being loaded, the
-- request for the other query is kept, and its elements are shown for the new query.
pub get_page-change_query :
    {E : Type 0} (id : E → Text) (disallow_empty : Bool) (c : ℕ) (query old : Text)
    (r : PageRequest) (elements : List E)
    → (change_query id disallow_empty (c ∷ query) (loading_first old r)).request ≡ some r
      × ((get_page id elements
            (change_query id disallow_empty (c ∷ query) (loading_first old r))).state.elements
          ≡ elements)
      × ((get_page id elements
            (change_query id disallow_empty (c ∷ query) (loading_first old r))).query
          ≡ c ∷ query)
unfolding change_query get_page load_page list_state_reducer
get_page-change_query id disallow_empty c query old r elements = (refl, refl, refl)
