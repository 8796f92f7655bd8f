-- ===== src/Recent/List.antt =====
-- components/RecentView/Views/RecentViewList.tsx: the reducer, and the component as a machine. The
-- table is rendered anew behind each change, and then the effects whose dependencies have changed are
-- run: `deps` are those of the effect that loads a page, and `request` is the request that it has
-- made and not cancelled. The remote instance does not change; the error that the page is told of is
-- left out.
pub mod Pages
pub mod Stale
use mwdb_core.Common.{
  ℕ, suc, ◌+◌, Bool, true, false, Option, none, some, List, [], ◌∷◌, ◌++◌, ◌==◌, ltb, if◌then◌else◌,
  ◌&&◌, not, last?, ◌≡◌,
}
use mwdb_core.Common.Text.{Text, text_eq}

pub record ListState (E : Type 0) : Type 0 where
  pub page_to_load : ℕ
  pub loaded_pages : ℕ
  pub has_more_pages : Bool
  pub error : Bool
  pub elements : List E

pub data ListAction (E : Type 0) : Type 0 where
  unload load_next_page reload : ListAction E
  page_loaded : List E → ListAction E
  failed : ListAction E

abbrev pub is_empty : {A : Type 0} → List A → Bool
is_empty [] = true
is_empty (x ∷ xs) = false

-- What the list of objects is asked for.
pub record PageRequest : Type 0 where
  pub query : Text
  pub older_than : Option Text

pub record ListView (E : Type 0) : Type 0 where
  pub query : Text
  pub state : ListState E
  pub deps : ℕ × ℕ
  pub request : Option PageRequest

module _ {E : Type 0} where
  abbrev pub first_state : ListState E
  first_state = record {
    page_to_load = 0;
    loaded_pages = 0;
    has_more_pages = false;
    error = false;
    elements = [];
  }

  unfoldable pub list_state_reducer : ListState E → ListAction E → ListState E
  list_state_reducer s unload = first_state
  list_state_reducer s load_next_page = record s { page_to_load = suc s.loaded_pages }
  list_state_reducer s reload = record first_state { page_to_load = 1 }
  list_state_reducer s (page_loaded elements) = record s {
    loaded_pages = suc s.loaded_pages;
    has_more_pages = not (is_empty elements);
    elements = s.elements ++ elements;
  }
  list_state_reducer s failed = record s {
    loaded_pages = suc s.loaded_pages;
    has_more_pages = false;
    error = true;
  }

  abbrev pub pending_load : ListState E → Bool
  pending_load s = ltb s.loaded_pages s.page_to_load

  abbrev pub has_more : ListState E → Bool
  has_more s = s.has_more_pages && not (pending_load s)

  abbrev pub reduce : ListView E → ListAction E → ListView E
  reduce v a = record v { state = list_state_reducer v.state a }

  abbrev pub same_deps : ListView E → Bool
  same_deps v = v.deps.0 == v.state.page_to_load && v.deps.1 == v.state.loaded_pages

  -- `id` of an element is a parameter.
  module _ (id : E → Text) where
    abbrev pub pivot_of : Option E → Option Text
    pivot_of none = none
    pivot_of (some e) = some (id e)

    abbrev pub request_for : Text → List E → PageRequest
    request_for query elements = record { query = query; older_than = pivot_of (last? elements) }

    -- The effect that loads a page: its cleanup cancels the request before.
    unfoldable pub load_page : ListView E → ListView E
    load_page v = if same_deps v then v else record v {
      deps = (v.state.page_to_load, v.state.loaded_pages);
      request = if pending_load v.state then some (request_for v.query v.state.elements) else none;
    }

    unfoldable pub load_more : ListView E → ListView E
    load_more v = if has_more v.state then load_page (reduce v load_next_page) else v

    -- A reply to the request that is not cancelled, with these elements, or an error.
    unfoldable pub get_page : List E → ListView E → ListView E
    get_page elements v = load_page (reduce (record v { request = none }) (page_loaded elements))

    unfoldable pub get_error : ListView E → ListView E
    get_error v = load_page (reduce (record v { request = none }) failed)

    -- The property `disallowEmpty`.
    module _ (disallow_empty : Bool) where
      abbrev pub query_action : Text → ListAction E
      query_action query = if is_empty query && disallow_empty then unload else reload

      -- The effect that resets the list.
      unfoldable pub change_query : Text → ListView E → ListView E
      change_query query v = load_page (reduce (record v { query = query }) (query_action query))

      unfoldable pub mount_list : Text → ListView E
      mount_list query = load_page (
          reduce (record { query = query; state = first_state; deps = (0, 0); request = none })
            (query_action query))
