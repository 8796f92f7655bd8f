-- ===== src/Recent/View.antt =====
-- components/RecentView/Views/RecentView.tsx: the query in the address, in the input and under way. Of
-- the parameters of the address those that the page names are modelled; `counting` are the queries
-- whose counts are asked for, and no count is ever cancelled.
pub mod Settles
use mwdb_core.Common.{ℕ, Bool, true, false, Option, none, some, List, [], ◌∷◌, ◌++◌, if◌then◌else◌}
use mwdb_core.Common.Text.{Text, text, text_eq}
use mwdb_core.Search.Field.{multi_from_hashes, add_field_to_query}

pub record Params : Type 0 where
  pub q : Option Text
  pub count : Option Text
  pub query : Option Text

pub record RecentView : Type 0 where
  pub params : Params
  pub query_input : Text
  pub query_error : Option Text
  pub object_count : Option ℕ
  pub counting : List Text

-- `params.get(name) || ""`
abbrev pub or_empty : Option Text → Text
or_empty none = []
or_empty (some s) = s

abbrev pub is_text : Text → Option Text → Bool
is_text s none = false
is_text s (some t) = text_eq t s

abbrev pub current_query : RecentView → Text
current_query v = or_empty v.params.q

abbrev pub counting_enabled : RecentView → Bool
counting_enabled v = is_text (text "1") v.params.count

abbrev pub count_flag : Option Text → Text
count_flag count = if is_text (text "1") count then text "1" else text "0"

-- `none` where the code throws.
unfoldable pub set_current_query : Text → RecentView → Option RecentView
set_current_query query v =
    if is_text (multi_from_hashes query) v.params.query
    then none
    else some (record v {
      query_error = none;
      params = record v.params {
        q = some (multi_from_hashes query);
        count = some (count_flag v.params.count);
      };
    })

unfoldable pub add_to_query : Text → Text → RecentView → Option RecentView
add_to_query field value v = set_current_query (add_field_to_query (current_query v) field value) v

unfoldable pub make_count_for_query : Text → RecentView → RecentView
make_count_for_query query v = record v { object_count = none; counting = v.counting ++ query ∷ [] }

-- The replies to a count.
unfoldable pub set_object_count : ℕ → RecentView → RecentView
set_object_count n v = record v { object_count = some n }

unfoldable pub fail_count : Text → RecentView → RecentView
fail_count error v = record v { query_error = some error }

abbrev pub count_if : Bool → Text → Option RecentView → Option RecentView
count_if enabled query none = none
count_if enabled query (some v) = some (if enabled then make_count_for_query query v else v)

unfoldable pub submit_query : Text → RecentView → Option RecentView
submit_query query v = count_if (counting_enabled v) query (set_current_query query v)

-- The effect that runs when the query in the address changes.
unfoldable pub show_query : RecentView → Option RecentView
show_query v = submit_query (current_query v) (record v { query_input = current_query v })

-- The button that turns the count on and off.
unfoldable pub toggle_count : RecentView → RecentView
toggle_count v = record v {
  params = record v.params {
    q = some (current_query v);
    count = some (if counting_enabled v then text "0" else text "1");
  };
}
