-- ===== src/Api/Objects.antt =====
-- commons/api/index.tsx: the functions for objects: their tags, comments, relations, shares, attributes and analyses.
use mwdb_core.Common.{ℕ, Option, none, some, List, [], ◌∷◌, ◌++◌}
use mwdb_core.Common.Text.{Text, text}
use mwdb_core.Suggest.Structure.{Json, num, str}
use mwdb_core.Api.Request.{
  get, post, put, delete, Request, request, with_params, with_body, ObjectType, type_text,
}

-- `older_than ? { older_than } : {}`
abbrev pub older_params : Option Text → List (Text × Json)
older_params none = []
older_params (some []) = []
older_params (some (c ∷ s)) = (text "older_than", str (c ∷ s)) ∷ []

unfoldable pub get_object : ObjectType → Text → Request
get_object type id = request get (text "/" ++ (type_text type ++ (text "/" ++ id)))

unfoldable pub get_object_list : ObjectType → Text → Text → Request
get_object_list type older_than query =
    with_params (request get (text "/" ++ type_text type))
      ((text "older_than", str older_than) ∷ (text "query", str query) ∷ [])

unfoldable pub get_object_count : ObjectType → Text → Request
get_object_count type query =
    with_params (request get (text "/" ++ (type_text type ++ text "/count")))
      ((text "query", str query) ∷ [])

unfoldable pub get_tags : Text → ℕ → Request
get_tags query count =
    with_params (request get (text "/tag"))
      ((text "query", str query) ∷ (text "count", num count) ∷ [])

unfoldable pub get_share_info : Request
get_share_info = request get (text "/share")

unfoldable pub get_object_tags : Text → Request
get_object_tags id = request get (text "/object/" ++ (id ++ text "/tag"))

unfoldable pub get_object_comments : Text → Request
get_object_comments id = request get (text "/object/" ++ (id ++ text "/comment"))

unfoldable pub get_object_relations : Text → Request
get_object_relations id = request get (text "/object/" ++ (id ++ text "/relations"))

unfoldable pub add_object_relation : Text → Text → Request
add_object_relation parent child =
    request put (text "/object/" ++ (parent ++ (text "/child/" ++ child)))

unfoldable pub remove_object_relation : Text → Text → Request
remove_object_relation parent child =
    request delete (text "/object/" ++ (parent ++ (text "/child/" ++ child)))

unfoldable pub get_object_shares : Text → Request
get_object_shares id = request get (text "/object/" ++ (id ++ text "/share"))

unfoldable pub get_object_attributes : Text → Request
get_object_attributes id = request get (text "/object/" ++ (id ++ text "/attribute"))

unfoldable pub remove_object : Text → Request
remove_object id = request delete (text "/object/" ++ id)

unfoldable pub add_object_tag : Text → Text → Request
add_object_tag id tag =
    with_body (request put (text "/object/" ++ (id ++ text "/tag"))) ((text "tag", str tag) ∷ [])

unfoldable pub remove_object_tag : Text → Text → Request
remove_object_tag id tag =
    with_params (request delete (text "/object/" ++ (id ++ text "/tag")))
      ((text "tag", str tag) ∷ [])

unfoldable pub add_object_comment : Text → Text → Request
add_object_comment id comment =
    with_body (request post (text "/object/" ++ (id ++ text "/comment")))
      ((text "comment", str comment) ∷ [])

unfoldable pub remove_object_comment : Text → Text → Request
remove_object_comment id comment_id =
    request delete (text "/object/" ++ (id ++ (text "/comment/" ++ comment_id)))

unfoldable pub add_object_attribute : Text → Text → Text → Request
add_object_attribute object_id key value =
    with_body (request post (text "/object/" ++ (object_id ++ text "/attribute")))
      ((text "key", str key) ∷ (text "value", str value) ∷ [])

unfoldable pub remove_object_attribute : Text → Text → Request
remove_object_attribute object_id attribute_id =
    request delete (text "/object/" ++ (object_id ++ (text "/attribute/" ++ attribute_id)))

unfoldable pub add_object_favorite : Text → Request
add_object_favorite id = request put (text "/object/" ++ (id ++ text "/favorite"))

unfoldable pub remove_object_favorite : Text → Request
remove_object_favorite id = request delete (text "/object/" ++ (id ++ text "/favorite"))

unfoldable pub share_object_with : Text → Text → Request
share_object_with id group =
    with_body (request put (text "/object/" ++ (id ++ text "/share")))
      ((text "group", str group) ∷ [])

unfoldable pub add_quick_query : ObjectType → Text → Text → Request
add_quick_query type name query =
    with_body (request post (text "/" ++ (type_text type ++ text "/quick_query"))) (
      (text "type", str (type_text type))
      ∷ (text "name", str name)
      ∷ (text "query", str query)
      ∷ [])

unfoldable pub get_quick_queries : ObjectType → Request
get_quick_queries type = request get (text "/" ++ (type_text type ++ text "/quick_query"))

unfoldable pub delete_quick_query : Text → Request
delete_quick_query id = request delete (text "/quick_query/" ++ id)

unfoldable pub get_karton_analyses_list : Text → Option Text → Request
get_karton_analyses_list id older_than =
    with_params (request get (text "/object/" ++ (id ++ text "/karton"))) (older_params older_than)

unfoldable pub get_karton_analysis_status : Text → Text → Request
get_karton_analysis_status id analysis_id =
    request get (text "/object/" ++ (id ++ (text "/karton/" ++ analysis_id)))

unfoldable pub resubmit_karton_analysis : Text → Request
resubmit_karton_analysis id = request post (text "/object/" ++ (id ++ text "/karton"))

unfoldable pub remove_karton_analysis_from_object : Text → Text → Request
remove_karton_analysis_from_object id analysis_id =
    request delete (text "/object/" ++ (id ++ (text "/karton/" ++ analysis_id)))

unfoldable pub enable_sharing_3rd_party : Text → Request
enable_sharing_3rd_party identifier =
    request put (text "/object/" ++ (identifier ++ text "/share_3rd_party"))
