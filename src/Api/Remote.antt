-- ===== src/Api/Remote.antt =====
-- commons/api/index.tsx: the functions for remote instances.
use mwdb_core.Common.{[], ◌∷◌, ◌++◌}
use mwdb_core.Common.Text.{Text, text}
use mwdb_core.Suggest.Structure.{str}
use mwdb_core.Api.Request.{
  get, post, Request, request, with_params, with_body, as_binary, ObjectType, type_text,
}

unfoldable pub get_remote_names : Request
get_remote_names = request get (text "/remote")

unfoldable pub push_object_remote : Text → Text → Text → Text → Request
push_object_remote remote type identifier upload_as =
    with_body
      (request post
        (text "/remote/" ++ (remote ++ (text "/push/" ++ (type ++ (text "/" ++ identifier))))))
      ((text "upload_as", str upload_as) ∷ [])

unfoldable pub pull_object_remote : Text → Text → Text → Text → Request
pull_object_remote remote type identifier upload_as =
    with_body
      (request post
        (text "/remote/" ++ (remote ++ (text "/pull/" ++ (type ++ (text "/" ++ identifier))))))
      ((text "upload_as", str upload_as) ∷ [])

unfoldable pub get_remote_object : Text → ObjectType → Text → Request
get_remote_object remote type id =
    request get
      (text "/remote/" ++ (remote ++ (text "/api/" ++ (type_text type ++ (text "/" ++ id)))))

unfoldable pub get_remote_object_list : Text → ObjectType → Text → Text → Request
get_remote_object_list remote type older_than query =
    with_params (request get (text "/remote/" ++ (remote ++ (text "/api/" ++ type_text type))))
      ((text "older_than", str older_than) ∷ (text "query", str query) ∷ [])

unfoldable pub get_remote_object_count : Text → ObjectType → Text → Request
get_remote_object_count remote type query =
    with_params
      (request get
        (text "/remote/" ++ (remote ++ (text "/api/" ++ (type_text type ++ text "/count")))))
      ((text "query", str query) ∷ [])

unfoldable pub get_remote_object_tags : Text → Text → Request
get_remote_object_tags remote id =
    request get (text "/remote/" ++ (remote ++ (text "/api/object/" ++ (id ++ text "/tag"))))

unfoldable pub get_remote_object_comments : Text → Text → Request
get_remote_object_comments remote id =
    request get (text "/remote/" ++ (remote ++ (text "/api/object/" ++ (id ++ text "/comment"))))

unfoldable pub get_remote_object_relations : Text → Text → Request
get_remote_object_relations remote id =
    request get (text "/remote/" ++ (remote ++ (text "/api/object/" ++ (id ++ text "/relations"))))

unfoldable pub get_remote_object_shares : Text → Text → Request
get_remote_object_shares remote id =
    request get (text "/remote/" ++ (remote ++ (text "/api/object/" ++ (id ++ text "/share"))))

unfoldable pub get_remote_object_attributes : Text → Text → Request
get_remote_object_attributes remote id =
    request get (text "/remote/" ++ (remote ++ (text "/api/object/" ++ (id ++ text "/attribute"))))

unfoldable pub download_remote_file : Text → Text → Request
download_remote_file remote id =
    as_binary
      (request get (text "/remote/" ++ (remote ++ (text "/api/file/" ++ (id ++ text "/download")))))
