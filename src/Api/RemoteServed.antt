-- ===== src/Api/RemoteServed.antt =====
-- The requests of the functions of Api/Remote, and that the server has a route for each.
use mwdb_core.Common.{◌≡◌, refl, true, ◌++◌}
use mwdb_core.Common.Text.{Text, text, text_eq}
use mwdb_core.Api.Request.{Request, ObjectType, file, blob, config, object}
use mwdb_core.Api.Routes.{
  segments, IsPlain, IsHash64, hash64-IsPlain, segments-slash, segments-end, part_matches,
  route_matches, serves,
}
use mwdb_core.Api.Table.{routes, is_served, served-at}
use mwdb_core.Api.Remote.{
  get_remote_names, push_object_remote, pull_object_remote, get_remote_object,
  get_remote_object_list, get_remote_object_count, get_remote_object_tags,
  get_remote_object_comments, get_remote_object_relations, get_remote_object_shares,
  get_remote_object_attributes, download_remote_file,
}

-- A request that a function sends, where each identifier in its path is one segment.
pub data RemoteCall : Request → Type 0 where
  get_remote_names_call : RemoteCall get_remote_names
  push_object_remote_file_call :
      (remote : Text) (identifier : Text) (upload_as : Text)
      → IsPlain remote
      → IsHash64 identifier
      → RemoteCall (push_object_remote remote (text "file") identifier upload_as)
  push_object_remote_config_call :
      (remote : Text) (identifier : Text) (upload_as : Text)
      → IsPlain remote
      → IsHash64 identifier
      → RemoteCall (push_object_remote remote (text "config") identifier upload_as)
  push_object_remote_blob_call :
      (remote : Text) (identifier : Text) (upload_as : Text)
      → IsPlain remote
      → IsHash64 identifier
      → RemoteCall (push_object_remote remote (text "blob") identifier upload_as)
  pull_object_remote_file_call :
      (remote : Text) (identifier : Text) (upload_as : Text)
      → IsPlain remote
      → IsHash64 identifier
      → RemoteCall (pull_object_remote remote (text "file") identifier upload_as)
  pull_object_remote_config_call :
      (remote : Text) (identifier : Text) (upload_as : Text)
      → IsPlain remote
      → IsHash64 identifier
      → RemoteCall (pull_object_remote remote (text "config") identifier upload_as)
  pull_object_remote_blob_call :
      (remote : Text) (identifier : Text) (upload_as : Text)
      → IsPlain remote
      → IsHash64 identifier
      → RemoteCall (pull_object_remote remote (text "blob") identifier upload_as)
  get_remote_object_call :
      (remote : Text) (type : ObjectType) (id : Text)
      → IsPlain remote
      → RemoteCall (get_remote_object remote type id)
  get_remote_object_list_call :
      (remote : Text) (type : ObjectType) (older_than : Text) (query : Text)
      → IsPlain remote
      → RemoteCall (get_remote_object_list remote type older_than query)
  get_remote_object_count_call :
      (remote : Text) (type : ObjectType) (query : Text)
      → IsPlain remote
      → RemoteCall (get_remote_object_count remote type query)
  get_remote_object_tags_call :
      (remote : Text) (id : Text) → IsPlain remote → RemoteCall (get_remote_object_tags remote id)
  get_remote_object_comments_call :
      (remote : Text) (id : Text)
      → IsPlain remote
      → RemoteCall (get_remote_object_comments remote id)
  get_remote_object_relations_call :
      (remote : Text) (id : Text)
      → IsPlain remote
      → RemoteCall (get_remote_object_relations remote id)
  get_remote_object_shares_call :
      (remote : Text) (id : Text) → IsPlain remote → RemoteCall (get_remote_object_shares remote id)
  get_remote_object_attributes_call :
      (remote : Text) (id : Text)
      → IsPlain remote
      → RemoteCall (get_remote_object_attributes remote id)
  download_remote_file_call :
      (remote : Text) (id : Text) → IsPlain remote → RemoteCall (download_remote_file remote id)

pub RemoteCall-is_served : {r : Request} → RemoteCall r → is_served r ≡ true
unfolding routes serves segments part_matches route_matches text_eq get_remote_names
    push_object_remote pull_object_remote get_remote_object get_remote_object_list
    get_remote_object_count get_remote_object_tags get_remote_object_comments
    get_remote_object_relations get_remote_object_shares get_remote_object_attributes
    download_remote_file
RemoteCall-is_served get_remote_names_call = served-at 70 _ _ refl refl
RemoteCall-is_served (push_object_remote_file_call remote identifier upload_as h0 h1) =
    served-at 75 _ _ refl (
      rw (segments-slash remote (text "push/file/" ++ identifier) h0)
        (rw (segments-end identifier (hash64-IsPlain h1)) (rw h0.filled (rw h1.accepted refl))))
RemoteCall-is_served (push_object_remote_config_call remote identifier upload_as h0 h1) =
    served-at 76 _ _ refl (
      rw (segments-slash remote (text "push/config/" ++ identifier) h0)
        (rw (segments-end identifier (hash64-IsPlain h1)) (rw h0.filled (rw h1.accepted refl))))
RemoteCall-is_served (push_object_remote_blob_call remote identifier upload_as h0 h1) =
    served-at 77 _ _ refl (
      rw (segments-slash remote (text "push/blob/" ++ identifier) h0)
        (rw (segments-end identifier (hash64-IsPlain h1)) (rw h0.filled (rw h1.accepted refl))))
RemoteCall-is_served (pull_object_remote_file_call remote identifier upload_as h0 h1) =
    served-at 72 _ _ refl (
      rw (segments-slash remote (text "pull/file/" ++ identifier) h0)
        (rw (segments-end identifier (hash64-IsPlain h1)) (rw h0.filled (rw h1.accepted refl))))
RemoteCall-is_served (pull_object_remote_config_call remote identifier upload_as h0 h1) =
    served-at 73 _ _ refl (
      rw (segments-slash remote (text "pull/config/" ++ identifier) h0)
        (rw (segments-end identifier (hash64-IsPlain h1)) (rw h0.filled (rw h1.accepted refl))))
RemoteCall-is_served (pull_object_remote_blob_call remote identifier upload_as h0 h1) =
    served-at 74 _ _ refl (
      rw (segments-slash remote (text "pull/blob/" ++ identifier) h0)
        (rw (segments-end identifier (hash64-IsPlain h1)) (rw h0.filled (rw h1.accepted refl))))
RemoteCall-is_served (get_remote_object_call remote file id h0) =
    served-at 71 _ _ refl
      (rw (segments-slash remote (text "api/file/" ++ id) h0) (rw h0.filled refl))
RemoteCall-is_served (get_remote_object_call remote blob id h0) =
    served-at 71 _ _ refl
      (rw (segments-slash remote (text "api/blob/" ++ id) h0) (rw h0.filled refl))
RemoteCall-is_served (get_remote_object_call remote config id h0) =
    served-at 71 _ _ refl
      (rw (segments-slash remote (text "api/config/" ++ id) h0) (rw h0.filled refl))
RemoteCall-is_served (get_remote_object_call remote object id h0) =
    served-at 71 _ _ refl
      (rw (segments-slash remote (text "api/object/" ++ id) h0) (rw h0.filled refl))
RemoteCall-is_served (get_remote_object_list_call remote file older_than query h0) =
    served-at 71 _ _ refl (rw (segments-slash remote (text "api/file") h0) (rw h0.filled refl))
RemoteCall-is_served (get_remote_object_list_call remote blob older_than query h0) =
    served-at 71 _ _ refl (rw (segments-slash remote (text "api/blob") h0) (rw h0.filled refl))
RemoteCall-is_served (get_remote_object_list_call remote config older_than query h0) =
    served-at 71 _ _ refl (rw (segments-slash remote (text "api/config") h0) (rw h0.filled refl))
RemoteCall-is_served (get_remote_object_list_call remote object older_than query h0) =
    served-at 71 _ _ refl (rw (segments-slash remote (text "api/object") h0) (rw h0.filled refl))
RemoteCall-is_served (get_remote_object_count_call remote file query h0) =
    served-at 71 _ _ refl
      (rw (segments-slash remote (text "api/file/count") h0) (rw h0.filled refl))
RemoteCall-is_served (get_remote_object_count_call remote blob query h0) =
    served-at 71 _ _ refl
      (rw (segments-slash remote (text "api/blob/count") h0) (rw h0.filled refl))
RemoteCall-is_served (get_remote_object_count_call remote config query h0) =
    served-at 71 _ _ refl
      (rw (segments-slash remote (text "api/config/count") h0) (rw h0.filled refl))
RemoteCall-is_served (get_remote_object_count_call remote object query h0) =
    served-at 71 _ _ refl
      (rw (segments-slash remote (text "api/object/count") h0) (rw h0.filled refl))
RemoteCall-is_served (get_remote_object_tags_call remote id h0) =
    served-at 71 _ _ refl (
      rw (segments-slash remote (text "api/object/" ++ (id ++ text "/tag")) h0) (rw h0.filled refl))
RemoteCall-is_served (get_remote_object_comments_call remote id h0) = served-at 71 _ _ refl (
    rw (segments-slash remote (text "api/object/" ++ (id ++ text "/comment")) h0)
      (rw h0.filled refl))
RemoteCall-is_served (get_remote_object_relations_call remote id h0) = served-at 71 _ _ refl (
    rw (segments-slash remote (text "api/object/" ++ (id ++ text "/relations")) h0)
      (rw h0.filled refl))
RemoteCall-is_served (get_remote_object_shares_call remote id h0) = served-at 71 _ _ refl (
    rw (segments-slash remote (text "api/object/" ++ (id ++ text "/share")) h0) (rw h0.filled refl))
RemoteCall-is_served (get_remote_object_attributes_call remote id h0) = served-at 71 _ _ refl (
    rw (segments-slash remote (text "api/object/" ++ (id ++ text "/attribute")) h0)
      (rw h0.filled refl))
RemoteCall-is_served (download_remote_file_call remote id h0) = served-at 71 _ _ refl (
    rw (segments-slash remote (text "api/file/" ++ (id ++ text "/download")) h0)
      (rw h0.filled refl))
