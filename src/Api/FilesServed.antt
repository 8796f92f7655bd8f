-- ===== src/Api/FilesServed.antt =====
-- The requests of the functions of Api/Files, and that the server has a route for each.
use mwdb_core.Common.{◌≡◌, refl, true, Option, List, ◌++◌}
use mwdb_core.Common.Text.{Text, text, text_eq}
use mwdb_core.Suggest.Structure.{Json}
use mwdb_core.Api.Request.{Request}
use mwdb_core.Api.Routes.{
  segments, IsPlain, IsHash64, hash64-IsPlain, segments-slash, part_matches, route_matches, serves,
}
use mwdb_core.Api.Table.{routes, is_served, served-at}
use mwdb_core.Api.Files.{
  download_file, request_file_download_link, request_zip_file_download_link, upload_file,
  upload_blob, upload_config, request_remote_file_download_link,
  request_remote_zip_file_download_link,
}

-- A request that a function sends, where each identifier in its path is one segment.
pub data FileCall : Request → Type 0 where
  download_file_call :
      (id obfuscate : Text) (range : Option Text)
      → IsHash64 id
      → FileCall (download_file id obfuscate range)
  file_link_call : (id : Text) → IsHash64 id → FileCall (request_file_download_link id)
  zip_link_call : (id : Text) → IsHash64 id → FileCall (request_zip_file_download_link id)
  upload_file_call :
      (stringify : List (Text × Json) → Text) (file : Json) (parent : Option Text)
      (share_with attributes : Json) (timeout : Option Json) (share_3rd_party : Json)
      → FileCall (upload_file stringify file parent share_with attributes timeout share_3rd_party)
  upload_blob_call :
      (name share_with : Json) (parent : Option Text) (type : Json) (others : List (Text × Json))
      → FileCall (upload_blob name share_with parent type others)
  upload_config_call : (body : List (Text × Json)) → FileCall (upload_config body)
  remote_file_link_call :
      (remote id : Text) → IsPlain remote → FileCall (request_remote_file_download_link remote id)
  remote_zip_link_call :
      (remote id : Text)
      → IsPlain remote
      → FileCall (request_remote_zip_file_download_link remote id)

pub FileCall-is_served : {r : Request} → FileCall r → is_served r ≡ true
unfolding routes serves segments part_matches route_matches text_eq download_file
    request_file_download_link request_zip_file_download_link upload_file upload_blob upload_config
    request_remote_file_download_link request_remote_zip_file_download_link
FileCall-is_served (download_file_call id obfuscate range h) = served-at 29 _ _ refl (
    rw (segments-slash id (text "download?obfuscate=" ++ obfuscate) (hash64-IsPlain h))
      (rw h.accepted refl))
FileCall-is_served (file_link_call id h) =
    served-at 29 _ _ refl
      (rw (segments-slash id (text "download") (hash64-IsPlain h)) (rw h.accepted refl))
FileCall-is_served (zip_link_call id h) =
    served-at 30 _ _ refl
      (rw (segments-slash id (text "download/zip") (hash64-IsPlain h)) (rw h.accepted refl))
FileCall-is_served (upload_file_call _ _ _ _ _ _ _) = served-at 27 _ _ refl refl
FileCall-is_served (upload_blob_call _ _ _ _ _) = served-at 34 _ _ refl refl
FileCall-is_served (upload_config_call _) = served-at 31 _ _ refl refl
FileCall-is_served (remote_file_link_call remote id h) =
    served-at 71 _ _ refl (
      rw (segments-slash remote (text "api/file/" ++ (id ++ text "/download")) h)
        (rw h.filled refl))
FileCall-is_served (remote_zip_link_call remote id h) = served-at 71 _ _ refl (
    rw (segments-slash remote (text "api/file/" ++ (id ++ text "/download/zip")) h)
      (rw h.filled refl))
