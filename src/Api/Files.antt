-- ===== src/Api/Files.antt =====
-- commons/api/index.tsx: the functions for downloads and uploads. `JSON.stringify` is a parameter. A
-- function that awaits an answer is two definitions: its request, and its result for the token.
use mwdb_core.Common.{Option, none, some, List, [], ◌∷◌, ◌++◌}
use mwdb_core.Common.Text.{Text, text}
use mwdb_core.Suggest.Structure.{Json, null, str}
use mwdb_core.Api.Request.{get, post, Request, request, with_body, with_timeout, as_binary}

abbrev pub api_for_environment : Text
api_for_environment = text "/api"

abbrev pub range_header : Option Text → List (Text × Text)
range_header none = []
range_header (some range) = (text "Range", range) ∷ []

-- The range is `null` where it is `none`.
unfoldable pub download_file : Text → Text → Option Text → Request
download_file id obfuscate range =
    record (as_binary
      (request get (text "/file/" ++ (id ++ (text "/download?obfuscate=" ++ obfuscate))))) {
        headers = range_header range;
      }

unfoldable pub request_file_download_link : Text → Request
request_file_download_link id = request post (text "/file/" ++ (id ++ text "/download"))

unfoldable pub file_download_link : Text → Text → Text
file_download_link id token =
    api_for_environment ++ (text "/file/" ++ (id ++ (text "/download?token=" ++ token)))

unfoldable pub request_zip_file_download_link : Text → Request
request_zip_file_download_link id = request post (text "/file/" ++ (id ++ text "/download/zip"))

unfoldable pub zip_file_download_link : Text → Text → Text
zip_file_download_link id token =
    api_for_environment ++ (text "/file/" ++ (id ++ (text "/download/zip?token=" ++ token)))

-- `parent || null`
abbrev pub or_null : Option Text → Json
or_null none = null
or_null (some []) = null
or_null (some (c ∷ s)) = str (c ∷ s)

module _ (stringify : List (Text × Json) → Text) where
  unfoldable pub upload_file : Json → Option Text → Json → Json → Option Json → Json → Request
  upload_file file parent share_with attributes file_upload_timeout share_3rd_party =
      with_timeout
        (with_body (request post (text "/file")) (
          (text "file", file)
          ∷ (
            text "options",
            str (
                stringify (
                  (text "parent", or_null parent)
                  ∷ (text "upload_as", share_with)
                  ∷ (text "attributes", attributes)
                  ∷ (text "share_3rd_party", share_3rd_party)
                  ∷ [])),
          )
          ∷ []))
        file_upload_timeout

-- The members of the body that the function names are given one by one, and the others as a list.
unfoldable pub upload_blob : Json → Json → Option Text → Json → List (Text × Json) → Request
upload_blob name share_with parent type others = with_body (request post (text "/blob")) (
    others
    ++ ((text "name", name)
        ∷ (text "shareWith", share_with)
        ∷ (text "parent", or_null parent)
        ∷ (text "type", type)
        ∷ (text "blob_name", name)
        ∷ (text "blob_type", type)
        ∷ (text "upload_as", share_with)
        ∷ []))

unfoldable pub upload_config : List (Text × Json) → Request
upload_config body = with_body (request post (text "/config")) body

unfoldable pub request_remote_file_download_link : Text → Text → Request
request_remote_file_download_link remote id =
    request post (text "/remote/" ++ (remote ++ (text "/api/file/" ++ (id ++ text "/download"))))

unfoldable pub remote_file_download_link : Text → Text → Text → Text
remote_file_download_link remote id token =
    api_for_environment
    ++ (text "/remote/"
        ++ (remote ++ (text "/api/file/" ++ (id ++ (text "/download?token=" ++ token)))))

unfoldable pub request_remote_zip_file_download_link : Text → Text → Request
request_remote_zip_file_download_link remote id =
    request post
      (text "/remote/" ++ (remote ++ (text "/api/file/" ++ (id ++ text "/download/zip"))))

unfoldable pub remote_zip_file_download_link : Text → Text → Text → Text
remote_zip_file_download_link remote id token =
    api_for_environment
    ++ (text "/remote/"
        ++ (remote ++ (text "/api/file/" ++ (id ++ (text "/download/zip?token=" ++ token)))))
