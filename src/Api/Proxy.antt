-- ===== src/Api/Proxy.antt =====
-- commons/api/index.tsx: the functions that read objects of a remote instance, beside those that read
-- local objects. The server hands what stands behind `/remote/<name>/api` on to the remote instance.
use mwdb_core.Common.{◌≡◌, refl, ◌++◌}
use mwdb_core.Common.Text.{Text, text}
use mwdb_core.Api.Request.{Request, ObjectType}
use mwdb_core.Api.Objects.{
  get_object, get_object_list, get_object_count, get_object_tags, get_object_comments,
  get_object_relations, get_object_shares, get_object_attributes,
}
use mwdb_core.Api.Files.{
  request_file_download_link, request_zip_file_download_link, request_remote_file_download_link,
  request_remote_zip_file_download_link,
}
use mwdb_core.Api.Remote.{
  get_remote_object, get_remote_object_list, get_remote_object_count, get_remote_object_tags,
  get_remote_object_comments, get_remote_object_relations, get_remote_object_shares,
  get_remote_object_attributes,
}

-- What both families of functions ask for.
pub data ObjectRead : Type 0 where
  item : ObjectType → Text → ObjectRead
  listing : ObjectType → Text → Text → ObjectRead
  counting : ObjectType → Text → ObjectRead
  tags comments relations shares attributes : Text → ObjectRead
  file_link zip_link : Text → ObjectRead

unfoldable pub local_read : ObjectRead → Request
local_read (item type id) = get_object type id
local_read (listing type older_than query) = get_object_list type older_than query
local_read (counting type query) = get_object_count type query
local_read (tags id) = get_object_tags id
local_read (comments id) = get_object_comments id
local_read (relations id) = get_object_relations id
local_read (shares id) = get_object_shares id
local_read (attributes id) = get_object_attributes id
local_read (file_link id) = request_file_download_link id
local_read (zip_link id) = request_zip_file_download_link id

unfoldable pub remote_read : Text → ObjectRead → Request
remote_read remote (item type id) = get_remote_object remote type id
remote_read remote (listing type older_than query) =
    get_remote_object_list remote type older_than query
remote_read remote (counting type query) = get_remote_object_count remote type query
remote_read remote (tags id) = get_remote_object_tags remote id
remote_read remote (comments id) = get_remote_object_comments remote id
remote_read remote (relations id) = get_remote_object_relations remote id
remote_read remote (shares id) = get_remote_object_shares remote id
remote_read remote (attributes id) = get_remote_object_attributes remote id
remote_read remote (file_link id) = request_remote_file_download_link remote id
remote_read remote (zip_link id) = request_remote_zip_file_download_link remote id

-- The same request, sent through the server's proxy for the remote instance.
abbrev pub via : Text → Request → Request
via remote r = record r { path = text "/remote/" ++ (remote ++ (text "/api" ++ r.path)) }

-- What reads an object of a remote instance, the list and the count of its objects, or an object's tags,
-- comments, relations, shares, attributes and links for a download sends what the function of the
-- same name sends for local objects, through the proxy: the method, the parameters and the rest of the
-- path agree.
pub remote_read-via :
    (remote : Text) (q : ObjectRead) → remote_read remote q ≡ via remote (local_read q)
unfolding remote_read local_read get_object get_object_list get_object_count get_object_tags
    get_object_comments get_object_relations get_object_shares get_object_attributes
    request_file_download_link request_zip_file_download_link request_remote_file_download_link
    request_remote_zip_file_download_link get_remote_object get_remote_object_list
    get_remote_object_count get_remote_object_tags get_remote_object_comments
    get_remote_object_relations get_remote_object_shares get_remote_object_attributes
remote_read-via remote (item type id) = refl
remote_read-via remote (listing type older_than query) = refl
remote_read-via remote (counting type query) = refl
remote_read-via remote (tags id) = refl
remote_read-via remote (comments id) = refl
remote_read-via remote (relations id) = refl
remote_read-via remote (shares id) = refl
remote_read-via remote (attributes id) = refl
remote_read-via remote (file_link id) = refl
remote_read-via remote (zip_link id) = refl
