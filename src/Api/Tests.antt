-- ===== src/Api/Tests.antt =====
-- Runs of the client's functions, and their theorems at small inputs.
use mwdb_core.Common.{◌≡◌, refl, true, false}
use mwdb_core.Common.Text.{text, text_eq}
use mwdb_core.Api.Request.{file}
use mwdb_core.Api.Routes.{IsHash64, is_hash64}
use mwdb_core.Api.Table.{is_served}
use mwdb_core.Api.Objects.{add_object_tag}
use mwdb_core.Api.ObjectsServed.{add_object_tag_call}
use mwdb_core.Api.Served.{object_call, ClientCall-is_served}
use mwdb_core.Api.Proxy.{listing, local_read, remote_read, via, remote_read-via}

md5-IsHash64 : IsHash64 (text "5d41402abc4b2a76b9719d911017c592")
unfolding is_hash64 text_eq
md5-IsHash64 = record { accepted = refl }

too_short : is_hash64 (text "5d41402abc") ≡ false
unfolding is_hash64 text_eq
too_short = refl

ClientCall-is_served_example :
    is_served (add_object_tag (text "5d41402abc4b2a76b9719d911017c592") (text "emotet")) ≡ true
ClientCall-is_served_example =
    ClientCall-is_served (object_call (add_object_tag_call _ (text "emotet") md5-IsHash64))

remote_read-via_example :
    remote_read (text "cert") (listing file (text "") (text "tag:a"))
    ≡ via (text "cert") (local_read (listing file (text "") (text "tag:a")))
remote_read-via_example = remote_read-via (text "cert") (listing file (text "") (text "tag:a"))
