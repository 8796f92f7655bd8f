-- ===== src/Api/Table.antt =====
-- mwdb/app.py: the routes of the API, in the order of their registration, with the methods that the
-- resource classes of mwdb/resources have. The routes that the configuration may switch off are on.
use mwdb_core.Common.{◌≡◌, Bool, true, List, [], ◌∷◌, any, get_elem?, some, zero, suc, ℕ, arith}
use mwdb_core.Common.Text.{text}
use mwdb_core.Api.Request.{Method, get, post, put, delete, Request}
use mwdb_core.Api.Routes.{Route, Part, word, any_type, variable, hash64, int, rest_of_path, serves}

abbrev route : List Method → List Part → Route
route methods parts = record { methods = methods; parts = parts }

unfoldable pub routes : List Route
routes =
    route (get ∷ []) (word (text "ping") ∷ [])
    ∷ route (get ∷ []) (word (text "server") ∷ [])
    ∷ route (get ∷ []) (word (text "server") ∷ word (text "admin") ∷ [])
    ∷ route (get ∷ []) (word (text "docs") ∷ [])
    ∷ route (post ∷ []) (word (text "auth") ∷ word (text "login") ∷ [])
    ∷ route (post ∷ []) (word (text "auth") ∷ word (text "change_password") ∷ [])
    ∷ route (post ∷ []) (word (text "auth") ∷ word (text "recover_password") ∷ [])
    ∷ route (post ∷ []) (word (text "auth") ∷ word (text "request_password_change") ∷ [])
    ∷ route (post ∷ []) (word (text "auth") ∷ word (text "refresh") ∷ [])
    ∷ route (get ∷ []) (word (text "auth") ∷ word (text "validate") ∷ [])
    ∷ route (get ∷ []) (word (text "auth") ∷ word (text "groups") ∷ [])
    ∷ route (post ∷ []) (word (text "auth") ∷ word (text "register") ∷ [])
    ∷ route (post ∷ []) (word (text "user") ∷ variable ∷ word (text "api_key") ∷ [])
    ∷ route (delete ∷ []) (word (text "api_key") ∷ variable ∷ [])
    ∷ route (get ∷ []) (word (text "object") ∷ [])
    ∷ route (get ∷ delete ∷ []) (word (text "object") ∷ hash64 ∷ [])
    ∷ route (put ∷ delete ∷ []) (word (text "object") ∷ hash64 ∷ word (text "favorite") ∷ [])
    ∷ route (put ∷ []) (word (text "object") ∷ hash64 ∷ word (text "share_3rd_party") ∷ [])
    ∷ route (get ∷ []) (any_type ∷ word (text "count") ∷ [])
    ∷ route (get ∷ []) (word (text "tag") ∷ [])
    ∷ route (get ∷ put ∷ delete ∷ []) (any_type ∷ hash64 ∷ word (text "tag") ∷ [])
    ∷ route (get ∷ post ∷ []) (any_type ∷ hash64 ∷ word (text "comment") ∷ [])
    ∷ route (delete ∷ []) (any_type ∷ hash64 ∷ word (text "comment") ∷ int ∷ [])
    ∷ route (get ∷ put ∷ []) (any_type ∷ hash64 ∷ word (text "share") ∷ [])
    ∷ route (get ∷ []) (word (text "share") ∷ [])
    ∷ route (get ∷ []) (any_type ∷ hash64 ∷ word (text "relations") ∷ [])
    ∷ route (put ∷ delete ∷ []) (any_type ∷ hash64 ∷ word (text "child") ∷ hash64 ∷ [])
    ∷ route (get ∷ post ∷ []) (word (text "file") ∷ [])
    ∷ route (get ∷ post ∷ delete ∷ []) (word (text "file") ∷ hash64 ∷ [])
    ∷ route (get ∷ post ∷ []) (word (text "file") ∷ hash64 ∷ word (text "download") ∷ [])
    ∷ route (get ∷ post ∷ [])
        (word (text "file") ∷ hash64 ∷ word (text "download") ∷ word (text "zip") ∷ [])
    ∷ route (get ∷ post ∷ []) (word (text "config") ∷ [])
    ∷ route (get ∷ []) (word (text "config") ∷ word (text "stats") ∷ [])
    ∷ route (get ∷ put ∷ delete ∷ []) (word (text "config") ∷ hash64 ∷ [])
    ∷ route (get ∷ post ∷ []) (word (text "blob") ∷ [])
    ∷ route (get ∷ put ∷ delete ∷ []) (word (text "blob") ∷ hash64 ∷ [])
    ∷ route (post ∷ []) (word (text "request") ∷ word (text "sample") ∷ variable ∷ [])
    ∷ route (get ∷ []) (word (text "download") ∷ variable ∷ [])
    ∷ route (post ∷ []) (word (text "search") ∷ [])
    ∷ route (get ∷ post ∷ []) (any_type ∷ word (text "quick_query") ∷ [])
    ∷ route (delete ∷ []) (word (text "quick_query") ∷ int ∷ [])
    ∷ route (get ∷ post ∷ []) (any_type ∷ hash64 ∷ word (text "attribute") ∷ [])
    ∷ route (delete ∷ []) (any_type ∷ hash64 ∷ word (text "attribute") ∷ int ∷ [])
    ∷ route (get ∷ post ∷ []) (word (text "attribute") ∷ [])
    ∷ route (get ∷ put ∷ delete ∷ []) (word (text "attribute") ∷ variable ∷ [])
    ∷ route (get ∷ put ∷ delete ∷ [])
        (word (text "attribute") ∷ variable ∷ word (text "permissions") ∷ [])
    ∷ route (get ∷ []) (word (text "meta") ∷ word (text "list") ∷ variable ∷ [])
    ∷ route (get ∷ post ∷ delete ∷ []) (any_type ∷ hash64 ∷ word (text "meta") ∷ [])
    ∷ route (get ∷ []) (word (text "meta") ∷ word (text "manage") ∷ [])
    ∷ route (get ∷ post ∷ put ∷ delete ∷ [])
        (word (text "meta") ∷ word (text "manage") ∷ variable ∷ [])
    ∷ route (put ∷ delete ∷ []) (
        word (text "meta")
        ∷ word (text "manage")
        ∷ variable
        ∷ word (text "permissions")
        ∷ variable
        ∷ [])
    ∷ route (get ∷ post ∷ []) (any_type ∷ hash64 ∷ word (text "karton") ∷ [])
    ∷ route (get ∷ put ∷ delete ∷ []) (any_type ∷ hash64 ∷ word (text "karton") ∷ variable ∷ [])
    ∷ route (get ∷ []) (word (text "user") ∷ [])
    ∷ route (get ∷ post ∷ put ∷ delete ∷ []) (word (text "user") ∷ variable ∷ [])
    ∷ route (get ∷ []) (word (text "profile") ∷ variable ∷ [])
    ∷ route (post ∷ []) (word (text "user") ∷ variable ∷ word (text "request_password_change") ∷ [])
    ∷ route (get ∷ []) (word (text "user") ∷ variable ∷ word (text "change_password") ∷ [])
    ∷ route (post ∷ delete ∷ []) (word (text "user") ∷ variable ∷ word (text "pending") ∷ [])
    ∷ route (get ∷ []) (word (text "group") ∷ [])
    ∷ route (get ∷ post ∷ put ∷ delete ∷ []) (word (text "group") ∷ variable ∷ [])
    ∷ route (post ∷ put ∷ delete ∷ [])
        (word (text "group") ∷ variable ∷ word (text "member") ∷ variable ∷ [])
    ∷ route (get ∷ post ∷ []) (word (text "oauth") ∷ [])
    ∷ route (get ∷ []) (word (text "oauth") ∷ word (text "identities") ∷ [])
    ∷ route (get ∷ put ∷ delete ∷ []) (word (text "oauth") ∷ variable ∷ [])
    ∷ route (post ∷ []) (word (text "oauth") ∷ variable ∷ word (text "authenticate") ∷ [])
    ∷ route (post ∷ []) (word (text "oauth") ∷ variable ∷ word (text "authorize") ∷ [])
    ∷ route (post ∷ []) (word (text "oauth") ∷ variable ∷ word (text "bind_account") ∷ [])
    ∷ route (post ∷ []) (word (text "oauth") ∷ variable ∷ word (text "register") ∷ [])
    ∷ route (get ∷ []) (word (text "oauth") ∷ variable ∷ word (text "logout") ∷ [])
    ∷ route (get ∷ []) (word (text "remote") ∷ [])
    ∷ route (get ∷ post ∷ put ∷ delete ∷ [])
        (word (text "remote") ∷ variable ∷ word (text "api") ∷ rest_of_path ∷ [])
    ∷ route (post ∷ [])
        (word (text "remote") ∷ variable ∷ word (text "pull") ∷ word (text "file") ∷ hash64 ∷ [])
    ∷ route (post ∷ [])
        (word (text "remote") ∷ variable ∷ word (text "pull") ∷ word (text "config") ∷ hash64 ∷ [])
    ∷ route (post ∷ [])
        (word (text "remote") ∷ variable ∷ word (text "pull") ∷ word (text "blob") ∷ hash64 ∷ [])
    ∷ route (post ∷ [])
        (word (text "remote") ∷ variable ∷ word (text "push") ∷ word (text "file") ∷ hash64 ∷ [])
    ∷ route (post ∷ [])
        (word (text "remote") ∷ variable ∷ word (text "push") ∷ word (text "config") ∷ hash64 ∷ [])
    ∷ route (post ∷ [])
        (word (text "remote") ∷ variable ∷ word (text "push") ∷ word (text "blob") ∷ hash64 ∷ [])
    ∷ route (get ∷ []) (word (text "varz") ∷ [])
    ∷ []

unfoldable pub is_served : Request → Bool
is_served r = any (λ route. serves route r) routes

any-get_elem :
    (rs : List Route) (i : ℕ) (r : Route) (q : Request)
    → get_elem? rs i ≡ some r
    → serves r q ≡ true
    → any (λ route. serves route q) rs ≡ true
any-get_elem [] i r q e h = cc
any-get_elem (x ∷ rs) zero r q e h = ground (arith, e, h)
any-get_elem (x ∷ rs) (suc i) r q e h = ground (arith, any-get_elem rs i r q e h)

pub served-at :
    (i : ℕ) (r : Route) (q : Request)
    → get_elem? routes i ≡ some r
    → serves r q ≡ true
    → is_served q ≡ true
unfolding is_served
served-at i r q e h = any-get_elem routes i r q e h
