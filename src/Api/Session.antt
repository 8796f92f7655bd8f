-- ===== src/Api/Session.antt =====
-- commons/api/index.tsx: the functions for the server, sessions, OAuth providers and API keys.
use mwdb_core.Common.{List, [], ◌∷◌, ◌++◌}
use mwdb_core.Common.Text.{Text, text}
use mwdb_core.Suggest.Structure.{Json, str}
use mwdb_core.Api.Request.{get, post, put, delete, Request, request, with_body}

unfoldable pub get_server_docs : Request
get_server_docs = request get (text "/docs")

unfoldable pub get_server_info : Request
get_server_info = request get (text "/server")

unfoldable pub get_server_admin_info : Request
get_server_admin_info = request get (text "/server/admin")

unfoldable pub auth_login : Text → Text → Request
auth_login login password =
    with_body (request post (text "/auth/login"))
      ((text "login", str login) ∷ (text "password", str password) ∷ [])

unfoldable pub auth_refresh : Request
auth_refresh = request post (text "/auth/refresh")

unfoldable pub auth_set_password : Text → Text → Request
auth_set_password token password =
    with_body (request post (text "/auth/change_password"))
      ((text "token", str token) ∷ (text "password", str password) ∷ [])

unfoldable pub auth_request_password_change : Request
auth_request_password_change = request post (text "/auth/request_password_change")

unfoldable pub auth_recover_password : Text → Text → Text → Request
auth_recover_password login email recaptcha =
    with_body (request post (text "/auth/recover_password")) (
      (text "login", str login)
      ∷ (text "email", str email)
      ∷ (text "recaptcha", str recaptcha)
      ∷ [])

unfoldable pub auth_groups : Request
auth_groups = request get (text "/auth/groups")

unfoldable pub oauth_authenticate : Text → Request
oauth_authenticate provider = request post (text "/oauth/" ++ (provider ++ text "/authenticate"))

unfoldable pub oauth_callback : Text → Text → Text → Text → Text → Request
oauth_callback provider action code nonce state =
    with_body (request post (text "/oauth/" ++ (provider ++ (text "/" ++ action))))
      ((text "code", str code) ∷ (text "nonce", str nonce) ∷ (text "state", str state) ∷ [])

unfoldable pub oauth_register_provider : List (Text × Json) → Request
oauth_register_provider values = with_body (request post (text "/oauth")) values

unfoldable pub oauth_get_providers : Request
oauth_get_providers = request get (text "/oauth")

unfoldable pub oauth_get_single_provider : Text → Request
oauth_get_single_provider provider_name = request get (text "/oauth/" ++ provider_name)

unfoldable pub oauth_update_single_provider : Text → List (Text × Json) → Request
oauth_update_single_provider name value = with_body (request put (text "/oauth/" ++ name)) value

unfoldable pub oauth_remove_single_provider : Text → Request
oauth_remove_single_provider name = request delete (text "/oauth/" ++ name)

unfoldable pub oauth_get_identities : Request
oauth_get_identities = request get (text "/oauth/identities")

unfoldable pub oauth_get_logout_link : Text → Request
oauth_get_logout_link provider = request get (text "/oauth/" ++ (provider ++ text "/logout"))

unfoldable pub api_key_add : Text → Text → Request
api_key_add login name =
    with_body (request post (text "/user/" ++ (login ++ text "/api_key")))
      ((text "name", str name) ∷ [])

unfoldable pub api_key_remove : Text → Request
api_key_remove key_id = request delete (text "/api_key/" ++ key_id)
