-- ===== src/Api/SessionServed.antt =====
-- The requests of the functions of Api/Session, and that the server has a route for each.
use mwdb_core.Common.{◌≡◌, refl, true, List}
use mwdb_core.Common.Text.{Text, text, text_eq}
use mwdb_core.Suggest.Structure.{Json}
use mwdb_core.Api.Request.{Request}
use mwdb_core.Api.Routes.{
  segments, IsPlain, segments-slash, segments-end, part_matches, route_matches, serves,
}
use mwdb_core.Api.Table.{routes, is_served, served-at}
use mwdb_core.Api.Session.{
  get_server_docs, get_server_info, get_server_admin_info, auth_login, auth_refresh,
  auth_set_password, auth_request_password_change, auth_recover_password, auth_groups,
  oauth_authenticate, oauth_callback, oauth_register_provider, oauth_get_providers,
  oauth_get_single_provider, oauth_update_single_provider, oauth_remove_single_provider,
  oauth_get_identities, oauth_get_logout_link, api_key_add, api_key_remove,
}

-- A request that a function sends, where each identifier in its path is one segment.
pub data SessionCall : Request → Type 0 where
  get_server_docs_call : SessionCall get_server_docs
  get_server_info_call : SessionCall get_server_info
  get_server_admin_info_call : SessionCall get_server_admin_info
  auth_login_call : (login : Text) (password : Text) → SessionCall (auth_login login password)
  auth_refresh_call : SessionCall auth_refresh
  auth_set_password_call :
      (token : Text) (password : Text) → SessionCall (auth_set_password token password)
  auth_request_password_change_call : SessionCall auth_request_password_change
  auth_recover_password_call :
      (login : Text) (email : Text) (recaptcha : Text)
      → SessionCall (auth_recover_password login email recaptcha)
  auth_groups_call : SessionCall auth_groups
  oauth_authenticate_call :
      (provider : Text) → IsPlain provider → SessionCall (oauth_authenticate provider)
  oauth_authorize_call :
      (provider : Text) (code : Text) (nonce : Text) (state : Text)
      → IsPlain provider
      → SessionCall (oauth_callback provider (text "authorize") code nonce state)
  oauth_bind_account_call :
      (provider : Text) (code : Text) (nonce : Text) (state : Text)
      → IsPlain provider
      → SessionCall (oauth_callback provider (text "bind_account") code nonce state)
  oauth_register_call :
      (provider : Text) (code : Text) (nonce : Text) (state : Text)
      → IsPlain provider
      → SessionCall (oauth_callback provider (text "register") code nonce state)
  oauth_register_provider_call :
      (values : List (Text × Json)) → SessionCall (oauth_register_provider values)
  oauth_get_providers_call : SessionCall oauth_get_providers
  oauth_get_single_provider_call :
      (provider_name : Text)
      → IsPlain provider_name
      → SessionCall (oauth_get_single_provider provider_name)
  oauth_update_single_provider_call :
      (name : Text) (value : List (Text × Json))
      → IsPlain name
      → SessionCall (oauth_update_single_provider name value)
  oauth_remove_single_provider_call :
      (name : Text) → IsPlain name → SessionCall (oauth_remove_single_provider name)
  oauth_get_identities_call : SessionCall oauth_get_identities
  oauth_get_logout_link_call :
      (provider : Text) → IsPlain provider → SessionCall (oauth_get_logout_link provider)
  api_key_add_call :
      (login : Text) (name : Text) → IsPlain login → SessionCall (api_key_add login name)
  api_key_remove_call : (key_id : Text) → IsPlain key_id → SessionCall (api_key_remove key_id)

pub SessionCall-is_served : {r : Request} → SessionCall r → is_served r ≡ true
unfolding routes serves segments part_matches route_matches text_eq get_server_docs get_server_info
    get_server_admin_info auth_login auth_refresh auth_set_password auth_request_password_change
    auth_recover_password auth_groups oauth_authenticate oauth_callback oauth_register_provider
    oauth_get_providers oauth_get_single_provider oauth_update_single_provider
    oauth_remove_single_provider oauth_get_identities oauth_get_logout_link api_key_add
    api_key_remove
SessionCall-is_served get_server_docs_call = served-at 3 _ _ refl refl
SessionCall-is_served get_server_info_call = served-at 1 _ _ refl refl
SessionCall-is_served get_server_admin_info_call = served-at 2 _ _ refl refl
SessionCall-is_served (auth_login_call login password) = served-at 4 _ _ refl refl
SessionCall-is_served auth_refresh_call = served-at 8 _ _ refl refl
SessionCall-is_served (auth_set_password_call token password) = served-at 5 _ _ refl refl
SessionCall-is_served auth_request_password_change_call = served-at 7 _ _ refl refl
SessionCall-is_served (auth_recover_password_call login email recaptcha) = served-at 6 _ _ refl refl
SessionCall-is_served auth_groups_call = served-at 10 _ _ refl refl
SessionCall-is_served (oauth_authenticate_call provider h0) =
    served-at 65 _ _ refl
      (rw (segments-slash provider (text "authenticate") h0) (rw h0.filled refl))
SessionCall-is_served (oauth_authorize_call provider code nonce state h0) =
    served-at 66 _ _ refl (rw (segments-slash provider (text "authorize") h0) (rw h0.filled refl))
SessionCall-is_served (oauth_bind_account_call provider code nonce state h0) =
    served-at 67 _ _ refl
      (rw (segments-slash provider (text "bind_account") h0) (rw h0.filled refl))
SessionCall-is_served (oauth_register_call provider code nonce state h0) =
    served-at 68 _ _ refl (rw (segments-slash provider (text "register") h0) (rw h0.filled refl))
SessionCall-is_served (oauth_register_provider_call values) = served-at 62 _ _ refl refl
SessionCall-is_served oauth_get_providers_call = served-at 62 _ _ refl refl
SessionCall-is_served (oauth_get_single_provider_call provider_name h0) =
    served-at 64 _ _ refl (rw (segments-end provider_name h0) (rw h0.filled refl))
SessionCall-is_served (oauth_update_single_provider_call name value h0) =
    served-at 64 _ _ refl (rw (segments-end name h0) (rw h0.filled refl))
SessionCall-is_served (oauth_remove_single_provider_call name h0) =
    served-at 64 _ _ refl (rw (segments-end name h0) (rw h0.filled refl))
SessionCall-is_served oauth_get_identities_call = served-at 63 _ _ refl refl
SessionCall-is_served (oauth_get_logout_link_call provider h0) =
    served-at 69 _ _ refl (rw (segments-slash provider (text "logout") h0) (rw h0.filled refl))
SessionCall-is_served (api_key_add_call login name h0) =
    served-at 12 _ _ refl (rw (segments-slash login (text "api_key") h0) (rw h0.filled refl))
SessionCall-is_served (api_key_remove_call key_id h0) =
    served-at 13 _ _ refl (rw (segments-end key_id h0) (rw h0.filled refl))
