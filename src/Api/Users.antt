-- ===== src/Api/Users.antt =====
-- commons/api/index.tsx: the functions for groups and users.
use mwdb_core.Common.{Bool, none, List, [], ◌∷◌, ◌++◌}
use mwdb_core.Common.Text.{Text, text}
use mwdb_core.Suggest.Structure.{Json, bool, num, str}
use mwdb_core.Api.Request.{
  get, post, put, delete, Request, request, with_params, with_body, with_timeout,
}

unfoldable pub get_groups : Request
get_groups = request get (text "/group")

unfoldable pub get_group : Text → Request
get_group name = request get (text "/group/" ++ name)

unfoldable pub register_group : Text → Request
register_group name =
    with_body (request post (text "/group/" ++ name)) ((text "name", str name) ∷ [])

unfoldable pub update_group : Text → List (Text × Json) → Request
update_group name value = with_body (request put (text "/group/" ++ name)) value

unfoldable pub remove_group : Text → Request
remove_group name = request delete (text "/group/" ++ name)

unfoldable pub add_group_member : Text → Text → Request
add_group_member name member =
    request post (text "/group/" ++ (name ++ (text "/member/" ++ member)))

unfoldable pub remove_group_member : Text → Text → Request
remove_group_member name member =
    request delete (text "/group/" ++ (name ++ (text "/member/" ++ member)))

unfoldable pub set_group_admin : Text → Text → Bool → Request
set_group_admin name member group_admin =
    with_body (request put (text "/group/" ++ (name ++ (text "/member/" ++ member))))
      ((text "group_admin", bool group_admin) ∷ [])

unfoldable pub get_users : Request
get_users = with_timeout (request get (text "/user")) none

unfoldable pub get_pending_users : Request
get_pending_users =
    with_params (with_timeout (request get (text "/user")) none) ((text "pending", num 1) ∷ [])

unfoldable pub accept_pending_user : Text → Request
accept_pending_user login = request post (text "/user/" ++ (login ++ text "/pending"))

unfoldable pub reject_pending_user : Text → Bool → Request
reject_pending_user login send_email =
    with_params (request delete (text "/user/" ++ (login ++ text "/pending")))
      ((text "send_email", bool send_email) ∷ [])

unfoldable pub get_user : Text → Request
get_user login = request get (text "/user/" ++ login)

unfoldable pub get_user_profile : Text → Request
get_user_profile login = request get (text "/profile/" ++ login)

unfoldable pub generate_set_password_token : Text → Request
generate_set_password_token login =
    request get (text "/user/" ++ (login ++ text "/change_password"))

unfoldable pub user_request_password_change : Text → Request
user_request_password_change login =
    request post (text "/user/" ++ (login ++ text "/request_password_change"))

unfoldable pub set_user_disabled : Text → Bool → Request
set_user_disabled login disabled =
    with_body (request put (text "/user/" ++ login)) ((text "disabled", bool disabled) ∷ [])

-- The values are given as the login and the other members.
unfoldable pub create_user : Text → List (Text × Json) → Request
create_user login rest =
    with_body (request post (text "/user/" ++ login)) ((text "login", str login) ∷ rest)

unfoldable pub register_user : Text → Text → Text → Text → Request
register_user login email additional_info recaptcha =
    with_body (request post (text "/auth/register")) (
      (text "login", str login)
      ∷ (text "email", str email)
      ∷ (text "additional_info", str additional_info)
      ∷ (text "recaptcha", str recaptcha)
      ∷ [])

-- The arguments are the members of the values that are read.
unfoldable pub update_user : Text → Text → Text → Text → Request
update_user email login additional_info feed_quality =
    with_body (request put (text "/user/" ++ login)) (
      (text "email", str email)
      ∷ (text "additional_info", str additional_info)
      ∷ (text "feed_quality", str feed_quality)
      ∷ [])

unfoldable pub remove_user : Text → Request
remove_user login = request delete (text "/user/" ++ login)
