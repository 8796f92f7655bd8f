-- ===== src/Api/UsersServed.antt =====
-- The requests of the functions of Api/Users, and that the server has a route for each.
use mwdb_core.Common.{◌≡◌, refl, Bool, true, List, ◌++◌}
use mwdb_core.Common.Text.{Text, text, text_eq}
use mwdb_core.Suggest.Structure.{Json}
use mwdb_core.Api.Request.{Request}
use mwdb_core.Api.Routes.{
  segments, IsPlain, segments-slash, segments-end, part_matches, route_matches, serves,
}
use mwdb_core.Api.Table.{routes, is_served, served-at}
use mwdb_core.Api.Users.{
  get_groups, get_group, register_group, update_group, remove_group, add_group_member,
  remove_group_member, set_group_admin, get_users, get_pending_users, accept_pending_user,
  reject_pending_user, get_user, get_user_profile, generate_set_password_token,
  user_request_password_change, set_user_disabled, create_user, register_user, update_user,
  remove_user,
}

-- A request that a function sends, where each identifier in its path is one segment.
pub data UserCall : Request → Type 0 where
  get_groups_call : UserCall get_groups
  get_group_call : (name : Text) → IsPlain name → UserCall (get_group name)
  register_group_call : (name : Text) → IsPlain name → UserCall (register_group name)
  update_group_call :
      (name : Text) (value : List (Text × Json)) → IsPlain name → UserCall (update_group name value)
  remove_group_call : (name : Text) → IsPlain name → UserCall (remove_group name)
  add_group_member_call :
      (name : Text) (member : Text)
      → IsPlain name
      → IsPlain member
      → UserCall (add_group_member name member)
  remove_group_member_call :
      (name : Text) (member : Text)
      → IsPlain name
      → IsPlain member
      → UserCall (remove_group_member name member)
  set_group_admin_call :
      (name : Text) (member : Text) (group_admin : Bool)
      → IsPlain name
      → IsPlain member
      → UserCall (set_group_admin name member group_admin)
  get_users_call : UserCall get_users
  get_pending_users_call : UserCall get_pending_users
  accept_pending_user_call : (login : Text) → IsPlain login → UserCall (accept_pending_user login)
  reject_pending_user_call :
      (login : Text) (send_email : Bool)
      → IsPlain login
      → UserCall (reject_pending_user login send_email)
  get_user_call : (login : Text) → IsPlain login → UserCall (get_user login)
  get_user_profile_call : (login : Text) → IsPlain login → UserCall (get_user_profile login)
  generate_set_password_token_call :
      (login : Text) → IsPlain login → UserCall (generate_set_password_token login)
  user_request_password_change_call :
      (login : Text) → IsPlain login → UserCall (user_request_password_change login)
  set_user_disabled_call :
      (login : Text) (disabled : Bool) → IsPlain login → UserCall (set_user_disabled login disabled)
  create_user_call :
      (login : Text) (rest : List (Text × Json)) → IsPlain login → UserCall (create_user login rest)
  register_user_call :
      (login : Text) (email : Text) (additional_info : Text) (recaptcha : Text)
      → UserCall (register_user login email additional_info recaptcha)
  update_user_call :
      (email : Text) (login : Text) (additional_info : Text) (feed_quality : Text)
      → IsPlain login
      → UserCall (update_user email login additional_info feed_quality)
  remove_user_call : (login : Text) → IsPlain login → UserCall (remove_user login)

pub UserCall-is_served : {r : Request} → UserCall r → is_served r ≡ true
unfolding routes serves segments part_matches route_matches text_eq get_groups get_group
    register_group update_group remove_group add_group_member remove_group_member set_group_admin
    get_users get_pending_users accept_pending_user reject_pending_user get_user get_user_profile
    generate_set_password_token user_request_password_change set_user_disabled create_user
    register_user update_user remove_user
UserCall-is_served get_groups_call = served-at 59 _ _ refl refl
UserCall-is_served (get_group_call name h0) =
    served-at 60 _ _ refl (rw (segments-end name h0) (rw h0.filled refl))
UserCall-is_served (register_group_call name h0) =
    served-at 60 _ _ refl (rw (segments-end name h0) (rw h0.filled refl))
UserCall-is_served (update_group_call name value h0) =
    served-at 60 _ _ refl (rw (segments-end name h0) (rw h0.filled refl))
UserCall-is_served (remove_group_call name h0) =
    served-at 60 _ _ refl (rw (segments-end name h0) (rw h0.filled refl))
UserCall-is_served (add_group_member_call name member h0 h1) = served-at 61 _ _ refl (
    rw (segments-slash name (text "member/" ++ member) h0)
      (rw (segments-end member h1) (rw h0.filled (rw h1.filled refl))))
UserCall-is_served (remove_group_member_call name member h0 h1) = served-at 61 _ _ refl (
    rw (segments-slash name (text "member/" ++ member) h0)
      (rw (segments-end member h1) (rw h0.filled (rw h1.filled refl))))
UserCall-is_served (set_group_admin_call name member group_admin h0 h1) = served-at 61 _ _ refl (
    rw (segments-slash name (text "member/" ++ member) h0)
      (rw (segments-end member h1) (rw h0.filled (rw h1.filled refl))))
UserCall-is_served get_users_call = served-at 53 _ _ refl refl
UserCall-is_served get_pending_users_call = served-at 53 _ _ refl refl
UserCall-is_served (accept_pending_user_call login h0) =
    served-at 58 _ _ refl (rw (segments-slash login (text "pending") h0) (rw h0.filled refl))
UserCall-is_served (reject_pending_user_call login send_email h0) =
    served-at 58 _ _ refl (rw (segments-slash login (text "pending") h0) (rw h0.filled refl))
UserCall-is_served (get_user_call login h0) =
    served-at 54 _ _ refl (rw (segments-end login h0) (rw h0.filled refl))
UserCall-is_served (get_user_profile_call login h0) =
    served-at 55 _ _ refl (rw (segments-end login h0) (rw h0.filled refl))
UserCall-is_served (generate_set_password_token_call login h0) =
    served-at 57 _ _ refl
      (rw (segments-slash login (text "change_password") h0) (rw h0.filled refl))
UserCall-is_served (user_request_password_change_call login h0) =
    served-at 56 _ _ refl
      (rw (segments-slash login (text "request_password_change") h0) (rw h0.filled refl))
UserCall-is_served (set_user_disabled_call login disabled h0) =
    served-at 54 _ _ refl (rw (segments-end login h0) (rw h0.filled refl))
UserCall-is_served (create_user_call login rest h0) =
    served-at 54 _ _ refl (rw (segments-end login h0) (rw h0.filled refl))
UserCall-is_served (register_user_call login email additional_info recaptcha) =
    served-at 11 _ _ refl refl
UserCall-is_served (update_user_call email login additional_info feed_quality h0) =
    served-at 54 _ _ refl (rw (segments-end login h0) (rw h0.filled refl))
UserCall-is_served (remove_user_call login h0) =
    served-at 54 _ _ refl (rw (segments-end login h0) (rw h0.filled refl))
