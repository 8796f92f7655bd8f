-- ===== src/Navigation/Tests.antt =====
-- What branches of the tree of routes show, and for whom they open.
use mwdb_core.Common.{◌≡◌, refl, none, some, [], ◌∷◌, length, All}
use mwdb_core.Common.Text.{text, text_eq}
use mwdb_core.Auth.Session.{User, has_capability}
use mwdb_core.Navigation.Guards.{
  none_left, pathless, path, view, requires_auth, requires_capability, Branch, branches,
  branches_of, to_login, not_permitted, render, is_open, manage_users,
}
use mwdb_core.Navigation.Routes.{app_routes}
use mwdb_core.Navigation.Access.{segments, allows, render-allows}

abbrev uploader : User
uploader = record {
  token = none;
  login = some (text "alice");
  groups = some [];
  capabilities = some (text "adding_files" ∷ []);
  provider = none;
}

-- The branch of `/settings/users`.
abbrev users_branch : Branch
users_branch =
    (pathless, requires_auth)
    ∷ (path (text "settings"), requires_capability manage_users (text "SettingsView"))
    ∷ (path (text "users"), view (text "UsersListView"))
    ∷ []

settings_without_session : render none [] users_branch ≡ to_login ∷ []
unfolding render
settings_without_session = refl

settings_without_right : render (some uploader) [] users_branch ≡ not_permitted ∷ []
unfolding render has_capability text_eq
settings_without_right = refl

own_branches : length (branches (app_routes none_left none_left)) ≡ 69
unfolding branches branches_of app_routes
own_branches = refl

render-allows_example :
    All
      (λ b. is_open (render (some uploader) (text "ab") b) ≡ allows (some uploader) (segments b))
      (branches (app_routes none_left none_left))
render-allows_example = render-allows (some uploader) (text "ab")
