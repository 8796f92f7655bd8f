-- ===== src/Navigation/Routes.antt =====
-- commons/navigation/AppRoutes.tsx: the tree of routes. A view is the name of its component.
use mwdb_core.Common.Text.{text}
use mwdb_core.Navigation.Guards.{
  adding_files, adding_blobs, adding_configs, manage_users, view, requires_auth,
  requires_capability, sample_route_fallback, navigate_for_404, index, pathless, path, Routes,
  route, none_left, ◌&◌, joined,
}

abbrev pub profile_routes : Routes
profile_routes =
    route index (view (text "ProfileDetails")) none_left
    & route (path (text "user/:user")) (view (text "ProfileDetails")) none_left
    & route (path (text "group/:group")) (view (text "ProfileGroup")) none_left
    & route (path (text "group/:group/members")) (view (text "ProfileGroupMembers")) none_left
    & route (path (text "groups")) (view (text "ProfileGroups")) none_left
    & route (path (text "capabilities")) (view (text "UserCapabilitiesView")) none_left
    & route (path (text "api-keys")) (view (text "ProfileAPIKeys")) none_left
    & route (path (text "reset-password")) (view (text "ProfileResetPassword")) none_left
    & route (path (text "oauth")) (view (text "ProfileOAuth")) none_left
    & none_left

abbrev pub remote_routes : Routes
remote_routes =
    route index (view (text "RecentSamplesView")) none_left
    & route (path (text "configs")) (view (text "RecentConfigsView")) none_left
    & route (path (text "blobs")) (view (text "RecentBlobsView")) none_left
    & route (path (text "search")) (view (text "SearchView")) none_left
    & route (path (text "file/:hash/*")) (view (text "ShowSampleView")) none_left
    & route (path (text "config/:hash/*")) (view (text "ShowConfigView")) none_left
    & route (path (text "blob/:hash/*")) (view (text "ShowTextBlobView")) none_left
    & route (path (text "diff/:current/:previous")) (view (text "DiffTextBlobView")) none_left
    & none_left

abbrev pub user_routes : Routes
user_routes =
    route index (view (text "UserDetailsView")) none_left
    & route (path (text "capabilities")) (view (text "UserCapabilitiesView")) none_left
    & route (path (text "api-keys")) (view (text "UserAPIKeysView")) none_left
    & route (path (text "password")) (view (text "UserResetPasswordView")) none_left
    & route (path (text "groups")) (view (text "UserSingleGroupsView")) none_left
    & none_left

abbrev pub group_routes : Routes
group_routes =
    route index (view (text "GroupDetailsView")) none_left
    & route (path (text "capabilities")) (view (text "GroupCapabilitiesView")) none_left
    & route (path (text "members")) (view (text "GroupMembersView")) none_left
    & none_left

abbrev pub attribute_routes : Routes
attribute_routes =
    route index (view (text "AttributeDetailsView")) none_left
    & route (path (text "permissions")) (view (text "AttributesPermissionsView")) none_left
    & route (path (text "edit-template")) (view (text "AttributeEditTemplateView")) none_left
    & none_left

abbrev pub settings_routes : Routes
settings_routes =
    route index (view (text "SettingsOverviewView")) none_left
    & route (path (text "pending")) (view (text "UsersPendingListView")) none_left
    & route (path (text "users")) (view (text "UsersListView")) none_left
    & route (path (text "user/new")) (view (text "UserCreateView")) none_left
    & route (path (text "user/:login/*")) (view (text "UserView")) user_routes
    & route (path (text "groups")) (view (text "GroupsListView")) none_left
    & route (path (text "group/new")) (view (text "GroupCreateView")) none_left
    & route (path (text "group/:name/*")) (view (text "GroupView")) group_routes
    & route (path (text "capabilities")) (view (text "AccessControlView")) none_left
    & route (path (text "oauth")) (view (text "OAuthListProvidersView")) none_left
    & route (path (text "oauth/register")) (view (text "OAuthRegisterView")) none_left
    & route (path (text "oauth/:name")) (view (text "OAuthProviderView")) none_left
    & route (path (text "attributes")) (view (text "AttributesListView")) none_left
    & route (path (text "attribute/new")) (view (text "AttributeCreateView")) none_left
    & route (path (text "attribute/:attributeKey/*")) (view (text "AttributeView")) attribute_routes
    & none_left

abbrev pub own_protected_routes : Routes → Routes
own_protected_routes protected =
    route (path (text "/")) (view (text "RecentSamplesView")) none_left
    & route (path (text "configs")) (view (text "RecentConfigsView")) none_left
    & route (path (text "blobs")) (view (text "RecentBlobsView")) none_left
    & route (path (text "search")) (view (text "SearchView")) none_left
    & route (path (text "upload")) (requires_capability adding_files (text "UploadFileView"))
        none_left
    & route (path (text "blob_upload")) (requires_capability adding_blobs (text "UploadBlobView"))
        none_left
    & route (path (text "config_upload"))
        (requires_capability adding_configs (text "UploadConfigView")) none_left
    & route (path (text "configs/stats")) (view (text "ConfigStatsView")) none_left
    & route (path (text "about")) (view (text "AboutView")) none_left
    & route (path (text "docs")) (view (text "DocsView")) none_left
    & route (path (text "sample/:hash/*")) sample_route_fallback none_left
    & route (path (text "file/:hash/*")) (view (text "ShowSampleView")) none_left
    & route (path (text "config/:hash/*")) (view (text "ShowConfigView")) none_left
    & route (path (text "blob/:hash/*")) (view (text "ShowTextBlobView")) none_left
    & route (path (text "profile")) (view (text "ProfileView")) profile_routes
    & route (path (text "diff/:current/:previous")) (view (text "DiffTextBlobView")) none_left
    & route (path (text "relations")) (view (text "RelationsPlotView")) none_left
    & route (path (text "remote/:remote")) (view (text "RemoteViews")) remote_routes
    & route (path (text "settings")) (requires_capability manage_users (text "SettingsView"))
        settings_routes
    & protected

-- `AppRoutes`, with the routes that plugins bring for those who are logged in, and for all.
unfoldable pub app_routes : Routes → Routes → Routes
app_routes protected routes =
    route (path (text "login")) (view (text "UserLoginView")) none_left
    & route (path (text "register")) (view (text "UserRegisterView")) none_left
    & route (path (text "recover_password")) (view (text "UserPasswordRecoverView")) none_left
    & route (path (text "setpasswd")) (view (text "UserSetPasswordView")) none_left
    & route (path (text "oauth/callback")) (view (text "OAuthAuthorizeView")) none_left
    & route pathless requires_auth (own_protected_routes protected)
    & joined routes (route (path (text "*")) navigate_for_404 none_left & none_left)
