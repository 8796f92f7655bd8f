-- ===== src/Auth/Tests.antt =====
-- Runs of the session, and its theorems at a small platform with one user.
use mwdb_core.Common.{Bool, true, false, Option, none, some, [], ◌∷◌, ◌≡◌, refl, if◌then◌else◌}
use mwdb_core.Common.Text.{text, text_eq}
use mwdb_core.Auth.Session.{
  User, Verdict, set_token_for_api, expires, Platform, is_session_valid, get_stored_auth_session,
  has_capability,
}
use mwdb_core.Auth.Provider.{
  Provider, set_session, success, omit_token, mount, logout, update_session, refreshed,
  synchronize_session_state, render_again,
}
use mwdb_core.Auth.Refresh.{
  ReadsBack, IsSound, without_token, update_session_agrees, refreshed-logout,
  synchronize_session_state_agrees,
}

abbrev alice : User
alice = record {
  token = some (text "t");
  login = some (text "alice");
  groups = some [];
  capabilities = some (text "manage_users" ∷ []);
  provider = none;
}

-- A platform whose only session is alice's, until the second 100.
abbrev platform : Platform
platform = record {
  parse = λ t. if text_eq t (text "alice") then some (some alice) else none;
  stringify = λ u. text "alice";
  expiry = λ t. expires 100;
}

abbrev both_none : Option User → Option User → Bool
both_none none none = true
both_none none (some _) = false
both_none (some _) b = false

both_none-IsSound : IsSound platform both_none
both_none-IsSound none none h = refl
both_none-IsSound none (some u) h = cc
both_none-IsSound (some u) b h = cc

alice-ReadsBack : ReadsBack platform alice
unfolding text_eq
alice-ReadsBack = record { parse_stringify = refl; filled = refl }

alice_expires : is_session_valid platform 100000 (some alice) ≡ Verdict.invalid
unfolding is_session_valid
alice_expires = refl

admin : has_capability (some alice) (text "manage_users") ≡ true
unfolding has_capability text_eq
admin = refl

abbrev fresh : Provider
fresh = record {
  storage = none;
  header = none;
  session = none;
  notice = false;
  pending = [];
  login_page = none;
}

update_session_agrees_example :
    update_session platform both_none 5 none (some alice) fresh
    ≡ some (record fresh {
      storage = some (text "alice");
      header = some (text "t");
      session = some (omit_token alice);
    })
unfolding is_session_valid
update_session_agrees_example =
    update_session_agrees platform both_none both_none-IsSound 5 alice fresh alice-ReadsBack refl

refreshed-logout_example :
    refreshed platform
      (λ a b. true)
      7
      (some (omit_token alice))
      alice
      (logout platform (λ a b. true) 6 success fresh)
    ≡ record (logout platform (λ a b. true) 6 success fresh) {
      storage = some (text "alice");
      header = some (text "t");
      session = none;
    }
unfolding is_session_valid
refreshed-logout_example =
    refreshed-logout platform (λ a b. true) 6 7 success (some (omit_token alice)) alice fresh
      alice-ReadsBack refl refl

synchronize_session_state_agrees_example :
    (synchronize_session_state platform both_none 9
      (mount platform both_none 5 none).session
      (record fresh { storage = some (text "alice") })).session
    ≡ without_token (get_stored_auth_session platform 9 (some (text "alice"))).0
synchronize_session_state_agrees_example =
    synchronize_session_state_agrees platform both_none both_none-IsSound 5 none 9
      (record fresh { storage = some (text "alice") })

abbrev logged_in : Provider
logged_in =
    synchronize_session_state platform both_none 9 (mount platform both_none 5 none).session
      (record (logout platform both_none 6 success (mount platform both_none 5 none)) {
        storage = some (text "alice");
        notice = true;
      })

-- A render at the second 100, at which alice's session expires.
abbrev rendered : Provider
rendered = render_again platform both_none 100000 logged_in

-- The item is gone, and the header stays.
removed_by_render : (rendered.storage ≡ none) × (rendered.header ≡ some (text "t"))
unfolding render_again synchronize_session_state get_stored_auth_session is_session_valid
    set_session set_token_for_api text_eq
removed_by_render = (refl, refl)
