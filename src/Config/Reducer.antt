-- ===== src/Config/Reducer.antt =====
-- commons/config/provider.tsx: the reducer, what the three requests do with their answers, and the
-- condition under which the pending users are polled. A configuration is a function from its keys;
-- `isEqual` of lodash is a parameter, and an error is its text.
use mwdb_core.Common.{
  zero, suc, Bool, true, false, Option, none, some, List, [], ◌∷◌, if◌then◌else◌, ◌&&◌, ◌||◌,
}
use mwdb_core.Common.Text.{Text, text, text_eq}
use mwdb_core.Suggest.Structure.{Json, null, bool, num, str, arr, obj}

abbrev pub Config : Type 0
Config = Text → Option Json

pub record ConfigState : Type 0 where
  pub config : Config
  pub error : Option Text

pub data Action : Type 0 where
  config_update : Config → Action
  config_error : Text → Action

-- `{ ...a, ...b }`
abbrev pub override : Option Json → Option Json → Option Json
override a none = a
override a (some v) = some v

unfoldable pub merge : Config → Config → Config
merge a b = λ k. override (a k) (b k)

unfoldable pub server_config_reducer : ConfigState → Action → ConfigState
server_config_reducer s (config_update c) = record { config = merge s.config c; error = none }
server_config_reducer s (config_error e) = record { config = s.config; error = some e }

-- The actions in the order in which they are dispatched.
unfoldable pub dispatch_all : ConfigState → List Action → ConfigState
dispatch_all s [] = s
dispatch_all s (a ∷ actions) = dispatch_all (server_config_reducer s a) actions

-- The answer to a request: its data or its error.
pub data Reply (A : Type 0) : Type 0 where
  answer : A → Reply A
  failure : Text → Reply A

pub record ConfigProvider : Type 0 where
  pub server_config : ConfigState
  pub pending_users : List Json
  pub timeout : Option Json

abbrev dispatch : ConfigProvider → Action → ConfigProvider
dispatch s a = record s { server_config = server_config_reducer s.server_config a }

unfoldable pub update_server_info : ConfigProvider → Reply Config → ConfigProvider
update_server_info s (answer config) =
    dispatch (record s { timeout = config (text "request_timeout") }) (config_update config)
update_server_info s (failure e) = dispatch s (config_error e)

abbrev only_remotes : Json → Config
only_remotes remotes = λ k. if text_eq k (text "remotes") then some remotes else none

unfoldable pub update_remote_info : ConfigProvider → Reply Json → ConfigProvider
update_remote_info s (answer remotes) = dispatch s (config_update (only_remotes remotes))
update_remote_info s (failure e) = dispatch s (config_error e)

-- `seen` is the list of pending users that the call has seen.
unfoldable pub update_pending_users :
    (List Json → List Json → Bool) → List Json → ConfigProvider → Reply (List Json) → ConfigProvider
update_pending_users is_equal seen s (answer users) =
    if is_equal users seen then s else record s { pending_users = users }
update_pending_users is_equal seen s (failure e) = dispatch s (config_error e)

-- whether a value counts as true
abbrev pub is_truthy : Option Json → Bool
is_truthy none = false
is_truthy (some null) = false
is_truthy (some (bool b)) = b
is_truthy (some (num zero)) = false
is_truthy (some (num (suc n))) = true
is_truthy (some (str [])) = false
is_truthy (some (str (c ∷ s))) = true
is_truthy (some (arr xs)) = true
is_truthy (some (obj ms)) = true

-- Whether the effect sets its timer, for `auth.isAuthenticated` and `auth.isAdmin`.
unfoldable pub polls_pending_users : Config → Bool → Bool → Bool
polls_pending_users config is_authenticated is_admin =
    is_authenticated
    && (is_admin
        && (is_truthy (config (text "is_registration_enabled"))
            || is_truthy (config (text "is_oidc_registration_enabled"))))

unfoldable pub is_ready : ConfigState → Bool
is_ready s = is_truthy (s.config (text "server_version"))
