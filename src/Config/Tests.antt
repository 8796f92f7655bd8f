-- ===== src/Config/Tests.antt =====
-- Runs of the reducer, and its theorems at small inputs.
use mwdb_core.Common.{true, none, some, [], ◌∷◌, ◌++◌, ◌≡◌, refl, if◌then◌else◌, inl}
use mwdb_core.Common.Text.{text, text_eq}
use mwdb_core.Suggest.Structure.{str, num}
use mwdb_core.Config.Reducer.{
  Config, ConfigState, config_update, config_error, dispatch_all, is_ready,
}
use mwdb_core.Config.Updates.{dispatch_all-update, dispatch_all-is_ready}

abbrev version : Config
version = λ k. if text_eq k (text "server_version") then some (str (text "2")) else none

abbrev remotes : Config
remotes = λ k. if text_eq k (text "remotes") then some (num 1) else none

abbrev first : ConfigState
first = record { config = λ k. none; error = none }

dispatch_all-update_example :
    (dispatch_all first (
        (config_update remotes ∷ [])
        ++ config_update version ∷ config_error (text "e") ∷ config_update remotes ∷ [])).config
      (text "server_version")
    ≡ some (str (text "2"))
unfolding text_eq
dispatch_all-update_example =
    dispatch_all-update first (config_update remotes ∷ []) version
      (config_error (text "e") ∷ config_update remotes ∷ []) (text "server_version")
      (str (text "2")) refl (tt, (refl, tt))

abbrev ready : ConfigState
ready = record { config = version; error = none }

dispatch_all-is_ready_example :
    is_ready (dispatch_all ready (config_error (text "e") ∷ config_update remotes ∷ [])) ≡ true
unfolding is_ready text_eq
dispatch_all-is_ready_example =
    dispatch_all-is_ready ready (config_error (text "e") ∷ config_update remotes ∷ []) refl
      (tt, (inl refl, tt))
