-- ===== src/Api/Attributes.antt =====
-- commons/api/index.tsx: the functions for attribute definitions and their permissions.
use mwdb_core.Common.{Bool, List, [], ◌∷◌, ◌++◌}
use mwdb_core.Common.Text.{Text, text}
use mwdb_core.Suggest.Structure.{Json, bool, str}
use mwdb_core.Api.Request.{get, post, put, delete, Request, request, with_params, with_body}

unfoldable pub get_attribute_definitions : Text → Request
get_attribute_definitions access =
    with_params (request get (text "/attribute")) ((text "access", str access) ∷ [])

unfoldable pub get_attribute_definition : Text → Request
get_attribute_definition key = request get (text "/attribute/" ++ key)

unfoldable pub add_attribute_definition : List (Text × Json) → Request
add_attribute_definition values = with_body (request post (text "/attribute")) values

unfoldable pub update_attribute_definition :
    Text → Text → Text → Text → Text → Text → Bool → Request
update_attribute_definition key label description url_template rich_template example_value hidden =
    with_body (request put (text "/attribute/" ++ key)) (
      (text "label", str label)
      ∷ (text "description", str description)
      ∷ (text "url_template", str url_template)
      ∷ (text "rich_template", str rich_template)
      ∷ (text "example_value", str example_value)
      ∷ (text "hidden", bool hidden)
      ∷ [])

unfoldable pub remove_attribute_definition : Text → Request
remove_attribute_definition key = request delete (text "/attribute/" ++ key)

unfoldable pub get_attribute_permissions : Text → Request
get_attribute_permissions key = request get (text "/attribute/" ++ (key ++ text "/permissions"))

unfoldable pub set_attribute_permission : Text → Text → Bool → Bool → Request
set_attribute_permission key group_name can_read can_set =
    with_body (request put (text "/attribute/" ++ (key ++ text "/permissions"))) (
      (text "group_name", str group_name)
      ∷ (text "can_read", bool can_read)
      ∷ (text "can_set", bool can_set)
      ∷ [])

unfoldable pub remove_attribute_permission : Text → Text → Request
remove_attribute_permission key group_name =
    with_params (request delete (text "/attribute/" ++ (key ++ text "/permissions")))
      ((text "group_name", str group_name) ∷ [])

unfoldable pub get_config_stats : Text → Request
get_config_stats from_time =
    with_params (request get (text "/config/stats")) ((text "range", str from_time) ∷ [])
