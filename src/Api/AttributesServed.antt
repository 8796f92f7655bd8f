-- ===== src/Api/AttributesServed.antt =====
-- The requests of the functions of Api/Attributes, and that the server has a route for each.
use mwdb_core.Common.{◌≡◌, refl, Bool, true, List}
use mwdb_core.Common.Text.{Text, text, text_eq}
use mwdb_core.Suggest.Structure.{Json}
use mwdb_core.Api.Request.{Request}
use mwdb_core.Api.Routes.{
  segments, IsPlain, segments-slash, segments-end, part_matches, route_matches, serves,
}
use mwdb_core.Api.Table.{routes, is_served, served-at}
use mwdb_core.Api.Attributes.{
  get_attribute_definitions, get_attribute_definition, add_attribute_definition,
  update_attribute_definition, remove_attribute_definition, get_attribute_permissions,
  set_attribute_permission, remove_attribute_permission, get_config_stats,
}

-- A request that a function sends, where each identifier in its path is one segment.
pub data AttributeCall : Request → Type 0 where
  get_attribute_definitions_call :
      (access : Text) → AttributeCall (get_attribute_definitions access)
  get_attribute_definition_call :
      (key : Text) → IsPlain key → AttributeCall (get_attribute_definition key)
  add_attribute_definition_call :
      (values : List (Text × Json)) → AttributeCall (add_attribute_definition values)
  update_attribute_definition_call :
      (key : Text) (label : Text) (description : Text) (url_template : Text) (rich_template : Text)
      (example_value : Text) (hidden : Bool)
      → IsPlain key
      → AttributeCall (
          update_attribute_definition key label description url_template rich_template example_value
            hidden)
  remove_attribute_definition_call :
      (key : Text) → IsPlain key → AttributeCall (remove_attribute_definition key)
  get_attribute_permissions_call :
      (key : Text) → IsPlain key → AttributeCall (get_attribute_permissions key)
  set_attribute_permission_call :
      (key : Text) (group_name : Text) (can_read : Bool) (can_set : Bool)
      → IsPlain key
      → AttributeCall (set_attribute_permission key group_name can_read can_set)
  remove_attribute_permission_call :
      (key : Text) (group_name : Text)
      → IsPlain key
      → AttributeCall (remove_attribute_permission key group_name)
  get_config_stats_call : (from_time : Text) → AttributeCall (get_config_stats from_time)

pub AttributeCall-is_served : {r : Request} → AttributeCall r → is_served r ≡ true
unfolding routes serves segments part_matches route_matches text_eq get_attribute_definitions
    get_attribute_definition add_attribute_definition update_attribute_definition
    remove_attribute_definition get_attribute_permissions set_attribute_permission
    remove_attribute_permission get_config_stats
AttributeCall-is_served (get_attribute_definitions_call access) = served-at 43 _ _ refl refl
AttributeCall-is_served (get_attribute_definition_call key h0) =
    served-at 44 _ _ refl (rw (segments-end key h0) (rw h0.filled refl))
AttributeCall-is_served (add_attribute_definition_call values) = served-at 43 _ _ refl refl
AttributeCall-is_served
      (update_attribute_definition_call key label description url_template rich_template
        example_value hidden h0) =
    served-at 44 _ _ refl (rw (segments-end key h0) (rw h0.filled refl))
AttributeCall-is_served (remove_attribute_definition_call key h0) =
    served-at 44 _ _ refl (rw (segments-end key h0) (rw h0.filled refl))
AttributeCall-is_served (get_attribute_permissions_call key h0) =
    served-at 45 _ _ refl (rw (segments-slash key (text "permissions") h0) (rw h0.filled refl))
AttributeCall-is_served (set_attribute_permission_call key group_name can_read can_set h0) =
    served-at 45 _ _ refl (rw (segments-slash key (text "permissions") h0) (rw h0.filled refl))
AttributeCall-is_served (remove_attribute_permission_call key group_name h0) =
    served-at 45 _ _ refl (rw (segments-slash key (text "permissions") h0) (rw h0.filled refl))
AttributeCall-is_served (get_config_stats_call from_time) = served-at 32 _ _ refl refl
