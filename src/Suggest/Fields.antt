-- ===== src/Suggest/Fields.antt =====
-- useQuerySuggestions.ts: the table `fieldDefinitions`.
use mwdb_core.Common.{Bool, true, false, Option, none, some, List, [], ◌∷◌, if◌then◌else◌}
use mwdb_core.Common.Text.{Text, text, text_eq}

-- The optional members are false where they are absent.
pub record FieldDefinition : Type 0 where
  pub description : Text
  pub subfields : Bool
  pub subquery : Bool

pub data ObjectType : Type 0 where
  object file config blob : ObjectType

abbrev plain : Text → FieldDefinition
plain d = record { description = d; subfields = false; subquery = false }

abbrev with_subfields : Text → FieldDefinition
with_subfields d = record { description = d; subfields = true; subquery = false }

abbrev with_subquery : Text → FieldDefinition
with_subquery d = record { description = d; subfields = false; subquery = true }

abbrev object_fields : List (Text × FieldDefinition)
object_fields =
    (text "dhash", plain (text "Data hash (sha256)"))
    ∷ (text "tag", plain (text "Query objects with provided tag"))
    ∷ (text "comment", plain (text "Query for comment contents"))
    ∷ (
      text "meta",
      with_subfields (text "Query for object attribute value (alias for 'attribute')"),
    )
    ∷ (text "attribute", with_subfields (text "Query for object attribute value"))
    ∷ (text "shared", plain (text "Query for objects shared with provided user or group"))
    ∷ (text "sharer", plain (text "Query for objects shared by provided user or group"))
    ∷ (text "uploader", plain (text "Query for objects uploaded by provided user or group"))
    ∷ (text "upload_time", plain (text "Query for objects uploaded at provided timestamp"))
    ∷ (
      text "parent",
      with_subquery (text "Query for objects having parent that matches the condition"),
    )
    ∷ (
      text "child",
      with_subquery (text "Query for objects having child that matches the condition"),
    )
    ∷ (text "favorites", plain (text "Query for favorite objects of given user"))
    ∷ (text "karton", plain (text "Query for objects related with Karton analysis identifier"))
    ∷ (text "comment_author", plain (text "Query for objects commented by given user"))
    ∷ (
      text "upload_count",
      plain (text "Query for objects uploaded by given amount of users (including parents)"),
    )
    ∷ []

abbrev file_fields : List (Text × FieldDefinition)
file_fields =
    (text "name", plain (text "Query for file having a provided name"))
    ∷ (text "size", plain (text "Query for file having a provided size"))
    ∷ (text "type", plain (text "Query for file having a provided magic type"))
    ∷ (text "md5", plain (text "Query for file having a provided MD5 hash"))
    ∷ (text "sha1", plain (text "Query for file having a provided SHA1 hash"))
    ∷ (text "sha256", plain (text "Query for file having a provided SHA256 hash"))
    ∷ (text "sha512", plain (text "Query for file having a provided SHA512 hash"))
    ∷ (text "ssdeep", plain (text "Query for file having a provided ssdeep hash"))
    ∷ (text "crc32", plain (text "Query for file having a provided crc32 hash"))
    ∷ (text "multi", plain (text "Query for file that matches provided list of IoCs"))
    ∷ []

abbrev config_fields : List (Text × FieldDefinition)
config_fields =
    (text "type", plain (text "Query for config having a provided config type"))
    ∷ (text "family", plain (text "Query for config for provided malware family"))
    ∷ (text "cfg", with_subfields (text "Query for config field value"))
    ∷ (text "multi", plain (text "Query for config that matches provided list of IoCs"))
    ∷ []

abbrev blob_fields : List (Text × FieldDefinition)
blob_fields =
    (text "name", plain (text "Query for blob having a provided name"))
    ∷ (text "size", plain (text "Query for blob having a provided size"))
    ∷ (text "type", plain (text "Query for blob having a provided type"))
    ∷ (text "content", plain (text "Query for blob contents"))
    ∷ (text "first_seen", plain (text "Query for blob uploaded first time at provided timestamp"))
    ∷ (text "last_seen", plain (text "Query for blob uploaded last time at provided timestamp"))
    ∷ (text "multi", plain (text "Query for blob that matches provided list of IoCs"))
    ∷ []

unfoldable pub field_definitions : ObjectType → List (Text × FieldDefinition)
field_definitions object = object_fields
field_definitions file = file_fields
field_definitions config = config_fields
field_definitions blob = blob_fields

-- `Object.keys(fieldDefinitions).includes(key)`, with the type that the key names.
unfoldable pub object_type? : Text → Option ObjectType
object_type? key =
    if text_eq key (text "object")
    then some object
    else if text_eq key (text "file")
    then some file
    else if text_eq key (text "config")
    then some config
    else if text_eq key (text "blob")
    then some blob
    else none
