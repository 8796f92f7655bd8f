-- ===== src/Api/Request.antt =====
-- commons/api/index.tsx: what the functions of the client give to axios. An identifier is the text
-- that the template puts into the path, so a number is its decimal text. What axios makes of a
-- request, and the answer, are not looked into.
use mwdb_core.Common.{Bool, false, true, Option, none, some, List, []}
use mwdb_core.Common.Text.{Text, text}
use mwdb_core.Suggest.Structure.{Json}

pub data Method : Type 0 where
  get post put delete : Method

-- `undefined` stands for a member that is left out.
pub record Request : Type 0 where
  pub method : Method
  pub path : Text
  pub params : List (Text × Json)
  pub body : Option (List (Text × Json))
  pub timeout : Option (Option Json)
  pub is_binary : Bool
  pub headers : List (Text × Text)

abbrev pub request : Method → Text → Request
request method path = record {
  method = method;
  path = path;
  params = [];
  body = none;
  timeout = none;
  is_binary = false;
  headers = [];
}

abbrev pub with_params : Request → List (Text × Json) → Request
with_params r params = record r { params = params }

abbrev pub with_body : Request → List (Text × Json) → Request
with_body r body = record r { body = some body }

-- `timeout: value`, where `none` is `undefined`
abbrev pub with_timeout : Request → Option Json → Request
with_timeout r value = record r { timeout = some value }

abbrev pub as_binary : Request → Request
as_binary r = record r { is_binary = true }

-- `${type}` of an object type
pub data ObjectType : Type 0 where
  file blob config object : ObjectType

abbrev pub type_text : ObjectType → Text
type_text file = text "file"
type_text blob = text "blob"
type_text config = text "config"
type_text object = text "object"
