-- ===== src/Api/Served.antt =====
-- The requests of all functions of commons/api/index.tsx against the routes of mwdb/app.py.
use mwdb_core.Common.{◌≡◌, true}
use mwdb_core.Api.Request.{Request}
use mwdb_core.Api.Table.{is_served}
use mwdb_core.Api.SessionServed.{SessionCall, SessionCall-is_served}
use mwdb_core.Api.ObjectsServed.{ObjectCall, ObjectCall-is_served}
use mwdb_core.Api.UsersServed.{UserCall, UserCall-is_served}
use mwdb_core.Api.AttributesServed.{AttributeCall, AttributeCall-is_served}
use mwdb_core.Api.RemoteServed.{RemoteCall, RemoteCall-is_served}
use mwdb_core.Api.FilesServed.{FileCall, FileCall-is_served}

-- A request of the client. Where a function takes any text for an action or an object type, it is
-- one of those that the client gives.
pub data ClientCall : Request → Type 0 where
  session_call : {r : Request} → SessionCall r → ClientCall r
  object_call : {r : Request} → ObjectCall r → ClientCall r
  user_call : {r : Request} → UserCall r → ClientCall r
  attribute_call : {r : Request} → AttributeCall r → ClientCall r
  remote_call : {r : Request} → RemoteCall r → ClientCall r
  file_call : {r : Request} → FileCall r → ClientCall r

-- Whatever function of the client sends a request, the server has a route with a method for it, as long
-- as the identifiers of objects that it puts into the path of the server are those that the converter
-- hash64 accepts, those of comments, attributes of objects and quick queries are numbers, other names
-- in the path are filled and hold no slash, question mark or number sign, and actions and object types
-- are those that `ClientCall` allows.
pub ClientCall-is_served : {r : Request} → ClientCall r → is_served r ≡ true
ClientCall-is_served (session_call c) = SessionCall-is_served c
ClientCall-is_served (object_call c) = ObjectCall-is_served c
ClientCall-is_served (user_call c) = UserCall-is_served c
ClientCall-is_served (attribute_call c) = AttributeCall-is_served c
ClientCall-is_served (remote_call c) = RemoteCall-is_served c
ClientCall-is_served (file_call c) = FileCall-is_served c
