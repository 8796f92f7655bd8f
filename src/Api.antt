-- ===== src/Api.antt =====
-- commons/api/index.tsx: the functions of the client, as the requests that they send, and the routes
-- of mwdb/app.py.
pub mod Request
pub mod Routes
pub mod Table
pub mod Session
pub mod SessionServed
pub mod Objects
pub mod ObjectsServed
pub mod Users
pub mod UsersServed
pub mod Attributes
pub mod AttributesServed
pub mod Remote
pub mod RemoteServed
pub mod Files
pub mod FilesServed
pub mod Proxy
pub mod Served
mod Tests
