-- ===== src/Example.antt =====
-- The example programs: the dispatch of examples/cpp_cb/route_guide/route_guide.grpc_cb.pb.cc, and the
-- messages, the helper, the server and the client of the route guide and of the greeter.
pub mod Dispatch
pub mod Calls
pub mod Points
pub mod Db
pub mod Wire
pub mod Features
pub mod Chat
pub mod Distance
pub mod Route
pub mod Awaited
pub mod Stub
pub mod Served
pub mod Greeter
pub mod Visit
