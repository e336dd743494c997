-- ===== src/ProtoUtils.antt =====
-- proto_utils.cc of src/cpp_cb/common: the zero-copy streams over gRPC byte buffers, and the
-- conversion of messages. The slices and buffers of gRPC and the messages of protobuf are parameters.
pub mod Status
pub mod Writer
pub mod Filling
pub mod Reader
pub mod Unread
pub mod Skip
pub mod InputStream
pub mod Messages
pub mod Carried
pub mod Serialized
