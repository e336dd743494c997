-- ===== src/Messages.antt =====
-- The messages of protobuf as the templated classes of include/grpc_cb use them: bytes go out by
-- `SerializeAsString` and come in by `ParseFromString`.
use grpc_cb.Base.{Bool, true, false, ◌≡◌, Bytes, codes, ◌++◌}
use grpc_cb.ProtoUtils.Status.{Status, internal_error}

-- `parse` returns whether the bytes are a message, and what the object then holds; `initial` is a
-- default-constructed message. `is_text` says whether all strings in a message are UTF-8: any message
-- is serialized, but only such a one is read back; the generated parsers refuse the others.
pub record MessageType : Type 1 where
  pub Msg : Type 0
  pub type_name : Bytes
  pub initial : Msg
  pub serialize : Msg → Bytes
  pub parse : Bytes → Bool × Msg
  pub is_text : Msg → Bool
  pub parse-serialize : (m : Msg) → is_text m ≡ true → parse (serialize m) ≡ (true, m)
  pub parse-refused : (m : Msg) → is_text m ≡ false → (parse (serialize m)).0 ≡ false

-- The two errors that the classes make of bytes that do not parse.
abbrev pub message_error : MessageType → Status
message_error type = internal_error (codes "Failed to parse message " ++ type.type_name)

abbrev pub response_error : MessageType → Status
response_error type = internal_error (codes "Failed to parse response " ++ type.type_name)
