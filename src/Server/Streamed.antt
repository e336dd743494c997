-- ===== src/Server/Streamed.antt =====
-- The message strings of a stream that comes to a reader of server_reader.h.
use grpc_cb.Base.{◌≡◌, refl, true, All, List, [], ◌∷◌, map, Bytes, if◌then◌else◌}
use grpc_cb.ProtoUtils.Status.{Status, status_ok, is_ok}
use grpc_cb.Messages.{MessageType}
use grpc_cb.Server.{on_msg_str}

module _ (type : MessageType) {S : Type 0} (on_msg : type.Msg → S → S) where
  -- `OnMsgStr` of each, up to the first error.
  unfoldable pub stream_strs : List Bytes → S → Status × S
  unfolding on_msg_str
  stream_strs [] s = (status_ok, s)
  stream_strs (b ∷ bs) s =
      let (status, s') = on_msg_str type on_msg b s in
      let rest = stream_strs bs s' in if is_ok status then rest else (status, s')

  abbrev pub stream_msgs : List type.Msg → S → S
  stream_msgs [] s = s
  stream_msgs (m ∷ ms) s = stream_msgs ms (on_msg m s)

  -- The strings of messages whose text is UTF-8 come to `OnMsg` as these messages.
  pub stream_strs-serialize :
      (messages : List type.Msg) (s : S)
      → All (λ m. type.is_text m ≡ true) messages
      → stream_strs (map type.serialize messages) s ≡ (status_ok, stream_msgs messages s)
  unfolding stream_strs on_msg_str
  stream_strs-serialize [] s h = refl
  stream_strs-serialize (m ∷ ms) s (h, hs) =
      rw (type.parse-serialize m h, stream_strs-serialize ms (on_msg m s) hs) refl
