-- ===== src/Example/Chat.antt =====
-- `RouteChat` of examples/cpp_cb/route_guide/route_guide_cb_server.cc.
pub mod Board
pub mod Heard
use grpc_cb.Base.{◌+◌, true, false, Option, some, List, [], ◌∷◌, ◌++◌, Bytes, if◌then◌else◌, ◌>>=◌}
use grpc_cb.ProtoUtils.Status.{Status, status_ok, is_ok}
use grpc_cb.Server.{
  WriterCore, write, BidiStreaming, bidi_constructed, bidi_start, get_writer, on_msg_str,
}
use grpc_cb.Server.Streamed.{stream_strs}
use grpc_cb.Example.Points.{RouteNote}
use grpc_cb.Example.Wire.{Codec, message_type}
use grpc_cb.Example.Features.{same_location}

module _ (notes : Codec RouteNote) (core : WriterCore) where
  -- The `Reader` of `RouteChat`.
  pub record ChatReader : Type 0 where
    pub streaming : BidiStreaming (message_type notes) core
    pub received_notes : List RouteNote

  -- The reader that `RouteChat` returns, when it has been started.
  unfoldable pub route_chat : core.State → ChatReader
  unfolding bidi_constructed bidi_start
  route_chat writer = record {
    streaming =
        bidi_start (message_type notes) core writer (bidi_constructed (message_type notes) core);
    received_notes = [];
  }

  -- The loop of `OnMsg`, which does not look at what `Write` returns. `GetWriter` asserts that the
  -- reader has been started: `none`.
  unfoldable pub echo :
      RouteNote
      → List RouteNote
      → BidiStreaming (message_type notes) core
      → Option (BidiStreaming (message_type notes) core)
  unfolding write get_writer
  echo msg [] streaming = some streaming
  echo msg (n ∷ received_notes) streaming = elim (same_location n.location msg.location) [
    | true ↦ get_writer (message_type notes) core streaming >>= (λ writer.
        echo msg received_notes
          (record { writer_uptr = some (write (message_type notes) core n writer).1 }))
    | false ↦ echo msg received_notes streaming
  ]

  unfoldable pub on_msg : RouteNote → ChatReader → Option ChatReader
  unfolding echo
  on_msg msg r = echo msg r.received_notes r.streaming >>= (λ streaming.
      some (record { streaming = streaming; received_notes = r.received_notes ++ msg ∷ [] }))

  -- The messages of a stream, as they come.
  unfoldable pub on_msgs : List RouteNote → ChatReader → Option ChatReader
  unfolding on_msg
  on_msgs [] r = some r
  on_msgs (msg ∷ msgs) r = on_msg msg r >>= on_msgs msgs

  -- The message strings of a stream: `OnMsgStr` of `ServerReader`, up to the first error.
  unfoldable pub on_msg_strs : List Bytes → Option ChatReader → Status × Option ChatReader
  unfolding stream_strs on_msg
  on_msg_strs = stream_strs (message_type notes) (λ msg r. r >>= on_msg msg)

  -- `OnEnd`: its thread keeps the writer for a second.
  unfoldable pub on_end : ChatReader → Option ChatReader
  unfolding get_writer
  on_end r = get_writer (message_type notes) core r.streaming >>= (λ writer. some r)
