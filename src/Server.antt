-- ===== src/Server.antt =====
-- The server classes of include/grpc_cb/server, and `Service` (src/cpp_cb/server/service.cc). The core
-- objects of grpc_cb_core are parameters: their operations on a state.
pub mod Replying
pub mod Streamed
use grpc_cb.Base.{ℕ, Bool, Option, none, some, Bytes, if◌then◌else◌, ◌>>=◌, length, get_elem?}
use grpc_cb.ProtoUtils.Status.{Status, status_ok}
use grpc_cb.Messages.{MessageType, message_error}
use grpc_cb.Helpers.Descriptors.{MethodDescriptor, ServiceDescriptor}

-- The core of a replier.
pub record ReplierCore : Type 1 where
  pub State : Type 0
  pub reply_str : Bytes → State → State
  pub reply_error : Status → State → State

-- The core of a writer, with its queue.
pub record WriterCore : Type 1 where
  pub State : Type 0
  pub write : Bytes → State → Bool × State
  pub sync_write : Bytes → State → Bool × State
  pub async_write : Bytes → State → State
  pub sync_close : Status → State → State
  pub async_close : Status → State → State
  pub queue_size : State → ℕ
  pub high_queue_size : State → ℕ
  pub set_high_queue_size : ℕ → State → State
  pub closed : State → Bool

-- `ServerReader` (server_reader.h): `OnMsgStr`, with the subclass's `OnMsg` as a step on its state.
unfoldable pub on_msg_str :
    (type : MessageType) {S : Type 0} → (type.Msg → S → S) → Bytes → S → Status × S
on_msg_str type on_msg msg_str s =
    let parsed = type.parse msg_str in
    if parsed.0 then (status_ok, on_msg parsed.1 s) else (message_error type, s)

module _ (response : MessageType) (core : ReplierCore) where
  -- `ServerReplier` (server_replier.h).
  unfoldable pub replier_reply : response.Msg → core.State → core.State
  replier_reply msg s = core.reply_str (response.serialize msg) s

  unfoldable pub replier_reply_error : Status → core.State → core.State
  replier_reply_error status s = core.reply_error status s

  -- `ServerReaderForClientSideStreaming` (server_reader_for_client_side_streaming.h): the replier
  -- that `Start` gave it. An operation before `Start` is a failed assert: `none`.
  pub record ClientSideStreaming : Type 0 where
    pub replier_uptr : Option core.State

  unfoldable pub constructed : ClientSideStreaming
  constructed = record { replier_uptr = none }

  unfoldable pub start : core.State → ClientSideStreaming → ClientSideStreaming
  start replier r = record { replier_uptr = some replier }

  unfoldable pub get_replier : ClientSideStreaming → Option core.State
  get_replier r = r.replier_uptr

  unfoldable pub reply : response.Msg → ClientSideStreaming → Option ClientSideStreaming
  unfolding replier_reply
  reply msg r =
      r.replier_uptr
      >>= (λ replier. some (record { replier_uptr = some (replier_reply msg replier) }))

  unfoldable pub reply_error : Status → ClientSideStreaming → Option ClientSideStreaming
  reply_error status r =
      r.replier_uptr
      >>= (λ replier. some (record { replier_uptr = some (core.reply_error status replier) }))

  unfoldable pub on_error : Status → ClientSideStreaming → Option ClientSideStreaming
  unfolding reply_error
  on_error status r = reply_error status r

module _ (response : MessageType) (core : WriterCore) where
  -- `ServerWriter` (server_writer.h).
  unfoldable pub write : response.Msg → core.State → Bool × core.State
  write msg s = core.write (response.serialize msg) s

  unfoldable pub sync_write : response.Msg → core.State → Bool × core.State
  sync_write msg s = core.sync_write (response.serialize msg) s

  unfoldable pub async_write : response.Msg → core.State → core.State
  async_write msg s = core.async_write (response.serialize msg) s

  unfoldable pub get_queue_size : core.State → ℕ
  get_queue_size s = core.queue_size s

  unfoldable pub get_high_queue_size : core.State → ℕ
  get_high_queue_size s = core.high_queue_size s

  unfoldable pub set_high_queue_size : ℕ → core.State → core.State
  set_high_queue_size high_queue_size s = core.set_high_queue_size high_queue_size s

  unfoldable pub sync_close : Status → core.State → core.State
  sync_close status s = core.sync_close status s

  unfoldable pub async_close : Status → core.State → core.State
  async_close status s = core.async_close status s

  unfoldable pub is_closed : core.State → Bool
  is_closed s = core.closed s

  -- `ServerReaderForBidiStreaming` (server_reader_for_bidi_streaming.h).
  pub record BidiStreaming : Type 0 where
    pub writer_uptr : Option core.State

  unfoldable pub bidi_constructed : BidiStreaming
  bidi_constructed = record { writer_uptr = none }

  unfoldable pub bidi_start : core.State → BidiStreaming → BidiStreaming
  bidi_start writer r = record { writer_uptr = some writer }

  unfoldable pub bidi_on_error : Status → BidiStreaming → Option BidiStreaming
  bidi_on_error status r =
      r.writer_uptr
      >>= (λ writer. some (record { writer_uptr = some (core.async_close status writer) }))

  unfoldable pub get_writer : BidiStreaming → Option core.State
  get_writer r = r.writer_uptr

-- `Service`. An index out of range is a failed assert: `none`.
unfoldable pub get_full_name : ServiceDescriptor → Bytes
get_full_name s = s.full_name

unfoldable pub get_method_count : ServiceDescriptor → ℕ
get_method_count s = length s.methods

unfoldable pub is_method_client_streaming : ServiceDescriptor → ℕ → Option Bool
unfolding get_method_count
is_method_client_streaming s method_index =
    get_elem? s.methods method_index >>= (λ m. some m.client_streaming)
