-- ===== src/ProtoUtils/Serialized.antt =====
-- `Serialize` through `GrpcBufferWriter`, and what `GrpcBufferReader` hands out of the buffer.
use grpc_cb.Base.{ℕ, ◌<◌, ◌≡◌, ap, ◌∙◌, Bool, true, some, List, [], ◌++◌, arith, Bytes, length}
use grpc_cb.ProtoUtils.Status.{is_ok}
use grpc_cb.ProtoUtils.Writer.{SliceApi, make_writer, make_writer-IsWriter}
use grpc_cb.ProtoUtils.Filling.{SliceMemory, Round, all_kept, write_rounds, AllFit}
use grpc_cb.ProtoUtils.Filling.Sent.{write_rounds-Sent}
use grpc_cb.ProtoUtils.Reader.{SliceReader, make_reader}
use grpc_cb.ProtoUtils.Unread.{concat, make_reader-IsReader}
use grpc_cb.ProtoUtils.Carried.{read_all, read_all-unread}
use grpc_cb.ProtoUtils.Messages.{MessageApi, max_buffer_length, serialize, serialize-bytes}

-- The messages of protobuf as they are written to an output stream: in which rounds, and whether
-- `SerializeToZeroCopyStream` succeeds, in which case the rounds write the bytes of the message.
pub record StreamedMessage : Type 1 where
  pub Msg : Type 0
  pub byte_size : Msg → ℕ
  pub bytes : Msg → Bytes
  pub rounds : Msg → List Round
  pub succeeds : Msg → Bool
  pub kept-bytes : (m : Msg) → succeeds m ≡ true → all_kept (rounds m) ≡ bytes m

module _ (api : SliceApi) (memory : SliceMemory api) (free : api.Slice)
    (messages : StreamedMessage) where
  -- The bytes in the buffer of a writer of `Serialize` behind the rounds of a message.
  unfoldable pub stream_contents : messages.Msg → Bytes
  unfolding make_writer write_rounds
  stream_contents m =
      memory.contents
        (write_rounds api memory (messages.rounds m)
          (make_writer api max_buffer_length free)).slice_buffer

  -- Every message is written as the stream asks for.
  abbrev pub Writes : Type 0
  Writes =
      (m : messages.Msg)
      → AllFit api memory (messages.rounds m) (make_writer api max_buffer_length free)

  pub stream_contents-bytes :
      Writes
      → (m : messages.Msg) → messages.succeeds m ≡ true
      → stream_contents m ≡ messages.bytes m
  unfolding stream_contents
  stream_contents-bytes writes m ok =
      let sent =
        write_rounds-Sent api memory (messages.rounds m) (make_writer api max_buffer_length free)
          (make_writer-IsWriter api max_buffer_length free) (writes m) in
      let empty : memory.contents (make_writer api max_buffer_length free).slice_buffer ≡ [] =
        unfold make_writer in memory.contents-created in
      sent.holds ∙ ap (λ l. l ++ all_kept (messages.rounds m)) empty ∙ messages.kept-bytes m ok

  abbrev pub streamed : Writes → MessageApi
  streamed writes = record {
    Msg = messages.Msg;
    byte_size = messages.byte_size;
    bytes = messages.bytes;
    stream = λ m. (messages.succeeds m, stream_contents m);
    stream-bytes = stream_contents-bytes writes;
  }

  -- With assertions compiled, if the rounds of messages fit the slices that they are handed, which
  -- share their memory with the buffer's: a caller that reads all of a buffer that `Serialize` has
  -- returned with an `OK` status, over a reader whose slices hold what the buffer does, gets the bytes
  -- of the message, whether it was written at once or through the stream.
  pub read_all-serialize :
      (writes : Writes) (uninitialized : Bytes) (msg : messages.Msg) (slices : SliceReader)
      (unset : slices.State) (b : slices.Buffer) (state : slices.State) (n : ℕ)
      → is_ok (serialize (streamed writes) uninitialized true msg).0 ≡ true
      → slices.init b ≡ some state
      → concat (slices.slices state) ≡ (serialize (streamed writes) uninitialized true msg).1
      → length (slices.slices state) < n
      → read_all slices n (make_reader slices unset b) ≡ some (messages.bytes msg)
  read_all-serialize writes uninitialized msg slices unset b state n ok opened same enough =
      let (valid, left, few) = make_reader-IsReader slices unset b state opened in
      read_all-unread slices n (make_reader slices unset b) valid (omega (arith, few))
      ∙ ap some (left ∙ same ∙ serialize-bytes (streamed writes) uninitialized msg ok)
