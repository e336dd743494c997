-- ===== src/Example/Chat/Heard.antt =====
-- What a client gets of a chat with the service of route_guide_cb_server.cc.
use grpc_cb.Base.{
  some_unique, ℕ, ◌<◌, ◌≡◌, refl, sym, ap, ◌∙◌, true, Option, none, some, List, [], ◌∷◌, map,
  append-nil, ◌>>=◌, length,
}
use grpc_cb.ProtoUtils.Status.{status_ok}
use grpc_cb.Client.{ReaderCore, receive}
use grpc_cb.Client.Reading.{ReaderView, receive-serialized}
use grpc_cb.Server.{WriterCore, get_writer}
use grpc_cb.Server.Streamed.{stream_msgs, stream_strs-serialize}
use grpc_cb.Example.Points.{RouteNote}
use grpc_cb.Example.Wire.{Codec, AllText, message_type, WriterView}
use grpc_cb.Example.Chat.{ChatReader, route_chat, on_msg, on_msgs, on_msg_strs}
use grpc_cb.Example.Chat.Board.{empty_board, answers, answers-AllText, route_chat-Simulates}

module _ (notes : Codec RouteNote) (core : WriterCore) (view : WriterView core.write) where
  stream_msgs-on_msgs :
      (msgs : List RouteNote) (r : Option (ChatReader notes core))
      → stream_msgs (message_type notes) (λ msg r. r >>= on_msg notes core msg) msgs r
        ≡ (r >>= on_msgs notes core msgs)
  unfolding on_msgs
  stream_msgs-on_msgs [] none = refl
  stream_msgs-on_msgs [] (some r) = refl
  stream_msgs-on_msgs (m ∷ ms) none = stream_msgs-on_msgs ms none
  stream_msgs-on_msgs (m ∷ ms) (some r) = stream_msgs-on_msgs ms (on_msg notes core m r)

  -- The strings of messages come to `OnMsg` as these messages.
  on_msg_strs-serialize :
      (msgs : List RouteNote) (r : Option (ChatReader notes core))
      → AllText notes msgs
      → on_msg_strs notes core (map notes.serialize msgs) r
        ≡ (status_ok, r >>= on_msgs notes core msgs)
  unfolding on_msg_strs
  on_msg_strs-serialize msgs r texts =
      stream_strs-serialize (message_type notes) (λ msg r. r >>= on_msg notes core msg) msgs r texts
      ∙ ap (λ run. (status_ok, run)) (stream_msgs-on_msgs msgs r)

  -- A chat from end to end. If the strings of some notes, whose text is UTF-8, come to a fresh
  -- reader of the service, its writer still accepts messages at the end, and a client reads what
  -- has been written to its end, then the client gets for each note, in order, the notes that were
  -- left before at the same point.
  route_chat-receive :
      (msgs : List RouteNote) (s w : core.State) (after : ChatReader notes core)
      (reader : ReaderCore) (reads : ReaderView reader) (r : reader.State) (n : ℕ) (old : RouteNote)
      → view.written s ≡ []
      → AllText notes msgs
      → on_msg_strs notes core (map notes.serialize msgs) (some (route_chat notes core s))
        ≡ (status_ok, some after)
      → get_writer (message_type notes) core after.streaming ≡ some w
      → view.accepts w ≡ true
      → reads.pending r ≡ view.written w
      → length (answers empty_board msgs) < n
      → receive (message_type notes) reader n old r ≡ some (answers empty_board msgs, reads.final r)
  unfolding get_writer
  route_chat-receive msgs s w after reader reads r n old fresh texts ran last accepted same enough =
      let run = route_chat-Simulates notes core view msgs s in
      let ends : some after ≡ on_msgs notes core msgs (route_chat notes core s) =
        ap (λ p. p.1)
          (sym ran ∙ on_msg_strs-serialize msgs (some (route_chat notes core s)) texts) in
      let held : after.streaming.writer_uptr ≡ some run.writer =
        ap (λ c. elim c [ none ↦ none | some chat ↦ chat.streaming.writer_uptr ])
          (ends ∙ run.runs) in
      let writer : w ≡ run.writer =
        some_unique after.streaming.writer_uptr w run.writer last held in
      let done = run.wrote in
      let all : answers empty_board msgs ≡ done.sent =
        rw (done.parts, done.complete (rw (sym writer) accepted)) (append-nil done.sent) in
      let pending : reads.pending r ≡ map notes.serialize (answers empty_board msgs) =
        same ∙ ap view.written writer ∙ done.wrote ∙ rw (fresh, all) refl in
      receive-serialized (message_type notes) reader reads (answers empty_board msgs) n old r
        pending enough (answers-AllText notes empty_board msgs (λ p. tt) texts)
