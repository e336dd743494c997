-- ===== src/Example/Visit/Talk.antt =====
-- `SyncRouteChat` of route_guide_cb_client.cc with the chat of route_guide_cb_server.cc: one thread of
-- the client writes the notes, the other reads, and the server handles the notes that have come. The
-- three go on in any order. A stream of gRPC brings the message strings in the order of writing.
pub mod Handling
pub mod Invariant
pub mod Reached
pub mod Heard
pub mod Ending
use grpc_cb.Base.{
  ℕ, zero, suc, ◌≡◌, Bool, true, false, Option, none, some, List, [], ◌∷◌, ◌++◌, ◌>>=◌, Bytes,
}
use grpc_cb.ProtoUtils.Status.{Status, status_ok}
use grpc_cb.Client.{AsyncCore, async_write, close_writing}
use grpc_cb.Server.{WriterCore, on_msg_str}
use grpc_cb.Example.Points.{RouteNote}
use grpc_cb.Example.Wire.{Codec, message_type, WriterView}
use grpc_cb.Example.Chat.{ChatReader, on_msg, on_end, route_chat}

-- Where the thread that reads is: in its loop over `ReadOne`, in `f.wait`, before `RecvStatus`, or past
-- it with the status.
pub data Phase : Type 0 where
  reading : Phase
  joining : Phase
  asking : Phase
  returned : Status → Phase

abbrev pub phases_done : Phase → ℕ
phases_done reading = 0
phases_done joining = 1
phases_done asking = 2
phases_done (returned status) = 3

module _ (notes : Codec RouteNote) (client : AsyncCore (message_type notes))
    (sends : WriterView client.write) (core : WriterCore) (view : WriterView core.write) where
  -- The notes that the writing thread has before it, its stream, and whether it has closed it; the
  -- strings that have come to the server's reader, and whether it has been told of the end; those that
  -- the reading thread has read as messages, and where it is.
  pub record Talk : Type 0 where
    pub unsent : List RouteNote
    pub stream : client.State
    pub closed : Bool
    pub arrived : List Bytes
    pub reader : ChatReader notes core
    pub ended : Bool
    pub read : List Bytes
    pub phase : Phase

  -- The strings that the server has written.
  abbrev pub answered : ChatReader notes core → List Bytes
  answered r = elim r.streaming.writer_uptr [ none ↦ [] | some w ↦ view.written w ]

  unfoldable pub start_talk : List RouteNote → client.State → core.State → Talk
  unfolding route_chat
  start_talk messages stream writer = record {
    unsent = messages;
    stream = stream;
    closed = false;
    arrived = [];
    reader = route_chat notes core writer;
    ended = false;
    read = [];
    phase = reading;
  }

  -- `ReadOne` is true for a string that parses. It is false for one that does not, and when the
  -- server has been told of the end and all that it has written is read: grpc_cb_core closes the
  -- stream when the last copy of the writer is gone. `RecvStatus` has the status from grpc_cb_core.
  -- The steps end at a note that the server refuses since it does not parse; what `OnError` then
  -- does is not among them.
  pub data Step : Talk → Talk → Type 0 where
    writes :
        (t : Talk) (note : RouteNote) (rest : List RouteNote)
        → t.unsent ≡ note ∷ rest
        → Step t (record t {
          unsent = rest;
          stream = (async_write (message_type notes) (message_type notes) client note t.stream).1;
        })
    closes :
        (t : Talk)
        → t.unsent ≡ []
        → t.closed ≡ false
        → Step t (record t {
          closed = true;
          stream = close_writing (message_type notes) (message_type notes) client t.stream;
        })
    arrives :
        (t : Talk) (b : Bytes) (bs : List Bytes) (r : ChatReader notes core)
        → sends.written t.stream ≡ t.arrived ++ b ∷ bs
        → on_msg_str (message_type notes) (λ msg r. r >>= on_msg notes core msg) b (some t.reader)
          ≡ (status_ok, some r)
        → Step t (record t { arrived = t.arrived ++ b ∷ []; reader = r })
    reads :
        (t : Talk) (b : Bytes) (bs : List Bytes)
        → t.phase ≡ reading
        → answered t.reader ≡ t.read ++ b ∷ bs
        → (notes.parse b).0 ≡ true
        → Step t (record t { read = t.read ++ b ∷ [] })
    ends :
        (t : Talk) (r : ChatReader notes core)
        → t.closed ≡ true
        → sends.written t.stream ≡ t.arrived
        → t.ended ≡ false
        → on_end notes core t.reader ≡ some r
        → Step t (record t { ended = true })
    refuses :
        (t : Talk) (b : Bytes) (bs : List Bytes)
        → t.phase ≡ reading
        → answered t.reader ≡ t.read ++ b ∷ bs
        → (notes.parse b).0 ≡ false
        → Step t (record t { phase = joining })
    finishes :
        (t : Talk)
        → t.phase ≡ reading
        → t.ended ≡ true
        → answered t.reader ≡ t.read
        → Step t (record t { phase = joining })
    joins :
        (t : Talk)
        → t.phase ≡ joining
        → t.unsent ≡ []
        → t.closed ≡ true
        → Step t (record t { phase = asking })
    asks :
        (t : Talk) (status : Status)
        → t.phase ≡ asking
        → Step t (record t { phase = returned status })

  pub data Reach (s : Talk) : Talk → Type 0 where
    here : Reach s s
    next : {t u : Talk} → Reach s t → Step t u → Reach s u

  abbrev pub steps : {s t : Talk} → Reach s t → ℕ
  steps here = 0
  steps (next r step) = suc (steps r)

  -- `SyncRouteChat` has returned, past `RecvStatus`.
  pub record IsOver (t : Talk) : Type 0 where
    pub status : Status
    pub phase : t.phase ≡ returned status

-- What the stream has sent stays when the client closes it for writing, and it accepts no more then
-- than before.
pub record ClosingView (notes : Codec RouteNote) (client : AsyncCore (message_type notes))
    (sends : WriterView client.write) : Type 0 where
  pub written-close : (s : client.State) → sends.written (client.close_writing s) ≡ sends.written s
  pub accepts-close :
      (s : client.State) → sends.accepts s ≡ false → sends.accepts (client.close_writing s) ≡ false
