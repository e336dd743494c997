-- ===== src/Example/Served.antt =====
-- A client and a service that grpc_cb_core connects.
use grpc_cb.Base.{◌≡◌, true, ap, ◌∙◌, Option, none, some, Bytes}
use grpc_cb.Base.Int.{pos}
use grpc_cb.ProtoUtils.Reader.{SliceReader, make_reader}
use grpc_cb.ProtoUtils.Messages.{ParserApi, limit, IsParsed}
use grpc_cb.Messages.{MessageType}
use grpc_cb.ProtoUtils.Status.{Status, status_ok}
use grpc_cb.Client.{StubCore}
use grpc_cb.Server.{ReplierCore}
use grpc_cb.Server.Replying.{ReplierView, Answer, answer, refusal}

-- What a request returns, where this was sent for it.
abbrev pub Returns {ℓ} : {S : Type ℓ} → Status × Bytes × S → Answer → Type 0
Returns (status, resp_str, s) (answer b) = (status ≡ status_ok) × (resp_str ≡ b)
Returns (status, resp_str, s) (refusal e) = status ≡ e

-- The requests of a method, with UTF-8 as their text, come to this handler of a service, each with
-- a replier that has sent nothing; what the replier sends comes back.
pub record IsServed (request response : MessageType) (client : StubCore response) (method : Bytes)
    (core : ReplierCore) (view : ReplierView core) (handle : request.Msg → core.State → core.State)
    : Type 0 where
  pub fresh : core.State
  pub unsent : view.sent fresh ≡ none
  pub delivered :
      (msg : request.Msg) (s : client.State) (a : Answer)
      → request.is_text msg ≡ true
      → view.sent (handle msg fresh) ≡ some a
      → Returns (client.sync_request method (request.serialize msg) s) a

-- The message that protobuf reads from a buffer.
abbrev pub read_from :
    {A : Type 0} (slices : SliceReader) (api : ParserApi slices)
    → slices.State
    → (api.Msg → A)
    → slices.Buffer
    → A
read_from slices api unset read b =
    read (api.parse_from (limit (pos 0)) (make_reader slices unset b)).2

module _ (request response : MessageType) (client : StubCore response) (method : Bytes)
    (core : ReplierCore) (view : ReplierView core) (slices : SliceReader) (api : ParserApi slices)
    (unset : slices.State) (read : api.Msg → request.Msg) where
  -- The request strings of a method, of messages with UTF-8 as their text, come to `CallMethod` in
  -- buffers from which protobuf reads the messages back, each with a call for which nothing has
  -- been sent; what is sent comes back.
  pub record IsCalled (call : slices.Buffer → core.State → Option core.State) : Type 0 where
    pub buffer : Bytes → slices.Buffer
    pub parsed :
        (msg : request.Msg)
        → request.is_text msg ≡ true
        → IsParsed slices api unset (some (buffer (request.serialize msg))) (pos 0)
    pub same :
        (msg : request.Msg)
        → request.is_text msg ≡ true
        → read_from slices api unset read (buffer (request.serialize msg)) ≡ msg
    pub fresh : core.State
    pub unsent : view.sent fresh ≡ none
    pub delivered :
        (b : Bytes) (s : client.State) (r : core.State) (a : Answer)
        → call (buffer b) fresh ≡ some r
        → view.sent r ≡ some a
        → Returns (client.sync_request method b s) a

  -- A `CallMethod` that gives what it has parsed to a handler serves its requests by the handler.
  pub call-IsServed :
      (call : slices.Buffer → core.State → Option core.State)
      (handle : request.Msg → core.State → core.State)
      → ((b : slices.Buffer) (s : core.State)
          → IsParsed slices api unset (some b) (pos 0)
          → call b s ≡ some (handle (read_from slices api unset read b) s))
      → IsCalled call
      → IsServed request response client method core view handle
  call-IsServed call handle dispatches called = record {
    fresh = called.fresh;
    unsent = called.unsent;
    delivered = λ msg s a text e.
        let b = called.buffer (request.serialize msg) in
        called.delivered (request.serialize msg) s (handle msg called.fresh) a
          (dispatches b called.fresh (called.parsed msg text)
            ∙ ap (λ m. some (handle m called.fresh)) (called.same msg text))
          e;
  }
