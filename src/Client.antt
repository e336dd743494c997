-- ===== src/Client.antt =====
-- The client classes of include/grpc_cb/client. Each holds a core object of grpc_cb_core, which is a
-- parameter: its operations on a state, in the order in which the class makes them. A callback is
-- given to a wrapper or not; what a wrapped callback does is the list of the calls that it receives.
pub mod Reading
pub mod Opening
use grpc_cb.Base.{
  ℕ, zero, suc, Bool, true, false, Option, none, some, List, [], ◌∷◌, Bytes, if◌then◌else◌, ◌>>=◌,
}
use grpc_cb.ProtoUtils.Status.{Status, status_ok, is_ok}
use grpc_cb.Messages.{MessageType, message_error, response_error}

-- `WrapMsgCb` (impl/wrap_msg_cb.h): the messages that the callback receives, and the status that is
-- returned for a message string.
unfoldable pub wrap_msg_cb : (type : MessageType) → Bool → Option (Bytes → List type.Msg × Status)
wrap_msg_cb type false = none
wrap_msg_cb type true = some (λ resp_str.
    let parsed = type.parse resp_str in
    if parsed.0 then (parsed.1 ∷ [], status_ok) else ([], message_error type))

-- `WrapCloseCb` (impl/wrap_close_cb.h): the statuses and responses that the callback receives.
unfoldable pub wrap_close_cb :
    (type : MessageType) → Bool → Option (Status → Bytes → List (Status × type.Msg))
wrap_close_cb type false = none
wrap_close_cb type true = some (λ status resp_str.
    let parsed = type.parse resp_str in
    if is_ok status
    then (if parsed.0 then (status, parsed.1) ∷ [] else (response_error type, parsed.1) ∷ [])
    else (status, type.initial) ∷ [])

-- The core of a stub: requests by method name and message string. An asynchronous request is given
-- the wrapped callback.
pub record StubCore (type : MessageType) : Type 1 where
  pub State : Type 0
  pub sync_request : Bytes → Bytes → State → Status × Bytes × State
  pub async_request : Bytes → Bytes → Option (Bytes → List type.Msg × Status) → State → State

module _ (request response : MessageType) (core : StubCore response) where
  -- `StubHelper::SyncRequest` (stub_helper.h): the status, the response that the caller's object
  -- then holds, if the caller gave one, and the stub's state.
  unfoldable pub sync_request :
      Bytes
      → request.Msg
      → Option response.Msg
      → core.State
      → Status × Option response.Msg × core.State
  sync_request method msg none s =
      let (status, resp_str, s') = core.sync_request method (request.serialize msg) s in
      (status, none, s')
  sync_request method msg (some old) s =
      let (status, resp_str, s') = core.sync_request method (request.serialize msg) s in
      let parsed = response.parse resp_str in
      if is_ok status
      then (if parsed.0
          then (status, some parsed.1, s')
          else (response_error response, some parsed.1, s'))
      else (status, some old, s')

  -- `StubHelper::AsyncRequest`; the error callback is passed on as it is.
  unfoldable pub async_request : Bytes → request.Msg → Bool → core.State → core.State
  unfolding wrap_msg_cb
  async_request method msg cb s =
      core.async_request method (request.serialize msg) (wrap_msg_cb response cb) s

-- The core of a writer that closes with a response: `Write` of a message string, and `Close`.
pub record WriterCore : Type 1 where
  pub State : Type 0
  pub write : Bytes → State → Bool × State
  pub close : State → Status × Bytes × State

module _ (request response : MessageType) (core : WriterCore) where
  -- `ClientSyncWriter` (client_sync_writer.h).
  unfoldable pub write : request.Msg → core.State → Bool × core.State
  write msg s = core.write (request.serialize msg) s

  unfoldable pub close : response.Msg → core.State → Status × response.Msg × core.State
  close old s =
      let (status, resp_str, s') = core.close s in
      let parsed = response.parse resp_str in
      if is_ok status
      then (if parsed.0 then (status, parsed.1, s') else (message_error response, parsed.1, s'))
      else (status, old, s')

-- The core of a reader: `ReadOne` of a message string, `SetErrorStatus` and `RecvStatus`.
pub record ReaderCore : Type 1 where
  pub State : Type 0
  pub read_one : State → Option Bytes × State
  pub set_error_status : Status → State → State
  pub recv_status : State → Status × State

module _ (response : MessageType) (core : ReaderCore) where
  -- What `ReadOne` does with what the core has read.
  unfoldable pub read_result :
      response.Msg → Option Bytes → core.State → Bool × response.Msg × core.State
  read_result old none s = (false, old, s)
  read_result old (some resp_str) s =
      let parsed = response.parse resp_str in
      if parsed.0
      then (true, parsed.1, s)
      else (false, parsed.1, core.set_error_status (message_error response) s)

  -- `ReadOne` of `ClientSyncReader` and `ClientSyncReaderWriter`: its result, what the caller's
  -- object then holds, and the reader's state.
  unfoldable pub read_one : response.Msg → core.State → Bool × response.Msg × core.State
  unfolding read_result
  read_one old s = let read = core.read_one s in read_result old read.0 read.1

  -- The loop of a client that reads until `ReadOne` is false, then asks for the status: the messages
  -- that it saw and the status. `none` is a loop that needs more fuel.
  unfoldable pub receive : ℕ → response.Msg → core.State → Option (List response.Msg × Status)
  unfolding read_one
  receive zero old s = none
  receive (suc n) old s =
      let (read, msg, s') = read_one old s in
      let rest = receive n msg s' in
      if read then rest >>= (λ r. some (msg ∷ r.0, r.1)) else some ([], (core.recv_status s').0)

  unfoldable pub recv_status : core.State → Status × core.State
  recv_status s = core.recv_status s

-- The core of a stream that the client writes and reads: `Write`, `CloseWriting`, and the callbacks
-- that it is given for what comes in and for the end.
pub record AsyncCore (type : MessageType) : Type 1 where
  pub State : Type 0
  pub write : Bytes → State → Bool × State
  pub close_writing : State → State
  pub read_each : Option (Bytes → List type.Msg × Status) → State → State
  pub close : Option (Status → Bytes → List (Status × type.Msg)) → State → State

module _ (request response : MessageType) (core : AsyncCore response) where
  -- `Write` of `ClientAsyncWriter`, `ClientAsyncReaderWriter` and `ClientSyncReaderWriter`.
  unfoldable pub async_write : request.Msg → core.State → Bool × core.State
  async_write msg s = core.write (request.serialize msg) s

  unfoldable pub close_writing : core.State → core.State
  close_writing s = core.close_writing s

  -- `ReadEach` of `ClientAsyncReader` and `ClientAsyncReaderWriter`.
  unfoldable pub read_each : Bool → core.State → core.State
  unfolding wrap_msg_cb
  read_each msg_cb s = core.read_each (wrap_msg_cb response msg_cb) s

  -- `Close` of `ClientAsyncWriter`.
  unfoldable pub async_close : Bool → core.State → core.State
  unfolding wrap_close_cb
  async_close close_cb s = core.close (wrap_close_cb response close_cb) s
