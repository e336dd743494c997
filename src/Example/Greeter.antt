-- ===== src/Example/Greeter.antt =====
-- The greeter: examples/cpp_cb/helloworld/helloworld.grpc_cb.pb.cc, greeter_cb_server.cc and
-- greeter_cb_client.cc.
pub mod Greeting
pub mod Dispatched
pub mod Waits
use grpc_cb.Base.{
  ℕ, zero, suc, ◌+◌, ◌/◌, Bool, Option, none, some, List, [], ◌∷◌, ◌++◌, Bytes, codes,
  if◌then◌else◌, ◌>>=◌, get_elem?,
}
use grpc_cb.Base.Int.{pos}
use grpc_cb.ProtoUtils.Status.{Status, unimplemented, is_ok}
use grpc_cb.ProtoUtils.Reader.{SliceReader, make_reader}
use grpc_cb.ProtoUtils.Messages.{ParserApi, limit, deserialize}
use grpc_cb.Client.{StubCore, sync_request, async_request}
use grpc_cb.Server.{ReplierCore, replier_reply, replier_reply_error}
use grpc_cb.Example.Wire.{Codec, message_type}

pub record HelloRequest : Type 0 where
  pub name : Bytes

pub record HelloReply : Type 0 where
  pub message : Bytes

-- `method_names` of helloworld.grpc_cb.pb.cc.
abbrev method_names : List Bytes
method_names = codes "/helloworld.Greeter/SayHello" ∷ []

unfoldable pub get_method_name : ℕ → Option Bytes
get_method_name method_index = get_elem? method_names method_index

module _ (requests : Codec HelloRequest) (replies : Codec HelloReply)
    (core : StubCore (message_type replies)) where
  -- `Stub::Sync_SayHello` and `Stub::Async_SayHello`; an index out of range is `none`.
  unfoldable pub sync_say_hello :
      HelloRequest
      → Option HelloReply
      → core.State
      → Option (Status × Option HelloReply × core.State)
  unfolding get_method_name sync_request
  sync_say_hello request response s = get_method_name 0 >>= (λ method.
      some (
        sync_request (message_type requests) (message_type replies) core method request response s))

  unfoldable async_say_hello : HelloRequest → Bool → core.State → Option core.State
  unfolding get_method_name async_request
  async_say_hello request cb s = get_method_name 0 >>= (λ method.
      some (async_request (message_type requests) (message_type replies) core method request cb s))

  -- `GreeterClient::SyncSayHello`.
  unfoldable pub greet : Bytes → core.State → Option (Bytes × core.State)
  unfolding sync_say_hello
  greet user s = do
    (status, reply, s') ← sync_say_hello (record { name = user }) (some replies.initial) s
    filled ← reply
    some ((if is_ok status then filled.message else codes "RPC failed: " ++ status.details), s')

module _ (replies : Codec HelloReply) (core : ReplierCore) where
  -- `GreeterServiceImpl::SayHello`.
  unfoldable pub say_hello : HelloRequest → core.State → core.State
  unfolding replier_reply
  say_hello request replier =
      let prefix = codes "Hello " in
      replier_reply (message_type replies) core (record { message = prefix ++ request.name })
        replier

  -- `Service::SayHello` as the generator writes it.
  unfoldable default_say_hello : HelloRequest → core.State → core.State
  unfolding replier_reply_error
  default_say_hello request replier =
      replier_reply_error (message_type replies) core unimplemented replier

module _ (slices : SliceReader) (requests : ParserApi slices) (unset : slices.State)
    (core : ReplierCore) (replies : Codec HelloReply)
    (virtual : requests.Msg → core.State → core.State) where
  -- `Service::SayHello` on a buffer; the virtual function is an argument.
  unfoldable pub say_hello_buffer : slices.Buffer → core.State → core.State
  unfolding replier_reply_error
  say_hello_buffer request_buffer replier =
      let status = deserialize slices requests unset (some request_buffer) (pos 0) in
      let request =
        (requests.parse_from (limit (pos 0)) (make_reader slices unset request_buffer)).2 in
      if is_ok status
      then virtual request replier
      else replier_reply_error (message_type replies) core status replier

  -- `Service::CallMethod` for a call that is set; `none` is a failed assert.
  unfoldable pub call_method : ℕ → Option slices.Buffer → core.State → Option core.State
  unfolding say_hello_buffer
  call_method zero none call = some call
  call_method zero (some request_buffer) call = some (say_hello_buffer request_buffer call)
  call_method (suc n) request_buffer call = none
