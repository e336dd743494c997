-- ===== src/Example/Stub.antt =====
-- The functions of `Stub` in examples/cpp_cb/route_guide/route_guide.grpc_cb.pb.cc. An index out of range
-- of `method_names` is `none`.
pub mod Opens
use grpc_cb.Base.{Bool, Option, some, ◌>>=◌, List, Bytes}
use grpc_cb.Base.Int.{ℤ}
use grpc_cb.ProtoUtils.Status.{Status}
use grpc_cb.Client.{StubCore, sync_request, async_request, wrap_msg_cb}
use grpc_cb.Client.Opening.{
  Opened, client_sync_reader, client_async_reader, client_sync_writer, client_async_writer,
  client_sync_reader_writer, client_async_reader_writer,
}
use grpc_cb.Example.Points.{Point, Rectangle, Feature}
use grpc_cb.Example.Wire.{Codec, message_type}
use grpc_cb.Example.Dispatch.{get_method_name}

-- What a `ServiceStub` of grpc_cb_core holds.
pub record ServiceStub (Channel Queue : Type 0) : Type 0 where
  pub channel : Channel
  pub completion_queue : Queue
  pub call_timeout_ms : ℤ

module _ (points : Codec Point) (features : Codec Feature)
    (core : StubCore (message_type features)) where
  unfoldable pub sync_get_feature :
      Point → Option Feature → core.State → Option (Status × Option Feature × core.State)
  unfolding get_method_name sync_request
  sync_get_feature request response s = get_method_name 0 >>= (λ method.
      some
        (sync_request (message_type points) (message_type features) core method request response s))

  unfoldable pub async_get_feature : Point → Bool → core.State → Option core.State
  unfolding get_method_name async_request
  async_get_feature request cb s = get_method_name 0 >>= (λ method.
      some (async_request (message_type points) (message_type features) core method request cb s))

module _ {Channel Queue StatusCb : Type 0} (rectangles : Codec Rectangle) (features : Codec Feature)
    (stub : ServiceStub Channel Queue) where
  unfoldable pub sync_list_features : Rectangle → Option (Opened Channel Queue StatusCb)
  unfolding get_method_name client_sync_reader
  sync_list_features request = get_method_name 1 >>= (λ method. some (
      client_sync_reader (message_type rectangles) stub.channel method request
        stub.call_timeout_ms))

  -- The reader that is made, and the callbacks that its `ReadEach` gives to the core.
  unfoldable pub async_list_features :
      Rectangle
      → Bool
      → Option StatusCb
      → Option
          (Opened Channel Queue StatusCb × Option (Bytes → List Feature × Status) × Option StatusCb)
  unfolding get_method_name client_async_reader wrap_msg_cb
  async_list_features request msg_cb status_cb = get_method_name 1 >>= (λ method. some (
    client_async_reader (message_type rectangles) stub.channel method request stub.completion_queue
        stub.call_timeout_ms,
    wrap_msg_cb (message_type features) msg_cb,
    status_cb,
  ))

module _ {Channel Queue StatusCb : Type 0} (stub : ServiceStub Channel Queue) where
  unfoldable pub sync_record_route : Option (Opened Channel Queue StatusCb)
  unfolding get_method_name client_sync_writer
  sync_record_route =
      get_method_name 2
      >>= (λ method. some (client_sync_writer stub.channel method stub.call_timeout_ms))

  unfoldable pub async_record_route : Option (Opened Channel Queue StatusCb)
  unfolding get_method_name client_async_writer
  async_record_route = get_method_name 2 >>= (λ method.
      some (client_async_writer stub.channel method stub.completion_queue stub.call_timeout_ms))

  unfoldable pub sync_route_chat : Option (Opened Channel Queue StatusCb)
  unfolding get_method_name client_sync_reader_writer
  sync_route_chat =
      get_method_name 3
      >>= (λ method. some (client_sync_reader_writer stub.channel method stub.call_timeout_ms))

  unfoldable pub async_route_chat : Option StatusCb → Option (Opened Channel Queue StatusCb)
  unfolding get_method_name client_async_reader_writer
  async_route_chat status_cb = get_method_name 3 >>= (λ method. some (
      client_async_reader_writer stub.channel method stub.completion_queue stub.call_timeout_ms
        status_cb))
