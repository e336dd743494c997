-- ===== src/Example/Stub/Opens.antt =====
-- What the functions of `Stub` in route_guide.grpc_cb.pb.cc open, against the descriptor of the service.
use grpc_cb.Base.{
  ◌>>=◌, Bool, ℕ, ◌≡◌, refl, Bool, true, false, Option, some, ◌++◌, Bytes, codes, get_elem?,
}
use grpc_cb.Base.Int.{ℤ}
use grpc_cb.Helpers.Descriptors.{MethodDescriptor}
use grpc_cb.Client.Opening.{
  Opened, sync_reader, async_reader, sync_writer, async_writer, sync_reader_writer,
  async_reader_writer, client_sync_reader, client_async_reader, client_sync_writer,
  client_async_writer, client_sync_reader_writer, client_async_reader_writer,
}
use grpc_cb.Generator.Sample.{route_guide, list_features, record_route, route_chat}
use grpc_cb.Example.Points.{Rectangle, Feature}
use grpc_cb.Example.Wire.{Codec}
use grpc_cb.Example.Dispatch.{get_method_name}
use grpc_cb.Example.Stub.{
  ServiceStub, sync_list_features, async_list_features, sync_record_route, async_record_route,
  sync_route_chat, async_route_chat,
}

module _ {Channel Queue StatusCb : Type 0} where
  -- Whether the client sends a stream, and whether it gets one.
  abbrev streams : Opened Channel Queue StatusCb → Bool × Bool
  streams (sync_reader c m r t) = (false, true)
  streams (async_reader c m r q t) = (false, true)
  streams (sync_writer c m t) = (true, false)
  streams (async_writer c m q t) = (true, false)
  streams (sync_reader_writer c m t) = (true, true)
  streams (async_reader_writer c m q t s) = (true, true)

  -- The channel, the method and the timeout.
  abbrev target : Opened Channel Queue StatusCb → Channel × Bytes × ℤ
  target (sync_reader c m r t) = (c, m, t)
  target (async_reader c m r q t) = (c, m, t)
  target (sync_writer c m t) = (c, m, t)
  target (async_writer c m q t) = (c, m, t)
  target (sync_reader_writer c m t) = (c, m, t)
  target (async_reader_writer c m q t s) = (c, m, t)

  -- A stub opens a stream of the kind that a method's descriptor asks for, on its own channel and with
  -- its own timeout, under the method's name behind that of the service.
  pub record Opens (stub : ServiceStub Channel Queue) (i : ℕ)
      (call : Option (Opened Channel Queue StatusCb)) : Type 0 where
    pub method : MethodDescriptor
    pub declared : get_elem? route_guide.methods i ≡ some method
    pub stream : Opened Channel Queue StatusCb
    pub opened : call ≡ some stream
    pub kind : streams stream ≡ (method.client_streaming, method.server_streaming)
    pub addressed : target stream ≡ (
      stub.channel,
      codes "/" ++ (route_guide.full_name ++ (codes "/" ++ method.name)),
      stub.call_timeout_ms,
    )

  some-Opens :
      (stub : ServiceStub Channel Queue) (i : ℕ) (method : MethodDescriptor)
      (stream : Opened Channel Queue StatusCb)
      → get_elem? route_guide.methods i ≡ some method
      → streams stream ≡ (method.client_streaming, method.server_streaming)
      → target stream ≡ (
        stub.channel,
        codes "/" ++ (route_guide.full_name ++ (codes "/" ++ method.name)),
        stub.call_timeout_ms,
      )
      → Opens stub i (some stream)
  some-Opens stub i method stream d k a = record {
    method = method;
    declared = d;
    stream = stream;
    opened = refl;
    kind = k;
    addressed = a;
  }

  -- Each function of the stub for a method with a stream opens a stream of the kind that the descriptor
  -- of the service asks for, on the stub's channel, under the name of that method.
  pub stub-Opens :
      (rectangles : Codec Rectangle) (features : Codec Feature) (stub : ServiceStub Channel Queue)
      (request : Rectangle) (msg_cb : Bool) (status_cb : Option StatusCb)
      → Opens stub 1 (sync_list_features rectangles features stub request)
        × Opens stub 1 (
            async_list_features rectangles features stub request msg_cb status_cb
            >>= (λ r. some r.0))
        × Opens stub 2 (sync_record_route stub)
        × Opens stub 2 (async_record_route stub)
        × Opens stub 3 (sync_route_chat stub)
        × Opens stub 3 (async_route_chat stub status_cb)
  unfolding sync_list_features async_list_features sync_record_route async_record_route
      sync_route_chat async_route_chat get_method_name client_sync_reader client_async_reader
      client_sync_writer client_async_writer client_sync_reader_writer client_async_reader_writer
  stub-Opens rectangles features stub request msg_cb status_cb = (
    some-Opens stub 1 list_features
        (sync_reader stub.channel (codes "/routeguide.RouteGuide/ListFeatures")
          (rectangles.serialize request) stub.call_timeout_ms)
        refl refl refl,
    some-Opens stub 1 list_features
        (async_reader stub.channel (codes "/routeguide.RouteGuide/ListFeatures")
          (rectangles.serialize request) stub.completion_queue stub.call_timeout_ms)
        refl refl refl,
    some-Opens stub 2 record_route
        (sync_writer stub.channel (codes "/routeguide.RouteGuide/RecordRoute") stub.call_timeout_ms)
        refl refl refl,
    some-Opens stub 2 record_route
        (async_writer stub.channel (codes "/routeguide.RouteGuide/RecordRoute")
          stub.completion_queue stub.call_timeout_ms)
        refl refl refl,
    some-Opens stub 3 route_chat
        (sync_reader_writer stub.channel (codes "/routeguide.RouteGuide/RouteChat")
          stub.call_timeout_ms)
        refl refl refl,
    some-Opens stub 3 route_chat
        (async_reader_writer stub.channel (codes "/routeguide.RouteGuide/RouteChat")
          stub.completion_queue stub.call_timeout_ms status_cb)
        refl refl refl,
  )
