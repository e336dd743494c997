-- ===== src/Example/Greeter/Dispatched.antt =====
-- The greeter from end to end, over grpc_cb_core.
use grpc_cb.Base.{◌≡◌, refl, true, Option, some, ◌++◌, Bytes, codes}
use grpc_cb.Base.Int.{pos}
use grpc_cb.ProtoUtils.Reader.{SliceReader}
use grpc_cb.ProtoUtils.Messages.{ParserApi, IsParsed, deserialize_iff}
use grpc_cb.Client.{StubCore}
use grpc_cb.Server.{ReplierCore}
use grpc_cb.Server.Replying.{ReplierView}
use grpc_cb.Example.Wire.{Codec, message_type}
use grpc_cb.Example.Served.{IsCalled, read_from, call-IsServed}
use grpc_cb.Example.Greeter.{
  HelloRequest, HelloReply, greet, say_hello, say_hello_buffer, call_method,
}
use grpc_cb.Example.Greeter.Greeting.{greet-say_hello}

module _ (replies : Codec HelloReply) (core : ReplierCore) (slices : SliceReader)
    (api : ParserApi slices) (unset : slices.State) (read : api.Msg → HelloRequest) where
  -- `CallMethod` of the example's service, for its one method.
  abbrev pub call_say_hello : slices.Buffer → core.State → Option core.State
  call_say_hello b call =
      call_method slices api unset core replies (λ m. say_hello replies core (read m)) 0 (some b)
        call

  call_say_hello-handle :
      (b : slices.Buffer) (s : core.State)
      → IsParsed slices api unset (some b) (pos 0)
      → call_say_hello b s ≡ some (say_hello replies core (read_from slices api unset read b) s)
  unfolding call_method say_hello_buffer
  call_say_hello-handle b s p = rw ((deserialize_iff slices api unset (some b) (pos 0)).1 p) refl

module _ (requests : Codec HelloRequest) (replies : Codec HelloReply)
    (client : StubCore (message_type replies)) (core : ReplierCore) (view : ReplierView core)
    (slices : SliceReader) (api : ParserApi slices) (unset : slices.State)
    (read : api.Msg → HelloRequest) where
  -- From the client's call to its result, through the stub, `CallMethod`, the parsing of the request,
  -- the handler and the reply: the client of a greeter that is connected to the service of the example
  -- is greeted by its name, if the name and the greeting with it are UTF-8.
  pub greet-call_method :
      (user : Bytes) (s : client.State)
      → IsCalled
          (message_type requests)
          (message_type replies)
          client
          (codes "/helloworld.Greeter/SayHello")
          core
          view
          slices
          api
          unset
          read
          (call_say_hello replies core slices api unset read)
      → requests.is_text (record { name = user }) ≡ true
      → replies.is_text (record { message = codes "Hello " ++ user }) ≡ true
      → (s' : client.State) × (greet requests replies client user s
          ≡ some (codes "Hello " ++ user, s'))
  greet-call_method user s called asked said =
      greet-say_hello requests replies client core view user s
        (call-IsServed (message_type requests) (message_type replies) client
          (codes "/helloworld.Greeter/SayHello") core view slices api unset read
          (call_say_hello replies core slices api unset read) (say_hello replies core)
          (call_say_hello-handle replies core slices api unset read) called)
        asked said
