-- ===== src/Example/Greeter/Greeting.antt =====
-- What the client of the greeter prints, over grpc_cb_core.
use grpc_cb.Base.{◌≡◌, refl, true, false, some, ◌++◌, Bytes, codes}
use grpc_cb.ProtoUtils.Status.{Status, is_ok}
use grpc_cb.Client.{StubCore, sync_request}
use grpc_cb.Server.{ReplierCore, replier_reply}
use grpc_cb.Server.Replying.{ReplierView, answer, refusal}
use grpc_cb.Example.Wire.{Codec, message_type}
use grpc_cb.Example.Served.{IsServed}
use grpc_cb.Example.Greeter.{
  HelloRequest, HelloReply, get_method_name, sync_say_hello, greet, say_hello,
}

module _ (requests : Codec HelloRequest) (replies : Codec HelloReply)
    (client : StubCore (message_type replies)) (core : ReplierCore) (view : ReplierView core) where
  -- The client of a greeter that is connected to the service of the example is greeted by its name,
  -- if the name and the greeting with it are UTF-8.
  pub greet-say_hello :
      (user : Bytes) (s : client.State)
      → IsServed
          (message_type requests)
          (message_type replies)
          client
          (codes "/helloworld.Greeter/SayHello")
          core
          view
          (say_hello replies core)
      → requests.is_text (record { name = user }) ≡ true
      → replies.is_text (record { message = codes "Hello " ++ user }) ≡ true
      → (s' : client.State) × (greet requests replies client user s
          ≡ some (codes "Hello " ++ user, s'))
  unfolding greet sync_say_hello get_method_name sync_request say_hello replier_reply
  greet-say_hello user s served asked said =
      let request : HelloRequest = record { name = user } in
      let reply : HelloReply = record { message = codes "Hello " ++ user } in
      let sent : view.sent (say_hello replies core request served.fresh)
          ≡ some (answer (replies.serialize reply)) =
        rw (view.sent-reply_str (replies.serialize reply) served.fresh, served.unsent) refl in
      let (fine, same) = served.delivered request s (answer (replies.serialize reply)) asked sent in
      (
        (client.sync_request (codes "/helloworld.Greeter/SayHello") (requests.serialize request)
            s).2,
        rw (fine, same, replies.parse-serialize reply said) refl,
      )

  -- If the service refuses the request with an error, the client reports the details of the error.
  greet-refused :
      (handle : HelloRequest → core.State → core.State) (e : Status) (user : Bytes)
      (s : client.State)
      → (served : IsServed
          (message_type requests)
          (message_type replies)
          client
          (codes "/helloworld.Greeter/SayHello")
          core
          view
          handle)
      → requests.is_text (record { name = user }) ≡ true
      → view.sent (handle (record { name = user }) served.fresh) ≡ some (refusal e)
      → is_ok e ≡ false
      → (s' : client.State) × (greet requests replies client user s
          ≡ some (codes "RPC failed: " ++ e.details, s'))
  unfolding greet sync_say_hello get_method_name sync_request
  greet-refused handle e user s served asked sent failed =
      let request : HelloRequest = record { name = user } in
      let same = served.delivered request s (refusal e) asked sent in
      (
        (client.sync_request (codes "/helloworld.Greeter/SayHello") (requests.serialize request)
            s).2,
        rw (same, failed) (rw failed refl),
      )
