-- ===== src/Tests/Route.antt =====
-- The example programs run on small data, and their theorems applied to it.
use grpc_cb.Base.{ℕ, ◌≡◌, refl, true, Option, none, some, List, [], ◌∷◌, Bytes, codes, ◌>>=◌}
use grpc_cb.Base.Int.{pos, negsuc}
use grpc_cb.Base.Filter.{filter}
use grpc_cb.Client.{StubCore}
use grpc_cb.Server.Replying.{Answer}
use grpc_cb.Tests.Doubles.{slice_list, text_parser, one_answer, one_answer_view}
use grpc_cb.Tests.Wires.{rectangles, points, notes, features, hello_requests, hello_replies}
use grpc_cb.Tests.Connections.{
  push, push_view, server_writer, one_slice, connected, connected-IsCalled,
}
use grpc_cb.Example.Points.{Point, Rectangle, Feature, to_int32}
use grpc_cb.Example.Wire.{message_type, HasWritten}
use grpc_cb.Example.Features.{get_feature_name, in_rectangle, list_features}
use grpc_cb.Example.Features.Listed.{list_features-HasWritten}
use grpc_cb.Example.Chat.{on_msgs, route_chat}
use grpc_cb.Example.Chat.Board.{empty_board, board_of, answers, Simulates, route_chat-Simulates}
use grpc_cb.Example.Stub.{
  ServiceStub, sync_list_features, async_list_features, sync_record_route, async_record_route,
  sync_route_chat, async_route_chat,
}
use grpc_cb.Example.Stub.Opens.{Opens, stub-Opens}
use grpc_cb.Example.Greeter.{greet}
use grpc_cb.Example.Greeter.Dispatched.{call_say_hello, greet-call_method}
use grpc_cb.Example.Visit.{sync_get_one_feature, route_notes, make_route_note}
use grpc_cb.Example.Visit.Asked.{report_of}
use grpc_cb.Example.Visit.Dispatched.{call_get_feature, sync_get_one_feature-call_method}

abbrev here : Point
here = record { latitude = pos 3; longitude = negsuc 4 }

abbrev there : Point
there = record { latitude = pos 9; longitude = pos 9 }

abbrev two_features : List Feature
two_features =
    record { name = codes "here"; location = some here }
    ∷ record { name = codes "there"; location = some there }
    ∷ []

-- The corners are given with the higher latitude first.
abbrev a_rectangle : Rectangle
a_rectangle = record {
  lo = record { latitude = pos 5; longitude = negsuc 9 };
  hi = record { latitude = pos 0; longitude = pos 2 };
}

abbrev the_first : Feature
the_first = record { name = codes "here"; location = some here }

list_features-HasWritten_example :
    HasWritten features push push_view
      ([], 1)
      (list_features features server_writer a_rectangle two_features ([], 1))
      (filter (in_rectangle a_rectangle) two_features)
list_features-HasWritten_example =
    list_features-HasWritten features server_writer push_view a_rectangle two_features ([], 1)

route_chat-Simulates_example :
    Simulates notes server_writer push_view
      (on_msgs notes server_writer route_notes (route_chat notes server_writer ([], 9)))
      ([], 9)
      (board_of empty_board route_notes)
      (answers empty_board route_notes)
route_chat-Simulates_example =
    route_chat-Simulates notes server_writer push_view route_notes ([], 9)

-- The fourth note of the client is at the place of the first, which is what the client hears.
heard :
    answers empty_board route_notes ≡ make_route_note (codes "First message") (pos 0) (pos 0) ∷ []
unfolding route_notes make_route_note to_int32
heard = refl

-- What `CallMethod` of the two services does with a request in one slice.
abbrev greeting : List Bytes → Option Answer → Option (Option Answer)
greeting = call_say_hello hello_replies one_answer slice_list (one_slice hello_requests) [] (λ m. m)

abbrev greeter : StubCore (message_type hello_replies)
greeter = connected (message_type hello_replies) greeting

abbrev guided : List Bytes → Option Answer → Option (Option Answer)
guided =
    call_get_feature features one_answer slice_list (one_slice points) text_parser [] (λ m. m)
      two_features

abbrev guide : StubCore (message_type features)
guide = connected (message_type features) guided

greet-call_method_example :
    (s' : Unit {0}) × (greet hello_requests hello_replies greeter (codes "world") tt
      ≡ some (codes "Hello world", s'))
greet-call_method_example =
    greet-call_method hello_requests hello_replies greeter one_answer one_answer_view slice_list
      (one_slice hello_requests) [] (λ m. m) (codes "world") tt
      (connected-IsCalled hello_requests (message_type hello_replies)
        (codes "/helloworld.Greeter/SayHello") greeting)
      refl refl

sync_get_one_feature-call_method_example :
    (s' : Unit {0}) × (sync_get_one_feature points features guide there features.initial tt
      ≡ some (
        true,
        record { name = get_feature_name there two_features; location = some there },
        report_of (get_feature_name there two_features) there,
        s',
      ))
sync_get_one_feature-call_method_example =
    sync_get_one_feature-call_method points features guide one_answer one_answer_view slice_list
      (one_slice points) text_parser [] (λ m. m) two_features there features.initial tt
      (connected-IsCalled points (message_type features) (codes "/routeguide.RouteGuide/GetFeature")
        guided)
      refl refl

abbrev a_stub : ServiceStub ℕ ℕ
a_stub = record { channel = 7; completion_queue = 8; call_timeout_ms = pos 100 }

stub-Opens_example :
    Opens {StatusCb = ℕ} a_stub 1 (sync_list_features rectangles features a_stub a_rectangle)
    × Opens {StatusCb = ℕ} a_stub 1
        (async_list_features rectangles features a_stub a_rectangle true none >>= (λ r. some r.0))
    × Opens {StatusCb = ℕ} a_stub 2 (sync_record_route a_stub)
    × Opens {StatusCb = ℕ} a_stub 2 (async_record_route a_stub)
    × Opens {StatusCb = ℕ} a_stub 3 (sync_route_chat a_stub)
    × Opens {StatusCb = ℕ} a_stub 3 (async_route_chat a_stub none)
stub-Opens_example = stub-Opens {StatusCb = ℕ} rectangles features a_stub a_rectangle true none
