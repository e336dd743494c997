-- ===== src/Tests/Searches.antt =====
-- A client that lists features with the service of the example, and the theorem on it at small data.
use grpc_cb.Base.{
  ℕ, ◌≡◌, refl, ap, inl, inr, Option, none, some, List, [], ◌∷◌, arith, Bytes, codes,
}
use grpc_cb.Base.Int.{pos, negsuc}
use grpc_cb.ProtoUtils.Status.{Status, status_ok}
use grpc_cb.ProtoUtils.Reader.{make_reader}
use grpc_cb.ProtoUtils.Messages.{deserialize}
use grpc_cb.Example.Dispatch.{call_method}
use grpc_cb.Client.Opening.{Opened, sync_reader}
use grpc_cb.Example.Points.{Feature, to_int32}
use grpc_cb.Example.Features.{in_rectangle, list_features}
use grpc_cb.Example.Features.Listed.{IsWithin, Picks, picks_none, picks, leaves_out}
use grpc_cb.Example.Stub.{ServiceStub}
use grpc_cb.Example.Visit.{searched, search_features}
use grpc_cb.Example.Visit.Searched.{call_list_features, IsAnswered, search_features-call_method}
use grpc_cb.Tests.Doubles.{slice_list, text_parser, stream_core, stream_view}
use grpc_cb.Tests.Wires.{rectangles, features}
use grpc_cb.Tests.Connections.{push_view, server_writer, one_slice}

abbrev inside : Feature
inside = record {
  name = codes "inside";
  location = some (record { latitude = pos 410000000; longitude = negsuc 740000000 });
}

abbrev outside : Feature
outside = record {
  name = codes "outside";
  location = some (record { latitude = pos 410000000; longitude = pos 740000000 });
}

abbrev known : List Feature
known = inside ∷ outside ∷ inside ∷ []

abbrev answers : List Bytes → List Bytes × ℕ → Option (List Bytes × ℕ)
answers =
    call_list_features features server_writer slice_list text_parser (one_slice rectangles) []
      (λ m. m) known

abbrev written_for : Option (List Bytes × ℕ) → List Bytes × Status
written_for none = ([], status_ok)
written_for (some w) = (w.0, status_ok)

abbrev connect : Opened ℕ ℕ ℕ → List Bytes × Status
connect (sync_reader channel method b timeout_ms) = written_for (answers (b ∷ []) ([], 5))
connect opened = ([], status_ok)

answers-IsAnswered :
    IsAnswered {Channel = ℕ} {Queue = ℕ} {StatusCb = ℕ} rectangles features stream_core stream_view
      connect server_writer push_view slice_list text_parser
      (one_slice rectangles)
      []
      (λ m. m)
      ([], 5)
      answers
unfolding make_reader
answers-IsAnswered = record {
  buffer = λ b. b ∷ [];
  parsed = λ m e. record {
    payload = rectangles.serialize m ∷ [];
    present = refl;
    state = rectangles.serialize m ∷ [];
    readable = refl;
    parsed = ap (λ p. p.0) (rectangles.parse-serialize m e);
    consumed = refl;
  };
  same = λ m e. ap (λ p. p.1) (rectangles.parse-serialize m e);
  unwritten = refl;
  delivered = λ channel b timeout_ms w e. rw e refl;
}

abbrev a_stub : ServiceStub ℕ ℕ
a_stub = record { channel = 7; completion_queue = 8; call_timeout_ms = pos 100 }

outside-IsOut : IsWithin searched outside → ⊥
unfolding searched to_int32
outside-IsOut (lon, lat) = elim lon [
  | inl (low, high) ↦ omega (arith, high)
  | inr (low, high) ↦ omega (arith, low, high)
]

inside_twice : Picks searched known (inside ∷ inside ∷ [])
unfolding searched to_int32
inside_twice =
    let within : IsWithin searched inside =
      (inl (omega arith, omega arith), inl (omega arith, omega arith)) in
    picks within (leaves_out outside-IsOut (picks within picks_none))

search_features-call_method_example :
    search_features {StatusCb = ℕ} rectangles features a_stub stream_core connect 4
    ≡ some (inside ∷ inside ∷ [], status_ok)
unfolding list_features in_rectangle searched to_int32 call_method deserialize
search_features-call_method_example =
    search_features-call_method rectangles features stream_core stream_view connect server_writer
      push_view slice_list text_parser (one_slice rectangles) [] (λ m. m) a_stub known
      (inside ∷ inside ∷ []) 4 ([], 5) answers-IsAnswered refl inside_twice (refl, (refl, tt))
      (λ m. refl) (omega arith)
