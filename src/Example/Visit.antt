-- ===== src/Example/Visit.antt =====
-- The client of the route guide, examples/cpp_cb/route_guide/route_guide_cb_client.cc. What is printed
-- is a value; sleeping has no effect.
pub mod Asked
pub mod Dispatched
pub mod Travelled
pub mod Routed
pub mod Searched
pub mod Talk
pub mod Async
use grpc_cb.Base.{
  ℕ, zero, suc, Bool, true, false, Option, none, some, List, [], ◌∷◌, Bytes, codes, bytes_eq,
  if◌then◌else◌, ◌>>=◌, get_elem?,
}
use grpc_cb.Base.Int.{ℤ, pos, negsuc}
use grpc_cb.ProtoUtils.Status.{Status, is_ok}
use grpc_cb.Client.{
  StubCore, WriterCore, ReaderCore, AsyncCore, receive, write, close, async_write, close_writing,
}
use grpc_cb.Example.Points.{
  Point, Rectangle, Feature, RouteNote, RouteSummary, location_of, to_int32,
}
use grpc_cb.Example.Wire.{Codec, message_type}
use grpc_cb.Example.Db.Parser.{done, raised, parse_db}
use grpc_cb.Example.Stub.{sync_get_feature, ServiceStub, sync_list_features}
use grpc_cb.Client.Opening.{Opened}

-- `MakePoint`, `MakeRect`, `MakeFeature` and `MakeRouteNote`.
unfoldable make_point : ℤ → ℤ → Point
make_point latitude longitude = record {
  latitude = to_int32 latitude;
  longitude = to_int32 longitude;
}

unfoldable make_rect : Point → Point → Rectangle
make_rect lo hi = record { lo = lo; hi = hi }

unfoldable make_rect_of : ℤ → ℤ → ℤ → ℤ → Rectangle
unfolding make_rect make_point
make_rect_of lo_latitude lo_longitude hi_latitude hi_longitude =
    make_rect (make_point lo_latitude lo_longitude) (make_point hi_latitude hi_longitude)

unfoldable make_feature : Bytes → ℤ → ℤ → Feature
unfolding make_point
make_feature name latitude longitude = record {
  name = name;
  location = some (make_point latitude longitude);
}

unfoldable pub make_route_note : Bytes → ℤ → ℤ → RouteNote
unfolding make_point
make_route_note message latitude longitude = record {
  location = make_point latitude longitude;
  message = message;
}

-- What `PrintFeature` and `SyncGetOneFeature` say.
pub data Report : Type 0 where
  incomplete_feature : Report
  found_no_feature : Point → Report
  found_feature : Bytes → Point → Report
  rpc_failed : Report

unfoldable pub print_feature : Feature → Report
print_feature feature = elim feature.location [
  | none ↦ incomplete_feature
  | some p ↦ if bytes_eq feature.name [] then found_no_feature p else found_feature feature.name p
]

abbrev pub has_location : Feature → Bool
has_location feature = elim feature.location [ none ↦ false | some p ↦ true ]

-- The constructor of `RouteGuideClient`: its features; an empty list fails an assert. `none` is also a
-- database that ends the program by an exception, or a parse that needs more fuel.
unfoldable feature_list : Bytes → Option (List Feature)
unfolding parse_db
feature_list db = parse_db db >>= (λ outcome. elim outcome [
  | raised e ↦ none
  | done features ↦ elim features [ [] ↦ none | f ∷ fs ↦ some (f ∷ fs) ]
])

module _ (points : Codec Point) (features : Codec Feature)
    (core : StubCore (message_type features)) where
  -- `SyncGetOneFeature`: whether the feature has a location, the feature, and what is printed.
  unfoldable pub sync_get_one_feature :
      Point → Feature → core.State → Option (Bool × Feature × Report × core.State)
  unfolding sync_get_feature print_feature
  sync_get_one_feature point feature s = do
    (status, response, s') ← sync_get_feature points features core point (some feature) s
    filled ← response
    some (
        if is_ok status
        then (has_location filled, filled, print_feature filled, s')
        else (false, filled, rpc_failed, s'))

  -- `SyncGetFeature`: the two reports.
  unfoldable sync_get_feature_twice : core.State → Option (Report × Report × core.State)
  unfolding sync_get_one_feature make_point
  sync_get_feature_twice s = do
    (has, feature, report, s') ←
        sync_get_one_feature (make_point (pos 409146138) (negsuc 746188905)) features.initial s
    (has', feature', report', s'') ← sync_get_one_feature (make_point (pos 0) (pos 0)) feature s'
    some (report, report', s'')

-- The loop of `SyncRecordRoute` and of `RecordRouteAsync` over the indices that are drawn, while writing
-- succeeds; an index out of range is undefined: `none`.
unfoldable pub visit :
    {State : Type 0} → (Point → State → Bool × State) → List Feature → List ℕ → State → Option State
visit write_point features [] s = some s
visit write_point features (i ∷ draws) s = elim (get_elem? features i) [
  | none ↦ none
  | some f ↦
      let (wrote, s') = write_point (location_of f) s in
      elim wrote [ true ↦ visit write_point features draws s' | false ↦ some s' ]
]

-- Some indices that are drawn one after another.
unfoldable pub drawn : ℕ → (ℕ → ℕ) → ℕ → List ℕ
drawn zero draw i = []
drawn (suc n) draw i = draw i ∷ drawn n draw (suc i)

module _ (points : Codec Point) (summaries : Codec RouteSummary) (core : WriterCore) where
  -- `SyncRecordRoute`, with the indices that are drawn: the status, and the summary that it prints.
  unfoldable pub sync_record_route :
      List Feature → (ℕ → ℕ) → core.State → Option (Status × RouteSummary × core.State)
  unfolding visit drawn write close
  sync_record_route features draw s =
      visit (write (message_type points) (message_type summaries) core) features (drawn 10 draw 0) s
      >>= (λ s'.
          some (close (message_type points) (message_type summaries) core summaries.initial s'))

-- The notes of `RunWriteRouteNote` and `AsyncWriteRouteNotes`.
unfoldable pub route_notes : List RouteNote
unfolding make_route_note
route_notes =
    make_route_note (codes "First message") (pos 0) (pos 0)
    ∷ make_route_note (codes "Second message") (pos 0) (pos 1)
    ∷ make_route_note (codes "Third message") (pos 1) (pos 0)
    ∷ make_route_note (codes "Fourth message") (pos 0) (pos 0)
    ∷ []

module _ (notes : Codec RouteNote) (core : AsyncCore (message_type notes)) where
  -- The loop of both, which does not look at what `Write` returns.
  unfoldable write_notes : List RouteNote → core.State → core.State
  unfolding async_write
  write_notes [] s = s
  write_notes (note ∷ rest) s =
      write_notes rest (async_write (message_type notes) (message_type notes) core note s).1

  unfoldable run_write_route_note : core.State → core.State
  unfolding write_notes close_writing route_notes
  run_write_route_note s =
      close_writing (message_type notes) (message_type notes) core (write_notes route_notes s)

-- The rectangle of `SyncListFeatures` and `ListFeaturesAsync`.
unfoldable pub searched : Rectangle
unfolding make_rect_of
searched = make_rect_of (pos 400000000) (negsuc 749999999) (pos 420000000) (negsuc 729999999)

module _ {Channel Queue StatusCb : Type 0} (rectangles : Codec Rectangle) (features : Codec Feature)
    (stub : ServiceStub Channel Queue) where
  -- The reader of `SyncListFeatures`.
  unfoldable sync_search : Option (Opened Channel Queue StatusCb)
  unfolding sync_list_features searched
  sync_search = sync_list_features rectangles features stub searched

module _ {Channel Queue StatusCb : Type 0} (rectangles : Codec Rectangle) (features : Codec Feature)
    (stub : ServiceStub Channel Queue) (core : ReaderCore)
    (connect : Opened Channel Queue StatusCb → core.State) where
  -- `SyncListFeatures`: the features that it finds, and the status; the core of the stream that is opened
  -- is an argument.
  unfoldable pub search_features : ℕ → Option (List Feature × Status)
  unfolding sync_search receive
  search_features n =
      sync_search rectangles features stub
      >>= (λ opened. receive (message_type features) core n features.initial (connect opened))
