-- ===== src/Example/Visit/Async.antt =====
-- The asynchronous clients of examples/cpp_cb/route_guide/route_guide_cb_client.cc.
pub mod Answers
pub mod Found
pub mod Closed
use grpc_cb.Base.{
  ℕ, true, false, Option, none, some, List, [], ◌∷◌, Bytes, map, if◌then◌else◌, ◌>>=◌,
}
use grpc_cb.Base.Int.{pos, negsuc}
use grpc_cb.ProtoUtils.Status.{Status, is_ok}
use grpc_cb.Client.{wrap_close_cb, StubCore, AsyncCore, async_write, async_close, read_each}
use grpc_cb.Example.Points.{Point, Rectangle, Feature, RouteNote, RouteSummary}
use grpc_cb.Example.Wire.{Codec, message_type}
use grpc_cb.Example.Stub.{async_get_feature, ServiceStub, async_list_features}
use grpc_cb.Client.Opening.{Opened}
use grpc_cb.Example.Awaited.{Act, printed, shut_down, Callbacks, EachCore, wrapped}
use grpc_cb.Example.Visit.{
  feature_list, visit, drawn, run_write_route_note, make_point, searched, Report, print_feature,
}

module _ (points : Codec Point) (summaries : Codec RouteSummary)
    (core : AsyncCore (message_type summaries)) where
  -- `RecordRouteAsync` on its writer; an empty list of features fails an assert.
  unfoldable record_route_async : Bytes → (ℕ → ℕ) → core.State → Option core.State
  unfolding feature_list visit drawn async_write async_close
  record_route_async db draw s = do
    features ← feature_list db
    s' ←
        visit (async_write (message_type points) (message_type summaries) core) features
          (drawn 10 draw 0) s
    some (async_close (message_type points) (message_type summaries) core true s')

-- What the callback that `RecordRouteAsync` gives to `Close` prints.
pub data Trip : Type 0 where
  finished_trip : RouteSummary → Trip
  trip_failed : Trip

unfoldable pub on_closed : Status → RouteSummary → Trip
on_closed status resp = if is_ok status then finished_trip resp else trip_failed

-- The same for the status and the message string with which the call ends.
unfoldable pub record_route_closed : Codec RouteSummary → Status → Bytes → List Trip
unfolding wrap_close_cb on_closed
record_route_closed summaries status resp_str = elim (wrap_close_cb (message_type summaries) true) [
  | none ↦ []
  | some cb ↦ map (λ p. on_closed p.0 p.1) (cb status resp_str)
]

module _ (notes : Codec RouteNote) (core : AsyncCore (message_type notes)) where
  -- `RouteChatAsync` on its reader and writer.
  unfoldable route_chat_async : core.State → core.State
  unfolding run_write_route_note read_each
  route_chat_async s =
      run_write_route_note notes core
        (read_each (message_type notes) (message_type notes) core true s)

module _ (points : Codec Point) (features : Codec Feature)
    (core : StubCore (message_type features)) where
  -- The three requests of `GetFeatureAsync`, with a callback or without.
  unfoldable pub get_feature_async : core.State → Option core.State
  unfolding async_get_feature make_point
  get_feature_async s = do
    s1 ← async_get_feature points features core (make_point (pos 0) (pos 0)) true s
    s2 ← async_get_feature points features core (make_point (pos 0) (pos 0)) false s1
    async_get_feature points features core (make_point (pos 409146138) (negsuc 746188905)) true s2

-- What the callbacks of `GetFeatureAsync` print: a feature, or the details of an error.
pub data Said : Type 0 where
  says_feature : Report → Said
  says_failed : Bytes → Said

-- Its three requests, by what is given with them: a callback for the reply, none, or both.
pub data Request : Type 0 where
  with_reply : Request
  with_nothing : Request
  with_both : Request

abbrev pub show : Feature → List (Act Said)
show feature = printed (says_feature (print_feature feature)) ∷ []

abbrev pub show_and_stop : Feature → List (Act Said)
show_and_stop feature = printed (says_feature (print_feature feature)) ∷ shut_down ∷ []

abbrev pub say_and_stop : Status → List (Act Said)
say_and_stop err = printed (says_failed err.details) ∷ shut_down ∷ []

unfoldable pub get_feature_callbacks : Request → Callbacks Feature Said
get_feature_callbacks with_reply = record { on_msg = some show; on_error = none }
get_feature_callbacks with_nothing = record { on_msg = none; on_error = none }
get_feature_callbacks with_both = record {
  on_msg = some show_and_stop;
  on_error = some say_and_stop;
}

module _ {Channel Queue StatusCb : Type 0} (rectangles : Codec Rectangle) (features : Codec Feature)
    (stub : ServiceStub Channel Queue) where
  -- The reader of `ListFeaturesAsync`, with its callbacks.
  unfoldable list_features_async :
      StatusCb
      → Option
          (Opened Channel Queue StatusCb × Option (Bytes → List Feature × Status) × Option StatusCb)
  unfolding async_list_features searched
  list_features_async status_cb =
      async_list_features rectangles features stub searched true (some status_cb)

-- What the callbacks of `ListFeaturesAsync` print: a feature, or how the call has ended.
pub data Listed : Type 0 where
  lists : Feature → Listed
  rpc_succeeded : Listed
  list_failed : Listed

unfoldable pub on_feature : Feature → List (Act Listed)
on_feature feature = printed (lists feature) ∷ []

unfoldable pub on_listed : Status → List (Act Listed)
on_listed status =
    let line = if is_ok status then rpc_succeeded else list_failed in printed line ∷ shut_down ∷ []

-- What its callbacks do until the call has ended.
unfoldable pub list_features_heard :
    Codec Feature → EachCore Listed → List Bytes → Status → List (List (Act Listed))
unfolding wrapped on_feature on_listed
list_features_heard features core strings status =
    core.each (wrapped (message_type features) (some on_feature)) (some on_listed) strings status
