-- ===== src/Example/Visit/Dispatched.antt =====
-- A client of the route guide that asks for a point, from end to end, over grpc_cb_core.
use grpc_cb.Base.{◌≡◌, refl, true, Option, none, some, List, [], ◌∷◌, codes, ◌>>=◌}
use grpc_cb.Base.Int.{pos}
use grpc_cb.ProtoUtils.Reader.{SliceReader}
use grpc_cb.ProtoUtils.Messages.{ParserApi, IsParsed}
use grpc_cb.Client.{StubCore}
use grpc_cb.Server.{ReplierCore, replier_reply_error}
use grpc_cb.Server.Replying.{ReplierView}
use grpc_cb.Example.Points.{Point, Feature}
use grpc_cb.Example.Wire.{Codec, message_type}
use grpc_cb.Example.Features.{get_feature_name, get_feature}
use grpc_cb.Example.Dispatch.{Effect, calls_get_feature, replies_error, call_method}
use grpc_cb.Example.Calls.{call_method-IsParsed}
use grpc_cb.Example.Served.{IsCalled, read_from, call-IsServed}
use grpc_cb.Example.Visit.{sync_get_one_feature}
use grpc_cb.Example.Visit.Asked.{report_of, sync_get_one_feature-report}

module _ (features : Codec Feature) (core : ReplierCore) (slices : SliceReader)
    (api rectangles : ParserApi slices) (unset : slices.State) (read : api.Msg → Point)
    (feature_vector : List Feature) where
  -- What a call of `GetFeature` does with the service of the example and a replier; the other methods
  -- have no such replier.
  abbrev perform : Effect slices api rectangles unset → core.State → Option core.State
  perform (calls_get_feature request) s =
      some (get_feature features core feature_vector (read request) s)
  perform (replies_error status) s =
      some (replier_reply_error (message_type features) core status s)
  perform _ s = none

  abbrev performs : List (Effect slices api rectangles unset) → core.State → Option core.State
  performs [] s = some s
  performs (e ∷ es) s = perform e s >>= performs es

  abbrev pub call_get_feature : slices.Buffer → core.State → Option core.State
  call_get_feature b call =
      call_method slices api rectangles unset true true true 0 (some b)
      >>= (λ effects. performs effects call)

  call_get_feature-handle :
      (b : slices.Buffer) (s : core.State)
      → IsParsed slices api unset (some b) (pos 0)
      → call_get_feature b s
        ≡ some (get_feature features core feature_vector (read_from slices api unset read b) s)
  call_get_feature-handle b s p =
      rw ((call_method-IsParsed slices api rectangles unset true true b).1 p) refl

module _ (points : Codec Point) (features : Codec Feature)
    (client : StubCore (message_type features)) (core : ReplierCore) (view : ReplierView core)
    (slices : SliceReader) (api rectangles : ParserApi slices) (unset : slices.State)
    (read : api.Msg → Point) (feature_vector : List Feature) where
  -- From the client's call to its result, through the stub, `CallMethod`, the parsing of the request,
  -- the handler and the reply: a client that is connected to the service of the example, and asks it
  -- for a point, gets a feature with the location that it asked for and the name that the service finds
  -- there, if points are messages without strings and that name is UTF-8; it then reports the feature,
  -- or that there is none, never an incomplete feature or a failed call.
  pub sync_get_one_feature-call_method :
      (point : Point) (old : Feature) (s : client.State)
      → IsCalled
          (message_type points)
          (message_type features)
          client
          (codes "/routeguide.RouteGuide/GetFeature")
          core
          view
          slices
          api
          unset
          read
          (call_get_feature features core slices api rectangles unset read feature_vector)
      → points.is_text point ≡ true
      → features.is_text
          (record { name = get_feature_name point feature_vector; location = some point })
        ≡ true
      → (s' : client.State) × (sync_get_one_feature points features client point old s
          ≡ some (
            true,
            record { name = get_feature_name point feature_vector; location = some point },
            report_of (get_feature_name point feature_vector) point,
            s',
          ))
  sync_get_one_feature-call_method point old s called numbers text =
      sync_get_one_feature-report points features client core view feature_vector point old s
        (call-IsServed (message_type points) (message_type features) client
          (codes "/routeguide.RouteGuide/GetFeature") core view slices api unset read
          (call_get_feature features core slices api rectangles unset read feature_vector)
          (get_feature features core feature_vector)
          (call_get_feature-handle features core slices api rectangles unset read feature_vector)
          called)
        numbers text
