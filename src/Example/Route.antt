-- ===== src/Example/Route.antt =====
-- `RecordRoute` of examples/cpp_cb/route_guide/route_guide_cb_server.cc.
pub mod Summary
use grpc_cb.Base.{
  ℕ, suc, ◌^◌, Option, none, some, List, [], ◌∷◌, bytes_eq, ◌==◌, ltb, if◌then◌else◌, ◌>>=◌,
}
use grpc_cb.Base.Int.{ℤ, pos}
use grpc_cb.Server.{
  ReplierCore, ClientSideStreaming, constructed, start, get_replier, reply, replier_reply,
}
use grpc_cb.Example.Points.{Point, Feature, RouteSummary, origin, to_int32}
use grpc_cb.Example.Wire.{Codec, message_type}
use grpc_cb.Example.Features.{get_feature_name}
use grpc_cb.Example.Distance.{FloatApi, get_distance}

-- `++` on an `int`; an overflow is undefined: `none`.
abbrev pub increment : ℕ → Option ℕ
increment n = if ltb (suc n) (2 ^ 31) then some (suc n) else none

module _ (api : FloatApi) where
  -- `RecordRouteResult`, without the time of its construction.
  pub record RecordRouteResult : Type 0 where
    pub point_count : ℕ
    pub feature_count : ℕ
    pub distance : api.Float
    pub previous : Point

  abbrev pub no_route : RecordRouteResult
  no_route = record {
    point_count = 0;
    feature_count = 0;
    distance = api.zero_float;
    previous = origin;
  }

  -- `RecordRoute_ReaderImpl::OnMsg`.
  unfoldable pub on_msg : List Feature → Point → RecordRouteResult → Option RecordRouteResult
  unfolding get_feature_name get_distance
  on_msg feature_vec point r = do
    points ← increment r.point_count
    features ←
        (if bytes_eq (get_feature_name point feature_vec) []
          then some r.feature_count
          else increment r.feature_count)
    let travelled =
        if points == 1 then r.distance else api.add r.distance (get_distance api r.previous point)
    some (record {
      point_count = points;
      feature_count = features;
      distance = travelled;
      previous = point;
    })

  unfoldable pub on_msgs : List Feature → List Point → RecordRouteResult → Option RecordRouteResult
  unfolding on_msg
  on_msgs feature_vec [] r = some r
  on_msgs feature_vec (point ∷ points) r = on_msg feature_vec point r >>= on_msgs feature_vec points

  -- The summary that `OnEnd` makes; the seconds since the reader was made are an argument.
  unfoldable pub summary : ℤ → RecordRouteResult → RouteSummary
  summary secs r = record {
    point_count = to_int32 (pos r.point_count);
    feature_count = to_int32 (pos r.feature_count);
    distance = to_int32 (api.to_long r.distance);
    elapsed_time = to_int32 secs;
  }

  -- `OnEnd`: `GetReplier` asserts that the reader has been started; the thread replies.
  unfoldable pub on_end :
      (summaries : Codec RouteSummary) (core : ReplierCore)
      → ℤ
      → RecordRouteResult
      → ClientSideStreaming (message_type summaries) core
      → Option (ClientSideStreaming (message_type summaries) core)
  unfolding summary get_replier replier_reply
  on_end summaries core secs r streaming =
      get_replier (message_type summaries) core streaming >>= (λ replier. some (record {
        replier_uptr = some (replier_reply (message_type summaries) core (summary secs r) replier);
      }))
