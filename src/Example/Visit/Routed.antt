-- ===== src/Example/Visit/Routed.antt =====
-- `SyncRecordRoute` of route_guide_cb_client.cc with `RecordRoute` of route_guide_cb_server.cc, over
-- grpc_cb_core.
use grpc_cb.Base.{
  ℕ, zero, suc, ◌^◌, ◌<◌, ◌≡◌, refl, sym, ap, ◌∙◌, true, Option, none, some, List, [], ◌∷◌, ◌++◌,
  map, append-nil, arith, Bytes, ◌>>=◌, length, All, some_unique,
}
use grpc_cb.Base.Filter.{filter}
use grpc_cb.Base.Int.{ℤ, pos}
use grpc_cb.ProtoUtils.Status.{Status, status_ok}
use grpc_cb.Client.{WriterCore, write, close}
use grpc_cb.Server.{ReplierCore, constructed, start}
use grpc_cb.Server.Replying.{ReplierView, HasSent, Answer}
use grpc_cb.Server.Streamed.{stream_strs, stream_msgs, stream_strs-serialize}
use grpc_cb.Example.Points.{Point, Feature, RouteSummary, to_int32}
use grpc_cb.Example.Wire.{Codec, message_type, WriterView, NoStrings, NoStrings-AllText}
use grpc_cb.Example.Distance.{FloatApi}
use grpc_cb.Example.Route.{RecordRouteResult, no_route, on_msg, on_msgs, on_end}
use grpc_cb.Example.Route.Summary.{is_named, route_length, on_msgs-some, record_route-HasSent}
use grpc_cb.Example.Served.{Returns}
use grpc_cb.Example.Visit.{visit, drawn, sync_record_route}
use grpc_cb.Example.Visit.Travelled.{locations_at, get_elem?-below, All-drawn, visit-HasWritten}

module _ (api : FloatApi) (points : Codec Point) (summaries : Codec RouteSummary) where
  -- What the handler does with the strings of a stream.
  abbrev pub sums_up :
      List Feature
      → List Bytes
      → Option (RecordRouteResult api)
      → Status × Option (RecordRouteResult api)
  sums_up known = stream_strs (message_type points) (λ point r. r >>= on_msg api known point)

  stream_msgs-on_msgs :
      (known : List Feature) (route : List Point) (r : Option (RecordRouteResult api))
      → stream_msgs (message_type points) (λ point r. r >>= on_msg api known point) route r
        ≡ (r >>= on_msgs api known route)
  unfolding on_msgs
  stream_msgs-on_msgs known [] none = refl
  stream_msgs-on_msgs known [] (some r) = refl
  stream_msgs-on_msgs known (p ∷ ps) none = stream_msgs-on_msgs known ps none
  stream_msgs-on_msgs known (p ∷ ps) (some r) = stream_msgs-on_msgs known ps (on_msg api known p r)

  module _ (client : WriterCore) (sends : WriterView client.write) (core : ReplierCore)
      (view : ReplierView core) (known : List Feature) (secs : ℤ) where
    -- The strings that a client has written when it closes its stream come to a reader of the service
    -- that has been started with a replier for which nothing has been sent; what is sent when it is
    -- told of the end comes back.
    pub record IsRouted : Type 0 where
      pub fresh : core.State
      pub unsent : view.sent fresh ≡ none
      pub delivered :
          (s : client.State) (r : RecordRouteResult api) (a : Answer)
          → sums_up known (sends.written s) (some (no_route api)) ≡ (status_ok, some r)
          → HasSent
              (message_type summaries)
              core
              view
              (on_end api summaries core secs r (
                start
                  (message_type summaries)
                  core
                  fresh
                  (constructed (message_type summaries) core)))
              (some a)
          → Returns (client.close s) a

  -- What a client is told of a route.
  abbrev pub told_of : List Feature → ℤ → List Point → RouteSummary
  told_of known secs route = record {
    point_count = pos (length route);
    feature_count = pos (length (filter (is_named known) route));
    distance = to_int32 (api.to_long (route_length api route));
    elapsed_time = to_int32 secs;
  }

length-locations_at :
    (features : List Feature) (draws : List ℕ)
    → All (λ i. i < length features) draws
    → length (locations_at features draws) ≡ length draws
length-locations_at features [] h = refl
length-locations_at features (i ∷ draws) (h, hs) =
    let (f, e) = get_elem?-below features i h in
    rw (locations_at, e) (ap suc (length-locations_at features draws hs))

length-drawn : (n : ℕ) (draw : ℕ → ℕ) (i : ℕ) → length (drawn n draw i) ≡ n
unfolding drawn
length-drawn zero draw i = refl
length-drawn (suc n) draw i = ap suc (length-drawn n draw (suc i))

module _ (api : FloatApi) (points : Codec Point) (summaries : Codec RouteSummary)
    (client : WriterCore) (sends : WriterView client.write) (core : ReplierCore)
    (view : ReplierView core) (known : List Feature) (secs : ℤ) where
  -- A stream on which a route has been written whole, and which is then closed.
  close-told :
      (route : List Point) (old : RouteSummary) (s : client.State)
      → NoStrings points
      → NoStrings summaries
      → IsRouted api points summaries client sends core view known secs
      → sends.written s ≡ map points.serialize route
      → length route < 2 ^ 31
      → (s' : client.State) × (close (message_type points) (message_type summaries) client old s
          ≡ (status_ok, told_of api points summaries known secs route, s'))
  unfolding close
  close-told route old s numbers counts routed same short =
      let (last, ran) = on_msgs-some api known route short in
      let (fine, resp) =
        routed.delivered s _ _
          (ap (λ bs. sums_up api points summaries known bs (some (no_route api))) same
            ∙ stream_strs-serialize (message_type points) (λ point r. r >>= on_msg api known point)
                route (some (no_route api)) (NoStrings-AllText points numbers route)
            ∙ ap (λ r. (status_ok, r))
                (stream_msgs-on_msgs api points summaries known route (some (no_route api)) ∙ ran))
          (rw ran at (
            record_route-HasSent api summaries core view known route secs routed.fresh short
              routed.unsent)) in
      let told = told_of api points summaries known secs route in
      ((client.close s).2, rw (fine, resp, summaries.parse-serialize told (counts told)) refl)

  -- `SyncRecordRoute` from end to end. If points and summaries are messages without strings, the
  -- indices that are drawn are in range, the client's stream is fresh and accepts all ten points,
  -- and is connected to the service of the example, then the client is told, with the status `OK`,
  -- ten points, as many features as there are points at which the service knows a feature with a
  -- name, the length of the way from each point to the next, and the time.
  pub sync_record_route-told :
      (features : List Feature) (draw : ℕ → ℕ) (s s' : client.State)
      → NoStrings points
      → NoStrings summaries
      → IsRouted api points summaries client sends core view known secs
      → ((j : ℕ) → draw j < length features)
      → sends.written s ≡ []
      → visit (λ p. client.write (points.serialize p)) features (drawn 10 draw 0) s ≡ some s'
      → sends.accepts s' ≡ true
      → (s'' : client.State) × (sync_record_route points summaries client features draw s
          ≡ some (
            status_ok,
            told_of api points summaries known secs (locations_at features (drawn 10 draw 0)),
            s'',
          ))
        × (length (locations_at features (drawn 10 draw 0)) ≡ 10)
  unfolding sync_record_route write
  sync_record_route-told features draw s s' numbers counts routed h fresh ran accepted =
      let draws = drawn 10 draw 0 in
      let in_range = All-drawn 10 draw 0 (length features) h in
      let route = locations_at features draws in
      let (last, ran', wrote) =
        visit-HasWritten points client.write sends features draws s in_range in
      let same : s' ≡ last = some_unique _ s' last ran ran' in
      let whole : route ≡ wrote.sent =
        wrote.parts
        ∙ ap (λ l. wrote.sent ++ l) (wrote.complete (ap sends.accepts (sym same) ∙ accepted))
        ∙ append-nil wrote.sent in
      let ten : length route ≡ 10 =
        length-locations_at features draws in_range ∙ length-drawn 10 draw 0 in
      let written : sends.written s' ≡ map points.serialize route =
        ap sends.written same
        ∙ wrote.wrote
        ∙ ap (λ l. l ++ map points.serialize wrote.sent) fresh
        ∙ ap (map points.serialize) (sym whole) in
      let (s'', closed) =
        close-told route summaries.initial s' numbers counts routed written (omega (arith, ten)) in
      let then_close : client.State → Option (Status × RouteSummary × client.State) = λ s.
        some (close (message_type points) (message_type summaries) client summaries.initial s) in
      (s'', ap (λ o. o >>= then_close) ran ∙ ap some closed, ten)
