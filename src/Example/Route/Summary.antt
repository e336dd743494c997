-- ===== src/Example/Route/Summary.antt =====
-- What `RecordRoute` of route_guide_cb_server.cc sums up.
use grpc_cb.Base.{
  ℕ, suc, ◌+◌, ◌^◌, ◌≤◌, ◌<◌, ◌≡◌, refl, ap, ◌∙◌, inl, inr, Bool, false, not, Option, none, some,
  List, [], ◌∷◌, arith, bytes_eq, ◌==◌, Bool-cases, if◌then◌else◌, ◌>>=◌, length,
}
use mathlib.Core.Path.{ap₂}
use grpc_cb.Base.Filter.{filter, length-filter, length-filter_cons}
use grpc_cb.Base.Int.{ℤ, pos}
use grpc_cb.Server.{ReplierCore, constructed, start, replier_reply, get_replier}
use grpc_cb.Server.Replying.{ReplierView, HasSent, answer}
use grpc_cb.Example.Points.{Point, Feature, RouteSummary, origin, to_int32, to_int32_id, IsInt32}
use grpc_cb.Example.Wire.{Codec, message_type}
use grpc_cb.Example.Features.{get_feature_name}
use grpc_cb.Example.Distance.{FloatApi, get_distance}
use grpc_cb.Example.Route.{RecordRouteResult, no_route, on_msg, on_msgs, summary, on_end, increment}

-- Whether a feature with a name lies at the point.
abbrev pub is_named : List Feature → Point → Bool
is_named feature_vec point = not (bytes_eq (get_feature_name point feature_vec) [])

module _ (api : FloatApi) where
  -- The length of a route from its first point on, behind what has been travelled.
  abbrev pub travelled : api.Float → Point → List Point → api.Float
  travelled sum from [] = sum
  travelled sum from (to ∷ rest) = travelled (api.add sum (get_distance api from to)) to rest

  abbrev pub route_length : List Point → api.Float
  route_length [] = api.zero_float
  route_length (p ∷ ps) = travelled api.zero_float p ps

  increment_lem : (n : ℕ) → suc n < 2 ^ 31 → increment n ≡ some (suc n)
  increment_lem n h = ground arith

  -- One point.
  on_msg-some :
      (features : List Feature) (p : Point) (r : RecordRouteResult api)
      → suc r.point_count < 2 ^ 31
      → r.feature_count ≤ r.point_count
      → on_msg api features p r
        ≡ some (record {
          point_count = suc r.point_count;
          feature_count = r.feature_count + length (filter (is_named features) (p ∷ []));
          distance =
              if suc r.point_count == 1
              then r.distance
              else api.add r.distance (get_distance api r.previous p);
          previous = p;
        })
  unfolding on_msg
  on_msg-some features p r k l =
      let with_count : ℕ → Option (RecordRouteResult api) = λ n. some (record {
        point_count = suc r.point_count;
        feature_count = n;
        distance =
            if suc r.point_count == 1
            then r.distance
            else api.add r.distance (get_distance api r.previous p);
        previous = p;
      }) in
      elim (Bool-cases (bytes_eq (get_feature_name p features) [])) [
        | inl e ↦ rw (on_msg, increment_lem r.point_count k, e) (ap with_count (omega arith))
        | inr e ↦
            rw
              (
                on_msg,
                increment_lem r.point_count k,
                e,
                increment_lem r.feature_count (omega arith),
              )
              (ap with_count (omega arith))
      ]

  -- Some points behind others.
  on_msgs-behind :
      (features : List Feature) (points : List Point) (r : RecordRouteResult api)
      → 0 < r.point_count
      → r.point_count + length points < 2 ^ 31
      → r.feature_count ≤ r.point_count
      → (last : Point) × (on_msgs api features points r
          ≡ some (record {
            point_count = r.point_count + length points;
            feature_count = r.feature_count + length (filter (is_named features) points);
            distance = travelled r.distance r.previous points;
            previous = last;
          }))
  unfolding on_msgs
  on_msgs-behind features [] r h k l = (
    r.previous,
    ap₂ (λ n m. some (record r { point_count = n; feature_count = m })) (omega arith) (omega arith),
  )
  on_msgs-behind features (p ∷ ps) r h k l =
      let one = on_msg-some features p r (omega (arith, k)) l in
      let far : (suc r.point_count == 1) ≡ false = ground arith in
      let sum : RecordRouteResult api = record {
        point_count = suc r.point_count;
        feature_count = r.feature_count + length (filter (is_named features) (p ∷ []));
        distance = api.add r.distance (get_distance api r.previous p);
        previous = p;
      } in
      let (last, rest) =
        on_msgs-behind features ps sum (omega arith) (omega (arith, k))
          (omega (arith, length-filter (is_named features) (p ∷ []))) in
      (
        last,
        rw (on_msgs, one, far, rest)
            (ap₂
              (λ n m. some (record {
                point_count = n;
                feature_count = m;
                distance = travelled (api.add r.distance (get_distance api r.previous p)) p ps;
                previous = last;
              }))
              (omega arith) (omega (arith, length-filter_cons (is_named features) p ps))),
      )

  pub on_msgs-some :
      (features : List Feature) (points : List Point)
      → length points < 2 ^ 31
      → (last : Point) × (on_msgs api features points (no_route api)
          ≡ some (record {
            point_count = length points;
            feature_count = length (filter (is_named features) points);
            distance = route_length points;
            previous = last;
          }))
  unfolding on_msgs
  on_msgs-some features [] h = (origin, refl)
  on_msgs-some features (p ∷ ps) h =
      let first : RecordRouteResult api = record {
        point_count = 1;
        feature_count = length (filter (is_named features) (p ∷ []));
        distance = api.zero_float;
        previous = p;
      } in
      let one : on_msg api features p (no_route api) ≡ some first =
        on_msg-some features p (no_route api) (omega arith) (omega arith)
        ∙ ap (λ n. some (record first { feature_count = n })) (omega arith) in
      let (last, rest) =
        on_msgs-behind features ps first (omega arith) (omega arith)
          (omega (arith, length-filter (is_named features) (p ∷ []))) in
      (
        last,
        rw (on_msgs, one, rest)
            (ap₂
              (λ n m. some (record {
                point_count = n;
                feature_count = m;
                distance = travelled api.zero_float p ps;
                previous = last;
              }))
              (omega arith) (omega (arith, length-filter_cons (is_named features) p ps))),
      )

  -- From its start on, the handler of a route of less than 2^31 points does not overflow a count, fails
  -- no assert, and replies once, with the number of the points, the number of those at which a feature
  -- with a name lies, the length of the way from each point to the next, and the time.
  pub record_route-HasSent :
      (summaries : Codec RouteSummary) (core : ReplierCore) (view : ReplierView core)
      (features : List Feature) (points : List Point) (secs : ℤ) (s : core.State)
      → length points < 2 ^ 31
      → view.sent s ≡ none
      → HasSent
          (message_type summaries)
          core
          view
          (on_msgs api features points (no_route api) >>= (λ r.
            on_end api summaries core secs r
              (start (message_type summaries) core s (constructed (message_type summaries) core))))
          (some (
            answer (
              summaries.serialize (record {
                point_count = pos (length points);
                feature_count = pos (length (filter (is_named features) points));
                distance = to_int32 (api.to_long (route_length points));
                elapsed_time = to_int32 secs;
              }))))
  unfolding on_end start constructed summary replier_reply get_replier
  record_route-HasSent summaries core view features points secs s h e =
      let (last, run) = on_msgs-some features points h in
      let small : IsInt32 (pos (length points)) = h in
      let named : IsInt32 (pos (length (filter (is_named features) points))) =
        omega (arith, length-filter (is_named features) points) in
      rw run (record {
        replier =
            replier_reply (message_type summaries) core
              (summary api secs (record {
                point_count = length points;
                feature_count = length (filter (is_named features) points);
                distance = route_length points;
                previous = last;
              }))
              s;
        runs = refl;
        sends =
            view.sent-reply_str _ s
            ∙ rw
                (
                  e,
                  to_int32_id (pos (length points)) small,
                  to_int32_id (pos (length (filter (is_named features) points))) named,
                )
                refl;
      })
