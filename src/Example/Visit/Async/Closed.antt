-- ===== src/Example/Visit/Async/Closed.antt =====
-- What `RecordRouteAsync` prints when its call has ended.
use grpc_cb.Base.{◌≡◌, refl, inl, inr, [], ◌∷◌, Bytes, Bool-cases, if◌then◌else◌}
use grpc_cb.ProtoUtils.Status.{Status, is_ok}
use grpc_cb.Client.{wrap_close_cb}
use grpc_cb.Example.Points.{RouteSummary}
use grpc_cb.Example.Wire.{Codec}
use grpc_cb.Example.Visit.Async.{finished_trip, trip_failed, on_closed, record_route_closed}

-- However the call ends, one line is printed: the summary if the status is OK and the reply parses,
-- else that the call has failed.
record_route_closed-once :
    (summaries : Codec RouteSummary) (status : Status) (resp_str : Bytes)
    → record_route_closed summaries status resp_str
      ≡ (if is_ok status
          then (if (summaries.parse resp_str).0
              then finished_trip (summaries.parse resp_str).1
              else trip_failed)
          else trip_failed)
        ∷ []
unfolding record_route_closed wrap_close_cb on_closed
record_route_closed-once summaries status resp_str = elim (Bool-cases (is_ok status)) [
  | inl ok ↦ elim (Bool-cases (summaries.parse resp_str).0) [
    | inl parses ↦ rw (ok, parses, ok) refl
    | inr fails ↦ rw (ok, fails) refl
  ]
  | inr bad ↦ rw (bad, bad) refl
]
