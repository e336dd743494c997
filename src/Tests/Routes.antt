-- ===== src/Tests/Routes.antt =====
-- A client that records a route with the service of the example, and the theorem on it at small data.
use grpc_cb.Base.{ℕ, ◌≡◌, refl, sym, Option, none, some, List, [], ◌∷◌, arith, Bytes, codes, length}
use mathlib.Core.Path.{subst}
use grpc_cb.Base.Int.{pos}
use grpc_cb.ProtoUtils.Status.{Status, status_ok}
use grpc_cb.Client.{WriterCore}
use grpc_cb.Server.{ClientSideStreaming, constructed, start}
use grpc_cb.Server.Replying.{HasSent, Answer, answer, refusal}
use grpc_cb.Example.Points.{Point, Feature, origin}
use grpc_cb.Example.Wire.{message_type}
use grpc_cb.Example.Route.{RecordRouteResult, no_route, on_end}
use grpc_cb.Example.Served.{Returns}
use grpc_cb.Example.Visit.{visit, drawn, sync_record_route}
use grpc_cb.Example.Visit.Travelled.{locations_at}
use grpc_cb.Example.Visit.Routed.{IsRouted, sums_up, told_of, sync_record_route-told}
use grpc_cb.Tests.Doubles.{one_answer, one_answer_view}
use grpc_cb.Tests.Wires.{points, summaries}
use grpc_cb.Tests.Connections.{push, push_view, naturals, returned, returned-Returns}

abbrev known : List Feature
known = record { name = codes "here"; location = some origin } ∷ []

abbrev Run : Type 0
Run = Option (ClientSideStreaming (message_type summaries) one_answer)

abbrev replied : Run → Option Answer
replied none = none
replied (some r) = elim r.replier_uptr [ none ↦ none | some sent ↦ sent ]

abbrev ended : RecordRouteResult naturals → Run
ended r = on_end naturals summaries one_answer (pos 2) r (
    start (message_type summaries) one_answer none
      (constructed (message_type summaries) one_answer))

abbrev summed : Status × Option (RecordRouteResult naturals) → Status × Bytes × Unit {0}
summed (status, none) = (status, [], tt)
summed (status, some r) = returned (replied (ended r))

-- A stream with room for some messages, whose `Close` returns what the service replies to them.
abbrev route_writer : WriterCore
route_writer = record {
  State = List Bytes × ℕ;
  write = push;
  close = λ s.
      let (status, resp, u) =
        summed (sums_up naturals points summaries known s.0 (some (no_route naturals))) in
      (status, resp, s);
}

replied-Returns :
    (run : Run) (a : Answer)
    → HasSent (message_type summaries) one_answer one_answer_view run (some a)
    → Returns (returned (replied run)) a
replied-Returns run a h = rw (h.runs, h.sends) (returned-Returns a)

behind-Returns :
    (x : Status × Bytes × Unit {0}) (s : List Bytes × ℕ) (a : Answer)
    → Returns x a
    → Returns (x.0, x.1, s) a
behind-Returns x s (answer b) h = h
behind-Returns x s (refusal e) h = h

route_writer-IsRouted :
    IsRouted naturals points summaries route_writer push_view one_answer one_answer_view known
      (pos 2)
route_writer-IsRouted = record {
  fresh = none;
  unsent = refl;
  delivered = λ s r a run h.
      let sum = sums_up naturals points summaries known s.0 (some (no_route naturals)) in
      behind-Returns (summed sum) s a
        (subst (λ x. Returns (summed x) a) (sym run) (replied-Returns (ended r) a h));
}

abbrev first_known : ℕ → ℕ
first_known j = 0

abbrev route : List Point
route = locations_at known (drawn 10 first_known 0)

sync_record_route-told_example :
    (s'' : List Bytes × ℕ) × (sync_record_route points summaries route_writer known first_known
        ([], 12)
      ≡ some (status_ok, told_of naturals points summaries known (pos 2) route, s''))
    × (length route ≡ 10)
unfolding drawn visit
sync_record_route-told_example =
    sync_record_route-told naturals points summaries route_writer push_view one_answer
      one_answer_view known (pos 2) known first_known ([], 12) (_, 2) (λ p. refl) (λ m. refl)
      route_writer-IsRouted (λ j. omega arith) refl refl refl
