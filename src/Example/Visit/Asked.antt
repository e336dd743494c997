-- ===== src/Example/Visit/Asked.antt =====
-- What the client of the route guide gets for a point, over grpc_cb_core.
use grpc_cb.Base.{◌≡◌, refl, true, some, List, [], ◌∷◌, Bytes, codes, bytes_eq}
use grpc_cb.Client.{StubCore, sync_request}
use grpc_cb.Server.{ReplierCore, replier_reply}
use grpc_cb.Server.Replying.{ReplierView, answer}
use grpc_cb.Example.Points.{Point, Feature}
use grpc_cb.Example.Wire.{Codec, message_type}
use grpc_cb.Example.Features.{get_feature_name, get_feature}
use grpc_cb.Example.Dispatch.{get_method_name}
use grpc_cb.Example.Stub.{sync_get_feature}
use grpc_cb.Example.Served.{IsServed}
use grpc_cb.Example.Visit.{
  Report, found_no_feature, found_feature, print_feature, sync_get_one_feature,
}

-- What is said of a point at which a feature of this name was found, or none.
abbrev pub report_of : Bytes → Point → Report
report_of [] point = found_no_feature point
report_of (c ∷ s) point = found_feature (c ∷ s) point

print_feature_lem :
    (name : Bytes) (point : Point)
    → print_feature (record { name = name; location = some point }) ≡ report_of name point
unfolding print_feature bytes_eq
print_feature_lem [] point = refl
print_feature_lem (c ∷ s) point = refl

module _ (points : Codec Point) (features : Codec Feature)
    (client : StubCore (message_type features)) (core : ReplierCore) (view : ReplierView core) where
  -- A client that is connected to the service of the example, and asks it for a point, gets a feature
  -- with the location that it asked for and the name that the service finds there, if that name is
  -- UTF-8; it then reports the feature, or that there is none, never an incomplete feature or a failed
  -- call.
  pub sync_get_one_feature-report :
      (feature_vector : List Feature) (point : Point) (old : Feature) (s : client.State)
      → IsServed
          (message_type points)
          (message_type features)
          client
          (codes "/routeguide.RouteGuide/GetFeature")
          core
          view
          (get_feature features core feature_vector)
      → points.is_text point ≡ true
      → features.is_text
          (record { name = get_feature_name point feature_vector; location = some point })
        ≡ true
      → (s' : client.State) × (sync_get_one_feature points features client point old s
          ≡ some (
            true,
            record { name = get_feature_name point feature_vector; location = some point },
            report_of (get_feature_name point feature_vector) point,
            s',
          ))
  unfolding sync_get_one_feature sync_get_feature get_method_name sync_request get_feature
      replier_reply
  sync_get_one_feature-report feature_vector point old s served numbers text =
      let name = get_feature_name point feature_vector in
      let feature : Feature = record { name = name; location = some point } in
      let sent : view.sent (get_feature features core feature_vector point served.fresh)
          ≡ some (answer (features.serialize feature)) =
        rw (view.sent-reply_str (features.serialize feature) served.fresh, served.unsent) refl in
      let (fine, same) =
        served.delivered point s (answer (features.serialize feature)) numbers sent in
      (
        (client.sync_request (codes "/routeguide.RouteGuide/GetFeature") (points.serialize point)
            s).2,
        rw (fine, same, features.parse-serialize feature text, print_feature_lem name point) refl,
      )
