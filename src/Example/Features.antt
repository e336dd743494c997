-- ===== src/Example/Features.antt =====
-- `GetFeatureName`, `GetFeature` and `ListFeatures` of
-- examples/cpp_cb/route_guide/route_guide_cb_server.cc.
pub mod Found
pub mod Listed
use grpc_cb.Base.{Bool, true, false, ◌&&◌, some, List, [], ◌∷◌, Bytes, if◌then◌else◌}
use grpc_cb.Base.Int.{ℤ, pos_part, neg_part, ltb_ℤ, leb_ℤ, eq_ℤ}
use grpc_cb.Server.{ReplierCore, WriterCore, replier_reply, write}
use grpc_cb.Example.Points.{Point, Rectangle, Feature, location_of}
use grpc_cb.Example.Wire.{Codec, message_type}

-- The test of two locations that the server makes.
abbrev pub same_location : Point → Point → Bool
same_location a b = eq_ℤ a.latitude b.latitude && eq_ℤ a.longitude b.longitude

-- `GetFeatureName`.
unfoldable pub get_feature_name : Point → List Feature → Bytes
get_feature_name point [] = []
get_feature_name point (f ∷ feature_vector) =
    let rest = get_feature_name point feature_vector in
    if same_location (location_of f) point then f.name else rest

-- `std::min` and `std::max`.
abbrev pub min_ℤ : ℤ → ℤ → ℤ
min_ℤ a b = if ltb_ℤ b a then b else a

abbrev pub max_ℤ : ℤ → ℤ → ℤ
max_ℤ a b = if ltb_ℤ a b then b else a

-- The test in the loop of `ListFeatures`.
unfoldable pub in_rectangle : Rectangle → Feature → Bool
in_rectangle rectangle f =
    let lo = rectangle.lo in
    let hi = rectangle.hi in
    let left = min_ℤ lo.longitude hi.longitude in
    let right = max_ℤ lo.longitude hi.longitude in
    let top = max_ℤ lo.latitude hi.latitude in
    let bottom = min_ℤ lo.latitude hi.latitude in
    leb_ℤ left (location_of f).longitude
    && leb_ℤ (location_of f).longitude right
    && leb_ℤ bottom (location_of f).latitude
    && leb_ℤ (location_of f).latitude top

module _ (features : Codec Feature) (core : ReplierCore) where
  -- `RouteGuideImpl::GetFeature`.
  unfoldable pub get_feature : List Feature → Point → core.State → core.State
  unfolding get_feature_name replier_reply
  get_feature feature_vector point replier =
      let feature : Feature = record {
        name = get_feature_name point feature_vector;
        location = some point;
      } in
      replier_reply (message_type features) core feature replier

module _ (features : Codec Feature) (core : WriterCore) where
  -- `RouteGuideImpl::ListFeatures`: the loop of its thread.
  unfoldable pub list_features : Rectangle → List Feature → core.State → core.State
  unfolding in_rectangle write
  list_features rectangle [] writer = writer
  list_features rectangle (f ∷ feature_vector) writer =
      let (wrote, writer') = write (message_type features) core f writer in
      elim (in_rectangle rectangle f) [
        | true ↦ elim wrote [
          | true ↦ list_features rectangle feature_vector writer'
          | false ↦ writer'
        ]
        | false ↦ list_features rectangle feature_vector writer
      ]
