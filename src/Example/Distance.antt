-- ===== src/Example/Distance.antt =====
-- `ConvertToRadians` and `GetDistance` of examples/cpp_cb/route_guide/route_guide_cb_server.cc.
use grpc_cb.Base.{Bytes, codes}
use grpc_cb.Base.Int.{ℤ, pos}
use grpc_cb.Example.Points.{Point}

-- The floating-point numbers of the machine and the functions of `<cmath>`, which are those on
-- `double`. `literal` is the number that a literal of the source stands for.
pub record FloatApi : Type 1 where
  pub Float : Type 0
  pub Double : Type 0
  pub literal : Bytes → Double
  pub zero_float : Float
  pub of_int : ℤ → Float
  pub to_long : Float → ℤ
  pub widen : Float → Double
  pub narrow : Double → Float
  pub add : Float → Float → Float
  pub sub : Float → Float → Float
  pub mul : Float → Float → Float
  pub div : Float → Float → Float
  pub add_double : Double → Double → Double
  pub mul_double : Double → Double → Double
  pub div_double : Double → Double → Double
  pub pow : Double → Double → Double
  pub sin : Double → Double
  pub cos : Double → Double
  pub sqrt : Double → Double
  pub atan2 : Double → Double → Double

module _ (api : FloatApi) where
  unfoldable convert_to_radians : api.Float → api.Float
  convert_to_radians num = api.narrow (
      api.div_double (api.mul_double (api.widen num) (api.literal (codes "3.1415926")))
        (api.literal (codes "180")))

  abbrev sin_squared : api.Float → api.Double
  sin_squared x = api.pow (api.sin (api.widen x)) (api.literal (codes "2"))

  -- `GetDistance`.
  unfoldable pub get_distance : Point → Point → api.Float
  unfolding convert_to_radians
  get_distance start end =
      let coord_factor = api.narrow (api.literal (codes "10000000.0")) in
      let lat_1 = api.div (api.of_int start.latitude) coord_factor in
      let lat_2 = api.div (api.of_int end.latitude) coord_factor in
      let lon_1 = api.div (api.of_int start.longitude) coord_factor in
      let lon_2 = api.div (api.of_int end.longitude) coord_factor in
      let lat_rad_1 = convert_to_radians lat_1 in
      let lat_rad_2 = convert_to_radians lat_2 in
      let delta_lat_rad = convert_to_radians (api.sub lat_2 lat_1) in
      let delta_lon_rad = convert_to_radians (api.sub lon_2 lon_1) in
      let two = api.literal (codes "2") in
      let a = api.narrow (
        api.add_double (sin_squared (api.div delta_lat_rad (api.of_int (pos 2)))) (
          api.mul_double
            (api.mul_double (api.cos (api.widen lat_rad_1)) (api.cos (api.widen lat_rad_2)))
            (sin_squared (api.div delta_lon_rad (api.of_int (pos 2)))))) in
      let c = api.narrow (
        api.mul_double two (
          api.atan2 (api.sqrt (api.widen a))
            (api.sqrt (api.widen (api.sub (api.of_int (pos 1)) a))))) in
      api.mul (api.of_int (pos 6371000)) c
