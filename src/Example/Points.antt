-- ===== src/Example/Points.antt =====
-- The messages of examples/protos/route_guide.proto, and how a number is stored in an `int32` field.
use grpc_cb.Base.{
  ℕ, ◌-◌, ◌%◌, ◌^◌, ◌<◌, ◌≡◌, Option, none, some, [], arith, Bytes, ltb, if◌then◌else◌,
}
use grpc_cb.Base.Int.{ℤ, pos, negsuc}

-- A point that is not set is the point (0, 0).
pub record Point : Type 0 where
  pub latitude : ℤ
  pub longitude : ℤ

abbrev pub origin : Point
origin = record { latitude = pos 0; longitude = pos 0 }

pub record Rectangle : Type 0 where
  pub lo : Point
  pub hi : Point

-- `location` tells whether the field is set, `location_of` reads it.
pub record Feature : Type 0 where
  pub name : Bytes
  pub location : Option Point

abbrev pub point_or_origin : Option Point → Point
point_or_origin none = origin
point_or_origin (some p) = p

abbrev pub location_of : Feature → Point
location_of f = point_or_origin f.location

abbrev pub new_feature : Feature
new_feature = record { name = []; location = none }

pub record RouteNote : Type 0 where
  pub location : Point
  pub message : Bytes

pub record RouteSummary : Type 0 where
  pub point_count : ℤ
  pub feature_count : ℤ
  pub distance : ℤ
  pub elapsed_time : ℤ

-- The 32 bits of a number, and the number that they stand for.
abbrev low_bits : ℤ → ℕ
low_bits (pos n) = n % 2 ^ 32
low_bits (negsuc n) = 2 ^ 32 - 1 - n % 2 ^ 32

abbrev signed : ℕ → ℤ
signed w = if ltb w (2 ^ 31) then pos w else negsuc (2 ^ 32 - 1 - w)

-- The conversion to `int32` of a `long`: the low bits are kept.
unfoldable pub to_int32 : ℤ → ℤ
to_int32 z = signed (low_bits z)

abbrev pub IsInt32 : ℤ → Type 0
IsInt32 (pos n) = n < 2 ^ 31
IsInt32 (negsuc n) = n < 2 ^ 31

pub to_int32-IsInt32 : (z : ℤ) → IsInt32 (to_int32 z)
unfolding to_int32
to_int32-IsInt32 (pos n) = ground arith
to_int32-IsInt32 (negsuc n) = ground arith

pub to_int32_id : (z : ℤ) → IsInt32 z → to_int32 z ≡ z
unfolding to_int32
to_int32_id (pos n) h = ground arith
to_int32_id (negsuc n) h = ground arith

-- The coordinates of a point are those of an `int32`.
abbrev pub IsStored : Point → Type 0
IsStored p = IsInt32 p.latitude × IsInt32 p.longitude
