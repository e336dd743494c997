-- ===== src/Example/Features/Found.antt =====
-- What `GetFeatureName` of route_guide_cb_server.cc finds.
use grpc_cb.Base.{
  ◌≡◌, refl, ap, ◌≢◌, ◌↔◌, inl, inr, Bool, true, false, ◌&&◌, List, [], ◌∷◌, ◌++◌, arith, Bytes,
  Bool-cases, All,
}
use mathlib.Core.Path.{ap₂}
use grpc_cb.Base.Int.{ℤ, pos, negsuc, eq_ℤ}
use grpc_cb.Example.Points.{Point, Feature, location_of}
use grpc_cb.Example.Features.{same_location, get_feature_name}

eq_ℤ_iff : (a b : ℤ) → (eq_ℤ a b ≡ true) ↔ (a ≡ b)
eq_ℤ_iff (pos a) (pos b) = grind arith
eq_ℤ_iff (pos a) (negsuc b) = grind arith
eq_ℤ_iff (negsuc a) (pos b) = grind arith
eq_ℤ_iff (negsuc a) (negsuc b) = grind arith

and_iff : (a b : Bool) → (a && b ≡ true) ↔ ((a ≡ true) × (b ≡ true))
and_iff true b = (λ h. (refl, h), λ h. h.1)
and_iff false b = (λ h. cc, λ h. cc)

same_location_iff : (a b : Point) → (same_location a b ≡ true) ↔ (a ≡ b)
same_location_iff a b =
    let (lat, lat') = eq_ℤ_iff a.latitude b.latitude in
    let (lon, lon') = eq_ℤ_iff a.longitude b.longitude in
    let (split, join) = and_iff (eq_ℤ a.latitude b.latitude) (eq_ℤ a.longitude b.longitude) in
    (
      λ h.
          let (l, r) = split h in
          ap₂ (λ x y. record { latitude = x; longitude = y }) (lat l) (lon r),
      λ h. join (lat' (ap (λ p. p.latitude) h), lon' (ap (λ p. p.longitude) h)),
    )

same_location-false : (a b : Point) → same_location a b ≡ false → a ≢ b
same_location-false a b e h =
    let back : same_location a b ≡ true = (same_location_iff a b).1 h in cc

-- What is found at a point: the name of the first feature there.
pub data IsFound (point : Point) : List Feature → Bytes → Type 0 where
  nothing :
      {features : List Feature}
      → All (λ f. location_of f ≢ point) features
      → IsFound point features []
  first :
      {features : List Feature} {name : Bytes} (before : List Feature) (f : Feature)
      (after : List Feature)
      → features ≡ before ++ f ∷ after
      → All (λ g. location_of g ≢ point) before
      → location_of f ≡ point
      → name ≡ f.name
      → IsFound point features name

later :
    (point : Point) (f : Feature) (features : List Feature) (name : Bytes)
    → location_of f ≢ point
    → IsFound point features name
    → IsFound point (f ∷ features) name
later point f features name n (nothing all) = nothing (n, all)
later point f features name n (first before g after e all at same) =
    first (f ∷ before) g after (ap (λ l. f ∷ l) e) (n, all) at same

-- `GetFeatureName` finds the name of the first feature at the point, or, if there is none, nothing.
get_feature_name-IsFound :
    (point : Point) (features : List Feature)
    → IsFound point features (get_feature_name point features)
unfolding get_feature_name
get_feature_name-IsFound point [] = nothing tt
get_feature_name-IsFound point (f ∷ fs) = elim (Bool-cases (same_location (location_of f) point)) [
  | inl e ↦ rw e (first [] f fs refl tt ((same_location_iff (location_of f) point).0 e) refl)
  | inr e ↦ rw e (
      later point f fs (get_feature_name point fs) (same_location-false (location_of f) point e)
        (get_feature_name-IsFound point fs))
]
