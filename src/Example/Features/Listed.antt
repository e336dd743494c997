-- ===== src/Example/Features/Listed.antt =====
-- What `ListFeatures` of route_guide_cb_server.cc writes, and what a client gets of it.
use grpc_cb.Base.{
  ℕ, ◌+◌, ◌≤◌, ◌<◌, ◌≡◌, refl, ap, ◌∙◌, ◌↔◌, ◌⊎◌, inl, inr, Bool, true, false, ◌&&◌, some, List, [],
  ◌∷◌, map, append-nil, arith, Bool-cases, length,
}
use grpc_cb.Base.Filter.{filter}
use grpc_cb.Base.Int.{ltb_ℤ, ℤ, pos, negsuc, pos_part, neg_part, leb_ℤ}
use grpc_cb.Server.{WriterCore, write}
use grpc_cb.Client.{ReaderCore, receive}
use grpc_cb.Client.Reading.{ReaderView, receive-serialized}
use grpc_cb.Example.Points.{Rectangle, Feature, location_of}
use grpc_cb.Example.Wire.{
  Codec, AllText, message_type, WriterView, two_values, HasWritten, none-HasWritten, one-HasWritten,
  append-HasWritten, stopped-HasWritten,
}
use grpc_cb.Example.Features.{in_rectangle, list_features, min_ℤ, max_ℤ}

-- The order of the integers.
abbrev pub IsLe : ℤ → ℤ → Type 0
IsLe (pos a) (pos b) = a ≤ b
IsLe (pos a) (negsuc b) = ⊥
IsLe (negsuc a) (pos b) = Unit
IsLe (negsuc a) (negsuc b) = b ≤ a

-- Between two bounds, whichever of them is the lower.
abbrev pub IsBetween : ℤ → ℤ → ℤ → Type 0
IsBetween a b z = (IsLe a z × IsLe z b) ⊎ (IsLe b z × IsLe z a)

IsLe-iff : (a b : ℤ) → IsLe a b ↔ (pos_part a + neg_part b ≤ pos_part b + neg_part a)
IsLe-iff (pos a) (pos b) = grind arith
IsLe-iff (pos a) (negsuc b) = grind arith
IsLe-iff (negsuc a) (pos b) = grind arith
IsLe-iff (negsuc a) (negsuc b) = grind arith

and_pairs : (a b c d : Bool) → (a && b && c && d ≡ true) ↔ ((a && b ≡ true) × (c && d ≡ true))
and_pairs true true c d = (λ h. (refl, h), λ h. h.1)
and_pairs true false c d = (λ h. cc, λ h. cc)
and_pairs false b c d = (λ h. cc, λ h. cc)

IsBetween-iff : (a b z : ℤ) → (leb_ℤ (min_ℤ a b) z && leb_ℤ z (max_ℤ a b) ≡ true) ↔ IsBetween a b z
IsBetween-iff a b z = elim (Bool-cases (ltb_ℤ b a)) [
  | inl e ↦ (
    λ h. inr ((IsLe-iff b z).1 (ground arith), (IsLe-iff z a).1 (ground arith)),
    λ h. elim h [
      | inl (az, zb) ↦ let l = (IsLe-iff a z).0 az in let r = (IsLe-iff z b).0 zb in ground arith
      | inr (bz, za) ↦ let l = (IsLe-iff b z).0 bz in let r = (IsLe-iff z a).0 za in ground arith
    ],
  )
  | inr e ↦ (
    λ h. inl ((IsLe-iff a z).1 (ground arith), (IsLe-iff z b).1 (ground arith)),
    λ h. elim h [
      | inl (az, zb) ↦ let l = (IsLe-iff a z).0 az in let r = (IsLe-iff z b).0 zb in ground arith
      | inr (bz, za) ↦ let l = (IsLe-iff b z).0 bz in let r = (IsLe-iff z a).0 za in ground arith
    ],
  )
]

-- The test of `ListFeatures` is that the location lies between the corners in both coordinates, in
-- whichever order the corners are given.
in_rectangle_iff :
    (rectangle : Rectangle) (f : Feature)
    → (in_rectangle rectangle f ≡ true) ↔ (
        IsBetween rectangle.lo.longitude rectangle.hi.longitude (location_of f).longitude
        × IsBetween rectangle.lo.latitude rectangle.hi.latitude (location_of f).latitude)
unfolding in_rectangle
in_rectangle_iff rectangle f =
    let lo = rectangle.lo in
    let hi = rectangle.hi in
    let at = location_of f in
    let (lon, lon') = IsBetween-iff lo.longitude hi.longitude at.longitude in
    let (lat, lat') = IsBetween-iff lo.latitude hi.latitude at.latitude in
    let (split, join) =
      and_pairs (leb_ℤ (min_ℤ lo.longitude hi.longitude) at.longitude)
        (leb_ℤ at.longitude (max_ℤ lo.longitude hi.longitude))
        (leb_ℤ (min_ℤ lo.latitude hi.latitude) at.latitude)
        (leb_ℤ at.latitude (max_ℤ lo.latitude hi.latitude)) in
    (λ h. let (l, r) = split h in (lon l, lat r), λ h. join (lon' h.0, lat' h.1))

-- A feature is in a rectangle if its location, the origin where it has none, lies between the corners
-- in both coordinates.
abbrev pub IsWithin : Rectangle → Feature → Type 0
IsWithin rectangle f =
    IsBetween rectangle.lo.longitude rectangle.hi.longitude (location_of f).longitude
    × IsBetween rectangle.lo.latitude rectangle.hi.latitude (location_of f).latitude

-- The features of a list that are in a rectangle, in order: the ones that are not are left out.
pub data Picks (rectangle : Rectangle) : List Feature → List Feature → Type 0 where
  picks_none : Picks rectangle [] []
  picks :
      {f : Feature} {fs found : List Feature}
      → IsWithin rectangle f
      → Picks rectangle fs found
      → Picks rectangle (f ∷ fs) (f ∷ found)
  leaves_out :
      {f : Feature} {fs found : List Feature}
      → (IsWithin rectangle f → ⊥)
      → Picks rectangle fs found
      → Picks rectangle (f ∷ fs) found

pub filter-Picks :
    (rectangle : Rectangle) (fs : List Feature)
    → Picks rectangle fs (filter (in_rectangle rectangle) fs)
filter-Picks rectangle [] = picks_none
filter-Picks rectangle (f ∷ fs) = elim (Bool-cases (in_rectangle rectangle f)) [
  | inl e ↦ rw e (picks ((in_rectangle_iff rectangle f).0 e) (filter-Picks rectangle fs))
  | inr e ↦ rw e (
      leaves_out (λ h. two_values (in_rectangle rectangle f) ((in_rectangle_iff rectangle f).1 h) e)
        (filter-Picks rectangle fs))
]

-- What is picked of a list is what the test of `ListFeatures` leaves.
pub Picks-filter :
    (rectangle : Rectangle) {fs found : List Feature}
    → Picks rectangle fs found
    → found ≡ filter (in_rectangle rectangle) fs
Picks-filter rectangle picks_none = refl
Picks-filter rectangle (picks {f} h p) =
    rw ((in_rectangle_iff rectangle f).1 h) (ap (λ l. f ∷ l) (Picks-filter rectangle p))
Picks-filter rectangle (leaves_out {f} outside p) = elim (Bool-cases (in_rectangle rectangle f)) [
  | inl e ↦ absurd (outside ((in_rectangle_iff rectangle f).0 e))
  | inr e ↦ rw e (Picks-filter rectangle p)
]

module _ (features : Codec Feature) (core : WriterCore) (view : WriterView core.write) where
  -- `ListFeatures` writes the features in the rectangle, in the order of the database, up to the first
  -- that the writer does not accept; all of them, if the writer still accepts messages at the end.
  pub list_features-HasWritten :
      (rectangle : Rectangle) (fs : List Feature) (s : core.State)
      → HasWritten features core.write view s
          (list_features features core rectangle fs s)
          (filter (in_rectangle rectangle) fs)
  unfolding list_features write
  list_features-HasWritten rectangle [] s = none-HasWritten features core.write view s
  list_features-HasWritten rectangle (f ∷ fs) s = elim (Bool-cases (in_rectangle rectangle f)) [
    | inl e ↦
        let s' = (write (message_type features) core f s).1 in
        elim (Bool-cases (write (message_type features) core f s).0) [
          | inl w ↦
              rw (list_features, e, w)
                (append-HasWritten features core.write view
                  (one-HasWritten features core.write view f s)
                  (list_features-HasWritten rectangle fs s'))
          | inr w ↦
              rw (list_features, e, w)
                (stopped-HasWritten features core.write view f (filter (in_rectangle rectangle) fs)
                  s w)
        ]
    | inr e ↦ rw (list_features, e) (list_features-HasWritten rectangle fs s)
  ]

module _ (features : Codec Feature) (core : WriterCore) (view : WriterView core.write) where
  -- What the writer has been given at the end of `ListFeatures`, read by a client to its end: if the
  -- writer was fresh and still accepts messages, the client gets the features in the rectangle, in the
  -- order of the database, and the status that the call ends with.
  pub list_features-receive :
      (rectangle : Rectangle) (fs : List Feature) (s : core.State) (reader : ReaderCore)
      (reads : ReaderView reader) (r : reader.State) (n : ℕ) (old : Feature)
      → view.written s ≡ []
      → view.accepts (list_features features core rectangle fs s) ≡ true
      → reads.pending r ≡ view.written (list_features features core rectangle fs s)
      → length (filter (in_rectangle rectangle) fs) < n
      → AllText features (filter (in_rectangle rectangle) fs)
      → receive (message_type features) reader n old r
        ≡ some (filter (in_rectangle rectangle) fs, reads.final r)
  list_features-receive rectangle fs s reader reads r n old fresh accepted same enough texts =
      let done = list_features-HasWritten features core view rectangle fs s in
      let all : filter (in_rectangle rectangle) fs ≡ done.sent =
        rw (done.parts, done.complete accepted) (append-nil done.sent) in
      let pending : reads.pending r ≡ map features.serialize (filter (in_rectangle rectangle) fs) =
        same ∙ done.wrote ∙ rw (fresh, all) refl in
      receive-serialized (message_type features) reader reads (filter (in_rectangle rectangle) fs) n
        old r pending enough texts
