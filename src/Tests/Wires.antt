-- ===== src/Tests/Wires.antt =====
-- Small messages with which the example programs can be run.
use grpc_cb.Base.{
  ltb, ◌&&◌, ℕ, zero, suc, ◌≡◌, refl, sym, Bool, true, false, Option, none, some, [], ◌∷◌, Bytes,
  codes,
}
use mathlib.Core.Bool.{false≢true}
use grpc_cb.Base.Int.{ℤ, pos, negsuc}
use grpc_cb.Example.Points.{Point, Rectangle, Feature, RouteNote, RouteSummary, origin, new_feature}
use grpc_cb.Example.Wire.{Codec}
use grpc_cb.Example.Greeter.{HelloRequest, HelloReply}

-- A number as its sign and its magnitude, in front of other bytes.
abbrev put : ℤ → Bytes → Bytes
put (pos n) s = 0 ∷ n ∷ s
put (negsuc n) s = 1 ∷ n ∷ s

abbrev number : ℕ → ℕ → ℤ
number zero n = pos n
number (suc k) n = negsuc n

abbrev put_point : Point → Bytes → Bytes
put_point p s = put p.latitude (put p.longitude s)

abbrev get_point : Bytes → Bool × Point × Bytes
get_point (a ∷ b ∷ c ∷ d ∷ s) = (true, record { latitude = number a b; longitude = number c d }, s)
get_point _ = (false, origin, [])

pub get_point-put :
    (a b : ℤ) (s : Bytes)
    → get_point (put a (put b s)) ≡ (true, record { latitude = a; longitude = b }, s)
get_point-put (pos n) (pos m) s = refl
get_point-put (pos n) (negsuc m) s = refl
get_point-put (negsuc n) (pos m) s = refl
get_point-put (negsuc n) (negsuc m) s = refl

abbrev parse_point : Bytes → Bool × Point
parse_point b = let got = get_point b in (got.0, got.1)

abbrev pub points : Codec Point
points = record {
  type_name = codes "Point";
  initial = origin;
  serialize = λ p. put_point p [];
  parse = parse_point;
  parse-refused = λ m e. absurd (false≢true (sym e));
  is_text = λ m. true;
  parse-serialize = λ p e. rw (get_point-put p.latitude p.longitude []) refl;
}

abbrev parse_note : Bytes → Bool × RouteNote
parse_note b = let got = get_point b in (got.0, record { location = got.1; message = got.2 })

abbrev pub notes : Codec RouteNote
notes = record {
  type_name = codes "RouteNote";
  initial = record { location = origin; message = [] };
  serialize = λ n. put_point n.location n.message;
  parse = parse_note;
  parse-refused = λ m e. absurd (false≢true (sym e));
  is_text = λ m. true;
  parse-serialize =
      λ n e. rw (get_point-put n.location.latitude n.location.longitude n.message) refl;
}

abbrev put_feature : Option Point → Bytes → Bytes
put_feature none name = 0 ∷ name
put_feature (some p) name = 1 ∷ put_point p name

abbrev parse_feature : Bytes → Bool × Feature
parse_feature [] = (false, new_feature)
parse_feature (zero ∷ name) = (true, record { name = name; location = none })
parse_feature (suc k ∷ s) =
    let got = get_point s in (got.0, record { name = got.2; location = some got.1 })

pub parse_feature-put :
    (location : Option Point) (name : Bytes)
    → parse_feature (put_feature location name)
      ≡ (true, record { name = name; location = location })
parse_feature-put none name = refl
parse_feature-put (some p) name = rw (get_point-put p.latitude p.longitude name) refl

abbrev pub features : Codec Feature
features = record {
  type_name = codes "Feature";
  initial = new_feature;
  serialize = λ f. put_feature f.location f.name;
  parse = parse_feature;
  parse-refused = λ m e. absurd (false≢true (sym e));
  is_text = λ m. true;
  parse-serialize = λ f e. parse_feature-put f.location f.name;
}

abbrev parse_rectangle : Bytes → Bool × Rectangle
parse_rectangle b =
    let got = get_point b in
    let next = get_point got.2 in (next.0, record { lo = got.1; hi = next.1 })

abbrev pub rectangles : Codec Rectangle
rectangles = record {
  type_name = codes "Rectangle";
  initial = record { lo = origin; hi = origin };
  serialize = λ r. put_point r.lo (put_point r.hi []);
  parse = parse_rectangle;
  parse-refused = λ m e. absurd (false≢true (sym e));
  is_text = λ m. true;
  parse-serialize = λ r e.
      rw
        (
          get_point-put r.lo.latitude r.lo.longitude (put_point r.hi []),
          get_point-put r.hi.latitude r.hi.longitude [],
        )
        refl;
}

abbrev two_points : Point → Point → RouteSummary
two_points p q = record {
  point_count = p.latitude;
  feature_count = p.longitude;
  distance = q.latitude;
  elapsed_time = q.longitude;
}

abbrev parse_summary : Bytes → Bool × RouteSummary
parse_summary b =
    let got = get_point b in let next = get_point got.2 in (next.0, two_points got.1 next.1)

abbrev pub summaries : Codec RouteSummary
summaries = record {
  type_name = codes "RouteSummary";
  initial = two_points origin origin;
  serialize = λ s. put s.point_count (put s.feature_count (put s.distance (put s.elapsed_time [])));
  parse = parse_summary;
  parse-refused = λ m e. absurd (false≢true (sym e));
  is_text = λ m. true;
  parse-serialize = λ s e.
      rw
        (
          get_point-put s.point_count s.feature_count (put s.distance (put s.elapsed_time [])),
          get_point-put s.distance s.elapsed_time [],
        )
        refl;
}

-- Bytes below 128, in place of UTF-8.
abbrev ascii : Bytes → Bool
ascii [] = true
ascii (c ∷ s) = ltb c 128 && ascii s

abbrev pub hello_requests : Codec HelloRequest
hello_requests = record {
  type_name = codes "HelloRequest";
  initial = record { name = [] };
  serialize = λ r. r.name;
  parse = λ b. (ascii b, record { name = b });
  is_text = λ r. ascii r.name;
  parse-serialize = λ r e. rw e refl;
  parse-refused = λ r e. e;
}

abbrev pub hello_replies : Codec HelloReply
hello_replies = record {
  type_name = codes "HelloReply";
  initial = record { message = [] };
  serialize = λ r. r.message;
  parse = λ b. (ascii b, record { message = b });
  is_text = λ r. ascii r.message;
  parse-serialize = λ r e. rw e refl;
  parse-refused = λ r e. e;
}
