-- ===== src/Tests/Db.antt =====
-- The parser of the route guide's database run on small texts, and its theorems applied to them.
use grpc_cb.Base.{
  ◌≢◌, ◌≡◌, refl, inr, Option, none, some, List, [], ◌∷◌, ◌++◌, map, arith, Bytes, codes, bytes_eq,
  if◌then◌else◌,
}
use grpc_cb.Base.Int.{pos, negsuc}
use grpc_cb.Example.Points.{Feature, to_int32}
use grpc_cb.Generator.Printing.{as_string}
use grpc_cb.Example.Db.Numbers.{stol}
use grpc_cb.Example.Db.Parser.{
  Outcome, done, raised, substr_behind_end, stol_failed, erase_spaces, parse_db,
}
use grpc_cb.Example.Db.Print.{print_number, Entry, feature_of, print_entries, IsEntry}
use grpc_cb.Example.Db.RoundTrip.{parse_db-print_entries}
use grpc_cb.Example.Db.Returns.{parse_db-returns}
use grpc_cb.Example.Db.File.{get_db_file_content, service_features, service_features_lem}

abbrev a_place : Entry
a_place = record { name = codes "a"; latitude = pos 5; longitude = negsuc 6 }

abbrev no_name : Entry
no_name = record { name = []; latitude = pos 0; longitude = pos 12 }

abbrev a_text : Bytes
a_text =
    codes
      "[{\"location\": {\"latitude\": 5, \"longitude\": -7}, \"name\": \"a\"}, {\"location\": {\"latitude\": 0, \"longitude\": 12}, \"name\": \"\"}]"

a_place-IsEntry : IsEntry a_place
a_place-IsEntry = (((λ e. cc), tt), omega arith, omega arith)

no_name-IsEntry : IsEntry no_name
no_name-IsEntry = (tt, omega arith, omega arith)

a_text-form : erase_spaces a_text ≡ codes "[" ++ print_entries a_place (no_name ∷ [])
unfolding erase_spaces print_number as_string
a_text-form = refl

parse_db-print_entries_example :
    parse_db a_text ≡ some (done (map feature_of (a_place ∷ no_name ∷ [])))
parse_db-print_entries_example =
    parse_db-print_entries a_text a_place (no_name ∷ []) a_place-IsEntry (no_name-IsEntry, tt)
      a_text-form

parse_db-returns_example :
    (o : Outcome (List Feature)) × (parse_db (codes "[{\"location\":{\"latitude\":x") ≡ some o)
    × (o ≢ raised substr_behind_end)
parse_db-returns_example = parse_db-returns (codes "[{\"location\":{\"latitude\":x")

-- A number that is none is an exception; an empty list is an error, which leaves no features.
not_a_number : parse_db (codes "[{\"location\":{\"latitude\":x") ≡ some (raised stol_failed)
unfolding parse_db bytes_eq stol
not_a_number = refl

empty_list : parse_db (codes "[]") ≡ some (done [])
unfolding parse_db bytes_eq stol
empty_list = refl

-- A number above the range of `int32` is stored as another.
abbrev wide_text : Bytes
wide_text = codes "[{\"location\":{\"latitude\":4294967297,\"longitude\":0},\"name\":\"a\"}]"

abbrev narrowed : List Feature
narrowed = feature_of (record { name = codes "a"; latitude = pos 1; longitude = pos 0 }) ∷ []

narrowed_wide : parse_db wide_text ≡ some (done narrowed)
unfolding parse_db bytes_eq stol to_int32
narrowed_wide = refl

-- Another byte in front of the closing bracket is read as if it were the brace.
other_end :
    parse_db (codes "[{\"location\":{\"latitude\":1,\"longitude\":0},\"name\":\"a\"x]")
    ≡ some (done narrowed)
unfolding parse_db bytes_eq stol to_int32
other_end = refl

abbrev files : Bytes → Option Bytes
files path = if bytes_eq path (codes "db.json") then some a_text else none

service_features_lem_example :
    service_features (get_db_file_content files (codes "server" ∷ codes "--db_path=db.json" ∷ []))
    ≡ some (map feature_of (a_place ∷ no_name ∷ []))
unfolding bytes_eq
service_features_lem_example =
    service_features_lem files (codes "server") (codes "db.json") b'=' [] a_text a_place
      (no_name ∷ []) (inr refl) refl a_place-IsEntry (no_name-IsEntry, tt) a_text-form
