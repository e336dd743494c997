-- ===== src/Example/Db/File.antt =====
-- `GetDbFileContent` of helper.cc, and the features that the server of the route guide starts with.
use grpc_cb.Base.{
  ℕ, ◌+◌, ◌≡◌, refl, ◌⊎◌, true, ◌||◌, Option, none, some, List, [], ◌∷◌, ◌++◌, map, arith, Bytes,
  codes, starts_with, ◌==◌, leb, if◌then◌else◌, ◌>>=◌, length, get_elem?, drop, All,
}
use grpc_cb.Helpers.Replace.{find, search}
use grpc_cb.Example.Points.{Feature}
use grpc_cb.Example.Db.Parser.{done, raised, erase_spaces, parse_db}
use grpc_cb.Example.Db.Print.{Entry, feature_of, print_entries, IsEntry}
use grpc_cb.Example.Db.RoundTrip.{parse_db-print_entries}

-- The path of the file from the arguments, the first of which is the program.
unfoldable db_path : List Bytes → Bytes
unfolding find
db_path [] = codes "route_guide_db.json"
db_path (program ∷ []) = codes "route_guide_db.json"
db_path (program ∷ arg ∷ rest) = elim (find arg (codes "--db_path") 0) [
  | none ↦ []
  | some start ↦
      let position = start + length (codes "--db_path") in
      elim (get_elem? arg position) [
        | none ↦ []
        | some c ↦ if c == b' ' || c == b'=' then drop (position + 1) arg else []
      ]
]

-- `GetDbFileContent`; the files are an argument. At the end of the argument the byte is 0.
unfoldable pub get_db_file_content : (Bytes → Option Bytes) → List Bytes → Bytes
unfolding db_path
get_db_file_content files argv = elim (files (db_path argv)) [ none ↦ [] | some content ↦ content ]

-- The features of the service that `main` of the server makes: its constructor does not look at whether
-- the parse has failed, which leaves no features. `none` stands for an exception, or a parse that needs
-- more fuel.
unfoldable pub service_features : Bytes → Option (List Feature)
unfolding parse_db
service_features db =
    parse_db db >>= (λ outcome. elim outcome [ raised e ↦ none | done features ↦ some features ])

-- The argument names the file behind `--db_path`, a space or an equals sign.
db_path_lem :
    (program path : Bytes) (c : ℕ) (rest : List Bytes)
    → (c ≡ b' ') ⊎ (c ≡ b'=')
    → db_path (program ∷ (codes "--db_path" ++ c ∷ path) ∷ rest) ≡ path
unfolding db_path find search starts_with
db_path_lem program path c rest h =
    let found : leb 0 (length (codes "--db_path" ++ c ∷ path)) ≡ true = ground arith in
    rw (db_path, found) (ground arith)

-- A server that is started with the path of a file in the parser's form serves the features of the
-- file, in order, if no name holds a quote and the coordinates are those of an `int32`.
pub service_features_lem :
    (files : Bytes → Option Bytes) (program path : Bytes) (c : ℕ) (rest : List Bytes) (text : Bytes)
    (e : Entry) (es : List Entry)
    → (c ≡ b' ') ⊎ (c ≡ b'=')
    → files path ≡ some text
    → IsEntry e
    → All IsEntry es
    → erase_spaces text ≡ codes "[" ++ print_entries e es
    → service_features
        (get_db_file_content files (program ∷ (codes "--db_path" ++ c ∷ path) ∷ rest))
      ≡ some (map feature_of (e ∷ es))
unfolding service_features get_db_file_content
service_features_lem files program path c rest text e es k h i is form =
    let content : get_db_file_content files (program ∷ (codes "--db_path" ++ c ∷ path) ∷ rest)
        ≡ text =
      rw (get_db_file_content, db_path_lem program path c rest k, h) refl in
    rw (content, service_features, parse_db-print_entries text e es i is form) refl
