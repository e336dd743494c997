-- ===== src/Example/Db/Parser.antt =====
-- `Parser` and `ParseDb` of helper.cc. An exception ends the program, since nothing catches it: it is
-- `raised`.
use grpc_cb.Base.{
  ℕ, zero, suc, ◌+◌, ◌-◌, Bool, true, false, not, ◌&&◌, ◌||◌, Option, none, some, List, [], ◌∷◌,
  ◌++◌, Bytes, codes, bytes_eq, ◌==◌, ltb, leb, if◌then◌else◌, length, get_elem?, take, drop,
}
use grpc_cb.Base.Int.{ℤ}
use grpc_cb.Example.Points.{Feature, new_feature, location_of, to_int32}
use grpc_cb.Example.Db.Numbers.{isspace, stol}

-- `remove_if` and `erase`.
unfoldable pub erase_spaces : Bytes → Bytes
unfolding isspace
erase_spaces [] = []
erase_spaces (c ∷ s) = if isspace c then erase_spaces s else c ∷ erase_spaces s

-- What `std::string::substr` and `std::stol` throw.
pub data Exception : Type 0 where
  substr_behind_end : Exception
  stol_failed : Exception

pub data Outcome {ℓ} (A : Type ℓ) : Type ℓ where
  done : A → Outcome A
  raised : Exception → Outcome A

pub record Parser : Type 0 where
  pub failed : Bool
  pub db : Bytes
  pub current : ℕ

-- `Match`; `substr` from behind the end throws.
unfoldable pub match : Bytes → Parser → Outcome (Bool × Parser)
match prefix p =
    let eq = bytes_eq (take (length prefix) (drop p.current p.db)) prefix in
    if ltb (length p.db) p.current
    then raised substr_behind_end
    else done (eq, record p { current = p.current + length prefix })

-- A chain of matches, as far as they succeed: `!Match(a) || !Match(b) || …` is its negation.
unfoldable pub match_all : List Bytes → Parser → Outcome (Bool × Parser)
unfolding match
match_all [] p = done (true, p)
match_all (prefix ∷ rest) p = elim (match prefix p) [
  | raised e ↦ raised e
  | done (eq, p') ↦ elim eq [ true ↦ match_all rest p' | false ↦ done (false, p') ]
]

-- The bytes in front of the next comma or closing brace.
unfoldable pub number_text : Bytes → Bytes
number_text [] = []
number_text (c ∷ s) = if c == b',' || c == b'}' then [] else c ∷ number_text s

-- `ReadLong`. Its loop stops at the end, which it does not begin behind: each call follows a match.
unfoldable pub read_long : Parser → Outcome (ℤ × Parser)
unfolding number_text
read_long p =
    let text = number_text (drop p.current p.db) in
    elim (stol text) [
      | none ↦ raised stol_failed
      | some l ↦ done (l, record p { current = p.current + length text })
    ]

-- How many bytes the loop over a name reads: the name and its closing quote.
unfoldable pub name_length : Bytes → ℕ
name_length [] = 0
name_length (c ∷ s) = if c == b'"' then 1 else suc (name_length s)

abbrev pub set_failed : Feature → Parser → Outcome (Bool × Feature × Parser)
set_failed f p = done (false, f, record p { failed = true })

abbrev pub set_latitude : ℤ → Feature → Feature
set_latitude l f = record f { location = some (record (location_of f) { latitude = to_int32 l }) }

abbrev pub set_longitude : ℤ → Feature → Feature
set_longitude l f = record f { location = some (record (location_of f) { longitude = to_int32 l }) }

-- The byte that `db_[i]` reads; at the end it is 0.
abbrev pub byte_at : Bytes → ℕ → ℕ
byte_at s i = elim (get_elem? s i) [ none ↦ 0 | some c ↦ c ]

-- What follows a name: the next feature, or the end of the list.
unfoldable pub finish_one : Feature → Outcome (Bool × Parser) → Outcome (Bool × Feature × Parser)
finish_one f (raised e) = raised e
finish_one f (done (true, p)) = done (true, f, p)
finish_one f (done (false, p)) =
    if byte_at p.db (p.current - 1) == b']' && p.current == length p.db
    then done (true, f, p)
    else set_failed f p

-- From the first byte of the name.
unfoldable pub parse_name : Feature → Outcome (Bool × Parser) → Outcome (Bool × Feature × Parser)
unfolding name_length finish_one match
parse_name f (raised e) = raised e
parse_name f (done (false, p)) = set_failed f p
parse_name f (done (true, p)) =
    let read = name_length (drop p.current p.db) in
    let at_end : Parser = record p { current = p.current + read } in
    let named : Feature = record f { name = take (read - 1) (drop p.current p.db) } in
    if at_end.current == length p.db
    then set_failed f at_end
    else finish_one named (match (codes "},") at_end)

unfoldable pub after_longitude : Feature → Outcome (ℤ × Parser) → Outcome (Bool × Feature × Parser)
unfolding parse_name match_all
after_longitude f (raised e) = raised e
after_longitude f (done (l, p)) =
    parse_name (set_longitude l f) (match_all (codes "}," ∷ codes "\"name\":" ∷ codes "\"" ∷ []) p)

unfoldable pub parse_longitude :
    Feature → Outcome (Bool × Parser) → Outcome (Bool × Feature × Parser)
unfolding after_longitude read_long
parse_longitude f (raised e) = raised e
parse_longitude f (done (false, p)) = set_failed f p
parse_longitude f (done (true, p)) = after_longitude f (read_long p)

unfoldable pub after_latitude : Feature → Outcome (ℤ × Parser) → Outcome (Bool × Feature × Parser)
unfolding parse_longitude match_all
after_latitude f (raised e) = raised e
after_latitude f (done (l, p)) =
    parse_longitude (set_latitude l f) (match_all (codes "," ∷ codes "\"longitude\":" ∷ []) p)

unfoldable pub parse_latitude :
    Feature → Outcome (Bool × Parser) → Outcome (Bool × Feature × Parser)
unfolding after_latitude read_long
parse_latitude f (raised e) = raised e
parse_latitude f (done (false, p)) = set_failed f p
parse_latitude f (done (true, p)) = after_latitude f (read_long p)

unfoldable pub finished : Parser → Bool
finished p = leb (length p.db) p.current

-- `TryParseOne`: its result, the feature that it has filled, and the parser.
unfoldable pub try_parse_one : Feature → Parser → Outcome (Bool × Feature × Parser)
unfolding parse_latitude match_all finished
try_parse_one f p =
    if p.failed || finished p
    then set_failed f p
    else parse_latitude f
        (match_all (codes "{" ∷ codes "\"location\":" ∷ codes "{" ∷ codes "\"latitude\":" ∷ []) p)

-- The constructor. At the front, `substr` does not throw.
unfoldable pub make_parser : Bytes → Parser
make_parser text =
    let db = erase_spaces text in
    record { failed = not (bytes_eq (take 1 db) (codes "[")); db = db; current = 1 }

-- The loop of `ParseDb`, on fuel: `none` stands for a loop that has not returned.
unfoldable pub parse_loop : ℕ → Parser → List Feature → Option (Outcome (List Feature))
unfolding try_parse_one
parse_loop zero p features = none
parse_loop (suc fuel) p features = elim (finished p) [
  | true ↦ some (done features)
  | false ↦ elim (try_parse_one new_feature p) [
    | raised e ↦ some (raised e)
    | done (one, f, p') ↦ elim one [
      | true ↦ parse_loop fuel p' (features ++ f ∷ [])
      | false ↦ some (done [])
    ]
  ]
]

-- Each feature takes bytes off the text, so a round for each byte, and one more, are enough.
unfoldable pub parse_db : Bytes → Option (Outcome (List Feature))
unfolding parse_loop make_parser erase_spaces
parse_db db =
    let content = erase_spaces db in parse_loop (suc (length content)) (make_parser content) []
