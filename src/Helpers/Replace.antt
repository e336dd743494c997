-- ===== src/Helpers/Replace.antt =====
-- `StringReplace` of src/compiler/generator_helpers.h, `DotsToColons` and `DotsToUnderscores` of
-- src/compiler/cpp_generator_helpers.h.
pub mod Leftmost
pub mod Dots
use grpc_cb.Base.{
  ℕ, zero, suc, ◌+◌, Bool, true, false, Option, none, some, [], ◌∷◌, ◌++◌, Bytes, codes,
  starts_with, leb, if◌then◌else◌, length, take, drop,
}

-- `std::string::find` from a position on, and the three-argument `replace`.
unfoldable pub search : Bytes → Bytes → ℕ → Option ℕ
search from [] i = if starts_with from [] then some i else none
search from (c ∷ s) i = if starts_with from (c ∷ s) then some i else search from s (suc i)

unfoldable pub find : Bytes → Bytes → ℕ → Option ℕ
find str from pos = if leb pos (length str) then search from (drop pos str) pos else none

unfoldable pub replace : Bytes → ℕ → ℕ → Bytes → Bytes
replace str pos len to = take pos str ++ (to ++ drop (pos + len) str)

-- The `do … while (replace_all)` loop, on fuel: `none` stands for a loop that has not returned.
unfoldable pub replace_loop : ℕ → Bytes → Bytes → Bytes → Bool → ℕ → Option Bytes
replace_loop zero str from to replace_all pos = none
replace_loop (suc fuel) str from to replace_all pos = elim (find str from pos) [
  | none ↦ some str
  | some at ↦ elim replace_all [
    | true ↦ replace_loop fuel (replace str at (length from) to) from to true (at + length to)
    | false ↦ some (replace str at (length from) to)
  ]
]

-- Each round but the last removes an occurrence of `from`, so a round for each byte, and one more,
-- are enough where `from` is not empty.
unfoldable pub string_replace : Bytes → Bytes → Bytes → Bool → Option Bytes
unfolding replace_loop find search replace starts_with
string_replace str from to replace_all = replace_loop (suc (length str)) str from to replace_all 0

abbrev or_empty : Option Bytes → Bytes
or_empty none = []
or_empty (some s) = s

unfoldable pub dots_to_colons : Bytes → Bytes
unfolding string_replace
dots_to_colons name = or_empty (string_replace name (codes ".") (codes "::") true)

unfoldable pub dots_to_underscores : Bytes → Bytes
unfolding string_replace
dots_to_underscores name = or_empty (string_replace name (codes ".") (codes "_") true)
