-- ===== src/Helpers/Identifier.antt =====
-- `FilenameIdentifier` and `as_string` of src/compiler/cpp_cb_generator.cc.
use grpc_cb.Base.{
  ℕ, ◌+◌, ◌-◌, ◌*◌, ◌/◌, ◌%◌, ◌<◌, ◌≡◌, refl, sym, ap, ◌∙◌, inl, inr, Bool, true, ◌&&◌, ◌||◌,
  Option, none, some, [], ◌∷◌, ◌++◌, flat_map, append_assoc, append-nil, arith, Bytes, codes, ◌==◌,
  leb, Bool-cases, if◌then◌else◌, get_elem?, All, All-append,
}
use grpc_cb.Base.{check_below, lt-check_below}

-- `isalnum` in the "C" locale. For a byte above 127 the call is undefined where `char` is signed;
-- here such a byte is no letter.
unfoldable pub isalnum : ℕ → Bool
isalnum c = (leb b'0' c && leb c b'9') || (leb b'A' c && leb c b'Z') || (leb b'a' c && leb c b'z')

abbrev hex : Bytes
hex = codes "0123456789abcdef"

-- `hex[d]`; every index here is below 16.
hex_at : ℕ → ℕ
hex_at d = elim (get_elem? hex d) [ none ↦ 0 | some c ↦ c ]

-- What one round of the loop pushes. `(c >> 4) & 0xf` is the high half of the byte also where
-- `char` is signed and the shift keeps the sign.
identifier_bytes : ℕ → Bytes
unfolding isalnum hex_at
identifier_bytes c =
    if isalnum c then c ∷ [] else b'_' ∷ hex_at (c / 16 % 16) ∷ hex_at (c % 16) ∷ []

append_identifier : Bytes → Bytes → Bytes
append_identifier result [] = result
append_identifier result (c ∷ s) = append_identifier (result ++ identifier_bytes c) s

unfoldable pub filename_identifier : Bytes → Bytes
unfolding append_identifier identifier_bytes
filename_identifier filename = append_identifier [] filename

append_identifier-flat_map :
    (result s : Bytes) → append_identifier result s ≡ result ++ flat_map identifier_bytes s
unfolding append_identifier flat_map
append_identifier-flat_map result [] = sym (append-nil result)
append_identifier-flat_map result (c ∷ s) =
    append_identifier-flat_map (result ++ identifier_bytes c) s
    ∙ append_assoc result (identifier_bytes c) (flat_map identifier_bytes s)

-- A digit's value, the inverse of `hex_at`.
unhex : ℕ → ℕ
unhex c = if leb c b'9' then c - b'0' else c - 87

-- Reads an identifier back: `none` outside an escape, `some none` behind its underscore, and
-- `some (some h)` behind its first digit.
unfoldable pub decode : Option (Option ℕ) → Bytes → Bytes
unfolding unhex
decode state [] = []
decode none (c ∷ s) =
    let escape = decode (some none) s in
    let plain = c ∷ decode none s in if c == b'_' then escape else plain
decode (some none) (h ∷ s) = decode (some (some h)) s
decode (some (some h)) (l ∷ s) = (unhex h * 16 + unhex l) ∷ decode none s

digit_table : check_below (λ d. (unhex (hex_at d) == d) && (isalnum (hex_at d))) 16 ≡ true
unfolding check_below unhex hex_at isalnum
digit_table = refl

digit_lem : (d : ℕ) → d < 16 → (unhex (hex_at d) ≡ d) × (isalnum (hex_at d) ≡ true)
digit_lem d h = ground (arith, lt-check_below _ d 16 h digit_table)

digits_value : (c : ℕ) → c < 256 → c / 16 % 16 * 16 + c % 16 ≡ c
digits_value c h = omega arith

decode-identifier_bytes :
    (c : ℕ) (rest : Bytes)
    → c < 256
    → decode none (identifier_bytes c ++ rest) ≡ c ∷ decode none rest
unfolding decode identifier_bytes isalnum
decode-identifier_bytes c rest h = elim (Bool-cases (isalnum c)) [
  | inl e ↦ rw e (ground arith)
  | inr e ↦ rw e (
      ground (
        arith,
        digit_lem (c / 16 % 16) (omega arith),
        digit_lem (c % 16) (omega arith),
        digits_value c h,
      ))
]

abbrev pub IsByte : ℕ → Type 0
IsByte c = c < 256

decode-flat_map : (s : Bytes) → All IsByte s → decode none (flat_map identifier_bytes s) ≡ s
unfolding flat_map decode
decode-flat_map [] h = refl
decode-flat_map (c ∷ s) (h, hs) =
    decode-identifier_bytes c (flat_map identifier_bytes s) h
    ∙ ap (λ l. c ∷ l) (decode-flat_map s hs)

-- The file name can be read back from its identifier, so two file names never share one.
pub decode-filename_identifier :
    (filename : Bytes) → All IsByte filename → decode none (filename_identifier filename) ≡ filename
unfolding filename_identifier
decode-filename_identifier filename h = rw append_identifier-flat_map (decode-flat_map filename h)

-- What a C++ identifier may hold.
abbrev pub IsIdentifierByte : ℕ → Type 0
IsIdentifierByte c = ((isalnum c || c == b'_') ≡ true)

identifier_bytes-All : (c : ℕ) → All IsIdentifierByte (identifier_bytes c)
unfolding identifier_bytes
identifier_bytes-All c = elim (Bool-cases (isalnum c)) [
  | inl e ↦ rw e (rw e refl, tt)
  | inr e ↦ rw e (
    refl,
    (
      rw ((digit_lem (c / 16 % 16) (omega arith)).1) refl,
      (rw ((digit_lem (c % 16) (omega arith)).1) refl, tt),
    ),
  )
]

flat_map-All : (s : Bytes) → All IsIdentifierByte (flat_map identifier_bytes s)
unfolding flat_map
flat_map-All [] = tt
flat_map-All (c ∷ s) =
    All-append IsIdentifierByte (identifier_bytes c) (flat_map identifier_bytes s)
      (identifier_bytes-All c) (flat_map-All s)

-- Whatever the file name, its identifier holds letters, digits and underscores alone.
filename_identifier-All : (filename : Bytes) → All IsIdentifierByte (filename_identifier filename)
unfolding filename_identifier
filename_identifier-All filename = rw append_identifier-flat_map (flat_map-All filename)
