-- ===== src/Example/Db/Numbers.antt =====
-- `std::stol` and `isspace`, as helper.cc uses them: base 10, the "C" locale, a `long` of 64 bits.
use grpc_cb.Base.{
  ℕ, zero, suc, ◌+◌, ◌-◌, ◌*◌, ◌^◌, Bool, ◌&&◌, ◌||◌, Option, none, some, [], ◌∷◌, Bytes, ◌==◌, ltb,
  leb, if◌then◌else◌,
}
use grpc_cb.Base.Int.{ℤ, pos, negsuc}

unfoldable pub isspace : ℕ → Bool
isspace c = c == 32 || (leb 9 c && leb c 13)

unfoldable pub isdigit : ℕ → Bool
isdigit c = leb b'0' c && leb c b'9'

-- The number that the digits at the front spell behind `n`; what follows them is not read.
unfoldable pub digits_value : ℕ → Bytes → ℕ
unfolding isdigit
digits_value n [] = n
digits_value n (c ∷ s) = if isdigit c then digits_value (n * 10 + (c - b'0')) s else n

-- The number without its sign; `none` if no digit stands at the front.
unfoldable pub magnitude : Bytes → Option ℕ
unfolding digits_value
magnitude [] = none
magnitude (c ∷ s) = if isdigit c then some (digits_value 0 (c ∷ s)) else none

unfoldable pub positive : Option ℕ → Option ℤ
positive none = none
positive (some n) = if ltb n (2 ^ 63) then some (pos n) else none

unfoldable pub negative : Option ℕ → Option ℤ
negative none = none
negative (some zero) = some (pos 0)
negative (some (suc n)) = if ltb n (2 ^ 63) then some (negsuc n) else none

unfoldable pub signed_number : Bytes → Option ℤ
unfolding magnitude positive negative
signed_number [] = none
signed_number (c ∷ s) =
    if c == b'-'
    then negative (magnitude s)
    else if c == b'+'
    then positive (magnitude s)
    else positive (magnitude (c ∷ s))

-- `none` is an exception: no digits, or a number that is no `long`.
unfoldable pub stol : Bytes → Option ℤ
unfolding isspace signed_number
stol [] = none
stol (c ∷ s) = if isspace c then stol s else signed_number (c ∷ s)
