-- ===== src/Generator/Decimal.antt =====
-- `as_string`: the decimal text of an index, and its value.
use grpc_cb.Base.{
  ℕ, zero, suc, ◌+◌, ◌-◌, ◌*◌, ◌/◌, ◌%◌, ◌<◌, ◌≡◌, ap, ◌∙◌, inl, inr, [], ◌∷◌, arith, Bytes, ltb,
  ltb→lt, Bool-cases,
}
use grpc_cb.Generator.Printing.{decimal, as_string}

-- The number that digits spell behind `n`.
abbrev pub value : ℕ → Bytes → ℕ
value n [] = n
value n (c ∷ s) = value (n * 10 + (c - b'0')) s

value-decimal : (fuel n : ℕ) (out : Bytes) → n < fuel → value 0 (decimal fuel n out) ≡ value n out
unfolding decimal
value-decimal zero n out h = elim h [ ]
value-decimal (suc fuel) n out h = elim (Bool-cases (ltb n 10)) [
  | inl e ↦ rw (decimal, e) (ap (λ k. value k out) (last_digit n (ltb→lt n 10 e)))
  | inr e ↦
      rw (decimal, e)
        (value-decimal fuel (n / 10) ((b'0' + n % 10) ∷ out) (ground arith)
          ∙ ap (λ k. value k out) (next_digit n))
]
  where
    last_digit : (n : ℕ) → n < 10 → 0 * 10 + (b'0' + n % 10 - b'0') ≡ n
    last_digit n h = omega arith

    next_digit : (n : ℕ) → n / 10 * 10 + (b'0' + n % 10 - b'0') ≡ n
    next_digit n = omega arith

-- The decimal text of a number spells that number, so different indices have different texts.
pub value-as_string : (n : ℕ) → value 0 (as_string n) ≡ n
unfolding as_string
value-as_string n = value-decimal (suc n) n [] (omega arith)
