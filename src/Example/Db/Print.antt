-- ===== src/Example/Db/Print.antt =====
-- The form of the file that helper.cc asks for, with its spaces stripped, and how its numbers are read.
use grpc_cb.Base.{
  ℕ, zero, suc, ◌+◌, ◌-◌, ◌*◌, ◌/◌, ◌%◌, ◌≤◌, ◌≡◌, refl, ap, ◌∙◌, ◌≢◌, ◌⊎◌, inl, inr, some, List,
  [], ◌∷◌, ◌++◌, arith, Bytes, codes, ltb, Bool-cases, All, Lacks,
}
use grpc_cb.Base.Int.{ℤ, pos, negsuc}
use grpc_cb.Generator.Printing.{decimal, as_string}
use grpc_cb.Generator.Decimal.{value, value-as_string}
use grpc_cb.Example.Points.{Feature, IsInt32}
use grpc_cb.Example.Db.Numbers.{
  isspace, isdigit, digits_value, magnitude, positive, negative, signed_number, stol,
}
use grpc_cb.Example.Db.Parser.{number_text}

unfoldable pub print_number : ℤ → Bytes
print_number (pos n) = as_string n
print_number (negsuc n) = b'-' ∷ as_string (suc n)

-- A feature of the file.
pub record Entry : Type 0 where
  pub name : Bytes
  pub latitude : ℤ
  pub longitude : ℤ

abbrev pub feature_of : Entry → Feature
feature_of e = record {
  name = e.name;
  location = some (record { latitude = e.latitude; longitude = e.longitude });
}

abbrev pub print_entry : Entry → Bytes → Bytes
print_entry e rest =
    codes "{\"location\":{\"latitude\":"
    ++ (print_number e.latitude
        ++ (codes ",\"longitude\":"
            ++ (print_number e.longitude ++ (codes "},\"name\":\"" ++ (e.name ++ (b'"' ∷ rest))))))

abbrev pub print_entries : Entry → List Entry → Bytes
print_entries e [] = print_entry e (codes "}]")
print_entries e (e' ∷ es) = print_entry e (codes "}," ++ print_entries e' es)

-- A name that the parser can read, and coordinates that an `int32` can hold.
abbrev pub IsEntry : Entry → Type 0
IsEntry e = Lacks b'"' e.name × IsInt32 e.latitude × IsInt32 e.longitude

abbrev pub IsDigit : ℕ → Type 0
IsDigit c = (b'0' ≤ c) × (c ≤ b'9')

decimal-IsDigit : (fuel n : ℕ) (out : Bytes) → All IsDigit out → All IsDigit (decimal fuel n out)
unfolding decimal
decimal-IsDigit zero n out h = h
decimal-IsDigit (suc fuel) n out h = elim (Bool-cases (ltb n 10)) [
  | inl e ↦ rw (decimal, e) (omega arith, h)
  | inr e ↦ rw (decimal, e) (decimal-IsDigit fuel (n / 10) ((b'0' + n % 10) ∷ out) (omega arith, h))
]

as_string-IsDigit : (n : ℕ) → All IsDigit (as_string n)
unfolding as_string
as_string-IsDigit n = decimal-IsDigit (suc n) n [] tt

decimal-ne-nil : (fuel n : ℕ) (out : Bytes) → out ≢ [] → decimal fuel n out ≢ []
unfolding decimal
decimal-ne-nil zero n out h = h
decimal-ne-nil (suc fuel) n out h = elim (Bool-cases (ltb n 10)) [
  | inl e ↦ rw (decimal, e) (cc)
  | inr e ↦ rw (decimal, e) (decimal-ne-nil fuel (n / 10) ((b'0' + n % 10) ∷ out) (cc))
]

as_string-ne-nil : (n : ℕ) → as_string n ≢ []
unfolding as_string decimal
as_string-ne-nil n = elim (Bool-cases (ltb n 10)) [
  | inl e ↦ rw (decimal, e) (cc)
  | inr e ↦ rw (decimal, e) (decimal-ne-nil n (n / 10) ((b'0' + n % 10) ∷ []) (cc))
]

digits_value-value : (n : ℕ) (s : Bytes) → All IsDigit s → digits_value n s ≡ value n s
unfolding digits_value isdigit
digits_value-value n [] h = refl
digits_value-value n (c ∷ s) (h, hs) = ground (arith, digits_value-value (n * 10 + (c - b'0')) s hs)

magnitude-digits : (s : Bytes) → s ≢ [] → All IsDigit s → magnitude s ≡ some (value 0 s)
unfolding magnitude isdigit
magnitude-digits [] h k = absurd (h refl)
magnitude-digits (c ∷ s) h k = ground (arith, digits_value-value 0 (c ∷ s) k)

magnitude-as_string : (n : ℕ) → magnitude (as_string n) ≡ some n
magnitude-as_string n =
    magnitude-digits (as_string n) (as_string-ne-nil n) (as_string-IsDigit n)
    ∙ ap some (value-as_string n)

stol_digits : (s : Bytes) → s ≢ [] → All IsDigit s → stol s ≡ positive (magnitude s)
unfolding stol isspace signed_number
stol_digits [] h k = absurd (h refl)
stol_digits (c ∷ s) h k = ground arith

pub stol-print_number : (z : ℤ) → IsInt32 z → stol (print_number z) ≡ some z
unfolding print_number
stol-print_number (pos n) h =
    stol_digits (as_string n) (as_string-ne-nil n) (as_string-IsDigit n)
    ∙ rw (magnitude-as_string n) (unfold positive in ground arith)
stol-print_number (negsuc n) h =
    unfold stol isspace signed_number in
    rw (magnitude-as_string (suc n)) (unfold negative in ground arith)

number_text-digits :
    (s rest : Bytes) (c : ℕ)
    → All IsDigit s
    → (c ≡ b',') ⊎ (c ≡ b'}')
    → number_text (s ++ c ∷ rest) ≡ s
unfolding number_text
number_text-digits [] rest c h k = ground arith
number_text-digits (d ∷ s) rest c (h, hs) k = ground (arith, number_text-digits s rest c hs k)

pub number_text-print_number :
    (z : ℤ) (rest : Bytes) (c : ℕ)
    → (c ≡ b',') ⊎ (c ≡ b'}')
    → number_text (print_number z ++ c ∷ rest) ≡ print_number z
unfolding print_number number_text
number_text-print_number (pos n) rest c k =
    number_text-digits (as_string n) rest c (as_string-IsDigit n) k
number_text-print_number (negsuc n) rest c k =
    ap (λ l. b'-' ∷ l) (number_text-digits (as_string (suc n)) rest c (as_string-IsDigit (suc n)) k)
