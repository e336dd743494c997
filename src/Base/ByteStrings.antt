-- ===== src/Base/ByteStrings.antt =====
-- Byte strings: a `std::string` is the list of its bytes, and a text literal spells its bytes.
use Prim.Native.Nat.{ℕ}
use Prim.Native.Char.{code}
use Prim.Native.String.{String}
use mathlib.Core.Path.{◌≡◌}
use mathlib.Core.Logic.{◌↔◌}
use mathlib.Core.Bool.{Bool, true, false, ◌&&◌}
use mathlib.Core.List.{List, [], ◌∷◌}
use native.Mathlib.Omega.{arith}
use grpc_cb.Base.Tests.{◌==◌}
use grpc_cb.Base.Lists.{All}

abbrev pub Bytes : Type 0
Bytes = List ℕ

-- The code points of a literal, which are its bytes where the text is ASCII.
abbrev pub codes : String → Bytes
codes String.[] = []
codes (String.◌∷◌ c s) = code c ∷ codes s

-- `==` of two strings.
unfoldable pub bytes_eq : Bytes → Bytes → Bool
bytes_eq [] [] = true
bytes_eq (a ∷ as') (b ∷ bs) = a == b && bytes_eq as' bs
bytes_eq _ _ = false

pub bytes_eq_iff : (s t : Bytes) → (bytes_eq s t ≡ true) ↔ (s ≡ t)
unfolding bytes_eq
bytes_eq_iff [] [] = ground arith
bytes_eq_iff [] (b ∷ t) = ground arith
bytes_eq_iff (a ∷ s) [] = ground arith
bytes_eq_iff (a ∷ s) (b ∷ t) = ground (arith, bytes_eq_iff s t)

-- The text begins with the given bytes.
unfoldable pub starts_with : Bytes → Bytes → Bool
starts_with [] s = true
starts_with (a ∷ p) (b ∷ s) = a == b && starts_with p s
starts_with (a ∷ p) [] = false

-- No byte of the text is the given one.
abbrev pub Lacks : ℕ → Bytes → Type 0
Lacks b = All (λ c. (c ≡ b) → ⊥)
