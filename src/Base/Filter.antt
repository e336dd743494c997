-- ===== src/Base/Filter.antt =====
-- The elements of a list that pass a test.
use mathlib.Core.Path.{◌≡◌, refl}
use mathlib.Core.Logic.{inl, inr}
use mathlib.Core.Bool.{Bool}
use mathlib.Core.List.{List, [], ◌∷◌, ◌++◌}
use Prim.Native.Nat.{◌≤◌, ◌+◌}
use native.Mathlib.Omega.{arith}
use grpc_cb.Base.Lists.{length}
use grpc_cb.Base.Tests.{Bool-cases, if◌then◌else◌}

module _ {ℓ} {A : Type ℓ} (p : A → Bool) where
  abbrev pub filter : List A → List A
  filter [] = []
  filter (x ∷ xs) = let rest = filter xs in if p x then x ∷ rest else rest

  pub filter-append : (xs ys : List A) → filter (xs ++ ys) ≡ filter xs ++ filter ys
  filter-append [] ys = refl
  filter-append (x ∷ xs) ys = elim (Bool-cases (p x)) [
    | inl e ↦ rw (e, filter-append xs ys) refl
    | inr e ↦ rw (e, filter-append xs ys) refl
  ]

  pub length-filter : (xs : List A) → length (filter xs) ≤ length xs
  length-filter [] = omega arith
  length-filter (x ∷ xs) = ground (arith, length-filter xs)

  pub length-filter_cons :
      (x : A) (xs : List A)
      → length (filter (x ∷ xs)) ≡ length (filter (x ∷ [])) + length (filter xs)
  length-filter_cons x xs = ground arith
