-- ===== src/Helpers/Replace/Dots.antt =====
-- Replacing one byte: `DotsToColons` and `DotsToUnderscores`.
use grpc_cb.Base.{
  ℕ, ◌≡◌, refl, sym, ap, ◌∙◌, true, some, [], ◌∷◌, ◌++◌, flat_map, arith, Bytes, codes, ◌==◌,
  if◌then◌else◌, All-append, Lacks,
}
use grpc_cb.Helpers.Replace.{string_replace, dots_to_colons, dots_to_underscores}
use grpc_cb.Helpers.Replace.Leftmost.{
  Absent, IsFirst, Replaced, absent, present, string_replace-Replaced,
}

-- One byte replaced by a text, everywhere.
abbrev pub substitute : ℕ → Bytes → ℕ → Bytes
substitute c to x = if x == c then to else x ∷ []

flat_map-Absent : (c : ℕ) (to s : Bytes) → Absent (c ∷ []) s → flat_map (substitute c to) s ≡ s
unfolding flat_map
flat_map-Absent c to [] h = refl
flat_map-Absent c to (x ∷ s) h =
    ground (arith, h [] s, flat_map-Absent c to s (λ a b e. h (x ∷ a) b (ap (λ l. x ∷ l) e)))

flat_map-IsFirst :
    (c : ℕ) (to a b : Bytes)
    → IsFirst (c ∷ []) (a ++ c ∷ b) a
    → flat_map (substitute c to) (a ++ c ∷ b) ≡ a ++ (to ++ flat_map (substitute c to) b)
unfolding flat_map
flat_map-IsFirst c to [] b h = ground arith
flat_map-IsFirst c to (x ∷ a) b h = ground (
  arith,
  h [] (a ++ c ∷ b),
  flat_map-IsFirst c to a b (λ a' b' e. omega (arith, h (x ∷ a') b' (ap (λ l. x ∷ l) e))),
)

flat_map-Replaced :
    (c : ℕ) (to : Bytes) {s t : Bytes} → Replaced (c ∷ []) to s t → t ≡ flat_map (substitute c to) s
flat_map-Replaced c to (absent s h) = sym (flat_map-Absent c to s h)
flat_map-Replaced c to (present s a b t r e first rep e') =
    e' ∙ rw (e, flat_map-IsFirst c to a b (rw e at first), flat_map-Replaced c to rep)

-- Replacing a single byte returns, with each of its occurrences replaced and the rest kept.
string_replace-byte :
    (c : ℕ) (str to : Bytes)
    → string_replace str (c ∷ []) to true ≡ some (flat_map (substitute c to) str)
string_replace-byte c str to =
    let (t, e, rep) = string_replace-Replaced str (c ∷ []) to (cc) in
    e ∙ ap some (flat_map-Replaced c to rep)

substitute-Lacks : (c x : ℕ) (to : Bytes) → Lacks c to → Lacks c (substitute c to x)
substitute-Lacks c x to h = ground arith

flat_map-Lacks : (c : ℕ) (to s : Bytes) → Lacks c to → Lacks c (flat_map (substitute c to) s)
unfolding flat_map
flat_map-Lacks c to [] h = tt
flat_map-Lacks c to (x ∷ s) h =
    All-append (λ y. (y ≡ c) → ⊥) (substitute c to x) (flat_map (substitute c to) s)
      (substitute-Lacks c x to h) (flat_map-Lacks c to s h)

dots_to_colons-flat_map :
    (name : Bytes) → dots_to_colons name ≡ flat_map (substitute b'.' (codes "::")) name
unfolding dots_to_colons
dots_to_colons-flat_map name = rw (string_replace-byte b'.' name (codes "::"))

pub dots_to_underscores-flat_map :
    (name : Bytes) → dots_to_underscores name ≡ flat_map (substitute b'.' (codes "_")) name
unfolding dots_to_underscores
dots_to_underscores-flat_map name = rw (string_replace-byte b'.' name (codes "_"))

-- No dot is left in a name that `DotsToColons` or `DotsToUnderscores` returns.
dots_to_colons-Lacks :
    (name : Bytes) → Lacks b'.' (dots_to_colons name) × Lacks b'.' (dots_to_underscores name)
dots_to_colons-Lacks name = (
  rw dots_to_colons-flat_map (flat_map-Lacks b'.' (codes "::") name (omega arith)),
  rw dots_to_underscores-flat_map (flat_map-Lacks b'.' (codes "_") name (omega arith)),
)
