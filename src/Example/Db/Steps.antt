-- ===== src/Example/Db/Steps.antt =====
-- How far each step of the parser of helper.cc comes, and what it stores.
use grpc_cb.Base.{
  bytes_eq_iff, sym, ap, ℕ, zero, suc, ◌+◌, ◌-◌, ◌≤◌, ◌≡◌, refl, ◌⊎◌, inl, inr, Bool, true, false,
  ◌&&◌, List, [], ◌∷◌, arith, Bytes, codes, ◌==◌, ltb, Bool-cases, Option-cases, length, take, drop,
}
use grpc_cb.Example.Points.{Feature, location_of, to_int32-IsInt32, IsStored}
use mathlib.Core.Path.{subst}
use grpc_cb.Base.Int.{ℤ}
use grpc_cb.Example.Db.Numbers.{stol}
use grpc_cb.Example.Db.Cursor.{drop-len}
use grpc_cb.Example.Db.Parser.{
  Exception, stol_failed, Outcome, done, raised, Parser, match, match_all, number_text, read_long,
  name_length, set_latitude, set_longitude, byte_at, finish_one, parse_name, after_longitude,
  parse_longitude, after_latitude, parse_latitude,
}

-- What holds of a result; an exception, if there is one, is that of `stol`.
abbrev pub Holds {ℓ} : {A : Type ℓ} → (A → Type 0) → Outcome A → Type 0
Holds P (raised e) = e ≡ stol_failed
Holds P (done a) = P a

-- The parser stands over this text, at this place or behind it, and if the last test has succeeded, not
-- behind the end.
abbrev pub IsPast : Bytes → ℕ → Bool → Parser → Type 0
IsPast db n ok p = (p.db ≡ db) × (n ≤ p.current) × (ok ≡ true → p.current ≤ length db)

abbrev pub IsRead : Bytes → ℕ → Bool × Feature × Parser → Type 0
IsRead db n r = IsPast db n r.0 r.2 × IsStored (location_of r.1)

pub Outcome-cases {ℓ} :
    {A : Type ℓ} (o : Outcome A) → ((e : Exception) × (o ≡ raised e)) ⊎ ((a : A) × (o ≡ done a))
Outcome-cases (raised e) = inl (e, refl)
Outcome-cases (done a) = inr (a, refl)

pub Holds-done {ℓ} :
    {A : Type ℓ} (P : A → Type 0) (o : Outcome A) (a : A) → o ≡ done a → Holds P o → P a
Holds-done P o a e h = subst (Holds P) e h

pub Holds-raised {ℓ} :
    {A : Type ℓ} (P : A → Type 0) (o : Outcome A) (x : Exception)
    → o ≡ raised x
    → Holds P o
    → x ≡ stol_failed
Holds-raised P o x e h = subst (Holds P) e h

take-short : (n : ℕ) (xs : Bytes) → length (take n xs) ≤ length xs
take-short zero xs = omega arith
take-short (suc n) [] = omega arith
take-short (suc n) (x ∷ xs) = omega (arith, take-short n xs)

number_text-short : (s : Bytes) → length (number_text s) ≤ length s
unfolding number_text
number_text-short [] = omega arith
number_text-short (c ∷ s) = ground (arith, number_text-short s)

name_length-short : (s : Bytes) → name_length s ≤ length s
unfolding name_length
name_length-short [] = omega arith
name_length-short (c ∷ s) = ground (arith, name_length-short s)

take-drop_within :
    (n : ℕ) (xs prefix : Bytes)
    → n ≤ length xs
    → take (length prefix) (drop n xs) ≡ prefix
    → n + length prefix ≤ length xs
take-drop_within n xs prefix h e =
    omega (arith, drop-len n xs h, ap length e, take-short (length prefix) (drop n xs))

match-IsPast :
    (db : Bytes) (n : ℕ) (prefix : Bytes) (p : Parser)
    → IsPast db n true p
    → Holds (λ r. IsPast db (n + length prefix) r.0 r.1) (match prefix p)
unfolding match
match-IsPast db n prefix p (d, h, w) =
    let near : ltb (length p.db) p.current ≡ false = ground (arith, w refl, ap length d) in
    rw (match, near)
      (
        d,
        omega arith,
        λ t. rw (sym d) (
            take-drop_within p.current p.db prefix (omega (arith, w refl, ap length d))
              ((bytes_eq_iff (take (length prefix) (drop p.current p.db)) prefix).0 t)),
      )

match_all-IsPast :
    (db : Bytes) (n : ℕ) (as' : List Bytes) (p : Parser)
    → IsPast db n true p
    → Holds (λ r. IsPast db n r.0 r.1) (match_all as' p)
unfolding match_all
match_all-IsPast db n [] p h = h
match_all-IsPast db n (a ∷ as') p h = elim (Outcome-cases (match a p)) [
  | inl (x, e) ↦ rw (match_all, e) (Holds-raised _ (match a p) x e (match-IsPast db n a p h))
  | inr ((eq, p'), e) ↦
      let (d, far, w) = Holds-done _ (match a p) (eq, p') e (match-IsPast db n a p h) in
      elim (Bool-cases eq) [
        | inl t ↦ rw (match_all, e, t) (match_all-IsPast db n as' p' (d, omega arith, λ _. w t))
        | inr t ↦ rw (match_all, e, t) (d, omega arith, λ c. absurd (cc))
      ]
]

pub match_all-first :
    (db : Bytes) (n : ℕ) (a : Bytes) (as' : List Bytes) (p : Parser)
    → IsPast db n true p
    → Holds (λ r. IsPast db (n + length a) r.0 r.1) (match_all (a ∷ as') p)
unfolding match_all
match_all-first db n a as' p h = elim (Outcome-cases (match a p)) [
  | inl (x, e) ↦ rw (match_all, e) (Holds-raised _ (match a p) x e (match-IsPast db n a p h))
  | inr ((eq, p'), e) ↦
      let (d, far, w) = Holds-done _ (match a p) (eq, p') e (match-IsPast db n a p h) in
      elim (Bool-cases eq) [
        | inl t ↦
            rw (match_all, e, t) (match_all-IsPast db (n + length a) as' p' (d, far, λ _. w t))
        | inr t ↦ rw (match_all, e, t) (d, far, λ c. absurd (cc))
      ]
]

module _ (db : Bytes) (n : ℕ) where
  match-IsPast-weak :
      (prefix : Bytes) (p : Parser)
      → IsPast db n true p
      → Holds (λ r. IsPast db n r.0 r.1) (match prefix p)
  match-IsPast-weak prefix p h = elim (Outcome-cases (match prefix p)) [
    | inl (x, e) ↦ rw e (Holds-raised _ (match prefix p) x e (match-IsPast db n prefix p h))
    | inr (r, e) ↦
        let (d, far, w) = Holds-done _ (match prefix p) r e (match-IsPast db n prefix p h) in
        rw e (d, omega arith, w)
  ]

  read_long-IsPast :
      (p : Parser) → IsPast db n true p → Holds (λ r. IsPast db n true r.1) (read_long p)
  unfolding read_long
  read_long-IsPast p (d, h, w) = elim (Option-cases (stol (number_text (drop p.current p.db)))) [
    | inl e ↦ rw (read_long, e) refl
    | inr (l, e) ↦
        let inside : p.current ≤ length p.db = omega (arith, w refl, ap length d) in
        let end : p.current + length (number_text (drop p.current p.db)) ≤ length db = omega (
          arith,
          ap length d,
          drop-len p.current p.db inside,
          number_text-short (drop p.current p.db),
        ) in
        rw (read_long, e) (d, omega arith, λ _. end)
  ]

  finish_one-IsRead :
      (f : Feature) (o : Outcome (Bool × Parser))
      → IsStored (location_of f)
      → Holds (λ r. IsPast db n r.0 r.1) o
      → Holds (IsRead db n) (finish_one f o)
  unfolding finish_one
  finish_one-IsRead f (raised e) s h = h
  finish_one-IsRead f (done (true, p)) s h = (h, s)
  finish_one-IsRead f (done (false, p)) s h =
      elim (Bool-cases (byte_at p.db (p.current - 1) == b']' && p.current == length p.db)) [
        | inl e ↦ rw e ((h.0, h.1, λ _. ground (arith, ap length h.0)), s)
        | inr e ↦ rw e (h, s)
      ]

  parse_name-IsRead :
      (f : Feature) (o : Outcome (Bool × Parser))
      → IsStored (location_of f)
      → Holds (λ r. IsPast db n r.0 r.1) o
      → Holds (IsRead db n) (parse_name f o)
  unfolding parse_name
  parse_name-IsRead f (raised e) s h = h
  parse_name-IsRead f (done (false, p)) s h = (h, s)
  parse_name-IsRead f (done (true, p)) s (d, h, w) =
      let read = name_length (drop p.current p.db) in
      let at_end : Parser = record p { current = p.current + read } in
      let inside : p.current ≤ length p.db = omega (arith, w refl, ap length d) in
      let end : p.current + read ≤ length db = omega (
        arith,
        ap length d,
        drop-len p.current p.db inside,
        name_length-short (drop p.current p.db),
      ) in
      let past : IsPast db n true at_end = (d, omega arith, λ _. end) in
      elim (Bool-cases (at_end.current == length p.db)) [
        | inl e ↦ rw e ((d, omega arith, λ c. absurd (cc)), s)
        | inr e ↦ rw e (
            finish_one-IsRead (record f { name = take (read - 1) (drop p.current p.db) }) _ s
              (match-IsPast-weak (codes "},") at_end past))
      ]

  after_longitude-IsRead :
      (f : Feature) (o : Outcome (ℤ × Parser))
      → IsStored (location_of f)
      → Holds (λ r. IsPast db n true r.1) o
      → Holds (IsRead db n) (after_longitude f o)
  unfolding after_longitude
  after_longitude-IsRead f (raised e) s h = h
  after_longitude-IsRead f (done (l, p)) s h =
      parse_name-IsRead (set_longitude l f) _ (s.0, to_int32-IsInt32 l)
        (match_all-IsPast db n (codes "}," ∷ codes "\"name\":" ∷ codes "\"" ∷ []) p h)

  parse_longitude-IsRead :
      (f : Feature) (o : Outcome (Bool × Parser))
      → IsStored (location_of f)
      → Holds (λ r. IsPast db n r.0 r.1) o
      → Holds (IsRead db n) (parse_longitude f o)
  unfolding parse_longitude
  parse_longitude-IsRead f (raised e) s h = h
  parse_longitude-IsRead f (done (false, p)) s h = (h, s)
  parse_longitude-IsRead f (done (true, p)) s h =
      after_longitude-IsRead f _ s (read_long-IsPast p h)

  after_latitude-IsRead :
      (f : Feature) (o : Outcome (ℤ × Parser))
      → IsStored (location_of f)
      → Holds (λ r. IsPast db n true r.1) o
      → Holds (IsRead db n) (after_latitude f o)
  unfolding after_latitude
  after_latitude-IsRead f (raised e) s h = h
  after_latitude-IsRead f (done (l, p)) s h =
      parse_longitude-IsRead (set_latitude l f) _ (to_int32-IsInt32 l, s.1)
        (match_all-IsPast db n (codes "," ∷ codes "\"longitude\":" ∷ []) p h)

  pub parse_latitude-IsRead :
      (f : Feature) (o : Outcome (Bool × Parser))
      → IsStored (location_of f)
      → Holds (λ r. IsPast db n r.0 r.1) o
      → Holds (IsRead db n) (parse_latitude f o)
  unfolding parse_latitude
  parse_latitude-IsRead f (raised e) s h = h
  parse_latitude-IsRead f (done (false, p)) s h = (h, s)
  parse_latitude-IsRead f (done (true, p)) s h = after_latitude-IsRead f _ s (read_long-IsPast p h)
