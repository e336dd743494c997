-- ===== src/Example/Db/Cursor.antt =====
-- How each step of the parser of helper.cc moves over the text that it has yet to read.
use grpc_cb.Base.{
  ℕ, zero, suc, ◌+◌, ◌-◌, ◌≤◌, ◌≡◌, refl, sym, ap, ◌∙◌, ◌⊎◌, inl, inr, true, false, some, List, [],
  ◌∷◌, ◌++◌, arith, Bytes, codes, bytes_eq, bytes_eq_iff, ◌==◌, length, get_elem?, take, drop,
  length-append, take-length-append, drop-length-append, Lacks,
}
use grpc_cb.Base.{drop_nil, ==_iff}
use native.Mathlib.Nat.{suc-add}
use grpc_cb.Base.Int.{ℤ}
use grpc_cb.Example.Points.{Feature, IsInt32}
use grpc_cb.Example.Db.Parser.{
  done, Parser, match, match_all, number_text, read_long, name_length, finish_one,
}
use grpc_cb.Example.Db.Print.{print_number, stol-print_number, number_text-print_number}

drop-add {ℓ} : {A : Type ℓ} (n m : ℕ) (xs : List A) → drop (n + m) xs ≡ drop m (drop n xs)
drop-add zero m xs = ap (λ k. drop k xs) (omega arith)
drop-add (suc n) m [] = drop_nil (suc n + m) ∙ sym (drop_nil m)
drop-add (suc n) m (x ∷ xs) = ap (λ k. drop k (x ∷ xs)) (suc-add n m) ∙ drop-add n m xs

pub drop-len {ℓ} :
    {A : Type ℓ} (n : ℕ) (xs : List A) → n ≤ length xs → n + length (drop n xs) ≡ length xs
drop-len zero xs h = omega arith
drop-len (suc n) [] h = absurd (omega arith)
drop-len (suc n) (x ∷ xs) h = omega (arith, drop-len n xs)

-- What the parser has yet to read.
pub record Reads (p : Parser) (rest : Bytes) : Type 0 where
  pub left : drop p.current p.db ≡ rest
  pub within : p.current ≤ length p.db

abbrev pub move : ℕ → Parser → Parser
move n p = record p { current = p.current + n }

pub Reads-length :
    {p : Parser} {rest : Bytes} → Reads p rest → p.current + length rest ≡ length p.db
Reads-length {p} {rest} r = omega (arith, drop-len p.current p.db r.within, ap length r.left)

pub move-Reads :
    (p : Parser) (a rest : Bytes) → Reads p (a ++ rest) → Reads (move (length a) p) rest
move-Reads p a rest r = record {
  left =
      drop-add p.current (length a) p.db ∙ ap (drop (length a)) r.left ∙ drop-length-append a rest;
  within = omega (arith, Reads-length r, length-append a rest);
}

match-true :
    (p : Parser) (a rest : Bytes) → Reads p (a ++ rest) → match a p ≡ done (true, move (length a) p)
unfolding match
match-true p a rest r =
    rw (r.left, take-length-append a rest, (bytes_eq_iff a a).1 refl) (ground arith)

abbrev total : List Bytes → ℕ → ℕ
total [] n = n
total (a ∷ as') n = total as' (n + length a)

-- The prefixes in front of a text.
abbrev spell : List Bytes → Bytes → Bytes
spell [] rest = rest
spell (a ∷ as') rest = a ++ spell as' rest

pub match_all-true :
    (as' : List Bytes) (p : Parser) (rest : Bytes)
    → Reads p (spell as' rest)
    → (p' : Parser) × (match_all as' p ≡ done (true, p')) × Reads p' rest × (p'.failed ≡ p.failed)
unfolding match_all
match_all-true [] p rest r = (p, refl, r, refl)
match_all-true (a ∷ as') p rest r =
    let (p', e, r', f) =
      match_all-true as' (move (length a) p) rest (move-Reads p a (spell as' rest) r) in
    (p', rw (match_all, match-true p a (spell as' rest) r) e, r', f)

pub read_long-print_number :
    (z : ℤ) (p : Parser) (c : ℕ) (rest : Bytes)
    → IsInt32 z
    → (c ≡ b',') ⊎ (c ≡ b'}')
    → Reads p (print_number z ++ c ∷ rest)
    → (p' : Parser) × (read_long p ≡ done (z, p')) × Reads p' (c ∷ rest) × (p'.failed ≡ p.failed)
unfolding read_long
read_long-print_number z p c rest h k r =
    let text : number_text (drop p.current p.db) ≡ print_number z =
      ap number_text r.left ∙ number_text-print_number z rest c k in
    (
      move (length (print_number z)) p,
      rw (read_long, text, stol-print_number z h)
          (ap (λ l. done (z, record p { current = p.current + length l })) text),
      move-Reads p (print_number z) (c ∷ rest) r,
      refl,
    )

pub name_length-quote :
    (name rest : Bytes) → Lacks b'"' name → name_length (name ++ b'"' ∷ rest) ≡ length name + 1
unfolding name_length
name_length-quote [] rest h = refl
name_length-quote (c ∷ s) rest (h, hs) = ground (arith, name_length-quote s rest hs)

pub take-length_of : (name rest : Bytes) (n : ℕ) → n ≡ length name → take n (name ++ rest) ≡ name
take-length_of name rest n e = rw e (take-length-append name rest)

-- The end of a feature, behind its name: a comma and another feature, or the end of the list.
abbrev pub IsEnd : Bytes → Bytes → Type 0
IsEnd end rest = (end ≡ codes "}," ++ rest) ⊎ ((end ≡ codes "}]") × (rest ≡ []))

get_elem?-drop {ℓ} :
    {A : Type ℓ} (n i k : ℕ) (xs : List A) → k ≡ n + i → get_elem? xs k ≡ get_elem? (drop n xs) i
get_elem?-drop zero i k xs e = ap (get_elem? xs) (omega (arith, e))
get_elem?-drop (suc n) i zero xs e = absurd (omega arith)
get_elem?-drop (suc n) i (suc k) [] e = refl
get_elem?-drop (suc n) i (suc k) (x ∷ xs) e = get_elem?-drop n i k xs (omega arith)

match-last : (p : Parser) → Reads p (codes "}]") → match (codes "},") p ≡ done (false, move 2 p)
unfolding match bytes_eq
match-last p r = rw (r.left) (ground arith)

finish_one-last :
    (f : Feature) (p : Parser)
    → Reads p (codes "}]")
    → finish_one f (done (false, move 2 p)) ≡ done (true, f, move 2 p)
unfolding finish_one
finish_one-last f p r =
    let last : get_elem? p.db (p.current + 2 - 1) ≡ some b']' =
      get_elem?-drop p.current 1 (p.current + 2 - 1) p.db (omega arith)
      ∙ ap (λ l. get_elem? l 1) r.left in
    let end : (p.current + 2) == length p.db ≡ true =
      (==_iff (p.current + 2) (length p.db)).1 (Reads-length r) in
    ground arith

pub finish_one-end :
    (f : Feature) (p : Parser) (end rest : Bytes)
    → Reads p end
    → IsEnd end rest
    → (p' : Parser) × (finish_one f (match (codes "},") p) ≡ done (true, f, p'))
      × Reads p' rest
      × (p'.failed ≡ p.failed)
unfolding finish_one
finish_one-end f p end rest r (inl e) =
    let r' : Reads p (codes "}," ++ rest) = record { left = r.left ∙ e; within = r.within } in
    (move 2 p, rw (match-true p (codes "},") rest r') refl, move-Reads p (codes "},") rest r', refl)
finish_one-end f p end rest r (inr (e, z)) =
    let r' : Reads p (codes "}]") = record { left = r.left ∙ e; within = r.within } in
    (
      move 2 p,
      rw (match-last p r') (finish_one-last f p r'),
      record {
        left = (move-Reads p (codes "}]") [] r').left ∙ sym z;
        within = (move-Reads p (codes "}]") [] r').within;
      },
      refl,
    )
