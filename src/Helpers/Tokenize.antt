-- ===== src/Helpers/Tokenize.antt =====
-- `tokenize` of src/compiler/generator_helpers.h: the loop over positions, and what it computes.
pub mod Joined
use grpc_cb.Base.{
  ℕ, zero, suc, ◌+◌, ◌-◌, ◌<◌, ◌≡◌, refl, ap, ◌∙◌, inl, inr, Bool, false, ◌||◌, Option, none, some,
  List, [], ◌∷◌, ◌++◌, append-nil, append_assoc, arith, Bytes, ◌==◌, Bool-cases, Option-cases,
  if◌then◌else◌, length, take, drop, length-append, take-length-append, drop-length-append,
}

unfoldable pub contains : Bytes → ℕ → Bool
contains [] c = false
contains (d ∷ ds) c = d == c || contains ds c

-- `find_first_of`: the first position from `pos` on that holds one of the delimiters.
search_of : Bytes → Bytes → ℕ → Option ℕ
search_of delimiters [] i = none
search_of delimiters (c ∷ s) i =
    if contains delimiters c then some i else search_of delimiters s (suc i)

find_first_of : Bytes → Bytes → ℕ → Option ℕ
unfolding search_of
find_first_of input delimiters pos = search_of delimiters (drop pos input) pos

abbrev substr : Bytes → ℕ → ℕ → Bytes
substr s pos n = take n (drop pos s)

-- The `for` loop, on fuel: `none` stands for a loop that has not returned.
tokenize_loop : ℕ → Bytes → Bytes → ℕ → List Bytes → Option (List Bytes)
unfolding find_first_of
tokenize_loop zero input delimiters last_pos tokens = none
tokenize_loop (suc fuel) input delimiters last_pos tokens =
    elim (find_first_of input delimiters last_pos) [
      | none ↦ some (tokens ++ substr input last_pos (length input - last_pos) ∷ [])
      | some pos ↦
          tokenize_loop fuel input delimiters (pos + 1)
            (tokens ++ substr input last_pos (pos - last_pos) ∷ [])
    ]

abbrev or_nil : Option (List Bytes) → List Bytes
or_nil none = []
or_nil (some tokens) = tokens

-- The fuel is enough for every input, by `tokenize-pieces`.
unfoldable pub tokenize : Bytes → Bytes → List Bytes
unfolding tokenize_loop contains
tokenize input delimiters = or_nil (tokenize_loop (suc (length input)) input delimiters 0 [])

-- The parts of a text between delimiters, by recursion on the text.
abbrev cons_head : ℕ → List Bytes → List Bytes
cons_head c [] = (c ∷ []) ∷ []
cons_head c (p ∷ ps) = (c ∷ p) ∷ ps

unfoldable pub pieces : Bytes → Bytes → List Bytes
pieces delimiters [] = [] ∷ []
pieces delimiters (c ∷ s) =
    if contains delimiters c then [] ∷ pieces delimiters s else cons_head c (pieces delimiters s)

take-length : (s : Bytes) → take (length s) s ≡ s
take-length s = rw append-nil at (take-length-append s [])

rest_length : (s t : Bytes) → length (s ++ t) - length s ≡ length t
rest_length s t = omega (arith, length-append s t)

add-sub : (a b : ℕ) → a + b - a ≡ b
add-sub a b = omega arith

module _ (delimiters : Bytes) where
  search_of-none :
      (s : Bytes) (i : ℕ) → search_of delimiters s i ≡ none → pieces delimiters s ≡ s ∷ []
  unfolding search_of pieces
  search_of-none [] i h = refl
  search_of-none (c ∷ s) i h = ground (arith, search_of-none s (suc i))

  -- The text around the first delimiter.
  record Cut (s : Bytes) (i p : ℕ) : Type 0 where
    before : Bytes
    delimiter : ℕ
    after : Bytes
    spelled : s ≡ before ++ delimiter ∷ after
    found : p ≡ i + length before
    first : pieces delimiters s ≡ before ∷ pieces delimiters after

  Cut-cons :
      {c : ℕ} {s : Bytes} {i p : ℕ}
      → contains delimiters c ≡ false
      → Cut s (suc i) p
      → Cut (c ∷ s) i p
  unfolding pieces
  Cut-cons {c} e k = record {
    before = c ∷ k.before;
    delimiter = k.delimiter;
    after = k.after;
    spelled = ap (λ t. c ∷ t) k.spelled;
    found = omega (arith, k.found);
    first = rw (e, k.first);
  }

  search_of-some : (s : Bytes) (i : ℕ) {p : ℕ} → search_of delimiters s i ≡ some p → Cut s i p
  unfolding search_of pieces
  search_of-some [] i h = cc
  search_of-some (c ∷ s) i {p} h = elim (Bool-cases (contains delimiters c)) [
    | inl e ↦ record {
      before = [];
      delimiter = c;
      after = s;
      spelled = refl;
      found = ground arith;
      first = rw e;
    }
    | inr e ↦ Cut-cons e (search_of-some s (suc i) (ground arith))
  ]

  -- One position at a time, the loop collects the pieces of what is left behind `done`.
  tokenize_loop-pieces :
      (fuel : ℕ) (done rest : Bytes) (tokens : List Bytes)
      → length rest < fuel
      → tokenize_loop fuel (done ++ rest) delimiters (length done) tokens
        ≡ some (tokens ++ pieces delimiters rest)
  unfolding tokenize_loop
  tokenize_loop-pieces zero done rest tokens h = elim h [ ]
  tokenize_loop-pieces (suc fuel) done rest tokens h =
      elim (Option-cases (search_of delimiters rest (length done))) [
        | inl e ↦ rw (
          tokenize_loop,
          drop-length-append done rest,
          e,
          drop-length-append done rest,
          rest_length done rest,
          take-length rest,
          search_of-none rest (length done) e,
        )
        | inr (p, e) ↦
            let k = search_of-some rest (length done) e in
            let done' : Bytes = done ++ k.before ++ k.delimiter ∷ [] in
            let cut : substr (done ++ rest) (length done) (p - length done) ≡ k.before =
              rw
                (
                  drop-length-append done rest,
                  k.found,
                  add-sub (length done) (length k.before),
                  k.spelled,
                )
                (take-length-append k.before (k.delimiter ∷ k.after)) in
            let whole : done ++ rest ≡ done' ++ k.after = rw k.spelled (simp append_assoc) in
            let next : p + 1 ≡ length done' = omega (
              arith,
              k.found,
              length-append (done ++ k.before) (k.delimiter ∷ []),
              length-append done k.before,
            ) in
            rw (tokenize_loop, drop-length-append done rest, e)
              (rw (cut, next, whole)
                (tokenize_loop-pieces fuel done' k.after (tokens ++ k.before ∷ []) (
                    omega
                      (arith, ap length k.spelled, length-append k.before (k.delimiter ∷ k.after)))
                  ∙ rw (k.first) (simp append_assoc)))
      ]

-- The loop returns for every input, and yields the pieces of the text.
pub tokenize-pieces :
    (input delimiters : Bytes) → tokenize input delimiters ≡ pieces delimiters input
unfolding tokenize
tokenize-pieces input delimiters =
    rw (tokenize_loop-pieces delimiters (suc (length input)) [] input [] (omega arith))
