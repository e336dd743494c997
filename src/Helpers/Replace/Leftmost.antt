-- ===== src/Helpers/Replace/Leftmost.antt =====
-- What `StringReplace` computes: the leftmost occurrences are replaced, one behind the other.
use grpc_cb.Base.{
  ℕ, zero, suc, ◌+◌, ◌≤◌, ◌<◌, ◌≡◌, refl, sym, ap, ◌∙◌, ◌≢◌, inl, inr, true, false, none, some, [],
  ◌∷◌, ◌++◌, append_assoc, arith, Bytes, starts_with, le→leb, Bool-cases, Option-cases, length,
  drop, length-append, take-length-append, drop-length-append,
}
use mathlib.Core.Bool.{false≢true}
use native.Mathlib.Nat.{add-zero}
use grpc_cb.Helpers.Replace.{search, find, replace, replace_loop, string_replace}

abbrev pub Absent : Bytes → Bytes → Type 0
Absent from s = (a b : Bytes) → s ≢ a ++ (from ++ b)

-- `a` is what stands before the first occurrence.
abbrev pub IsFirst : Bytes → Bytes → Bytes → Type 0
IsFirst from s a = (a' b : Bytes) → s ≡ a' ++ (from ++ b) → length a ≤ length a'

-- The text, and the text with each occurrence replaced from left to right.
pub data Replaced (from to : Bytes) : Bytes → Bytes → Type 0 where
  absent : (s : Bytes) → Absent from s → Replaced from to s s
  present :
      (s a b t r : Bytes)
      → s ≡ a ++ (from ++ b)
      → IsFirst from s a
      → Replaced from to b t
      → r ≡ a ++ (to ++ t)
      → Replaced from to s r

starts_with-append : (p s : Bytes) → starts_with p (p ++ s) ≡ true
unfolding starts_with
starts_with-append [] s = refl
starts_with-append (a ∷ p) s = ground (arith, starts_with-append p s)

starts_with_sound : (p s : Bytes) → starts_with p s ≡ true → s ≡ p ++ drop (length p) s
unfolding starts_with
starts_with_sound [] s h = refl
starts_with_sound (a ∷ p) [] h = cc
starts_with_sound (a ∷ p) (b ∷ s) h = ground (arith, starts_with_sound p s)

module _ (from : Bytes) where
  search-hit : (s : Bytes) (i : ℕ) → starts_with from s ≡ true → search from s i ≡ some i
  unfolding search
  search-hit [] i e = rw e
  search-hit (c ∷ s) i e = rw e

  hit_at :
      (s : Bytes) (i : ℕ) {p : ℕ} → search from s i ≡ some p → starts_with from s ≡ true → p ≡ i
  hit_at s i h e = ground (arith, search-hit s i e)

  search-none : (s : Bytes) (i : ℕ) → search from s i ≡ none → Absent from s
  unfolding search
  search-none s i h [] b e = ground (arith, search-hit s i (rw e (starts_with-append from b)))
  search-none [] i h (x ∷ a) b e = cc
  search-none (c ∷ s) i h (x ∷ a) b e = search-none s (suc i) (ground arith) a b (cc)

  record Found (s : Bytes) (i p : ℕ) : Type 0 where
    before : Bytes
    after : Bytes
    spelled : s ≡ before ++ (from ++ after)
    position : p ≡ i + length before
    first : IsFirst from s before

  IsFirst-cons :
      (c : ℕ) (s before : Bytes)
      → starts_with from (c ∷ s) ≡ false
      → IsFirst from s before
      → IsFirst from (c ∷ s) (c ∷ before)
  IsFirst-cons c s before e h [] b q =
      absurd (false≢true (sym e ∙ ap (starts_with from) q ∙ starts_with-append from b))
  IsFirst-cons c s before e h (x ∷ a) b q = omega (arith, h a b (cc))

  Found-cons :
      {c : ℕ} {s : Bytes} {i p : ℕ}
      → starts_with from (c ∷ s) ≡ false
      → Found s (suc i) p
      → Found (c ∷ s) i p
  Found-cons {c} {s} e k = record {
    before = c ∷ k.before;
    after = k.after;
    spelled = ap (λ t. c ∷ t) k.spelled;
    position = omega (arith, k.position);
    first = IsFirst-cons c s k.before e k.first;
  }

  Found-here : (s : Bytes) (i : ℕ) → starts_with from s ≡ true → Found s i i
  Found-here s i e = record {
    before = [];
    after = drop (length from) s;
    spelled = starts_with_sound from s e;
    position = omega arith;
    first = λ a' b h. omega arith;
  }

  search-some : (s : Bytes) (i : ℕ) {p : ℕ} → search from s i ≡ some p → Found s i p
  unfolding search
  search-some [] i {p} h = elim (Bool-cases (starts_with from [])) [
    | inl e ↦ rw (hit_at [] i h e) (Found-here [] i e)
    | inr e ↦ cc
  ]
  search-some (c ∷ s) i {p} h = elim (Bool-cases (starts_with from (c ∷ s))) [
    | inl e ↦ rw (hit_at (c ∷ s) i h e) (Found-here (c ∷ s) i e)
    | inr e ↦ Found-cons e (search-some s (suc i) (ground arith))
  ]

module _ (from to : Bytes) where
  find-append :
      (done rest : Bytes) → find (done ++ rest) from (length done) ≡ search from rest (length done)
  unfolding find
  find-append done rest = rw (
    le→leb (length done) (length (done ++ rest)) (omega (arith, length-append done rest)),
    drop-length-append done rest,
  )

  -- One replacement, behind what is done.
  replace-append :
      (done a b : Bytes)
      → replace (done ++ (a ++ (from ++ b))) (length done + length a) (length from) to
        ≡ (done ++ (a ++ to)) ++ b
  unfolding replace
  replace-append done a b =
      rw
        (
          ← append_assoc done a (from ++ b),
          ← length-append done a,
          take-length-append (done ++ a) (from ++ b),
          ← append_assoc (done ++ a) from b,
          ← length-append (done ++ a) from,
          drop-length-append ((done ++ a) ++ from) b,
        )
        (simp append_assoc)

  length-pos : (s : Bytes) → s ≢ [] → 0 < length s
  length-pos [] h = absurd (h refl)
  length-pos (c ∷ s) h = omega arith

  replace_loop-Replaced :
      (fuel : ℕ) (done rest : Bytes)
      → from ≢ []
      → length rest < fuel
      → (t : Bytes) × (replace_loop fuel (done ++ rest) from to true (length done)
          ≡ some (done ++ t))
        × Replaced from to rest t
  unfolding replace_loop
  replace_loop-Replaced zero done rest ne h = elim h [ ]
  replace_loop-Replaced (suc fuel) done rest ne h =
      elim (Option-cases (search from rest (length done))) [
        | inl e ↦ (
          rest,
          rw (replace_loop, find-append done rest, e),
          absent rest (search-none from rest (length done) e),
        )
        | inr (p, e) ↦
            let k = search-some from rest (length done) e in
            let replaced : replace (done ++ rest) p (length from) to
                ≡ (done ++ (k.before ++ to)) ++ k.after =
              rw (k.spelled, k.position) (replace-append done k.before k.after) in
            let next : p + length to ≡ length (done ++ (k.before ++ to)) =
              omega (
                arith,
                k.position,
                length-append done (k.before ++ to),
                length-append k.before to,
              ) in
            let (t, eq, rep) = replace_loop-Replaced fuel (done ++ (k.before ++ to)) k.after ne (
              omega (
                arith,
                ap length k.spelled,
                length-append k.before (from ++ k.after),
                length-append from k.after,
                length-pos from ne,
              )) in
            (
              k.before ++ (to ++ t),
              rw (replace_loop, find-append done rest, e, replaced, next) (eq ∙ simp append_assoc),
              present rest k.before k.after t _ k.spelled k.first rep refl,
            )
      ]

-- With something to look for, `StringReplace` of all occurrences returns, and the result is the
-- text with each occurrence replaced, from the left and without overlap.
pub string_replace-Replaced :
    (str from to : Bytes)
    → from ≢ []
    → (t : Bytes) × (string_replace str from to true ≡ some t) × Replaced from to str t
unfolding string_replace
string_replace-Replaced str from to ne =
    replace_loop-Replaced from to (suc (length str)) [] str ne (omega arith)

-- An empty `from` is found at every position, so the loop never leaves by `break`.
replace_loop-empty :
    (fuel : ℕ) (done rest to : Bytes)
    → replace_loop fuel (done ++ rest) [] to true (length done) ≡ none
unfolding replace_loop
replace_loop-empty zero done rest to = refl
replace_loop-empty (suc fuel) done rest to =
    let replaced : replace (done ++ rest) (length done) 0 to ≡ (done ++ to) ++ rest =
      rw add-zero at (replace-append [] to done [] rest) in
    rw
      (
        replace_loop,
        find-append [] to done rest,
        search-hit [] rest (length done) (unfold starts_with in refl),
        replaced,
        ← length-append done to,
      )
      (replace_loop-empty fuel (done ++ to) rest to)

-- With `replace_all` and nothing to look for, the loop does not end within any number of rounds.
replace_loop-diverges : (fuel : ℕ) (str to : Bytes) → replace_loop fuel str [] to true 0 ≡ none
replace_loop-diverges fuel str to = replace_loop-empty fuel [] str to
