-- ===== src/Example/Db/Returns.antt =====
-- That `ParseDb` of helper.cc comes to an end, and what it stores.
use grpc_cb.Base.{
  ℕ, zero, suc, ◌+◌, ◌-◌, ◌≤◌, ◌<◌, ◌≡◌, refl, ◌≢◌, inl, inr, Bool, true, false, ◌||◌, some, List,
  [], ◌∷◌, ◌++◌, arith, Bytes, codes, Bool-cases, length, All, All-append,
}
use grpc_cb.Example.Points.{Feature, new_feature, location_of, IsStored}
use grpc_cb.Example.Db.Parser.{
  substr_behind_end, stol_failed, Outcome, done, raised, Parser, erase_spaces, finished,
  try_parse_one, make_parser, parse_loop, parse_db,
}
use grpc_cb.Example.Db.Steps.{
  Holds, IsRead, Outcome-cases, Holds-done, Holds-raised, match_all-first, parse_latitude-IsRead,
}

new_feature-IsStored : IsStored (location_of new_feature)
new_feature-IsStored = (omega arith, omega arith)

not-finished : (p : Parser) → finished p ≡ false → p.current < length p.db
unfolding finished
not-finished p e = ground arith

or-false : (a b : Bool) → a || b ≡ false → b ≡ false
or-false true b h = cc
or-false false b h = h

try_parse_one-IsRead :
    (p : Parser)
    → p.failed || finished p ≡ false
    → Holds (IsRead p.db (p.current + 1)) (try_parse_one new_feature p)
unfolding try_parse_one
try_parse_one-IsRead p e =
    let inside : p.current ≤ length p.db =
      omega (arith, not-finished p (or-false p.failed (finished p) e)) in
    rw e (
      parse_latitude-IsRead p.db (p.current + 1) new_feature _ new_feature-IsStored (
        match_all-first p.db p.current (codes "{")
          (codes "\"location\":" ∷ codes "{" ∷ codes "\"latitude\":" ∷ []) p
          (refl, omega arith, λ _. inside)))

try_parse_one-failed :
    (p : Parser)
    → p.failed ≡ true
    → try_parse_one new_feature p ≡ done (false, new_feature, record p { failed = true })
unfolding try_parse_one
try_parse_one-failed p w = rw w refl

-- Each round that goes on leaves less of the text.
next-less :
    (p p' : Parser) (fuel : ℕ)
    → finished p ≡ false
    → p'.db ≡ p.db
    → p.current + 1 ≤ p'.current
    → length p.db - p.current < suc fuel
    → length p'.db - p'.current < fuel
unfolding finished
next-less p p' fuel e d far h = rw d (ground arith)

erase_spaces-length : (s : Bytes) → length (erase_spaces s) ≤ length s
unfolding erase_spaces
erase_spaces-length [] = omega arith
erase_spaces-length (c ∷ s) = ground (arith, erase_spaces-length s)

parse_loop-returns :
    (fuel : ℕ) (p : Parser) (features : List Feature)
    → length p.db - p.current < fuel
    → All (λ f. IsStored (location_of f)) features
    → (o : Outcome (List Feature)) × (parse_loop fuel p features ≡ some o)
      × Holds (All (λ f. IsStored (location_of f))) o
unfolding parse_loop
parse_loop-returns zero p features h s = absurd (omega arith)
parse_loop-returns (suc fuel) p features h s = elim (Bool-cases (finished p)) [
  | inl e ↦ (done features, rw (parse_loop, e) refl, s)
  | inr e ↦ elim (Bool-cases p.failed) [
    | inl w ↦ (done [], rw (parse_loop, e, try_parse_one-failed p w) refl, tt)
    | inr w ↦ elim (Outcome-cases (try_parse_one new_feature p)) [
      | inl (x, t) ↦ (
        raised x,
        rw (parse_loop, e, t) refl,
        Holds-raised _ (try_parse_one new_feature p) x t (try_parse_one-IsRead p (rw w e)),
      )
      | inr ((one, f, p'), t) ↦
          let ((d, far, _), stored) =
            Holds-done _ (try_parse_one new_feature p) (one, f, p') t
              (try_parse_one-IsRead p (rw w e)) in
          elim (Bool-cases one) [
            | inl k ↦
                let (o, returned, all) =
                  parse_loop-returns fuel p' (features ++ f ∷ []) (next-less p p' fuel e d far h)
                    (All-append (λ f. IsStored (location_of f)) features (f ∷ []) s (stored, tt)) in
                (o, rw (parse_loop, e, t, k) returned, all)
            | inr k ↦ (done [], rw (parse_loop, e, t, k) refl, tt)
          ]
    ]
  ]
]

stol_not_substr : substr_behind_end ≢ stol_failed
stol_not_substr = cc

parse_db-Holds :
    (text : Bytes)
    → (o : Outcome (List Feature)) × (parse_db text ≡ some o)
      × Holds (All (λ f. IsStored (location_of f))) o
unfolding parse_db make_parser
parse_db-Holds text =
    parse_loop-returns (suc (length (erase_spaces text))) (make_parser (erase_spaces text)) []
      (omega (arith, erase_spaces-length (erase_spaces text))) tt

-- Whatever the text is, `ParseDb` comes to an end: it returns features, or an exception ends it, which
-- is one of `stol`; `substr` is never called from behind the end of the text.
pub parse_db-returns :
    (text : Bytes)
    → (o : Outcome (List Feature)) × (parse_db text ≡ some o) × (o ≢ raised substr_behind_end)
parse_db-returns text =
    let (o, e, h) = parse_db-Holds text in
    (o, e, λ k. stol_not_substr (Holds-raised _ o substr_behind_end k h))
