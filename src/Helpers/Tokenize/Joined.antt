-- ===== src/Helpers/Tokenize/Joined.antt =====
-- Tokens of one delimiter put together again.
use grpc_cb.Base.{ℕ, ◌≡◌, refl, ap, ◌∙◌, ◌≢◌, List, [], ◌∷◌, ◌++◌, arith, Bytes, All, Lacks}
use grpc_cb.Helpers.Tokenize.{contains, cons_head, pieces, tokenize, tokenize-pieces}

-- The same text put together again.
abbrev pub join : ℕ → List Bytes → Bytes
join d [] = []
join d (p ∷ []) = p
join d (p ∷ q ∷ ps) = p ++ d ∷ join d (q ∷ ps)

cons_head-ne-nil : (c : ℕ) (ps : List Bytes) → cons_head c ps ≢ []
cons_head-ne-nil c [] = cc
cons_head-ne-nil c (p ∷ ps) = cc

pieces-ne-nil : (delimiters s : Bytes) → pieces delimiters s ≢ []
unfolding pieces
pieces-ne-nil delimiters [] = cc
pieces-ne-nil delimiters (c ∷ s) = ground (arith, cons_head-ne-nil c (pieces delimiters s))

join-cons_nil : (d : ℕ) (ps : List Bytes) → ps ≢ [] → join d ([] ∷ ps) ≡ d ∷ join d ps
join-cons_nil d [] h = absurd (h refl)
join-cons_nil d (p ∷ ps) h = refl

join-cons_head : (d c : ℕ) (ps : List Bytes) → ps ≢ [] → join d (cons_head c ps) ≡ c ∷ join d ps
join-cons_head d c [] h = absurd (h refl)
join-cons_head d c (p ∷ []) h = refl
join-cons_head d c (p ∷ q ∷ ps) h = refl

join-pieces : (d : ℕ) (s : Bytes) → join d (pieces (d ∷ []) s) ≡ s
unfolding pieces contains
join-pieces d [] = refl
join-pieces d (c ∷ s) = ground (
  arith,
  join-pieces d s,
  join-cons_nil d (pieces (d ∷ []) s) (pieces-ne-nil (d ∷ []) s),
  join-cons_head d c (pieces (d ∷ []) s) (pieces-ne-nil (d ∷ []) s),
)

cons_head-Lacks :
    (d c : ℕ) (ps : List Bytes) → c ≢ d → All (Lacks d) ps → All (Lacks d) (cons_head c ps)
cons_head-Lacks d c [] h _ = ((h, tt), tt)
cons_head-Lacks d c (p ∷ ps) h (k, ks) = ((h, k), ks)

pieces-Lacks : (d : ℕ) (s : Bytes) → All (Lacks d) (pieces (d ∷ []) s)
unfolding pieces contains
pieces-Lacks d [] = (tt, tt)
pieces-Lacks d (c ∷ s) = ground (arith, pieces-Lacks d s, cons_head-Lacks d c (pieces (d ∷ []) s))

pieces-whole : (d : ℕ) (p : Bytes) → Lacks d p → pieces (d ∷ []) p ≡ p ∷ []
unfolding pieces contains
pieces-whole d [] h = refl
pieces-whole d (c ∷ p) (h, hs) = ground (arith, pieces-whole d p hs)

pieces-append :
    (d : ℕ) (p s : Bytes) → Lacks d p → pieces (d ∷ []) (p ++ d ∷ s) ≡ p ∷ pieces (d ∷ []) s
unfolding pieces contains
pieces-append d [] s h = ground arith
pieces-append d (c ∷ p) s (h, hs) = ground (arith, pieces-append d p s hs)

pieces-join :
    (d : ℕ) (ps : List Bytes) → ps ≢ [] → All (Lacks d) ps → pieces (d ∷ []) (join d ps) ≡ ps
pieces-join d [] h _ = absurd (h refl)
pieces-join d (p ∷ []) h (k, _) = pieces-whole d p k
pieces-join d (p ∷ q ∷ ps) h (k, ks) =
    pieces-append d p (join d (q ∷ ps)) k ∙ ap (λ l. p ∷ l) (pieces-join d (q ∷ ps) (cc) ks)

-- For one delimiter: the tokens put together with it spell the input, and no token holds it.
pub join-tokenize :
    (d : ℕ) (input : Bytes)
    → (join d (tokenize input (d ∷ [])) ≡ input) × All (Lacks d) (tokenize input (d ∷ []))
join-tokenize d input =
    rw (tokenize-pieces input (d ∷ [])) (join-pieces d input, pieces-Lacks d input)

-- Tokens without the delimiter, put together with it, are cut apart into the same tokens again.
pub tokenize-join :
    (d : ℕ) (ps : List Bytes) → ps ≢ [] → All (Lacks d) ps → tokenize (join d ps) (d ∷ []) ≡ ps
tokenize-join d ps h ks = tokenize-pieces (join d ps) (d ∷ []) ∙ pieces-join d ps h ks

tokenize-ne-nil : (input delimiters : Bytes) → tokenize input delimiters ≢ []
tokenize-ne-nil input delimiters = rw tokenize-pieces (pieces-ne-nil delimiters input)
