-- ===== src/Generator/Variables.antt =====
-- The variables that a template names between dollar signs, and whether each `Print` of a list of
-- actions finds them assigned. (`$$` writes a dollar sign, so the empty name needs no variable.)
use grpc_cb.Base.{
  ℕ, ◌+◌, ◌≡◌, refl, ◌≢◌, ◌⊎◌, inl, inr, Bool, true, false, ◌&&◌, ◌||◌, Option, none, some, List,
  [], ◌∷◌, ◌++◌, arith, Bytes, codes, bytes_eq, bytes_eq_iff, ◌==◌, Bool-cases, Option-cases, All,
}
use mathlib.Core.Bool.{false≢true}
use grpc_cb.Generator.Printing.{
  Action, set, print, print_plain, indent, outdent, text, Vars, lookup, Call, printed, indented,
  outdented, calls, for_each, for_index,
}

-- The names of a text in order; `none` if a dollar sign is left open.
unfoldable pub scan : Option Bytes → Bytes → Option (List Bytes)
scan none [] = some []
scan (some name) [] = none
scan none (c ∷ s) = elim (c == b'$') [ true ↦ scan (some []) s | false ↦ scan none s ]
scan (some name) (c ∷ s) = elim (c == b'$') [
  | true ↦ elim (scan none s) [ none ↦ none | some names ↦ some (name ∷ names) ]
  | false ↦ scan (some (name ++ c ∷ [])) s
]

-- The printer knows every variable that it is asked for.
abbrev pub IsDefined : Call → Type 0
IsDefined (printed vars t) =
    (names : List Bytes) × (scan none t ≡ some names)
    × All (λ n. (n ≡ []) ⊎ (lookup n vars ≢ none)) names
IsDefined indented = Unit
IsDefined outdented = Unit

has : List Bytes → Bytes → Bool
has [] n = false
has (k ∷ ks) n = bytes_eq k n || has ks n

all_in : List Bytes → List Bytes → Bool
unfolding has
all_in ks [] = true
all_in ks (n ∷ ns) = (bytes_eq n [] || has ks n) && all_in ks ns

covers : List Bytes → Bytes → Bool
unfolding scan all_in
covers ks t = elim (scan none t) [ none ↦ false | some names ↦ all_in ks names ]

-- The test for a list of actions from a list of assigned keys.
unfoldable pub checks : List Bytes → List Action → Bool
unfolding covers text bytes_eq
checks ks [] = true
checks ks (set key value ∷ actions) = checks (codes key ∷ ks) actions
checks ks (print t ∷ actions) = covers ks (text t) && checks ks actions
checks ks (print_plain t ∷ actions) = covers [] (text t) && checks ks actions
checks ks (indent ∷ actions) = checks ks actions
checks ks (outdent ∷ actions) = checks ks actions

unfoldable pub keys_of : Vars → List Bytes
keys_of [] = []
keys_of ((k, v) ∷ vars) = k ∷ keys_of vars

lookup_of_has : (vars : Vars) (n : Bytes) → has (keys_of vars) n ≡ true → lookup n vars ≢ none
unfolding has keys_of lookup
lookup_of_has [] n h = cc
lookup_of_has ((k, v) ∷ vars) n h = ground (arith, lookup_of_has vars n)

all_in-All :
    (vars : Vars) (ns : List Bytes)
    → all_in (keys_of vars) ns ≡ true
    → All (λ n. (n ≡ []) ⊎ (lookup n vars ≢ none)) ns
unfolding all_in
all_in-All vars [] h = tt
all_in-All vars (n ∷ ns) h = elim (Bool-cases (bytes_eq n [])) [
  | inl e ↦ (inl ((bytes_eq_iff n []).0 e), all_in-All vars ns (ground arith))
  | inr e ↦ (inr (lookup_of_has vars n (ground arith)), all_in-All vars ns (ground arith))
]

covers-IsDefined :
    (vars : Vars) (t : Bytes) → covers (keys_of vars) t ≡ true → IsDefined (printed vars t)
unfolding covers
covers-IsDefined vars t h = elim (Option-cases (scan none t)) [
  | inl e ↦ absurd (false≢true (rw (covers, e) at h))
  | inr (names, e) ↦ (names, e, all_in-All vars names (rw (covers, e) at h))
]

and_left : (a b : Bool) → (a && b) ≡ true → a ≡ true
and_left a b h = ground arith

and_right : (a b : Bool) → (a && b) ≡ true → b ≡ true
and_right a b h = ground arith

and_intro : (a b : Bool) → a ≡ true → b ≡ true → (a && b) ≡ true
and_intro a b h k = ground arith

-- Actions that pass the test ask the printer only for variables that are assigned.
pub checks-IsDefined :
    (vars : Vars) (actions : List Action)
    → checks (keys_of vars) actions ≡ true
    → All IsDefined (calls vars actions)
unfolding checks calls keys_of
checks-IsDefined vars [] h = tt
checks-IsDefined vars (set key value ∷ actions) h =
    checks-IsDefined ((codes key, value) ∷ vars) actions h
checks-IsDefined vars (print t ∷ actions) h = (
  covers-IsDefined vars (text t)
      (and_left (covers (keys_of vars) (text t)) (checks (keys_of vars) actions) h),
  checks-IsDefined vars actions
      (and_right (covers (keys_of vars) (text t)) (checks (keys_of vars) actions) h),
)
checks-IsDefined vars (print_plain t ∷ actions) h = (
  covers-IsDefined [] (text t) (and_left (covers [] (text t)) (checks (keys_of vars) actions) h),
  checks-IsDefined vars actions (and_right (covers [] (text t)) (checks (keys_of vars) actions) h),
)
checks-IsDefined vars (indent ∷ actions) h = (tt, checks-IsDefined vars actions h)
checks-IsDefined vars (outdent ∷ actions) h = (tt, checks-IsDefined vars actions h)

-- More assigned keys do no harm.
abbrev Sub : List Bytes → List Bytes → Type 0
Sub ks ks' = (n : Bytes) → has ks n ≡ true → has ks' n ≡ true

Sub-cons : (k : Bytes) (ks ks' : List Bytes) → Sub ks ks' → Sub (k ∷ ks) (k ∷ ks')
unfolding has
Sub-cons k ks ks' s n h = ground (arith, s n)

all_in-Sub : (ks ks' ns : List Bytes) → Sub ks ks' → all_in ks ns ≡ true → all_in ks' ns ≡ true
unfolding all_in
all_in-Sub ks ks' [] s h = refl
all_in-Sub ks ks' (n ∷ ns) s h = ground (arith, s n, all_in-Sub ks ks' ns s)

covers-Sub :
    (ks ks' : List Bytes) (t : Bytes) → Sub ks ks' → covers ks t ≡ true → covers ks' t ≡ true
unfolding covers
covers-Sub ks ks' t s h = elim (Option-cases (scan none t)) [
  | inl e ↦ absurd (false≢true (rw (covers, e) at h))
  | inr (names, e) ↦ rw (covers, e) (all_in-Sub ks ks' names s (rw (covers, e) at h))
]

checks-Sub :
    (ks ks' : List Bytes) (actions : List Action)
    → Sub ks ks'
    → checks ks actions ≡ true
    → checks ks' actions ≡ true
unfolding checks
checks-Sub ks ks' [] s h = refl
checks-Sub ks ks' (set key value ∷ actions) s h =
    checks-Sub (codes key ∷ ks) (codes key ∷ ks') actions (Sub-cons (codes key) ks ks' s) h
checks-Sub ks ks' (print t ∷ actions) s h =
    and_intro (covers ks' (text t)) (checks ks' actions)
      (covers-Sub ks ks' (text t) s (and_left (covers ks (text t)) (checks ks actions) h))
      (checks-Sub ks ks' actions s (and_right (covers ks (text t)) (checks ks actions) h))
checks-Sub ks ks' (print_plain t ∷ actions) s h =
    and_intro (covers [] (text t)) (checks ks' actions)
      (and_left (covers [] (text t)) (checks ks actions) h)
      (checks-Sub ks ks' actions s (and_right (covers [] (text t)) (checks ks actions) h))
checks-Sub ks ks' (indent ∷ actions) s h = checks-Sub ks ks' actions s h
checks-Sub ks ks' (outdent ∷ actions) s h = checks-Sub ks ks' actions s h

Sub-more : (k : Bytes) (ks : List Bytes) → Sub ks (k ∷ ks)
unfolding has
Sub-more k ks n h = ground arith

-- What passes on its own passes behind other actions, which can only assign more.
pub checks-append :
    (ks : List Bytes) (as' bs : List Action)
    → checks ks as' ≡ true
    → checks ks bs ≡ true
    → checks ks (as' ++ bs) ≡ true
unfolding checks
checks-append ks [] bs h k = k
checks-append ks (set key value ∷ as') bs h k =
    checks-append (codes key ∷ ks) as' bs h
      (checks-Sub ks (codes key ∷ ks) bs (Sub-more (codes key) ks) k)
checks-append ks (print t ∷ as') bs h k =
    and_intro (covers ks (text t)) (checks ks (as' ++ bs))
      (and_left (covers ks (text t)) (checks ks as') h)
      (checks-append ks as' bs (and_right (covers ks (text t)) (checks ks as') h) k)
checks-append ks (print_plain t ∷ as') bs h k =
    and_intro (covers [] (text t)) (checks ks (as' ++ bs))
      (and_left (covers [] (text t)) (checks ks as') h)
      (checks-append ks as' bs (and_right (covers [] (text t)) (checks ks as') h) k)
checks-append ks (indent ∷ as') bs h k = checks-append ks as' bs h k
checks-append ks (outdent ∷ as') bs h k = checks-append ks as' bs h k

module _ {ℓ} {A : Type ℓ} where
  pub checks-for_each :
      (ks : List Bytes) (body : A → List Action) (xs : List A)
      → ((x : A) → checks ks (body x) ≡ true)
      → checks ks (for_each body xs) ≡ true
  unfolding for_each
  checks-for_each ks body [] h = unfold checks in refl
  checks-for_each ks body (x ∷ xs) h =
      checks-append ks (body x) (for_each body xs) (h x) (checks-for_each ks body xs h)

  pub checks-for_index :
      (ks : List Bytes) (body : ℕ → A → List Action) (i : ℕ) (xs : List A)
      → ((j : ℕ) (x : A) → checks ks (body j x) ≡ true)
      → checks ks (for_index body i xs) ≡ true
  unfolding for_index
  checks-for_index ks body i [] h = unfold checks in refl
  checks-for_index ks body i (x ∷ xs) h =
      checks-append ks (body i x) (for_index body (i + 1) xs) (h i x)
        (checks-for_index ks body (i + 1) xs h)

abbrev pub sequence : List (List Action) → List Action
sequence [] = []
sequence (as' ∷ []) = as'
sequence (as' ∷ bs ∷ rest) = as' ++ sequence (bs ∷ rest)

pub checks-sequence :
    (ks : List Bytes) (parts : List (List Action))
    → All (λ as'. checks ks as' ≡ true) parts
    → checks ks (sequence parts) ≡ true
checks-sequence ks [] h = unfold checks in refl
checks-sequence ks (as' ∷ []) (h, _) = h
checks-sequence ks (as' ∷ bs ∷ rest) (h, hs) =
    checks-append ks as' (sequence (bs ∷ rest)) h (checks-sequence ks (bs ∷ rest) hs)

pub checks-cons :
    (k : Bytes) (ks : List Bytes) (actions : List Action)
    → checks ks actions ≡ true
    → checks (k ∷ ks) actions ≡ true
checks-cons k ks actions h = checks-Sub ks (k ∷ ks) actions (Sub-more k ks) h
