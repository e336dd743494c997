-- ===== src/Generator/Printing.antt =====
-- The actions on a protobuf `Printer` and its variables, and `as_string` of
-- src/compiler/cpp_cb_generator.cc. The printer itself is not of this repository: what it is given
-- is modelled, and the text that it writes for that is a parameter.
use grpc_cb.Base.{
  ℕ, zero, suc, ◌+◌, ◌/◌, ◌%◌, ◌≡◌, refl, ap, Option, none, some, List, [], ◌∷◌, ◌++◌, Bytes, codes,
  bytes_eq, ltb, if◌then◌else◌, String,
}

-- `vars["key"] = value`, `Print(vars, text)`, `Print(text)`, `Indent()` and `Outdent()`. A text is
-- the list of the adjacent literals of the source.
pub data Action : Type 0 where
  set : String → Bytes → Action
  print : List String → Action
  print_plain : List String → Action
  indent : Action
  outdent : Action

unfoldable pub text : List String → Bytes
text [] = []
text (t ∷ ts) = codes t ++ text ts

-- The map of variables, the newest assignment first.
abbrev pub Vars : Type 0
Vars = List (Bytes × Bytes)

unfoldable pub lookup : Bytes → Vars → Option Bytes
lookup key [] = none
lookup key ((k, v) ∷ vars) = if bytes_eq k key then some v else lookup key vars

-- What the printer is given: the variables and the text of a `Print`, and the indentations.
pub data Call : Type 0 where
  printed : Vars → Bytes → Call
  indented : Call
  outdented : Call

unfoldable pub calls : Vars → List Action → List Call
unfolding text
calls vars [] = []
calls vars (set key value ∷ actions) = calls ((codes key, value) ∷ vars) actions
calls vars (print t ∷ actions) = printed vars (text t) ∷ calls vars actions
calls vars (print_plain t ∷ actions) = printed [] (text t) ∷ calls vars actions
calls vars (indent ∷ actions) = indented ∷ calls vars actions
calls vars (outdent ∷ actions) = outdented ∷ calls vars actions

unfoldable pub vars_after : Vars → List Action → Vars
vars_after vars [] = vars
vars_after vars (set key value ∷ actions) = vars_after ((codes key, value) ∷ vars) actions
vars_after vars (print t ∷ actions) = vars_after vars actions
vars_after vars (print_plain t ∷ actions) = vars_after vars actions
vars_after vars (indent ∷ actions) = vars_after vars actions
vars_after vars (outdent ∷ actions) = vars_after vars actions

calls-append :
    (vars : Vars) (as' bs : List Action)
    → calls vars (as' ++ bs) ≡ calls vars as' ++ calls (vars_after vars as') bs
unfolding calls vars_after
calls-append vars [] bs = refl
calls-append vars (set key value ∷ as') bs = calls-append ((codes key, value) ∷ vars) as' bs
calls-append vars (print t ∷ as') bs =
    ap (λ l. printed vars (text t) ∷ l) (calls-append vars as' bs)
calls-append vars (print_plain t ∷ as') bs =
    ap (λ l. printed [] (text t) ∷ l) (calls-append vars as' bs)
calls-append vars (indent ∷ as') bs = ap (λ l. indented ∷ l) (calls-append vars as' bs)
calls-append vars (outdent ∷ as') bs = ap (λ l. outdented ∷ l) (calls-append vars as' bs)

-- The text that a new printer writes for the calls that it is given.
abbrev pub Renderer : Type 0
Renderer = List Call → Bytes

-- A loop over the parts of a descriptor, and one that counts them.
unfoldable pub for_each {ℓ} : {A : Type ℓ} → (A → List Action) → List A → List Action
for_each body [] = []
for_each body (x ∷ xs) = body x ++ for_each body xs

unfoldable pub for_index {ℓ} : {A : Type ℓ} → (ℕ → A → List Action) → ℕ → List A → List Action
for_index body i [] = []
for_index body i (x ∷ xs) = body i x ++ for_index body (i + 1) xs

-- `out << x` of an `int` that is not negative, in decimal; a round for each digit.
unfoldable pub decimal : ℕ → ℕ → Bytes → Bytes
decimal zero n out = out
decimal (suc fuel) n out =
    let out' = (b'0' + n % 10) ∷ out in
    let rest = decimal fuel (n / 10) out' in if ltb n 10 then out' else rest

unfoldable pub as_string : ℕ → Bytes
unfolding decimal
as_string n = decimal (suc n) n []

-- `Parameters` of src/compiler/cpp_cb_generator.h.
pub record Parameters : Type 0 where
  pub services_namespace : Bytes
