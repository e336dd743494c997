-- ===== src/Helpers/Camel.antt =====
-- `CapitalizeFirstLetter`, `LowercaseFirstLetter`, `LowerUnderscoreToUpperCamel` and
-- `FileNameInUpperCamel` of src/compiler/generator_helpers.h.
use grpc_cb.Base.{
  ℕ, ◌+◌, ◌-◌, ◌≡◌, sym, ◌∙◌, Bool, ◌&&◌, List, [], ◌∷◌, ◌++◌, flat_map, append_assoc, append-nil,
  arith, Bytes, codes, leb, if◌then◌else◌, All, All-append, Lacks,
}
use grpc_cb.Helpers.Strip.{strip_proto}
use grpc_cb.Helpers.Tokenize.{tokenize}
use grpc_cb.Helpers.Tokenize.Joined.{join-tokenize}

-- `::toupper` and `::tolower` in the "C" locale.
abbrev toupper : ℕ → ℕ
toupper c = if leb b'a' c && leb c b'z' then c - 32 else c

abbrev tolower : ℕ → ℕ
tolower c = if leb b'A' c && leb c b'Z' then c + 32 else c

unfoldable pub capitalize_first_letter : Bytes → Bytes
capitalize_first_letter [] = []
capitalize_first_letter (c ∷ s) = toupper c ∷ s

unfoldable pub lowercase_first_letter : Bytes → Bytes
lowercase_first_letter [] = []
lowercase_first_letter (c ∷ s) = tolower c ∷ s

-- `for (…) result += CapitalizeFirstLetter(tokens[i]);`
append_capitalized : Bytes → List Bytes → Bytes
append_capitalized result [] = result
append_capitalized result (token ∷ tokens) =
    append_capitalized (result ++ capitalize_first_letter token) tokens

unfoldable pub lower_underscore_to_upper_camel : Bytes → Bytes
unfolding append_capitalized capitalize_first_letter
lower_underscore_to_upper_camel str = append_capitalized [] (tokenize str (codes "_"))

-- `tokens.back()`, of a list that is not empty.
back : List Bytes → Bytes
back [] = []
back (t ∷ []) = t
back (t ∷ u ∷ ts) = back (u ∷ ts)

-- `for (i = 0; i < tokens.size() - 1; i++) result += tokens[i] + "/";`
append_folders : Bytes → List Bytes → Bytes
append_folders result [] = result
append_folders result (t ∷ []) = result
append_folders result (t ∷ u ∷ ts) = append_folders (result ++ (t ++ b'/' ∷ [])) (u ∷ ts)

unfoldable pub file_name_in_upper_camel : Bytes → Bool → Bytes
unfolding append_folders back
file_name_in_upper_camel name include_package_path =
    let tokens = tokenize (strip_proto name) (codes "/") in
    let result : Bytes = if include_package_path then append_folders [] tokens else [] in
    result ++ lower_underscore_to_upper_camel (back tokens)

append_capitalized-flat_map :
    (result : Bytes) (tokens : List Bytes)
    → append_capitalized result tokens ≡ result ++ flat_map capitalize_first_letter tokens
unfolding append_capitalized flat_map
append_capitalized-flat_map result [] = sym (append-nil result)
append_capitalized-flat_map result (t ∷ ts) =
    append_capitalized-flat_map (result ++ capitalize_first_letter t) ts
    ∙ append_assoc result (capitalize_first_letter t) (flat_map capitalize_first_letter ts)

capitalize-Lacks : (s : Bytes) → Lacks b'_' s → Lacks b'_' (capitalize_first_letter s)
unfolding capitalize_first_letter
capitalize-Lacks [] h = tt
capitalize-Lacks (c ∷ s) (h, hs) = (ground arith, hs)

flat_map_capitalize-Lacks :
    (ts : List Bytes) → All (Lacks b'_') ts → Lacks b'_' (flat_map capitalize_first_letter ts)
unfolding flat_map
flat_map_capitalize-Lacks [] h = tt
flat_map_capitalize-Lacks (t ∷ ts) (h, hs) =
    All-append (λ y. (y ≡ b'_') → ⊥) (capitalize_first_letter t)
      (flat_map capitalize_first_letter ts) (capitalize-Lacks t h) (flat_map_capitalize-Lacks ts hs)

-- The camel-case name is the words between the underscores, each with its first letter in upper
-- case, and it holds no underscore.
lower_underscore_to_upper_camel_lem :
    (str : Bytes)
    → (lower_underscore_to_upper_camel str
        ≡ flat_map capitalize_first_letter (tokenize str (codes "_")))
      × Lacks b'_' (lower_underscore_to_upper_camel str)
unfolding lower_underscore_to_upper_camel
lower_underscore_to_upper_camel_lem str =
    let e = append_capitalized-flat_map [] (tokenize str (codes "_")) in
    (e, rw e (flat_map_capitalize-Lacks (tokenize str (codes "_")) ((join-tokenize b'_' str).1)))
