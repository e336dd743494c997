-- ===== src/Generator/Namespaces.antt =====
-- The namespaces of the package: what the includes open, the epilogues close.
use grpc_cb.Base.{
  ◌≡◌, refl, sym, ap, ◌∙◌, Option, some, List, [], ◌∷◌, ◌++◌, map, flat_map, reverse, append_assoc,
  append-nil, Bytes, codes, bytes_eq, if◌then◌else◌,
}
use grpc_cb.Helpers.Tokenize.{tokenize}
use grpc_cb.Helpers.Identifier.{filename_identifier}
use grpc_cb.Helpers.Descriptors.{FileDescriptor}
use grpc_cb.Generator.Printing.{
  Action, print, print_plain, Vars, lookup, Call, printed, indented, outdented, calls, for_each,
  Parameters,
}
use grpc_cb.Generator.Header.{
  is_empty, open_part, get_header_includes, close_part, get_header_epilogue,
}
use grpc_cb.Generator.Source.{
  open_source_part, get_source_includes, append_closed, get_source_epilogue,
}

-- The parts of a package's name, from the outermost.
unfoldable pub parts : FileDescriptor → List Bytes
parts file = if is_empty file.package_name then [] else tokenize file.package_name (codes ".")

-- The values that `$part$` has at the calls with a text.
unfoldable pub parts_at : Bytes → List Call → List (Option Bytes)
parts_at t [] = []
parts_at t (printed vars t' ∷ cs) =
    if bytes_eq t' t then lookup (codes "part") vars ∷ parts_at t cs else parts_at t cs
parts_at t (indented ∷ cs) = parts_at t cs
parts_at t (outdented ∷ cs) = parts_at t cs

abbrev pub opening : Bytes
opening = codes "namespace $part$ {\n"

abbrev pub closing : Bytes
closing = codes "}  // namespace $part$\n"

-- A loop that prints the text for each part, with others that do not.
module _ (t : Bytes) (body : Bytes → List Action)
    (one : (vars : Vars) (part : Bytes) (rest : List Action)
      → (vars' : Vars) × (parts_at t (calls vars (body part ++ rest))
          ≡ some part ∷ parts_at t (calls vars' rest)))
    (rest : List Action) (silent : (vars : Vars) → parts_at t (calls vars rest) ≡ []) where
  parts_at-for_each :
      (vars : Vars) (ps : List Bytes)
      → parts_at t (calls vars (for_each body ps ++ rest)) ≡ map some ps
  unfolding for_each
  parts_at-for_each vars [] = silent vars
  parts_at-for_each vars (p ∷ ps) =
      let (vars', e) = one vars p (for_each body ps ++ rest) in
      ap (λ l. parts_at t (calls vars l)) (append_assoc (body p) (for_each body ps) rest)
      ∙ e
      ∙ ap (λ l. some p ∷ l) (parts_at-for_each vars' ps)

header_includes-parts :
    (file : FileDescriptor) (params : Parameters)
    → parts_at opening (calls [] (get_header_includes file params)) ≡ map some (parts file)
unfolding parts_at calls get_header_includes parts bytes_eq lookup
header_includes-parts file params = go file.package_name
  where
    go :
        (package_name : Bytes)
        → parts_at opening
            (calls [] (get_header_includes (record file { package_name = package_name }) params))
          ≡ map some (parts (record file { package_name = package_name }))
    go [] = refl
    go (c ∷ cs) =
        parts_at-for_each opening open_part (λ vars part rest. ((codes "part", part) ∷ vars, refl))
          (print_plain ("\n" ∷ []) ∷ []) (λ vars. refl) _ (tokenize (c ∷ cs) (codes "."))

header_epilogue-parts :
    (file : FileDescriptor) (params : Parameters)
    → parts_at closing (calls [] (get_header_epilogue file params))
      ≡ map some (reverse (parts file))
unfolding parts_at calls get_header_epilogue parts bytes_eq lookup
header_epilogue-parts file params = go file.package_name
  where
    vars : Bytes → Vars
    vars package_name =
        (codes "filename_identifier", filename_identifier file.name)
        ∷ (codes "filename", file.name)
        ∷ []

    go :
        (package_name : Bytes)
        → parts_at closing
            (calls [] (get_header_epilogue (record file { package_name = package_name }) params))
          ≡ map some (reverse (parts (record file { package_name = package_name })))
    go [] = refl
    go (c ∷ cs) =
        let ps = reverse (tokenize (c ∷ cs) (codes ".")) in
        ap (λ l. parts_at closing (calls (vars (c ∷ cs)) l))
          (append_assoc (for_each close_part ps) (print ("\n" ∷ []) ∷ [])
            (print ("#endif  // GRPC_CB_$filename_identifier$__INCLUDED\n" ∷ []) ∷ []))
        ∙ parts_at-for_each closing close_part
            (λ vars part rest. ((codes "part", part) ∷ vars, refl))
            (print ("\n" ∷ [])
              ∷ print ("#endif  // GRPC_CB_$filename_identifier$__INCLUDED\n" ∷ [])
              ∷ [])
            (λ vars. refl) _ ps

-- The header opens a namespace for each part of the package, from the outermost, and closes them in
-- the reverse order.
header-parts :
    (file : FileDescriptor) (params : Parameters)
    → (parts_at opening (calls [] (get_header_includes file params)) ≡ map some (parts file))
      × (parts_at closing (calls [] (get_header_epilogue file params))
          ≡ map some (reverse (parts file)))
header-parts file params = (header_includes-parts file params, header_epilogue-parts file params)

-- The line that closes a part's namespace at the end of the source file.
pub closing_line : Bytes → Bytes
closing_line part = codes "}  // namespace " ++ (part ++ codes "\n")

append_closed-flat_map :
    (temp : Bytes) (ps : List Bytes) → append_closed temp ps ≡ temp ++ flat_map closing_line ps
unfolding append_closed flat_map closing_line
append_closed-flat_map temp [] = sym (append-nil temp)
append_closed-flat_map temp (p ∷ ps) =
    append_closed-flat_map (((temp ++ codes "}  // namespace ") ++ p) ++ codes "\n") ps
    ∙ simp append_assoc

-- The source file opens a namespace for each part of the package, from the outermost, and its
-- epilogue closes as many, with a line for each part in the order of opening.
pub source-parts :
    (file : FileDescriptor) (params : Parameters)
    → (parts_at opening (calls [] (get_source_includes file params)) ≡ map some (parts file))
      × (get_source_epilogue file params
          ≡ flat_map closing_line (parts file)
            ++ (if is_empty file.package_name then [] else codes "\n"))
unfolding parts_at calls get_source_includes get_source_epilogue parts bytes_eq lookup flat_map
source-parts file params = go file.package_name
  where
    go :
        (package_name : Bytes)
        → (parts_at opening
              (calls [] (get_source_includes (record file { package_name = package_name }) params))
            ≡ map some (parts (record file { package_name = package_name })))
          × (get_source_epilogue (record file { package_name = package_name }) params
              ≡ flat_map closing_line (parts (record file { package_name = package_name }))
                ++ (if is_empty package_name then [] else codes "\n"))
    go [] = (refl, refl)
    go (c ∷ cs) = (
      parts_at-for_each opening open_source_part
          (λ vars part rest. ((codes "part", part) ∷ vars, refl)) (print ("\n" ∷ []) ∷ [])
          (λ vars. refl) _ (tokenize (c ∷ cs) (codes ".")),
      ap (λ t. t ++ codes "\n") (append_closed-flat_map [] (tokenize (c ∷ cs) (codes "."))),
    )
