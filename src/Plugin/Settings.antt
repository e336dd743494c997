-- ===== src/Plugin/Settings.antt =====
-- How the plugin reads its parameter text.
use grpc_cb.Base.{
  ℕ, ◌≡◌, refl, sym, ap, ◌∙◌, ◌≢◌, false, some, List, [], ◌∷◌, ◌++◌, map, flat_map, append-nil,
  append_assoc, arith, Bytes, codes, bytes_eq, get_elem?, All, All-append, Lacks,
}
use grpc_cb.Helpers.Tokenize.{tokenize}
use grpc_cb.Helpers.Tokenize.Joined.{join, tokenize-join}
use grpc_cb.Helpers.Descriptors.{FileDescriptor}
use grpc_cb.Generator.Printing.{Action, calls, Renderer, Parameters}
use grpc_cb.Generator.Header.{
  is_empty, get_header_prologue, get_header_includes, get_header_services, get_header_epilogue,
}
use grpc_cb.Helpers.Strip.{strip_proto}
use grpc_cb.Generator.Source.{
  get_source_prologue, get_source_includes, get_source_descriptors, get_source_epilogue,
}
use grpc_cb.Generator.Service.{get_source_services}
use grpc_cb.Plugin.{
  ok, refused, fault, read_parameters, given, OutputFile, header_code, source_code, write_files,
  finish, generate,
}

abbrev key : Bytes
key = codes "services_namespace"

-- The parameter that sets the namespace.
abbrev pub setting : Bytes → Bytes
setting v = codes "services_namespace" ++ b'=' ∷ v

-- A value that the parameter text can carry.
abbrev pub IsValue : Bytes → Type 0
IsValue v = Lacks b',' v × Lacks b'=' v

abbrev pub namespace : Bytes → Parameters
namespace v = record { services_namespace = v }

unfoldable pub after : Parameters → List Bytes → Parameters
after params [] = params
after params (v ∷ vs) = after (namespace v) vs

setting-tokens : (v : Bytes) → IsValue v → tokenize (setting v) (codes "=") ≡ key ∷ v ∷ []
setting-tokens v (_, h) = tokenize-join b'=' (key ∷ v ∷ []) (cc) (omega arith, (h, tt))

one-setting :
    (v : Bytes) (rest : List Bytes) (params : Parameters)
    → IsValue v
    → read_parameters (setting v ∷ rest) params ≡ read_parameters rest (namespace v)
unfolding read_parameters bytes_eq
one-setting v rest params h = rw (read_parameters, setting-tokens v h, setting-tokens v h) refl

read-settings :
    (vs rest : List Bytes) (params : Parameters)
    → All IsValue vs
    → read_parameters (map setting vs ++ rest) params ≡ read_parameters rest (after params vs)
unfolding after
read-settings [] rest params h = refl
read-settings (v ∷ vs) rest params (h, hs) =
    one-setting v (map setting vs ++ rest) params h ∙ read-settings vs rest (namespace v) hs

setting-Lacks : (v : Bytes) → IsValue v → Lacks b',' (setting v)
setting-Lacks v (h, _) =
    All-append (λ x. (x ≡ b',') → ⊥) key (b'=' ∷ v) (omega arith) (omega arith, h)

settings-Lacks : (vs : List Bytes) → All IsValue vs → All (Lacks b',') (map setting vs)
settings-Lacks [] h = tt
settings-Lacks (v ∷ vs) (h, hs) = (setting-Lacks v h, settings-Lacks vs hs)

join-full :
    (vs : List Bytes) (c : ℕ) (p : Bytes)
    → is_empty (join b',' (map setting vs ++ (c ∷ p) ∷ [])) ≡ false
join-full [] c p = refl
join-full (v ∷ []) c p = refl
join-full (v ∷ w ∷ vs) c p = refl

cons-ne-nil_last : (vs : List Bytes) (p : Bytes) → map setting vs ++ p ∷ [] ≢ []
cons-ne-nil_last [] p = cc
cons-ne-nil_last (v ∷ vs) p = cc

-- The parameter text of some settings and a last part, as it is read.
last-tokens :
    (vs : List Bytes) (p : Bytes)
    → All IsValue vs
    → Lacks b',' p
    → tokenize (join b',' (map setting vs ++ p ∷ [])) (codes ",") ≡ map setting vs ++ p ∷ []
last-tokens vs p h k =
    tokenize-join b',' (map setting vs ++ p ∷ []) (cons-ne-nil_last vs p)
      (All-append (Lacks b',') (map setting vs) (p ∷ []) (settings-Lacks vs h) (k, tt))

-- The parameter text of some settings and a last part: the settings are read, then the last part.
given-last :
    (vs : List Bytes) (c : ℕ) (p : Bytes)
    → All IsValue vs
    → Lacks b',' (c ∷ p)
    → given (join b',' (map setting vs ++ (c ∷ p) ∷ []))
      ≡ read_parameters ((c ∷ p) ∷ []) (after (namespace []) vs)
unfolding given
given-last vs c p h k =
    rw (join-full vs c p, last-tokens vs (c ∷ p) h k)
      (read-settings vs ((c ∷ p) ∷ []) (namespace []) h)

join-settings_full :
    (v : Bytes) (vs : List Bytes) → is_empty (join b',' (map setting (v ∷ vs))) ≡ false
join-settings_full v [] = refl
join-settings_full v (w ∷ vs) = refl

given-settings :
    (vs : List Bytes)
    → All IsValue vs
    → given (join b',' (map setting vs)) ≡ ok (after (namespace []) vs)
unfolding given after
given-settings [] h = refl
given-settings (v ∷ vs) h =
    rw
      (
        join-settings_full v vs,
        tokenize-join b',' (map setting (v ∷ vs)) (cc) (settings-Lacks (v ∷ vs) h),
      )
      (ap (λ l. read_parameters l (namespace [])) (sym (append-nil (map setting (v ∷ vs))))
        ∙ read-settings (v ∷ vs) [] (namespace []) h
        ∙ unfold read_parameters in refl)

unknown-part :
    (p k : Bytes) (params : Parameters)
    → get_elem? (tokenize p (codes "=")) 0 ≡ some k
    → bytes_eq k key ≡ false
    → read_parameters (p ∷ []) params ≡ refused (codes "Unknown parameter: " ++ p)
unfolding read_parameters
unknown-part p k params e u = rw (read_parameters, e, u) refl

bare-key : (params : Parameters) → read_parameters (key ∷ []) params ≡ fault
unfolding read_parameters bytes_eq tokenize
bare-key params = refl

module _ (render : Renderer) (file : FileDescriptor) where
  -- The texts of some lists of actions, one behind the other.
  abbrev pub texts : List (List Action) → Bytes
  texts parts = flat_map (λ actions. render (calls [] actions)) parts

  -- The header and the source that the service's file stands for.
  abbrev pub two_files : Parameters → List OutputFile
  two_files params =
      record {
        name = strip_proto file.name ++ codes ".grpc_cb.pb.h";
        content = texts (
            get_header_prologue file params
            ∷ get_header_includes file params
            ∷ get_header_services file params
            ∷ get_header_epilogue file params
            ∷ []);
      }
      ∷ record {
        name = strip_proto file.name ++ codes ".grpc_cb.pb.cc";
        content =
            texts (
              get_source_prologue file params
              ∷ get_source_includes file params
              ∷ get_source_descriptors file params
              ∷ get_source_services file params
              ∷ [])
            ++ get_source_epilogue file params;
      }
      ∷ []

  four_parts :
      (a b c d : List Action)
      → ((render (calls [] a) ++ render (calls [] b)) ++ render (calls [] c)) ++ render (calls [] d)
        ≡ texts (a ∷ b ∷ c ∷ d ∷ [])
  unfolding flat_map
  four_parts a b c d =
      let text : List Action → Bytes = λ actions. render (calls [] actions) in
      append_assoc (text a ++ text b) (text c) (text d)
      ∙ append_assoc (text a) (text b) (text c ++ text d)
      ∙ ap (λ l. text a ++ (text b ++ (text c ++ l))) (sym (append-nil (text d)))

  write_files-two : (params : Parameters) → write_files render file params ≡ two_files params
  unfolding write_files header_code source_code
  write_files-two params =
      let source =
        four_parts (get_source_prologue file params) (get_source_includes file params)
          (get_source_descriptors file params) (get_source_services file params) in
      let header =
        four_parts (get_header_prologue file params) (get_header_includes file params)
          (get_header_services file params) (get_header_epilogue file params) in
      cc

module _ (render : Renderer) (file : FileDescriptor)
    (plain : file.cc_generic_services ≡ false) where
  generate-plain : (p : Bytes) → generate render file p ≡ finish render file (given p)
  unfolding generate
  generate-plain p = simp plain

  -- With no parameter, or several settings, which are read in turn, two files are written, for the last
  -- namespace that is set, or for none: the name of the proto file with `.grpc_cb.pb.h`, which holds
  -- what is printed for the header, and with `.grpc_cb.pb.cc`, which holds what is printed for the
  -- source, each from its prologue to its epilogue.
  pub generate-settings :
      (vs : List Bytes)
      → All IsValue vs
      → generate render file (join b',' (map setting vs))
        ≡ ok (two_files render file (after (namespace []) vs))
  generate-settings vs h =
      generate-plain (join b',' (map setting vs))
      ∙ ap (finish render file) (given-settings vs h)
      ∙ ap ok (write_files-two render file (after (namespace []) vs))

  -- Behind settings, a part whose text in front of `=` is another key is refused, and the error
  -- names the part; no file is written.
  pub generate-unknown :
      (vs : List Bytes) (c : ℕ) (p k : Bytes)
      → All IsValue vs
      → Lacks b',' (c ∷ p)
      → get_elem? (tokenize (c ∷ p) (codes "=")) 0 ≡ some k
      → bytes_eq k (codes "services_namespace") ≡ false
      → generate render file (join b',' (map setting vs ++ (c ∷ p) ∷ []))
        ≡ refused (codes "Unknown parameter: " ++ c ∷ p)
  generate-unknown vs c p k values h e u =
      generate-plain (join b',' (map setting vs ++ (c ∷ p) ∷ []))
      ∙ ap (finish render file)
          (given-last vs c p values h ∙ unknown-part (c ∷ p) k (after (namespace []) vs) e u)

  -- Behind settings, the key with no `=` makes the plugin read a second part that is not there.
  pub generate-fault :
      (vs : List Bytes)
      → All IsValue vs
      → generate render file (join b',' (map setting vs ++ codes "services_namespace" ∷ [])) ≡ fault
  generate-fault vs values =
      generate-plain (join b',' (map setting vs ++ key ∷ []))
      ∙ ap (finish render file) (
          given-last vs b's' (codes "ervices_namespace") values (omega arith)
          ∙ bare-key (after (namespace []) vs))
