-- ===== src/Helpers/ClassNames.antt =====
-- `ClassName` of src/compiler/cpp_generator_helpers.h.
use grpc_cb.Base.{
  ℕ, ◌≡◌, refl, sym, ◌∙◌, Bool, true, false, [], ◌∷◌, ◌++◌, flat_map, append_assoc, append-nil,
  arith, Bytes, codes, if◌then◌else◌, length, drop, drop-length-append, Lacks,
}
use grpc_cb.Helpers.Replace.{dots_to_colons, dots_to_underscores}
use grpc_cb.Helpers.Replace.Dots.{dots_to_underscores-flat_map, substitute}
use grpc_cb.Helpers.Descriptors.{Descriptor, outermost, nested, full_name, short_name}

-- `while (outer->containing_type() != NULL) outer = outer->containing_type();`
unfoldable pub outer_of : Descriptor → Descriptor
outer_of (outermost full short) = outermost full short
outer_of (nested container full short) = outer_of container

unfoldable pub class_name : Descriptor → Bool → Bytes
unfolding outer_of full_name short_name
class_name descriptor qualified =
    let outer = outer_of descriptor in
    let outer_name = full_name outer in
    let inner_name = drop (length outer_name) (full_name descriptor) in
    if qualified
    then codes "::" ++ (dots_to_colons outer_name ++ dots_to_underscores inner_name)
    else short_name outer ++ dots_to_underscores inner_name

-- What protobuf says of a descriptor: a nested message's full name is that of its container, a dot
-- and its own name, and a name holds no dot.
abbrev pub IsDescriptor : Descriptor → Type 0
IsDescriptor (outermost full short) = Lacks b'.' short
IsDescriptor (nested container full short) =
    IsDescriptor container × Lacks b'.' short × (full ≡ full_name container ++ b'.' ∷ short)

-- The names of the nested messages around and at a descriptor, each behind an underscore.
unfoldable pub nested_names : Descriptor → Bytes
nested_names (outermost full short) = []
nested_names (nested container full short) = nested_names container ++ b'_' ∷ short

-- What stands behind the outermost message's full name.
dotted : Descriptor → Bytes
dotted (outermost full short) = []
dotted (nested container full short) = dotted container ++ b'.' ∷ short

full_name-dotted :
    (d : Descriptor) → IsDescriptor d → full_name d ≡ full_name (outer_of d) ++ dotted d
unfolding full_name outer_of dotted
full_name-dotted (outermost full short) h = sym (append-nil full)
full_name-dotted (nested container full short) (h, l, e) =
    rw (e, full_name-dotted container h)
      (append_assoc (full_name (outer_of container)) (dotted container) (b'.' ∷ short))

flat_map-append : (f : ℕ → Bytes) (s t : Bytes) → flat_map f (s ++ t) ≡ flat_map f s ++ flat_map f t
unfolding flat_map
flat_map-append f [] t = refl
flat_map-append f (c ∷ s) t =
    rw (flat_map-append f s t) (sym (append_assoc (f c) (flat_map f s) (flat_map f t)))

flat_map-same : (to s : Bytes) → Lacks b'.' s → flat_map (substitute b'.' to) s ≡ s
unfolding flat_map
flat_map-same to [] h = refl
flat_map-same to (c ∷ s) (h, hs) = ground (arith, flat_map-same to s hs)

underscored-dotted :
    (d : Descriptor)
    → IsDescriptor d
    → flat_map (substitute b'.' (codes "_")) (dotted d) ≡ nested_names d
unfolding dotted nested_names flat_map
underscored-dotted (outermost full short) h = refl
underscored-dotted (nested container full short) (h, l, e) =
    flat_map-append (substitute b'.' (codes "_")) (dotted container) (b'.' ∷ short)
    ∙ rw (underscored-dotted container h, flat_map-same (codes "_") short l) refl

-- The class of a message is named after its outermost message, whose dots become colons in the
-- qualified name, and after each nested message on the way, behind an underscore.
pub class_name_lem :
    (d : Descriptor)
    → IsDescriptor d
    → (class_name d true
        ≡ codes "::" ++ (dots_to_colons (full_name (outer_of d)) ++ nested_names d))
      × (class_name d false ≡ short_name (outer_of d) ++ nested_names d)
unfolding class_name
class_name_lem d h =
    let inner : dots_to_underscores (drop (length (full_name (outer_of d))) (full_name d))
        ≡ nested_names d =
      rw
        (
          full_name-dotted d h,
          drop-length-append (full_name (outer_of d)) (dotted d),
          dots_to_underscores-flat_map,
        )
        (underscored-dotted d h) in
    (rw inner refl, rw inner refl)
