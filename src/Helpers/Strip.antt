-- ===== src/Helpers/Strip.antt =====
-- `StripSuffix`, `StripPrefix` and `StripProto` of src/compiler/generator_helpers.h.
use grpc_cb.Base.{
  ◌-◌, ◌≡◌, refl, ap, ◌≢◌, ◌↔◌, Bool, true, false, ◌++◌, reverse, arith, Bytes, codes, bytes_eq,
  bytes_eq_iff, leb, le→leb, if◌then◌else◌, length, take, drop, length-append, take-length-append,
  drop-length-append, take-append-drop,
}
use mathlib.Core.List.{reverse-append}

-- The new file name, and what the function returns. `compare` from `suffix_pos` on is the
-- comparison of that tail, and `resize` to a smaller size keeps the front.
unfoldable pub strip_suffix : Bytes → Bytes → Bytes × Bool
strip_suffix filename suffix =
    if leb (length suffix) (length filename)
    then (let suffix_pos = length filename - length suffix in
        if bytes_eq (drop suffix_pos filename) suffix
        then (take (length filename - length suffix) filename, true)
        else (filename, false))
    else (filename, false)

unfoldable pub strip_prefix : Bytes → Bytes → Bytes × Bool
strip_prefix name prefix =
    if leb (length prefix) (length name)
    then (if bytes_eq (take (length prefix) name) prefix
        then (drop (length prefix) name, true)
        else (name, false))
    else (name, false)

abbrev protodevel_suffix : Bytes
protodevel_suffix = codes ".protodevel"

abbrev proto_suffix : Bytes
proto_suffix = codes ".proto"

unfoldable pub strip_proto : Bytes → Bytes
strip_proto filename =
    let (stripped, done) = strip_suffix filename protodevel_suffix in
    if done then stripped else (strip_suffix stripped proto_suffix).0

strip_suffix-append : (b suffix : Bytes) → strip_suffix (b ++ suffix) suffix ≡ (b, true)
unfolding strip_suffix
strip_suffix-append b suffix =
    let n : length (b ++ suffix) - length suffix ≡ length b =
      omega (arith, length-append b suffix) in
    let fits : leb (length suffix) (length (b ++ suffix)) ≡ true =
      le→leb _ _ (omega (arith, length-append b suffix)) in
    rw (
      fits,
      n,
      drop-length-append b suffix,
      take-length-append b suffix,
      (bytes_eq_iff suffix suffix).1 refl,
    )

-- What is stripped, when something is.
strip_suffix_sound : (f suffix b : Bytes) → strip_suffix f suffix ≡ (b, true) → f ≡ b ++ suffix
unfolding strip_suffix
strip_suffix_sound f suffix b h = ground (
  arith,
  take-append-drop (length f - length suffix) f,
  bytes_eq_iff (drop (length f - length suffix) f) suffix,
)

-- Exactly the names that end in the suffix are stripped, and the rest of such a name is returned.
strip_suffix-true_iff :
    (f suffix b : Bytes) → (strip_suffix f suffix ≡ (b, true)) ↔ (f ≡ b ++ suffix)
strip_suffix-true_iff f suffix b =
    (strip_suffix_sound f suffix b, λ e. rw e (strip_suffix-append b suffix))

-- A name that is not stripped comes back unchanged.
strip_suffix-false :
    (f suffix : Bytes) → (strip_suffix f suffix).1 ≡ false → (strip_suffix f suffix).0 ≡ f
unfolding strip_suffix
strip_suffix-false f suffix h = ground arith

-- Exactly the names that begin with the prefix are stripped, and the rest of such a name is returned.
strip_prefix-true_iff :
    (name prefix rest : Bytes) → (strip_prefix name prefix ≡ (rest, true)) ↔ (name ≡ prefix ++ rest)
unfolding strip_prefix
strip_prefix-true_iff name prefix rest = (
  λ h. ground (
    arith,
    take-append-drop (length prefix) name,
    bytes_eq_iff (take (length prefix) name) prefix,
  ),
  λ e. rw e (
      rw (
        le→leb (length prefix) (length (prefix ++ rest)) (omega (arith, length-append prefix rest)),
        take-length-append prefix rest,
        drop-length-append prefix rest,
        (bytes_eq_iff prefix prefix).1 refl,
      )),
)

-- The two suffixes differ in their last byte.
proto-ne-protodevel : (b c : Bytes) → b ++ proto_suffix ≢ c ++ protodevel_suffix
proto-ne-protodevel b c e =
    let back : reverse (b ++ proto_suffix) ≡ reverse (c ++ protodevel_suffix) = ap reverse e in
    ground (arith, reverse-append b proto_suffix, reverse-append c protodevel_suffix, back)

not_stripped :
    (f suffix : Bytes) → ((b : Bytes) → f ≢ b ++ suffix) → strip_suffix f suffix ≡ (f, false)
unfolding strip_suffix
not_stripped f suffix h = ground (
  arith,
  take-append-drop (length f - length suffix) f,
  bytes_eq_iff (drop (length f - length suffix) f) suffix,
  h (take (length f - length suffix) f),
)

-- A file name that ends in `.protodevel` or in `.proto` loses that suffix, once.
strip_proto_lem :
    (b : Bytes)
    → (strip_proto (b ++ codes ".protodevel") ≡ b) × (strip_proto (b ++ codes ".proto") ≡ b)
unfolding strip_proto
strip_proto_lem b = (
  rw (strip_suffix-append b protodevel_suffix),
  rw (
    not_stripped (b ++ proto_suffix) protodevel_suffix (λ c. proto-ne-protodevel b c),
    strip_suffix-append b proto_suffix,
  ),
)

-- Any other file name is kept.
strip_proto-other :
    (b : Bytes)
    → ((c : Bytes) → b ≢ c ++ codes ".protodevel")
    → ((c : Bytes) → b ≢ c ++ codes ".proto")
    → strip_proto b ≡ b
unfolding strip_proto
strip_proto-other b h k =
    rw (not_stripped b protodevel_suffix h, not_stripped b proto_suffix k) refl
