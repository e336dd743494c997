-- ===== src/Example/Db/RoundTrip.antt =====
-- `ParseDb` of helper.cc reads a file of the form that it asks for.
use grpc_cb.Base.{
  ℕ, zero, suc, ◌+◌, ◌≤◌, ◌<◌, ◌≡◌, refl, sym, ap, ◌∙◌, inl, inr, true, false, some, List, [], ◌∷◌,
  ◌++◌, map, append_assoc, arith, Bytes, codes, bytes_eq, length, length-append, All,
}
use grpc_cb.Example.Points.{Feature, new_feature}
use grpc_cb.Example.Db.Parser.{
  done, Parser, erase_spaces, finished, try_parse_one, make_parser, parse_loop, parse_db,
}
use grpc_cb.Example.Db.Print.{print_number, Entry, feature_of, print_entry, print_entries, IsEntry}
use grpc_cb.Example.Db.Cursor.{Reads, Reads-length}
use grpc_cb.Example.Db.Entries.{HasParsed, try_parse_one-HasParsed}

erase_spaces-erase_spaces : (s : Bytes) → erase_spaces (erase_spaces s) ≡ erase_spaces s
unfolding erase_spaces
erase_spaces-erase_spaces [] = refl
erase_spaces-erase_spaces (c ∷ s) = ground (arith, erase_spaces-erase_spaces s)

finished-end : (p : Parser) → Reads p [] → finished p ≡ true
unfolding finished
finished-end p r = ground (arith, Reads-length r)

finished-more : (p : Parser) (c : ℕ) (rest : Bytes) → Reads p (c ∷ rest) → finished p ≡ false
unfolding finished
finished-more p c rest r = ground (arith, Reads-length r)

-- One round of the loop.
parse_loop-next :
    (fuel : ℕ) (p : Parser) (features : List Feature) (f : Feature) (rest : Bytes)
    → finished p ≡ false
    → (h : HasParsed (try_parse_one new_feature p) f rest false)
    → parse_loop (suc fuel) p features ≡ parse_loop fuel h.after (features ++ f ∷ [])
unfolding parse_loop
parse_loop-next fuel p features f rest e h = rw (parse_loop, e, h.returned) refl

parse_loop-end :
    (fuel : ℕ) (p : Parser) (features : List Feature)
    → 0 < fuel
    → Reads p []
    → parse_loop fuel p features ≡ some (done features)
unfolding parse_loop
parse_loop-end zero p features h r = absurd (omega arith)
parse_loop-end (suc fuel) p features h r = rw (parse_loop, finished-end p r) refl

parse_loop-entries :
    (fuel : ℕ) (p : Parser) (e : Entry) (es : List Entry) (features : List Feature)
    → IsEntry e
    → All IsEntry es
    → p.failed ≡ false
    → Reads p (print_entries e es)
    → length es + 1 < fuel
    → parse_loop fuel p features ≡ some (done (features ++ map feature_of (e ∷ es)))
parse_loop-entries zero p e es features h hs w r k = absurd (omega arith)
parse_loop-entries (suc fuel) p e [] features h hs w r k =
    let one = try_parse_one-HasParsed p e (codes "}]") [] h (inr (refl, refl)) w r in
    parse_loop-next fuel p features (feature_of e) [] (finished-more p _ _ r) one
    ∙ parse_loop-end fuel one.after (features ++ feature_of e ∷ []) (omega (arith, k)) one.reads
parse_loop-entries (suc fuel) p e (e' ∷ es) features h (h', hs) w r k =
    let rest = print_entries e' es in
    let one = try_parse_one-HasParsed p e (codes "}," ++ rest) rest h (inl refl) w r in
    parse_loop-next fuel p features (feature_of e) rest (finished-more p _ _ r) one
    ∙ parse_loop-entries fuel one.after e' es (features ++ feature_of e ∷ []) h' hs one.same
        one.reads (omega (arith, k))
    ∙ ap (λ l. some (done l)) (append_assoc features (feature_of e ∷ []) (map feature_of (e' ∷ es)))

length-print_entry : (e : Entry) (rest : Bytes) → 2 + length rest ≤ length (print_entry e rest)
length-print_entry e rest = omega (
  arith,
  length-append (print_number e.latitude) (
      codes ",\"longitude\":"
      ++ (print_number e.longitude ++ (codes "},\"name\":\"" ++ (e.name ++ b'"' ∷ rest)))),
  length-append (print_number e.longitude) (codes "},\"name\":\"" ++ (e.name ++ b'"' ∷ rest)),
  length-append e.name (b'"' ∷ rest),
)

length-print_entries : (e : Entry) (es : List Entry) → length es + 1 ≤ length (print_entries e es)
length-print_entries e [] = omega (arith, length-print_entry e (codes "}]"))
length-print_entries e (e' ∷ es) =
    omega
      (arith, length-print_entry e (codes "}," ++ print_entries e' es), length-print_entries e' es)

-- A text that, with its spaces stripped, is the list of at least one feature in the form that the
-- parser asks for, is read as these features, in order, if no name holds a quote and the coordinates
-- are those of an `int32`.
pub parse_db-print_entries :
    (text : Bytes) (e : Entry) (es : List Entry)
    → IsEntry e
    → All IsEntry es
    → erase_spaces text ≡ codes "[" ++ print_entries e es
    → parse_db text ≡ some (done (map feature_of (e ∷ es)))
unfolding parse_db make_parser bytes_eq
parse_db-print_entries text e es h hs form =
    let again : erase_spaces (codes "[" ++ print_entries e es) ≡ codes "[" ++ print_entries e es =
      ap erase_spaces (sym form) ∙ erase_spaces-erase_spaces text ∙ form in
    rw (form, again)
      (parse_loop-entries (suc (length (codes "[" ++ print_entries e es)))
        (record { failed = false; db = codes "[" ++ print_entries e es; current = 1 }) e es [] h hs
        refl (record { left = refl; within = omega arith })
        (omega (arith, length-print_entries e es)))
