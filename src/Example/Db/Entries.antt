-- ===== src/Example/Db/Entries.antt =====
-- That the parser of helper.cc reads a feature that is printed in its form, whatever follows it.
use grpc_cb.Base.{
  ◌+◌, ◌-◌, ◌<◌, ◌≡◌, refl, sym, ap, ◌∙◌, inl, inr, Bool, true, false, ◌||◌, [], ◌∷◌, ◌++◌,
  append_assoc, arith, Bytes, codes, ◌==◌, leb, length, take, drop, length-append, Lacks,
}
use grpc_cb.Base.Int.{ℤ}
use grpc_cb.Example.Points.{Feature, new_feature, IsInt32, to_int32_id}
use grpc_cb.Example.Db.Parser.{
  Outcome, done, Parser, name_length, set_latitude, set_longitude, parse_name, after_longitude,
  parse_longitude, after_latitude, parse_latitude, finished, try_parse_one,
}
use grpc_cb.Example.Db.Print.{print_number, Entry, feature_of, print_entry, IsEntry}
use grpc_cb.Example.Db.Cursor.{
  Reads, Reads-length, move, move-Reads, match_all-true, read_long-print_number, name_length-quote,
  take-length_of, IsEnd, finish_one-end,
}

-- A step has read a feature and goes on at the rest.
pub record HasParsed (out : Outcome (Bool × Feature × Parser)) (f : Feature) (rest : Bytes)
    (failed : Bool) : Type 0 where
  pub after : Parser
  pub returned : out ≡ done (true, f, after)
  pub reads : Reads after rest
  pub same : after.failed ≡ failed

end-ne-nil : (end rest : Bytes) → IsEnd end rest → 0 < length end
end-ne-nil end rest (inl e) = rw e (omega arith)
end-ne-nil end rest (inr (e, _)) = rw e (omega arith)

parse_name-HasParsed :
    (f : Feature) (p : Parser) (name end rest : Bytes)
    → Lacks b'"' name
    → IsEnd end rest
    → Reads p (name ++ b'"' ∷ end)
    → HasParsed (parse_name f (done (true, p))) (record f { name = name }) rest p.failed
unfolding parse_name
parse_name-HasParsed f p name end rest h k r =
    let read : name_length (drop p.current p.db) ≡ length name + 1 =
      ap name_length r.left ∙ name_length-quote name end h in
    let named : take (name_length (drop p.current p.db) - 1) (drop p.current p.db) ≡ name =
      ap (take (name_length (drop p.current p.db) - 1)) r.left
      ∙ take-length_of name (b'"' ∷ end) (name_length (drop p.current p.db) - 1)
          (omega (arith, read)) in
    let spelled : name ++ b'"' ∷ end ≡ (name ++ b'"' ∷ []) ++ end =
      sym (append_assoc name (b'"' ∷ []) end) in
    let moved =
      move-Reads p (name ++ b'"' ∷ []) end
        (record { left = r.left ∙ spelled; within = r.within }) in
    let far : length (name ++ b'"' ∷ []) ≡ length name + 1 = length-append name (b'"' ∷ []) in
    let (p', e, r', s) =
      finish_one-end (record f { name = name }) (move (length name + 1) p) end rest
        (rw far at moved) k in
    let more : ((p.current + (length name + 1)) == length p.db) ≡ false =
      ground (arith, Reads-length r, length-append name (b'"' ∷ end), end-ne-nil end rest k) in
    record { after = p'; returned = rw (named, read, more) e; reads = r'; same = s }

-- The name of a feature as it is read, from the parts of its text in turn.
longitude-HasParsed :
    (f : Feature) (p : Parser) (name : Bytes) (longitude : ℤ) (end rest : Bytes)
    → Lacks b'"' name
    → IsInt32 longitude
    → IsEnd end rest
    → Reads p (print_number longitude ++ (codes "},\"name\":\"" ++ (name ++ b'"' ∷ end)))
    → HasParsed
        (parse_longitude f (done (true, p)))
        (record (set_longitude longitude f) { name = name })
        rest
        p.failed
unfolding parse_longitude after_longitude
longitude-HasParsed f p name longitude end rest h int k r =
    let (p1, e1, r1, s1) =
      read_long-print_number longitude p b'}' (codes ",\"name\":\"" ++ (name ++ b'"' ∷ end)) int
        (inr refl) r in
    let (p2, e2, r2, s2) =
      match_all-true (codes "}," ∷ codes "\"name\":" ∷ codes "\"" ∷ []) p1 (name ++ b'"' ∷ end)
        r1 in
    let read = parse_name-HasParsed (set_longitude longitude f) p2 name end rest h k r2 in
    record {
      after = read.after;
      returned = rw (e1, after_longitude, e2) (read.returned);
      reads = read.reads;
      same = read.same ∙ s2 ∙ s1;
    }

latitude-HasParsed :
    (f : Feature) (p : Parser) (e : Entry) (end rest : Bytes)
    → IsEntry e
    → IsEnd end rest
    → Reads p (
        print_number e.latitude
        ++ (codes ",\"longitude\":"
            ++ (print_number e.longitude ++ (codes "},\"name\":\"" ++ (e.name ++ b'"' ∷ end)))))
    → HasParsed
        (parse_latitude f (done (true, p)))
        (record (set_longitude e.longitude (set_latitude e.latitude f)) { name = e.name })
        rest
        p.failed
unfolding parse_latitude after_latitude
latitude-HasParsed f p e end rest (h, lat, long) k r =
    let tail = print_number e.longitude ++ (codes "},\"name\":\"" ++ (e.name ++ b'"' ∷ end)) in
    let (p1, e1, r1, s1) =
      read_long-print_number e.latitude p b',' (codes "\"longitude\":" ++ tail) lat (inl refl) r in
    let (p2, e2, r2, s2) = match_all-true (codes "," ∷ codes "\"longitude\":" ∷ []) p1 tail r1 in
    let read =
      longitude-HasParsed (set_latitude e.latitude f) p2 e.name e.longitude end rest h long k r2 in
    record {
      after = read.after;
      returned = rw (e1, after_latitude, e2) (read.returned);
      reads = read.reads;
      same = read.same ∙ s2 ∙ s1;
    }

-- A printed feature is read, whatever follows it.
pub try_parse_one-HasParsed :
    (p : Parser) (e : Entry) (end rest : Bytes)
    → IsEntry e
    → IsEnd end rest
    → p.failed ≡ false
    → Reads p (print_entry e end)
    → HasParsed (try_parse_one new_feature p) (feature_of e) rest false
unfolding try_parse_one finished
try_parse_one-HasParsed p e end rest h k w r =
    let tail =
      print_number e.latitude
      ++ (codes ",\"longitude\":"
          ++ (print_number e.longitude ++ (codes "},\"name\":\"" ++ (e.name ++ b'"' ∷ end)))) in
    let (p1, e1, r1, s1) =
      match_all-true (codes "{" ∷ codes "\"location\":" ∷ codes "{" ∷ codes "\"latitude\":" ∷ []) p
        tail r in
    let read = latitude-HasParsed new_feature p1 e end rest h k r1 in
    let more : (p.failed || leb (length p.db) p.current) ≡ false =
      ground (arith, w, Reads-length r) in
    let stored : record (set_longitude e.longitude (set_latitude e.latitude new_feature)) {
      name = e.name;
    }
        ≡ feature_of e =
      rw (to_int32_id e.latitude (h.1), to_int32_id e.longitude (h.2)) refl in
    record {
      after = read.after;
      returned = rw (more, e1) (read.returned ∙ ap (λ f. done (true, f, read.after)) stored);
      reads = read.reads;
      same = read.same ∙ s1 ∙ w;
    }
