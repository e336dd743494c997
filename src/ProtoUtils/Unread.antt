-- ===== src/ProtoUtils/Unread.antt =====
-- `Next` and `BackUp` of the reader against the bytes that it has yet to hand out.
use grpc_cb.Base.{
  ℕ, ◌+◌, ◌-◌, ◌≤◌, ◌<◌, ◌≡◌, refl, sym, ap, ◌∙◌, ◌⊎◌, inl, inr, true, none, some, List, [], ◌∷◌,
  ◌++◌, arith, Bytes, ltb, ltb→lt, Bool-cases, if◌then◌else◌, length, take, drop, length-append,
  take-append-drop,
}
use grpc_cb.Base.{length-drop, drop-append, drop_all}
use grpc_cb.ProtoUtils.Status.{is_ok}
use grpc_cb.ProtoUtils.Reader.{SliceReader, Reader, make_reader, next, back_up, byte_count}

abbrev pub concat : List Bytes → Bytes
concat [] = []
concat (s ∷ ss) = s ++ concat ss

module _ (api : SliceReader) where
  -- What is backed up of the last slice, and the slices that are not yet read.
  pub unread : Reader api → Bytes
  unread r = drop (length r.slice - r.backup_count) r.slice ++ concat (api.slices r.reader)

  pub record IsReader (r : Reader api) : Type 0 where
    pub working : is_ok r.status ≡ true
    pub backed : r.backup_count ≤ length r.slice
    pub counted : length r.slice ≤ r.byte_count

  pub rounds : Reader api → ℕ
  rounds r = (if ltb 0 r.backup_count then 1 else 0) + length (api.slices r.reader)

  -- A successful `Next`: the bytes come off the front of what is unread, and stand at the end of
  -- the current slice, so that any of them can be backed up.
  pub record Handed (r r' : Reader api) (d : Bytes) : Type 0 where
    pub taken : unread r ≡ d ++ unread r'
    pub valid : IsReader r'
    pub fresh : r'.backup_count ≡ 0
    pub front : Bytes
    pub last : r'.slice ≡ front ++ d
    pub count : byte_count api r' ≡ byte_count api r + length d
    pub fewer : rounds r' < rounds r

  next-backed :
      (r : Reader api)
      → IsReader r
      → 0 < r.backup_count
      → (next api r
          ≡ some (drop (length r.slice - r.backup_count) r.slice, record r { backup_count = 0 }))
        × Handed r (record r { backup_count = 0 }) (drop (length r.slice - r.backup_count) r.slice)
  unfolding next byte_count unread rounds
  next-backed r v h = (
    ground (arith, v.working),
    record {
      taken = sym (
          ap
            (λ l.
              drop (length r.slice - r.backup_count) r.slice ++ (l ++ concat (api.slices r.reader)))
            (drop_all (length r.slice - 0) r.slice (omega arith)));
      valid = record { working = v.working; backed = omega arith; counted = v.counted };
      fresh = refl;
      front = take (length r.slice - r.backup_count) r.slice;
      last = sym (take-append-drop (length r.slice - r.backup_count) r.slice);
      count =
          omega (arith, length-drop (length r.slice - r.backup_count) r.slice, v.backed, v.counted);
      fewer = ground arith;
    },
  )

  unread-whole : (r : Reader api) → r.backup_count ≡ 0 → unread r ≡ concat (api.slices r.reader)
  unfolding unread
  unread-whole r z =
      ap (λ l. l ++ concat (api.slices r.reader))
        (drop_all (length r.slice - r.backup_count) r.slice (omega (arith, z)))

  -- The last bytes of a text, from its last part.
  drop_last :
      (front d : Bytes) (count : ℕ)
      → count ≤ length d
      → drop (length (front ++ d) - count) (front ++ d) ≡ drop (length d - count) d
  drop_last front d count h =
      let n = length (front ++ d) - count in
      let past : length front ≤ n = omega (arith, length-append front d) in
      let rest : n - length front ≡ length d - count = omega (arith, length-append front d) in
      drop-append n front d
      ∙ ap (λ l. l ++ drop (n - length front) d) (drop_all n front past)
      ∙ ap (λ m. drop m d) rest

  next-end :
      (r : Reader api)
      → IsReader r
      → r.backup_count ≡ 0
      → api.slices r.reader ≡ []
      → (next api r ≡ none) × (unread r ≡ [])
  unfolding next unread
  next-end r v z e = (
    ground (arith, v.working, api.next-nil r.reader e),
    rw (e, z, drop_all (length r.slice - 0) r.slice (omega arith)) refl,
  )

  next-read :
      (r : Reader api) (s : Bytes) (ss : List Bytes)
      → IsReader r
      → r.backup_count ≡ 0
      → api.slices r.reader ≡ s ∷ ss
      → (r' : Reader api) × (next api r ≡ some (s, r')) × Handed r r' s
  unfolding next unread byte_count rounds
  next-read r s ss v z e =
      let (reader, read, left) = api.next-cons r.reader s ss e in
      (
        record r { byte_count = r.byte_count + length s; reader = reader; slice = s },
        ground (arith, v.working, read),
        record {
          taken =
              unread-whole r z
              ∙ ap concat e
              ∙ ap (λ l. s ++ l)
                  (sym (
                    unread-whole
                      (record r {
                        byte_count = r.byte_count + length s;
                        reader = reader;
                        slice = s;
                      })
                      z
                    ∙ ap concat left));
          valid = record { working = v.working; backed = omega (arith, z); counted = omega arith };
          fresh = z;
          front = [];
          last = refl;
          count = omega (arith, z);
          fewer = omega (arith, ap length e, ap length left);
        },
      )

  -- `Next` fails just at the end; otherwise it hands out the front of what is unread.
  pub next_lem :
      (r : Reader api)
      → IsReader r
      → ((next api r ≡ none) × (unread r ≡ []))
        ⊎ ((d : Bytes) × (r' : Reader api) × (next api r ≡ some (d, r')) × Handed r r' d)
  next_lem r v = elim (Bool-cases (ltb 0 r.backup_count)) [
    | inl b ↦
        let (e, h) = next-backed r v (ltb→lt 0 r.backup_count b) in
        inr (drop (length r.slice - r.backup_count) r.slice, record r { backup_count = 0 }, e, h)
    | inr b ↦ go (api.slices r.reader) refl (ground arith)
  ]
    where
      go :
          (ss : List Bytes)
          → api.slices r.reader ≡ ss
          → r.backup_count ≡ 0
          → ((next api r ≡ none) × (unread r ≡ []))
            ⊎ ((d : Bytes) × (r' : Reader api) × (next api r ≡ some (d, r')) × Handed r r' d)
      go [] e z = inl (next-end r v z e)
      go (s ∷ ss) e z = let (r', n, h) = next-read r s ss v z e in inr (s, r', n, h)

  -- `BackUp` of bytes that the last `Next` handed out puts them in front of what is unread.
  pub back_up_lem :
      (r r' : Reader api) (d : Bytes) (count : ℕ)
      → Handed r r' d
      → count ≤ length d
      → (unread (back_up api count r') ≡ drop (length d - count) d ++ unread r')
        × IsReader (back_up api count r')
        × (byte_count api (back_up api count r') + count ≡ byte_count api r')
  unfolding back_up unread byte_count
  back_up_lem r r' d count h k =
      let long : length r'.slice ≡ length h.front + length d =
        ap length h.last ∙ length-append h.front d in
      (
        ap (λ l. l ++ concat (api.slices r'.reader))
              (ap (λ l. drop (length l - count) l) h.last ∙ drop_last h.front d count k)
            ∙ ap (λ l. drop (length d - count) d ++ l) (sym (unread-whole r' h.fresh)),
        record {
          working = h.valid.working;
          backed = omega (arith, long);
          counted = h.valid.counted;
        },
        omega (arith, long, h.valid.counted, h.fresh),
      )

  pub rounds-le : (r : Reader api) → rounds r < length (api.slices r.reader) + 2
  unfolding rounds
  rounds-le r = ground arith

  -- A reader that has been set up reads what the slices of its buffer hold.
  pub make_reader-IsReader :
      (unset : api.State) (b : api.Buffer) (state : api.State)
      → api.init b ≡ some state
      → IsReader (make_reader api unset b)
        × (unread (make_reader api unset b) ≡ concat (api.slices state))
        × (rounds (make_reader api unset b) ≡ length (api.slices state))
  unfolding make_reader unread rounds
  make_reader-IsReader unset b state e =
      rw (e, make_reader)
        (record { working = refl; backed = omega arith; counted = omega arith }, refl, omega arith)
