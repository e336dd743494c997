-- ===== src/ProtoUtils/InputStream.antt =====
-- `GrpcBufferReader` against the contract of protobuf's ZeroCopyInputStream, over any row of calls.
use grpc_cb.Base.{
  ℕ, suc, ◌+◌, ◌-◌, ◌≤◌, ◌<◌, ◌≡◌, refl, sym, ap, ◌∙◌, inl, inr, Bool, Option, none, some, List, [],
  ◌∷◌, ◌++◌, append_assoc, arith, Bytes, leb, length, take, drop, take-append-drop, ◌>>=◌,
}
use grpc_cb.Base.{length-take_min, drop_all, leb→le, Bool-cases}
use grpc_cb.ProtoUtils.Reader.{SliceReader, Reader, next, back_up, byte_count, skip}
use grpc_cb.ProtoUtils.Unread.{unread, IsReader, next_lem, back_up_lem}
use grpc_cb.ProtoUtils.Skip.{skip-Skipped}

-- What a caller does: `Next`, and keep all that it hands out; `Next`, and `BackUp` of what is behind the
-- first bytes; or `Skip` of one byte more than the number.
pub data Call : Type 0 where
  take_all : Call
  take_first : ℕ → Call
  skip_past : ℕ → Call

-- What it gets: bytes that it keeps, that there are none, or what `Skip` returns.
pub data Reply : Type 0 where
  got : Bytes → Reply
  ended : Reply
  skipped : Bool → Reply

-- The contract of one call: the bytes in front of the stream before and behind the call, and its
-- position. Bytes come off the front, and none is given out twice or lost; the stream ends only
-- where it is empty.
abbrev pub Allowed : Call → Reply → Bytes → ℕ → Bytes → ℕ → Type 0
Allowed take_all (got d) rest position rest' position' =
    (rest ≡ d ++ rest') × (position' ≡ position + length d)
Allowed take_all ended rest position rest' position' =
    (rest ≡ []) × (rest' ≡ []) × (position' ≡ position)
Allowed take_all (skipped b) rest position rest' position' = ⊥
Allowed (take_first k) (got d) rest position rest' position' =
    (rest ≡ d ++ rest') × (position' ≡ position + length d) × (length d ≤ k)
Allowed (take_first k) ended rest position rest' position' =
    (rest ≡ []) × (rest' ≡ []) × (position' ≡ position)
Allowed (take_first k) (skipped b) rest position rest' position' = ⊥
Allowed (skip_past n) (got d) rest position rest' position' = ⊥
Allowed (skip_past n) ended rest position rest' position' = ⊥
Allowed (skip_past n) (skipped b) rest position rest' position' =
    (b ≡ leb (suc n) (length rest))
    × (rest' ≡ drop (suc n) rest)
    × (position' + length rest' ≡ position + length rest)

module _ (api : SliceReader) where
  -- What a caller keeps of the bytes that `Next` hands out, and the reader then.
  abbrev pub back_up_behind : ℕ → Bytes × Reader api → Reply × Reader api
  back_up_behind k (d, r) = (got (take k d), back_up api (length d - k) r)

  unfoldable pub perform : Call → Reader api → Option (Reply × Reader api)
  unfolding next back_up skip
  perform take_all r = elim (next api r) [
    | none ↦ some (ended, r)
    | some (d, r') ↦ some (got d, r')
  ]
  perform (take_first k) r = elim (next api r) [
    | none ↦ some (ended, r)
    | some handed ↦ some (back_up_behind k handed)
  ]
  perform (skip_past n) r =
      skip api (suc n) r >>= (λ (outcome : Bool × Reader api). some (skipped outcome.0, outcome.1))

  -- A call returns, as the contract allows, and leaves a reader.
  pub record Obeys (call : Call) (r : Reader api) : Type 0 where
    pub reply : Reply
    pub after : Reader api
    pub returned : perform call r ≡ some (reply, after)
    pub valid : IsReader api after
    pub allowed :
        Allowed call reply
          (unread api r)
          (byte_count api r)
          (unread api after)
          (byte_count api after)

  take_all-Obeys : (r : Reader api) → IsReader api r → Obeys take_all r
  unfolding perform
  take_all-Obeys r v = elim (next_lem api r v) [
    | inl (e, u) ↦ record {
      reply = ended;
      after = r;
      returned = rw (e, perform) refl;
      valid = v;
      allowed = (u, u, refl);
    }
    | inr (d, r', e, h) ↦ record {
      reply = got d;
      after = r';
      returned = rw (e, perform) refl;
      valid = h.valid;
      allowed = (h.taken, h.count);
    }
  ]

  -- The first bytes of a text, and what `BackUp` of the others leaves.
  take-append-back_up : (k : ℕ) (d : Bytes) → take k d ++ drop (length d - (length d - k)) d ≡ d
  take-append-back_up k d = elim (Bool-cases (leb k (length d))) [
    | inl e ↦
        let cut : length d - (length d - k) ≡ k = omega (arith, leb→le k (length d) e) in
        ap (λ n. take k d ++ drop n d) cut ∙ take-append-drop k d
    | inr e ↦
        let past : length d < k = ground arith in
        ap (λ l. take k d ++ l)
          (drop_all (length d - (length d - k)) d (omega arith) ∙ sym (drop_all k d (omega arith)))
        ∙ take-append-drop k d
  ]

  take_first-Obeys : (k : ℕ) (r : Reader api) → IsReader api r → Obeys (take_first k) r
  unfolding perform
  take_first-Obeys k r v = elim (next_lem api r v) [
    | inl (e, u) ↦ record {
      reply = ended;
      after = r;
      returned = rw (e, perform) refl;
      valid = v;
      allowed = (u, u, refl);
    }
    | inr (d, r', e, h) ↦
        let (u, valid, c) = back_up_lem api r r' d (length d - k) h (omega arith) in
        let (short, parts) = length-take_min k d in
        record {
          reply = got (take k d);
          after = back_up api (length d - k) r';
          returned = rw (e, perform) refl;
          valid = valid;
          allowed = (
            h.taken
                ∙ ap (λ l. l ++ unread api r') (sym (take-append-back_up k d))
                ∙ append_assoc (take k d) (drop (length d - (length d - k)) d) (unread api r')
                ∙ ap (λ l. take k d ++ l) (sym u),
            omega (arith, c, h.count, parts),
            short,
          );
        }
  ]

  skip_past-Obeys : (n : ℕ) (r : Reader api) → IsReader api r → Obeys (skip_past n) r
  unfolding perform
  skip_past-Obeys n r v =
      let s = skip-Skipped api (suc n) r v (omega arith) in
      record {
        reply = skipped (leb (suc n) (length (unread api r)));
        after = s.after;
        returned = rw (s.returned) refl;
        valid = s.valid;
        allowed = (refl, s.left, s.counted);
      }

  call-Obeys : (call : Call) (r : Reader api) → IsReader api r → Obeys call r
  call-Obeys take_all r v = take_all-Obeys r v
  call-Obeys (take_first k) r v = take_first-Obeys k r v
  call-Obeys (skip_past n) r v = skip_past-Obeys n r v

  -- A row of calls, each of which returns as the contract allows.
  abbrev pub AllObey : List Call → Reader api → Type 0
  AllObey [] r = Unit
  AllObey (call ∷ calls) r = (o : Obeys call r) × AllObey calls o.after

  -- Over a reader that was set up, and backs up no more than its current slice, which it has counted,
  -- any row of calls of `Next`, with a `BackUp` of a part or without, and of `Skip` of at least one
  -- byte keeps the contract of an input stream: every call returns; bytes come off the front of the
  -- unread ones, none twice and none lost; the stream ends only where nothing is unread; `Skip` is
  -- `true` exactly if there are so many bytes; and `ByteCount` is the position.
  pub calls-AllObey : (calls : List Call) (r : Reader api) → IsReader api r → AllObey calls r
  calls-AllObey [] r v = tt
  calls-AllObey (call ∷ calls) r v =
      let o = call-Obeys call r v in (o, calls-AllObey calls o.after o.valid)
