-- ===== src/ProtoUtils/Skip.antt =====
-- `Skip` of the reader against the bytes that it has yet to hand out.
use grpc_cb.Base.{
  ℕ, zero, suc, ◌+◌, ◌-◌, ◌≤◌, ◌<◌, ◌≡◌, refl, sym, ap, ◌∙◌, inl, inr, Bool, true, false, Option,
  none, some, [], ◌++◌, append_assoc, arith, Bytes, leb, le→leb, leb→le, Bool-cases, length, take,
  drop, length-append, take-append-drop,
}
use mathlib.Core.Path.{subst}
use grpc_cb.Base.{length-drop, drop_nil, drop-append, drop_all}
use grpc_cb.ProtoUtils.Reader.{SliceReader, Reader, next, back_up, byte_count, skip_loop, skip}
use grpc_cb.ProtoUtils.Unread.{unread, IsReader, rounds, Handed, next_lem, back_up_lem, rounds-le}

module _ (api : SliceReader) where
  -- What `Skip` does, for a count of at least one byte.
  pub record Skipped (count : ℕ) (r : Reader api) (out : Option (Bool × Reader api)) : Type 0 where
    pub after : Reader api
    pub returned : out ≡ some (leb count (length (unread api r)), after)
    pub left : unread api after ≡ drop count (unread api r)
    pub valid : IsReader api after
    pub counted :
        byte_count api after + length (unread api after) ≡ byte_count api r + length (unread api r)

  same_test : (count n m k : ℕ) → n < count → k ≡ n + m → leb (count - n) m ≡ leb count k
  same_test count n m k h e = ground arith

  length-taken :
      (r r' : Reader api) (d : Bytes)
      → Handed api r r' d
      → length (unread api r) ≡ length d + length (unread api r')
  length-taken r r' d g = ap length g.taken ∙ length-append d (unread api r')

  drop-taken :
      (count : ℕ) (r r' : Reader api) (d : Bytes)
      → Handed api r r' d
      → drop count (unread api r) ≡ drop count d ++ drop (count - length d) (unread api r')
  drop-taken count r r' d g = ap (drop count) g.taken ∙ drop-append count d (unread api r')

  -- The three ways of a round: nothing is left, the skip ends in what was handed out, or it goes on.
  round-at_end :
      (fuel count : ℕ) (r : Reader api)
      → IsReader api r
      → 0 < count
      → next api r ≡ none
      → unread api r ≡ []
      → Skipped count r (skip_loop api (suc fuel) count r)
  unfolding skip_loop
  round-at_end fuel count r v k e u = record {
    after = r;
    returned = rw (skip_loop, e, u) (ground arith);
    left = rw u (sym (drop_nil count));
    valid = v;
    counted = refl;
  }

  round-within :
      (fuel count : ℕ) (r r' : Reader api) (d : Bytes)
      → next api r ≡ some (d, r')
      → Handed api r r' d
      → leb count (length d) ≡ true
      → Skipped count r (skip_loop api (suc fuel) count r)
  unfolding skip_loop
  round-within fuel count r r' d e g t =
      let le : count ≤ length d = leb→le count (length d) t in
      let long = length-taken r r' d g in
      let (u, valid, c) = back_up_lem api r r' d (length d - count) g (omega arith) in
      let cut : length d - (length d - count) ≡ count = omega (arith, le) in
      let none_left : count - length d ≡ 0 = omega (arith, le) in
      record {
        after = back_up api (length d - count) r';
        returned =
            rw (skip_loop, e, t)
              (ap (λ b. some (b, back_up api (length d - count) r'))
                (sym (le→leb count (length (unread api r)) (omega (arith, le, long)))));
        left =
            u
            ∙ ap (λ n. drop n d ++ unread api r') cut
            ∙ sym (
                drop-taken count r r' d g
                ∙ ap (λ n. drop count d ++ drop n (unread api r')) none_left);
        valid = valid;
        counted = omega (
          arith,
          c,
          g.count,
          long,
          le,
          ap length u,
          length-append (drop (length d - (length d - count)) d) (unread api r'),
          length-drop (length d - (length d - count)) d,
        );
      }

  round-beyond :
      (fuel count : ℕ) (r r' : Reader api) (d : Bytes)
      → next api r ≡ some (d, r')
      → Handed api r r' d
      → leb count (length d) ≡ false
      → length d < count
      → Skipped (count - length d) r' (skip_loop api fuel (count - length d) r')
      → Skipped count r (skip_loop api (suc fuel) count r)
  unfolding skip_loop
  round-beyond fuel count r r' d e g f more s = record {
    after = s.after;
    returned =
        rw (skip_loop, e, f)
          (s.returned
            ∙ ap (λ b. some (b, s.after))
                (same_test count (length d) (length (unread api r')) (length (unread api r)) more
                  (length-taken r r' d g)));
    left =
        s.left
        ∙ sym (
            drop-taken count r r' d g
            ∙ ap (λ l. l ++ drop (count - length d) (unread api r'))
                (drop_all count d (omega arith)));
    valid = s.valid;
    counted = omega (arith, s.counted, g.count, length-taken r r' d g);
  }

  skip_loop-Skipped :
      (fuel count : ℕ) (r : Reader api)
      → IsReader api r
      → rounds api r < fuel
      → 0 < count
      → Skipped count r (skip_loop api fuel count r)
  skip_loop-Skipped zero count r v h k = elim h [ ]
  skip_loop-Skipped (suc fuel) count r v h k = elim (next_lem api r v) [
    | inl (e, u) ↦ round-at_end fuel count r v k e u
    | inr (d, r', e, g) ↦ elim (Bool-cases (leb count (length d))) [
      | inl t ↦ round-within fuel count r r' d e g t
      | inr f ↦
          let more : length d < count = ground arith in
          let s =
            skip_loop-Skipped fuel (count - length d) r' g.valid (omega (arith, g.fewer))
              (omega arith) in
          round-beyond fuel count r r' d e g f more s
    ]
  ]

  -- For a reader that was set up, and backs up no more than its current slice, which it has counted,
  -- `Skip` of at least one byte returns: `true` exactly if so many bytes are unread. It takes the
  -- first `count` of them off, or all where there are fewer, and `ByteCount` grows by their number;
  -- what is left is such a reader again.
  pub skip-Skipped :
      (count : ℕ) (r : Reader api) → IsReader api r → 0 < count → Skipped count r (skip api count r)
  unfolding skip
  skip-Skipped count r v k =
      skip_loop-Skipped (length (api.slices r.reader) + 2) count r v (rounds-le api r) k

  -- For a reader that was set up, and backs up no more than its current slice, which it has counted:
  -- bytes that `Next` hands out come off the front of what is unread, and `BackUp` of some of them
  -- puts those back: the bytes kept and what is then unread spell what was unread before.
  unread-back_up :
      (r r' : Reader api) (d : Bytes) (count : ℕ)
      → IsReader api r
      → next api r ≡ some (d, r')
      → count ≤ length d
      → (take (length d - count) d ++ unread api (back_up api count r') ≡ unread api r)
        × IsReader api (back_up api count r')
  unread-back_up r r' d count v e k = elim (next_lem api r v) [
    | inl (n, u) ↦ cc
    | inr (d', r'', e', g) ↦
        let same : (d' ≡ d) × (r'' ≡ r') = (cc, cc) in
        let h : Handed api r r' d =
          subst (λ x. Handed api r x d) (same.1) (subst (λ x. Handed api r r'' x) (same.0) g) in
        let (u, valid, c) = back_up_lem api r r' d count h k in
        (
          ap (λ l. take (length d - count) d ++ l) u
              ∙ sym (
                  append_assoc (take (length d - count) d) (drop (length d - count) d)
                    (unread api r'))
              ∙ ap (λ l. l ++ unread api r') (take-append-drop (length d - count) d)
              ∙ sym h.taken,
          valid,
        )
  ]
