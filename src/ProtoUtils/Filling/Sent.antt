-- ===== src/ProtoUtils/Filling/Sent.antt =====
-- What rounds of writing through `GrpcBufferWriter` leave in the buffer.
use mathlib.Core.Bool.{false≢true}
use grpc_cb.Base.{
  ℕ, ◌+◌, ◌-◌, ◌≤◌, ◌≡◌, sym, ap, ◌∙◌, inl, inr, true, List, [], ◌∷◌, ◌++◌, append-nil,
  append_assoc, arith, Bytes, ◌==◌, Bool-cases, length, take, drop, length-append,
}
use grpc_cb.Base.{length-take}
use grpc_cb.ProtoUtils.Writer.{
  SliceApi, Writer, next_slice, next, back_up, IsWriter, IsHanded, next_slice-le, back_up_lem,
  ==_sound,
}
use grpc_cb.ProtoUtils.Filling.{
  SliceMemory, Round, full, part, kept, all_kept, fill_slice, write_round, write_rounds, Fits,
  AllFit,
}

module _ (api : SliceApi) (memory : SliceMemory api) where
  pub size-fill :
      (s : api.Slice) (d : Bytes) → length d ≡ api.size s → api.size (memory.fill s d) ≡ length d
  size-fill s d h =
      sym (memory.length-bytes (memory.fill s d)) ∙ ap length (memory.bytes-fill s d h)

  pub fill_slice-IsHanded :
      (w : Writer api) (d : Bytes)
      → IsWriter api w
      → length d ≡ api.size (next_slice api w)
      → memory.shared (next_slice api w) ≡ true
      → IsHanded api (fill_slice api memory d (next api w))
  unfolding fill_slice next
  fill_slice-IsHanded w d v long shares =
      let s = next_slice api w in
      let same : api.size (memory.fill s d) ≡ api.size s = size-fill s d long ∙ long in
      record {
        before = w.slice_buffer;
        added = memory.poke-shared w.slice_buffer s d shares;
        counted = omega (arith, v.counted, same);
        within = omega (arith, same, next_slice-le api w v);
      }

  -- The buffer behind a `BackUp`: of the slice handed out last, the first bytes are left, and the others
  -- are those of the slice that is handed out next.
  pub contents-back_up :
      (w : Writer api) (count : ℕ) (before : api.SliceBuffer)
      → w.slice_buffer ≡ api.add before w.slice
      → api.size w.slice ≤ w.block_size
      → count ≤ api.size w.slice
      → (memory.contents (back_up api count w).slice_buffer
          ≡ memory.contents before ++ take (api.size w.slice - count) (memory.bytes w.slice))
        × (memory.bytes (next_slice api (back_up api count w))
            ≡ drop (api.size w.slice - count) (memory.bytes w.slice))
  unfolding back_up next_slice
  contents-back_up w count before added within le =
      let popped : memory.contents (api.pop w.slice_buffer) ≡ memory.contents before =
        ap (λ b. memory.contents (api.pop b)) added ∙ memory.contents-pop before w.slice in
      let left = api.size w.slice - count in
      elim (Bool-cases (count == w.block_size)) [
        | inl e ↦
            let none_left : left ≡ 0 = omega (arith, ==_sound count w.block_size e) in
            rw e (
              popped
                  ∙ sym (
                      ap (λ n. memory.contents before ++ take n (memory.bytes w.slice)) none_left
                      ∙ append-nil (memory.contents before)),
              ap (λ n. drop n (memory.bytes w.slice)) (sym none_left),
            )
        | inr e ↦
            let (front, tail) = memory.bytes-split w.slice left (omega arith) in
            rw e (
              memory.contents-add (api.pop w.slice_buffer) (api.split_tail w.slice left).0
                  ∙ ap (λ b. b ++ memory.bytes (api.split_tail w.slice left).0) popped
                  ∙ ap (λ b. memory.contents before ++ b) front,
              tail,
            )
      ]

  -- A round leaves a writer, whose buffer has got the bytes that were kept, and which has counted them.
  pub record Sent (w : Writer api) (sent : Bytes) (w' : Writer api) : Type 0 where
    pub valid : IsWriter api w'
    pub holds : memory.contents w'.slice_buffer ≡ memory.contents w.slice_buffer ++ sent
    pub counted : w'.byte_count ≡ w.byte_count + length sent

  write_full-Sent :
      (w : Writer api) (d : Bytes)
      → IsWriter api w
      → Fits api memory w (full d)
      → Sent w (kept (full d)) (write_round api memory (full d) w)
  unfolding write_round fill_slice next
  write_full-Sent w d v f =
      let s = next_slice api w in
      let buffer : memory.poke s d (api.add w.slice_buffer s)
          ≡ api.add w.slice_buffer (memory.fill s d) =
        memory.poke-shared w.slice_buffer s d f.shares in
      record {
        valid = record {
          counted = rw buffer (
              omega (
                arith,
                v.counted,
                f.whole,
                size-fill s d f.whole,
                api.total-add w.slice_buffer (memory.fill s d),
              ));
          within = λ e. absurd (false≢true e);
        };
        holds =
            ap memory.contents buffer
            ∙ memory.contents-add w.slice_buffer (memory.fill s d)
            ∙ ap (λ b. memory.contents w.slice_buffer ++ b) (memory.bytes-fill s d f.whole);
        counted = omega (arith, f.whole);
      }

  write_part-Sent :
      (w : Writer api) (d : Bytes) (count : ℕ)
      → IsWriter api w
      → Fits api memory w (part d count)
      → Sent w (kept (part d count)) (write_round api memory (part d count) w)
  unfolding write_round fill_slice next
  write_part-Sent w d count v f =
      let s = next_slice api w in
      let h = fill_slice-IsHanded w d v f.whole f.shares in
      let long : api.size (memory.fill s d) ≡ length d = size-fill s d f.whole in
      let le : count ≤ api.size (memory.fill s d) = omega (arith, long, f.within) in
      let (valid, count_back, _) =
        back_up_lem api (fill_slice api memory d (next api w)) count h le in
      record {
        valid = valid;
        holds =
            (contents-back_up (fill_slice api memory d (next api w)) count w.slice_buffer
              (memory.poke-shared w.slice_buffer s d f.shares) h.within le).0
            ∙ ap
                (λ b. memory.contents w.slice_buffer ++ take (api.size (memory.fill s d) - count) b)
                (memory.bytes-fill s d f.whole)
            ∙ ap (λ n. memory.contents w.slice_buffer ++ take (n - count) d) long;
        counted =
            omega (
              arith,
              count_back,
              f.whole,
              f.within,
              length-take (length d - count) d (omega arith),
            );
      }

  write_round-Sent :
      (w : Writer api) (round : Round)
      → IsWriter api w
      → Fits api memory w round
      → Sent w (kept round) (write_round api memory round w)
  write_round-Sent w (full d) v f = write_full-Sent w d v f
  write_round-Sent w (part d count) v f = write_part-Sent w d count v f

  -- For a writer that has counted the bytes of its buffer and keeps back at most a block: any rounds of
  -- `Next`, filling the slice and `BackUp` or not leave in the buffer, behind what it held, exactly the
  -- bytes that were not given back, in order, and `ByteCount` grows by their number, if each slice is
  -- filled to its length, no more is given back than was handed out, and every slice handed out shares
  -- its memory with the buffer's.
  pub write_rounds-Sent :
      (rounds : List Round) (w : Writer api)
      → IsWriter api w
      → AllFit api memory rounds w
      → Sent w (all_kept rounds) (write_rounds api memory rounds w)
  unfolding write_rounds
  write_rounds-Sent [] w v f = record {
    valid = v;
    holds = sym (append-nil (memory.contents w.slice_buffer));
    counted = omega arith;
  }
  write_rounds-Sent (round ∷ rounds) w v (f, fs) =
      let one = write_round-Sent w round v f in
      let rest = write_rounds-Sent rounds (write_round api memory round w) one.valid fs in
      record {
        valid = rest.valid;
        holds =
            rest.holds
            ∙ ap (λ b. b ++ all_kept rounds) one.holds
            ∙ append_assoc (memory.contents w.slice_buffer) (kept round) (all_kept rounds);
        counted =
            omega (arith, rest.counted, one.counted, length-append (kept round) (all_kept rounds));
      }
