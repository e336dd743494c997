-- ===== src/ProtoUtils/Carried.antt =====
-- From `GrpcBufferWriter` to `GrpcBufferReader`: what one side writes to a buffer, and the other reads.
use grpc_cb.Base.{
  ℕ, zero, suc, ◌<◌, ◌≡◌, refl, sym, ap, ◌∙◌, inl, inr, Option, none, some, List, [], ◌++◌, ◌>>=◌,
  arith, Bytes, length,
}
use grpc_cb.ProtoUtils.Writer.{SliceApi, make_writer, make_writer-IsWriter}
use grpc_cb.ProtoUtils.Filling.{SliceMemory, Round, all_kept, write_rounds, AllFit}
use grpc_cb.ProtoUtils.Filling.Sent.{write_rounds-Sent}
use grpc_cb.ProtoUtils.Reader.{SliceReader, Reader, make_reader, next}
use grpc_cb.ProtoUtils.Unread.{concat, unread, IsReader, rounds, next_lem, make_reader-IsReader}

module _ (slices : SliceReader) where
  -- A caller that asks for more until there is none: all that it was handed. `none` is a loop that needs
  -- more fuel.
  pub read_all : ℕ → Reader slices → Option Bytes
  unfolding next
  read_all zero r = none
  read_all (suc n) r = elim (next slices r) [
    | none ↦ some []
    | some (d, r') ↦ read_all n r' >>= (λ rest. some (d ++ rest))
  ]

  pub read_all-unread :
      (n : ℕ) (r : Reader slices)
      → IsReader slices r
      → rounds slices r < n
      → read_all n r ≡ some (unread slices r)
  unfolding read_all
  read_all-unread zero r v lt = absurd (omega arith)
  read_all-unread (suc n) r v lt = elim (next_lem slices r v) [
    | inl (e, u) ↦ rw (e, read_all) (ap some (sym u))
    | inr (d, r', e, h) ↦
        rw (e, read_all)
          (ap (λ o. o >>= (λ rest. some (d ++ rest)))
              (read_all-unread n r' h.valid (omega (arith, h.fewer)))
            ∙ ap some (sym h.taken))
  ]

-- From one side to the other. If each slice is filled to its length, no more is given back than was
-- handed out, every slice handed out shares its memory with the buffer's, and a reader can be set up
-- whose slices hold what the buffer does, then a caller of that reader that asks for more until there
-- is none gets exactly the bytes that were written and not given back, in order, and the writer has
-- counted them.
read_all-write_rounds :
    (api : SliceApi) (memory : SliceMemory api) (block_size : ℕ) (free : api.Slice)
    (row : List Round) (slices : SliceReader) (unset : slices.State) (b : slices.Buffer)
    (state : slices.State) (n : ℕ)
    → AllFit api memory row (make_writer api block_size free)
    → slices.init b ≡ some state
    → concat (slices.slices state)
      ≡ memory.contents (write_rounds api memory row (make_writer api block_size free)).slice_buffer
    → length (slices.slices state) < n
    → (read_all slices n (make_reader slices unset b) ≡ some (all_kept row))
      × ((write_rounds api memory row (make_writer api block_size free)).byte_count
          ≡ length (all_kept row))
read_all-write_rounds api memory block_size free row slices unset b state n fits opened same
      enough =
    let sent =
      write_rounds-Sent api memory row (make_writer api block_size free)
        (make_writer-IsWriter api block_size free) fits in
    let (valid, left, few) = make_reader-IsReader slices unset b state opened in
    let empty : memory.contents (make_writer api block_size free).slice_buffer ≡ [] =
      unfold make_writer in memory.contents-created in
    let zero_count : (make_writer api block_size free).byte_count ≡ 0 =
      unfold make_writer in refl in
    (
      read_all-unread slices n (make_reader slices unset b) valid (omega (arith, few))
          ∙ ap some (left ∙ same ∙ sent.holds ∙ ap (λ l. l ++ all_kept row) empty),
      omega (arith, sent.counted, zero_count),
    )
