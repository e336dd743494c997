-- ===== src/ProtoUtils/Filling/Lost.antt =====
-- What `GrpcBufferWriter` loses when it keeps back an inlined slice.
use grpc_cb.Base.{
  ℕ, ◌-◌, ◌≡◌, ap, ◌∙◌, false, [], ◌∷◌, ◌++◌, append_assoc, arith, Bytes, length, take, drop,
  take-append-drop,
}
use grpc_cb.ProtoUtils.Writer.{SliceApi, Writer, next_slice, next, back_up, IsWriter}
use grpc_cb.ProtoUtils.Filling.{
  SliceMemory, full, part, fill_slice, write_round, write_rounds, Fits,
}
use grpc_cb.ProtoUtils.Filling.Sent.{size-fill, fill_slice-IsHanded, contents-back_up}

module _ (api : SliceApi) (memory : SliceMemory api) where
  -- If the bytes given back stand in an inlined slice, the next round is lost: whatever the caller
  -- writes to that slice, the buffer gets the bytes that had been given back in its place.
  pub back_up-lost :
      (w : Writer api) (d d' : Bytes) (count : ℕ)
      → IsWriter api w
      → Fits api memory w (part d count)
      → memory.shared (next_slice api (write_round api memory (part d count) w)) ≡ false
      → memory.contents (write_rounds api memory (part d count ∷ full d' ∷ []) w).slice_buffer
        ≡ memory.contents w.slice_buffer ++ d
  unfolding write_rounds write_round fill_slice next
  back_up-lost w d d' count v f inlined =
      let s = next_slice api w in
      let w' = fill_slice api memory d (next api w) in
      let h = fill_slice-IsHanded api memory w d v f.whole f.shares in
      let long : api.size (memory.fill s d) ≡ length d = size-fill api memory s d f.whole in
      let (front, tail) =
        contents-back_up api memory w' count w.slice_buffer
          (memory.poke-shared w.slice_buffer s d f.shares) h.within
          (omega (arith, long, f.within)) in
      let b = (back_up api count w').slice_buffer in
      let again = next_slice api (back_up api count w') in
      let parts : memory.bytes (memory.fill s d) ≡ d = memory.bytes-fill s d f.whole in
      let left = api.size (memory.fill s d) - count in
      ap memory.contents (memory.poke-inlined b again d' inlined)
      ∙ memory.contents-add b again
      ∙ ap (λ l. l ++ memory.bytes again) front
      ∙ ap
          (λ l. (memory.contents w.slice_buffer ++ take left (memory.bytes (memory.fill s d))) ++ l)
          tail
      ∙ append_assoc (memory.contents w.slice_buffer) (take left (memory.bytes (memory.fill s d)))
          (drop left (memory.bytes (memory.fill s d)))
      ∙ ap (λ l. memory.contents w.slice_buffer ++ l)
          (take-append-drop left (memory.bytes (memory.fill s d)) ∙ parts)
