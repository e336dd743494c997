-- ===== src/ProtoUtils/Writer.antt =====
-- `GrpcBufferWriter`: the output stream that protobuf writes a message to, block by block.
use mathlib.Core.Bool.{false≢true}
use grpc_cb.Base.{
  ℕ, ◌+◌, ◌-◌, ◌≤◌, ◌≡◌, refl, sym, ap, ◌∙◌, inl, inr, Bool, true, false, arith, ◌==◌, Bool-cases,
  if◌then◌else◌,
}

-- The slices of gRPC by their lengths, and a slice buffer by the number of its bytes. A split keeps
-- the first bytes and returns the others; `pop` takes back the slice that was added last.
pub record SliceApi : Type 1 where
  pub Slice : Type 0
  pub size : Slice → ℕ
  pub malloc : ℕ → Slice
  pub size-malloc : (n : ℕ) → size (malloc n) ≡ n
  pub split_tail : Slice → ℕ → Slice × Slice
  pub size-split :
      (s : Slice) (n : ℕ)
      → n ≤ size s
      → (size (split_tail s n).0 ≡ n) × (size (split_tail s n).1 ≡ size s - n)
  pub SliceBuffer : Type 0
  pub total : SliceBuffer → ℕ
  pub created : SliceBuffer
  pub total-created : total created ≡ 0
  pub add : SliceBuffer → Slice → SliceBuffer
  pub total-add : (b : SliceBuffer) (s : Slice) → total (add b s) ≡ total b + size s
  pub pop : SliceBuffer → SliceBuffer
  pub total-pop : (b : SliceBuffer) (s : Slice) → total (pop (add b s)) ≡ total b

pub ==_sound : (a b : ℕ) → (a == b) ≡ true → a ≡ b
==_sound a b h = ground arith

module _ (api : SliceApi) where
  open api use {
    Slice, size, malloc, size-malloc, split_tail, size-split, SliceBuffer, total, created,
    total-created, add, total-add, pop, total-pop,
  }

  pub record Writer : Type 0 where
    pub block_size : ℕ
    pub byte_count : ℕ
    pub slice_buffer : SliceBuffer
    pub have_backup : Bool
    pub backup_slice : Slice
    pub slice : Slice

  -- The constructor; `unset` stands for the slices that are not yet assigned.
  unfoldable pub make_writer : ℕ → Slice → Writer
  make_writer block_size unset = record {
    block_size = block_size;
    byte_count = 0;
    slice_buffer = created;
    have_backup = false;
    backup_slice = unset;
    slice = unset;
  }

  -- The slice that `Next` hands out; `*size` is its length.
  unfoldable pub next_slice : Writer → Slice
  next_slice w = if w.have_backup then w.backup_slice else malloc w.block_size

  unfoldable pub next : Writer → Writer
  unfolding next_slice
  next w =
      let slice = next_slice w in
      record w {
        have_backup = false;
        slice = slice;
        byte_count = w.byte_count + size slice;
        slice_buffer = add w.slice_buffer slice;
      }

  unfoldable pub back_up : ℕ → Writer → Writer
  back_up count w =
      let popped = pop w.slice_buffer in
      let (front, tail) = split_tail w.slice (size w.slice - count) in
      let whole = record w {
        slice_buffer = popped;
        backup_slice = w.slice;
        have_backup = true;
        byte_count = w.byte_count - count;
      } in
      let part = record w {
        slice_buffer = add popped front;
        backup_slice = tail;
        slice = front;
        have_backup = true;
        byte_count = w.byte_count - count;
      } in
      if count == w.block_size then whole else part

  -- The bytes that are counted are those in the buffer, and a slice kept back is not longer than a
  -- block.
  pub record IsWriter (w : Writer) : Type 0 where
    pub counted : w.byte_count ≡ total w.slice_buffer
    pub within : w.have_backup ≡ true → size w.backup_slice ≤ w.block_size

  -- Behind `Next`: the slice that was handed out is the last of the buffer.
  pub record IsHanded (w : Writer) : Type 0 where
    pub before : SliceBuffer
    pub added : w.slice_buffer ≡ add before w.slice
    pub counted : w.byte_count ≡ total before + size w.slice
    pub within : size w.slice ≤ w.block_size

  pub make_writer-IsWriter : (n : ℕ) (unset : Slice) → IsWriter (make_writer n unset)
  unfolding make_writer
  make_writer-IsWriter n unset = record { counted = sym total-created; within = cc }

  pub next_slice-le : (w : Writer) → IsWriter w → size (next_slice w) ≤ w.block_size
  unfolding next_slice
  next_slice-le w v = ground (arith, size-malloc w.block_size)

  next-IsHanded : (w : Writer) → IsWriter w → IsHanded (next w)
  unfolding next
  next-IsHanded w v = record {
    before = w.slice_buffer;
    added = refl;
    counted = ap (λ n. n + size (next_slice w)) v.counted;
    within = next_slice-le w v;
  }

  next-IsWriter : (w : Writer) → IsWriter w → IsWriter (next w)
  unfolding next
  next-IsWriter w v = record {
    counted = omega (arith, v.counted, total-add w.slice_buffer (next_slice w));
    within = λ e. absurd (false≢true e);
  }

  pub back_up_lem :
      (w : Writer) (count : ℕ)
      → IsHanded w
      → count ≤ size w.slice
      → IsWriter (back_up count w)
        × ((back_up count w).byte_count + count ≡ w.byte_count)
        × (size (next_slice (back_up count w)) ≡ count)
  unfolding back_up next_slice
  back_up_lem w count v h =
      let popped : total (pop w.slice_buffer) ≡ total v.before =
        ap (λ b. total (pop b)) v.added ∙ total-pop v.before w.slice in
      let cut = size-split w.slice (size w.slice - count) (omega arith) in
      elim (Bool-cases (count == w.block_size)) [
        | inl e ↦
            let same : count ≡ w.block_size = ==_sound count w.block_size e in
            rw e (
              record {
                counted = omega (arith, popped, v.counted, v.within, same);
                within = λ _. v.within;
              },
              omega (arith, v.counted),
              omega (arith, v.within, same),
            )
        | inr e ↦ rw e (
          record {
            counted = omega (
              arith,
              popped,
              v.counted,
              cut,
              total-add (pop w.slice_buffer) (split_tail w.slice (size w.slice - count)).0,
            );
            within = λ _. omega (arith, cut, v.within);
          },
          omega (arith, v.counted),
          omega (arith, cut),
        )
      ]

  -- For a writer that has counted the bytes of its buffer and keeps back at most a block: after `Next`
  -- and a `BackUp` of no more bytes than were handed out, the bytes counted are those that the
  -- buffer holds, the bytes kept have been added to the count, and the next `Next` hands out the
  -- bytes that were given back.
  back_up-next :
      (w : Writer) (count : ℕ)
      → IsWriter w
      → count ≤ size (next_slice w)
      → IsWriter (back_up count (next w))
        × ((back_up count (next w)).byte_count + count ≡ w.byte_count + size (next_slice w))
        × (size (next_slice (back_up count (next w))) ≡ count)
  back_up-next w count v h = unfold next in back_up_lem (next w) count (next-IsHanded w v) h
