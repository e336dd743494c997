-- ===== src/ProtoUtils/Filling.antt =====
-- What a buffer holds when a caller has written through `GrpcBufferWriter`. A caller writes to the
-- memory of the slice that `Next` has handed out, which stands in the buffer already.
pub mod Sent
pub mod Lost
use mathlib.Core.Bool.{false≢true}
use grpc_cb.Base.{
  ℕ, ◌+◌, ◌-◌, ◌≤◌, ◌≡◌, sym, ap, ◌∙◌, inl, inr, Bool, true, false, List, [], ◌∷◌, ◌++◌, append-nil,
  append_assoc, arith, Bytes, ◌==◌, Bool-cases, length, take, drop, take-append-drop, length-append,
}
use grpc_cb.Base.{length-take}
use grpc_cb.ProtoUtils.Writer.{
  SliceApi, Writer, next_slice, next, back_up, IsWriter, IsHanded, next_slice-le, back_up_lem,
  ==_sound,
}

-- The bytes of gRPC's slices and slice buffers. A slice is shared if its bytes stand in memory that
-- all its copies refer to; the bytes of any other, an inlined one, stand in the slice itself. `poke`
-- is the buffer when bytes have been written over those of the slice that was added last, from
-- outside: it sees that only if they share the memory.
pub record SliceMemory (api : SliceApi) : Type 0 where
  pub shared : api.Slice → Bool
  pub bytes : api.Slice → Bytes
  pub length-bytes : (s : api.Slice) → length (bytes s) ≡ api.size s
  pub fill : api.Slice → Bytes → api.Slice
  pub bytes-fill : (s : api.Slice) (d : Bytes) → length d ≡ api.size s → bytes (fill s d) ≡ d
  pub bytes-split :
      (s : api.Slice) (n : ℕ)
      → n ≤ api.size s
      → (bytes (api.split_tail s n).0 ≡ take n (bytes s))
        × (bytes (api.split_tail s n).1 ≡ drop n (bytes s))
  pub contents : api.SliceBuffer → Bytes
  pub contents-created : contents api.created ≡ []
  pub contents-add :
      (b : api.SliceBuffer) (s : api.Slice) → contents (api.add b s) ≡ contents b ++ bytes s
  pub contents-pop :
      (b : api.SliceBuffer) (s : api.Slice) → contents (api.pop (api.add b s)) ≡ contents b
  pub poke : api.Slice → Bytes → api.SliceBuffer → api.SliceBuffer
  pub poke-shared :
      (b : api.SliceBuffer) (s : api.Slice) (d : Bytes)
      → shared s ≡ true
      → poke s d (api.add b s) ≡ api.add b (fill s d)
  pub poke-inlined :
      (b : api.SliceBuffer) (s : api.Slice) (d : Bytes)
      → shared s ≡ false
      → poke s d (api.add b s) ≡ api.add b s

-- What a caller does in one round: `Next`, and writing the whole slice, then `BackUp` or not.
pub data Round : Type 0 where
  full : Bytes → Round
  part : Bytes → ℕ → Round

-- The bytes that the slice is filled with, those given back, and those that are to be sent.
abbrev pub filled : Round → Bytes
filled (full d) = d
filled (part d count) = d

abbrev pub given_back : Round → ℕ
given_back (full d) = 0
given_back (part d count) = count

abbrev pub kept : Round → Bytes
kept (full d) = d
kept (part d count) = take (length d - count) d

abbrev pub all_kept : List Round → Bytes
all_kept [] = []
all_kept (round ∷ rounds) = kept round ++ all_kept rounds

module _ (api : SliceApi) (memory : SliceMemory api) where
  -- The caller writes over the bytes of the slice that it was handed.
  unfoldable pub fill_slice : Bytes → Writer api → Writer api
  fill_slice d w = record w {
    slice = memory.fill w.slice d;
    slice_buffer = memory.poke w.slice d w.slice_buffer;
  }

  unfoldable pub write_round : Round → Writer api → Writer api
  unfolding next back_up fill_slice
  write_round (full d) w = fill_slice d (next api w)
  write_round (part d count) w = back_up api count (fill_slice d (next api w))

  unfoldable pub write_rounds : List Round → Writer api → Writer api
  unfolding write_round
  write_rounds [] w = w
  write_rounds (round ∷ rounds) w = write_rounds rounds (write_round round w)

  -- A round that fits the slice handed out, which shares its memory with the buffer's.
  pub record Fits (w : Writer api) (round : Round) : Type 0 where
    pub whole : length (filled round) ≡ api.size (next_slice api w)
    pub within : given_back round ≤ length (filled round)
    pub shares : memory.shared (next_slice api w) ≡ true

  abbrev pub AllFit : List Round → Writer api → Type 0
  AllFit [] w = Unit
  AllFit (round ∷ rounds) w = Fits w round × AllFit rounds (write_round round w)
