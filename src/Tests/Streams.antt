-- ===== src/Tests/Streams.antt =====
-- The streams of proto_utils.cc over slices that hold bytes, and the theorems at concrete inputs.
use grpc_cb.Base.{
  ℕ, zero, suc, ◌-◌, ◌≤◌, ◌≡◌, refl, ap, Bool, true, false, some, List, [], ◌∷◌, ◌++◌, arith, Bytes,
  codes, ltb, length, take, drop, length-drop, length-append, if◌then◌else◌,
}
use grpc_cb.Base.{length-take}
use grpc_cb.ProtoUtils.Writer.{
  SliceApi, Writer, make_writer, next_slice, next, back_up, make_writer-IsWriter,
}
use grpc_cb.ProtoUtils.Filling.{
  SliceMemory, Round, full, part, write_round, write_rounds, fill_slice, AllFit, all_kept,
}
use grpc_cb.ProtoUtils.Filling.Sent.{Sent, write_rounds-Sent}
use grpc_cb.ProtoUtils.Filling.Lost.{back_up-lost}
use grpc_cb.ProtoUtils.Reader.{Reader, make_reader}
use grpc_cb.ProtoUtils.Unread.{IsReader}
use grpc_cb.ProtoUtils.InputStream.{take_all, take_first, skip_past, AllObey, calls-AllObey}
use grpc_cb.ProtoUtils.Carried.{read_all}
use grpc_cb.ProtoUtils.Messages.{serialize}
use grpc_cb.ProtoUtils.Serialized.{StreamedMessage, stream_contents, Writes, read_all-serialize}
use grpc_cb.Tests.Doubles.{slice_list}

abbrev zeros : ℕ → Bytes
zeros zero = []
zeros (suc n) = 0 ∷ zeros n

length-zeros : (n : ℕ) → length (zeros n) ≡ n
length-zeros zero = refl
length-zeros (suc n) = ap suc (length-zeros n)

-- A slice is its bytes, and whether they are shared: those of at most two bytes are inlined.
abbrev Slice : Type 0
Slice = Bool × Bytes

abbrev slice_of : Bytes → Slice
slice_of d = (ltb 2 (length d), d)

abbrev split_slice : Slice → ℕ → Slice × Slice
split_slice s n = ((s.0, take n s.1), slice_of (drop n s.1))

size-split_slice :
    (s : Slice) (n : ℕ)
    → n ≤ length s.1
    → (length (split_slice s n).0.1 ≡ n) × (length (split_slice s n).1.1 ≡ length s.1 - n)
size-split_slice s n h = (length-take n s.1 h, length-drop n s.1)

abbrev bytes_in : List Slice → Bytes
bytes_in [] = []
bytes_in (s ∷ b) = bytes_in b ++ s.1

abbrev sizes_in : List Slice → ℕ
sizes_in b = length (bytes_in b)

abbrev without_last : List Slice → List Slice
without_last [] = []
without_last (s ∷ b) = b

abbrev poked : Slice → Bytes → List Slice → List Slice
poked s d [] = []
poked s d (t ∷ b) = if s.0 then (s.0, d) ∷ b else t ∷ b

poked-shared :
    (b : List Slice) (s : Slice) (d : Bytes) → s.0 ≡ true → poked s d (s ∷ b) ≡ (s.0, d) ∷ b
poked-shared b s d e = ground arith

poked-inlined : (b : List Slice) (s : Slice) (d : Bytes) → s.0 ≡ false → poked s d (s ∷ b) ≡ s ∷ b
poked-inlined b s d e = ground arith

-- The last slice of a buffer stands first.
abbrev byte_slices : SliceApi
byte_slices = record {
  Slice = Slice;
  size = λ s. length s.1;
  malloc = λ n. slice_of (zeros n);
  size-malloc = length-zeros;
  split_tail = split_slice;
  size-split = size-split_slice;
  SliceBuffer = List Slice;
  total = sizes_in;
  created = [];
  total-created = refl;
  add = λ b s. s ∷ b;
  total-add = λ b s. length-append (bytes_in b) s.1;
  pop = without_last;
  total-pop = λ b s. refl;
}

abbrev byte_memory : SliceMemory byte_slices
byte_memory = record {
  shared = λ s. s.0;
  bytes = λ s. s.1;
  length-bytes = λ s. refl;
  fill = λ s d. (s.0, d);
  bytes-fill = λ s d h. refl;
  bytes-split = λ s n h. (refl, refl);
  contents = bytes_in;
  contents-created = refl;
  contents-add = λ b s. refl;
  contents-pop = λ b s. refl;
  poke = poked;
  poke-shared = poked-shared;
  poke-inlined = poked-inlined;
}

abbrev writer : Writer byte_slices
writer = make_writer byte_slices 6 (slice_of [])

-- A block, of which three bytes are given back, and then these.
abbrev rounds : List Round
rounds = part (codes "abcdef") 3 ∷ full (codes "xyz") ∷ []

rounds-AllFit : AllFit byte_slices byte_memory rounds writer
unfolding make_writer write_round fill_slice next back_up next_slice
rounds-AllFit = (
  record { whole = refl; within = omega arith; shares = refl },
  (record { whole = refl; within = omega arith; shares = refl }, tt),
)

write_rounds-Sent_example :
    Sent byte_slices byte_memory writer
      (all_kept rounds)
      (write_rounds byte_slices byte_memory rounds writer)
write_rounds-Sent_example =
    write_rounds-Sent byte_slices byte_memory rounds writer
      (make_writer-IsWriter byte_slices 6 (slice_of [])) rounds-AllFit

-- The same of two bytes, which are lost.
back_up-lost_example :
    byte_memory.contents (
      (write_rounds byte_slices byte_memory
        (part (codes "abcdef") 2 ∷ full (codes "yz") ∷ [])
        writer).slice_buffer)
    ≡ byte_memory.contents writer.slice_buffer ++ codes "abcdef"
unfolding make_writer write_round fill_slice next back_up next_slice
back_up-lost_example =
    back_up-lost byte_slices byte_memory writer (codes "abcdef") (codes "yz") 2
      (make_writer-IsWriter byte_slices 6 (slice_of []))
      (record { whole = refl; within = omega arith; shares = refl }) refl

abbrev reader : Reader slice_list
unfolding make_reader
reader = make_reader slice_list [] (codes "abc" ∷ codes "xyz" ∷ [])

reader-IsReader : IsReader slice_list reader
unfolding make_reader reader
reader-IsReader = record { working = refl; backed = omega arith; counted = omega arith }

calls-AllObey_example :
    AllObey slice_list (take_first 2 ∷ skip_past 1 ∷ take_all ∷ take_all ∷ []) reader
calls-AllObey_example =
    calls-AllObey slice_list (take_first 2 ∷ skip_past 1 ∷ take_all ∷ take_all ∷ []) reader
      reader-IsReader

-- A message of 8193 bytes: a whole block, and a block of which all but a byte is given back.
abbrev long_rounds : List Round
long_rounds = full (zeros 8192) ∷ part (zeros 8192) 8191 ∷ []

abbrev long_message : StreamedMessage
long_message = record {
  Msg = Unit {0};
  byte_size = λ m. 8193;
  bytes = λ m. all_kept long_rounds;
  rounds = λ m. long_rounds;
  succeeds = λ m. true;
  kept-bytes = λ m e. refl;
}

long_message-Writes : Writes byte_slices byte_memory (slice_of []) long_message
unfolding make_writer write_round fill_slice next next_slice
long_message-Writes m = (
  record { whole = refl; within = omega arith; shares = refl },
  (record { whole = refl; within = omega arith; shares = refl }, tt),
)

read_all-serialize_example :
    read_all slice_list 2 (make_reader slice_list [] (all_kept long_rounds ∷ []))
    ≡ some (all_kept long_rounds)
unfolding serialize stream_contents make_writer write_rounds
read_all-serialize_example =
    read_all-serialize byte_slices byte_memory (slice_of []) long_message long_message-Writes
      (zeros 4) tt slice_list [] (all_kept long_rounds ∷ []) (all_kept long_rounds ∷ []) 2 refl refl
      refl (omega arith)
