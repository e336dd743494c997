-- ===== src/ProtoUtils/Reader.antt =====
-- `GrpcBufferReader`: the input stream that protobuf reads a message from, slice by slice.
use grpc_cb.Base.{
  ℕ, zero, suc, ◌+◌, ◌-◌, ◌≡◌, Bool, true, false, not, Option, none, some, List, [], ◌∷◌, Bytes,
  codes, ltb, leb, if◌then◌else◌, length, drop,
}
use grpc_cb.ProtoUtils.Status.{Status, status_ok, internal_error, is_ok}

-- `grpc_byte_buffer_reader`: it hands out the slices of the buffer, with their bytes, in order.
pub record SliceReader : Type 1 where
  pub Buffer : Type 0
  pub State : Type 0
  pub init : Buffer → Option State
  pub next : State → Option (Bytes × State)
  pub slices : State → List Bytes
  pub next-nil : (r : State) → slices r ≡ [] → next r ≡ none
  pub next-cons :
      (r : State) (s : Bytes) (ss : List Bytes)
      → slices r ≡ s ∷ ss
      → (r' : State) × (next r ≡ some (s, r')) × (slices r' ≡ ss)

module _ (api : SliceReader) where
  pub record Reader : Type 0 where
    pub byte_count : ℕ
    pub backup_count : ℕ
    pub reader : api.State
    pub slice : Bytes
    pub status : Status

  -- The constructor; `unset` stands for a reader whose initialisation failed.
  unfoldable pub make_reader : api.State → api.Buffer → Reader
  make_reader unset buffer = elim (api.init buffer) [
    | none ↦ record {
      byte_count = 0;
      backup_count = 0;
      reader = unset;
      slice = [];
      status = internal_error (codes "Couldn't initialize byte buffer reader");
    }
    | some r ↦ record {
      byte_count = 0;
      backup_count = 0;
      reader = r;
      slice = [];
      status = status_ok;
    }
  ]

  -- `Next`: the bytes that it hands out, and the reader behind them; `none` is a result `false`.
  unfoldable pub next : Reader → Option (Bytes × Reader)
  next r =
      let backed_up : Bytes × Reader =
        (drop (length r.slice - r.backup_count) r.slice, record r { backup_count = 0 }) in
      if not (is_ok r.status)
      then none
      else if ltb 0 r.backup_count
      then some backed_up
      else elim (api.next r.reader) [
        | none ↦ none
        | some (s, reader) ↦
            some (s, record r { byte_count = r.byte_count + length s; reader = reader; slice = s })
      ]

  unfoldable pub back_up : ℕ → Reader → Reader
  back_up count r = record r { backup_count = count }

  -- `ByteCount`; the bytes backed up were counted before.
  unfoldable pub byte_count : Reader → ℕ
  byte_count r = r.byte_count - r.backup_count

  -- The loop of `Skip`, on fuel: `none` stands for a loop that has not returned.
  unfoldable pub skip_loop : ℕ → ℕ → Reader → Option (Bool × Reader)
  unfolding next back_up
  skip_loop zero count r = none
  skip_loop (suc fuel) count r = elim (next r) [
    | none ↦ some (false, r)
    | some (d, r') ↦ elim (leb count (length d)) [
      | true ↦ some (true, back_up (length d - count) r')
      | false ↦ skip_loop fuel (count - length d) r'
    ]
  ]

  -- A round for what is backed up, one for each slice, and one that finds the end are enough.
  unfoldable pub skip : ℕ → Reader → Option (Bool × Reader)
  unfolding skip_loop
  skip count r = skip_loop (length (api.slices r.reader) + 2) count r
