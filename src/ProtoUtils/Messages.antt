-- ===== src/ProtoUtils/Messages.antt =====
-- `Proto::Serialize` and `Proto::Deserialize`. The messages of protobuf are parameters.
use grpc_cb.Base.{
  ℕ, zero, suc, ◌≡◌, refl, ◌↔◌, inl, inr, Bool, true, Option, none, some, arith, Bytes, codes, leb,
  Option-cases, if◌then◌else◌,
}
use grpc_cb.Base.Int.{ℤ, pos, negsuc}
use grpc_cb.ProtoUtils.Status.{Status, status_ok, internal_error, is_ok}
use grpc_cb.ProtoUtils.Reader.{SliceReader, Reader, make_reader}

abbrev pub max_buffer_length : ℕ
max_buffer_length = 8192

-- A message: its size and its bytes, and what `SerializeToZeroCopyStream` returns and leaves in the
-- buffer of the stream. If it succeeds, the stream holds the message.
pub record MessageApi : Type 1 where
  pub Msg : Type 0
  pub byte_size : Msg → ℕ
  pub bytes : Msg → Bytes
  pub stream : Msg → Bool × Bytes
  pub stream-bytes : (m : Msg) → (stream m).0 ≡ true → (stream m).1 ≡ bytes m

module _ (api : MessageApi) (uninitialized : Bytes) where
  -- The status, and the bytes of the buffer. `uninitialized` is what the new slice of a call
  -- happens to hold. The call that writes a short message stands in an `assert`, so it is made only
  -- where those are compiled.
  unfoldable pub serialize : Bool → api.Msg → Status × Bytes
  serialize asserts msg =
      let byte_size = api.byte_size msg in
      if leb byte_size max_buffer_length
      then (status_ok, if asserts then api.bytes msg else uninitialized)
      else (
        if (api.stream msg).0
            then status_ok
            else internal_error (codes "Failed to serialize message"),
        (api.stream msg).1,
      )

  -- With assertions compiled, a buffer that is returned with an `OK` status holds the message.
  pub serialize-bytes :
      (msg : api.Msg) → is_ok (serialize true msg).0 ≡ true → (serialize true msg).1 ≡ api.bytes msg
  unfolding serialize
  serialize-bytes msg h = ground (arith, api.stream-bytes msg)

-- What `Deserialize` uses of a message and of the coded stream over a reader: whether
-- `ParseFromCodedStream` succeeds under a byte limit, whether the stream is then used up, and the
-- message's `InitializationErrorString`.
pub record ParserApi (slices : SliceReader) : Type 1 where
  pub Msg : Type 0
  pub parse_from : Option ℕ → Reader slices → Bool × Bool × Msg
  pub initialization_error : Msg → Bytes

-- `max_receive_message_size > 0`, and then the limit.
abbrev pub limit : ℤ → Option ℕ
limit (pos zero) = none
limit (pos (suc n)) = some (suc n)
limit (negsuc n) = none

module _ (slices : SliceReader) (api : ParserApi slices) (unset : slices.State) where
  -- The status behind the parser: a later test overwrites an earlier error.
  abbrev pub parsed_status : Bool × Bool × api.Msg → Status
  parsed_status (parsed, consumed, msg) =
      let result = if parsed then status_ok else internal_error (api.initialization_error msg) in
      if consumed then result else internal_error (codes "Did not read entire message")

  unfoldable pub deserialize : Option slices.Buffer → ℤ → Status
  unfolding make_reader
  deserialize none max_receive_message_size = internal_error (codes "No payload")
  deserialize (some buffer) max_receive_message_size =
      let reader = make_reader slices unset buffer in
      if is_ok reader.status
      then parsed_status (api.parse_from (limit max_receive_message_size) reader)
      else reader.status

  -- What makes a call succeed.
  pub record IsParsed (buffer : Option slices.Buffer) (max : ℤ) : Type 0 where
    pub payload : slices.Buffer
    pub present : buffer ≡ some payload
    pub state : slices.State
    pub readable : slices.init payload ≡ some state
    pub parsed : (api.parse_from (limit max) (make_reader slices unset payload)).0 ≡ true
    pub consumed : (api.parse_from (limit max) (make_reader slices unset payload)).1 ≡ true

  deserialize-IsParsed :
      (buffer : Option slices.Buffer) (max : ℤ)
      → is_ok (deserialize buffer max) ≡ true
      → IsParsed buffer max
  unfolding deserialize
  deserialize-IsParsed none max h = cc
  deserialize-IsParsed (some b) max h = elim (Option-cases (slices.init b)) [
    | inl e ↦ cc
    | inr (state, e) ↦ record {
      payload = b;
      present = refl;
      state = state;
      readable = e;
      parsed = ground arith;
      consumed = ground arith;
    }
  ]

  parsed_ok : (r : Bool × Bool × api.Msg) → r.0 ≡ true → r.1 ≡ true → is_ok (parsed_status r) ≡ true
  parsed_ok r p c = rw (p, c) refl

  payload-deserialize :
      (b : slices.Buffer) (state : slices.State) (max : ℤ)
      → slices.init b ≡ some state
      → (api.parse_from (limit max) (make_reader slices unset b)).0 ≡ true
      → (api.parse_from (limit max) (make_reader slices unset b)).1 ≡ true
      → is_ok (deserialize (some b) max) ≡ true
  unfolding deserialize
  payload-deserialize b state max e p c =
      let working : is_ok (make_reader slices unset b).status ≡ true = rw (make_reader, e) refl in
      rw working (parsed_ok (api.parse_from (limit max) (make_reader slices unset b)) p c)

  IsParsed-deserialize :
      (buffer : Option slices.Buffer) (max : ℤ)
      → IsParsed buffer max
      → is_ok (deserialize buffer max) ≡ true
  IsParsed-deserialize none max p = cc (p.present)
  IsParsed-deserialize (some b) max p =
      let same : b ≡ p.payload = cc in
      rw same (payload-deserialize p.payload p.state max p.readable p.parsed p.consumed)

  -- `Deserialize` succeeds exactly if there is a buffer, a reader can be set up over it, the message
  -- parses under the limit, and the whole of the buffer is read.
  pub deserialize_iff :
      (buffer : Option slices.Buffer) (max : ℤ)
      → (is_ok (deserialize buffer max) ≡ true) ↔ IsParsed buffer max
  deserialize_iff buffer max = (deserialize-IsParsed buffer max, IsParsed-deserialize buffer max)
