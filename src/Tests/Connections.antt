-- ===== src/Tests/Connections.antt =====
-- A writer, floating-point numbers and connections with which the example programs can be run.
use grpc_cb.Base.{
  ℕ, zero, suc, ◌+◌, ◌-◌, ◌*◌, ◌/◌, ◌^◌, ◌≡◌, refl, Bool, true, false, Option, none, some, List, [],
  ◌∷◌, ◌++◌, Bytes, length,
}
use grpc_cb.Base.Int.{pos, negsuc}
use grpc_cb.Messages.{MessageType}
use grpc_cb.ProtoUtils.Status.{Status, status_ok, unimplemented}
use grpc_cb.ProtoUtils.Reader.{make_reader}
use grpc_cb.ProtoUtils.Messages.{ParserApi}
use grpc_cb.Client
use grpc_cb.Server
use grpc_cb.Server.Replying.{Answer, answer, refusal}
use grpc_cb.Tests.Doubles.{slice_list, one_answer, one_answer_view}
use grpc_cb.Example.Wire.{Codec, message_type, WriterView}
use grpc_cb.Example.Served.{IsCalled, Returns}
use grpc_cb.Example.Distance.{FloatApi}

-- A writer that takes as many messages as its second part says.
abbrev pub push : Bytes → List Bytes × ℕ → Bool × (List Bytes × ℕ)
push b (ws, zero) = (false, (ws, zero))
push b (ws, suc n) = (true, (ws ++ b ∷ [], n))

abbrev has_room : List Bytes × ℕ → Bool
has_room (ws, zero) = false
has_room (ws, suc n) = true

pub push-accepted :
    (b : Bytes) (s : List Bytes × ℕ)
    → has_room s ≡ true
    → ((push b s).0 ≡ true) × ((push b s).1.0 ≡ s.0 ++ b ∷ [])
push-accepted b (ws, zero) h = cc
push-accepted b (ws, suc n) h = (refl, refl)

pub push-refused :
    (b : Bytes) (s : List Bytes × ℕ)
    → has_room s ≡ false
    → ((push b s).0 ≡ false) × ((push b s).1.0 ≡ s.0) × (has_room (push b s).1 ≡ false)
push-refused b (ws, zero) h = (refl, refl, refl)
push-refused b (ws, suc n) h = cc

abbrev pub push_view : WriterView push
push_view = record {
  written = λ s. s.0;
  accepts = has_room;
  write-accepted = push-accepted;
  write-refused = push-refused;
}

abbrev pub server_writer : Server.WriterCore
server_writer = record {
  State = List Bytes × ℕ;
  write = push;
  sync_write = push;
  async_write = λ b s. (push b s).1;
  sync_close = λ status s. s;
  async_close = λ status s. s;
  queue_size = λ s. 0;
  high_queue_size = λ s. 0;
  set_high_queue_size = λ n s. s;
  closed = λ s. false;
}

-- Floating-point numbers that are natural numbers.
abbrev pub naturals : FloatApi
naturals = record {
  Float = ℕ;
  Double = ℕ;
  literal = length;
  zero_float = 0;
  of_int = λ z. elim z [ pos n ↦ n | negsuc n ↦ n ];
  to_long = λ n. pos n;
  widen = λ n. n;
  narrow = λ n. n;
  add = λ a b. a + b;
  sub = λ a b. a - b;
  mul = λ a b. a * b;
  div = λ a b. a / b;
  add_double = λ a b. a + b;
  mul_double = λ a b. a * b;
  div_double = λ a b. a / b;
  pow = λ a b. a ^ b;
  sin = λ a. a;
  cos = λ a. 1;
  sqrt = λ a. a;
  atan2 = λ a b. a;
}

-- What comes back of what a handler has sent.
abbrev pub returned : Option Answer → Status × Bytes × Unit {0}
returned none = (unimplemented, [], tt)
returned (some (answer b)) = (status_ok, b, tt)
returned (some (refusal e)) = (e, [], tt)

pub returned-Returns : (a : Answer) → Returns (returned (some a)) a
returned-Returns (answer b) = (refl, refl)
returned-Returns (refusal e) = refl

abbrev first_slice : List Bytes → Bytes
first_slice [] = []
first_slice (s ∷ ss) = s

-- A parser that reads the message from one slice.
abbrev pub one_slice : {A : Type 0} → Codec A → ParserApi slice_list
one_slice {A} codec = record {
  Msg = A;
  parse_from =
      λ max r. let parsed = codec.parse (first_slice r.reader) in (parsed.0, true, parsed.1);
  initialization_error = λ m. [];
}

abbrev left : Option (Option Answer) → Status × Bytes × Unit {0}
left none = (unimplemented, [], tt)
left (some sent) = returned sent

-- A client whose requests come to `CallMethod` in one slice.
abbrev pub connected :
    (response : MessageType)
    → (List Bytes → Option Answer → Option (Option Answer))
    → Client.StubCore response
connected response call = record {
  State = Unit {0};
  sync_request = λ method b s. left (call (b ∷ []) none);
  async_request = λ method b cb s. s;
}

pub connected-IsCalled :
    {A : Type 0} (codec : Codec A) (response : MessageType) (method : Bytes)
    (call : List Bytes → Option Answer → Option (Option Answer))
    → IsCalled
        (message_type codec)
        response
        (connected response call)
        method
        one_answer
        one_answer_view
        slice_list
        (one_slice codec)
        []
        (λ m. m)
        call
unfolding make_reader
connected-IsCalled codec response method call = record {
  buffer = λ b. b ∷ [];
  parsed = λ msg text. record {
    payload = codec.serialize msg ∷ [];
    present = refl;
    state = codec.serialize msg ∷ [];
    readable = refl;
    parsed = rw (codec.parse-serialize msg text) refl;
    consumed = refl;
  };
  same = λ msg text. rw (codec.parse-serialize msg text) refl;
  fresh = none;
  unsent = refl;
  delivered = λ b s r a e k. rw (e, k) (returned-Returns a);
}
