-- ===== src/Client/Reading.antt =====
-- What a client that reads a stream to its end has seen: client_sync_reader.h under the loop of
-- route_guide_cb_client.cc.
-- given to a wrapper or not; what a wrapped callback does is the list of the calls that it receives.
use grpc_cb.Base.{
  ℕ, zero, suc, true, All, ◌<◌, ◌≡◌, refl, ap, inl, inr, none, some, List, [], ◌∷◌, map, arith,
  Bytes, Bool-cases, if◌then◌else◌, length,
}
use grpc_cb.ProtoUtils.Status.{Status}
use grpc_cb.Messages.{MessageType, message_error}
use grpc_cb.Client.{ReaderCore, read_result, read_one, receive}

-- What grpc_cb_core says of its reader: the message strings that are still to come in, and the status
-- that the reader ends with. An error status replaces it.
pub record ReaderView (core : ReaderCore) : Type 0 where
  pub pending : core.State → List Bytes
  pub final : core.State → Status
  pub read_one-empty :
      (s : core.State)
      → pending s ≡ []
      → ((core.read_one s).0 ≡ none) × (final (core.read_one s).1 ≡ final s)
  pub read_one-next :
      (s : core.State) {b : Bytes} {bs : List Bytes}
      → pending s ≡ b ∷ bs
      → ((core.read_one s).0 ≡ some b)
        × (pending (core.read_one s).1 ≡ bs)
        × (final (core.read_one s).1 ≡ final s)
  pub final-set_error_status :
      (status : Status) (s : core.State) → final (core.set_error_status status s) ≡ status
  pub recv_status-final : (s : core.State) → (core.recv_status s).0 ≡ final s

-- The messages before the first string that is none, and the status that the stream then has.
unfoldable pub received : (type : MessageType) → List Bytes → List type.Msg
received type [] = []
received type (b ∷ bs) =
    let rest = received type bs in
    let parsed = type.parse b in if parsed.0 then parsed.1 ∷ rest else []

unfoldable pub outcome : MessageType → Status → List Bytes → Status
outcome type status [] = status
outcome type status (b ∷ bs) =
    let rest = outcome type status bs in if (type.parse b).0 then rest else message_error type

module _ (type : MessageType) (core : ReaderCore) (view : ReaderView core) where
  -- With more fuel than there are message strings, the loop returns: the client has seen the messages
  -- in front of the first string that does not parse, in order, and the status is an error that names
  -- the message type if there is such a string, else the one that the call ends with.
  pub receive-received :
      (n : ℕ) (old : type.Msg) (s : core.State) (bs : List Bytes)
      → view.pending s ≡ bs
      → length bs < n
      → receive type core n old s ≡ some (received type bs, outcome type (view.final s) bs)
  unfolding receive read_one read_result received outcome
  receive-received zero old s bs eq lt = grind arith
  receive-received (suc n) old s [] eq lt =
      let (empty, same) = view.read_one-empty s eq in
      let state = (core.read_one s).1 in rw (empty, view.recv_status-final state, same) refl
  receive-received (suc n) old s (b ∷ bs) eq lt =
      let parsed = type.parse b in
      let (next, rest, same) = view.read_one-next s eq in
      let state = (core.read_one s).1 in
      elim (Bool-cases parsed.0) [
        | inl is ↦
            rw (next, is, receive-received n parsed.1 state bs rest (omega (arith, lt)), same) refl
        | inr isnt ↦
            rw
              (
                next,
                isnt,
                view.recv_status-final (core.set_error_status (message_error type) state),
                view.final-set_error_status (message_error type) state,
              )
              refl
      ]

-- The strings of messages whose text is UTF-8 are received as these messages.
pub received-serialize :
    (type : MessageType) (messages : List type.Msg)
    → All (λ m. type.is_text m ≡ true) messages
    → received type (map type.serialize messages) ≡ messages
unfolding received
received-serialize type [] h = refl
received-serialize type (m ∷ ms) (h, hs) =
    rw (type.parse-serialize m h, received-serialize type ms hs) refl

outcome-serialize :
    (type : MessageType) (status : Status) (messages : List type.Msg)
    → All (λ m. type.is_text m ≡ true) messages
    → outcome type status (map type.serialize messages) ≡ status
unfolding outcome
outcome-serialize type status [] h = refl
outcome-serialize type status (m ∷ ms) (h, hs) =
    rw (type.parse-serialize m h, outcome-serialize type status ms hs) refl

pub length-map {ℓ ℓ₁} :
    {A : Type ℓ} {B : Type ℓ₁} (f : A → B) (xs : List A) → length (map f xs) ≡ length xs
length-map f [] = refl
length-map f (x ∷ xs) = ap suc (length-map f xs)

-- A client that reads a stream of serialized messages, with UTF-8 as their text, to its end, with
-- more fuel than there are messages, sees exactly these messages, in order, and the status that the
-- call ends with.
pub receive-serialized :
    (type : MessageType) (core : ReaderCore) (view : ReaderView core) (messages : List type.Msg)
    (n : ℕ) (old : type.Msg) (s : core.State)
    → view.pending s ≡ map type.serialize messages
    → length messages < n
    → All (λ m. type.is_text m ≡ true) messages
    → receive type core n old s ≡ some (messages, view.final s)
receive-serialized type core view messages n old s eq lt text =
    let enough : length (map type.serialize messages) < n =
      rw (length-map type.serialize messages) lt in
    let run = receive-received type core view n old s (map type.serialize messages) eq enough in
    rw
      (
        run,
        received-serialize type messages text,
        outcome-serialize type (view.final s) messages text,
      )
      refl
