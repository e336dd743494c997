-- ===== src/Example/Awaited.antt =====
-- The asynchronous clients of the examples, which wait in `Run` of grpc_cb_core until a callback calls
-- `Shutdown`. What a callback prints and whether it shuts down is a list of acts.
pub mod Returns
use grpc_cb.Base.{Bool, true, false, Option, none, some, List, [], ◌∷◌, ◌++◌, ◌≡◌, Bytes, ◌>>=◌}
use grpc_cb.ProtoUtils.Status.{Status, is_ok}
use grpc_cb.Messages.{MessageType}
use grpc_cb.Client.{wrap_msg_cb}

pub data Act (A : Type 0) : Type 0 where
  printed : A → Act A
  shut_down : Act A

-- How a call ends: with the message string of a reply, or with an error.
pub data Ended : Type 0 where
  replied : Bytes → Ended
  failed : Status → Ended

-- The callbacks that an asynchronous request is given, or not.
pub record Callbacks (Msg A : Type 0) : Type 0 where
  pub on_msg : Option (Msg → List (Act A))
  pub on_error : Option (Status → List (Act A))

unfoldable pub shuts : {A : Type 0} → List (Act A) → Bool
shuts [] = false
shuts (printed a ∷ acts) = shuts acts
shuts (shut_down ∷ acts) = true

-- What the clients rely on in grpc_cb_core. `complete` is what a call does when it ends: the callback
-- for the reply is called with its message string, the one for an error with the error, and a callback
-- that was not given is not called. `run` has the acts of the calls that end, in that order, until one
-- of them shuts down; whether it has returned comes with them.
pub record RunCore (A : Type 0) : Type 0 where
  pub complete :
      Option (Bytes → List (Act A) × Status) → Option (Status → List (Act A)) → Ended → List (Act A)
  pub complete-replied :
      (cb : Bytes → List (Act A) × Status) (ecb : Option (Status → List (Act A))) (b : Bytes)
      → is_ok (cb b).1 ≡ true
      → complete (some cb) ecb (replied b) ≡ (cb b).0
  pub complete-unread :
      (cb : Bytes → List (Act A) × Status) (b : Bytes)
      → is_ok (cb b).1 ≡ false
      → complete (some cb) none (replied b) ≡ (cb b).0
  pub complete-ignored :
      (ecb : Option (Status → List (Act A))) (b : Bytes) → complete none ecb (replied b) ≡ []
  pub complete-failed :
      (cb : Option (Bytes → List (Act A) × Status)) (ecb : Status → List (Act A)) (status : Status)
      → complete cb (some ecb) (failed status) ≡ ecb status
  pub complete-forgotten :
      (cb : Option (Bytes → List (Act A) × Status)) (status : Status)
      → complete cb none (failed status) ≡ []
  pub run : List (List (Act A)) → List (Act A) × Bool
  pub run-waits : run [] ≡ ([], false)
  pub run-goes_on :
      (acts : List (Act A)) (rest : List (List (Act A)))
      → shuts acts ≡ false
      → run (acts ∷ rest) ≡ (acts ++ (run rest).0, (run rest).1)
  pub run-returns :
      (acts : List (Act A)) (rest : List (List (Act A)))
      → shuts acts ≡ true
      → run (acts ∷ rest) ≡ (acts, true)

-- What they rely on in a stream that is read with two callbacks: the acts when the message strings come
-- in one after another, as far as they parse, and then the status.
pub record EachCore (A : Type 0) : Type 0 where
  pub each :
      Option (Bytes → List (Act A) × Status)
      → Option (Status → List (Act A))
      → List Bytes
      → Status
      → List (List (Act A))
  pub each-ended :
      (cb : Option (Bytes → List (Act A) × Status)) (status_cb : Status → List (Act A))
      (status : Status)
      → each cb (some status_cb) [] status ≡ status_cb status ∷ []
  pub each-read :
      (cb : Bytes → List (Act A) × Status) (status_cb : Option (Status → List (Act A))) (b : Bytes)
      (bs : List Bytes) (status : Status)
      → is_ok (cb b).1 ≡ true
      → each (some cb) status_cb (b ∷ bs) status ≡ (cb b).0 ∷ each (some cb) status_cb bs status

module _ (type : MessageType) {A : Type 0} where
  unfoldable pub called : (type.Msg → List (Act A)) → List type.Msg → List (Act A)
  called cb [] = []
  called cb (m ∷ ms) = cb m ++ called cb ms

  -- `StubHelper::AsyncRequest` wraps the callback for the reply, and passes on the one for an error.
  unfoldable pub wrapped : Option (type.Msg → List (Act A)) → Option (Bytes → List (Act A) × Status)
  unfolding wrap_msg_cb called
  wrapped none = wrap_msg_cb type false >>= (λ f. some (λ b. ([], (f b).1)))
  wrapped (some cb) = wrap_msg_cb type true >>= (λ f. some (λ b. (called cb (f b).0, (f b).1)))

  unfoldable pub completed : RunCore A → Callbacks type.Msg A → Ended → List (Act A)
  unfolding wrapped
  completed core callbacks ended = core.complete (wrapped callbacks.on_msg) callbacks.on_error ended
