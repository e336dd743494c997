-- ===== src/Example/Awaited/Returns.antt =====
-- What an asynchronous call does when it ends, and when `Run` returns.
use grpc_cb.Base.{true, false, none, some, List, [], ◌≡◌, refl, ◌∙◌, Option, Bytes, append-nil}
use grpc_cb.ProtoUtils.Status.{Status}
use grpc_cb.Messages.{MessageType}
use grpc_cb.Client.{wrap_msg_cb}
use grpc_cb.Example.Awaited.{Act, replied, failed, RunCore, called, wrapped, completed}

module _ (type : MessageType) {A : Type 0} (core : RunCore A) where
  -- A reply that parses is what the callback gets.
  pub completed-read :
      (cb : type.Msg → List (Act A)) (ecb : Option (Status → List (Act A))) (b : Bytes)
      → (type.parse b).0 ≡ true
      → completed type core (record { on_msg = some cb; on_error = ecb }) (replied b)
        ≡ cb (type.parse b).1
  unfolding completed wrapped called wrap_msg_cb
  completed-read cb ecb b ok =
      core.complete-replied _ ecb b (rw ok refl) ∙ rw ok (append-nil (cb (type.parse b).1))

  -- A reply that does not is dropped, where there is no callback for errors.
  pub completed-unread :
      (cb : type.Msg → List (Act A)) (b : Bytes)
      → (type.parse b).0 ≡ false
      → completed type core (record { on_msg = some cb; on_error = none }) (replied b) ≡ []
  unfolding completed wrapped called wrap_msg_cb
  completed-unread cb b bad = core.complete-unread _ b (rw bad refl) ∙ rw bad refl

  pub completed-failed :
      (cb : Option (type.Msg → List (Act A))) (ecb : Status → List (Act A)) (status : Status)
      → completed type core (record { on_msg = cb; on_error = some ecb }) (failed status)
        ≡ ecb status
  unfolding completed
  completed-failed cb ecb status = core.complete-failed (wrapped type cb) ecb status

  pub completed-forgotten :
      (cb : Option (type.Msg → List (Act A))) (status : Status)
      → completed type core (record { on_msg = cb; on_error = none }) (failed status) ≡ []
  unfolding completed
  completed-forgotten cb status = core.complete-forgotten (wrapped type cb) status

  pub completed-ignored :
      (ecb : Option (Status → List (Act A))) (b : Bytes)
      → completed type core (record { on_msg = none; on_error = ecb }) (replied b) ≡ []
  unfolding completed wrapped wrap_msg_cb
  completed-ignored ecb b = core.complete-ignored ecb b
