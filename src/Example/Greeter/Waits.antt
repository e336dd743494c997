-- ===== src/Example/Greeter/Waits.antt =====
-- The asynchronous client of `main` in examples/cpp_cb/helloworld/greeter_cb_client.cc.
use grpc_cb.Base.{
  ◌≡◌, refl, ap, ◌∙◌, inl, inr, Bool, true, false, Option, none, some, List, [], ◌∷◌, ◌++◌, Bytes,
  codes, Bool-cases, if◌then◌else◌,
}
use grpc_cb.Client.{StubCore}
use grpc_cb.Example.Wire.{Codec, message_type}
use grpc_cb.Example.Awaited.{
  Act, printed, shut_down, Ended, replied, failed, Callbacks, shuts, RunCore, completed,
}
use grpc_cb.Example.Awaited.Returns.{completed-read, completed-unread, completed-forgotten}
use grpc_cb.Example.Greeter.{HelloRequest, HelloReply, async_say_hello}

-- Its callback for the reply: the line that it prints, and `Shutdown`. It gives none for errors.
abbrev pub print_greeting : HelloReply → List (Act Bytes)
print_greeting resp = printed (codes "Async greeter received: " ++ resp.message) ∷ shut_down ∷ []

unfoldable pub greeting_callbacks : Callbacks HelloReply Bytes
greeting_callbacks = record { on_msg = some print_greeting; on_error = none }

module _ (requests : Codec HelloRequest) (replies : Codec HelloReply) where
  -- Its request, with a callback.
  unfoldable greet_async : (core : StubCore (message_type replies)) → core.State → Option core.State
  unfolding async_say_hello
  greet_async core s =
      async_say_hello requests replies core (record { name = codes "async_world" }) true s

module _ (replies : Codec HelloReply) (core : RunCore Bytes) where
  unfoldable pub greeting_ended : Ended → List (Act Bytes)
  unfolding greeting_callbacks completed
  greeting_ended ended = completed (message_type replies) core greeting_callbacks ended

  abbrev pub is_greeting : Ended → Bool
  is_greeting (replied b) = (replies.parse b).0
  is_greeting (failed status) = false

  abbrev pub greeting_line : Ended → List (Act Bytes)
  greeting_line (replied b) = print_greeting (replies.parse b).1
  greeting_line (failed status) = []

  unanswered-waits :
      (ended : Ended)
      → greeting_ended ended ≡ []
      → core.run (greeting_ended ended ∷ []) ≡ ([], false)
  unfolding shuts
  unanswered-waits ended silent =
      ap (λ acts. core.run (acts ∷ [])) silent
      ∙ core.run-goes_on [] [] refl
      ∙ ap (λ r. (r.0, r.1)) core.run-waits

  -- The asynchronous greeter's `Run` returns, with the greeting printed, if its call ends with a reply
  -- that parses. If the call ends in any other way, nothing is printed, and `Run` goes on waiting.
  pub greeting-returns :
      (ended : Ended)
      → core.run (greeting_ended ended ∷ [])
        ≡ (if is_greeting ended then (greeting_line ended, true) else ([], false))
  unfolding greeting_ended greeting_callbacks shuts
  greeting-returns (replied b) = elim (Bool-cases (replies.parse b).0) [
    | inl ok ↦
        ap (λ acts. core.run (acts ∷ []))
          (completed-read (message_type replies) core print_greeting none b ok)
        ∙ core.run-returns (print_greeting (replies.parse b).1) [] refl
        ∙ rw ok refl
    | inr bad ↦
        unanswered-waits (replied b)
          (completed-unread (message_type replies) core print_greeting b bad)
        ∙ rw bad refl
  ]
  greeting-returns (failed status) =
      unanswered-waits (failed status)
        (completed-forgotten (message_type replies) core (some print_greeting) status)
