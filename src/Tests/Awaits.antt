-- ===== src/Tests/Awaits.antt =====
-- The asynchronous clients over a small `Run`, and the theorems on them at concrete ends of calls.
use grpc_cb.Base.{
  ◌≡◌, refl, Bool, true, false, Option, none, some, List, [], ◌∷◌, ◌++◌, map, Bytes, codes,
  if◌then◌else◌,
}
use grpc_cb.Base.Int.{pos, negsuc}
use grpc_cb.ProtoUtils.Status.{Status, internal_error}
use grpc_cb.Example.Points.{Feature}
use grpc_cb.Example.Awaited.{
  Act, printed, shut_down, Ended, replied, failed, shuts, RunCore, EachCore,
}
use grpc_cb.Example.Visit.{print_feature}
use grpc_cb.Example.Visit.Async.{says_feature, says_failed, with_reply, with_nothing, with_both}
use grpc_cb.Example.Visit.Async.Answers.{
  lines, last_line, get_feature_ended, get_feature_async-returns,
}
use grpc_cb.Example.Greeter.Waits.{greeting_ended, greeting-returns}
use grpc_cb.Tests.Wires.{features, hello_replies}

abbrev on_reply : {A : Type 0} → Option (Bytes → List (Act A) × Status) → Bytes → List (Act A)
on_reply none b = []
on_reply (some cb) b = (cb b).0

abbrev on_failure : {A : Type 0} → Option (Status → List (Act A)) → Status → List (Act A)
on_failure none status = []
on_failure (some ecb) status = ecb status

abbrev completing :
    {A : Type 0}
    → Option (Bytes → List (Act A) × Status)
    → Option (Status → List (Act A))
    → Ended
    → List (Act A)
completing cb ecb (replied b) = on_reply cb b
completing cb ecb (failed status) = on_failure ecb status

abbrev running : {A : Type 0} → List (List (Act A)) → List (Act A) × Bool
running [] = ([], false)
running (acts ∷ rest) =
    let (more, returned) = running rest in
    if shuts acts then (acts, true) else (acts ++ more, returned)

abbrev run_core : {A : Type 0} → RunCore A
run_core {A} = record {
  complete = completing;
  complete-replied = λ cb ecb b ok. refl;
  complete-unread = λ cb b bad. refl;
  complete-ignored = λ ecb b. refl;
  complete-failed = λ cb ecb status. refl;
  complete-forgotten = λ cb status. refl;
  run = running;
  run-waits = refl;
  run-goes_on = λ acts rest h. rw h refl;
  run-returns = λ acts rest h. rw h refl;
}

abbrev a_feature : Feature
a_feature = record {
  name = codes "here";
  location = some (record { latitude = pos 1; longitude = negsuc 1 });
}

-- The second call fails, the third ends with a feature, and the first one behind it.
get_feature_async-returns_example :
    (running (
        map (get_feature_ended features run_core) (
          (with_nothing, failed (internal_error []))
          ∷ (with_reply, replied (features.serialize a_feature))
          ∷ []))
      ≡ (printed (says_feature (print_feature a_feature)) ∷ [], false))
    × (running (
          map (get_feature_ended features run_core) (
            (with_nothing, failed (internal_error []))
            ∷ (with_reply, replied (features.serialize a_feature))
            ∷ (with_both, failed (internal_error (codes "late")))
            ∷ (with_reply, replied [])
            ∷ []))
        ≡ (
          printed (says_feature (print_feature a_feature))
              ∷ printed (says_failed (codes "late"))
              ∷ shut_down
              ∷ [],
          true,
        ))
unfolding lines get_feature_ended print_feature last_line
get_feature_async-returns_example =
    get_feature_async-returns features run_core
      ((with_nothing, failed (internal_error []))
        ∷ (with_reply, replied (features.serialize a_feature))
        ∷ [])
      ((with_reply, replied []) ∷ []) (failed (internal_error (codes "late"))) refl tt

-- A call that fails leaves the greeter waiting.
greeting-returns_example :
    running
      (greeting_ended hello_replies run_core (failed (internal_error (codes "no server"))) ∷ [])
    ≡ ([], false)
greeting-returns_example =
    greeting-returns hello_replies run_core (failed (internal_error (codes "no server")))

abbrev eaching :
    {A : Type 0}
    → Option (Bytes → List (Act A) × Status)
    → Option (Status → List (Act A))
    → List Bytes
    → Status
    → List (List (Act A))
eaching cb ecb [] status = on_failure ecb status ∷ []
eaching cb ecb (b ∷ bs) status = on_reply cb b ∷ eaching cb ecb bs status

abbrev each_core : {A : Type 0} → EachCore A
each_core {A} = record {
  each = eaching;
  each-ended = λ cb status_cb status. refl;
  each-read = λ cb status_cb b bs status ok. refl;
}
