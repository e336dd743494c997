-- ===== src/Tests/Classes.antt =====
-- The theorems on proto_utils.cc, on the client's and on the server's classes at concrete inputs.
use grpc_cb.Base.{◌≡◌, refl, some, [], ◌∷◌, arith, codes}
use grpc_cb.ProtoUtils.Status.{status_ok}
use grpc_cb.Client.{receive}
use grpc_cb.Client.Reading.{received, outcome, receive-received}
use grpc_cb.Tests.Doubles.{tagged, stream_core, stream_view}

receive-received_example :
    receive tagged stream_core 3 [] (codes "ma" ∷ codes "b" ∷ [], status_ok)
    ≡ some (
      received tagged (codes "ma" ∷ codes "b" ∷ []),
      outcome tagged status_ok (codes "ma" ∷ codes "b" ∷ []),
    )
receive-received_example =
    receive-received tagged stream_core stream_view 3 [] (codes "ma" ∷ codes "b" ∷ [], status_ok)
      (codes "ma" ∷ codes "b" ∷ []) refl (omega arith)
