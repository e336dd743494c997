-- ===== src/Example/Visit/Async/Found.antt =====
-- What `ListFeaturesAsync` prints, and when its `Run` returns.
use grpc_cb.ProtoUtils.Status.{Status}
