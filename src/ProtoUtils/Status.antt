-- ===== src/ProtoUtils/Status.antt =====
-- The `Status` of grpc_cb_core, as far as this repository makes and tests one: its code is 0 where
-- it is `OK`, 13 for an internal error and 12 for what is not implemented.
use grpc_cb.Base.{ℕ, Bool, Bytes, ◌==◌, []}

pub record Status : Type 0 where
  pub code : ℕ
  pub details : Bytes

abbrev pub status_ok : Status
status_ok = record { code = 0; details = [] }

abbrev pub internal_error : Bytes → Status
internal_error details = record { code = 13; details = details }

abbrev pub unimplemented : Status
unimplemented = record { code = 12; details = [] }

-- `status.ok()`.
abbrev pub is_ok : Status → Bool
is_ok status = status.code == 0
