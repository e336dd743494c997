-- ===== src/Server/Replying.antt =====
-- What a client of a client-side streaming method is sent: server_reader_for_client_side_streaming.h
-- over a replier that keeps the first reply.
use grpc_cb.Base.{◌≡◌, Option, none, some, Bytes}
use grpc_cb.ProtoUtils.Status.{Status}
use grpc_cb.Messages.{MessageType}
use grpc_cb.Server.{ReplierCore, ClientSideStreaming}

-- What is sent: a message string or an error.
pub data Answer : Type 0 where
  answer : Bytes → Answer
  refusal : Status → Answer

-- The first of two answers.
abbrev pub first : Option Answer → Answer → Option Answer
first (some sent) later = some sent
first none later = some later

-- What grpc_cb_core says of its replier: it accepts the first reply and ignores the others.
pub record ReplierView (core : ReplierCore) : Type 0 where
  pub sent : core.State → Option Answer
  pub sent-reply_str :
      (b : Bytes) (s : core.State) → sent (core.reply_str b s) ≡ first (sent s) (answer b)
  pub sent-reply_error :
      (e : Status) (s : core.State) → sent (core.reply_error e s) ≡ first (sent s) (refusal e)

-- A run of a handler has no failed assert, and has sent this.
pub record HasSent (response : MessageType) (core : ReplierCore) (view : ReplierView core)
    (run : Option (ClientSideStreaming response core)) (sent : Option Answer) : Type 0 where
  pub replier : core.State
  pub runs : run ≡ some (record { replier_uptr = some replier })
  pub sends : view.sent replier ≡ sent
