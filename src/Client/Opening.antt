-- ===== src/Client/Opening.antt =====
-- The constructors of the client's streams, in include/grpc_cb/client. The pointers that they assert to
-- be set are set.
use grpc_cb.Base.{Option, Bytes}
use grpc_cb.Base.Int.{ℤ}
use grpc_cb.Messages.{MessageType}

-- The objects of grpc_cb_core that the constructors make, with what they are given: the channel, the
-- method, the request's message string, the queue and the timeout. An asynchronous reader and writer
-- is also given the callback for the status, or none.
pub data Opened (Channel Queue StatusCb : Type 0) : Type 0 where
  sync_reader : Channel → Bytes → Bytes → ℤ → Opened Channel Queue StatusCb
  async_reader : Channel → Bytes → Bytes → Queue → ℤ → Opened Channel Queue StatusCb
  sync_writer : Channel → Bytes → ℤ → Opened Channel Queue StatusCb
  async_writer : Channel → Bytes → Queue → ℤ → Opened Channel Queue StatusCb
  sync_reader_writer : Channel → Bytes → ℤ → Opened Channel Queue StatusCb
  async_reader_writer :
      Channel → Bytes → Queue → ℤ → Option StatusCb → Opened Channel Queue StatusCb

module _ {Channel Queue StatusCb : Type 0} (request : MessageType) where
  unfoldable pub client_sync_reader :
      Channel → Bytes → request.Msg → ℤ → Opened Channel Queue StatusCb
  client_sync_reader channel method msg timeout_ms =
      sync_reader channel method (request.serialize msg) timeout_ms

  unfoldable pub client_async_reader :
      Channel → Bytes → request.Msg → Queue → ℤ → Opened Channel Queue StatusCb
  client_async_reader channel method msg queue timeout_ms =
      async_reader channel method (request.serialize msg) queue timeout_ms

module _ {Channel Queue StatusCb : Type 0} where
  unfoldable pub client_sync_writer : Channel → Bytes → ℤ → Opened Channel Queue StatusCb
  client_sync_writer channel method timeout_ms = sync_writer channel method timeout_ms

  unfoldable pub client_async_writer : Channel → Bytes → Queue → ℤ → Opened Channel Queue StatusCb
  client_async_writer channel method queue timeout_ms = async_writer channel method queue timeout_ms

  unfoldable pub client_sync_reader_writer : Channel → Bytes → ℤ → Opened Channel Queue StatusCb
  client_sync_reader_writer channel method timeout_ms = sync_reader_writer channel method timeout_ms

  unfoldable pub client_async_reader_writer :
      Channel → Bytes → Queue → ℤ → Option StatusCb → Opened Channel Queue StatusCb
  client_async_reader_writer channel method queue timeout_ms status_cb =
      async_reader_writer channel method queue timeout_ms status_cb
