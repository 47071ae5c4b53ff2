-- ===== src/Errors.antt =====
-- Errors of client/errors.go, and the others that the client makes, with their texts.
use tunnel_agent.Base.{◌++◌, Bytes, codes}

pub data GoError : Type 0 where
  not_connected connection_closed stream_not_found stream_already_exists : GoError
  invalid_frame auth_failed local_service_error already_running invalid_frame_size : GoError
  eof context_canceled queue_full : GoError
  foreign : Bytes → GoError
  wrapped : Bytes → GoError → GoError

-- `err.Error()`; `wrapped` is `fmt.Errorf("...: %w", err)`, and `foreign` an error made elsewhere.
unfoldable pub error_text : GoError → Bytes
error_text not_connected = codes "not connected to server"
error_text connection_closed = codes "connection closed"
error_text stream_not_found = codes "stream not found"
error_text stream_already_exists = codes "stream already exists"
error_text invalid_frame = codes "invalid frame"
error_text auth_failed = codes "authentication failed"
error_text local_service_error = codes "local service error"
error_text already_running = codes "dispatcher already running"
error_text invalid_frame_size = codes "invalid frame size"
error_text eof = codes "EOF"
error_text context_canceled = codes "context canceled"
error_text queue_full = codes "send queue full"
error_text (foreign text) = text
error_text (wrapped text e) = text ++ codes ": " ++ error_text e

-- What a call of the client returns.
pub data Result {ℓ} (A : Type ℓ) : Type ℓ where
  ok : A → Result A
  err : GoError → Result A

infixl 5 ◌>>=◌
abbrev pub ◌>>=◌ {ℓ κ} : {A : Type ℓ} {B : Type κ} → Result A → (A → Result B) → Result B
ok a >>= f = f a
err e >>= f = err e
