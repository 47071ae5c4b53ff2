-- ===== src/Protocol.antt =====
-- What the agent uses of the package github.com/hydragon2m/tunnel-protocol/go/v1, whose code is not
-- in the repository: the constants and the methods of a frame are parameters.
use tunnel_agent.Base.{ℕ, Bool, Option, Bytes}

-- The fields of a v1.Frame that the agent reads and writes. The payload is a slice: `payload` are its
-- bytes, and `array` is the number of the array behind it where somebody else still writes to that.
pub record Frame : Type 0 where
  pub version : ℕ
  pub type : ℕ
  pub flags : ℕ
  pub stream_id : ℕ
  pub array : Option ℕ
  pub payload : Bytes

pub record Protocol : Type 0 where
  pub version : ℕ
  pub frame_auth : ℕ
  pub frame_heartbeat : ℕ
  pub frame_open_stream : ℕ
  pub frame_data : ℕ
  pub frame_close : ℕ
  pub flag_none : ℕ
  pub flag_error : ℕ
  pub flag_end_stream : ℕ
  pub stream_id_control : ℕ
  pub header_size : ℕ
  pub max_frame_size : ℕ
  pub is_control_frame : Frame → Bool
  pub is_ack : Frame → Bool
  pub is_end_stream : Frame → Bool
