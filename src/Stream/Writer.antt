-- ===== src/Stream/Writer.antt =====
-- Stream.Write and Stream.Close of client/stream.go, and io.Copy into a stream. A stream writes
-- under its id alone, so the functions take the id. Write queues the slice that it is given and
-- copies nothing, so a frame in the queue changes when the caller writes to the slice's array.
pub mod Copying
pub mod Bursts
pub mod Overwriting
use tunnel_agent.Base.{
  ℕ, Bool, false, List, [], ◌∷◌, ◌++◌, Option, none, some, Bytes, length, map, flatten, ◌==◌,
  if◌then◌else◌,
}
use tunnel_agent.Connector.{Connector, send_frame}
use tunnel_agent.Errors.{GoError}
use tunnel_agent.Protocol.{Protocol, Frame}

-- The frame of Write: its payload is the slice itself.
abbrev pub write_frame : Protocol → ℕ → Option ℕ → Bytes → Frame
write_frame p stream_id array payload = record {
  version = p.version;
  type = p.frame_data;
  flags = p.flag_none;
  stream_id = stream_id;
  array = array;
  payload = payload;
}

-- The frame of Close.
abbrev pub end_frame : Protocol → ℕ → Frame
end_frame p stream_id = record {
  version = p.version;
  type = p.frame_data;
  flags = p.flag_end_stream;
  stream_id = stream_id;
  array = none;
  payload = [];
}

write_result : ℕ → Connector × Option GoError → Connector × ℕ × Option GoError
write_result n (c, none) = (c, n, none)
write_result n (c, some e) = (c, 0, some e)

-- Write(p) of a slice with its array: the connector, the number of bytes and the error.
unfoldable pub write : Protocol → ℕ → Option ℕ → Bytes → Connector → Connector × ℕ × Option GoError
unfolding write_result
write p stream_id array payload c =
    write_result (length payload) (send_frame (write_frame p stream_id array payload) c)

-- Close()
unfoldable pub close : Protocol → ℕ → Connector → Connector × Option GoError
close p stream_id c = send_frame (end_frame p stream_id) c

-- A connector, and the frames that a stream has handed to it, oldest first, with the bytes that they
-- had at that moment.
pub record Sending : Type 0 where
  pub connector : Connector
  pub accepted : List Frame

-- What one Read of a body gives, and what the rest of the agent has done to the connector by then.
pub record Chunk : Type 0 where
  pub bytes : Bytes
  pub before : Connector → Connector

sent_as : Frame → Connector × ℕ × Option GoError → Sending → Sending × Option GoError
sent_as frame (c, n, none) s = (record { connector = c; accepted = s.accepted ++ frame ∷ [] }, none)
sent_as frame (c, n, some e) s = (record s { connector = c }, some e)

unfoldable pub write_chunk : Protocol → ℕ → Option ℕ → Chunk → Sending → Sending × Option GoError
unfolding sent_as
write_chunk p stream_id array k s =
    sent_as (write_frame p stream_id array k.bytes)
      (write p stream_id array k.bytes (k.before s.connector)) s

-- Bytes written to the front of an array, as a slice from its front then reads.
abbrev pub overwrite : Bytes → Bytes → Bytes
overwrite [] old = old
overwrite (x ∷ new) [] = []
overwrite (x ∷ new) (y ∷ old) = x ∷ overwrite new old

abbrev pub is_in : ℕ → Option ℕ → Bool
is_in array none = false
is_in array (some a) = a == array

-- A frame behind a write of `bytes` to the front of an array: one that is a slice of it changes.
abbrev pub refill : ℕ → Bytes → Frame → Frame
refill array bytes f =
    if is_in array f.array then record f { payload = overwrite bytes f.payload } else f

-- The frames that wait in the queue, behind such a write.
abbrev pub fill : ℕ → Bytes → Connector → Connector
fill array bytes c = record c { send_ch = map (refill array bytes) c.send_ch }

-- A read into io.Copy's buffer.
abbrev pub read_into : ℕ → Chunk → Chunk
read_into buffer k = record k { before = λ c. fill buffer k.bytes (k.before c) }

-- `if nr > 0 { dst.Write(buf[0:nr]) }`
abbrev pub copied_chunk : Protocol → ℕ → ℕ → Bytes → Chunk → Sending → Sending × Option GoError
copied_chunk p stream_id buffer [] k s = (record s { connector = k.before s.connector }, none)
copied_chunk p stream_id buffer (b ∷ bs) k s =
    write_chunk p stream_id (some buffer) (read_into buffer k) s

copy_then :
    (Sending → Sending × Option GoError) → Sending × Option GoError → Sending × Option GoError
copy_then f (s, none) = f s
copy_then f (s, some e) = (s, some e)

-- io.Copy(stream, body), with the number of the buffer that it makes for all its reads: it ends with
-- the first error, of the stream or of the body; the end of the body is no error.
unfoldable pub copy :
    Protocol → ℕ → ℕ → List Chunk → Option GoError → Sending → Sending × Option GoError
unfolding copy_then
copy p stream_id buffer [] body_end s = (s, body_end)
copy p stream_id buffer (k ∷ ks) body_end s =
    copy_then (copy p stream_id buffer ks body_end) (copied_chunk p stream_id buffer k.bytes k s)

abbrev pub payloads : List Frame → Bytes
payloads frames = flatten (map (λ (f : Frame). f.payload) frames)

abbrev pub bytes_of : List Chunk → Bytes
bytes_of [] = []
bytes_of (k ∷ ks) = k.bytes ++ bytes_of ks
