-- ===== src/Dispatcher/Buffers.antt =====
-- The memory behind the read loop of client/dispatcher.go: a frame is read into a buffer of the
-- pool, its payload is a slice of that buffer until it is copied, and the buffer goes back to the
-- pool before the frame is handled. The pool (v1.GetBuffer, v1.PutBuffer) is a parameter.
pub mod Cells
pub mod Frames
pub mod Payloads
pub mod Rounds
pub mod Copies
use tunnel_agent.Base.{
  ℕ, zero, suc, List, [], ◌∷◌, ◌++◌, ◌||◌, Option, none, some, Bytes, codes, ltb, length, get_elem?,
  set, take, drop, if◌then◌else◌,
}
use tunnel_agent.Dispatcher.{Net, contains}
use tunnel_agent.Errors.{GoError, Result, ok, err, eof, error_text}
use tunnel_agent.Protocol.{Protocol, Frame}

-- Memory cells by address, and the addresses of the buffers that lie in the pool.
pub record Memory : Type 0 where
  pub cells : List Bytes
  pub pool : List ℕ

pub record Slice : Type 0 where
  pub cell : ℕ
  pub start : ℕ
  pub len : ℕ

-- A *v1.Frame: the payload of `header` counts for nothing, `slice` is the payload.
pub record FrameAt : Type 0 where
  pub header : Frame
  pub slice : Slice

unfoldable pub content : Option Bytes → Bytes
content none = []
content (some bytes) = bytes

abbrev pub cell_at : ℕ → Memory → Bytes
cell_at a m = content (get_elem? m.cells a)

abbrev pub read_slice : Slice → Memory → Bytes
read_slice s m = take s.len (drop s.start (cell_at s.cell m))

-- The frame that a reader of the payload sees.
abbrev pub read_frame : Memory → FrameAt → Frame
read_frame m f = record f.header { payload = read_slice f.slice m }

-- The pool, where the payload of a parsed frame starts in its bytes, and what of a body arrives
-- before io.ReadFull fails.
pub record Buffers (Wire : Type 0) : Type 0 where
  pub get_buffer : ℕ → Memory → Memory × ℕ
  pub put_buffer : ℕ → Memory → Memory
  pub payload_at : Bytes → ℕ
  pub partial : ℕ → Wire → Bytes

-- Writing `bytes` at the front of a buffer.
unfoldable pub fill : ℕ → Bytes → Memory → Memory
fill a bytes m = record m { cells = set m.cells a (bytes ++ drop (length bytes) (cell_at a m)) }

-- What a round does before the frame is handled.
pub data Round (Wire : Type 0) : Type 0 where
  stops : Memory → Round Wire
  skips : Wire → Memory → Round Wire
  hands : Wire → Memory → FrameAt → Round Wire

-- `if len(frame.Payload) > 0 { newPayload := make(...); copy(...); frame.Payload = newPayload }`
unfoldable pub copy_payload : FrameAt → Memory → Memory × FrameAt
copy_payload f m =
    if ltb 0 f.slice.len
    then (
      record m { cells = m.cells ++ read_slice f.slice m ∷ [] },
      record f { slice = record { cell = length m.cells; start = 0; len = f.slice.len } },
    )
    else (m, f)

module _ {Wire : Type 0} (p : Protocol) (net : Net Wire) (bs : Buffers Wire) where
  unfoldable pub handed : Wire → ℕ → Memory × FrameAt → Round Wire
  handed wire buf (m, f) = hands wire (bs.put_buffer buf m) f

  -- `off` is where the payload starts in `buf`.
  unfoldable pub parsed_at : Wire → ℕ → ℕ → Result Frame → Memory → Round Wire
  unfolding handed copy_payload
  parsed_at wire buf off (err e) m = stops (bs.put_buffer buf m)
  parsed_at wire buf off (ok frame) m = handed wire buf (
      copy_payload
        (record {
          header = frame;
          slice = record { cell = buf; start = off; len = length frame.payload };
        })
        m)

  -- v1.ParseFrame reads `buf[:n]`.
  unfoldable pub parse_at : Wire → ℕ → ℕ → Memory → Round Wire
  unfolding parsed_at
  parse_at wire n buf m =
      parsed_at wire buf (bs.payload_at (take n (cell_at buf m)))
        (net.parse_frame (take n (cell_at buf m))) m

  unfoldable pub body_at : ℕ → Bytes → ℕ → Wire × Result Bytes → Memory → Round Wire
  unfolding parse_at fill
  body_at n part buf (wire, err e) m = stops (bs.put_buffer buf (fill buf part m))
  body_at n part buf (wire, ok bytes) m = parse_at wire n buf (fill buf bytes m)

  unfoldable pub body_into : ℕ → Wire → Memory × ℕ → Round Wire
  unfolding body_at
  body_into n wire (m, buf) = body_at n (bs.partial n wire) buf (net.read_full n wire) m

  -- From GetBuffer to PutBuffer.
  unfoldable pub receive : ℕ → Wire → Memory → Round Wire
  unfolding body_into
  receive n wire m = body_into n wire (bs.get_buffer n m)

  unfoldable pub length_failed : GoError → Wire → Memory → Round Wire
  length_failed eof wire m = stops m
  length_failed e wire m =
      if contains (error_text e) (codes "timeout") then skips wire m else stops m

  unfoldable pub length_at : Wire × Result ℕ → Memory → Round Wire
  unfolding receive length_failed
  length_at (wire, err e) m = length_failed e wire m
  length_at (wire, ok n) m =
      if ltb n p.header_size || ltb p.max_frame_size n then stops m else receive n wire m

  -- The loop with the frames that it has handed over so far, which their handlers keep.
  unfoldable pub receive_all : ℕ → Wire → Memory → List FrameAt → Memory × List FrameAt
  unfolding length_at
  receive_all zero wire m kept = (m, kept)
  receive_all (suc rounds) wire m kept = elim (length_at (net.read_frame_length wire) m) [
    | stops m' ↦ (m', kept)
    | skips wire' m' ↦ receive_all rounds wire' m' kept
    | hands wire' m' f ↦ receive_all rounds wire' m' (kept ++ f ∷ [])
  ]
