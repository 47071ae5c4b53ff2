-- ===== src/Stream/Reader.antt =====
-- Stream.Read of client/stream.go. Where both channels are ready, `select` takes either, so the
-- choice is an argument: `true` is the receive from dataOut.
use tunnel_agent.Base.{
  ℕ, Bool, [], ◌∷◌, Option, none, some, Bytes, Received, received, drained, empty, receive, length,
  take, drop, min, ltb, if◌then◌else◌,
}
use tunnel_agent.Errors.{GoError, eof}
use tunnel_agent.Stream.{Stream}

-- The stream after the call, the bytes copied to `p`, and the error. `blocks` waits for data.
pub data ReadOutcome : Type 0 where
  read_returns : Stream → Bytes → Option GoError → ReadOutcome
  blocks : ReadOutcome

-- `n = copy(p, data)`, with what does not fit kept in readBuf.
unfoldable pub copy_data : ℕ → Bytes → Stream → ReadOutcome
copy_data size bytes s =
    let n = min size (length bytes) in
    if ltb n (length bytes)
    then read_returns (record s { read_buf = drop n bytes }) (take n bytes) none
    else read_returns s (take n bytes) none

read_data : ℕ → Received Bytes → Stream → ReadOutcome
unfolding copy_data
read_data size (received bytes rest) s = copy_data size bytes (record s { data_out = rest })
read_data size drained s = read_returns s [] (some eof)
read_data size empty s = blocks

-- The `select`: with `closeCh` open only dataOut can be ready.
read_select : ℕ → Bool → Received Bytes → Stream → ReadOutcome
unfolding read_data
read_select size takes_data empty s = if s.close_ch then read_returns s [] (some eof) else blocks
read_select size takes_data r s =
    if s.close_ch
    then (if takes_data then read_data size r s else read_returns s [] (some eof))
    else read_data size r s

read_buffered : ℕ → Bool → Bytes → Stream → ReadOutcome
unfolding read_select
read_buffered size takes_data [] s = read_select size takes_data (receive s.data_out) s
read_buffered size takes_data (b ∷ bs) s =
    let n = min size (length (b ∷ bs)) in
    read_returns (record s { read_buf = drop n (b ∷ bs) }) (take n (b ∷ bs)) none

-- Read(p) with len(p) = `size`.
unfoldable pub read : ℕ → Bool → Stream → ReadOutcome
unfolding read_buffered
read size takes_data s = read_buffered size takes_data s.read_buf s
