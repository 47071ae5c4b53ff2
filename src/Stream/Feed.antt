-- ===== src/Stream/Feed.antt =====
-- The stream as a queue of bytes, from the dispatcher's send (the FrameData case of
-- handleStreamFrame in cmd/agent/main.go) to Stream.Read of client/stream.go.
use tunnel_agent.Base.{
  ℕ, ◌≤◌, Bool, true, false, ◌≡◌, refl, sym, ◌∙◌, ap, ◌⊎◌, inl, inr, List, [], ◌∷◌, ◌++◌, none,
  some, Bytes, arith, length, take, drop, min, take-append-drop, length-take, drop_all,
  append_assoc, append-nil, Sent, sent, full, send_panic, send, receive, if◌then◌else◌,
  length-append, ltb, flatten, flatten-append_one, Bool-cases,
}
use tunnel_agent.Errors.{eof}
use tunnel_agent.Stream.{Stream, data_capacity, shut}
use tunnel_agent.Stream.Reader.{ReadOutcome, read_returns, blocks, read, copy_data}
use tunnel_agent.Stream.WellFormed.{IsOpen, IsShut, SameIdentity}

pub data Delivery : Type 0 where
  delivered : Stream → Delivery
  stream_closed delivery_blocks delivery_panics : Delivery

sent_to : Stream → Sent Bytes → Delivery
sent_to s (sent c) = delivered (record s { data_out = c })
sent_to s full = delivery_blocks
sent_to s send_panic = delivery_panics

deliver_closing : Bool → Stream → Sent Bytes → Delivery
deliver_closing takes_send s full = stream_closed
deliver_closing takes_send s r = if takes_send then sent_to s r else stream_closed

-- select { case stream.DataOut() <- payload: case <-stream.CloseCh(): }; the flag is the choice of
-- `select` where both are ready.
unfoldable pub deliver : Bool → Bytes → Stream → Delivery
unfolding deliver_closing sent_to
deliver takes_send payload s =
    if s.close_ch
    then deliver_closing takes_send s (send data_capacity payload s.data_out)
    else sent_to s (send data_capacity payload s.data_out)

-- The bytes that a reader of the stream has still to get, oldest first.
abbrev pub pending : Stream → Bytes
pending s = s.read_buf ++ flatten s.data_out.items

-- On an open stream the payload goes behind all that is pending, or the dispatcher waits for room.
pub data Delivers (payload : Bytes) (s : Stream) (d : Delivery) : Type 0 where
  goes :
      (t : Stream)
      → d ≡ delivered t
      → pending t ≡ pending s ++ payload
      → SameIdentity s t
      → length t.data_out.items ≤ data_capacity
      → Delivers payload s d
  waits : d ≡ delivery_blocks → data_capacity ≤ length s.data_out.items → Delivers payload s d

pub deliver-Delivers :
    (takes_send : Bool) (payload : Bytes) (s : Stream)
    → IsOpen s
    → Delivers payload s (deliver takes_send payload s)
unfolding deliver send
deliver-Delivers takes_send payload s op =
    elim (Bool-cases (ltb (length s.data_out.items) data_capacity)) [
      | inl room ↦
          goes
            (record s {
              data_out = record { items = s.data_out.items ++ payload ∷ []; closed = false };
            })
            (ground arith)
            (ap (◌++◌ s.read_buf) (flatten-append_one s.data_out.items payload)
              ∙ sym (append_assoc s.read_buf (flatten s.data_out.items) payload))
            (refl, refl, refl, ground arith)
            (ground (arith, length-append s.data_out.items (payload ∷ [])))
      | inr none_left ↦ waits (ground arith) (ground arith)
    ]

-- The bytes that the next read takes from: those that a read before has left, or the oldest payload.
abbrev pub next_piece : Bytes → List Bytes → Bytes
next_piece (b ∷ bs) items = b ∷ bs
next_piece [] (bytes ∷ rest) = bytes
next_piece [] [] = []

-- What each outcome of a read with a buffer of `size` bytes promises.
abbrev pub ReadSpec : ℕ → Stream → ReadOutcome → Type 0
ReadSpec size s (read_returns t got none) =
    (pending s ≡ got ++ pending t)
    × (length got ≡ min size (length (next_piece s.read_buf s.data_out.items)))
    × SameIdentity s t
ReadSpec size s (read_returns t got (some e)) =
    (e ≡ eof)
    × (got ≡ [])
    × (t ≡ s)
    × (s.read_buf ≡ [])
    × ((s.close_ch ≡ true) ⊎ ((s.data_out.closed ≡ true) × (s.data_out.items ≡ [])))
ReadSpec size s blocks =
    (s.read_buf ≡ []) × (s.data_out.items ≡ []) × (s.close_ch ≡ false) × (s.data_out.closed ≡ false)

length-take-min :
    (size : ℕ) (xs : Bytes) → length (take (min size (length xs)) xs) ≡ min size (length xs)
length-take-min size xs = omega (arith, length-take (min size (length xs)) xs)

next_piece_first :
    (bytes : Bytes) (rest : List Bytes) (s : Stream)
    → s.read_buf ≡ []
    → s.data_out.items ≡ bytes ∷ rest
    → next_piece s.read_buf s.data_out.items ≡ bytes
next_piece_first bytes rest s b i =
    ap (λ (r : Bytes). next_piece r s.data_out.items) b ∙ ap (next_piece []) i

split_bytes :
    (size : ℕ) (bytes rest : Bytes) → bytes ++ rest ≡ take size bytes ++ (drop size bytes ++ rest)
split_bytes size bytes rest =
    ap (λ (b : Bytes). b ++ rest) (sym (take-append-drop size bytes))
    ∙ append_assoc (take size bytes) (drop size bytes) rest

pending_front :
    (bytes : Bytes) (rest : List Bytes) (s : Stream)
    → s.read_buf ≡ []
    → s.data_out.items ≡ bytes ∷ rest
    → pending s ≡ bytes ++ flatten rest
pending_front bytes rest s b i = ap (λ (r : Bytes). r ++ flatten s.data_out.items) b ∙ ap flatten i

take_whole : (n : ℕ) (xs : Bytes) → length xs ≤ n → take n xs ≡ xs
take_whole n xs h =
    sym (append-nil (take n xs))
    ∙ ap (◌++◌ (take n xs)) (sym (drop_all n xs h))
    ∙ take-append-drop n xs

copy_data-ReadSpec :
    (size : ℕ) (bytes : Bytes) (rest : List Bytes) (s : Stream)
    → s.read_buf ≡ []
    → s.data_out.items ≡ bytes ∷ rest
    → ReadSpec size s (
        copy_data size bytes
          (record s { data_out = record { items = rest; closed = s.data_out.closed } }))
unfolding copy_data
copy_data-ReadSpec size bytes rest s b i =
    let n = min size (length bytes) in
    elim (Bool-cases (ltb (min size (length bytes)) (length bytes))) [
      | inl more ↦ rw more (
        pending_front bytes rest s b i ∙ split_bytes n bytes (flatten rest),
        length-take-min size bytes
            ∙ ap (λ (x : Bytes). min size (length x)) (sym (next_piece_first bytes rest s b i)),
        (refl, refl, refl, refl),
      )
      | inr whole ↦ rw whole (
        pending_front bytes rest s b i
            ∙ ap (λ (r : Bytes). r ++ flatten rest) (sym (take_whole n bytes (ground arith)))
            ∙ ap (λ (r : Bytes). take n bytes ++ (r ++ flatten rest)) (sym b),
        length-take-min size bytes
            ∙ ap (λ (x : Bytes). min size (length x)) (sym (next_piece_first bytes rest s b i)),
        (refl, refl, refl, refl),
      )
    ]

read_select-ReadSpec :
    (size : ℕ) (takes_data : Bool) (items : List Bytes) (s : Stream)
    → s.read_buf ≡ []
    → s.data_out.items ≡ items
    → ReadSpec size s (read size takes_data s)
unfolding read receive
read_select-ReadSpec size takes_data [] s b i = ground arith
read_select-ReadSpec size true (x ∷ xs) s b i =
    rw (b, read, i) (ground (arith, copy_data-ReadSpec size x xs s b i))
read_select-ReadSpec size false (x ∷ xs) s b i =
    rw (b, read, i) (ground (arith, copy_data-ReadSpec size x xs s b i))

read_buffered-ReadSpec :
    (size : ℕ) (takes_data : Bool) (buffered : Bytes) (s : Stream)
    → s.read_buf ≡ buffered
    → ReadSpec size s (read size takes_data s)
read_buffered-ReadSpec size takes_data [] s b =
    read_select-ReadSpec size takes_data s.data_out.items s b refl
read_buffered-ReadSpec size takes_data (x ∷ xs) s b =
    let n = min size (length (x ∷ xs)) in
    unfold read in
    rw (b, read)
      (
        split_bytes n (x ∷ xs) (flatten s.data_out.items),
        length-take-min size (x ∷ xs),
        (refl, refl, refl, refl),
      )

-- A read without an error gives the oldest pending bytes, as many as the buffer takes of what a read
-- before has left or else of the oldest payload, and keeps the others in order; a read blocks only on
-- an open stream with nothing pending, and reports EOF only when the stream is shut.
pub read-ReadSpec :
    (size : ℕ) (takes_data : Bool) (s : Stream) → ReadSpec size s (read size takes_data s)
read-ReadSpec size takes_data s = read_buffered-ReadSpec size takes_data s.read_buf s refl

-- A send of a dispatcher that looked the stream up before it was closed: with the send chosen it
-- panics, and otherwise it reports ErrStreamNotFound.
pub deliver_stale :
    (payload : Bytes) (s : Stream)
    → IsShut s
    → (deliver true payload s ≡ delivery_panics) × (deliver false payload s ≡ stream_closed)
unfolding deliver send
deliver_stale payload s shut = ground arith
