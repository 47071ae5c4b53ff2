-- ===== src/Agent/Streams/Ending.antt =====
-- The data frame that ends a request body, from handleStreamFrame of cmd/agent/main.go to Stream.Read
-- of client/stream.go.
use tunnel_agent.Base.{
  ℕ, ◌<◌, Bool, true, false, ◌≡◌, ◌≢◌, refl, sym, ◌∙◌, ap, List, [], ◌∷◌, ◌++◌, none, some, arith,
  length, Bytes, get_elem?, set, get_elem?-set, lookup, nat_eq, receive, ◌==◌, send, ==_refl,
  append_assoc, subst, eq_of_some, flatten, flatten-append_one, if◌then◌else◌,
}
use tunnel_agent.Agent.{Agent}
use tunnel_agent.Agent.Streams.{
  handled, close_quietly, after_call, data_frame, deliver_at, delivery_result, handle_stream_frame,
}
use tunnel_agent.Agent.Streams.Accounting.{IsSound}
use tunnel_agent.Errors.{eof}
use tunnel_agent.Protocol.{Protocol, Frame}
use tunnel_agent.Stream.{Stream, StreamManager, data_capacity, get_stream, shut}
use tunnel_agent.Stream.Feed.{deliver, delivered, pending}
use tunnel_agent.Stream.Reader.{read, read_returns}
use tunnel_agent.Stream.WellFormed.{IsOpen}
use tunnel_agent.Stream.WellFormed.Closing.{closed_return, close_stream_registered}

-- The stream with one payload more in its channel.
abbrev pub with_payload : Bytes → Stream → Stream
with_payload payload s = record s {
  data_out = record { items = s.data_out.items ++ payload ∷ []; closed = false };
}

deliver_open :
    (takes_send : Bool) (payload : Bytes) (s : Stream)
    → IsOpen s
    → length s.data_out.items < data_capacity
    → deliver takes_send payload s ≡ delivered (with_payload payload s)
unfolding deliver send
deliver_open takes_send payload s op room = ground (arith, room)

read_shut :
    (size : ℕ) (items : List Bytes) (s : Stream)
    → s.close_ch ≡ true
    → s.read_buf ≡ []
    → s.data_out.items ≡ items
    → read size false s ≡ read_returns s [] (some eof)
unfolding read receive
read_shut size [] s shut b i = rw (b, read, i) (ground arith)
read_shut size (x ∷ xs) s shut b i = rw (b, read, i) (ground arith)

-- Closing the stream that the frame has gone into.
close_fed :
    (now k ptr : ℕ) (s t : Stream) (a : Agent)
    → lookup k a.streams.streams ≡ some ptr
    → get_elem? a.streams.store ptr ≡ some s
    → IsOpen t
    → (b : Agent) × (close_quietly k now
          (record a { streams = record a.streams { store = set a.streams.store ptr t } })
        ≡ handled b none)
      × (get_elem? b.streams.store ptr ≡ some (shut t))
unfolding close_quietly
close_fed now k ptr s t a reg held op =
    let sm : StreamManager = record a.streams { store = set a.streams.store ptr t } in
    let fed : get_elem? sm.store ptr ≡ some t =
      get_elem?-set a.streams.store ptr s t ptr held
      ∙ ap (λ (b : Bool). if b then some t else get_elem? a.streams.store ptr) (==_refl ptr) in
    (
      after_call now (closed_return k ptr t sm) (record a { streams = sm }),
      rw (close_stream_registered k ptr t sm reg fed op) refl,
      get_elem?-set sm.store ptr t (shut t) ptr fed
          ∙ ap (λ (b : Bool). if b then some (shut t) else get_elem? sm.store ptr) (==_refl ptr),
    )

-- In a sound agent, a data frame with the flag that ends its registered stream, which has room for
-- it, is handled without an error, and its payload stands behind all that the reader has still to
-- get; but the stream is closed with it, so a reader that has no buffered bytes may from then on get
-- EOF from every Read, whatever its size, with the payload and all before it unread. The types of
-- frames that carry data and that open a stream are two.
pub end_frame_lost :
    (p : Protocol) (now : ℕ) (takes_send : Bool) (frame : Frame) (ptr : ℕ) (s : Stream) (a : Agent)
    → IsSound a
    → frame.type ≡ p.frame_data
    → p.frame_data ≢ p.frame_open_stream
    → p.is_end_stream frame ≡ true
    → get_stream frame.stream_id a.streams ≡ some ptr
    → get_elem? a.streams.store ptr ≡ some s
    → s.read_buf ≡ []
    → length s.data_out.items < data_capacity
    → (b : Agent) × (t : Stream) × (handle_stream_frame p now takes_send frame a ≡ handled b none)
      × (get_elem? b.streams.store ptr ≡ some t)
      × (pending t ≡ pending s ++ frame.payload)
      × ((size : ℕ) → read size false t ≡ read_returns t [] (some eof))
unfolding handle_stream_frame data_frame deliver_at get_stream
end_frame_lost p now takes_send frame ptr s a h typed apart ending reg held empty room =
    let (s', held', name, op') = h.streams.registered frame.stream_id ptr reg in
    let op : IsOpen s = subst IsOpen (eq_of_some (sym held' ∙ held)) op' in
    let t = with_payload frame.payload s in
    let (b, closed, found) = close_fed now frame.stream_id ptr s t a reg held (op.0, refl, op.2) in
    (
      b,
      shut t,
      rw (not_open, is_data, reg, held)
          (rw (deliver_open takes_send frame.payload s op room)
            (unfold delivery_result in rw ending closed)),
      found,
      ap (◌++◌ s.read_buf) (flatten-append_one s.data_out.items frame.payload)
          ∙ sym (append_assoc s.read_buf (flatten s.data_out.items) frame.payload),
      λ size. read_shut size (shut t).data_out.items (shut t) refl empty refl,
    )
  where
    is_data : (frame.type == p.frame_data) ≡ true
    is_data = ground arith

    not_open : (frame.type == p.frame_open_stream) ≡ false
    not_open = ground (arith, typed, apart)
