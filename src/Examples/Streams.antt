-- ===== src/Examples/Streams.antt =====
-- Streams on concrete data.
use tunnel_agent.Base.{◌≡◌, refl, true, false, List, [], ◌∷◌, none, some, codes, receive}
use tunnel_agent.Stream.{Stream, closed, initial, fresh_stream}
use tunnel_agent.Stream.Fifo.{Pipe, PipeEvent, feeds, reads, IsFifo, run_pipe, run_pipe-IsFifo}
use tunnel_agent.Stream.Reader.{read_returns, read, copy_data}
use tunnel_agent.Stream.Feed.{
  ReadSpec, read-ReadSpec, deliver, delivery_panics, stream_closed, deliver_stale, Delivers,
  deliver-Delivers,
}

abbrev fed : Stream
fed = record {
  id = 7;
  state = initial;
  created_at = 0;
  metadata = some [];
  data_out = record { items = codes "abc" ∷ codes "de" ∷ []; closed = false };
  close_ch = false;
  read_buf = [];
}

abbrev shut_stream : Stream
shut_stream = record fed {
  state = closed;
  close_ch = true;
  data_out = record { items = codes "abc" ∷ codes "de" ∷ []; closed = true };
}

read-ReadSpec_example : ReadSpec 2 fed (read 2 true fed)
read-ReadSpec_example = read-ReadSpec 2 true fed

stale_delivery :
    (deliver true (codes "x") shut_stream ≡ delivery_panics)
    × (deliver false (codes "x") shut_stream ≡ stream_closed)
stale_delivery = deliver_stale (codes "x") shut_stream (refl, refl, refl)

deliver-Delivers_example : Delivers (codes "x") fed (deliver true (codes "x") fed)
deliver-Delivers_example = deliver-Delivers true (codes "x") fed (refl, refl, λ e. cc)

-- The first read takes two bytes and keeps the third.
read-fed :
    read 2 true fed
    ≡ read_returns
        (record fed {
          data_out = record { items = codes "de" ∷ []; closed = false };
          read_buf = codes "c";
        })
        (codes "ab")
        none
unfolding read copy_data receive
read-fed = refl

-- Two frames and three reads, with buffers smaller and larger than a frame.
abbrev events : List PipeEvent
events =
    feeds true (codes "abc")
    ∷ reads 2 true
    ∷ feeds true (codes "de")
    ∷ reads 9 true
    ∷ reads 9 true
    ∷ []

abbrev new_pipe : Pipe
new_pipe = record { stream = fresh_stream 7 0; fed = []; got = [] }

new_pipe-IsFifo : IsFifo new_pipe
new_pipe-IsFifo = record { opened = (refl, refl, λ e. cc); whole = refl }

run_pipe-IsFifo_example : (t : Pipe) × (run_pipe events new_pipe ≡ some t) × IsFifo t
run_pipe-IsFifo_example = run_pipe-IsFifo events new_pipe new_pipe-IsFifo
