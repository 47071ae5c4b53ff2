-- ===== src/Connector/Writing.antt =====
-- writeLoop of client/connector.go, one event of its `select` at a time. Encoding and flushing are
-- the protocol package's and bufio's; whether they fail is part of the event.
pub mod Order
pub mod Stale
use tunnel_agent.Base.{ℕ, List, [], ◌∷◌, ◌++◌, Option, none, some, length, ◌==◌, if◌then◌else◌}
use tunnel_agent.Connector.{Connector, Outcome, disconnect}
use tunnel_agent.Errors.{GoError}
use tunnel_agent.Globals.{Globals, count}
use tunnel_agent.Metrics.{increment_frames_sent}
use tunnel_agent.Protocol.{Frame}

-- A write loop: its connection, and the frames that it has encoded for it, oldest first.
pub record Writer : Type 0 where
  pub conn : ℕ
  pub written : List Frame

-- A frame comes with what Encode and Flush return, the timer with what Flush returns. `closing` and
-- `now` are what a Disconnect would get.
pub record Attempt : Type 0 where
  pub encoding : Option GoError
  pub flushing : Option GoError
  pub closing : Option GoError
  pub now : ℕ

pub data WriteEvent : Type 0 where
  context_done : WriteEvent
  frame_taken timer_fired : Attempt → WriteEvent

-- `leaves` carries the outcome of the Disconnect; `waits` stands for an event that cannot happen.
pub data Written : Type 0 where
  stays : Writer → Connector → Globals → Written
  leaves : Outcome → Written
  waits : Written

unfoldable pub remove_writer : ℕ → List ℕ → List ℕ
remove_writer conn [] = []
remove_writer conn (k ∷ ks) = if k == conn then ks else k ∷ remove_writer conn ks

abbrev exited : Writer → Connector → Connector
exited w c = record c { writers = remove_writer w.conn c.writers }

abbrev pub drops : Attempt → Writer → Connector → Globals → Written
drops a w c g = leaves (disconnect a.closing a.now (exited w c) g)

flush : Option GoError → Attempt → Writer → Connector → Globals → Written
flush none a w c g = stays w c g
flush (some e) a w c g = drops a w c g

-- if len(c.sendCh) == 0 { Flush } on the frames that are left
flush_last : List Frame → Attempt → Writer → Connector → Globals → Written
unfolding flush
flush_last [] a w c g = flush a.flushing a w c g
flush_last (f ∷ fs) a w c g = stays w c g

encode : Option GoError → Frame → Attempt → Writer → Connector → Globals → Written
unfolding flush_last
encode (some e) frame a w c g = drops a w c g
encode none frame a w c g =
    flush_last c.send_ch a (record w { written = w.written ++ frame ∷ [] }) c
      (count increment_frames_sent g)

take_frame : List Frame → Attempt → Writer → Connector → Globals → Written
unfolding encode
take_frame [] a w c g = waits
take_frame (frame ∷ rest) a w c g = encode a.encoding frame a w (record c { send_ch = rest }) g

unfoldable pub write_event : WriteEvent → Writer → Connector → Globals → Written
unfolding take_frame flush
write_event context_done w c g =
    leaves (record { connector = exited w c; globals = g; calls = []; result = none })
write_event (frame_taken a) w c g = take_frame c.send_ch a w c g
write_event (timer_fired a) w c g = flush a.flushing a w c g
