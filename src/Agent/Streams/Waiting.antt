-- ===== src/Agent/Streams/Waiting.antt =====
-- handleStreamFrame of cmd/agent/main.go while its select waits for room in a stream: it holds the
-- stream, whatever becomes of the stream's id.
use tunnel_agent.Base.{
  ℕ, Bool, true, ◌≡◌, refl, sym, ap, subst, inl, inr, Option, none, some, get_elem?, set, if_both,
  if◌then◌else◌,
}
use tunnel_agent.Agent.{Agent}
use tunnel_agent.Agent.Streams.{Handling, handled, blocked, delivery_result}
use tunnel_agent.Agent.Streams.Accounting.{
  IsSound, KeepsSound, close_quietly-KeepsSound, write-IsSound,
}
use tunnel_agent.Errors.{stream_not_found}
use tunnel_agent.Protocol.{Protocol, Frame}
use tunnel_agent.Stream.{Stream}
use tunnel_agent.Stream.Feed.{deliver, goes, waits, deliver-Delivers}

-- CloseStream closes closeCh first, and that wakes the select before the other channel is closed.
-- Without a close it goes on as soon as there is room.
resumed_with : Protocol → ℕ → Frame → ℕ → Option Stream → Agent → Handling
unfolding delivery_result
resumed_with p now frame ptr none a = blocked
resumed_with p now frame ptr (some s) a =
    if s.close_ch
    then handled a (some stream_not_found)
    else delivery_result p now frame ptr (deliver true frame.payload s) a

-- The pointer came from the manager, whose store never shrinks.
unfoldable pub resumed : Protocol → ℕ → Frame → ℕ → Agent → Handling
unfolding resumed_with
resumed p now frame ptr a = resumed_with p now frame ptr (get_elem? a.streams.store ptr) a

resumed_with-KeepsSound :
    (p : Protocol) (now : ℕ) (frame : Frame) (ptr : ℕ) (o : Option Stream) (a : Agent)
    → IsSound a
    → get_elem? a.streams.store ptr ≡ o
    → KeepsSound (resumed_with p now frame ptr o a)
unfolding resumed_with
resumed_with-KeepsSound p now frame ptr none a h e = tt
resumed_with-KeepsSound p now frame ptr (some s) a h e = elim (h.streams.others ptr s e) [
  | inr gone ↦ subst KeepsSound (sym (ap branch gone.0)) h
  | inl (op, reg) ↦
      subst KeepsSound (sym (ap branch op.0)) (elim (deliver-Delivers true frame.payload s op) [
        | goes t d pend same bound ↦ rw d (
            unfold delivery_result in
            if_both KeepsSound (p.is_end_stream frame) _ _
              (close_quietly-KeepsSound frame.stream_id now
                (record a { streams = record a.streams { store = set a.streams.store ptr t } })
                (write-IsSound ptr s t a h e same))
              (write-IsSound ptr s t a h e same))
        | waits d full ↦ rw d (unfold delivery_result in tt)
      ])
]
  where
    branch : Bool → Handling
    branch b =
        if b
        then handled a (some stream_not_found)
        else delivery_result p now frame ptr (deliver true frame.payload s) a

pub resumed-KeepsSound :
    (p : Protocol) (now : ℕ) (frame : Frame) (ptr : ℕ) (a : Agent)
    → IsSound a
    → KeepsSound (resumed p now frame ptr a)
unfolding resumed
resumed-KeepsSound p now frame ptr a h =
    resumed_with-KeepsSound p now frame ptr (get_elem? a.streams.store ptr) a h refl
