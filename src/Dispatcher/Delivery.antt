-- ===== src/Dispatcher/Delivery.antt =====
-- The read loop of client/dispatcher.go on a connection that carries well-formed frames.
use tunnel_agent.Base.{ℕ, false, ◌≡◌, List, [], ◌∷◌, ◌||◌, Option, none, some, Bytes, ltb}
use tunnel_agent.Dispatcher.{Dispatcher, Net, Host, handle_frame}
use tunnel_agent.Errors.{GoError, ok, err, eof}
use tunnel_agent.Metrics.{Metrics, increment_frames_error, increment_frames_received}
use tunnel_agent.Protocol.{Protocol, Frame}

module _ {Wire S : Type 0} (p : Protocol) (net : Net Wire) (h : Host Wire S) where
  -- The host's accessors are what their names say: where there is a connection, put_conn replaces it.
  pub record IsHost : Type 0 where
    pub conn-put_conn : (v w : Wire) (s : S) → h.conn s ≡ some v → h.conn (h.put_conn w s) ≡ some w
    pub dispatcher-put_conn : (w : Wire) (s : S) → h.dispatcher (h.put_conn w s) ≡ h.dispatcher s
    pub conn-count : (f : Metrics → Metrics) (s : S) → h.conn (h.count f s) ≡ h.conn s
    pub dispatcher-count :
        (f : Metrics → Metrics) (s : S) → h.dispatcher (h.count f s) ≡ h.dispatcher s

  -- Reading from `w` gives `frame`, and leaves `w'`.
  pub record Reads (w : Wire) (frame : Frame) (w' : Wire) : Type 0 where
    pub size : ℕ
    pub bytes : Bytes
    pub behind : Wire
    pub length_is : net.read_frame_length w ≡ (behind, ok size)
    pub in_range : (ltb size p.header_size || ltb p.max_frame_size size) ≡ false
    pub body_is : net.read_full size behind ≡ (w', ok bytes)
    pub frame_is : net.parse_frame bytes ≡ ok frame

  -- The frames that a connection carries, each with the connection behind it, up to its end.
  pub data Carries : Wire → List (Frame × Wire) → Type 0 where
    ended : {w : Wire} (w' : Wire) → net.read_frame_length w ≡ (w', err eof) → Carries w []
    carries :
        {w w' : Wire} {frame : Frame} {rest : List (Frame × Wire)}
        → Reads w frame w'
        → Carries w' rest
        → Carries w ((frame, w') ∷ rest)

  abbrev pub after_handler : S × Option GoError → S
  after_handler (s, none) = s
  after_handler (s, some e) = h.count increment_frames_error s

  -- What one frame does: it is counted, handled, and counted again if the handler refuses it.
  abbrev pub deliver : Frame → Wire → S → S
  deliver frame w' s =
      after_handler
        (handle_frame p net h frame (h.count increment_frames_received (h.put_conn w' s)))

  -- A frame whose handler leaves the connection and the context alone.
  abbrev pub IsQuiet : Frame → Type 0
  IsQuiet frame =
      (s : S)
      → (h.conn (handle_frame p net h frame s).0 ≡ h.conn s)
        × (h.dispatcher (handle_frame p net h frame s).0 ≡ h.dispatcher s)

  pub deliver_all : List (Frame × Wire) → S → S
  deliver_all [] s = s
  deliver_all ((frame, w') ∷ rest) s = deliver_all rest (deliver frame w' s)

  -- A host that is reading from `w`.
  abbrev pub IsReading : Wire → S → Type 0
  IsReading w s = (h.conn s ≡ some w) × ((h.dispatcher s).cancelled ≡ false)

  module _ (laws : IsHost) where
    abbrev pub last_wire : {w : Wire} {fs : List (Frame × Wire)} → Carries w fs → Wire
    last_wire (ended w' e) = w'
    last_wire (carries r c) = last_wire c

    abbrev pub AllQuiet : List (Frame × Wire) → Type 0
    AllQuiet [] = Unit
    AllQuiet ((frame, w') ∷ rest) = IsQuiet frame × AllQuiet rest
