-- ===== src/Dispatcher/Buffers/Frames.antt =====
-- The frames that handlers keep, by their place in memory, for the read loop of client/dispatcher.go.
use tunnel_agent.Base.{
  ℕ, zero, suc, ◌≡◌, refl, ap, ◌⊎◌, inl, inr, List, [], ◌∷◌, ◌++◌, Option, none, some, map, arith,
  Bytes, take, drop, All,
}
use tunnel_agent.Dispatcher.{new_dispatcher, Host}
use tunnel_agent.Errors.{GoError}
use tunnel_agent.Dispatcher.Buffers.{Memory, FrameAt, cell_at, read_frame}
use tunnel_agent.Dispatcher.Buffers.Cells.{InUse, Keeps}
use tunnel_agent.Protocol.{Frame}

-- A host that writes down the frames that it handles.
pub record Recorder (Wire : Type 0) : Type 0 where
  pub wire : Wire
  pub frames : List Frame

module _ {Wire : Type 0} where
  abbrev pub record_frame : Frame → Recorder Wire → Recorder Wire × Option GoError
  record_frame f s = (record s { frames = s.frames ++ f ∷ [] }, none)

  abbrev pub recorder : Host Wire (Recorder Wire)
  recorder = record {
    dispatcher = λ s. new_dispatcher;
    conn = λ s. some s.wire;
    put_conn = λ w s. record s { wire = w };
    count = λ f s. s;
    control_handler = some record_frame;
    stream_handler = some record_frame;
    on_connection_closed = none;
    on_error = none;
  }

-- A frame whose payload is empty or lies in a cell in use.
abbrev pub Kept : Memory → FrameAt → Type 0
Kept m f = (f.slice.len ≡ 0) ⊎ InUse m f.slice.cell

pub take_none : (k : ℕ) (a b : Bytes) → k ≡ 0 → take k a ≡ take k b
take_none zero a b h = refl
take_none (suc k) a b h = absurd (omega (arith, h))

-- What keeps the cells in use keeps the frames.
pub Kept-Keeps :
    (m m' : Memory) (f : FrameAt)
    → Keeps m m'
    → Kept m f
    → Kept m' f × (read_frame m' f ≡ read_frame m f)
Kept-Keeps m m' f k (inl z) = (
  inl z,
  ap (λ (b : Bytes). record f.header { payload = b })
      (take_none f.slice.len (drop f.slice.start (cell_at f.slice.cell m'))
        (drop f.slice.start (cell_at f.slice.cell m)) z),
)
Kept-Keeps m m' f k (inr u) =
    let (u', e) = k f.slice.cell u in
    (
      inr u',
      ap (λ (b : Bytes). record f.header { payload = take f.slice.len (drop f.slice.start b) }) e,
    )

pub Kept-All-Keeps :
    (m m' : Memory) (fs : List FrameAt)
    → Keeps m m'
    → All (Kept m) fs
    → All (Kept m') fs × (map (read_frame m') fs ≡ map (read_frame m) fs)
Kept-All-Keeps m m' [] k h = (tt, refl)
Kept-All-Keeps m m' (f ∷ fs) k (h, hs) =
    let (h', e) = Kept-Keeps m m' f k h in
    let (hs', es) = Kept-All-Keeps m m' fs k hs in ((h', hs'), cc)

pub map-append_one :
    (f : FrameAt → Frame) (fs : List FrameAt) (x : FrameAt)
    → map f (fs ++ x ∷ []) ≡ map f fs ++ f x ∷ []
map-append_one f [] x = refl
map-append_one f (y ∷ fs) x = ap (◌∷◌ (f y)) (map-append_one f fs x)
