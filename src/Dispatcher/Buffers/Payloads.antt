-- ===== src/Dispatcher/Buffers/Payloads.antt =====
-- A parsed frame in the buffers of client/dispatcher.go, up to the return of its buffer.
use tunnel_agent.Base.{
  ℕ, ◌≡◌, ◌≢◌, refl, sym, ap, ◌∙◌, subst, inl, inr, false, [], ◌∷◌, ◌++◌, arith, Bytes, ltb, length,
  take, drop, Bool-cases,
}
use tunnel_agent.Dispatcher.{Net, Turn, exits, again, handle_frame, handled, parsed}
use tunnel_agent.Errors.{ok}
use tunnel_agent.Dispatcher.Buffers.{
  Memory, FrameAt, Buffers, Round, stops, skips, hands, cell_at, read_slice, read_frame,
  copy_payload, handed,
}
use tunnel_agent.Dispatcher.Buffers.Cells.{
  InUse, IsMemory, Keeps, IsPool, FillsBody, SlicesBody, take_all, allocate, allocate-Keeps,
  allocate-InUse, allocate-IsMemory, cell_at-allocate,
}
use tunnel_agent.Dispatcher.Buffers.Frames.{Recorder, recorder, Kept, take_none}
use tunnel_agent.Protocol.{Protocol, Frame}

module _ {Wire : Type 0} (p : Protocol) (net : Net Wire) (bs : Buffers Wire) where
  -- A round on buffers does what the round on values does.
  pub data Agrees (m : Memory) (s : Recorder Wire)
      : Round Wire → Turn (Recorder Wire) → Type 0 where
    both_stop :
        {m' : Memory} {s' : Recorder Wire}
        → Keeps m m'
        → s'.frames ≡ s.frames
        → Agrees m s (stops m') (exits s')
    both_skip :
        {w : Wire} {m' : Memory}
        → Keeps m m'
        → IsMemory m'
        → Agrees m s (skips w m') (again (record s { wire = w }))
    both_hand :
        {w : Wire} {m' : Memory} (f : FrameAt)
        → Keeps m m'
        → IsMemory m'
        → Kept m' f
        → Agrees m s
            (hands w m' f)
            (again (record { wire = w; frames = s.frames ++ read_frame m' f ∷ [] }))

  module _ (pool : IsPool bs) (fills : FillsBody net) (slices : SlicesBody net bs) where
    -- `buf` was taken from the pool behind `m`, and nothing else was changed.
    unfoldable pub Borrows : Memory → ℕ → Memory → Type 0
    Borrows m buf m₂ = Keeps m m₂ × ((a : ℕ) → InUse m a → a ≢ buf) × InUse m₂ buf × IsMemory m₂

    pub put_back : (m m₂ : Memory) (buf : ℕ) → Borrows m buf m₂ → Keeps m (bs.put_buffer buf m₂)
    unfolding Borrows
    put_back m m₂ buf b a u =
        let (u₂, e₂) = b.0 a u in
        let (u₃, e₃) = pool.put-KeepsBut buf m₂ b.2 a u₂ (b.1 a u) in (u₃, e₃ ∙ e₂)

    allocate-Borrows :
        (m m₂ : Memory) (buf : ℕ) (bytes : Bytes)
        → Borrows m buf m₂
        → Borrows m buf (allocate bytes m₂)
    unfolding Borrows
    allocate-Borrows m m₂ buf bytes b = (
      (λ a u.
          let (u₂, e₂) = b.0 a u in let (u₃, e₃) = allocate-Keeps bytes m₂ a u₂ in (u₃, e₃ ∙ e₂)),
      b.1,
      (allocate-Keeps bytes m₂ buf b.2).0,
      allocate-IsMemory bytes m₂ b.3,
    )

    unfoldable pub frame_at : Frame → ℕ → ℕ → FrameAt
    frame_at frame buf off = record {
      header = frame;
      slice = record { cell = buf; start = off; len = length frame.payload };
    }

    -- The loop on values, from a frame on.
    hand_over :
        (w : Wire) (s : Recorder Wire) (frame : Frame)
        → handled p net recorder (handle_frame p net recorder frame (record s { wire = w }))
          ≡ again (record { wire = w; frames = s.frames ++ frame ∷ [] })
    unfolding handled handle_frame
    hand_over w s frame = elim (Bool-cases (p.is_control_frame frame)) [
      | inl e ↦ rw e refl
      | inr e ↦ rw e refl
    ]

    hand-Agrees :
        (m : Memory) (s : Recorder Wire) (w : Wire) (frame : Frame) (m' : Memory) (f : FrameAt)
        → Keeps m m'
        → IsMemory m'
        → Kept m' f
        → read_frame m' f ≡ frame
        → Agrees m s (hands w m' f) (parsed p net recorder (ok frame) (record s { wire = w }))
    unfolding parsed
    hand-Agrees m s w frame m' f k im kept e =
        subst (Agrees m s (hands w m' f))
          (ap (λ (g : Frame). again (record { wire = w; frames = s.frames ++ g ∷ [] })) e
            ∙ sym (hand_over w s frame))
          (both_hand f k im kept)

    ltb_zero : (n : ℕ) → ltb 0 n ≡ false → n ≡ 0
    ltb_zero n h = ground arith

    with_payload :
        (frame : Frame) (c : Bytes)
        → c ≡ frame.payload
        → record frame { payload = take (length frame.payload) c } ≡ frame
    with_payload frame c e =
        ap (λ (b : Bytes). record frame { payload = b })
          (take_all (length frame.payload) c (ap length e) ∙ e)

    pub copy-Agrees :
        (m m₂ : Memory) (s : Recorder Wire) (w : Wire) (buf off : ℕ) (frame : Frame)
        → Borrows m buf m₂
        → read_slice (record { cell = buf; start = off; len = length frame.payload }) m₂
          ≡ frame.payload
        → Agrees m s
            (handed p net bs w buf (copy_payload (frame_at frame buf off) m₂))
            (parsed p net recorder (ok frame) (record s { wire = w }))
    unfolding copy_payload handed frame_at Borrows
    copy-Agrees m m₂ s w buf off frame b e = elim (Bool-cases (ltb 0 (length frame.payload))) [
      | inl some_bytes ↦ rw some_bytes copied
      | inr no_bytes ↦ rw no_bytes (empty (ltb_zero (length frame.payload) no_bytes))
    ]
      where
        copied :
            Agrees m s
              (hands w
                (bs.put_buffer buf
                  (allocate (take (length frame.payload) (drop off (cell_at buf m₂))) m₂))
                (record {
                  header = frame;
                  slice = record { cell = length m₂.cells; start = 0; len = length frame.payload };
                }))
              (parsed p net recorder (ok frame) (record s { wire = w }))
        copied =
            let bytes : Bytes = take (length frame.payload) (drop off (cell_at buf m₂)) in
            let m₃ : Memory = allocate bytes m₂ in
            let b₃ : Borrows m buf m₃ = allocate-Borrows m m₂ buf bytes b in
            let (u, ce) =
              pool.put-KeepsBut buf m₃ b₃.2 (length m₂.cells) (allocate-InUse bytes m₂ b.3)
                (λ q. omega (arith, q, b.2.0)) in
            hand-Agrees m s w frame (bs.put_buffer buf m₃)
              (record {
                header = frame;
                slice = record { cell = length m₂.cells; start = 0; len = length frame.payload };
              })
              (put_back m m₃ buf b₃) (pool.put-IsMemory buf m₃ b₃.2 b₃.3) (inr u)
              (with_payload frame (cell_at (length m₂.cells) (bs.put_buffer buf m₃))
                (ce ∙ cell_at-allocate bytes m₂ ∙ e))

        empty :
            length frame.payload ≡ 0
            → Agrees m s
                (hands w (bs.put_buffer buf m₂) (frame_at frame buf off))
                (parsed p net recorder (ok frame) (record s { wire = w }))
        empty z =
            hand-Agrees m s w frame (bs.put_buffer buf m₂) (frame_at frame buf off)
              (put_back m m₂ buf b) (pool.put-IsMemory buf m₂ b.2 b.3) (inl z)
              (ap (λ (x : Bytes). record frame { payload = x })
                (take_none (length frame.payload) (drop off (cell_at buf (bs.put_buffer buf m₂)))
                    frame.payload z
                  ∙ take_all (length frame.payload) frame.payload refl))
