-- ===== src/Dispatcher/Buffers/Rounds.antt =====
-- A round of the read loop of client/dispatcher.go on buffers, against the round on values.
use tunnel_agent.Base.{
  ℕ, ◌≡◌, refl, sym, ap, ◌∙◌, subst, inl, inr, ◌||◌, arith, Bytes, codes, ltb, length, take,
  Bool-cases,
}
use tunnel_agent.Dispatcher.{
  new_dispatcher, Net, read_turn, contains, parsed, body_read, read_failed, length_read,
  connected_turn,
}
use tunnel_agent.Errors.{GoError, Result, ok, err, eof, error_text}
use tunnel_agent.Dispatcher.Buffers.{
  Memory, Buffers, cell_at, fill, parsed_at, parse_at, body_at, body_into, receive, length_failed,
  length_at,
}
use tunnel_agent.Dispatcher.Buffers.Cells.{
  IsMemory, IsPool, FillsBody, SlicesBody, fill-KeepsBut, fill-InUse, fill-IsMemory, take-fill,
  take-drop-take,
}
use tunnel_agent.Dispatcher.Buffers.Frames.{Recorder, recorder}
use tunnel_agent.Dispatcher.Buffers.Payloads.{
  Agrees, both_stop, both_skip, Borrows, put_back, frame_at, copy-Agrees,
}
use tunnel_agent.Protocol.{Protocol, Frame}

module _ {Wire : Type 0} (p : Protocol) (net : Net Wire) (bs : Buffers Wire) (pool : IsPool bs)
    (fills : FillsBody net) (slices : SlicesBody net bs) where
  parse-Agrees :
      (m m₂ : Memory) (s : Recorder Wire) (w : Wire) (buf n : ℕ) (bytes : Bytes)
      → Borrows p net bs pool fills slices m buf m₂
      → take n (cell_at buf m₂) ≡ bytes
      → Agrees p net bs m s
          (parse_at p net bs w n buf m₂)
          (parsed p net recorder (net.parse_frame bytes) (record s { wire = w }))
  unfolding parse_at parsed_at frame_at
  parse-Agrees m m₂ s w buf n bytes b e =
      subst
        (λ (x : Bytes).
          Agrees p net bs m s (parsed_at p net bs w buf (bs.payload_at x) (net.parse_frame x) m₂)
            (parsed p net recorder (net.parse_frame bytes) (record s { wire = w })))
        (sym e) (go (net.parse_frame bytes) refl)
    where
      go :
          (r : Result Frame)
          → net.parse_frame bytes ≡ r
          → Agrees p net bs m s
              (parsed_at p net bs w buf (bs.payload_at bytes) r m₂)
              (parsed p net recorder r (record s { wire = w }))
      go (err x) q =
          unfold parsed in both_stop (put_back p net bs pool fills slices m m₂ buf b) refl
      go (ok frame) q =
          let e₂ = slices bytes frame q in
          copy-Agrees p net bs pool fills slices m m₂ s w buf (bs.payload_at bytes) frame b (
            take-drop-take (bs.payload_at bytes) (length frame.payload) n bytes (cell_at buf m₂) e
              (omega (arith, ap length e₂))
            ∙ e₂)

  receive-Agrees :
      (m : Memory) (s : Recorder Wire) (w : Wire) (n : ℕ)
      → IsMemory m
      → Agrees p net bs m s
          (receive p net bs n w m)
          (body_read p net recorder (net.read_full n w) s)
  unfolding receive body_into Borrows
  receive-Agrees m s w n im = go (net.read_full n w) refl
    where
      m₁ : Memory
      m₁ = (bs.get_buffer n m).0

      buf : ℕ
      buf = (bs.get_buffer n m).1

      filled : (part : Bytes) → Borrows p net bs pool fills slices m buf (fill buf part m₁)
      filled part = (
        (λ a u.
            let (u₁, e₁) = pool.get-Keeps n m a u in
            let (u₂, e₂) =
              fill-KeepsBut buf part m₁ (pool.get-InUse n m im).0 a u₁ (pool.get-unused n a m u) in
            (u₂, e₂ ∙ e₁)),
        (λ a u. pool.get-unused n a m u),
        fill-InUse buf buf part m₁ (pool.get-InUse n m im),
        fill-IsMemory buf part m₁ (pool.get-IsMemory n m im),
      )

      go :
          (r : Wire × Result Bytes)
          → net.read_full n w ≡ r
          → Agrees p net bs m s
              (body_at p net bs n (bs.partial n w) buf r m₁)
              (body_read p net recorder r s)
      go (w', err x) q =
          unfold body_at in
          unfold body_read in
          both_stop
            (put_back p net bs pool fills slices m (fill buf (bs.partial n w) m₁) buf
              (filled (bs.partial n w)))
            refl
      go (w', ok bytes) q =
          unfold body_at in
          unfold body_read in
          parse-Agrees m (fill buf bytes m₁) s w' buf n bytes (filled bytes)
            (take-fill n buf bytes m₁ (pool.get-InUse n m im).0 (fills n w w' bytes q))

  length_failed-Agrees :
      (m : Memory) (s : Recorder Wire) (w : Wire) (e : GoError)
      → IsMemory m
      → Agrees p net bs m s
          (length_failed p net bs e w m)
          (read_failed p net recorder e (record s { wire = w }))
  unfolding length_failed read_failed
  length_failed-Agrees m s w eof im = both_stop (λ a u. (u, refl)) refl
  length_failed-Agrees m s w e im = elim (Bool-cases (contains (error_text e) (codes "timeout"))) [
    | inl t ↦ rw t (both_skip (λ a u. (u, refl)) im)
    | inr t ↦ rw t (both_stop (λ a u. (u, refl)) refl)
  ]

  pub round-Agrees :
      (m : Memory) (s : Recorder Wire)
      → IsMemory m
      → Agrees p net bs m s
          (length_at p net bs (net.read_frame_length s.wire) m)
          (read_turn p net recorder s)
  unfolding read_turn connected_turn new_dispatcher
  round-Agrees m s im = go (net.read_frame_length s.wire)
    where
      go :
          (r : Wire × Result ℕ)
          → Agrees p net bs m s (length_at p net bs r m) (length_read p net recorder r s)
      go (w, err e) = unfold length_at in unfold length_read in length_failed-Agrees m s w e im
      go (w, ok n) =
          unfold length_at in
          unfold length_read in
          elim (Bool-cases (ltb n p.header_size || ltb p.max_frame_size n)) [
            | inl t ↦ rw t (both_stop (λ a u. (u, refl)) refl)
            | inr t ↦ rw t (receive-Agrees m s w n im)
          ]
      -- With what was handed over before.
