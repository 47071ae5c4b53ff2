-- ===== src/Dispatcher/Buffers/Copies.antt =====
-- The frames that the read loop of client/dispatcher.go hands over, against the buffers that it
-- uses again.
use tunnel_agent.Base.{
  ℕ, zero, suc, ◌≡◌, refl, sym, ap, ◌∙◌, subst, Bool, true, List, [], ◌∷◌, ◌++◌, map, All,
  All-append_one,
}
use tunnel_agent.Dispatcher.{Net, Turn, exits, again, read_turn, read_loop}
use tunnel_agent.Dispatcher.Buffers.{
  Memory, FrameAt, Buffers, Round, stops, skips, hands, read_frame, length_at, receive_all,
}
use tunnel_agent.Dispatcher.Buffers.Cells.{IsMemory, IsPool, FillsBody, SlicesBody}
use tunnel_agent.Dispatcher.Buffers.Frames.{
  Recorder, recorder, Kept, Kept-All-Keeps, map-append_one,
}
use tunnel_agent.Dispatcher.Buffers.Payloads.{Agrees, both_stop, both_skip, both_hand}
use tunnel_agent.Dispatcher.Buffers.Rounds.{round-Agrees}
use tunnel_agent.Protocol.{Protocol, Frame}

module _ {Wire : Type 0} (p : Protocol) (net : Net Wire) (bs : Buffers Wire) (pool : IsPool bs)
    (fills : FillsBody net) (slices : SlicesBody net bs) where
  receive_all-read_loop :
      (rounds : ℕ) (m m' : Memory) (s : Recorder Wire) (kept fs : List FrameAt)
      → IsMemory m
      → All (Kept m) kept
      → map (read_frame m) kept ≡ s.frames
      → receive_all p net bs rounds s.wire m kept ≡ (m', fs)
      → map (read_frame m') fs ≡ (read_loop p net recorder rounds s).0.frames
  unfolding receive_all read_loop
  receive_all-read_loop zero m m' s kept fs im ks e q =
      subst (λ (x : Memory × List FrameAt). map (read_frame x.0) x.1 ≡ s.frames) q e
  receive_all-read_loop (suc rounds) m m' s kept fs im ks e q =
      go (length_at p net bs (net.read_frame_length s.wire) m) (read_turn p net recorder s)
        (round-Agrees p net bs pool fills slices m s im)
        (λ m₂ s₂ kept₂ im₂ ks₂ e₂ q₂. receive_all-read_loop rounds m₂ m' s₂ kept₂ fs im₂ ks₂ e₂ q₂)
        q
    where
      go :
          (r : Round Wire) (t : Turn (Recorder Wire))
          → Agrees p net bs m s r t
          → ((m₂ : Memory) (s₂ : Recorder Wire) (kept₂ : List FrameAt)
              → IsMemory m₂
              → All (Kept m₂) kept₂
              → map (read_frame m₂) kept₂ ≡ s₂.frames
              → receive_all p net bs rounds s₂.wire m₂ kept₂ ≡ (m', fs)
              → map (read_frame m') fs ≡ (read_loop p net recorder rounds s₂).0.frames)
          → (elim r as (λ x. Memory × List FrameAt) [
            | stops m₂ ↦ (m₂, kept)
            | skips w m₂ ↦ receive_all p net bs rounds w m₂ kept
            | hands w m₂ f ↦ receive_all p net bs rounds w m₂ (kept ++ f ∷ [])
          ])
            ≡ (m', fs)
          → map (read_frame m') fs
            ≡ (elim t as (λ x. Recorder Wire × Bool) [
              | exits s' ↦ (s', true)
              | again s' ↦ read_loop p net recorder rounds s'
            ]).0.frames
      go _ _ (both_stop {m' = m₂} {s' = s₂} k eq) ih q =
          subst (λ (x : Memory × List FrameAt). map (read_frame x.0) x.1 ≡ s₂.frames) q
            ((Kept-All-Keeps m m₂ kept k ks).1 ∙ e ∙ sym eq)
      go _ _ (both_skip {w = w} {m' = m₂} k im₂) ih q =
          let (ks₂, e₂) = Kept-All-Keeps m m₂ kept k ks in
          ih m₂ (record s { wire = w }) kept im₂ ks₂ (e₂ ∙ e) q
      go _ _ (both_hand {w = w} {m' = m₂} f k im₂ kf) ih q =
          let (ks₂, e₂) = Kept-All-Keeps m m₂ kept k ks in
          ih m₂ (record { wire = w; frames = s.frames ++ read_frame m₂ f ∷ [] }) (kept ++ f ∷ [])
            im₂ (All-append_one (Kept m₂) kept f ks₂ kf)
            (map-append_one (read_frame m₂) kept f
              ∙ ap (λ (x : List Frame). x ++ read_frame m₂ f ∷ []) (e₂ ∙ e))
            q

  -- Whatever the pool gives out again, the payloads that the loop has handed over read, after any
  -- number of rounds, as the loop on values handed them over, frame by frame in order.
  pub receive_all-Records :
      (rounds : ℕ) (w : Wire) (m m' : Memory) (fs : List FrameAt)
      → IsMemory m
      → receive_all p net bs rounds w m [] ≡ (m', fs)
      → map (read_frame m') fs
        ≡ (read_loop p net recorder rounds (record { wire = w; frames = [] })).0.frames
  receive_all-Records rounds w m m' fs im q =
      receive_all-read_loop rounds m m' (record { wire = w; frames = [] }) [] fs im tt refl q
