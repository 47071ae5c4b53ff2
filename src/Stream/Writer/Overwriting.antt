-- ===== src/Stream/Writer/Overwriting.antt =====
-- What the shared buffer of io.Copy does to the frames of client/stream.go that wait in the queue.
use tunnel_agent.Base.{
  ◌≡◌, ◌≢◌, refl, ap, ◌∙◌, inl, inr, ℕ, suc, ◌+◌, ◌≤◌, true, List, [], ◌∷◌, ◌++◌, Option, none,
  some, Bytes, arith, length, length-append, length-map, map, map-append, append_assoc, All,
  Bool-cases, ==_refl,
}
use tunnel_agent.Connector.{send_capacity}
use tunnel_agent.Errors.{GoError}
use tunnel_agent.Protocol.{Protocol, Frame}
use tunnel_agent.Stream.Writer.{
  write_frame, overwrite, is_in, refill, read_into, Sending, copied_chunk, copy, copy_then,
}
use tunnel_agent.Stream.Writer.Bursts.{quiet, quiet_chunk, write_chunk_queued}

overwrite_all : (new old : Bytes) → length new ≡ length old → overwrite new old ≡ new
overwrite_all [] [] h = refl
overwrite_all [] (y ∷ old) h = absurd (omega (arith, h))
overwrite_all (x ∷ new) [] h = absurd (omega (arith, h))
overwrite_all (x ∷ new) (y ∷ old) h = ap (◌∷◌ x) (overwrite_all new old (omega (arith, h)))

is_in_refl : (a : ℕ) → is_in a (some a) ≡ true
is_in_refl a = ==_refl a

is_in-some : (a : ℕ) (o : Option ℕ) → is_in a o ≡ true → o ≡ some a
is_in-some a none h = absurd cc
is_in-some a (some b) h = ap some (ground (arith, h))

module _ (a n : ℕ) where
  -- A slice of the array has as many bytes as every read.
  abbrev pub Fits : Frame → Type 0
  Fits f = f.array ≡ some a → length f.payload ≡ n

  refill-refill :
      (new last : Bytes) (f : Frame)
      → length new ≡ n
      → length last ≡ n
      → Fits f
      → refill a last (refill a new f) ≡ refill a last f
  refill-refill new last f h h' fits = elim (Bool-cases (is_in a f.array)) [
    | inr out ↦ rw out (rw out refl)
    | inl inside ↦
        let size = fits (is_in-some a f.array inside) in
        let once : overwrite new f.payload ≡ new =
          overwrite_all new f.payload (omega (arith, h, size)) in
        let twice : overwrite last new ≡ last = overwrite_all last new (omega (arith, h, h')) in
        let whole : overwrite last f.payload ≡ last =
          overwrite_all last f.payload (omega (arith, h', size)) in
        rw inside (rw inside (rw once (rw (twice, whole) refl)))
  ]

  refills :
      (new last : Bytes) (fs : List Frame)
      → length new ≡ n
      → length last ≡ n
      → All Fits fs
      → map (refill a last) (map (refill a new) fs) ≡ map (refill a last) fs
  refills new last [] h h' fits = refl
  refills new last (f ∷ fs) h h' (fit, fits) =
      ap (λ (x : Frame). x ∷ map (refill a last) (map (refill a new) fs))
        (refill-refill new last f h h' fit)
      ∙ ap (◌∷◌ (refill a last f)) (refills new last fs h h' fits)

  refill-Fits : (new : Bytes) (f : Frame) → length new ≡ n → Fits f → Fits (refill a new f)
  refill-Fits new f h fits = elim (Bool-cases (is_in a f.array)) [
    | inr out ↦ rw out fits
    | inl inside ↦
        let size = fits (is_in-some a f.array inside) in
        rw inside (λ q. ap length (overwrite_all new f.payload (omega (arith, h, size))) ∙ h)
  ]

  fill-Fits :
      (new : Bytes) (fs : List Frame) (last : Frame)
      → length new ≡ n
      → Fits last
      → All Fits fs
      → All Fits (map (refill a new) fs ++ last ∷ [])
  fill-Fits new [] last h l fits = (l, tt)
  fill-Fits new (f ∷ fs) last h l (fit, fits) =
      (refill-Fits new f h fit, fill-Fits new fs last h l fits)

refill_others :
    (a : ℕ) (last : Bytes) (fs : List Frame)
    → All (λ (f : Frame). f.array ≢ some a) fs
    → map (refill a last) fs ≡ fs
refill_others a last [] h = refl
refill_others a last (f ∷ fs) (other, others) = elim (Bool-cases (is_in a f.array)) [
  | inl inside ↦ absurd (other (is_in-some a f.array inside))
  | inr out ↦ rw out (ap (◌∷◌ f) (refill_others a last fs others))
]

module _ (p : Protocol) (id a n : ℕ) where
  abbrev pub slice : Bytes → Frame
  slice b = write_frame p id (some a) b

  -- One read of n + 1 bytes that finds room.
  copied_chunk_queued :
      (b : Bytes) (s : Sending)
      → length b ≡ suc n
      → s.connector.connected ≡ true
      → suc (length s.connector.send_ch) ≤ send_capacity
      → copied_chunk p id a b (quiet_chunk b) s ≡ (
        record {
          connector = record s.connector {
            send_ch = map (refill a b) s.connector.send_ch ++ slice b ∷ [];
          };
          accepted = s.accepted ++ slice b ∷ [];
        },
        none,
      )
  copied_chunk_queued [] s h on room = absurd (omega (arith, h))
  copied_chunk_queued (x ∷ b) s h on room =
      write_chunk_queued p id (some a) (read_into a (quiet_chunk (x ∷ b))) s on
        (omega (arith, room, length-map (refill a (x ∷ b)) s.connector.send_ch))

  copy_refills :
      (bodies : List Bytes) (last : Bytes) (s : Sending)
      → All (λ (b : Bytes). length b ≡ suc n) bodies
      → length last ≡ suc n
      → s.connector.connected ≡ true
      → length s.connector.send_ch + suc (length bodies) ≤ send_capacity
      → All (Fits a (suc n)) s.connector.send_ch
      → (copy p id a (quiet (bodies ++ last ∷ [])) none s).0.connector.send_ch
        ≡ map (refill a last) s.connector.send_ch
          ++ map (λ (b : Bytes). slice last) (bodies ++ last ∷ [])
  unfolding copy copy_then
  copy_refills [] last s hs h on room fits =
      ap (λ (r : Sending × Option GoError). (copy_then (copy p id a [] none) r).0.connector.send_ch)
        (copied_chunk_queued last s h on (omega (arith, room)))
  copy_refills (b ∷ bodies) last s (hb, hs) h on room fits =
      let q = s.connector.send_ch in
      let s' : Sending = record {
        connector = record s.connector { send_ch = map (refill a b) q ++ slice b ∷ [] };
        accepted = s.accepted ++ slice b ∷ [];
      } in
      let rest = map (λ (x : Bytes). slice last) (bodies ++ last ∷ []) in
      let size : length (map (refill a b) q ++ slice b ∷ []) ≡ suc (length q) =
        omega
          (arith, length-append (map (refill a b) q) (slice b ∷ []), length-map (refill a b) q) in
      let overwritten : refill a last (slice b) ≡ slice last =
        rw (is_in_refl a) (ap slice (overwrite_all last b (omega (arith, h, hb)))) in
      ap
        (λ (r : Sending × Option GoError).
          (copy_then (copy p id a (quiet (bodies ++ last ∷ [])) none) r).0.connector.send_ch)
        (copied_chunk_queued b s hb on (omega (arith, room)))
      ∙ copy_refills bodies last s' hs h on (omega (arith, size, room))
          (fill-Fits a (suc n) b q (slice b) hb (λ e. hb) fits)
      ∙ ap (λ (l : List Frame). l ++ rest)
          (map-append (refill a last) (map (refill a b) q) (slice b ∷ [])
            ∙ ap (λ (l : List Frame). l ++ refill a last (slice b) ∷ [])
                (refills a (suc n) b last q hb h fits)
            ∙ ap (λ (f : Frame). map (refill a last) q ++ f ∷ []) overwritten)
      ∙ append_assoc (map (refill a last) q) (slice last ∷ []) rest

  others-Fits :
      (fs : List Frame) → All (λ (f : Frame). f.array ≢ some a) fs → All (Fits a (suc n)) fs
  others-Fits [] h = tt
  others-Fits (f ∷ fs) (other, others) = ((λ e. absurd (other e)), others-Fits fs others)

  -- On a connection that is up, and with no write loop to take from the queue, a body that comes in
  -- reads of one positive size, all of which find room, is not what is queued for the server: its
  -- frames are all slices of the one new buffer of io.Copy, so every one of them reads as the last
  -- read. No frame that waits before is a slice of that buffer, and these stay as they are.
  pub copy_overwrites :
      (bodies : List Bytes) (last : Bytes) (s : Sending)
      → All (λ (b : Bytes). length b ≡ suc n) bodies
      → length last ≡ suc n
      → s.connector.connected ≡ true
      → length s.connector.send_ch + suc (length bodies) ≤ send_capacity
      → All (λ (f : Frame). f.array ≢ some a) s.connector.send_ch
      → (copy p id a (quiet (bodies ++ last ∷ [])) none s).0.connector.send_ch
        ≡ s.connector.send_ch ++ map (λ (b : Bytes). slice last) (bodies ++ last ∷ [])
  copy_overwrites bodies last s hs h on room others =
      copy_refills bodies last s hs h on room (others-Fits s.connector.send_ch others)
      ∙ ap (λ (l : List Frame). l ++ map (λ (b : Bytes). slice last) (bodies ++ last ∷ []))
          (refill_others a last s.connector.send_ch others)
