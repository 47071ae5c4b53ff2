-- ===== src/Stream/Writer/Bursts.antt =====
-- io.Copy into a stream of client/stream.go while no write loop takes from the queue.
use tunnel_agent.Base.{
  ◌≡◌, ap, ◌∙◌, ℕ, suc, ◌+◌, ◌≤◌, ◌<◌, true, refl, List, [], ◌∷◌, ◌++◌, Option, none, some, Bytes,
  arith, length, length-append, length-map, leb, if◌then◌else◌,
}
use tunnel_agent.Connector.{send_capacity}
use tunnel_agent.Connector.Queue.{queued, overflows, unconnected, send_frame-Sends}
use tunnel_agent.Errors.{GoError, queue_full}
use tunnel_agent.Protocol.{Protocol}
use tunnel_agent.Stream.Writer.{
  write_frame, Sending, Chunk, write_chunk, read_into, refill, copy, copy_then, write, write_result,
  sent_as,
}

-- Chunks that come with nothing done to the connector in between.
abbrev pub quiet_chunk : Bytes → Chunk
quiet_chunk b = record { bytes = b; before = λ c. c }

abbrev pub quiet : List Bytes → List Chunk
quiet [] = []
quiet (b ∷ bs) = quiet_chunk b ∷ quiet bs

-- The number of the reads that give bytes.
abbrev pub filled_reads : List Bytes → ℕ
filled_reads [] = 0
filled_reads ([] ∷ bs) = filled_reads bs
filled_reads ((x ∷ b) ∷ bs) = suc (filled_reads bs)

pub filled_reads-le : (bodies : List Bytes) → filled_reads bodies ≤ length bodies
filled_reads-le [] = omega arith
filled_reads-le ([] ∷ bs) = omega (arith, filled_reads-le bs)
filled_reads-le ((x ∷ b) ∷ bs) = omega (arith, filled_reads-le bs)

-- A write that finds room.
pub write_chunk_queued :
    (p : Protocol) (id : ℕ) (array : Option ℕ) (k : Chunk) (s : Sending)
    → (k.before s.connector).connected ≡ true
    → length (k.before s.connector).send_ch < send_capacity
    → write_chunk p id array k s ≡ (
      record {
        connector = record (k.before s.connector) {
          send_ch = (k.before s.connector).send_ch ++ write_frame p id array k.bytes ∷ [];
        };
        accepted = s.accepted ++ write_frame p id array k.bytes ∷ [];
      },
      none,
    )
unfolding write_chunk write write_result sent_as
write_chunk_queued p id array k s on room =
    elim (send_frame-Sends (write_frame p id array k.bytes) (k.before s.connector)) [
      | queued _ _ e ↦ rw e refl
      | overflows _ full e ↦ absurd (omega (arith, full, room))
      | unconnected off e ↦ absurd cc
    ]

-- The error of a copy on a connection that is up, whose queue is within its capacity and has no write
-- loop to empty it: SendFrame does not wait, so a copy ends as the body does exactly when the reads
-- that give bytes fit into the queue, a place each, and otherwise with the error of a full queue.
pub copy_burst :
    (p : Protocol) (id buffer : ℕ) (bodies : List Bytes) (body_end : Option GoError) (s : Sending)
    → s.connector.connected ≡ true
    → length s.connector.send_ch ≤ send_capacity
    → (copy p id buffer (quiet bodies) body_end s).1 ≡ (
        if leb (length s.connector.send_ch + filled_reads bodies) send_capacity
        then body_end
        else some queue_full)
unfolding copy copy_then write_chunk write write_result sent_as
copy_burst p id buffer [] body_end s on fits = ground arith
copy_burst p id buffer ([] ∷ bs) body_end s on fits = copy_burst p id buffer bs body_end s on fits
copy_burst p id buffer ((x ∷ b) ∷ bs) body_end s on fits =
    let k = read_into buffer (quiet_chunk (x ∷ b)) in
    let frame = write_frame p id (some buffer) (x ∷ b) in
    let c = k.before s.connector in
    let same : length c.send_ch ≡ length s.connector.send_ch =
      length-map (refill buffer (x ∷ b)) s.connector.send_ch in
    elim (send_frame-Sends frame c) [
      | queued _ room e ↦
          let s' : Sending = record {
            connector = record c { send_ch = c.send_ch ++ frame ∷ [] };
            accepted = s.accepted ++ frame ∷ [];
          } in
          rw e (
            copy_burst p id buffer bs body_end s' on
              (omega (arith, room, length-append c.send_ch (frame ∷ [])))
            ∙ ap (λ (n : ℕ). if leb n send_capacity then body_end else some queue_full)
                (omega (arith, same, length-append c.send_ch (frame ∷ []))))
      | overflows _ full e ↦ rw e (ground (arith, full, same))
      | unconnected off e ↦ absurd cc
    ]
