-- ===== src/Stream/Writer/Copying.antt =====
-- What io.Copy into a stream of client/stream.go hands to the connector.
use tunnel_agent.Base.{
  ◌≡◌, refl, sym, ◌∙◌, ap, ◌⊎◌, inl, inr, ℕ, List, [], ◌∷◌, ◌++◌, append-nil, append_assoc, Option,
  none, some, Bytes, All,
}
use tunnel_agent.Connector.{Connector}
use tunnel_agent.Connector.Queue.{queued, overflows, unconnected, send_frame-Sends}
use tunnel_agent.Errors.{GoError, queue_full, not_connected}
use tunnel_agent.Protocol.{Protocol, Frame}
use tunnel_agent.Stream.Writer.{
  write_frame, Sending, Chunk, write_chunk, copied_chunk, read_into, copy, copy_then, payloads,
  bytes_of, write, write_result, sent_as,
}

-- The errors of SendFrame.
abbrev pub IsRefusal : GoError → Type 0
IsRefusal e = (e ≡ queue_full) ⊎ (e ≡ not_connected)

-- What one write does.
pub data Chunked (p : Protocol) (id : ℕ) (array : Option ℕ) (k : Chunk) (s : Sending) : Type 0 where
  accepts :
      (c : Connector)
      → write_chunk p id array k s ≡ (
        record { connector = c; accepted = s.accepted ++ write_frame p id array k.bytes ∷ [] },
        none,
      )
      → Chunked p id array k s
  refuses :
      (c : Connector) (e : GoError)
      → IsRefusal e
      → write_chunk p id array k s ≡ (record { connector = c; accepted = s.accepted }, some e)
      → Chunked p id array k s

pub write_chunk-Chunked :
    (p : Protocol) (id : ℕ) (array : Option ℕ) (k : Chunk) (s : Sending) → Chunked p id array k s
write_chunk-Chunked p id array k s =
    elim (send_frame-Sends (write_frame p id array k.bytes) (k.before s.connector)) [
      | queued on room e ↦
          accepts
            (record (k.before s.connector) {
              send_ch = (k.before s.connector).send_ch ++ write_frame p id array k.bytes ∷ [];
            })
            (unfold write_chunk write write_result sent_as in (rw e refl))
      | overflows on full e ↦
          refuses (k.before s.connector) queue_full (inl refl)
            (unfold write_chunk write write_result sent_as in (rw e refl))
      | unconnected off e ↦
          refuses (k.before s.connector) not_connected (inr refl)
            (unfold write_chunk write write_result sent_as in (rw e refl))
    ]

-- `frames` are what the connector has accepted of the chunks, each with the bytes that it had then,
-- `lost` is what it has not. The copy ends as the body does, or with an error of SendFrame.
pub record Copies (p : Protocol) (id buffer : ℕ) (ks : List Chunk) (body_end : Option GoError)
    (s : Sending) (r : Sending × Option GoError) : Type 0 where
  pub frames : List Frame
  pub lost : Bytes
  pub accepted : r.0.accepted ≡ s.accepted ++ frames
  pub own : All (λ (f : Frame). f ≡ write_frame p id (some buffer) f.payload) frames
  pub whole : payloads frames ++ lost ≡ bytes_of ks
  pub outcome : ((lost ≡ []) × (r.1 ≡ body_end)) ⊎ ((e : GoError) × (r.1 ≡ some e) × IsRefusal e)

module _ (p : Protocol) (id buffer : ℕ) where
  copied_on :
      (k : Chunk) (ks : List Chunk) (body_end : Option GoError) (s s' : Sending)
      (r : Sending × Option GoError)
      → s'.accepted ≡ s.accepted ++ write_frame p id (some buffer) k.bytes ∷ []
      → Copies p id buffer ks body_end s' r
      → Copies p id buffer (k ∷ ks) body_end s r
  copied_on k ks body_end s s' r e ih =
      let frame = write_frame p id (some buffer) k.bytes in
      record {
        frames = frame ∷ ih.frames;
        lost = ih.lost;
        accepted =
            ih.accepted
            ∙ (ap (λ (l : List Frame). l ++ ih.frames) e
                ∙ append_assoc s.accepted (frame ∷ []) ih.frames);
        own = (refl, ih.own);
        whole =
            append_assoc k.bytes (payloads ih.frames) ih.lost
            ∙ ap (λ (b : Bytes). k.bytes ++ b) ih.whole;
        outcome = ih.outcome;
      }

  skipped :
      (k : Chunk) (ks : List Chunk) (body_end : Option GoError) (s s' : Sending)
      (r : Sending × Option GoError)
      → k.bytes ≡ []
      → s'.accepted ≡ s.accepted
      → Copies p id buffer ks body_end s' r
      → Copies p id buffer (k ∷ ks) body_end s r
  skipped k ks body_end s s' r none_read e ih = record {
    frames = ih.frames;
    lost = ih.lost;
    accepted = ih.accepted ∙ ap (λ (l : List Frame). l ++ ih.frames) e;
    own = ih.own;
    whole = ih.whole ∙ ap (λ (b : Bytes). b ++ bytes_of ks) (sym none_read);
    outcome = ih.outcome;
  }

  -- One chunk, with its bytes given, in front of a copy of which the lemma is known.
  copied_chunk-Copies :
      (bytes : Bytes) (k : Chunk) (ks : List Chunk) (body_end : Option GoError) (s : Sending)
      → k.bytes ≡ bytes
      → ((t : Sending) → Copies p id buffer ks body_end t (copy p id buffer ks body_end t))
      → Copies p id buffer
          (k ∷ ks)
          body_end
          s
          (copy_then (copy p id buffer ks body_end) (copied_chunk p id buffer bytes k s))
  unfolding copy_then
  copied_chunk-Copies [] k ks body_end s e ih =
      let t : Sending = record s { connector = k.before s.connector } in
      skipped k ks body_end s t (copy p id buffer ks body_end t) e refl (ih t)
  copied_chunk-Copies (b ∷ bs) k ks body_end s e ih =
      elim (write_chunk-Chunked p id (some buffer) (read_into buffer k) s) [
        | accepts c q ↦
            let t : Sending = record {
              connector = c;
              accepted = s.accepted ++ write_frame p id (some buffer) k.bytes ∷ [];
            } in
            rw q (copied_on k ks body_end s t (copy p id buffer ks body_end t) refl (ih t))
        | refuses c err refusal q ↦ rw q (record {
          frames = [];
          lost = bytes_of (k ∷ ks);
          accepted = sym (append-nil s.accepted);
          own = tt;
          whole = refl;
          outcome = inr (err, refl, refusal);
        })
      ]

  -- A copy hands the bytes of the body to the connector in order, in data frames of the stream, up to
  -- the first frame that is refused; whatever the rest of the agent does to the connector in between.
  -- Without an error all of them are handed over.
  pub copy-Copies :
      (ks : List Chunk) (body_end : Option GoError) (s : Sending)
      → Copies p id buffer ks body_end s (copy p id buffer ks body_end s)
  unfolding copy
  copy-Copies [] body_end s = record {
    frames = [];
    lost = [];
    accepted = sym (append-nil s.accepted);
    own = tt;
    whole = refl;
    outcome = inl (refl, refl);
  }
  copy-Copies (k ∷ ks) body_end s =
      copied_chunk-Copies k.bytes k ks body_end s refl (λ t. copy-Copies ks body_end t)
