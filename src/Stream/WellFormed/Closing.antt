-- ===== src/Stream/WellFormed/Closing.antt =====
-- CloseStream of client/stream.go on a well-formed manager.
use tunnel_agent.Base.{
  ℕ, false, ◌≡◌, ◌⊎◌, inl, inr, [], ◌∷◌, Option, none, some, arith, get_elem?, set, get_elem?-set,
  lookup, delete, nat_eq, lookup-delete, delete-IsMap, if◌then◌else◌, ◌==◌, Bool-cases,
  Option-cases,
}
use tunnel_agent.Errors.{GoError, stream_not_found}
use tunnel_agent.Stream.{Stream, StreamManager, Returned, close_stream, shut, closed_call, returns}
use tunnel_agent.Stream.WellFormed.{IsOpen, IsShut, WellFormed}

abbrev pub removed : ℕ → ℕ → Stream → StreamManager → StreamManager
removed k p s sm = record sm { streams = delete k sm.streams; store = set sm.store p (shut s) }

module _ (k p : ℕ) (s : Stream) (sm : StreamManager) (wf : WellFormed sm) where
  removed-registered :
      (j q : ℕ)
      → get_elem? sm.store p ≡ some s
      → s.id ≡ k
      → lookup j (removed k p s sm).streams ≡ some q
      → (t : Stream) × (get_elem? (removed k p s sm).store q ≡ some t) × (t.id ≡ j) × IsOpen t
  removed-registered j q held name h =
      let kept : lookup j sm.streams ≡ some q = ground (arith, lookup-delete k j sm.streams) in
      let apart : (k == j) ≡ false = ground (arith, lookup-delete k j sm.streams) in
      let (t, at, name', op) = wf.registered j q kept in
      (t, ground (arith, get_elem?-set sm.store p s (shut s) q), name', op)

  removed-others :
      (q : ℕ) (t : Stream)
      → lookup k sm.streams ≡ some p
      → get_elem? sm.store p ≡ some s
      → get_elem? (removed k p s sm).store q ≡ some t
      → (IsOpen t × (lookup t.id (removed k p s sm).streams ≡ some q)) ⊎ IsShut t
  removed-others q t reg held h = elim (Bool-cases (p == q)) [
    | inl same ↦
        let e : some (shut s) ≡ some t = ground (arith, get_elem?-set sm.store p s (shut s) q) in
        inr (ground arith, ground arith, ground arith)
    | inr other ↦
        let before : get_elem? sm.store q ≡ some t =
          ground (arith, get_elem?-set sm.store p s (shut s) q) in
        elim (wf.others q t before) [
          | inl (op, found) ↦ inl (op, ground (arith, lookup-delete k t.id sm.streams))
          | inr gone ↦ inr gone
        ]
  ]

-- Closing a registered stream.
abbrev pub closed_return : ℕ → ℕ → Stream → StreamManager → Returned (Option GoError)
closed_return k p s sm = record {
  manager = removed k p s sm;
  calls = if sm.on_stream_closed then closed_call k ∷ [] else [];
  result = none;
}

pub close_stream_registered :
    (k p : ℕ) (s : Stream) (sm : StreamManager)
    → lookup k sm.streams ≡ some p
    → get_elem? sm.store p ≡ some s
    → IsOpen s
    → close_stream k sm ≡ returns (closed_return k p s sm)
unfolding close_stream
close_stream_registered k p s sm reg held op = rw (reg, close_stream, held) (ground arith)

-- What a call of CloseStream promises: it returns, with the stream gone from the table and shut
-- on the store, or with ErrStreamNotFound and nothing changed; it never closes a channel twice.
pub data Closes (k : ℕ) (sm : StreamManager) : Type 0 where
  missing :
      lookup k sm.streams ≡ none
      → close_stream k sm
        ≡ returns (record { manager = sm; calls = []; result = some stream_not_found })
      → Closes k sm
  shuts :
      (p : ℕ) (s : Stream)
      → lookup k sm.streams ≡ some p
      → get_elem? sm.store p ≡ some s
      → s.id ≡ k
      → IsOpen s
      → close_stream k sm ≡ returns (closed_return k p s sm)
      → Closes k sm

pub close_stream-Closes : (k : ℕ) (sm : StreamManager) → WellFormed sm → Closes k sm
close_stream-Closes k sm wf = elim (Option-cases (lookup k sm.streams)) [
  | inl absent ↦ missing absent (unfold close_stream in rw (absent, close_stream))
  | inr (p, reg) ↦
      let (s, held, name, op) = wf.registered k p reg in
      shuts p s reg held name op (close_stream_registered k p s sm reg held op)
]

pub closed_return-WellFormed :
    (k p : ℕ) (s : Stream) (sm : StreamManager)
    → WellFormed sm
    → lookup k sm.streams ≡ some p
    → get_elem? sm.store p ≡ some s
    → s.id ≡ k
    → WellFormed (closed_return k p s sm).manager
closed_return-WellFormed k p s sm wf reg held name = record {
  keys = delete-IsMap k sm.streams wf.keys;
  registered = λ j q. removed-registered k p s sm wf j q held name;
  others = λ q t. removed-others k p s sm wf q t reg held;
}
