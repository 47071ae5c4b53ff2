-- ===== src/Stream/WellFormed.antt =====
-- The invariant of the stream manager of client/stream.go.
pub mod Closing
use tunnel_agent.Base.{
  ℕ, true, false, ◌≡◌, refl, ◌≢◌, ◌⊎◌, inl, inr, [], ◌∷◌, ◌++◌, Option, none, some, arith, length,
  get_elem?, set, get_elem?-append_one, get_elem?_beyond, get_elem?-set, lookup, insert, delete,
  nat_eq, IsMap, lookup-insert, lookup-delete, insert-IsMap, delete-IsMap, if◌then◌else◌, ◌==◌,
  Bool-cases, Option-cases,
}
use tunnel_agent.Base.{ap}
use tunnel_agent.Errors.{ok, err, stream_already_exists}
use tunnel_agent.Stream.{created_call, create_absent}
use tunnel_agent.Errors.{GoError, stream_not_found}
use tunnel_agent.Stream.{
  Stream, closed, StreamManager, Returned, fresh_stream, create_stream, close_stream,
  new_stream_manager, shut, closed_call, returns,
}

abbrev pub IsOpen : Stream → Type 0
IsOpen s = (s.close_ch ≡ false) × (s.data_out.closed ≡ false) × (s.state ≢ closed)

abbrev pub IsShut : Stream → Type 0
IsShut s = (s.close_ch ≡ true) × (s.data_out.closed ≡ true) × (s.state ≡ closed)

-- A registered id points at an open stream of that id, and every other stream is shut.
pub record WellFormed (sm : StreamManager) : Type 0 where
  pub keys : IsMap sm.streams
  pub registered :
      (k p : ℕ)
      → lookup k sm.streams ≡ some p
      → (s : Stream) × (get_elem? sm.store p ≡ some s) × (s.id ≡ k) × IsOpen s
  pub others :
      (p : ℕ) (s : Stream)
      → get_elem? sm.store p ≡ some s
      → (IsOpen s × (lookup s.id sm.streams ≡ some p)) ⊎ IsShut s

pub new_stream_manager-WellFormed : WellFormed new_stream_manager
unfolding new_stream_manager lookup
new_stream_manager-WellFormed = record { keys = tt; registered = λ k p h. cc; others = λ p s h. cc }

abbrev pub created : ℕ → ℕ → StreamManager → StreamManager
created k now sm = record sm {
  streams = insert k (length sm.store) sm.streams;
  store = sm.store ++ fresh_stream k now ∷ [];
}

created-registered :
    (k now j p : ℕ) (sm : StreamManager)
    → WellFormed sm
    → lookup j (created k now sm).streams ≡ some p
    → (s : Stream) × (get_elem? (created k now sm).store p ≡ some s) × (s.id ≡ j) × IsOpen s
created-registered k now j p sm wf h = elim (Bool-cases (k == j)) [
  | inl same ↦ (
    fresh_stream k now,
    ground (
      arith,
      lookup-insert k j (length sm.store) sm.streams,
      get_elem?-append_one sm.store (fresh_stream k now) p,
    ),
    ground arith,
    (refl, refl, λ e. cc),
  )
  | inr other ↦
      let old : lookup j sm.streams ≡ some p =
        ground (arith, lookup-insert k j (length sm.store) sm.streams) in
      let (s, at, name, op) = wf.registered j p old in
      (
        s,
        ground (
          arith,
          get_elem?-append_one sm.store (fresh_stream k now) p,
          get_elem?_beyond sm.store p,
        ),
        name,
        op,
      )
]

created-others :
    (k now p : ℕ) (s : Stream) (sm : StreamManager)
    → WellFormed sm
    → lookup k sm.streams ≡ none
    → get_elem? (created k now sm).store p ≡ some s
    → (IsOpen s × (lookup s.id (created k now sm).streams ≡ some p)) ⊎ IsShut s
created-others k now p s sm wf absent h = elim (Bool-cases (length sm.store == p)) [
  | inl new ↦
      let e : some (fresh_stream k now) ≡ some s =
        ground (arith, get_elem?-append_one sm.store (fresh_stream k now) p) in
      inl (
        (ground arith, ground arith, λ c. cc),
        ground (arith, lookup-insert k s.id (length sm.store) sm.streams),
      )
  | inr old ↦
      let before : get_elem? sm.store p ≡ some s =
        ground (arith, get_elem?-append_one sm.store (fresh_stream k now) p) in
      elim (wf.others p s before) [
        | inl (op, found) ↦
            inl (op, ground (arith, lookup-insert k s.id (length sm.store) sm.streams))
        | inr shut ↦ inr shut
      ]
]

pub create_stream_absent :
    (k now : ℕ) (sm : StreamManager)
    → lookup k sm.streams ≡ none
    → create_stream k now sm ≡ record {
      manager = created k now sm;
      calls = if sm.on_stream_created then created_call k ∷ [] else [];
      result = ok (length sm.store);
    }
unfolding create_stream
create_stream_absent k now sm absent = ap (λ (o : Option ℕ). create_absent o k now sm) absent

pub create_stream_taken :
    (k now p : ℕ) (sm : StreamManager)
    → lookup k sm.streams ≡ some p
    → create_stream k now sm
      ≡ record { manager = sm; calls = []; result = err stream_already_exists }
unfolding create_stream
create_stream_taken k now p sm taken = ap (λ (o : Option ℕ). create_absent o k now sm) taken

-- Creating a stream keeps the invariant, whether the id is free or taken.
pub create_stream-WellFormed :
    (k now : ℕ) (sm : StreamManager) → WellFormed sm → WellFormed (create_stream k now sm).manager
unfolding create_stream
create_stream-WellFormed k now sm wf = elim (Option-cases (lookup k sm.streams)) [
  | inr (_, taken) ↦ rw (taken, create_stream) wf
  | inl absent ↦
      rw (absent, create_stream)
        (record {
          keys = insert-IsMap k (length sm.store) sm.streams wf.keys;
          registered = λ j p. created-registered k now j p sm wf;
          others = λ p s. created-others k now p s sm wf absent;
        })
]

-- A change through a pointer that touches neither the id nor what closing sets.
abbrev pub SameIdentity : Stream → Stream → Type 0
SameIdentity s t =
    (t.id ≡ s.id)
    × (t.state ≡ s.state)
    × (t.close_ch ≡ s.close_ch)
    × (t.data_out.closed ≡ s.data_out.closed)

pub write_stream-WellFormed :
    (p : ℕ) (s t : Stream) (sm : StreamManager)
    → WellFormed sm
    → get_elem? sm.store p ≡ some s
    → SameIdentity s t
    → WellFormed (record sm { store = set sm.store p t })
write_stream-WellFormed p s t sm wf held same = record {
  keys = wf.keys;
  registered = λ k q h. registered' k q (wf.registered k q h);
  others = others';
}
  where
    registered' :
        (k q : ℕ)
        → ((u : Stream) × (get_elem? sm.store q ≡ some u) × (u.id ≡ k) × IsOpen u)
        → (u : Stream) × (get_elem? (set sm.store p t) q ≡ some u) × (u.id ≡ k) × IsOpen u
    registered' k q (u, at, name, op) = elim (Bool-cases (p == q)) [
      | inl hit ↦ (
        t,
        ground (arith, get_elem?-set sm.store p s t q),
        ground arith,
        (ground arith, ground arith, ground arith),
      )
      | inr miss ↦ (u, ground (arith, get_elem?-set sm.store p s t q), name, op)
    ]

    others' :
        (q : ℕ) (u : Stream)
        → get_elem? (set sm.store p t) q ≡ some u
        → (IsOpen u × (lookup u.id sm.streams ≡ some q)) ⊎ IsShut u
    others' q u h = elim (Bool-cases (p == q)) [
      | inl hit ↦
          let e : some t ≡ some u = ground (arith, get_elem?-set sm.store p s t q) in
          ground (arith, wf.others p s held)
      | inr miss ↦ wf.others q u (ground (arith, get_elem?-set sm.store p s t q))
    ]
