-- ===== src/Examples/Buffers.antt =====
-- A buffer pool that gives out the buffer that came back last, and the read loop on it.
use tunnel_agent.Base.{
  ℕ, zero, suc, ◌≤◌, ◌<◌, ◌≡◌, ◌≢◌, refl, sym, ap, subst, inl, inr, Bool, true, false, ◌&&◌, ◌||◌,
  not, List, [], ◌∷◌, Option, none, some, eq_of_some, map, Bytes, arith, Any, length, leb, ltb,
  ◌==◌, if◌then◌else◌, Bool-cases, take, drop, length-take,
}
use tunnel_agent.Dispatcher.{read_loop}
use tunnel_agent.Dispatcher.Buffers.{
  Memory, FrameAt, Buffers, cell_at, read_frame, receive_all, fill, content, copy_payload, receive,
  length_at,
}
use tunnel_agent.Dispatcher.Buffers.Cells.{
  InUse, IsMemory, Keeps, IsPool, allocate, allocate-Keeps, allocate-InUse, allocate-IsMemory,
  take_all,
}
use tunnel_agent.Dispatcher.Buffers.Copies.{receive_all-Records}
use tunnel_agent.Dispatcher.Buffers.Frames.{recorder}
use tunnel_agent.Examples.{demo, byte_net, frame_of}
use tunnel_agent.Errors.{Result, ok, err}
use tunnel_agent.Protocol.{Frame}

abbrev occurs : ℕ → List ℕ → Bool
occurs a [] = false
occurs a (b ∷ pool) = b == a || occurs a pool

occurs-Any : (a : ℕ) (pool : List ℕ) → occurs a pool ≡ false → ¬ Any (λ (b : ℕ). b ≡ a) pool
occurs-Any a [] h any = any
occurs-Any a (b ∷ pool) h (inl e) = ground (arith, h, e)
occurs-Any a (b ∷ pool) h (inr any) = ground (arith, h, occurs-Any a pool, any)

abbrev zeros : ℕ → Bytes
zeros zero = []
zeros (suc n) = 0 ∷ zeros n

abbrev fits : ℕ → ℕ → List ℕ → Memory → Bool
fits n b rest m = ltb b (length m.cells) && not (occurs b rest) && leb n (length (cell_at b m))

abbrev pick : ℕ → List ℕ → Memory → Memory × ℕ
pick n [] m = (allocate (zeros n) m, length m.cells)
pick n (b ∷ rest) m =
    if fits n b rest m
    then (record m { pool = rest }, b)
    else (allocate (zeros n) m, length m.cells)

abbrev stack_pool : Buffers Bytes
stack_pool = record {
  get_buffer = λ n m. pick n m.pool m;
  put_buffer = λ a m. record m { pool = a ∷ m.pool };
  payload_at = λ bytes. 3;
  partial = λ n w. w;
}

-- What a GetBuffer has to do, for a way to get a buffer.
Gets : Memory → Memory × ℕ → Type 0
Gets m (m', buf) =
    ((a : ℕ) → InUse m a → a ≢ buf) × Keeps m m' × (IsMemory m → InUse m' buf × IsMemory m')

allocate-Gets : (n : ℕ) (m : Memory) → Gets m (allocate (zeros n) m, length m.cells)
unfolding Gets
allocate-Gets n m = (
  (λ a u e. omega (arith, u.0, e)),
  allocate-Keeps (zeros n) m,
  (λ im. (allocate-InUse (zeros n) m im, allocate-IsMemory (zeros n) m im)),
)

fits_facts :
    (n b : ℕ) (rest : List ℕ) (m : Memory)
    → fits n b rest m ≡ true
    → (b < length m.cells) × (occurs b rest ≡ false)
fits_facts n b rest m e = ground (arith, e)

pick-Gets :
    (n : ℕ) (cells : List Bytes) (pool : List ℕ)
    → Gets
        (record { cells = cells; pool = pool })
        (pick n pool (record { cells = cells; pool = pool }))
unfolding Gets
pick-Gets n cells [] = allocate-Gets n (record { cells = cells; pool = [] })
pick-Gets n cells (b ∷ rest) =
    elim (Bool-cases (fits n b rest (record { cells = cells; pool = b ∷ rest }))) [
      | inl e ↦ rw e (reused (fits_facts n b rest (record { cells = cells; pool = b ∷ rest }) e))
      | inr e ↦ rw e (allocate-Gets n (record { cells = cells; pool = b ∷ rest }))
    ]
  where
    reused :
        (b < length cells) × (occurs b rest ≡ false)
        → Gets
            (record { cells = cells; pool = b ∷ rest })
            (record { cells = cells; pool = rest }, b)
    reused facts = (
      (λ a u e. u.1 (inl (sym e))),
      (λ a u. ((u.0, (λ any. u.1 (inr any))), refl)),
      (λ im. ((facts.0, occurs-Any b rest facts.1), im.1)),
    )

stack_pool-IsPool : IsPool stack_pool
unfolding Gets
stack_pool-IsPool = record {
  get-unused = λ n a m u. (pick-Gets n m.cells m.pool).0 a u;
  get-Keeps = λ n m. (pick-Gets n m.cells m.pool).1;
  get-InUse = λ n m im. ((pick-Gets n m.cells m.pool).2 im).0;
  get-IsMemory = λ n m im. ((pick-Gets n m.cells m.pool).2 im).1;
  put-KeepsBut =
      λ buf m u a v ne. ((v.0, (λ any. elim any [ inl e ↦ ne (sym e) | inr r ↦ v.1 r ])), refl);
  put-IsMemory = λ buf m u im. (u.0, im);
}

-- Two data frames of the same size, so that the second is read into the buffer of the first.
abbrev two_frames : Bytes
two_frames = 4 ∷ 4 ∷ 0 ∷ 5 ∷ 7 ∷ 4 ∷ 4 ∷ 0 ∷ 6 ∷ 8 ∷ []

abbrev fresh_memory : Memory
fresh_memory = record { cells = []; pool = [] }

abbrev outcome : Memory × List FrameAt
outcome = receive_all demo byte_net stack_pool 3 two_frames fresh_memory []

second_frame_overwrites : outcome.0.cells ≡ (4 ∷ 0 ∷ 6 ∷ 8 ∷ []) ∷ (7 ∷ []) ∷ (8 ∷ []) ∷ []
unfolding receive_all length_at receive copy_payload fill content
second_frame_overwrites = refl

long_enough : (n : ℕ) (w : Bytes) → ltb (length w) n ≡ false → n ≤ length w
long_enough n w h = ground arith

byte_net-Fills :
    (n : ℕ) (w w' bytes : Bytes) → byte_net.read_full n w ≡ (w', ok bytes) → length bytes ≡ n
byte_net-Fills n w w' bytes e = elim (Bool-cases (ltb (length w) n)) [
  | inl short ↦ absurd (no_error bytes (rw short at got))
  | inr long ↦
      omega (arith, length-take n w, long_enough n w long, ap length (eq_of_some (rw long at got)))
]
  where
    body_of : Bytes × Result Bytes → Option Bytes
    body_of (v, ok b) = some b
    body_of (v, err x) = none

    got : body_of (byte_net.read_full n w) ≡ some bytes
    got = ap body_of e

    no_error : (b : Bytes) → none ≡ some b → ⊥
    no_error b q = cc

byte_net-Slices :
    (bytes : Bytes) (f : Frame)
    → frame_of bytes ≡ ok f
    → take (length f.payload) (drop 3 bytes) ≡ f.payload
byte_net-Slices (t ∷ fl ∷ i ∷ payload) f e =
    subst (λ (x : Bytes). take (length x) payload ≡ x) (ap payload_of e)
      (take_all (length payload) payload refl)
  where
    payload_of : Result Frame → Bytes
    payload_of (ok g) = g.payload
    payload_of (err x) = []
byte_net-Slices [] f e = cc
byte_net-Slices (t ∷ []) f e = cc
byte_net-Slices (t ∷ fl ∷ []) f e = cc

receive_all-Records_example :
    map (read_frame outcome.0) outcome.1
    ≡ (read_loop demo byte_net recorder 3 (record { wire = two_frames; frames = [] })).0.frames
receive_all-Records_example =
    receive_all-Records demo byte_net stack_pool stack_pool-IsPool byte_net-Fills byte_net-Slices 3
      two_frames fresh_memory outcome.0 outcome.1 tt refl

payloads_kept :
    map (λ (f : FrameAt). (read_frame outcome.0 f).payload) outcome.1 ≡ (7 ∷ []) ∷ (8 ∷ []) ∷ []
unfolding receive_all length_at receive copy_payload fill content
payloads_kept = refl
