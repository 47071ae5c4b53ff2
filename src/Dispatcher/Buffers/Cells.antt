-- ===== src/Dispatcher/Buffers/Cells.antt =====
-- The cells and buffers behind the read loop of client/dispatcher.go: what is in use, what a pool
-- may do, and what the writes of the loop leave as it is.
use tunnel_agent.Base.{
  ℕ, zero, suc, ◌≤◌, ◌<◌, ◌≡◌, ◌≢◌, refl, sym, ap, ◌∙◌, subst, inl, inr, List, [], ◌∷◌, ◌++◌, arith,
  Bytes, ◌==◌, length, get_elem?, set, take, drop, All, Any, get_elem?-append_one, length-append,
  take-append-drop, if◌then◌else◌,
}
use tunnel_agent.Dispatcher.{Net}
use tunnel_agent.Errors.{ok}
use tunnel_agent.Dispatcher.Buffers.{Memory, Buffers, content, cell_at, fill}
use tunnel_agent.Protocol.{Frame}

-- A cell that is somebody's: it exists, and it does not lie in the pool.
abbrev pub InUse : Memory → ℕ → Type 0
InUse m a = (a < length m.cells) × ¬ Any (λ (b : ℕ). b ≡ a) m.pool

-- The pool holds addresses of cells.
abbrev pub IsMemory : Memory → Type 0
IsMemory m = All (λ (b : ℕ). b < length m.cells) m.pool

-- What is in use but for `buf` stays in use and is not written.
abbrev pub KeepsBut : ℕ → Memory → Memory → Type 0
KeepsBut buf m m' = (a : ℕ) → InUse m a → a ≢ buf → InUse m' a × (cell_at a m' ≡ cell_at a m)

abbrev pub Keeps : Memory → Memory → Type 0
Keeps m m' = (a : ℕ) → InUse m a → InUse m' a × (cell_at a m' ≡ cell_at a m)

module _ {Wire : Type 0} where
  -- A buffer pool: GetBuffer gives a buffer that nobody uses and that is long enough, PutBuffer takes
  -- it back, and neither writes a buffer in use.
  pub record IsPool (bs : Buffers Wire) : Type 0 where
    pub get-unused : (n a : ℕ) (m : Memory) → InUse m a → a ≢ (bs.get_buffer n m).1
    pub get-Keeps : (n : ℕ) (m : Memory) → Keeps m (bs.get_buffer n m).0
    pub get-InUse :
        (n : ℕ) (m : Memory) → IsMemory m → InUse (bs.get_buffer n m).0 (bs.get_buffer n m).1
    pub get-IsMemory : (n : ℕ) (m : Memory) → IsMemory m → IsMemory (bs.get_buffer n m).0
    pub put-KeepsBut : (buf : ℕ) (m : Memory) → InUse m buf → KeepsBut buf m (bs.put_buffer buf m)
    pub put-IsMemory :
        (buf : ℕ) (m : Memory) → InUse m buf → IsMemory m → IsMemory (bs.put_buffer buf m)

  -- io.ReadFull fills what it is given.
  abbrev pub FillsBody : Net Wire → Type 0
  FillsBody net =
      (n : ℕ) (w w' : Wire) (bytes : Bytes) → net.read_full n w ≡ (w', ok bytes) → length bytes ≡ n

  -- The payload of a parsed frame is a slice of what was parsed.
  abbrev pub SlicesBody : Net Wire → Buffers Wire → Type 0
  SlicesBody net bs =
      (bytes : Bytes) (f : Frame)
      → net.parse_frame bytes ≡ ok f
      → take (length f.payload) (drop (bs.payload_at bytes) bytes) ≡ f.payload

pub content-set :
    (xs : List Bytes) (a b : ℕ) (v : Bytes)
    → a < length xs
    → content (get_elem? (set xs a v) b) ≡ (if a == b then v else content (get_elem? xs b))
unfolding content
content-set [] a b v h = ground arith
content-set (x ∷ xs) zero zero v h = ground arith
content-set (x ∷ xs) zero (suc b) v h = ground arith
content-set (x ∷ xs) (suc a) zero v h = ground arith
content-set (x ∷ xs) (suc a) (suc b) v h = ground (arith, content-set xs a b v (omega arith))

pub length-set {ℓ} : {A : Type ℓ} (xs : List A) (a : ℕ) (v : A) → length (set xs a v) ≡ length xs
length-set [] a v = refl
length-set (x ∷ xs) zero v = refl
length-set (x ∷ xs) (suc a) v = ap suc (length-set xs a v)

get_elem?-append_left {ℓ} :
    {A : Type ℓ} (xs ys : List A) (a : ℕ) → a < length xs → get_elem? (xs ++ ys) a ≡ get_elem? xs a
get_elem?-append_left [] ys a h = absurd (omega arith)
get_elem?-append_left (x ∷ xs) ys zero h = refl
get_elem?-append_left (x ∷ xs) ys (suc a) h = get_elem?-append_left xs ys a (omega arith)

-- What a slice reads does not depend on what stands behind its cell's first bytes.
pub take-drop-append {ℓ} :
    {A : Type ℓ} (off n : ℕ) (xs ys : List A)
    → n ≤ length (take n (drop off xs))
    → take n (drop off (xs ++ ys)) ≡ take n (drop off xs)
take-drop-append off zero xs ys h = refl
take-drop-append zero (suc n) [] ys h = absurd (omega arith)
take-drop-append zero (suc n) (x ∷ xs) ys h =
    ap (◌∷◌ x) (take-drop-append zero n xs ys (omega arith))
take-drop-append (suc off) (suc n) [] ys h = absurd (omega arith)
take-drop-append (suc off) (suc n) (x ∷ xs) ys h = take-drop-append off (suc n) xs ys h

pub take-append_all {ℓ} :
    {A : Type ℓ} (n : ℕ) (xs ys : List A) → length xs ≡ n → take n (xs ++ ys) ≡ xs
take-append_all zero [] ys h = refl
take-append_all (suc n) [] ys h = absurd (omega arith)
take-append_all zero (x ∷ xs) ys h = absurd (omega arith)
take-append_all (suc n) (x ∷ xs) ys h = ap (◌∷◌ x) (take-append_all n xs ys (omega arith))

pub take_all {ℓ} : {A : Type ℓ} (n : ℕ) (xs : List A) → length xs ≡ n → take n xs ≡ xs
take_all zero [] h = refl
take_all (suc n) [] h = refl
take_all zero (x ∷ xs) h = absurd (omega arith)
take_all (suc n) (x ∷ xs) h = ap (◌∷◌ x) (take_all n xs (omega arith))

pub fill-KeepsBut :
    (buf : ℕ) (bytes : Bytes) (m : Memory)
    → buf < length m.cells
    → KeepsBut buf m (fill buf bytes m)
unfolding fill
fill-KeepsBut buf bytes m h a (lt, free) ne =
    let v = bytes ++ drop (length bytes) (cell_at buf m) in
    (
      (subst (λ (n : ℕ). a < n) (sym (length-set m.cells buf v)) lt, free),
      content-set m.cells buf a v h ∙ ground (arith, ne),
    )

pub fill-InUse : (a buf : ℕ) (bytes : Bytes) (m : Memory) → InUse m a → InUse (fill buf bytes m) a
unfolding fill
fill-InUse a buf bytes m (lt, free) = (
  subst (λ (n : ℕ). a < n)
      (sym (length-set m.cells buf (bytes ++ drop (length bytes) (cell_at buf m)))) lt,
  free,
)

pub fill-IsMemory :
    (buf : ℕ) (bytes : Bytes) (m : Memory) → IsMemory m → IsMemory (fill buf bytes m)
unfolding fill
fill-IsMemory buf bytes m h =
    subst (λ (n : ℕ). All (λ (b : ℕ). b < n) m.pool)
      (sym (length-set m.cells buf (bytes ++ drop (length bytes) (cell_at buf m)))) h

pub take-fill :
    (n buf : ℕ) (bytes : Bytes) (m : Memory)
    → buf < length m.cells
    → length bytes ≡ n
    → take n (cell_at buf (fill buf bytes m)) ≡ bytes
unfolding fill
take-fill n buf bytes m h l =
    let v = bytes ++ drop (length bytes) (cell_at buf m) in
    ap (take n) (content-set m.cells buf buf v h ∙ ground (arith, n))
    ∙ take-append_all n bytes (drop (length bytes) (cell_at buf m)) l

-- A new cell.
abbrev pub allocate : Bytes → Memory → Memory
allocate bytes m = record m { cells = m.cells ++ bytes ∷ [] }

pub allocate-Keeps : (bytes : Bytes) (m : Memory) → Keeps m (allocate bytes m)
allocate-Keeps bytes m a (lt, free) = (
  (omega (arith, length-append m.cells (bytes ∷ []), lt), free),
  ap content (get_elem?-append_left m.cells (bytes ∷ []) a lt),
)

above_pool : (k : ℕ) (pool : List ℕ) → All (λ (b : ℕ). b < k) pool → ¬ Any (λ (b : ℕ). b ≡ k) pool
above_pool k [] all any = absurd any
above_pool k (b ∷ pool) (lt, all) (inl e) = absurd (omega (arith, lt, e))
above_pool k (b ∷ pool) (lt, all) (inr any) = above_pool k pool all any

pub allocate-InUse :
    (bytes : Bytes) (m : Memory) → IsMemory m → InUse (allocate bytes m) (length m.cells)
allocate-InUse bytes m h =
    (omega (arith, length-append m.cells (bytes ∷ [])), above_pool (length m.cells) m.pool h)

All-weaker :
    (j k : ℕ) (pool : List ℕ) → j ≤ k → All (λ (b : ℕ). b < j) pool → All (λ (b : ℕ). b < k) pool
All-weaker j k [] h all = tt
All-weaker j k (b ∷ pool) h (lt, all) = (omega (arith, h, lt), All-weaker j k pool h all)

pub allocate-IsMemory : (bytes : Bytes) (m : Memory) → IsMemory m → IsMemory (allocate bytes m)
allocate-IsMemory bytes m h =
    All-weaker (length m.cells) (length (m.cells ++ bytes ∷ [])) m.pool
      (omega (arith, length-append m.cells (bytes ∷ []))) h

pub cell_at-allocate :
    (bytes : Bytes) (m : Memory) → cell_at (length m.cells) (allocate bytes m) ≡ bytes
unfolding content
cell_at-allocate bytes m =
    ap content (get_elem?-append_one m.cells bytes (length m.cells)) ∙ ground (arith, bytes)

-- A cell read through a slice, whose first `n` bytes are known.
pub take-drop-take :
    (off k n : ℕ) (bytes cell : Bytes)
    → take n cell ≡ bytes
    → k ≤ length (take k (drop off bytes))
    → take k (drop off cell) ≡ take k (drop off bytes)
take-drop-take off k n bytes cell e h =
    ap (λ (c : Bytes). take k (drop off c))
      (sym (take-append-drop n cell) ∙ ap (λ (b : Bytes). b ++ drop n cell) e)
    ∙ take-drop-append off k bytes (drop n cell) h
