-- ===== src/Buf/Invariant.antt =====
-- buf.c: the invariant of a `BUF`, and that no call of buf.c breaks it.
use libpccc.Common.{
  ℕ, ◌+◌, ◌^◌, ◌≤◌, ◌<◌, ◌≡◌, refl, ap, ◌∙◌, Bool, true, false, some, List, [], ◌++◌, arith, length,
  drop, store, leb, if◌then◌else◌, length-take, length-store, take-store, drop-append,
}
use libpccc.Buf.{Buf, contents, unread, buf_empty, buf_new}

-- The block has `max` bytes and fits the address space twice over, as every object of a C program
-- does; no more is read than was written, and no more written than there is room.
pub record IsValid (b : Buf) : Type 0 where
  pub storage : length b.cells ≡ b.max
  pub small : b.max < 2 ^ 63
  pub filled : b.len ≤ b.max
  pub read : b.index ≤ b.len

pub length-contents : {b : Buf} → IsValid b → length (contents b) ≡ b.len
length-contents {b} v = omega (arith, length-take b.len b.cells)

-- The buffer with a block written behind its contents.
abbrev pub extend : Buf → List ℕ → Buf
extend b xs = record b { cells = store b.cells b.len xs; len = b.len + length xs }

-- All or nothing: the block if it fits, and a failure that changes nothing if it does not.
abbrev pub append : Buf → List ℕ → Buf × Bool
append b xs = if leb (b.len + length xs) b.max then (extend b xs, false) else (b, true)

pub extend-IsValid :
    {b : Buf} (xs : List ℕ) → IsValid b → b.len + length xs ≤ b.max → IsValid (extend b xs)
extend-IsValid {b} xs v h = record {
  storage = length-store b.cells b.len xs ∙ v.storage;
  small = v.small;
  filled = h;
  read = omega arith;
}

pub contents-extend :
    {b : Buf} (xs : List ℕ)
    → IsValid b
    → b.len + length xs ≤ b.max
    → contents (extend b xs) ≡ contents b ++ xs
contents-extend {b} xs v h = take-store b.cells b.len (b.len + length xs) xs refl (omega arith)

pub unread-extend :
    {b : Buf} (xs : List ℕ)
    → IsValid b
    → b.len + length xs ≤ b.max
    → unread (extend b xs) ≡ unread b ++ xs
unread-extend {b} xs v h =
    ap (drop b.index) (contents-extend xs v h)
    ∙ drop-append b.index (contents b) xs (omega (arith, length-contents v))

pub append-IsValid : {b : Buf} (xs : List ℕ) → IsValid b → IsValid (append b xs).0
append-IsValid {b} xs v = ground (arith, extend-IsValid xs v)

pub buf_empty-IsValid : {b : Buf} → IsValid b → IsValid (buf_empty b)
unfolding buf_empty
buf_empty-IsValid v = omega arith

-- A block that fits the address space twice over makes an empty, well-formed buffer of its size.
pub buf_new-IsValid :
    (block : List ℕ)
    → length block < 2 ^ 63
    → (b : Buf) × (buf_new (some block) (length block) ≡ some b)
      × IsValid b
      × (b.max ≡ length block)
      × (contents b ≡ [])
unfolding buf_new buf_empty
buf_new-IsValid block h = (
  record { cells = block; max = length block; len = 0; index = 0 },
  refl,
  omega arith,
  refl,
  refl,
)
