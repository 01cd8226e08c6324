-- ===== src/Buf.antt =====
-- buf.c: the byte buffers through which every message goes. A `BUF` is its cells, the bytes
-- written so far (`len`) and how far it has been read (`index`). What `malloc`, `read` and `write`
-- of the C library return are arguments.
use libpccc.Common.{
  ℕ, ◌+◌, ◌-◌, ◌^◌, Bool, true, false, not, ◌&&◌, ◌||◌, Option, none, some, List, [], ◌∷◌, length,
  get_or, set, take, drop, store, leb, ◌==◌, if◌then◌else◌, add_size,
}
use libpccc.ByteOrder.{Endian, store16, load16, store32, load32}
pub mod Invariant
pub mod Append
pub mod Read
pub mod Encode
pub mod Transfer
mod Tests

pub record Buf : Type 0 where
  pub cells : List ℕ
  pub max : ℕ
  pub len : ℕ
  pub index : ℕ

-- What the buffer holds, and what of it has not been read.
abbrev pub contents : Buf → List ℕ
contents b = take b.len b.cells

abbrev pub unread : Buf → List ℕ
unread b = drop b.index (contents b)

unfoldable pub buf_empty : Buf → Buf
buf_empty b = record b { len = 0; index = 0 }

-- `malloc` gives `none`, or a block with `bytes` cells behind the header.
unfoldable pub buf_new : Option (List ℕ) → ℕ → Option Buf
unfolding buf_empty
buf_new none bytes = none
buf_new (some block) bytes =
    some (buf_empty (record { cells = block; max = bytes; len = 0; index = 0 }))

-- The functions that append return the new buffer, and whether they failed (a nonzero return).
-- `memcpy` of `src` to the end of the contents, if it fits.
unfoldable pub buf_append_blob : Buf → List ℕ → Buf × Bool
buf_append_blob dst src =
    let nlen : ℕ = add_size (length src) dst.len in
    if leb nlen dst.max
    then (record dst { cells = store dst.cells dst.len src; len = nlen }, false)
    else (dst, true)

-- `memcpy` reads the first `len` bytes of the source's cells.
unfoldable pub buf_append_buf : Buf → Buf → Buf × Bool
buf_append_buf dst src =
    let new_len : ℕ = add_size dst.len src.len in
    if leb new_len dst.max
    then (
      record dst { cells = store dst.cells dst.len (take src.len src.cells); len = new_len },
      false,
    )
    else (dst, true)

unfoldable pub buf_append_byte : Buf → ℕ → Buf × Bool
buf_append_byte dst src =
    if dst.len == dst.max
    then (dst, true)
    else (record dst { cells = set dst.cells dst.len src; len = add_size dst.len 1 }, false)

-- The bytes of a word in the host's order.
unfoldable pub buf_append_word : Endian → Buf → ℕ → Buf × Bool
buf_append_word e dst src =
    let new_len : ℕ = add_size dst.len 2 in
    if leb new_len dst.max
    then (record dst { cells = store dst.cells dst.len (store16 e src); len = new_len }, false)
    else (dst, true)

unfoldable pub buf_append_long : Endian → Buf → ℕ → Buf × Bool
buf_append_long e dst src =
    let new_len : ℕ = add_size dst.len 4 in
    if leb new_len dst.max
    then (record dst { cells = store dst.cells dst.len (store32 e src); len = new_len }, false)
    else (dst, true)

-- A C string is the list of its characters before the terminating zero.
unfoldable pub buf_append_str : Buf → List ℕ → Buf × Bool
buf_append_str dst src =
    let nlen : ℕ = add_size (length src) dst.len in
    if leb nlen dst.max
    then (record dst { cells = store dst.cells dst.len src; len = nlen }, false)
    else (dst, true)

-- The functions that read return the new buffer and what is stored through `dst`, if they succeed.
unfoldable pub buf_get_byte : Buf → Buf × Option ℕ
buf_get_byte src =
    if src.len == src.index
    then (src, none)
    else (record src { index = add_size src.index 1 }, some (get_or src.cells src.index 0))

unfoldable pub buf_get_word : Endian → Buf → Buf × Option ℕ
buf_get_word e src =
    let new_index : ℕ = add_size src.index 2 in
    let at : ℕ → ℕ = λ i. get_or src.cells (src.index + i) 0 in
    if leb new_index src.len
    then (record src { index = new_index }, some (load16 e (at 0) (at 1)))
    else (src, none)

unfoldable pub buf_get_long : Endian → Buf → Buf × Option ℕ
buf_get_long e src =
    let new_index : ℕ = add_size src.index 4 in
    let at : ℕ → ℕ = λ i. get_or src.cells (src.index + i) 0 in
    if leb new_index src.len
    then (record src { index = new_index }, some (load32 e (at 0) (at 1) (at 2) (at 3)))
    else (src, none)

-- What `read` and `write` return: they were interrupted, they failed, or they moved some bytes.
pub data Io (A : Type 0) : Type 0 where
  interrupted : Io A
  failed : Io A
  moved : A → Io A

-- The attempts are what successive calls of `read` return; the loop ends at the first that is not
-- interrupted. `none` is a negative return; `some n` a count. On failure `len` gets the value -1,
-- the largest `size_t`. (No attempt left: the call never returns, which is `none` with no change.)
unfoldable pub buf_read : List (Io (List ℕ)) → Buf → Buf × Option ℕ
buf_read [] dst = (dst, none)
buf_read (interrupted ∷ rest) dst = buf_read rest dst
buf_read (failed ∷ rest) dst = (record dst { len = 2 ^ 64 - 1; index = 0 }, none)
buf_read (moved bytes ∷ rest) dst = (
  record dst { cells = store dst.cells 0 bytes; len = length bytes; index = 0 },
  some (length bytes),
)

unfoldable pub buf_write_ready : Buf → Bool
buf_write_ready b = not (b.len == 0) && not (b.index == b.len)

unfoldable pub buf_write : List (Io ℕ) → Buf → Buf × Option ℕ
unfolding buf_empty
buf_write [] src = (src, none)
buf_write (interrupted ∷ rest) src = buf_write rest src
buf_write (failed ∷ rest) src = (src, none)
buf_write (moved bytes ∷ rest) src =
    let src' : Buf = record src { index = add_size src.index bytes } in
    (if src'.index == src'.len then buf_empty src' else src', some bytes)

-- `a || b` of the C code: `b` runs only if `a` succeeded.
infixl 20 ◌or_else◌
abbrev pub ◌or_else◌ : Buf × Bool → (Buf → Buf × Bool) → Buf × Bool
(b, true) or_else k = (b, true)
(b, false) or_else k = k b

-- `overflow |= b` of the C code: `b` runs in any case.
infixl 20 ◌and_also◌
abbrev pub ◌and_also◌ : Buf × Bool → (Buf → Buf × Bool) → Buf × Bool
(b, overflow) and_also k = let (b', o) = k b in (b', overflow || o)
