-- ===== src/Buf/Transfer.antt =====
-- buf.c: `buf_read` and `buf_write`, which move bytes from and to a file descriptor.
use libpccc.Common.{
  length-drop, store, ℕ, ◌+◌, ◌-◌, ◌≤◌, ◌≡◌, refl, ap, sym, ◌∙◌, List, [], ◌∷◌, ◌++◌, arith, length,
  drop, drop-drop, some, take-store, length-store, drop_all, Bool-cases, inl, inr, ◌==◌, add_size,
  not, map,
}
use libpccc.Buf.{
  Buf, Io, interrupted, moved, contents, unread, buf_read, buf_write, buf_write_ready, buf_empty,
}
use libpccc.Buf.Invariant.{IsValid, length-contents}
use libpccc.Buf.Read.{length-unread}

-- A read of at most `max` bytes into a well-formed buffer, after any number of interruptions, leaves
-- exactly those bytes in the buffer, all unread, and the buffer well-formed.
pub buf_read_lem :
    (tries : List (Io (List ℕ))) (bytes : List ℕ) (later : List (Io (List ℕ))) (b : Buf)
    → IsValid b
    → length bytes ≤ b.max
    → (b' : Buf) × (buf_read (map (λ _. interrupted) tries ++ moved bytes ∷ later) b
        ≡ (b', some (length bytes)))
      × IsValid b'
      × (unread b' ≡ bytes)
unfolding buf_read
buf_read_lem [] bytes later b v h = (
  record b { cells = store b.cells 0 bytes; len = length bytes; index = 0 },
  refl,
  record {
    storage = length-store b.cells 0 bytes ∙ v.storage;
    small = v.small;
    filled = h;
    read = omega arith;
  },
  take-store b.cells 0 (length bytes) bytes (omega arith) (omega (arith, v.storage)),
)
buf_read_lem (t ∷ tries) bytes later b v h = buf_read_lem tries bytes later b v h

-- A write of `n` bytes, not more than a well-formed buffer has unread, takes them off the front of
-- what is unread and leaves the buffer well-formed, and `buf_write_ready` tells whether bytes are
-- left.
pub buf_write_lem :
    (n : ℕ) (later : List (Io ℕ)) {b : Buf}
    → IsValid b
    → n ≤ length (unread b)
    → let (b', r) = buf_write (moved n ∷ later) b in
      (r ≡ some n)
      × IsValid b'
      × (unread b' ≡ drop n (unread b))
      × (buf_write_ready b' ≡ not (length (unread b') == 0))
unfolding buf_write buf_empty buf_write_ready
buf_write_lem n later {b} v h =
    let room : n ≤ b.len - b.index = omega (arith, length-unread v) in
    let no_wrap : add_size b.index n ≡ b.index + n = omega arith in
    let left : unread (record b { index = add_size b.index n }) ≡ drop n (unread b) =
      ap (λ k. drop k (contents b)) no_wrap ∙ sym (drop-drop b.index n (contents b)) in
    elim (Bool-cases (add_size b.index n == b.len)) [
      | inl done ↦ rw done (
        refl,
        record { storage = v.storage; small = v.small; filled = omega arith; read = omega arith },
        sym (drop_all n (unread b) (ground (arith, length-unread v))),
        refl,
      )
      | inr more ↦ rw more (
        refl,
        record { storage = v.storage; small = v.small; filled = v.filled; read = omega arith },
        left,
        ground (arith, length-drop (add_size b.index n) (contents b), length-contents v),
      )
    ]
