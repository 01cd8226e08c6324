-- ===== src/Buf/Read.antt =====
-- buf.c: the functions that read take bytes off the front of what is unread.
use libpccc.Common.{
  ℕ, suc, ◌+◌, ◌-◌, ◌≤◌, ◌<◌, ◌≡◌, ap, ◌∙◌, none, some, List, [], ◌∷◌, arith, length, get_or, drop,
  length-drop, drop-suc, get_or-drop, get_or-take, sym,
}
use libpccc.ByteOrder.{Endian, load16, load32}
use libpccc.Buf.{Buf, contents, unread, buf_get_byte, buf_get_word, buf_get_long}
use libpccc.Buf.Invariant.{IsValid, length-contents}

pub length-unread : {b : Buf} → IsValid b → length (unread b) ≡ b.len - b.index
length-unread {b} v = omega (arith, length-drop b.index (contents b), length-contents v)

-- The buffer with `n` more bytes read.
abbrev pub advance : ℕ → Buf → Buf
advance n b = record b { index = b.index + n }

pub advance-IsValid : {b : Buf} (n : ℕ) → IsValid b → n ≤ length (unread b) → IsValid (advance n b)
advance-IsValid n v h = omega (arith, length-unread v)

pub unread-advance :
    (b : Buf) (n : ℕ) {x : ℕ} {xs : List ℕ}
    → unread (advance n b) ≡ x ∷ xs
    → unread (advance (suc n) b) ≡ xs
unread-advance b n e =
    let shift : b.index + suc n ≡ suc (b.index + n) = omega arith in
    ap (λ k. drop k (contents b)) shift ∙ drop-suc (b.index + n) (contents b) e

-- The cell at the place of an unread byte holds it.
pub cell-unread :
    {b : Buf} (n : ℕ) {x : ℕ} {xs : List ℕ}
    → IsValid b
    → unread (advance n b) ≡ x ∷ xs
    → get_or b.cells (b.index + n) 0 ≡ x
cell-unread {b} n {x} {xs} v e =
    sym (get_or-take b.len (b.index + n) b.cells 0 within)
    ∙ get_or-drop (b.index + n) (contents b) 0 e
  where
    within : b.index + n < b.len
    within =
        omega (arith, length-drop (b.index + n) (contents b), length-contents v, ap (length {0}) e)

unread-advance_zero : (b : Buf) → unread (advance 0 b) ≡ unread b
unread-advance_zero b = ap (λ n. drop n (contents b)) (omega arith)

-- A byte that is unread is returned, and the rest stays unread.
pub buf_get_byte-cons :
    {b : Buf} {x : ℕ} {xs : List ℕ}
    → IsValid b
    → unread b ≡ x ∷ xs
    → (buf_get_byte b ≡ (advance 1 b, some x)) × (unread (advance 1 b) ≡ xs) × IsValid (advance 1 b)
unfolding buf_get_byte
buf_get_byte-cons {b} v e = (
  ground (arith, length-unread v, ap (length {0}) e, cell-unread 0 v (unread-advance_zero b ∙ e)),
  unread-advance b 0 (unread-advance_zero b ∙ e),
  advance-IsValid 1 v (omega (arith, ap (length {0}) e)),
)

pub buf_get_byte-nil : {b : Buf} → IsValid b → unread b ≡ [] → buf_get_byte b ≡ (b, none)
unfolding buf_get_byte
buf_get_byte-nil {b} v e = ground (arith, length-unread v, ap (length {0}) e)

pub buf_get_word-cons :
    {b : Buf} (e : Endian) {b0 b1 : ℕ} {xs : List ℕ}
    → IsValid b
    → unread b ≡ b0 ∷ b1 ∷ xs
    → (buf_get_word e b ≡ (advance 2 b, some (load16 e b0 b1)))
      × (unread (advance 2 b) ≡ xs)
      × IsValid (advance 2 b)
unfolding buf_get_word
buf_get_word-cons {b} e {b0} {b1} {xs} v h =
    let h0 : unread (advance 0 b) ≡ b0 ∷ b1 ∷ xs = unread-advance_zero b ∙ h in
    let h1 : unread (advance 1 b) ≡ b1 ∷ xs = unread-advance b 0 h0 in
    (
      ground (arith, length-unread v, ap (length {0}) h, cell-unread 0 v h0, cell-unread 1 v h1),
      unread-advance b 1 h1,
      advance-IsValid 2 v (omega (arith, ap (length {0}) h)),
    )

pub buf_get_word-short :
    {b : Buf} (e : Endian) → IsValid b → length (unread b) < 2 → buf_get_word e b ≡ (b, none)
unfolding buf_get_word
buf_get_word-short {b} e v h = ground (arith, length-unread v)

pub buf_get_long-cons :
    {b : Buf} (e : Endian) {b0 b1 b2 b3 : ℕ} {xs : List ℕ}
    → IsValid b
    → unread b ≡ b0 ∷ b1 ∷ b2 ∷ b3 ∷ xs
    → (buf_get_long e b ≡ (advance 4 b, some (load32 e b0 b1 b2 b3)))
      × (unread (advance 4 b) ≡ xs)
      × IsValid (advance 4 b)
unfolding buf_get_long
buf_get_long-cons {b} e {b0} {b1} {b2} {b3} {xs} v h =
    let h0 : unread (advance 0 b) ≡ b0 ∷ b1 ∷ b2 ∷ b3 ∷ xs = unread-advance_zero b ∙ h in
    let h1 : unread (advance 1 b) ≡ b1 ∷ b2 ∷ b3 ∷ xs = unread-advance b 0 h0 in
    let h2 : unread (advance 2 b) ≡ b2 ∷ b3 ∷ xs = unread-advance b 1 h1 in
    let h3 : unread (advance 3 b) ≡ b3 ∷ xs = unread-advance b 2 h2 in
    (
      ground (
        arith,
        length-unread v,
        ap (length {0}) h,
        cell-unread 0 v h0,
        cell-unread 1 v h1,
        cell-unread 2 v h2,
        cell-unread 3 v h3,
      ),
      unread-advance b 3 h3,
      advance-IsValid 4 v (omega (arith, ap (length {0}) h)),
    )

pub buf_get_long-short :
    {b : Buf} (e : Endian) → IsValid b → length (unread b) < 4 → buf_get_long e b ≡ (b, none)
unfolding buf_get_long
buf_get_long-short {b} e v h = ground (arith, length-unread v)
