-- ===== src/Df1/Stream/Parse.antt =====
-- df1d/conn.c: `parse_tty_data` takes the bytes one after the other.
use libpccc.Common.{
  ◌⊎◌, List-cases, ℕ, zero, suc, ◌≡◌, refl, ap, ◌∙◌, true, false, List, [], ◌∷◌, arith, none, some,
  inl, inr, Bool-cases, length, ◌==◌, ◌&&◌, ◌≤◌, ◌<◌, if◌then◌else◌,
}
use libpccc.Buf.{Buf, unread, buf_get_byte}
use libpccc.Buf.Invariant.{IsValid}
use libpccc.Buf.Read.{advance, buf_get_byte-cons, buf_get_byte-nil, length-unread}
use libpccc.Df1.State.{Platform, Conn, Rx, rx_idle, rx_pend, sym_stx}
use libpccc.Df1.Checksum.{cs_clear}
use libpccc.Df1.Transmit.{rx_active}
use libpccc.Df1.Receive.{start_msg, rx_msg}
use libpccc.Df1.Link.{link_byte, symbol_byte, parse_loop, parse_tty_data}
use libpccc.Df1.Stream.Bytes.{
  rx_bytes, refuses, step_byte, link_bytes, Leaves, rx_msg-Leaves, link_bytes-rx_bytes,
  rx_bytes-inactive, length-rx_bytes, inactive-rx_bytes,
}

-- The first part of a round: a message that was cut off goes on.
abbrev resumed : Platform → Conn → Buf → Conn × Buf
resumed p c b = if rx_active c.rx then rx_msg p c b else (c, b)

start_msg-active : (c : Conn) → rx_active c.rx ≡ true → start_msg c ≡ c
unfolding start_msg
start_msg-active c h = ground arith

abbrev resumed_bytes : Platform → Conn → List ℕ → Conn × List ℕ
resumed_bytes p c xs = if rx_active c.rx then rx_bytes p c xs else (c, xs)

resumed-Leaves :
    (p : Platform) (c : Conn) (xs : List ℕ) {b : Buf}
    → IsValid b
    → unread b ≡ xs
    → Leaves (resumed_bytes p c xs) (resumed p c b)
resumed-Leaves p c xs {b} v e = elim (Bool-cases (rx_active c.rx)) [
  | inl h ↦ rw h (rw (start_msg-active c h) at (rx_msg-Leaves p c xs v e))
  | inr h ↦ rw h (refl, e, v)
]

-- A round of the loop.
module _ (fuel : ℕ) (p : Platform) (c c' : Conn) (b b' b'' : Buf) where
  parse_loop_end :
      resumed p c b ≡ (c', b')
      → buf_get_byte b' ≡ (b'', none)
      → parse_loop (suc fuel) p c b ≡ (c', b'')
  unfolding parse_loop
  parse_loop_end e f = ground arith

  parse_loop_byte :
      (x : ℕ)
      → resumed p c b ≡ (c', b')
      → buf_get_byte b' ≡ (b'', some x)
      → parse_loop (suc fuel) p c b
        ≡ parse_loop fuel p (link_byte p c' x b'').0 (link_byte p c' x b'').1
  unfolding parse_loop
  parse_loop_byte x e f = ground arith

-- The second part of a round.
abbrev linked_bytes : Platform → Conn → ℕ → List ℕ → Conn × List ℕ
linked_bytes p c x xs =
    if c.read_sym && x == sym_stx
    then rx_bytes p (start_msg (record c { read_sym = false })) xs
    else (symbol_byte p c x, xs)

link_byte-Leaves :
    (p : Platform) (c : Conn) (x : ℕ) (xs : List ℕ) {b : Buf}
    → IsValid b
    → unread b ≡ xs
    → Leaves (linked_bytes p c x xs) (link_byte p c x b)
unfolding link_byte
link_byte-Leaves p c x xs v e = elim (Bool-cases (c.read_sym && x == sym_stx)) [
  | inl h ↦ rw h (rx_msg-Leaves p (record c { read_sym = false }) xs v e)
  | inr h ↦ rw h (refl, e, v)
]

start_msg-idle : (c : Conn) → c.rx.state ≡ rx_idle → rx_active (start_msg c).rx ≡ true
unfolding start_msg cs_clear
start_msg-idle c h = ground arith

start_msg-pend : (c : Conn) → c.rx.state ≡ rx_pend → start_msg c ≡ c
unfolding start_msg
start_msg-pend c h = rw h

pub idle-refuses : (c : Conn) (x : ℕ) → c.rx.state ≡ rx_idle → refuses c x ≡ false
idle-refuses c x h = ground arith

pend-refuses :
    (c : Conn) (x : ℕ)
    → (c.read_sym && x == sym_stx) ≡ true
    → c.rx.state ≡ rx_pend
    → refuses c x ≡ true
pend-refuses c x s h = ground arith

inactive-cases : (r : Rx) → rx_active r ≡ false → (r.state ≡ rx_idle) ⊎ (r.state ≡ rx_pend)
inactive-cases r h = ground arith

linked_bytes-link_bytes :
    (p : Platform) (c : Conn) (x : ℕ) (xs : List ℕ)
    → rx_active c.rx ≡ false
    → link_bytes p c (x ∷ xs) ≡ link_bytes p (linked_bytes p c x xs).0 (linked_bytes p c x xs).1
unfolding link_bytes step_byte
linked_bytes-link_bytes p c x xs h =
    let c' : Conn = record c { read_sym = false } in
    elim (Bool-cases (c.read_sym && x == sym_stx)) [
      | inl s ↦ elim (inactive-cases c.rx h) [
        | inl i ↦
            rw (idle-refuses c x i, h, s)
              (link_bytes-rx_bytes p (start_msg c') xs (start_msg-idle c' i))
        | inr i ↦ rw (pend-refuses c x s i, s, start_msg-pend c' i, rx_bytes-inactive p c' xs h)
      ]
      | inr s ↦ rw (s, h)
    ]

length-linked_bytes :
    (p : Platform) (c : Conn) (x : ℕ) (xs : List ℕ) → length (linked_bytes p c x xs).1 ≤ length xs
length-linked_bytes p c x xs =
    ground (arith, length-rx_bytes p (start_msg (record c { read_sym = false })) xs)

resumed_bytes-link_bytes :
    (p : Platform) (c : Conn) (xs : List ℕ)
    → link_bytes p c xs ≡ link_bytes p (resumed_bytes p c xs).0 (resumed_bytes p c xs).1
resumed_bytes-link_bytes p c xs = elim (Bool-cases (rx_active c.rx)) [
  | inl h ↦ rw h (link_bytes-rx_bytes p c xs h)
  | inr h ↦ rw h
]

length-resumed_bytes :
    (p : Platform) (c : Conn) (xs : List ℕ) → length (resumed_bytes p c xs).1 ≤ length xs
length-resumed_bytes p c xs = ground (arith, length-rx_bytes p c xs)

inactive-resumed_bytes :
    (p : Platform) (c : Conn) (xs : List ℕ) {y : ℕ} {ys : List ℕ}
    → (resumed_bytes p c xs).1 ≡ y ∷ ys
    → rx_active (resumed_bytes p c xs).0.rx ≡ false
inactive-resumed_bytes p c xs e = elim (Bool-cases (rx_active c.rx)) [
  | inl h ↦ rw h (inactive-rx_bytes p c xs h (rw h at e))
  | inr h ↦ rw (h, h)
]

parse_loop-Leaves :
    (fuel : ℕ) (p : Platform) (c : Conn) (xs : List ℕ) {b : Buf}
    → length xs < fuel
    → IsValid b
    → unread b ≡ xs
    → Leaves (link_bytes p c xs, []) (parse_loop fuel p c b)
unfolding link_bytes
parse_loop-Leaves zero p c xs h v e = absurd (omega arith)
parse_loop-Leaves (suc fuel) p c xs {b} h v e =
    let r = resumed-Leaves p c xs v e in
    let c1 : Conn = (resumed_bytes p c xs).0 in
    let b1 : Buf = (resumed p c b).1 in
    let same : resumed p c b ≡ (c1, b1) = ap (λ a. (a, b1)) r.0 in
    elim (List-cases (resumed_bytes p c xs).1) [
      | inl n ↦
          rw
            (
              parse_loop_end fuel p c c1 b b1 b1 same (buf_get_byte-nil r.2 (r.1 ∙ n)),
              resumed_bytes-link_bytes p c xs,
              n,
            )
            (refl, r.1 ∙ n, r.2)
      | inr (y, ys, n) ↦
          let g = buf_get_byte-cons r.2 (r.1 ∙ n) in
          let idle = inactive-resumed_bytes p c xs n in
          let l = link_byte-Leaves p c1 y ys g.2 g.1 in
          rw
            (
              parse_loop_byte fuel p c c1 b b1 (advance 1 b1) y same g.0,
              resumed_bytes-link_bytes p c xs,
              n,
              linked_bytes-link_bytes p c1 y ys idle,
              l.0,
            )
            (parse_loop-Leaves fuel p (linked_bytes p c1 y ys).0 (linked_bytes p c1 y ys).1
              (omega (
                arith,
                length-linked_bytes p c1 y ys,
                length-resumed_bytes p c xs,
                ap (length {0}) n,
              ))
              l.2 l.1)
    ]

-- `parse_tty_data` reads all the bytes of a well-formed input buffer, and does with the connection
-- what the bytes do one after the other, whichever of its two loops reads a byte.
pub parse_tty_data_lem :
    (p : Platform) (c : Conn) {b : Buf}
    → IsValid b
    → Leaves (link_bytes p c (unread b), []) (parse_tty_data p c b)
unfolding parse_tty_data
parse_tty_data_lem p c {b} v =
    parse_loop-Leaves (suc b.len) p c (unread b) (omega (arith, length-unread v)) v refl
