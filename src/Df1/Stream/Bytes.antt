-- ===== src/Df1/Stream/Bytes.antt =====
-- df1d/conn.c and df1d/rx.c: what the bytes from the TTY do, one after the other, as functions on
-- the list of the bytes.
use libpccc.Common.{
  not, ℕ, zero, suc, ◌≡◌, refl, ap, ◌∙◌, Bool, true, false, List, [], ◌∷◌, arith, none, some, inl,
  inr, Bool-cases, length, ◌==◌, ◌&&◌, ◌≤◌, ◌<◌, if◌then◌else◌,
}
use libpccc.Buf.{Buf, unread, buf_get_byte}
use libpccc.Buf.Invariant.{IsValid}
use libpccc.Buf.Read.{advance, buf_get_byte-cons, buf_get_byte-nil, length-unread}
use libpccc.Df1.State.{Platform, Conn, rx_pend, sym_stx}
use libpccc.Df1.Transmit.{rx_active}
use libpccc.Df1.Receive.{start_msg, rx_byte, rx_loop, rx_msg}
use libpccc.Df1.Link.{symbol_byte}
use libpccc.Df1.Stream.Rounds.{active-rx_byte}

-- The rounds of `rx_msg`, and the bytes that it leaves.
unfoldable pub rx_bytes : Platform → Conn → List ℕ → Conn × List ℕ
rx_bytes p c [] = (c, [])
rx_bytes p c (x ∷ xs) =
    let (c', done) = rx_byte p c x in
    let rest : Conn × List ℕ = rx_bytes p c' xs in if done then (c', xs) else rest

-- A message is refused while another one is pending: the bytes behind DLE STX are dropped.
abbrev pub refuses : Conn → ℕ → Bool
refuses c x = c.read_sym && x == sym_stx && elim c.rx.state [ rx_pend ↦ true | _ ↦ false ]

-- What a byte does to the connection.
unfoldable pub step_byte : Platform → Conn → ℕ → Conn
step_byte p c x =
    if rx_active c.rx
    then (rx_byte p c x).0
    else if c.read_sym && x == sym_stx
    then start_msg (record c { read_sym = false })
    else symbol_byte p c x

unfoldable pub link_bytes : Platform → Conn → List ℕ → Conn
link_bytes p c [] = c
link_bytes p c (x ∷ xs) =
    let rest : Conn = link_bytes p (step_byte p c x) xs in
    if refuses c x then record c { read_sym = false } else rest

-- A round of the loop of `rx_msg`.
module _ (fuel : ℕ) (p : Platform) (c : Conn) (b b' : Buf) where
  rx_loop_end : buf_get_byte b ≡ (b', none) → rx_loop (suc fuel) p c b ≡ (c, b')
  unfolding rx_loop
  rx_loop_end e = ground arith

  rx_loop_byte :
      (x : ℕ)
      → buf_get_byte b ≡ (b', some x)
      → rx_loop (suc fuel) p c b ≡ (
          if (rx_byte p c x).1
          then ((rx_byte p c x).0, b')
          else rx_loop fuel p (rx_byte p c x).0 b')
  unfolding rx_loop
  rx_loop_byte x e = ground arith

-- What a call leaves: the connection, and a buffer with these bytes unread.
abbrev pub Leaves : Conn × List ℕ → Conn × Buf → Type 0
Leaves (c, xs) (c', b) = (c' ≡ c) × (unread b ≡ xs) × IsValid b

rx_loop-Leaves :
    (xs : List ℕ) (fuel : ℕ) (p : Platform) (c : Conn) {b : Buf}
    → length xs < fuel
    → IsValid b
    → unread b ≡ xs
    → Leaves (rx_bytes p c xs) (rx_loop fuel p c b)
unfolding rx_bytes
rx_loop-Leaves xs zero p c h v e = absurd (omega arith)
rx_loop-Leaves [] (suc fuel) p c {b} h v e =
    rw (rx_loop_end fuel p c b b (buf_get_byte-nil v e)) (refl, e, v)
rx_loop-Leaves (x ∷ xs) (suc fuel) p c {b} h v e =
    let g = buf_get_byte-cons v e in
    elim (Bool-cases (rx_byte p c x).1) [
      | inl done ↦ rw (rx_loop_byte fuel p c b (advance 1 b) x g.0, done) (refl, g.1, g.2)
      | inr more ↦
          rw (rx_loop_byte fuel p c b (advance 1 b) x g.0, more)
            (rx_loop-Leaves xs fuel p (rx_byte p c x).0 (omega arith) g.2 g.1)
    ]

-- The fuel of `rx_msg` is enough: it does what `rx_bytes` does with the unread bytes.
pub rx_msg-Leaves :
    (p : Platform) (c : Conn) (xs : List ℕ) {b : Buf}
    → IsValid b
    → unread b ≡ xs
    → Leaves (rx_bytes p (start_msg c) xs) (rx_msg p c b)
unfolding rx_msg
rx_msg-Leaves p c xs {b} v e =
    rx_loop-Leaves xs (suc b.len) p (start_msg c)
      (omega (arith, length-unread v, ap (length {0}) e)) v e

-- A receiver in a message does not refuse it.
active-refuses : (c : Conn) (x : ℕ) → rx_active c.rx ≡ true → refuses c x ≡ false
active-refuses c x h = ground arith

step_byte-active :
    (p : Platform) (c : Conn) (x : ℕ) → rx_active c.rx ≡ true → step_byte p c x ≡ (rx_byte p c x).0
unfolding step_byte
step_byte-active p c x h = rw h

-- In a message, `link_bytes` does what `rx_bytes` does, and goes on with what that leaves.
pub link_bytes-rx_bytes :
    (p : Platform) (c : Conn) (xs : List ℕ)
    → rx_active c.rx ≡ true
    → link_bytes p c xs ≡ link_bytes p (rx_bytes p c xs).0 (rx_bytes p c xs).1
unfolding link_bytes rx_bytes
link_bytes-rx_bytes p c [] h = refl
link_bytes-rx_bytes p c (x ∷ xs) h =
    let round = active-rx_byte p c x h in
    elim (Bool-cases (rx_byte p c x).1) [
      | inl done ↦ rw (active-refuses c x h, step_byte-active p c x h, done)
      | inr more ↦
          rw (active-refuses c x h, step_byte-active p c x h, more)
            (link_bytes-rx_bytes p (rx_byte p c x).0 xs (round ∙ ap not more))
    ]

-- A receiver that is not in a message drops what `rx_msg` reads.
pub rx_bytes-inactive :
    (p : Platform) (c : Conn) (xs : List ℕ) → rx_active c.rx ≡ false → rx_bytes p c xs ≡ (c, [])
unfolding rx_bytes rx_byte
rx_bytes-inactive p c [] h = refl
rx_bytes-inactive p c (x ∷ xs) h =
    let quiet : rx_byte p c x ≡ (c, false) = ground arith in rw quiet (rx_bytes-inactive p c xs h)

-- What `rx_bytes` leaves is no longer than what it is given, and if it leaves something, the
-- receiver is done with the message.
pub length-rx_bytes :
    (p : Platform) (c : Conn) (xs : List ℕ) → length (rx_bytes p c xs).1 ≤ length xs
unfolding rx_bytes
length-rx_bytes p c [] = omega arith
length-rx_bytes p c (x ∷ xs) = elim (Bool-cases (rx_byte p c x).1) [
  | inl done ↦ rw done (omega arith)
  | inr more ↦ rw more (omega (arith, length-rx_bytes p (rx_byte p c x).0 xs))
]

pub inactive-rx_bytes :
    (p : Platform) (c : Conn) (xs : List ℕ) {y : ℕ} {ys : List ℕ}
    → rx_active c.rx ≡ true
    → (rx_bytes p c xs).1 ≡ y ∷ ys
    → rx_active (rx_bytes p c xs).0.rx ≡ false
unfolding rx_bytes
inactive-rx_bytes p c [] h e = absurd (omega (arith, ap (length {0}) e))
inactive-rx_bytes p c (x ∷ xs) h e =
    let round = active-rx_byte p c x h in
    elim (Bool-cases (rx_byte p c x).1) [
      | inl done ↦ rw done (round ∙ ap not done)
      | inr more ↦
          rw more (inactive-rx_bytes p (rx_byte p c x).0 xs (round ∙ ap not more) (rw more at e))
    ]
