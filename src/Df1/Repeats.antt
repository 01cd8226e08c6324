-- ===== src/Df1/Repeats.antt =====
-- df1d/rx.c: a message that comes again is known by the bytes that the last one left.
use libpccc.Common.{
  ℕ, ◌+◌, ◌≤◌, ◌<◌, ◌≡◌, refl, ap, sym, ◌∙◌, true, List, [], ◌∷◌, arith, none, some, false, ap₂,
  inl, inr, Bool-cases, Option-cases, get_or, get_or-take, ltb, Bool, add_size,
}
use libpccc.Buf.{Buf, contents, buf_get_byte}
use libpccc.Buf.Invariant.{IsValid}
use libpccc.Df1.State.{sym_ack, Platform, Client, Conn, rx_pend, inc}
use libpccc.Df1.Checksum.{cs_ok}
use libpccc.Df1.Transmit.{rx_set_nak}
use libpccc.Df1.Receive.{
  dup_bytes, same_bytes, rx_ack, rx_nak, find_addr, pass_on, client_msg_rx, accept_unique,
  accept_msg, msg_dup,
}
use libpccc.Df1.Handover.{Answered, accept_msg-good, msg_dup-same, rx_ack-Answered}

-- The connection keeps the bytes of the last message while it is passed on.
pass_on-dup : (p : Platform) (c : Conn) (cl : Client) → (pass_on p c cl).rx.dup ≡ c.rx.dup
unfolding pass_on rx_nak rx_set_nak
pass_on-dup p c cl =
    elim (Bool-cases (ltb cl.sock_out.max (add_size (add_size cl.sock_out.len c.rx.app.len) 2))) [
      | inl full ↦ rw full
      | inr room ↦ rw room
    ]

client_msg_rx-dup :
    (p : Platform) (junk : ℕ) (c : Conn) → (client_msg_rx p junk c).rx.dup ≡ c.rx.dup
unfolding client_msg_rx rx_ack
client_msg_rx-dup p junk c =
    let got = buf_get_byte c.rx.app in
    let dst : ℕ = elim got.1 [ none ↦ junk | some x ↦ x ] in
    elim (Option-cases (find_addr c.clients dst)) [
      | inl unknown ↦ rw (client_msg_rx, unknown)
      | inr (cl, known) ↦
          rw (client_msg_rx, known)
            (pass_on-dup p (record c { rx = record (c.rx) { app = got.0 } }) cl)
    ]

accept_unique-dup : (p : Platform) (c : Conn × Bool) → (accept_unique p c).rx.dup ≡ c.0.rx.dup
unfolding accept_unique rx_ack
accept_unique-dup p (c, true) = refl
accept_unique-dup p (c, false) = client_msg_rx-dup p 0 (record c {
  rx = record (c.rx) { state = rx_pend };
  dcnts = record (c.dcnts) { msg_rx = inc c.dcnts.msg_rx };
})

msg_dup-dup : (d : Conn) → d.rx.dup_detect ≡ true → (msg_dup d).0.rx.dup ≡ dup_bytes d.rx.app
unfolding msg_dup
msg_dup-dup d on = rw on

-- A good message leaves its source, command and transaction bytes behind, also when it is itself a
-- repetition or reaches no client.
accept_msg-dup :
    (p : Platform) (d : Conn)
    → 6 ≤ d.rx.app.len
    → cs_ok d ≡ true
    → d.rx.dup_detect ≡ true
    → (accept_msg p d).rx.dup ≡ dup_bytes d.rx.app
accept_msg-dup p d h k on =
    ap (λ (c : Conn). c.rx.dup) (accept_msg-good p d h k)
    ∙ accept_unique-dup p (msg_dup d)
    ∙ msg_dup-dup d on

-- The bytes by which a message with these bytes is known.
dup_bytes_lem :
    (b : Buf) (dst src cmd sts t u : ℕ) (more : List ℕ)
    → 6 ≤ b.len
    → contents b ≡ dst ∷ src ∷ cmd ∷ sts ∷ t ∷ u ∷ more
    → dup_bytes b ≡ src ∷ cmd ∷ t ∷ u ∷ []
dup_bytes_lem b dst src cmd sts t u more n e =
    let at : (i : ℕ)
        → i < 6
        → get_or b.cells i 0 ≡ get_or (dst ∷ src ∷ cmd ∷ sts ∷ t ∷ u ∷ more) i 0 =
      λ i h. sym (get_or-take b.len i b.cells 0 (omega arith)) ∙ ap (λ l. get_or l i 0) e in
    rw (at 1 (omega arith), at 2 (omega arith), at 4 (omega arith), at 5 (omega arith))

same_bytes_refl : (xs : List ℕ) → same_bytes xs xs ≡ true
same_bytes_refl [] = refl
same_bytes_refl (x ∷ xs) = ground (arith, same_bytes_refl xs)

-- With duplicate detection, the receiver is left by a good message, of six bytes or more and with a
-- right checksum, wherever that message went. If the next message that is taken is good too and has
-- the same source, command and transaction bytes (the second, third, fifth and sixth), it is
-- answered by ACK, if there is room for it, counted as a duplicate, and reaches no client.
pub accept_msg-repeated :
    (p : Platform) (d e : Conn) (dst dst' src cmd sts sts' t u : ℕ) (more more' : List ℕ)
    → 6 ≤ d.rx.app.len
    → cs_ok d ≡ true
    → d.rx.dup_detect ≡ true
    → contents d.rx.app ≡ dst ∷ src ∷ cmd ∷ sts ∷ t ∷ u ∷ more
    → e.rx.dup ≡ (accept_msg p d).rx.dup
    → 6 ≤ e.rx.app.len
    → cs_ok e ≡ true
    → e.rx.dup_detect ≡ true
    → contents e.rx.app ≡ dst' ∷ src ∷ cmd ∷ sts' ∷ t ∷ u ∷ more'
    → IsValid e.tty_out
    → e.tty_out.len + 2 ≤ e.tty_out.max
    → Answered e sym_ack (accept_msg p e) × ((accept_msg p e).dcnts.dups ≡ inc e.dcnts.dups)
unfolding accept_unique rx_ack
accept_msg-repeated p d e dst dst' src cmd sts sts' t u more more' h k on text left h' k' on' text'
      v room =
    let known : List ℕ = src ∷ cmd ∷ t ∷ u ∷ [] in
    let first : e.rx.dup ≡ known =
      left ∙ accept_msg-dup p d h k on ∙ dup_bytes_lem d.rx.app dst src cmd sts t u more h text in
    let second : dup_bytes e.rx.app ≡ known =
      dup_bytes_lem e.rx.app dst' src cmd sts' t u more' h' text' in
    let same : same_bytes (dup_bytes e.rx.app) e.rx.dup ≡ true =
      ap₂ same_bytes second first ∙ same_bytes_refl known in
    let marked : Conn = record e {
      rx = record (e.rx) { dup = dup_bytes e.rx.app };
      dcnts = record (e.dcnts) { dups = inc e.dcnts.dups };
    } in
    rw (accept_msg-good p e h' k', msg_dup-same e on' same)
      (rx_ack-Answered p e v room marked refl refl, refl)
