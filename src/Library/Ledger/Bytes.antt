-- ===== src/Library/Ledger/Bytes.antt =====
-- lib/pccc.c: a byte from the link layer service, seen by what the library owes.
use libpccc.Common.{
  ℕ, zero, suc, not, none, some, ◌≡◌, refl, Bool, true, false, inl, inr, Bool-cases, Option, ◌&&◌,
  ◌||◌, ◌==◌, arith, if_either,
}
use libpccc.Buf.{Buf, buf_append_byte, buf_get_byte}
use libpccc.Ret.{Ret}
use libpccc.Df1.State.{Platform}
use libpccc.Library.State.{Pccc, ReadMode, mode_idle, mode_msg_len, mode_msg, msg_at}
use libpccc.Library.Link.{
  byte_from_link, byte_in_mode, control_from_link, byte_of_msg, loop_on, loop_byte, link_loop,
  parse_link,
}
use libpccc.Library.Send.{is_idle}
use libpccc.Library.Pool.{IsPool}
use libpccc.Library.Ledger.Serve.{Serves, Serves-refl, Serves-trans, Serves-same}
use libpccc.Library.Ledger.Replies.{parse_msg-Serves}
use libpccc.Library.Ledger.Acks.{rcv_link_ack-Serves, rcv_link_nak-Serves}

-- A byte that answers a message, while the current message is not in use.
abbrev pub is_stray : Platform → ℕ → ReadMode → Pccc → Bool
is_stray p byte mode c =
    is_idle mode && (byte == p.msg_ack || byte == p.msg_nak) && (msg_at c c.cur_msg).state == 0

module _ (p : Platform) (junk : ℕ) (now : Option ℕ) (byte : ℕ) {c : Pccc} (h : IsPool c) where
  control_from_link-Serves :
      is_stray p byte mode_idle c ≡ false → Serves c (control_from_link p now byte c).0
  unfolding control_from_link
  control_from_link-Serves known = elim (Bool-cases (byte == p.msg_soh)) [
    | inl start ↦ rw start (Serves-same h refl refl h.in_pool)
    | inr other ↦ elim (Bool-cases (byte == p.msg_ack)) [
      | inl ack ↦
          let used : ((msg_at c c.cur_msg).state == 0) ≡ false = ground arith in
          rw (other, ack) (rcv_link_ack-Serves p c h used now)
      | inr not_ack ↦ elim (Bool-cases (byte == p.msg_nak)) [
        | inl nak ↦
            let used : ((msg_at c c.cur_msg).state == 0) ≡ false = ground arith in
            rw (other, not_ack, nak) (rcv_link_nak-Serves p c h used)
        | inr not_nak ↦ rw (other, not_ack, not_nak) (Serves-refl h)
      ]
    ]
  ]

  byte_of_msg-Serves : Serves c (byte_of_msg p junk byte c)
  unfolding byte_of_msg
  byte_of_msg-Serves =
      let m : Buf = (buf_append_byte c.msg_in byte).0 in
      let d : Pccc = record c { msg_in = m } in
      let idle : Pccc = record c { msg_in = m; read_mode = mode_idle } in
      let kept : Serves c d = Serves-same h refl refl h.in_pool in
      let whole : Serves c idle = Serves-same h refl refl h.in_pool in
      if_either (λ e. Serves c e) (d.msg_in_len == m.len)
        (Serves-trans whole (parse_msg-Serves p junk idle whole.pool)) kept

  byte_in_mode-Serves :
      (mode : ReadMode)
      → is_stray p byte mode c ≡ false
      → Serves c (byte_in_mode p junk now byte mode c).0
  byte_in_mode-Serves mode_idle known = control_from_link-Serves known
  byte_in_mode-Serves mode_msg_len known = Serves-same h refl refl h.in_pool
  byte_in_mode-Serves mode_msg known = byte_of_msg-Serves

  pub byte_from_link-Serves :
      is_stray p byte c.read_mode c ≡ false → Serves c (byte_from_link p junk now byte c).0
  unfolding byte_from_link
  byte_from_link-Serves known = byte_in_mode-Serves c.read_mode known

-- Whether no byte that the loop treats is stray.
abbrev no_stray_on : (Pccc → Bool) → Pccc × Bool → Bool
no_stray_on rest (c, true) = true
no_stray_on rest (c, false) = rest c

abbrev no_stray_byte : Platform → ℕ → (ℕ → Option ℕ) → (Pccc → Bool) → Pccc → Buf × Option ℕ → Bool
no_stray_byte p junk now rest c (b, none) = true
no_stray_byte p junk now rest c (b, some byte) =
    let got : Pccc = record c { sock_in = b } in
    not (is_stray p byte got.read_mode got)
    && no_stray_on rest (byte_from_link p junk (now c.sock_in.index) byte got)

unfoldable no_stray_loop : ℕ → Platform → ℕ → (ℕ → Option ℕ) → Pccc → Bool
no_stray_loop zero p junk now c = true
no_stray_loop (suc fuel) p junk now c =
    no_stray_byte p junk now (λ d. no_stray_loop fuel p junk now d) c (buf_get_byte c.sock_in)

-- Of the bytes in `sock_in`, none is an ACK or a NAK for a message that is not in use.
unfoldable pub no_stray : Platform → ℕ → (ℕ → Option ℕ) → Pccc → Bool
unfolding no_stray_loop
no_stray p junk now c = no_stray_loop (suc c.sock_in.len) p junk now c

and_split : (a b : Bool) → (a && b) ≡ true → (a ≡ true) × (b ≡ true)
and_split true b e = (refl, e)
and_split false b e = cc

module _ (p : Platform) (junk : ℕ) (now : ℕ → Option ℕ) (rest : Pccc → Pccc × Ret)
    (calm : Pccc → Bool)
    (serves : (d : Pccc) → IsPool d → calm d ≡ true → Serves d (rest d).0) where
  loop_on-Serves :
      {c : Pccc} (r : Pccc × Bool)
      → Serves c r.0
      → no_stray_on calm r ≡ true
      → Serves c (loop_on rest r).0
  loop_on-Serves (d, true) s e = s
  loop_on-Serves (d, false) s e = Serves-trans s (serves d s.pool e)

  loop_byte-Serves :
      {c : Pccc} (r : Buf × Option ℕ)
      → IsPool c
      → no_stray_byte p junk now calm c r ≡ true
      → Serves c (loop_byte p junk now rest c r).0
  loop_byte-Serves {c} (b, none) h e = Serves-same h refl refl h.in_pool
  loop_byte-Serves {c} (b, some byte) h e =
      let got : Pccc = record c { sock_in = b } in
      let read : Serves c got = Serves-same h refl refl h.in_pool in
      let both = and_split (not (is_stray p byte got.read_mode got)) _ e in
      let known : is_stray p byte got.read_mode got ≡ false = ground (arith, both.0) in
      loop_on-Serves (byte_from_link p junk (now c.sock_in.index) byte got)
        (Serves-trans read
          (byte_from_link-Serves p junk (now c.sock_in.index) byte read.pool known))
        both.1

link_loop-Serves :
    (fuel : ℕ) (p : Platform) (junk : ℕ) (now : ℕ → Option ℕ) (c : Pccc)
    → IsPool c
    → no_stray_loop fuel p junk now c ≡ true
    → Serves c (link_loop fuel p junk now c).0
unfolding link_loop no_stray_loop
link_loop-Serves zero p junk now c h e = Serves-refl h
link_loop-Serves (suc fuel) p junk now c h e =
    loop_byte-Serves p junk now (λ d. link_loop fuel p junk now d)
      (λ d. no_stray_loop fuel p junk now d) (link_loop-Serves fuel p junk now)
      (buf_get_byte c.sock_in) h e

pub parse_link-Serves :
    (p : Platform) (junk : ℕ) (now : ℕ → Option ℕ) (c : Pccc)
    → IsPool c
    → no_stray p junk now c ≡ true
    → Serves c (parse_link p junk now c).0
unfolding parse_link no_stray
parse_link-Serves p junk now c h e = link_loop-Serves (suc c.sock_in.len) p junk now c h e
