-- ===== src/Library/Input.antt =====
-- lib/pccc.c: nothing that parse_link calls touches sock_in.
use libpccc.Common.{
  ℕ, zero, suc, ◌+◌, ◌≡◌, inl, inr, refl, ◌∙◌, Bool, true, false, Option, none, some, Option-cases,
  length, arith, ◌==◌, if_either,
}
use libpccc.Buf.{Buf, buf_append_byte}
use libpccc.Ret.{Ret, ecmd_nodeliver}
use libpccc.Df1.State.{Platform}
use libpccc.Library.State.{Pccc, Msg, ReadMode, mode_idle, mode_msg_len, mode_msg, put_msg, msg_at}
use libpccc.Library.Message.{
  frame, msg_send, next_msg, send_next_loop, msg_send_next, msg_is_reply, msg_find_cmd, msg_flush,
}
use libpccc.Library.Link.{
  check_reply, settle_reply, reply_to, take_reply, parse_msg, ack_done, ack_cmd, ack_msg,
  or_send_next, rcv_link_ack, tell_cmd, rcv_link_nak, control_from_link, byte_of_msg, byte_in_mode,
  byte_from_link, with_bit,
}
use libpccc.Library.Ledger.Reply.{check_reply-Keeps}

-- The same unread bytes.
abbrev SameIn : Pccc → Pccc → Type 0
SameIn c d = d.sock_in ≡ c.sock_in

module _ (p : Platform) where
  msg_send-SameIn : (c : Pccc) → SameIn c (msg_send p c).0
  unfolding msg_send
  msg_send-SameIn c =
      if_either (λ (r : Pccc × Ret). SameIn c r.0) (frame p (msg_at c c.cur_msg) c.sock_out).1 refl
        refl

  send_next_loop-SameIn : (n : ℕ) (c : Pccc) → SameIn c (send_next_loop n p c).0
  unfolding send_next_loop
  send_next_loop-SameIn zero c = refl
  send_next_loop-SameIn (suc n) c =
      if_either (λ (r : Pccc × Ret). SameIn c r.0) ((msg_at c c.cur_msg).state == 1)
        (msg_send-SameIn c) (send_next_loop-SameIn n (next_msg c))

  msg_send_next-SameIn : (c : Pccc) → SameIn c (msg_send_next p c).0
  unfolding msg_send_next
  msg_send_next-SameIn c =
      if_either (λ (r : Pccc × Ret). SameIn c r.0) ((msg_at c c.cur_msg).state == 2) refl
        (send_next_loop-SameIn (length c.msgs) (next_msg c))

  settle_reply-SameIn :
      (i : ℕ) (m : Msg) (fn : ℕ) (r : Pccc × Ret) → SameIn r.0 (settle_reply i m fn r)
  unfolding settle_reply
  settle_reply-SameIn i m fn (c, ret) = if_either (λ d. SameIn c d) (m.state == 14) refl refl

  reply_to-SameIn :
      (junk i : ℕ) (m : Msg) (fn : Option ℕ) (c : Pccc) → SameIn c (reply_to p junk i m fn c)
  unfolding reply_to
  reply_to-SameIn junk i m none c = refl
  reply_to-SameIn junk i m (some fn) c =
      let asked : Pccc = record (put_msg c i m) { msg_in = record (c.msg_in) { index = 6 } } in
      settle_reply-SameIn i m fn (check_reply p junk m asked)
      ∙ (check_reply-Keeps p junk m asked).sock_in

  parse_msg-SameIn : (junk : ℕ) (c : Pccc) → SameIn c (parse_msg p junk c)
  unfolding parse_msg take_reply
  parse_msg-SameIn junk c =
      if_either (λ d. SameIn c d) (msg_is_reply c)
        (elim (Option-cases (msg_find_cmd p c)) [
          | inl unknown ↦ rw unknown refl
          | inr (i, e) ↦ rw e (
              reply_to-SameIn junk i (with_bit 8 (msg_at c i)) (msg_at c i).notify
                (record c { sock_out = (buf_append_byte c.sock_out p.msg_ack).0 }))
        ])
        refl

  ack_done-SameIn : (i : ℕ) (m : Msg) (c : Pccc) → SameIn c (ack_done i m c)
  unfolding ack_done
  ack_done-SameIn i m c = ground arith

  ack_cmd-SameIn :
      (now : Option ℕ) (i : ℕ) (m : Msg) (fn : Option ℕ) (c : Pccc)
      → SameIn c (ack_cmd now i m fn c).0
  unfolding ack_cmd
  ack_cmd-SameIn now i m none c = ack_done-SameIn i m c
  ack_cmd-SameIn none i m (some fn) c = refl
  ack_cmd-SameIn (some t) i m (some fn) c =
      ack_done-SameIn i (record m { expires = t + c.timeout + 1 }) c

  ack_msg-SameIn :
      (cmd : Bool) (now : Option ℕ) (i : ℕ) (m : Msg) (c : Pccc)
      → SameIn c (ack_msg cmd now i m c).0
  unfolding ack_msg
  ack_msg-SameIn false now i m c = refl
  ack_msg-SameIn true now i m c = ack_cmd-SameIn now i m m.notify c

  or_send_next-SameIn : (c : Pccc) (r : Pccc × Bool) → SameIn c r.0 → SameIn c (or_send_next p r).0
  or_send_next-SameIn c (d, true) s = s
  or_send_next-SameIn c (d, false) s = msg_send_next-SameIn d ∙ s

  tell_cmd-SameIn :
      (cmd : Bool) (fn : Option ℕ) (ret : Ret) (udata : Option ℕ) (c : Pccc)
      → SameIn c (tell_cmd cmd fn ret udata c)
  tell_cmd-SameIn false fn ret udata c = refl
  tell_cmd-SameIn true none ret udata c = refl
  tell_cmd-SameIn true (some fn) ret udata c = refl

  rcv_link_ack-SameIn : (now : Option ℕ) (c : Pccc) → SameIn c (rcv_link_ack p now c).0
  unfolding rcv_link_ack
  rcv_link_ack-SameIn now c =
      let m : Msg = msg_at c c.cur_msg in
      or_send_next-SameIn c (ack_msg m.is_cmd now c.cur_msg (with_bit 4 m) c)
        (ack_msg-SameIn m.is_cmd now c.cur_msg (with_bit 4 m) c)

  rcv_link_nak-SameIn : (c : Pccc) → SameIn c (rcv_link_nak p c)
  unfolding rcv_link_nak
  rcv_link_nak-SameIn c =
      let m : Msg = msg_at c c.cur_msg in
      let flushed : Pccc = put_msg c c.cur_msg (msg_flush m) in
      msg_send_next-SameIn (tell_cmd m.is_cmd m.notify ecmd_nodeliver m.udata flushed)
      ∙ tell_cmd-SameIn m.is_cmd m.notify ecmd_nodeliver m.udata flushed

  control_from_link-SameIn :
      (now : Option ℕ) (byte : ℕ) (c : Pccc) → SameIn c (control_from_link p now byte c).0
  unfolding control_from_link
  control_from_link-SameIn now byte c =
      if_either (λ (r : Pccc × Bool). SameIn c r.0) (byte == p.msg_soh) refl
        (if_either (λ (r : Pccc × Bool). SameIn c r.0) (byte == p.msg_ack)
          (rcv_link_ack-SameIn now c)
          (if_either (λ (r : Pccc × Bool). SameIn c r.0) (byte == p.msg_nak) (rcv_link_nak-SameIn c)
            refl))

  byte_of_msg-SameIn : (junk byte : ℕ) (c : Pccc) → SameIn c (byte_of_msg p junk byte c)
  unfolding byte_of_msg
  byte_of_msg-SameIn junk byte c =
      let m : Buf = (buf_append_byte c.msg_in byte).0 in
      let d : Pccc = record c { msg_in = m } in
      if_either (λ e. SameIn c e) (d.msg_in_len == m.len)
        (parse_msg-SameIn junk (record c { msg_in = m; read_mode = mode_idle })) refl

  byte_in_mode-SameIn :
      (junk : ℕ) (now : Option ℕ) (byte : ℕ) (mode : ReadMode) (c : Pccc)
      → SameIn c (byte_in_mode p junk now byte mode c).0
  byte_in_mode-SameIn junk now byte mode_idle c = control_from_link-SameIn now byte c
  byte_in_mode-SameIn junk now byte mode_msg_len c = refl
  byte_in_mode-SameIn junk now byte mode_msg c = byte_of_msg-SameIn junk byte c

  pub byte_from_link-SameIn :
      (junk : ℕ) (now : Option ℕ) (byte : ℕ) (c : Pccc)
      → SameIn c (byte_from_link p junk now byte c).0
  unfolding byte_from_link
  byte_from_link-SameIn junk now byte c = byte_in_mode-SameIn junk now byte c.read_mode c
