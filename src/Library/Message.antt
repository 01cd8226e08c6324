-- ===== src/Library/Message.antt =====
-- lib/msg.c: the pool of messages, and the fields of the header of a message.
use libpccc.Common.{
  ℕ, zero, suc, ◌+◌, ◌-◌, ◌^◌, ◌%◌, Bool, not, ◌&&◌, Option, none, some, List, [], ◌∷◌, length,
  get_or, set, ltb, ◌==◌, if◌then◌else◌, bit_and, u8,
}
use libpccc.ByteOrder.{ltohs, load16}
use libpccc.Buf.{Buf, buf_new, buf_empty, buf_append_byte, buf_append_buf, ◌or_else◌}
use libpccc.Ret.{Ret, success, elink, eoverflow}
use libpccc.Df1.State.{Platform}
use libpccc.Library.State.{
  Pccc, Msg, msg_at, put_msg, tell, plain, buf_size, msg_unused, msg_pend, msg_tx,
}

unfoldable pub msg_flush : Msg → Msg
unfolding buf_empty
msg_flush m = record m { state = msg_unused; expires = 0; buf = buf_empty m.buf }

-- A message with its buffer, before those that follow it, where both could be had.
abbrev pub init_one : Msg → Option Buf → Option (List Msg) → Option (List Msg)
init_one m none rest = none
init_one m (some b) none = none
init_one m (some b) (some ms) = some (msg_flush (record m { buf = b }) ∷ ms)

-- `msgs` is what `malloc` gives for the array, and `blocks` what it gives for each buffer. When
-- it fails the connection is abandoned, which is `none`.
unfoldable pub init_all : List Msg → List (Option (List ℕ)) → Option (List Msg)
unfolding buf_new msg_flush
init_all [] blocks = some []
init_all (m ∷ ms) [] = none
init_all (m ∷ ms) (block ∷ blocks) = init_one m (buf_new block buf_size) (init_all ms blocks)

unfoldable pub msg_init : Option (List Msg) → List (Option (List ℕ)) → Option (List Msg)
unfolding init_all
msg_init none blocks = none
msg_init (some msgs) blocks = init_all msgs blocks

-- The index of the first unused message, counted from `i`.
unfoldable pub free_from : ℕ → List Msg → Option ℕ
free_from i [] = none
free_from i (m ∷ ms) =
    let rest : Option ℕ = free_from (i + 1) ms in if m.state == msg_unused then some i else rest

abbrev pub taken : Pccc → Option ℕ → Pccc × Option ℕ
taken c none = (c, none)
taken c (some i) = (put_msg c i (record (msg_at c i) { state = msg_pend }), some i)

unfoldable pub msg_get_free : Pccc → Pccc × Option ℕ
unfolding free_from
msg_get_free c = taken c (free_from 0 c.msgs)

-- SOH, the length and the current message go to the socket's buffer.
unfoldable pub frame : Platform → Msg → Buf → Buf × Bool
frame p m out =
    buf_append_byte out p.msg_soh
    or_else (λ b. buf_append_byte b (u8 m.buf.len))
    or_else (λ b. buf_append_buf b m.buf)

unfoldable pub msg_send : Platform → Pccc → Pccc × Ret
unfolding frame
msg_send p c =
    let m : Msg = msg_at c c.cur_msg in
    let (out, failed) = frame p m c.sock_out in
    if failed then (record c { sock_out = out; errstr = plain "msg_send()" }, eoverflow) else (
      record c { sock_out = out; msgs = set c.msgs c.cur_msg (record m { state = msg_tx }) },
      success,
    )

-- A byte of the message that came in.
abbrev pub byte_at : Buf → ℕ → ℕ
byte_at b i = get_or b.cells i 0

unfoldable pub msg_is_reply : Pccc → Bool
msg_is_reply c = not (bit_and (byte_at c.msg_in 2) 0x40 == 0)

-- `msg->len - 6` is a `size_t`.
unfoldable pub msg_get_len : Buf → ℕ
msg_get_len b = (b.len + 2 ^ 64 - 6) % 2 ^ 64

unfoldable pub msg_get_src : Buf → ℕ
msg_get_src b = byte_at b 1

unfoldable pub msg_get_cmd : Buf → ℕ
msg_get_cmd b = bit_and (byte_at b 2) 0x0f

unfoldable pub msg_get_tns : Platform → Buf → ℕ
msg_get_tns p b = ltohs p.endian (load16 p.endian (byte_at b 4) (byte_at b 5))

unfoldable pub msg_get_sts : Buf → ℕ
msg_get_sts b = byte_at b 3

unfoldable pub msg_get_ext_sts : Buf → ℕ
msg_get_ext_sts b = byte_at b 6

unfoldable pub msg_get_owner_node : Buf → Option ℕ
msg_get_owner_node b = if ltb b.len 6 then none else some (byte_at b 5)

-- The first command in use that has the transaction number.
abbrev pub awaits : ℕ → Msg → Bool
awaits tns m = not (m.state == msg_unused) && m.is_cmd && m.tns == tns

unfoldable pub find_cmd_from : ℕ → ℕ → List Msg → Option ℕ
find_cmd_from i tns [] = none
find_cmd_from i tns (m ∷ ms) =
    let rest : Option ℕ = find_cmd_from (i + 1) tns ms in if awaits tns m then some i else rest

unfoldable pub msg_find_cmd : Platform → Pccc → Option ℕ
unfolding find_cmd_from msg_get_tns
msg_find_cmd p c = find_cmd_from 0 (msg_get_tns p c.msg_in) c.msgs

-- `if (p->cur_msg == last) p->cur_msg = p->msgs; else p->cur_msg++;`
abbrev pub next_msg : Pccc → Pccc
next_msg c = record c { cur_msg = if c.cur_msg == length c.msgs - 1 then 0 else c.cur_msg + 1 }

-- The loop, with `i` rounds left.
unfoldable pub send_next_loop : ℕ → Platform → Pccc → Pccc × Ret
unfolding msg_send
send_next_loop zero p c = (c, success)
send_next_loop (suc i) p c =
    let rest : Pccc × Ret = send_next_loop i p (next_msg c) in
    if (msg_at c c.cur_msg).state == msg_pend then msg_send p c else rest

unfoldable pub msg_send_next : Platform → Pccc → Pccc × Ret
unfolding send_next_loop
msg_send_next p c =
    if (msg_at c c.cur_msg).state == msg_tx
    then (c, success)
    else send_next_loop (length c.msgs) p (next_msg c)

-- The text that goes with a notification.
abbrev pub closed_text : Option ℕ → Pccc → Pccc
closed_text none c = c
closed_text (some fn) c = record c { errstr = plain "Connection closed" }

-- One round of the loop of `msg_abort_all`.
unfoldable pub abort_msg : Pccc → ℕ → Pccc
unfolding msg_flush
abort_msg c i =
    let m : Msg = msg_at c i in
    let told : Pccc = tell m.notify elink m.udata (closed_text m.notify c) in
    if m.state == msg_unused then c else put_msg told i (msg_flush m)

-- The loop over the messages from `i` on, of which `n` are left.
unfoldable pub abort_from : ℕ → ℕ → Pccc → Pccc
unfolding abort_msg
abort_from zero i c = c
abort_from (suc n) i c = abort_from n (i + 1) (abort_msg c i)

unfoldable pub msg_abort_all : Pccc → Pccc
unfolding abort_from
msg_abort_all c = abort_from (length c.msgs) 0 c
