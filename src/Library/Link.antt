-- ===== src/Library/Link.antt =====
-- lib/pccc.c: the bytes that come from the link layer service. `now i` is what `time` returns when
-- the byte at index `i` of `sock_in` is treated: `none` is -1. `junk` is what a local variable
-- holds before it is written. Incoming commands are dropped by the code.
use libpccc.Common.{
  ℕ, zero, suc, ◌+◌, Bool, true, false, Option, none, some, ◌==◌, if◌then◌else◌, bit_or,
}
use libpccc.Buf.{Buf, buf_empty, buf_append_byte, buf_get_byte}
use libpccc.Ret.{Ret, success, efatal, ecmd_nodeliver, ecmd_reply}
use libpccc.Df1.State.{Platform}
use libpccc.Library.State.{
  Pccc, Msg, ReadMode, mode_idle, mode_msg_len, mode_msg, sys_error, msg_at, put_msg, notify, tell,
  msg_ack_rcvd, msg_reply_rcvd, msg_cmd_done,
}
use libpccc.Library.Message.{msg_flush, msg_is_reply, msg_find_cmd, msg_send_next}
use libpccc.Library.Status.{sts_check}
use libpccc.Library.Reply.{run_reply}

-- `ret != PCCC_SUCCESS`
abbrev pub is_error : Ret → Bool
is_error success = false
is_error _ = true

-- `sts_check(con, msg_in) || (reply && reply(...)) ? PCCC_ECMD_REPLY : PCCC_SUCCESS`
abbrev pub reply_ret : Pccc × Bool → Pccc × Ret
reply_ret (c, true) = (c, ecmd_reply)
reply_ret (c, false) = (c, success)

unfoldable pub check_reply : Platform → ℕ → Msg → Pccc → Pccc × Ret
unfolding sts_check run_reply
check_reply p junk m c =
    let (c', failed) = sts_check c c.msg_in in
    if failed then (c', ecmd_reply) else reply_ret (run_reply p junk m.reply c' m)

-- The message `i` has its result: the user is told if the ACK has come too, and otherwise the text
-- of an error is kept until it comes.
unfoldable pub settle_reply : ℕ → Msg → ℕ → Pccc × Ret → Pccc
unfolding msg_flush
settle_reply i m fn (c, ret) =
    let done : Msg = record m { result = ret } in
    let kept : Msg = if is_error ret then record done { errstr = c.errstr } else done in
    if m.state == msg_cmd_done
    then notify (put_msg c i (msg_flush done)) (some fn) ret m.udata
    else put_msg c i kept

-- What follows once a reply has been found to be the one to the command `i`, which is `m`, by
-- whether the command has a function to call.
unfoldable pub reply_to : Platform → ℕ → ℕ → Msg → Option ℕ → Pccc → Pccc
unfolding check_reply settle_reply
reply_to p junk i m none c = put_msg c i m
reply_to p junk i m (some fn) c =
    let c' : Pccc = put_msg c i m in
    settle_reply i m fn
      (check_reply p junk m (record c' { msg_in = record (c'.msg_in) { index = 6 } }))

abbrev pub with_bit : ℕ → Msg → Msg
with_bit bit m = record m { state = bit_or m.state bit }

unfoldable pub take_reply : Platform → ℕ → ℕ → Pccc → Pccc
unfolding reply_to
take_reply p junk i c =
    let m : Msg = with_bit msg_reply_rcvd (msg_at c i) in reply_to p junk i m m.notify c

-- The reply is acknowledged in any case.
unfoldable pub parse_msg : Platform → ℕ → Pccc → Pccc
unfolding msg_is_reply msg_find_cmd take_reply
parse_msg p junk c =
    let acked : Pccc = record c { sock_out = (buf_append_byte c.sock_out p.msg_ack).0 } in
    let answered : Pccc = elim (msg_find_cmd p c) [
      | none ↦ acked
      | some i ↦ take_reply p junk i acked
    ] in
    if msg_is_reply c then answered else c

-- The end of `rcv_ack`: the reply has come before the ACK.
unfoldable pub ack_done : ℕ → Msg → Pccc → Pccc
unfolding msg_flush
ack_done i m c =
    let c' : Pccc = put_msg c i (msg_flush m) in
    let told : Pccc = if is_error m.result then record c' { errstr = m.errstr } else c' in
    if m.state == msg_cmd_done then notify told m.notify m.result m.udata else put_msg c i m

-- `rcv_ack` on a command; `true` if `time` failed.
unfoldable pub ack_cmd : Option ℕ → ℕ → Msg → Option ℕ → Pccc → Pccc × Bool
unfolding ack_done
ack_cmd now i m none c = (ack_done i m c, false)
ack_cmd none i m (some fn) c = (record (put_msg c i m) { errstr = sys_error "time() failed" }, true)
ack_cmd (some t) i m (some fn) c = (ack_done i (record m { expires = t + c.timeout + 1 }) c, false)

-- Whether the acknowledged message is a command; a reply is done with.
unfoldable pub ack_msg : Bool → Option ℕ → ℕ → Msg → Pccc → Pccc × Bool
unfolding ack_cmd msg_flush
ack_msg true now i m c = ack_cmd now i m m.notify c
ack_msg false now i m c = (put_msg c i (msg_flush m), false)

-- Unless `time` failed, the next message is sent.
abbrev pub or_send_next : Platform → Pccc × Bool → Pccc × Bool
or_send_next p (c, true) = (c, true)
or_send_next p (c, false) = ((msg_send_next p c).0, false)

unfoldable pub rcv_link_ack : Platform → Option ℕ → Pccc → Pccc × Bool
unfolding ack_msg msg_send_next
rcv_link_ack p now c =
    let i : ℕ = c.cur_msg in
    let cur : Msg = msg_at c i in
    or_send_next p (ack_msg cur.is_cmd now i (with_bit msg_ack_rcvd cur) c)

-- `if (cur->is_cmd && (cur->notify != NULL)) cur->notify(...);`
abbrev pub tell_cmd : Bool → Option ℕ → Ret → Option ℕ → Pccc → Pccc
tell_cmd true fn ret udata c = tell fn ret udata c
tell_cmd false fn ret udata c = c

unfoldable pub rcv_link_nak : Platform → Pccc → Pccc
unfolding msg_flush msg_send_next
rcv_link_nak p c =
    let i : ℕ = c.cur_msg in
    let m : Msg = msg_at c i in
    (msg_send_next p
      (tell_cmd m.is_cmd m.notify ecmd_nodeliver m.udata (put_msg c i (msg_flush m)))).0

-- A byte outside of a message.
unfoldable pub control_from_link : Platform → Option ℕ → ℕ → Pccc → Pccc × Bool
unfolding buf_empty rcv_link_ack rcv_link_nak
control_from_link p now byte c =
    if byte == p.msg_soh
    then (record c { msg_in = buf_empty c.msg_in; read_mode = mode_msg_len }, false)
    else if byte == p.msg_ack
    then rcv_link_ack p now c
    else if byte == p.msg_nak
    then (rcv_link_nak p c, false)
    else (c, false)

-- A byte of a message.
unfoldable pub byte_of_msg : Platform → ℕ → ℕ → Pccc → Pccc
unfolding parse_msg
byte_of_msg p junk byte c =
    let c' : Pccc = record c { msg_in = (buf_append_byte c.msg_in byte).0 } in
    if c'.msg_in_len == c'.msg_in.len
    then parse_msg p junk (record c' { read_mode = mode_idle })
    else c'

-- What a byte is depends on the mode.
abbrev pub byte_in_mode : Platform → ℕ → Option ℕ → ℕ → ReadMode → Pccc → Pccc × Bool
byte_in_mode p junk now byte mode_idle c = control_from_link p now byte c
byte_in_mode p junk now byte mode_msg_len c =
    (record c { msg_in_len = byte; read_mode = mode_msg }, false)
byte_in_mode p junk now byte mode_msg c = (byte_of_msg p junk byte c, false)

unfoldable pub byte_from_link : Platform → ℕ → Option ℕ → ℕ → Pccc → Pccc × Bool
unfolding control_from_link byte_of_msg
byte_from_link p junk now byte c = byte_in_mode p junk now byte c.read_mode c

-- What follows a byte: the loop ends if `time` failed, and otherwise goes on.
abbrev pub loop_on : (Pccc → Pccc × Ret) → Pccc × Bool → Pccc × Ret
loop_on rest (c, true) = (c, efatal)
loop_on rest (c, false) = rest c

-- A round on what `buf_get_byte` gave.
abbrev pub loop_byte :
    Platform → ℕ → (ℕ → Option ℕ) → (Pccc → Pccc × Ret) → Pccc → Buf × Option ℕ → Pccc × Ret
loop_byte p junk now rest c (b, none) = (record c { sock_in = b }, success)
loop_byte p junk now rest c (b, some byte) =
    loop_on rest (byte_from_link p junk (now c.sock_in.index) byte (record c { sock_in = b }))

-- The loop on fuel: each round reads a byte of `sock_in`, which no round fills again.
unfoldable pub link_loop : ℕ → Platform → ℕ → (ℕ → Option ℕ) → Pccc → Pccc × Ret
unfolding buf_get_byte byte_from_link
link_loop zero p junk now c = (c, success)
link_loop (suc fuel) p junk now c =
    loop_byte p junk now (λ d. link_loop fuel p junk now d) c (buf_get_byte c.sock_in)

unfoldable pub parse_link : Platform → ℕ → (ℕ → Option ℕ) → Pccc → Pccc × Ret
unfolding link_loop
parse_link p junk now c = link_loop (suc c.sock_in.len) p junk now c
