-- ===== src/Library/Send.antt =====
-- lib/cmd_init.c: how a command is sent. A one-at-a-time command waits for its reply here; what its
-- socket does is an argument.

use libpccc.Common.{
  ℕ, Bool, true, false, not, Option, none, some, List, [], ◌∷◌, ◌==◌, if◌then◌else◌, bit_and,
}
use libpccc.Buf.{Io}
use libpccc.Ret.{Ret, success, efatal, ecmd_nodeliver, ecmd_timeout}
use libpccc.Codec.Arrays.{FileType}
use libpccc.Df1.State.{Platform}
use libpccc.Library.State.{
  Pccc, Msg, ReadMode, mode_idle, sys_error, msg_at, put_msg, msg_unused, msg_ack_rcvd,
  msg_reply_rcvd, msg_cmd_done,
}
use libpccc.Library.Message.{msg_flush, msg_send, msg_send_next}
use libpccc.Library.Link.{check_reply}
use libpccc.Library.Manage.{pccc_read, pccc_write}
use libpccc.Library.Action.{ok, err, minus_one, never, Action, ◌>>◌, call_ret}

-- A turn of the loop in which a one-at-a-time command waits: what `select` and `read` return, the
-- clock while the bytes are treated, and what `write` returns.
pub data Selected : Type 0 where
  select_failed timed_out readable : Selected

pub record Turn : Type 0 where
  pub select : Selected
  pub now : ℕ → Option ℕ
  pub reads : List (Io (List ℕ))
  pub writes : List (Io ℕ)

-- What a command takes from the host: what local variables hold before they are written, the sizes
-- of the element types, and the socket: the first `write`, and then the turns.
pub record Host : Type 0 where
  pub junk : ℕ
  pub sizeof : FileType → ℕ
  pub writes : List (Io ℕ)
  pub turns : List Turn

abbrev pub is_idle : ReadMode → Bool
is_idle mode_idle = true
is_idle _ = false

unfoldable pub oaat_timeout : Selected → ℕ → Pccc → Pccc × Ret
unfolding msg_flush
oaat_timeout selected i c =
    let selects : Pccc × Ret = elim selected [
      | select_failed ↦ (record c { errstr = sys_error "select() failed" }, efatal)
      | timed_out ↦ (put_msg c i (msg_flush (msg_at c i)), ecmd_timeout)
      | readable ↦ (c, success)
    ] in
    if bit_and (msg_at c i).state msg_ack_rcvd == 0
    then (c, success)
    else if not (is_idle c.read_mode)
    then (c, success)
    else selects

-- What the turn finds in the state of the command: whether the loop ends. (`ack_sent` is zero
-- wherever it is tested.)
unfoldable pub after_read : List (Io ℕ) → ℕ → Action Bool
unfolding pccc_write
after_read writes i c =
    let state : ℕ = (msg_at c i).state in
    if state == msg_unused
    then (c, err ecmd_nodeliver)
    else if not (bit_and state msg_reply_rcvd == 0)
    then (do call_ret (pccc_write writes); λ c. (c, ok true)) c
    else if state == msg_cmd_done
    then (c, ok true)
    else (c, ok false)

unfoldable pub oaat_turn : Platform → ℕ → ℕ → Turn → Action Bool
unfolding oaat_timeout pccc_read after_read
oaat_turn p junk i t = do
  call_ret (oaat_timeout t.select i)
  call_ret (pccc_read p junk t.now t.reads)
  after_read t.writes i

-- `for (;;)`; with no turn left the call never returns.
unfoldable pub oaat_loop : Platform → ℕ → ℕ → List Turn → Action (Unit {0})
unfolding oaat_turn
oaat_loop p junk i [] c = (c, never)
oaat_loop p junk i (t ∷ turns) c =
    let (c', stop) = oaat_turn p junk i t c in
    elim stop [
      | ok true ↦ (c', ok tt)
      | ok false ↦ oaat_loop p junk i turns c'
      | err ret ↦ (c', err ret)
      | minus_one ↦ (c', minus_one)
      | never ↦ (c', never)
    ]

-- What follows the loop: the reply in `msg_in` is parsed.
unfoldable pub oaat_result : Platform → ℕ → ℕ → Action (Unit {0})
unfolding msg_flush check_reply
oaat_result p junk i c =
    let cmd : Msg = msg_flush (msg_at c i) in
    call_ret (check_reply p junk cmd)
      (record (put_msg c i cmd) { msg_in = record (c.msg_in) { index = 6 } })

unfoldable pub send_oaat : Platform → Host → ℕ → Action (Unit {0})
unfolding msg_send pccc_write oaat_loop oaat_result
send_oaat p host i = do
  call_ret (λ c. msg_send p (record c { cur_msg = i }))
  call_ret (pccc_write host.writes)
  oaat_loop p host.junk i host.turns
  oaat_result p host.junk i

unfoldable pub cmd_send : Platform → Host → ℕ → Action (Unit {0})
unfolding send_oaat msg_send_next
cmd_send p host i c = elim (msg_at c i).notify [
  | none ↦ send_oaat p host i c
  | some fn ↦ call_ret (msg_send_next p) c
]
