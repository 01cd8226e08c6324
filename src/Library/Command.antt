-- ===== src/Library/Command.antt =====
-- lib/cmd_init.c: how a command is started.

use libpccc.Common.{
  ℕ, true, false, ◌+◌, Bool, true, not, ◌||◌, Option, none, some, ◌==◌, if◌then◌else◌, u16,
}
use libpccc.ByteOrder.{htols}
use libpccc.Buf.{Buf, buf_append_byte, buf_append_word, ◌or_else◌}
use libpccc.Ret.{elink, eoverflow, ecmd_nobuf}
use libpccc.Df1.State.{Platform}
use libpccc.Library.State.{Pccc, Msg, Handler, plain, msg_at, put_msg}
use libpccc.Library.Message.{msg_get_free, msg_flush}
use libpccc.Library.Action.{Outcome, ok, err, Action}

-- The header of a command, and its FNC byte if the command has one.
abbrev pub has_fnc : ℕ → Bool
has_fnc cmd =
    not (cmd == 0x00 || cmd == 0x01 || cmd == 0x02 || cmd == 0x04 || cmd == 0x05 || cmd == 0x08)

unfoldable pub cmd_header : Platform → ℕ → ℕ → ℕ → ℕ → Buf → Buf × Bool
cmd_header p dnode src_addr cmd tns buf =
    buf_append_byte buf dnode
    or_else (λ b. buf_append_byte b src_addr)
    or_else (λ b. buf_append_byte b cmd)
    or_else (λ b. buf_append_byte b 0)
    or_else (λ b. buf_append_word p.endian b (htols p.endian tns))

-- The `switch` after the header: the FNC byte is appended in any case.
abbrev pub with_fnc : ℕ → ℕ → Buf × Bool → Buf × Bool
with_fnc cmd func (b, overflow) =
    let (b', o) = buf_append_byte b func in
    if has_fnc cmd then (b', overflow || o) else (b, overflow)

-- The fields that `cmd_init` sets in the message it got.
abbrev pub started : Option ℕ → Option Handler → Option ℕ → ℕ → Msg → Msg
started notify reply udata tns m = record m {
  is_cmd = true;
  udata = udata;
  notify = notify;
  reply = reply;
  tns = tns;
}

-- The end of `cmd_init`, with the message's buffer and whether it overflowed.
abbrev pub filled : ℕ → Msg → Pccc → Buf × Bool → Pccc × Outcome ℕ
filled i m c (b, true) = (
  record (put_msg c i (msg_flush (record m { buf = b }))) { errstr = plain "cmd_init()" },
  err eoverflow,
)
filled i m c (b, false) = (put_msg c i (record m { buf = b }), ok i)

-- The message that `msg_get_free` gave, if any, is filled.
abbrev pub begun :
    Platform → Option ℕ → Option Handler → ℕ → Option ℕ → ℕ → ℕ → Pccc × Option ℕ → Pccc × Outcome ℕ
begun p notify reply dnode udata cmd func (c, none) = (c, err ecmd_nobuf)
begun p notify reply dnode udata cmd func (c, some i) =
    let m : Msg = started notify reply udata c.tns (msg_at c i) in
    filled i m (record c { tns = u16 (c.tns + 1) })
      (with_fnc cmd func (cmd_header p dnode c.src_addr cmd m.tns m.buf))

-- The index of the message that was started.
unfoldable pub cmd_init : Platform → Option ℕ → Option Handler → ℕ → Option ℕ → ℕ → ℕ → Action ℕ
unfolding msg_get_free cmd_header msg_flush
cmd_init p notify reply dnode udata cmd func con =
    if not con.connected
    then (record con { errstr = plain "Not connected" }, err elink)
    else begun p notify reply dnode udata cmd func (msg_get_free con)
