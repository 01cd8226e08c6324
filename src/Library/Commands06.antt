-- ===== src/Library/Commands06.antt =====
-- lib/cmd_init_06.c: the commands with CMD 0x06. A null connection is `on_con`'s business.
use libpccc.Common.{ℕ, Option, none, some, ltb, ◌==◌, take}
use libpccc.Buf.{buf_append_byte, buf_append_word, buf_append_blob, ◌or_else◌}
use libpccc.Df1.State.{Platform}
use libpccc.Library.State.{msg_at, put_msg, to_echo, to_link_param}
use libpccc.Library.Reply.{peek, as_raw}
use libpccc.Library.Action.{ok, Action, ◌>>=◌, ◌>>◌, refuse_if, fill, is_null}
use libpccc.Library.Command.{cmd_init}
use libpccc.Library.Send.{Host, cmd_send}

-- `cmd->bytes = bytes;`
abbrev pub set_bytes : ℕ → ℕ → Action (Unit {0})
set_bytes i bytes c = (put_msg c i (record (msg_at c i) { bytes = bytes }), ok tt)

module _ (p : Platform) (host : Host) (notify : Option ℕ) (dnode : ℕ) where
  unfoldable pub pccc_cmd_echo : Option ℕ → ℕ → Action (Unit {0})
  unfolding cmd_init fill cmd_send
  pccc_cmd_echo udata bytes = do
    refuse_if (ltb 243 bytes) "Number of bytes too large"
    refuse_if (bytes == 0) "Number of bytes must not be zero"
    refuse_if (is_null udata) "Udata cannot be NULL"
    cmd ← cmd_init p notify (some to_echo) dnode udata 0x06 0x00
    λ c. fill cmd "pccc_cmd_Echo()" (λ b. buf_append_blob b (take bytes (as_raw (peek c udata)))) c
    set_bytes cmd bytes
    cmd_send p host cmd

  unfoldable pub pccc_cmd_set_variables : ℕ → ℕ → ℕ → Action (Unit {0})
  unfolding cmd_init fill cmd_send
  pccc_cmd_set_variables cycles naks enqs = do
    cmd ← cmd_init p notify none dnode none 0x06 0x02
    fill cmd "pccc_cmd_SetVariables()" (λ b.
        buf_append_byte b cycles
        or_else (λ b. buf_append_byte b naks)
        or_else (λ b. buf_append_byte b enqs))
    cmd_send p host cmd

  unfoldable pub pccc_cmd_set_timeout : ℕ → Action (Unit {0})
  unfolding cmd_init fill cmd_send
  pccc_cmd_set_timeout cycles = do
    cmd ← cmd_init p notify none dnode none 0x06 0x04
    fill cmd "pccc_cmd_SetTimeout()" (λ b. buf_append_byte b cycles)
    cmd_send p host cmd

  unfoldable pub pccc_cmd_set_naks : ℕ → Action (Unit {0})
  unfolding cmd_init fill cmd_send
  pccc_cmd_set_naks naks = do
    cmd ← cmd_init p notify none dnode none 0x06 0x05
    fill cmd "pccc_cmd_SetNAKs()" (λ b. buf_append_byte b naks)
    cmd_send p host cmd

  unfoldable pub pccc_cmd_set_enqs : ℕ → Action (Unit {0})
  unfolding cmd_init fill cmd_send
  pccc_cmd_set_enqs enqs = do
    cmd ← cmd_init p notify none dnode none 0x06 0x06
    fill cmd "pccc_cmd_ENQs()" (λ b. buf_append_byte b enqs)
    cmd_send p host cmd

  unfoldable pub pccc_cmd_read_link_param : Option ℕ → Action (Unit {0})
  unfolding cmd_init fill cmd_send
  pccc_cmd_read_link_param udata = do
    refuse_if (is_null udata) "Udata cannot be NULL"
    cmd ← cmd_init p notify (some to_link_param) dnode udata 0x06 0x09
    fill cmd "pccc_cmd_ReadLinkParam()"
        (λ b. buf_append_word p.endian b 0 or_else (λ b. buf_append_byte b 1))
    cmd_send p host cmd

  unfoldable pub pccc_cmd_set_link_param : ℕ → Action (Unit {0})
  unfolding cmd_init fill cmd_send
  pccc_cmd_set_link_param max = do
    cmd ← cmd_init p notify none dnode none 0x06 0x0a
    fill cmd "pccc_cmd_SetLinkParam()" (λ b.
        buf_append_word p.endian b 0
        or_else (λ b. buf_append_byte b 1)
        or_else (λ b. buf_append_byte b max))
    cmd_send p host cmd
