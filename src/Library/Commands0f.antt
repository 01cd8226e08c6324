-- ===== src/Library/Commands0f.antt =====
-- lib/cmd_init_0f.c: the other commands with CMD 0x0f. A null connection is `on_con`'s business.
use Prim.Native.String.{String}
use libpccc.Common.{
  ℕ, zero, suc, get_or, ◌+◌, ◌-◌, ◌%◌, ◌^◌, true, false, not, Option, none, some, List, ltb, ◌==◌,
  bit_and,
}
use libpccc.ByteOrder.{htols}
use libpccc.Buf.{Buf, buf_append_byte, buf_append_word, ◌or_else◌}
use libpccc.Ret.{Ret}
use libpccc.Addr.{PlcAddr, other, addr_enc_plc}
use libpccc.Df1.State.{Platform}
use libpccc.Library.State.{msg_at, put_msg, to_slc_file_info}
use libpccc.Library.Message.{msg_flush}
use libpccc.Library.Action.{
  ok, err, minus_one, never, Action, ◌>>=◌, ◌>>◌, refuse, refuse_if, fill, fill_by, is_null,
}
use libpccc.Library.Command.{cmd_init}
use libpccc.Library.Send.{Host, cmd_send}

-- PCCC_MODE_T
pub data Mode : Type 0 where
  mode_prog mode_run mode_test_cont mode_test_single mode_test_debug : Mode
  mode_rem_test mode_rem_run : Mode

abbrev pub plc_addr : Platform → PlcAddr → Buf → Buf × Option Ret
plc_addr p addr b = let (b', ret) = addr_enc_plc p.endian b addr in (b', some ret)

-- The `switch` over the modes: what each command sends for a mode, or refuses.
abbrev pub micrologix_mode : Mode → Option ℕ
micrologix_mode mode_prog = some 0x01
micrologix_mode mode_run = some 0x02
micrologix_mode _ = none

abbrev pub slc500_mode : Mode → Option ℕ
slc500_mode mode_prog = some 0x01
slc500_mode mode_run = some 0x06
slc500_mode mode_test_cont = some 0x07
slc500_mode mode_test_single = some 0x08
slc500_mode mode_test_debug = some 0x09
slc500_mode _ = none

abbrev pub cpu_mode : Mode → Option ℕ
cpu_mode mode_prog = some 0x00
cpu_mode mode_rem_test = some 0x01
cpu_mode mode_rem_run = some 0x02
cpu_mode _ = none

abbrev pub or_refuse : Option ℕ → String → Action ℕ
or_refuse none text c = refuse text c
or_refuse (some x) text c = (c, ok x)

module _ (p : Platform) (host : Host) (notify : Option ℕ) (dnode : ℕ) where
  -- The two words are appended in the host's order.
  unfoldable pub pccc_cmd_bit_write : Option PlcAddr → ℕ → ℕ → Action (Unit {0})
  unfolding cmd_init fill fill_by cmd_send
  pccc_cmd_bit_write none set reset = refuse "Address pointer cannot be NULL"
  pccc_cmd_bit_write (some addr) set reset = do
    refuse_if (not (bit_and set reset == 0)) "Bits must be mutually exclusive in masks"
    cmd ← cmd_init p notify none dnode none 0x0f 0x02
    fill_by cmd (plc_addr p addr)
    fill cmd "pccc_cmd_BitWrite()"
        (λ b. buf_append_word p.endian b set or_else (λ b. buf_append_word p.endian b reset))
    cmd_send p host cmd

  unfoldable pub pccc_cmd_change_mode_micrologix1000 : Mode → Action (Unit {0})
  unfolding cmd_init fill cmd_send
  pccc_cmd_change_mode_micrologix1000 mode = do
    mode_val ← or_refuse (micrologix_mode mode) "Command does not support selected processor mode"
    cmd ← cmd_init p notify none dnode none 0x0f 0x3a
    fill cmd "pccc_cmd_ChangeModeMicroLogix1000()" (λ b. buf_append_byte b mode_val)
    cmd_send p host cmd

  unfoldable pub pccc_cmd_change_mode_slc500 : Mode → Action (Unit {0})
  unfolding cmd_init fill cmd_send
  pccc_cmd_change_mode_slc500 mode = do
    mode_val ← or_refuse (slc500_mode mode) "Command does not support selected processor mode"
    cmd ← cmd_init p notify none dnode none 0x0f 0x80
    fill cmd "pccc_cmd_ChangeModeSLC500()" (λ b. buf_append_byte b mode_val)
    cmd_send p host cmd

  unfoldable pub pccc_cmd_set_cpu_mode : Mode → Action (Unit {0})
  unfolding cmd_init fill cmd_send
  pccc_cmd_set_cpu_mode mode = do
    mode_val ← or_refuse (cpu_mode mode) "Command does not support selected processor mode"
    cmd ← cmd_init p notify none dnode none 0x0f 0x3a
    fill cmd "pccc_cmd_SetCPUMode()" (λ b. buf_append_byte b mode_val)
    cmd_send p host cmd

  unfoldable pub pccc_cmd_read_slc_file_info : Option ℕ → ℕ → Action (Unit {0})
  unfolding cmd_init fill cmd_send
  pccc_cmd_read_slc_file_info udata file_num = do
    refuse_if (is_null udata) "Udata cannot be NULL"
    cmd ← cmd_init p notify (some to_slc_file_info) dnode udata 0x0f 0x94
    fill cmd "pccc_cmd_ReadSLCFileInfo()" (λ b.
        buf_append_byte b 0x06
        or_else (λ b. buf_append_byte b 0x80)
        or_else (λ b. buf_append_byte b file_num))
    cmd_send p host cmd

  unfoldable pub pccc_cmd_disable_forces : Action (Unit {0})
  unfolding cmd_init cmd_send
  pccc_cmd_disable_forces = do
    cmd ← cmd_init p notify none dnode none 0x0f 0x41
    cmd_send p host cmd

  -- The loop over the sets from `i` on, of which `n` are left. The test of the length comes after
  -- the set has been appended; `len - 7` is a `size_t`.
  unfoldable pub sets_loop : ℕ → ℕ → ℕ → List PlcAddr → List ℕ → List ℕ → Action (Unit {0})
  unfolding fill fill_by msg_flush
  sets_loop zero i cmd addrs ands ors c = (c, ok tt)
  sets_loop (suc n) i cmd addrs ands ors c =
      let (c', one) =
        (do
          fill_by cmd (plc_addr p (get_or addrs i other))
          fill cmd "pccc_cmd_ReadModifyWrite()" (λ b.
              buf_append_word p.endian b (htols p.endian (get_or ands i 0))
              or_else (λ b. buf_append_word p.endian b (htols p.endian (get_or ors i 0)))))
          c in
      let data_len : ℕ = ((msg_at c' cmd).buf.len + 2 ^ 64 - 7) % 2 ^ 64 in
      elim one [
        | ok done ↦ elim (ltb 243 data_len) [
          | true ↦
              refuse "Number of sets exceeded maximum command size"
                (put_msg c' cmd (msg_flush (msg_at c' cmd)))
          | false ↦ sets_loop n (i + 1) cmd addrs ands ors c'
        ]
        | err ret ↦ (c', err ret)
        | minus_one ↦ (c', minus_one)
        | never ↦ (c', never)
      ]

  -- The three arrays have `sets` elements each.
  unfoldable pub pccc_cmd_read_modify_write :
      Option (List PlcAddr) → Option (List ℕ) → Option (List ℕ) → ℕ → Action (Unit {0})
  unfolding cmd_init sets_loop cmd_send
  pccc_cmd_read_modify_write none ands ors sets = refuse "Address pointer cannot be NULL"
  pccc_cmd_read_modify_write (some addrs) none ors sets = refuse "AND mask pointer cannot be NULL"
  pccc_cmd_read_modify_write (some addrs) (some ands) none sets =
      refuse "OR mask pointer cannot be NULL"
  pccc_cmd_read_modify_write (some addrs) (some ands) (some ors) sets = do
    refuse_if (sets == 0) "Number of sets must be non-zero"
    cmd ← cmd_init p notify none dnode none 0x0f 0x26
    sets_loop sets 0 cmd addrs ands ors
    cmd_send p host cmd
