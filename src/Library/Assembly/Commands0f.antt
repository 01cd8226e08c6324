-- ===== src/Library/Assembly/Commands0f.antt =====
-- lib/cmd_init_0f.c: each command on bits, modes and files assembles the message that it should.
use libpccc.Common.{ℕ, refl, subst, Option, none, some}
use Prim.Native.String.{String}
use libpccc.Buf.{buf_append_byte}
use libpccc.Buf.Encode.{byte-Appends}
use libpccc.Df1.State.{Platform}
use libpccc.Library.State.{Pccc}
use libpccc.Library.Action.{◌>>=◌, ◌>>◌, fill}
use libpccc.Library.Command.{cmd_init}
use libpccc.Library.Send.{Host, cmd_send}
use libpccc.Library.Request.{
  Request, ask_micrologix_mode, ask_slc500_mode, ask_cpu_mode, ask_file_info, ask_disable_forces,
  run, wire, with_code,
}
use libpccc.Library.Commands0f.{
  Mode, micrologix_mode, slc500_mode, cpu_mode, or_refuse, pccc_cmd_change_mode_micrologix1000,
  pccc_cmd_change_mode_slc500, pccc_cmd_set_cpu_mode, pccc_cmd_read_slc_file_info,
  pccc_cmd_disable_forces,
}
use libpccc.Library.Assembly.{little, >>=-ok}
use libpccc.Library.Assembly.Init.{cmd_init-Assembled}
use libpccc.Library.Assembly.Handles.{Ready, Handles, refuse-Handles, simple-Handles, bytes_3}
use libpccc.Library.Assembly.Modes.{
  micrologix_mode-micrologix_code, slc500_mode-slc500_code, cpu_mode-cpu_code,
}

module _ (p : Platform) (host : Host) (fn : Option ℕ) (dnode : ℕ) {c : Pccc} {i : ℕ}
    (r : Ready c i) where
  abbrev Good : Request → Type 0
  Good q = Handles p host fn dnode r (wire c.mem q) (run (little p) host fn dnode q)

  pub file_info-Good : (udata : Option ℕ) (file : ℕ) → Good (ask_file_info udata file)
  unfolding pccc_cmd_read_slc_file_info
  file_info-Good none file = refuse-Handles p host fn dnode r "Udata cannot be NULL"
  file_info-Good (some q) file =
      simple-Handles p host fn dnode r _ "pccc_cmd_ReadSLCFileInfo()" _ refl refl
        (λ b v. bytes_3 v 0x06 0x80 file)

  pub disable_forces-Good : Good ask_disable_forces
  unfolding pccc_cmd_disable_forces
  disable_forces-Good short =
      let s = cmd_init-Assembled p fn none dnode none 0x0f 0x41 c r.pool r.up r.small i r.free in
      record {
        assembled = s.0;
        holds = s.2;
        sends =
            >>=-ok (cmd_init (little p) fn none dnode none 0x0f 0x41) (cmd_send (little p) host)
              {c = c} s.1;
      }

  -- A mode that has a code is sent, and another refused.
  pub code-Good :
      (label : String) (func : ℕ) (code : Option ℕ)
      → Handles p host fn dnode r (with_code code func) (do
        mode_val ← or_refuse code "Command does not support selected processor mode"
        cmd ← cmd_init (little p) fn none dnode none 0x0f func
        fill cmd label (λ b. buf_append_byte b mode_val)
        cmd_send (little p) host cmd)
  code-Good label func none =
      refuse-Handles p host fn dnode r "Command does not support selected processor mode"
  code-Good label func (some code) =
      simple-Handles p host fn dnode r _ label _ refl refl (λ b v. byte-Appends v code)

  pub micrologix-Good : (mode : Mode) → Good (ask_micrologix_mode mode)
  unfolding pccc_cmd_change_mode_micrologix1000
  micrologix-Good mode =
      subst
        (λ o.
          Handles p host fn dnode r (with_code o 0x3a)
            (run (little p) host fn dnode (ask_micrologix_mode mode)))
        (micrologix_mode-micrologix_code mode)
        (code-Good "pccc_cmd_ChangeModeMicroLogix1000()" 0x3a (micrologix_mode mode))

  pub slc500-Good : (mode : Mode) → Good (ask_slc500_mode mode)
  unfolding pccc_cmd_change_mode_slc500
  slc500-Good mode =
      subst
        (λ o.
          Handles p host fn dnode r (with_code o 0x80)
            (run (little p) host fn dnode (ask_slc500_mode mode)))
        (slc500_mode-slc500_code mode)
        (code-Good "pccc_cmd_ChangeModeSLC500()" 0x80 (slc500_mode mode))

  pub cpu_mode-Good : (mode : Mode) → Good (ask_cpu_mode mode)
  unfolding pccc_cmd_set_cpu_mode
  cpu_mode-Good mode =
      subst
        (λ o.
          Handles p host fn dnode r (with_code o 0x3a)
            (run (little p) host fn dnode (ask_cpu_mode mode)))
        (cpu_mode-cpu_code mode) (code-Good "pccc_cmd_SetCPUMode()" 0x3a (cpu_mode mode))
