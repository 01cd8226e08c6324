-- ===== src/Library/Codes.antt =====
-- lib/cmd_init_0f.c: the codes of modes and types by the manual of the protocol.
use libpccc.Common.{ℕ, Option, none, some}
use libpccc.Codec.Arrays.{
  FileType, stat, bin, timer, count, ctl, int, float, outp, inp, str, asc, bcd,
}
use libpccc.Library.Commands0f.{
  Mode, mode_prog, mode_run, mode_test_cont, mode_test_single, mode_test_debug, mode_rem_test,
  mode_rem_run,
}

-- The codes of the modes that each command takes.
abbrev pub micrologix_code : Mode → Option ℕ
micrologix_code mode_prog = some 1
micrologix_code mode_run = some 2
micrologix_code mode_test_cont = none
micrologix_code mode_test_single = none
micrologix_code mode_test_debug = none
micrologix_code mode_rem_test = none
micrologix_code mode_rem_run = none

abbrev pub slc500_code : Mode → Option ℕ
slc500_code mode_prog = some 1
slc500_code mode_run = some 6
slc500_code mode_test_cont = some 7
slc500_code mode_test_single = some 8
slc500_code mode_test_debug = some 9
slc500_code mode_rem_test = none
slc500_code mode_rem_run = none

abbrev pub cpu_code : Mode → Option ℕ
cpu_code mode_prog = some 0
cpu_code mode_run = none
cpu_code mode_test_cont = none
cpu_code mode_test_single = none
cpu_code mode_test_debug = none
cpu_code mode_rem_test = some 1
cpu_code mode_rem_run = some 2

-- The bytes of an element of a type, and the type's code, where it can be transferred.
abbrev pub type_code : FileType → Option (ℕ × ℕ)
type_code outp = none
type_code inp = none
type_code stat = some (2, 0x84)
type_code bin = some (2, 0x85)
type_code timer = some (6, 0x86)
type_code count = some (6, 0x87)
type_code ctl = some (6, 0x88)
type_code int = some (2, 0x89)
type_code float = some (4, 0x8a)
type_code str = some (84, 0x8d)
type_code asc = none
type_code bcd = none
