-- ===== src/Library/Assembly/Modes.antt =====
-- lib/cmd_init_0f.c: the modes that the commands take.
use libpccc.Common.{◌≡◌, refl}
use libpccc.Library.Codes.{micrologix_code, slc500_code, cpu_code}
use libpccc.Library.Commands0f.{
  Mode, mode_prog, mode_run, mode_test_cont, mode_test_single, mode_test_debug, mode_rem_test,
  mode_rem_run, micrologix_mode, slc500_mode, cpu_mode,
}

pub micrologix_mode-micrologix_code : (mode : Mode) → micrologix_mode mode ≡ micrologix_code mode
micrologix_mode-micrologix_code mode_prog = refl
micrologix_mode-micrologix_code mode_run = refl
micrologix_mode-micrologix_code mode_test_cont = refl
micrologix_mode-micrologix_code mode_test_single = refl
micrologix_mode-micrologix_code mode_test_debug = refl
micrologix_mode-micrologix_code mode_rem_test = refl
micrologix_mode-micrologix_code mode_rem_run = refl

pub slc500_mode-slc500_code : (mode : Mode) → slc500_mode mode ≡ slc500_code mode
slc500_mode-slc500_code mode_prog = refl
slc500_mode-slc500_code mode_run = refl
slc500_mode-slc500_code mode_test_cont = refl
slc500_mode-slc500_code mode_test_single = refl
slc500_mode-slc500_code mode_test_debug = refl
slc500_mode-slc500_code mode_rem_test = refl
slc500_mode-slc500_code mode_rem_run = refl

pub cpu_mode-cpu_code : (mode : Mode) → cpu_mode mode ≡ cpu_code mode
cpu_mode-cpu_code mode_prog = refl
cpu_mode-cpu_code mode_run = refl
cpu_mode-cpu_code mode_test_cont = refl
cpu_mode-cpu_code mode_test_single = refl
cpu_mode-cpu_code mode_test_debug = refl
cpu_mode-cpu_code mode_rem_test = refl
cpu_mode-cpu_code mode_rem_run = refl
