-- ===== src/Library/Assembly/Requests.antt =====
-- lib/cmd_init_06.c, lib/cmd_init_0f.c: every command of `Library.Request` at once.
use libpccc.Common.{ℕ, ◌≤◌, ◌≡◌, subst, Option, none, some, length}
use libpccc.Df1.State.{Platform}
use libpccc.Library.State.{Pccc}
use libpccc.Library.Send.{Host}
use libpccc.Library.Request.{
  Request, ask_echo, ask_variables, ask_timeout, ask_naks, ask_enqs, ask_link_param,
  ask_set_link_param, ask_bit_write, ask_micrologix_mode, ask_slc500_mode, ask_cpu_mode,
  ask_file_info, ask_disable_forces, ask_read_3, ask_write_3, ask_read_2, ask_write_2,
  ask_write_mask, IsInRange, Wire, run, wire,
}
use libpccc.Library.Assembly.{little}
use libpccc.Library.Assembly.Handles.{Ready, Sends, Refuses, Handles}
use libpccc.Library.Assembly.Commands06.{
  variables-Good, timeout-Good, naks-Good, enqs-Good, link_param-Good, set_link_param-Good,
  echo-Good,
}
use libpccc.Library.Assembly.Commands0f.{
  file_info-Good, disable_forces-Good, micrologix-Good, slc500-Good, cpu_mode-Good,
}
use libpccc.Library.Assembly.Bits.{bit_write-Good}
use libpccc.Library.Assembly.Areas.{
  read_2-Good, write_2-Good, read_3-Good, write_3-Good, write_mask-Good,
}

-- Each function does with its arguments what `wire` says.
run-Handles :
    (p : Platform) (host : Host) (fn : Option ℕ) (dnode : ℕ) {c : Pccc} {i : ℕ} (r : Ready c i)
    (q : Request)
    → IsInRange c.mem q
    → Handles p host fn dnode r (wire c.mem q) (run (little p) host fn dnode q)
run-Handles p h fn d r (ask_echo udata n) v = echo-Good p h fn d r udata n
run-Handles p h fn d r (ask_variables cycles naks enqs) v =
    variables-Good p h fn d r cycles naks enqs
run-Handles p h fn d r (ask_timeout cycles) v = timeout-Good p h fn d r cycles
run-Handles p h fn d r (ask_naks naks) v = naks-Good p h fn d r naks
run-Handles p h fn d r (ask_enqs enqs) v = enqs-Good p h fn d r enqs
run-Handles p h fn d r (ask_link_param udata) v = link_param-Good p h fn d r udata
run-Handles p h fn d r (ask_set_link_param max) v = set_link_param-Good p h fn d r max
run-Handles p h fn d r (ask_bit_write addr set reset) v =
    bit_write-Good p h fn d r addr set reset v.0 v.1
run-Handles p h fn d r (ask_micrologix_mode mode) v = micrologix-Good p h fn d r mode
run-Handles p h fn d r (ask_slc500_mode mode) v = slc500-Good p h fn d r mode
run-Handles p h fn d r (ask_cpu_mode mode) v = cpu_mode-Good p h fn d r mode
run-Handles p h fn d r (ask_file_info udata file) v = file_info-Good p h fn d r udata file
run-Handles p h fn d r ask_disable_forces v = disable_forces-Good p h fn d r
run-Handles p h fn d r (ask_read_3 a sub) v = read_3-Good p h fn d r a sub v
run-Handles p h fn d r (ask_read_2 a) v = read_2-Good p h fn d r a v
run-Handles p h fn d r (ask_write_3 a sub) v = write_3-Good p h fn d r a sub v.0 v.1
run-Handles p h fn d r (ask_write_2 a) v = write_2-Good p h fn d r a v.0 v.1
run-Handles p h fn d r (ask_write_mask a mask sub) v =
    write_mask-Good p h fn d r a mask sub v.0 v.1 v.2

module _ (p : Platform) (host : Host) (fn : Option ℕ) (dnode : ℕ) {c : Pccc} {i : ℕ} (r : Ready c i)
    (q : Request) (ranged : IsInRange c.mem q) where
  -- On a little-endian host, with a sound pool that has a free message, a connection that is up and
  -- arguments in range: a request that `wire` gives a message for, of a body of at most 249 bytes,
  -- writes the header and that body into the first free message and sets its reply function,
  -- `udata`, `notify` and transaction number and what it notes of the data (the number of bytes of
  -- an echo, or the number, the type and the sizes of the elements). The message's other fields, the
  -- other messages and the rest of the connection stay as they were, but for the next transaction
  -- number and the error text. Then the request does what `cmd_send` does.
  pub run-Sends :
      (w : Wire)
      → wire c.mem q ≡ some w
      → length w.body ≤ 249
      → Sends p host fn dnode c i w (run (little p) host fn dnode q)
  run-Sends w e short =
      subst (λ o. Handles p host fn dnode r o (run (little p) host fn dnode q)) e
        (run-Handles p host fn dnode r q ranged) short

  pub run-Refuses : wire c.mem q ≡ none → Refuses c i (run (little p) host fn dnode q)
  run-Refuses e =
      subst (λ o. Handles p host fn dnode r o (run (little p) host fn dnode q)) e
        (run-Handles p host fn dnode r q ranged)
