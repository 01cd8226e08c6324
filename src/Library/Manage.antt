-- ===== src/Library/Manage.antt =====
-- lib/pccc.c: a connection's life. What `malloc`, `random`, `getpid`, `connect`, `read`, `write`,
-- `close` and `time` return are arguments. The functions are on a connection; `on_con` is the test
-- for a null pointer with which each of them starts.
use Prim.Native.String.{String}
use libpccc.Common.{
  ℕ, zero, suc, ◌+◌, Bool, true, false, not, ◌||◌, ◌&&◌, Option, none, some, List, [], ◌∷◌, length,
  ltb, leb, ◌==◌, if◌then◌else◌, bit_xor, u16,
}
use libpccc.Buf.{
  Buf, Io, buf_new, buf_empty, buf_append_byte, buf_append_str, buf_read, buf_write_ready,
  buf_write,
}
use libpccc.Ret.{Ret, success, wready, enocon, elink, eparam, efatal, ecmd_timeout}
use libpccc.Df1.State.{Platform}
use libpccc.Library.State.{
  Pccc, Msg, Datum, mode_idle, no_text, plain, sys_error, name_too_long, msg_at, put_msg, tell,
  buf_size,
}
use libpccc.Library.Message.{msg_flush, msg_init, msg_abort_all}
use libpccc.Library.Link.{parse_link}

-- `if (con == NULL) return PCCC_ENOCON;`
abbrev pub on_con : (Pccc → Pccc × Ret) → Option Pccc → Option Pccc × Ret
on_con f none = (none, enocon)
on_con f (some c) = let (c', ret) = f c in (some c', ret)

-- The errors that leave a text.
abbrev pub error : Ret → String → Pccc → Pccc × Ret
error ret text c = (record c { errstr = plain text }, ret)

abbrev pub system_error : Ret → String → Pccc → Pccc × Ret
system_error ret text c = (record c { errstr = sys_error text }, ret)

-- What the allocations of `pccc_new` give: the two structures, three buffers and the messages.
pub record Blocks : Type 0 where
  pub con : Bool
  pub priv : Bool
  pub sock_in : Option (List ℕ)
  pub sock_out : Option (List ℕ)
  pub msg_in : Option (List ℕ)
  pub msgs : Option (List Msg)
  pub bufs : List (Option (List ℕ))

unfoldable pub alloc_bufs : Blocks → Option (Buf × Buf × Buf)
unfolding buf_new
alloc_bufs m = elim (buf_new m.sock_in buf_size) [
  | none ↦ none
  | some sock_in ↦ elim (buf_new m.sock_out buf_size) [
    | none ↦ none
    | some sock_out ↦ elim (buf_new m.msg_in buf_size) [
      | none ↦ none
      | some msg_in ↦ some (sock_in, sock_out, msg_in)
    ]
  ]
]

-- The first transaction number, from `random()` and `getpid()`.
unfoldable pub first_tns : ℕ → ℕ → ℕ
first_tns random pid = let tns : ℕ = u16 (bit_xor (u16 random) pid) in if tns == 0 then 42 else tns

-- The array that `malloc` gives has `msgs` elements; `calloc` cleared the other fields.
unfoldable pub pccc_new : Blocks → (ℕ → Datum) → ℕ → ℕ → ℕ → ℕ → ℕ → Option Pccc
unfolding alloc_bufs msg_init first_tns
pccc_new m mem random pid src_addr timeout msgs =
    let made : Option Pccc = elim (alloc_bufs m) [
      | none ↦ none
      | some (sock_in, sock_out, msg_in) ↦ elim (msg_init m.msgs m.bufs) [
        | none ↦ none
        | some pool ↦ some (record {
          src_addr = src_addr;
          timeout = timeout;
          tns = first_tns random pid;
          sock_in = sock_in;
          sock_out = sock_out;
          msg_in = msg_in;
          read_mode = mode_idle;
          msg_in_len = 0;
          cur_msg = 0;
          msgs = pool;
          connected = false;
          errstr = no_text;
          mem = mem;
          calls = [];
        })
      ]
    ] in
    if timeout == 0 || msgs == 0 || not m.con || not m.priv then none else made

unfoldable pub pccc_write : List (Io ℕ) → Pccc → Pccc × Ret
unfolding buf_write
pccc_write writes c =
    let (b, sent) = buf_write writes c.sock_out in
    let c' : Pccc = record c { sock_out = b } in
    if not c.connected
    then error elink "Not connected" c
    else elim sent [ none ↦ system_error elink "Error writing" c' | some n ↦ (c', success) ]

unfoldable pub pccc_write_ready : Pccc → Pccc × Ret
unfolding buf_write_ready
pccc_write_ready c =
    if not c.connected
    then error elink "Not connected" c
    else (c, if buf_write_ready c.sock_out then wready else success)

unfoldable pub pccc_read : Platform → ℕ → (ℕ → Option ℕ) → List (Io (List ℕ)) → Pccc → Pccc × Ret
unfolding buf_read parse_link
pccc_read p junk now reads c =
    let (b, got) = buf_read reads c.sock_in in
    let c' : Pccc = record c { sock_in = b } in
    if not c.connected then error elink "Not connected" c else elim got [
      | none ↦ system_error elink "Error reading" c'
      | some n ↦
          if n == 0 then error elink "Remote end closed connection" c' else parse_link p junk now c'
    ]

-- PCCC_NAME_LEN
abbrev pub name_max : ℕ
name_max = 16

-- `name` is `none` for a null pointer, and without its terminating zero.
unfoldable pub send_reg : List (Io ℕ) → Option (List ℕ) → Pccc → Pccc × Ret
unfolding pccc_write
send_reg writes name con =
    let c : Pccc = record con { sock_out = (buf_append_byte con.sock_out con.src_addr).0 } in
    elim name [
      | none ↦ error eparam "Invalid pointer(NULL) to client name" c
      | some text ↦
          let len : ℕ = length text in
          let b : Buf = (buf_append_byte c.sock_out len).0 in
          let filled : Pccc = record c { sock_out = (buf_append_str b text).0 } in
          let (c', ret) = pccc_write writes filled in
          let sent : Pccc × Ret = elim ret [
            | success ↦ (c', success)
            | _ ↦ system_error elink "Failed to send registration message" c'
          ] in
          if len == 0
          then error eparam "Client name cannot be emtpy" c
          else if ltb name_max len
          then (record c { errstr = name_too_long name_max }, eparam)
          else sent
    ]

-- What `connect` returns each time: interrupted, failed, or done.
pub data Connecting : Type 0 where
  conn_interrupted conn_failed conn_done : Connecting

-- The loop at `again:`; with no attempt left the call never returns.
unfoldable pub connect_loop : List Connecting → Option Bool
connect_loop [] = none
connect_loop (conn_interrupted ∷ rest) = connect_loop rest
connect_loop (conn_failed ∷ rest) = some false
connect_loop (conn_done ∷ rest) = some true

-- `found` is whether the host has an address (`get_addr`), `socket` whether there is a socket.
-- `none` is a call that does not return.
unfoldable pub pccc_connect :
    Bool → Bool → List Connecting → List (Io ℕ) → Option (List ℕ) → Pccc → Option (Pccc × Ret)
unfolding connect_loop send_reg
pccc_connect found socket attempts writes name c =
    let opened : Option (Pccc × Ret) = elim (connect_loop attempts) [
      | none ↦ none
      | some true ↦ some (send_reg writes name (record c { connected = true }))
      | some false ↦ some (system_error elink "Failed to connect" c)
    ] in
    if c.connected
    then some (error elink "Already connected" c)
    else if not found
    then some (system_error eparam "Could not resolve hostname" c)
    else if not socket
    then some (system_error efatal "socket() failed" c)
    else opened

-- One round of the loop of `pccc_tick`; `true` if `time` failed.
unfoldable pub tick_msg : Option ℕ → ℕ → Pccc → Pccc × Bool
unfolding msg_flush
tick_msg now i c =
    let m : Msg = msg_at c i in
    let expired : Pccc = tell m.notify ecmd_timeout m.udata (put_msg c i (msg_flush m)) in
    if m.is_cmd && not (m.expires == 0)
    then elim now [
      | none ↦ (record c { errstr = sys_error "time() failed" }, true)
      | some t ↦ (if leb m.expires t then expired else c, false)
    ]
    else (c, false)

-- The messages from `i` on, of which `n` are left; `now i` is what `time` returns at message `i`.
unfoldable pub tick_from : ℕ → ℕ → (ℕ → Option ℕ) → Pccc → Pccc × Ret
unfolding tick_msg
tick_from zero i now c = (c, success)
tick_from (suc n) i now c =
    let (c', failed) = tick_msg (now i) i c in
    elim failed [ true ↦ (c', efatal) | false ↦ tick_from n (i + 1) now c' ]

unfoldable pub pccc_tick : (ℕ → Option ℕ) → Pccc → Pccc × Ret
unfolding tick_from
pccc_tick now c =
    let ticked : Pccc × Ret = tick_from (length c.msgs) 0 now c in
    if c.connected then ticked else (c, success)

-- `closed` is whether `close` at last succeeds.
unfoldable pub pccc_close : Bool → Pccc → Pccc × Ret
unfolding msg_abort_all buf_empty
pccc_close closed c =
    let aborted : Pccc = msg_abort_all (record c { connected = false }) in
    let emptied : Pccc = record aborted {
      sock_in = buf_empty aborted.sock_in;
      sock_out = buf_empty aborted.sock_out;
      msg_in = buf_empty aborted.msg_in;
      read_mode = mode_idle;
      cur_msg = 0;
    } in
    if not c.connected
    then (c, success)
    else if closed
    then (emptied, success)
    else system_error efatal "close() failed" emptied
