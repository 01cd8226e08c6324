-- ===== src/Df1/Receive.antt =====
-- df1d/rx.c, the receiver. Log messages are left out.
use libpccc.Common.{
  ℕ, zero, suc, ◌+◌, ◌*◌, ◌^◌, Bool, true, false, ◌&&◌, ◌||◌, Option, none, some, List, [], ◌∷◌,
  ltb, ◌==◌, if◌then◌else◌, get_or, u8, u16, add_size,
}
use libpccc.Buf.{Buf, buf_empty, buf_append_buf, buf_append_byte, buf_get_byte, ◌or_else◌}
use libpccc.Df1.State.{
  Platform, sym_etx, sym_ack, sym_nak, sym_dle, Client, connected, reg_len, reg_name, Rx, rx_idle,
  rx_app, rx_cs1, rx_cs2, rx_pend, Conn, inc, modify, modify_opt,
}
use libpccc.Df1.Checksum.{cs_clear, cs_add, cs_ok}
use libpccc.Df1.Transmit.{rx_set_nak, tx_ack, tx_nak}
mod Answers
mod Deliver
unfoldable pub use Answers.*
unfoldable pub use Deliver.*

-- The source and transaction bytes of a message, by which a repetition is known.
abbrev pub dup_bytes : Buf → List ℕ
dup_bytes app =
    get_or app.cells 1 0 ∷ get_or app.cells 2 0 ∷ get_or app.cells 4 0 ∷ get_or app.cells 5 0 ∷ []

abbrev pub same_bytes : List ℕ → List ℕ → Bool
same_bytes [] [] = true
same_bytes (x ∷ xs) (y ∷ ys) = x == y && same_bytes xs ys
same_bytes _ _ = false

unfoldable pub msg_dup : Conn → Conn × Bool
msg_dup conn =
    let dup : Bool = same_bytes (dup_bytes conn.rx.app) conn.rx.dup in
    if conn.rx.dup_detect
    then (
      record conn {
        rx = record (conn.rx) { dup = dup_bytes conn.rx.app };
        dcnts = if dup then record (conn.dcnts) { dups = inc conn.dcnts.dups } else conn.dcnts;
      },
      dup,
    )
    else (conn, false)

unfoldable pub accept_unique : Platform → Conn × Bool → Conn
accept_unique p (conn, true) = rx_ack conn
accept_unique p (conn, false) = client_msg_rx p 0 (record conn {
  rx = record (conn.rx) { state = rx_pend };
  dcnts = record (conn.dcnts) { msg_rx = inc conn.dcnts.msg_rx };
})

-- The message has six bytes or more where `client_msg_rx` is called, so that `junk` is not read.
unfoldable pub accept_msg : Platform → Conn → Conn
accept_msg p conn =
    if ltb conn.rx.app.len 6
    then rx_nak (record conn { dcnts = record (conn.dcnts) { runts = inc conn.dcnts.runts } })
    else if cs_ok conn
    then accept_unique p (msg_dup conn)
    else rx_nak (record conn { dcnts = record (conn.dcnts) { bad_cs = inc conn.dcnts.bad_cs } })

unfoldable pub embed_rsp : Platform → Conn → ℕ → Conn
embed_rsp p conn rsp =
    let conn' : Conn = record conn { embed_rsp = true } in
    if rsp == sym_ack then tx_ack p conn' else tx_nak p conn'

-- The common end of `add_to_app`: the byte goes to the message and into the checksum.
unfoldable pub add_byte : Conn → ℕ → Conn
add_byte conn byte =
    let (app, full) = buf_append_byte conn.rx.app byte in
    let rx : Rx = record (conn.rx) { prev_dle = false } in
    let conn' : Conn =
      if conn.rx.overflow
      then record conn { rx = rx }
      else if full
      then record conn {
        rx = record rx { overflow = true };
        dcnts = record (conn.dcnts) { rx_overflow = inc conn.dcnts.rx_overflow };
      }
      else record conn { rx = record rx { app = app } } in
    cs_add conn' byte

unfoldable pub add_to_app : Platform → Conn → ℕ → Conn
add_to_app p conn byte =
    let dle : Bool = conn.rx.prev_dle in
    let ended : Conn = if conn.use_crc then cs_add conn sym_etx else conn in
    if byte == sym_etx
    then (if dle
        then record ended { rx = record (ended.rx) { state = rx_cs1 } }
        else add_byte conn byte)
    else if byte == sym_dle
    then (if dle
        then add_byte conn byte
        else record conn { rx = record (conn.rx) { prev_dle = true } })
    else if (byte == sym_ack) || (byte == sym_nak)
    then (if dle
        then embed_rsp p (record conn { rx = record (conn.rx) { prev_dle = false } }) byte
        else add_byte conn byte)
    else if dle
    then record conn { rx = rx_set_nak conn.rx }
    else add_byte conn byte

-- The start of a new message in `rx_msg`.
unfoldable pub start_msg : Conn → Conn
start_msg conn =
    let started : Conn = cs_clear (record conn {
      rx = record (conn.rx) {
        app = buf_empty conn.rx.app;
        eticks = 0;
        prev_dle = false;
        overflow = false;
        state = rx_app;
      };
    }) in
    elim conn.rx.state [ rx_idle ↦ started | _ ↦ conn ]

-- One round of the loop of `rx_msg`, and whether the function returns from it.
unfoldable pub rx_byte : Platform → Conn → ℕ → Conn × Bool
rx_byte p conn byte =
    let first : Conn = record conn { rx = record (conn.rx) { msg_cs = byte } } in
    elim conn.rx.state [
      | rx_app ↦ (add_to_app p conn byte, false)
      | rx_cs1 ↦
          if conn.use_crc
          then (record first { rx = record (first.rx) { state = rx_cs2 } }, false)
          else (accept_msg p first, true)
      | rx_cs2 ↦ (
        accept_msg p (record conn {
          rx = record (conn.rx) { msg_cs = u16 (conn.rx.msg_cs + byte * 2 ^ 8) };
        }),
        true,
      )
      | _ ↦ (conn, false)
    ]

-- The loop, on fuel: each round reads a byte of `tty_in`.
unfoldable pub rx_loop : ℕ → Platform → Conn → Buf → Conn × Buf
rx_loop zero p conn tty_in = (conn, tty_in)
rx_loop (suc fuel) p conn tty_in =
    let (tty_in', next) = buf_get_byte tty_in in
    elim next [
      | none ↦ (conn, tty_in')
      | some byte ↦
          let (conn', done) = rx_byte p conn byte in
          let rest : Conn × Buf = rx_loop fuel p conn' tty_in' in
          if done then (conn', tty_in') else rest
    ]

unfoldable pub rx_msg : Platform → Conn → Buf → Conn × Buf
rx_msg p conn tty_in = rx_loop (suc tty_in.len) p (start_msg conn) tty_in
