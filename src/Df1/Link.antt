-- ===== src/Df1/Link.antt =====
-- df1d/conn.c: the bytes from the TTY, and the timer.
use libpccc.Common.{ℕ, zero, suc, true, false, none, some, ◌==◌, ◌&&◌, if◌then◌else◌}
use libpccc.Buf.{Buf, buf_get_byte}
use libpccc.Df1.State.{Platform, sym_stx, sym_enq, sym_ack, sym_nak, sym_dle, Conn, inc}
use libpccc.Df1.Transmit.{rx_active, rx_set_nak, tx_ack, tx_nak, tx_tick}
use libpccc.Df1.Receive.{rx_enq, rx_msg, rx_tick}

-- A byte outside of a message that is not part of a symbol.
unfoldable pub spurious : Conn → Conn
spurious conn = record conn {
  rx = rx_set_nak conn.rx;
  dcnts = record (conn.dcnts) { bytes_ignored = inc conn.dcnts.bytes_ignored };
}

-- The last part of a round of `parse_tty_data`.
unfoldable pub plain_byte : Conn → ℕ → Conn
plain_byte conn byte =
    if byte == sym_dle
    then record conn { read_sym = true }
    else record (spurious conn) { read_sym = false }

-- What a round does with a byte outside of a message that does not start one.
unfoldable pub symbol_byte : Platform → Conn → ℕ → Conn
symbol_byte p conn byte =
    let conn' : Conn = record conn { read_sym = false } in
    if conn.read_sym
    then (if byte == sym_enq
        then rx_enq
            (record conn' { dcnts = record (conn.dcnts) { enqs_in = inc conn.dcnts.enqs_in } })
        else if byte == sym_ack
        then tx_ack p
            (record conn' { dcnts = record (conn.dcnts) { acks_in = inc conn.dcnts.acks_in } })
        else if byte == sym_nak
        then tx_nak p
            (record conn' { dcnts = record (conn.dcnts) { naks_in = inc conn.dcnts.naks_in } })
        else plain_byte (spurious conn') byte)
    else plain_byte conn byte

-- STX behind DLE. `rx_msg` may read on in `tty_in`.
unfoldable pub link_byte : Platform → Conn → ℕ → Buf → Conn × Buf
link_byte p conn byte tty_in =
    if conn.read_sym && byte == sym_stx
    then rx_msg p (record conn { read_sym = false }) tty_in
    else (symbol_byte p conn byte, tty_in)

-- The loop, on fuel: each round but the last reads a byte.
unfoldable pub parse_loop : ℕ → Platform → Conn → Buf → Conn × Buf
parse_loop zero p conn tty_in = (conn, tty_in)
parse_loop (suc fuel) p conn tty_in =
    let (conn1, tty1) = if rx_active conn.rx then rx_msg p conn tty_in else (conn, tty_in) in
    let (tty2, next) = buf_get_byte tty1 in
    elim next [
      | none ↦ (conn1, tty2)
      | some byte ↦ let (conn3, tty3) = link_byte p conn1 byte tty2 in parse_loop fuel p conn3 tty3
    ]

unfoldable pub parse_tty_data : Platform → Conn → Buf → Conn × Buf
parse_tty_data p conn tty_in = parse_loop (suc tty_in.len) p conn tty_in

-- `conn_tick` for one connection.
unfoldable pub conn_tick : Platform → Conn → Conn
conn_tick p conn = tx_tick p (rx_tick conn)
