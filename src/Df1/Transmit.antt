-- ===== src/Df1/Transmit.antt =====
-- df1d/tx.c, the transmitter. Log messages are left out.
use libpccc.Common.{
  ℕ, zero, suc, ◌+◌, ◌/◌, Bool, true, false, not, ◌&&◌, Option, none, some, List, [], ◌∷◌, ◌++◌,
  ltb, leb, ◌==◌, if◌then◌else◌, length, u32,
}
use libpccc.ByteOrder.{htols}
use libpccc.Buf.{
  Buf, buf_empty, buf_append_buf, buf_append_byte, buf_append_word, buf_get_byte, ◌or_else◌,
  ◌and_also◌,
}
use libpccc.Df1.State.{
  Platform, sym_stx, sym_etx, sym_enq, sym_dle, Client, idle, msg_ready, msg_pend, Tx, tx_idle,
  tx_pend_msg_tx, tx_pend_resp, Conn, rx_idle, rx_pend, Rx, inc, modify, modify_opt,
}
use libpccc.Df1.Checksum.{crc_add, bcc_add, bcc_close}
mod Frames
mod Next
unfoldable pub use Frames.*
unfoldable pub use Next.*

unfoldable pub send_msg : Platform → Conn → Conn
send_msg p conn = send_msg_with (client_msg_tx_fail p) conn

-- `a || b` in `send_enq`: a DLE may be left in the buffer when the ENQ does not fit.
unfoldable pub send_enq : Platform → Conn → Conn
send_enq p conn =
    let sent : Conn = record conn { tx = record (conn.tx) { state = tx_pend_msg_tx } } in
    let (out, full) =
      buf_append_byte conn.tty_out sym_dle or_else (λ b. buf_append_byte b sym_enq) in
    if full
    then client_msg_tx_fail p (record sent { tty_out = out; tx = flush_msg sent.tx })
    else record sent { tty_out = out }

-- The message was written out to the TTY.
unfoldable pub tx_data_sent : Conn → Conn
tx_data_sent conn = elim conn.tx.state [
  | tx_pend_msg_tx ↦ record conn { tx = record (conn.tx) { state = tx_pend_resp; eticks = 0 } }
  | _ ↦ conn
]

abbrev pub rx_active : Rx → Bool
rx_active rx = elim rx.state [ rx_idle ↦ false | rx_pend ↦ false | _ ↦ true ]

unfoldable pub rx_set_nak : Rx → Rx
rx_set_nak rx = record rx { last_was_ack = false }

unfoldable pub resp_timeout : Platform → Conn → Conn
resp_timeout p conn =
    let enq_cnt : ℕ = inc conn.tx.enq_cnt in
    let late : Conn = record conn {
      tx = record (conn.tx) { enq_cnt = enq_cnt };
      dcnts = record (conn.dcnts) { resp_timeouts = inc conn.dcnts.resp_timeouts };
    } in
    if ltb conn.tx.max_enq enq_cnt
    then client_msg_tx_fail p (record late {
      tx = flush_msg late.tx;
      dcnts = record (late.dcnts) { tx_fail = inc late.dcnts.tx_fail };
    })
    else send_enq p late

unfoldable pub tx_tick : Platform → Conn → Conn
tx_tick p conn =
    let eticks : ℕ = inc conn.tx.eticks in
    let ticked : Conn = record conn { tx = record (conn.tx) { eticks = eticks } } in
    let waiting : Conn = if ltb conn.tx.tticks eticks then resp_timeout p ticked else ticked in
    if not conn.embed_rsp && rx_active conn.rx
    then conn
    else elim conn.tx.state [ tx_pend_resp ↦ waiting | _ ↦ conn ]

-- An ACK or NAK that the transmitter did not wait for.
unfoldable pub unexpected : Conn → Conn
unexpected conn = record conn {
  rx = rx_set_nak conn.rx;
  dcnts = record (conn.dcnts) { bytes_ignored = u32 (conn.dcnts.bytes_ignored + 2) };
}

unfoldable pub tx_ack : Platform → Conn → Conn
tx_ack p conn =
    let acked : Conn = record conn {
      tx = flush_msg conn.tx;
      dcnts = record (conn.dcnts) { tx_success = inc conn.dcnts.tx_success };
    } in
    elim conn.tx.state [ tx_pend_resp ↦ client_msg_tx_ok p acked | _ ↦ unexpected conn ]

unfoldable pub naked : Platform → Conn → Conn
naked p conn =
    let nak_cnt : ℕ = inc conn.tx.nak_cnt in
    let counted : Conn = record conn { tx = record (conn.tx) { nak_cnt = nak_cnt } } in
    if leb conn.tx.max_nak nak_cnt
    then client_msg_tx_fail p (record counted {
      tx = flush_msg counted.tx;
      dcnts = record (counted.dcnts) { tx_fail = inc counted.dcnts.tx_fail };
    })
    else send_msg p counted

unfoldable pub tx_nak : Platform → Conn → Conn
tx_nak p conn = elim conn.tx.state [ tx_pend_resp ↦ naked p conn | _ ↦ unexpected conn ]

-- What `tx_init` sets in a transmitter; a tick is 10 ms.
unfoldable pub tx_init : Tx → Buf → ℕ → ℕ → ℕ → Tx
tx_init tx buf max_nak max_enq ack_timeout = record tx {
  msg = buf;
  max_nak = max_nak;
  max_enq = max_enq;
  state = tx_idle;
  tticks = ack_timeout / 10;
}
