-- ===== src/Df1/Receive/Answers.antt =====
-- df1d/rx.c: answers to the other node, the receiver's clock and its start. Log messages are left
-- out.
use libpccc.Common.{ℕ, Bool, true, none, ltb, if◌then◌else◌}
use libpccc.Buf.{Buf, buf_append_byte, ◌or_else◌}
use libpccc.Df1.State.{sym_ack, sym_nak, sym_dle, Rx, rx_idle, rx_pend, Conn, inc, modify_opt}
use libpccc.Df1.Transmit.{rx_set_nak}

unfoldable pub rx_ack : Conn → Conn
rx_ack conn = record conn {
  tty_out = (buf_append_byte conn.tty_out sym_dle or_else (λ b. buf_append_byte b sym_ack)).0;
  rx = record (conn.rx) { last_was_ack = true; state = rx_idle; client = none };
  dcnts = record (conn.dcnts) { acks_out = inc conn.dcnts.acks_out };
}

unfoldable pub rx_nak : Conn → Conn
rx_nak conn = record conn {
  tty_out = (buf_append_byte conn.tty_out sym_dle or_else (λ b. buf_append_byte b sym_nak)).0;
  rx = record (rx_set_nak conn.rx) { state = rx_idle; client = none };
  dcnts = record (conn.dcnts) { naks_out = inc conn.dcnts.naks_out };
}

-- With a message pending, its client is charged with a timeout.
unfoldable pub rx_enq : Conn → Conn
rx_enq conn =
    let answer : Conn = if conn.rx.last_was_ack then rx_ack conn else rx_nak conn in
    let charged : Conn = record conn {
      clients =
          modify_opt conn.rx.client
            (λ cl. record cl {
              dcnts = record (cl.dcnts) { rx_timeouts = inc cl.dcnts.rx_timeouts };
            })
            conn.clients;
    } in
    elim conn.rx.state [ rx_pend ↦ rx_ack charged | _ ↦ answer ]

unfoldable pub rx_tick : Conn → Conn
rx_tick conn =
    let eticks : ℕ = inc conn.rx.eticks in
    let ticked : Rx = record (conn.rx) { eticks = eticks } in
    let active : Conn = record conn {
      rx =
          if ltb conn.rx.tticks eticks
          then rx_set_nak (record ticked { state = rx_idle })
          else ticked;
    } in
    elim conn.rx.state [ rx_idle ↦ conn | rx_pend ↦ conn | _ ↦ active ]

-- What `rx_init` sets in a receiver: 5 s, in ticks of 10 ms, and one.
unfoldable pub rx_init : Rx → Buf → Bool → Rx
rx_init rx buf dup_detect =
    rx_set_nak (record rx { app = buf; dup_detect = dup_detect; state = rx_idle; tticks = 501 })
