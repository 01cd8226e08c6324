-- ===== src/Df1/QueueTests.antt =====
-- df1d: sending, repeating and registering on a concrete link.
use libpccc.Common.{◌≡◌, refl, some, [], ◌∷◌, arith, true, false}
use libpccc.Buf.{Buf}
use libpccc.Df1.State.{connected, tx_pend_resp, msg_pend, msg_ready, Client, Conn, tx_idle}
use libpccc.Df1.Transmit.{find_next_tx_on, resp_timeout, find_next_tx}
use libpccc.Df1.Frame.{frame}
use libpccc.Df1.Examples.{
  host, empty_buf, buf_of, client, tx, rx, link, buf_of-IsValid, empty20-IsValid, empty40-IsValid,
  msg_bytes,
}
use libpccc.Df1.Queue.{Sends, find_next_tx-Sends}
use libpccc.Df1.Retries.{nak_rounds, nak_output, nak_rounds-give_up}
use libpccc.Df1.Addresses.{addrs, fresh, distinct, name_byte-distinct}
use libpccc.Df1.Timeouts.{
  tx_ticks, at_tick, silent_rounds, silent_output, tx_ticks-resp_timeout, silent_rounds-give_up,
}
use libpccc.Common.{none}
use libpccc.Df1.Fuel.{find_next_tx-fuel}
use libpccc.Df1.Receive.{find_addr}
use libpccc.Df1.Registration.{parse_sock_data-Registered}
use libpccc.Df1.Registration.Bytes.{Registered}
use libpccc.Df1.Submission.{Queued, parse_sock_data-Queued}
use libpccc.Df1.Sockets.{parse_sock_data, name_byte}
use libpccc.Df1.State.{tx_pend_resp, reg_name, tx_pend_msg_tx}
use libpccc.Df1.Transmit.{
  find_next_tx_on, resp_timeout, next_ready, start_at, first_ready, fail_notice,
}
use libpccc.Common.{not, ◌==◌, ◌&&◌, u8, ◌+◌}

abbrev ready_client : Client
ready_client = record client { state = msg_ready; df1_tx = buf_of msg_bytes }

abbrev ready_link : Conn
ready_link = record link { clients = ready_client ∷ [] }

find_next_tx-Sends_example :
    Sends ready_link ready_client (frame false msg_bytes) (find_next_tx host ready_link (some 40))
unfolding next_ready start_at first_ready
find_next_tx-Sends_example =
    find_next_tx-Sends host ready_link (some 40) ready_client msg_bytes refl refl refl refl
      empty40-IsValid refl empty20-IsValid (buf_of-IsValid msg_bytes (omega arith)) refl
      (omega arith) (omega arith)

-- One NAK has come for a message of client 40; two more are allowed.
abbrev naked_link : Conn
naked_link = record link {
  tx = record tx {
    state = tx_pend_msg_tx;
    nak_cnt = 1;
    msg = buf_of (1 ∷ 2 ∷ 3 ∷ []);
    client = some 40;
  };
  clients = record client { state = msg_pend } ∷ [];
}

nak_rounds-give_up_example :
    let d = nak_rounds 1 host naked_link in
    let e = nak_rounds 2 host naked_link in
    (nak_output 2 host naked_link ≡ (1 ∷ 2 ∷ 3 ∷ []) ∷ [] ∷ [])
    × (d.tx.state ≡ tx_pend_msg_tx)
    × (d.tx.msg ≡ buf_of (1 ∷ 2 ∷ 3 ∷ []))
    × (d.clients ≡ naked_link.clients)
    × (e.tx.state ≡ tx_idle)
    × (e.tx.msg.len ≡ 0)
    × (e.clients ≡ (fail_notice host naked_link).clients)
nak_rounds-give_up_example =
    nak_rounds-give_up 1 host naked_link refl (omega arith) (omega arith) refl empty20-IsValid
      (buf_of-IsValid (1 ∷ 2 ∷ 3 ∷ []) (omega arith)) (omega arith)

-- A client that has announced a name of one character and the address 9, which is taken.
abbrev newcomer : Client
newcomer = record client { id = 41; state = reg_name; name_len = 1 }

abbrev two_clients : Conn
two_clients = record link { clients = client ∷ newcomer ∷ [] }

name_byte-distinct_example :
    let (c', refuses) = name_byte host two_clients newcomer b'x' in
    (refuses ≡ (u8 (0 + 1) == 1) && not (fresh 9 (9 ∷ []))) × (distinct (addrs c'.clients) ≡ true)
name_byte-distinct_example =
    name_byte-distinct host two_clients newcomer b'x' refl refl refl (omega arith) (omega arith)

-- Client 40, whose message is with the receiver, is closed; client 41 stays, and 42 is accepted.
abbrev awaited : Conn
awaited = record two_clients {
  tx = record tx { client = some 40 };
  rx = record rx { client = some 40 };
}

-- Client 40 sends a message of two bytes while another one is on its way.
abbrev submission : Buf
submission = buf_of (1 ∷ 2 ∷ 7 ∷ 8 ∷ [])

abbrev busy_link : Conn
busy_link = record link { tx = record tx { state = tx_pend_msg_tx } }

parse_sock_data-Queued_example :
    (e : Conn) × (b' : Buf) × (parse_sock_data host busy_link 40 submission ≡ (e, b', false))
    × Queued busy_link client (7 ∷ 8 ∷ []) 2 e
parse_sock_data-Queued_example =
    parse_sock_data-Queued host busy_link client 7 (8 ∷ [])
      (buf_of-IsValid (1 ∷ 2 ∷ 7 ∷ 8 ∷ []) (omega arith)) refl refl refl refl empty20-IsValid refl
      (omega arith)

-- Client 40's message is on its way; nobody answers.
abbrev silent_link : Conn
silent_link = record link {
  tx = record tx {
    state = tx_pend_msg_tx;
    enq_cnt = 2;
    msg = buf_of (1 ∷ 2 ∷ 3 ∷ []);
    client = some 40;
  };
  clients = record client { state = msg_pend } ∷ [];
}

silent_rounds-give_up_example :
    let d = silent_rounds 1 host silent_link in
    let e = silent_rounds 2 host silent_link in
    (silent_output 2 host silent_link ≡ (0x10 ∷ 0x05 ∷ []) ∷ [] ∷ [])
    × (d.tx.state ≡ tx_pend_msg_tx)
    × (d.tx.msg ≡ buf_of (1 ∷ 2 ∷ 3 ∷ []))
    × (d.tx.enq_cnt ≡ 3)
    × (e.tx.state ≡ tx_idle)
    × (e.tx.msg.len ≡ 0)
    × (e.clients ≡ (fail_notice host silent_link).clients)
silent_rounds-give_up_example =
    silent_rounds-give_up 1 host silent_link refl (omega arith) (omega arith) (omega arith) refl
      refl empty20-IsValid (omega arith)

abbrev waiting_link : Conn
waiting_link = record link { tx = record tx { state = tx_pend_resp; eticks = 98 } }

tx_ticks-resp_timeout_example :
    (tx_ticks 2 host waiting_link ≡ at_tick waiting_link 100)
    × (tx_ticks 3 host waiting_link ≡ resp_timeout host (at_tick waiting_link 101))
tx_ticks-resp_timeout_example =
    tx_ticks-resp_timeout 2 host waiting_link refl refl (omega arith) (omega arith)

find_next_tx-fuel_example :
    find_next_tx_on 5 host (record ready_link { tty_out = empty_buf 2 }) none
    ≡ find_next_tx host (record ready_link { tty_out = empty_buf 2 }) none
find_next_tx-fuel_example =
    find_next_tx-fuel 3 host (record ready_link { tty_out = empty_buf 2 }) none refl

-- A client with the number 41 has just connected, and sends the address 7 and the name "x".
abbrev fresh_client : Client
fresh_client = record client { id = 41; state = connected; addr = 0 }

abbrev fresh_link : Conn
fresh_link = record link { clients = client ∷ fresh_client ∷ [] }

abbrev introduction : Buf
introduction = buf_of (7 ∷ 1 ∷ b'x' ∷ [])

parse_sock_data-Registered_example :
    (e : Conn) × (b' : Buf) × (parse_sock_data host fresh_link 41 introduction ≡ (e, b', false))
    × Registered fresh_link (record fresh_client { addr = 7; name_len = 1 }) (b'x' ∷ []) e
unfolding find_addr
parse_sock_data-Registered_example =
    parse_sock_data-Registered host fresh_link fresh_client 7 b'x' []
      (buf_of-IsValid (7 ∷ 1 ∷ b'x' ∷ []) (omega arith)) refl refl refl refl refl (omega arith) refl
