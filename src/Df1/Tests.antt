-- ===== src/Df1/Tests.antt =====
-- df1d on a concrete link with one client.
use libpccc.Common.{◌≡◌, refl, some, [], ◌∷◌, ◌++◌, arith, true, false}
use libpccc.Buf.{buf_append_buf, buf_append_byte, buf_get_byte, Buf}
use libpccc.Buf.Invariant.{IsValid}
use libpccc.Buf.Encode.{Appends, Wrote}
use libpccc.Df1.State.{
  client_at, msg_pend, msg_ready, Client, Conn, rx_idle, rx_cs1, tx_idle, sym_ack, sym_nak,
}
use libpccc.Df1.Checksum.{bcc_add, bcc_close, cs_ok}
use libpccc.Df1.Transmit.{frame_msg, copy_msg, close_msg, find_next_tx}
use libpccc.Df1.Receive.{accept_msg, find_addr, pass_on}
use libpccc.Df1.Link.{parse_tty_data}
use libpccc.Df1.Frame.{frame, frame_msg-Appends, sum_cs}
use libpccc.Df1.Stream.Bytes.{Leaves, link_bytes}
use libpccc.Df1.Stream.Parse.{parse_tty_data_lem}
use libpccc.Df1.Stream.Split.{parse_tty_data-split, refused}
use libpccc.Df1.Delivery.{Holds, link_bytes-frame}
use libpccc.Df1.Handover.{Delivered, Answered, accept_msg-delivers, accept_msg-bad}
use libpccc.Df1.Repeats.{accept_msg-repeated}
use libpccc.Df1.EndToEnd.{parse_tty_data-frame}
use libpccc.Df1.Faults.{pass_on-full, find_next_tx-stuck}
use libpccc.Df1.Examples.{
  host, empty_buf, buf_of, client, rx, link, buf_of-IsValid, empty20-IsValid, empty40-IsValid, app,
  msg_bytes,
}

frame_msg-Appends_example :
    Appends
      (empty_buf 40)
      (frame false msg_bytes)
      (frame_msg host false (empty_buf 40) (buf_of msg_bytes)).1
frame_msg-Appends_example =
    frame_msg-Appends host false msg_bytes refl empty40-IsValid
      (buf_of-IsValid msg_bytes (omega arith)) refl

parse_tty_data_lem_example :
    Leaves
      (link_bytes host link (0x10 ∷ 5 ∷ 7 ∷ []), [])
      (parse_tty_data host link (buf_of (0x10 ∷ 5 ∷ 7 ∷ [])))
parse_tty_data_lem_example =
    parse_tty_data_lem host link (buf_of-IsValid (0x10 ∷ 5 ∷ 7 ∷ []) (omega arith))

parse_tty_data-split_example :
    (parse_tty_data host link (buf_of (0x10 ∷ 5 ∷ []))).0
    ≡ (parse_tty_data host (parse_tty_data host link (buf_of (0x10 ∷ []))).0 (buf_of (5 ∷ []))).0
unfolding refused
parse_tty_data-split_example =
    parse_tty_data-split host link (buf_of-IsValid (0x10 ∷ 5 ∷ []) (omega arith))
      (buf_of-IsValid (0x10 ∷ []) (omega arith)) (buf_of-IsValid (5 ∷ []) (omega arith)) refl refl

link_bytes-frame_example :
    (d : Conn) × Holds link msg_bytes d
    × (link_bytes host link (frame false msg_bytes ++ 0x10 ∷ [])
        ≡ link_bytes host (accept_msg host d) (0x10 ∷ []))
link_bytes-frame_example =
    link_bytes-frame host link msg_bytes (0x10 ∷ []) refl refl empty20-IsValid (omega arith)

-- The link with a message and its checksum received.
abbrev full : Conn
full = record link {
  rx = record rx { state = rx_cs1; app = buf_of msg_bytes; acc_cs = 43; msg_cs = 213 };
}

accept_msg-delivers_example : Delivered host full client msg_bytes (accept_msg host full)
unfolding cs_ok bcc_close find_addr
accept_msg-delivers_example =
    accept_msg-delivers host full 9 app client (buf_of-IsValid msg_bytes (omega arith)) refl refl
      (omega arith) refl refl refl refl empty20-IsValid (omega arith)

accept_msg-bad_example :
    Answered
      (record link { rx = record rx { state = rx_cs1 } })
      sym_nak
      (accept_msg host (record link { rx = record rx { state = rx_cs1 } }))
accept_msg-bad_example =
    accept_msg-bad host (record link { rx = record rx { state = rx_cs1 } }) empty20-IsValid
      (omega arith) refl

-- The message comes for the first time, and then again.
abbrev once : Conn
once = record full { rx = record (full.rx) { dup_detect = true } }

abbrev again : Conn
again = record once { rx = record (once.rx) { dup = (accept_msg host once).rx.dup } }

accept_msg-repeated_example :
    Answered again sym_ack (accept_msg host again) × ((accept_msg host again).dcnts.dups ≡ 1)
unfolding cs_ok bcc_close
accept_msg-repeated_example =
    accept_msg-repeated host once again 9 9 0x10 15 0 0 1 2 [] [] (omega arith) refl refl refl refl
      (omega arith) refl refl refl empty20-IsValid (omega arith)

parse_tty_data-frame_example :
    Delivered host link client msg_bytes
      (parse_tty_data host link (buf_of (frame false msg_bytes))).0
unfolding sum_cs bcc_add bcc_close find_addr
parse_tty_data-frame_example =
    parse_tty_data-frame host link 9 app client
      (buf_of-IsValid (frame false msg_bytes) (omega arith)) refl refl refl refl empty20-IsValid
      (omega arith) (omega arith) refl refl empty20-IsValid (omega arith)

-- A client whose buffer has room for two bytes.
abbrev small_client : Client
small_client = record client { sock_out = empty_buf 2 }

abbrev small_link : Conn
small_link = record full { clients = small_client ∷ [] }

empty2-IsValid : IsValid (empty_buf 2)
empty2-IsValid = record {
  storage = refl;
  small = omega arith;
  filled = omega arith;
  read = omega arith;
}

pass_on-full_example :
    let e = pass_on host small_link small_client in
    (e.rx.state ≡ rx_idle)
    × (e.rx.last_was_ack ≡ false)
    × (e.rx.client ≡ some 40)
    × (s : Buf) × Wrote (empty_buf 2) (1 ∷ 6 ∷ []) s
    × (client_at 40 e.clients
        ≡ some (record small_client {
          sock_out = s;
          dcnts = record (small_client.dcnts) { sink_full = 1; msg_rx = 1 };
        }))
pass_on-full_example =
    pass_on-full host small_link small_client (buf_of-IsValid msg_bytes (omega arith))
      empty2-IsValid (omega arith) (omega arith) refl

abbrev sender : Client
sender = record client { state = msg_ready; df1_tx = buf_of msg_bytes }

abbrev full_tty : Conn
full_tty = record link { tty_out = empty_buf 2 }

find_next_tx-stuck_example :
    let e = find_next_tx host (record full_tty { clients = sender ∷ [] }) (some 40) in
    (e.tx.state ≡ tx_idle)
    × (e.tty_out ≡ empty_buf 2)
    × (d : Client) × (e.clients ≡ d ∷ [])
    × (d.id ≡ 40)
    × (d.state ≡ msg_pend)
unfolding frame_msg copy_msg close_msg bcc_add bcc_close buf_append_buf buf_append_byte buf_get_byte
find_next_tx-stuck_example = find_next_tx-stuck host full_tty sender refl refl refl
