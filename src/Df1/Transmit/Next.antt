-- ===== src/Df1/Transmit/Next.antt =====
-- df1d/client.c, `find_next_tx` and the notices to clients, and df1d/tx.c, `tx_msg` and `send_msg`,
-- which call each other: a message that cannot be sent makes the service look for the next one,
-- which may fail as well. Freeing memory is left out.
use libpccc.Common.{
  ℕ, zero, suc, Bool, true, false, Option, none, some, List, [], ◌∷◌, ◌++◌, ◌==◌, if◌then◌else◌,
  length,
}
use libpccc.Buf.{buf_empty, buf_append_buf, buf_append_byte}
use libpccc.Df1.State.{
  Platform, Client, idle, msg_ready, msg_pend, tx_pend_msg_tx, Conn, inc, modify, modify_opt,
}
use libpccc.Df1.Transmit.Frames.{tx_busy, flush_msg, frame_msg}

-- The notices to the client whose message is being transmitted; without one, nothing happens.
-- They are the first parts of `client_msg_tx_ok` and `client_msg_tx_fail`.
unfoldable pub ok_notice : Platform → Conn → Conn
ok_notice p conn = record conn {
  clients =
      modify_opt conn.tx.client
        (λ cl. record cl {
          sock_out = (buf_append_byte cl.sock_out p.msg_ack).0;
          state = idle;
          dcnts = record (cl.dcnts) { tx_success = inc cl.dcnts.tx_success };
        })
        conn.clients;
}

unfoldable pub fail_notice : Platform → Conn → Conn
fail_notice p conn = record conn {
  clients =
      modify_opt conn.tx.client
        (λ cl. record cl {
          sock_out = (buf_append_byte cl.sock_out p.msg_nak).0;
          state = idle;
          dcnts = record (cl.dcnts) { tx_fail = inc cl.dcnts.tx_fail };
        })
        conn.clients;
}

-- The clients from one on, those before it, and the one behind it, with the C null pointer for the
-- end of the list.
abbrev pub from_client : ℕ → List Client → List Client
from_client p [] = []
from_client p (c ∷ cs) = if c.id == p then c ∷ cs else from_client p cs

abbrev pub before_client : ℕ → List Client → List Client
before_client p [] = []
before_client p (c ∷ cs) = if c.id == p then [] else c ∷ before_client p cs

abbrev pub first_id : List Client → Option ℕ
first_id [] = none
first_id (c ∷ cs) = some c.id

abbrev pub next_id : ℕ → List Client → Option ℕ
next_id p [] = none
next_id p (c ∷ cs) = if c.id == p then first_id cs else next_id p cs

abbrev pub or_first : List Client → Option ℕ → Option ℕ
or_first cs none = first_id cs
or_first cs (some p) = some p

abbrev pub is_ready : Client → Bool
is_ready cl = elim cl.state [ msg_ready ↦ true | _ ↦ false ]

unfoldable pub first_ready : List Client → Option Client
first_ready [] = none
first_ready (c ∷ cs) = if is_ready c then some c else first_ready cs

-- Where the search of `find_next_tx` starts, and its loop: once round the list.
unfoldable pub start_at : Conn → Option ℕ → Option ℕ
start_at conn (some p) = some p
start_at conn none = elim conn.tx.client [
  | none ↦ first_id conn.clients
  | some t ↦ or_first conn.clients (next_id t conn.clients)
]

unfoldable pub next_ready : Conn → Option ℕ → Option Client
unfolding start_at first_ready
next_ready conn start = elim (start_at conn start) [
  | none ↦ none
  | some p ↦ first_ready (from_client p conn.clients ++ before_client p conn.clients)
]

-- `send_msg`; `fail` is `client_msg_tx_fail`.
unfoldable pub send_msg_with : (Conn → Conn) → Conn → Conn
unfolding flush_msg
send_msg_with fail conn =
    let sent : Conn = record conn { tx = record (conn.tx) { state = tx_pend_msg_tx } } in
    let (out, full) = buf_append_buf conn.tty_out conn.tx.msg in
    if full then fail (record sent { tx = flush_msg sent.tx }) else record sent { tty_out = out }

-- `tx_msg`. An overflow is only logged.
unfoldable pub tx_msg_with : (Conn → Conn) → Platform → Conn → Client → Conn
tx_msg_with fail p conn cl =
    let (src, out) = frame_msg p conn.use_crc conn.tx.msg cl.df1_tx in
    let framed : Conn = record conn {
      tx = record (conn.tx) { msg = out.0; client = some cl.id };
      clients = modify cl.id (λ c. record c { df1_tx = src }) conn.clients;
    } in
    let sent : Conn = send_msg_with fail framed in
    record sent { dcnts = record (sent.dcnts) { tx_attempts = inc sent.dcnts.tx_attempts } }

-- What `find_next_tx` does to the client after `tx_msg`.
abbrev pub submitted : Client → Client
submitted cl = record cl {
  df1_tx = buf_empty cl.df1_tx;
  state = msg_pend;
  dcnts = record (cl.dcnts) { tx_attempts = inc cl.dcnts.tx_attempts };
}

-- `find_next_tx`. The fuel bounds the messages that fail one after the other: each takes a client
-- out of the ready ones, so that one more than the number of clients is enough.
unfoldable pub find_next_tx_on : ℕ → Platform → Conn → Option ℕ → Conn
find_next_tx_on zero p conn start = conn
find_next_tx_on (suc fuel) p conn start =
    let fail : Conn → Conn = λ c. find_next_tx_on fuel p (fail_notice p c) none in
    let submit : Client → Conn = λ cl.
      let sent : Conn = tx_msg_with fail p conn cl in
      record sent { clients = modify cl.id submitted sent.clients } in
    if tx_busy conn.tx
    then conn
    else elim (next_ready conn start) [ none ↦ conn | some cl ↦ submit cl ]

unfoldable pub find_next_tx : Platform → Conn → Option ℕ → Conn
find_next_tx p conn start = find_next_tx_on (suc (length conn.clients)) p conn start

unfoldable pub client_msg_tx_ok : Platform → Conn → Conn
client_msg_tx_ok p conn = find_next_tx p (ok_notice p conn) none

unfoldable pub client_msg_tx_fail : Platform → Conn → Conn
client_msg_tx_fail p conn = find_next_tx p (fail_notice p conn) none
