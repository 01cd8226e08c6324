-- ===== src/Df1/Sockets.antt =====
-- df1d/client.c: the clients' sockets: accepting, registering and closing clients, and the bytes
-- that they send. Log messages, `accept` itself and `close` are left out.
use libpccc.Common.{
  ℕ, zero, suc, ◌+◌, Bool, true, false, Option, none, some, List, [], ◌∷◌, ◌++◌, ltb, ◌==◌,
  if◌then◌else◌, length, set, u8, replicate,
}
use libpccc.Buf.{Buf, buf_append_byte, buf_get_byte}
use libpccc.Df1.State.{
  Platform, Client, ClientCounts, ClientState, connected, reg_len, reg_name, idle, msg_len, msg,
  msg_ready, msg_pend, Conn, inc, client_at, modify,
}
use libpccc.Df1.Transmit.{find_next_tx}
use libpccc.Df1.Receive.{rx_ack, rx_nak, find_addr}

abbrev pub same_client : Option ℕ → ℕ → Bool
same_client none p = false
same_client (some q) p = q == p

-- The client's `state` becomes what is given, through the pointer.
abbrev pub set_state : ℕ → ClientState → Conn → Conn
set_state p s conn = record conn { clients = modify p (λ cl. record cl { state = s }) conn.clients }

unfoldable pub rcv_ack : Conn → ℕ → Conn
rcv_ack conn p =
    let c : Conn = rx_ack conn in
    let accepted : Conn = record c {
      clients =
          modify p
            (λ cl. record cl { dcnts = record (cl.dcnts) { msg_accept = inc cl.dcnts.msg_accept } })
            c.clients;
    } in
    if same_client conn.rx.client p then accepted else conn

unfoldable pub rcv_nak : Conn → ℕ → Conn
rcv_nak conn p =
    let c : Conn = rx_nak conn in
    let rejected : Conn = record c {
      clients =
          modify p
            (λ cl. record cl { dcnts = record (cl.dcnts) { msg_reject = inc cl.dcnts.msg_reject } })
            c.clients;
    } in
    if same_client conn.rx.client p then rejected else conn

-- Whether the address is in use; if not, the client is registered.
unfoldable pub reg_client : Conn → Client → Conn × Bool
reg_client conn cl = elim (find_addr conn.clients cl.addr) [
  | some other ↦ (conn, true)
  | none ↦ (set_state cl.id idle conn, false)
]

-- `client->name[i] = byte`, without a test of `i`.
unfoldable pub write_name : Platform → Client → ℕ → ℕ → Conn → Conn
write_name p cl i byte conn =
    if ltb i (length cl.name)
    then record conn {
      clients = modify cl.id (λ d. record d { name = set d.name i byte }) conn.clients;
    }
    else p.beyond cl.id i byte conn

-- The zero behind a name that is complete, and the registration, once the client is read again.
abbrev pub register : Conn → Option Client → Conn × Bool
register conn none = (conn, true)
register conn (some cl) = reg_client conn cl

-- What is left to do when the byte is written: the client is read again, as the code goes through
-- the pointer.
abbrev pub named : Platform → Conn → Option Client → Conn × Bool
named p conn none = (conn, true)
named p conn (some cl) =
    let ended : Conn = write_name p cl cl.name_len 0 conn in
    if cl.name_len_rcvd == cl.name_len
    then register ended (client_at cl.id ended.clients)
    else (conn, false)

-- `name_len_rcvd++`, of a `uint8_t`.
abbrev pub count_name_byte : Client → Client
count_name_byte cl = record cl { name_len_rcvd = u8 (cl.name_len_rcvd + 1) }

unfoldable pub name_byte : Platform → Conn → Client → ℕ → Conn × Bool
unfolding write_name reg_client
name_byte p conn cl byte =
    let counted : Conn = record conn { clients = modify cl.id count_name_byte conn.clients } in
    let written : Conn = write_name p cl cl.name_len_rcvd byte counted in
    named p written (client_at cl.id written.clients)

-- `rcv_app`; `full` is the message's length reached by this byte.
unfoldable pub rcv_app : Platform → Conn → Client → ℕ → Conn × Bool
rcv_app p conn cl byte =
    let (df1_tx, overflow) = buf_append_byte cl.df1_tx byte in
    let conn' : Conn = record conn {
      clients = modify cl.id (λ c. record c { df1_tx = df1_tx }) conn.clients;
    } in
    if overflow
    then (conn, true)
    else if df1_tx.len == cl.new_msg_len
    then (find_next_tx p (set_state cl.id msg_ready conn') (some cl.id), false)
    else (conn', false)

-- The inner `switch`, for a client that is not in the middle of a message.
unfoldable pub control_byte : Platform → Conn → Client → ℕ → Conn × Bool
unfolding rcv_ack rcv_nak
control_byte p conn cl byte =
    if byte == p.msg_soh
    then (conn, true)
    else if byte == p.msg_ack
    then (rcv_ack conn cl.id, false)
    else if byte == p.msg_nak
    then (rcv_nak conn cl.id, false)
    else (conn, true)

-- One round of `parse_sock_data`, and whether the client has to be closed.
unfoldable pub sock_byte : Platform → Conn → Client → ℕ → Conn × Bool
unfolding name_byte control_byte rcv_app
sock_byte p conn cl byte = elim cl.state [
  | connected ↦ (
    record conn {
      clients = modify cl.id (λ c. record c { addr = byte; state = reg_len }) conn.clients;
    },
    false,
  )
  | reg_len ↦ (
    record conn {
      clients = modify cl.id (λ c. record c { name_len = byte; state = reg_name }) conn.clients;
    },
    false,
  )
  | reg_name ↦ name_byte p conn cl byte
  | idle ↦
      if byte == p.msg_soh
      then (set_state cl.id msg_len conn, false)
      else control_byte p conn cl byte
  | msg_ready ↦ control_byte p conn cl byte
  | msg_pend ↦ control_byte p conn cl byte
  | msg_len ↦ (
    record conn {
      clients = modify cl.id (λ c. record c { new_msg_len = byte; state = msg }) conn.clients;
    },
    false,
  )
  | msg ↦ rcv_app p conn cl byte
]

-- The loop over the bytes in `sock_in`, on fuel. The client is looked up in every round, as the
-- code goes through the pointer.
unfoldable pub sock_loop : ℕ → Platform → Conn → ℕ → Buf → Conn × Buf × Bool
sock_loop zero p conn id sock_in = (conn, sock_in, false)
sock_loop (suc fuel) p conn id sock_in =
    let (sock_in', next) = buf_get_byte sock_in in
    elim next [
      | none ↦ (conn, sock_in', false)
      | some byte ↦ elim (client_at id conn.clients) [
        | none ↦ (conn, sock_in', true)
        | some cl ↦
            let (conn', bad) = sock_byte p conn cl byte in
            let rest : Conn × Buf × Bool = sock_loop fuel p conn' id sock_in' in
            if bad then (conn', sock_in', true) else rest
      ]
    ]

unfoldable pub parse_sock_data : Platform → Conn → ℕ → Buf → Conn × Buf × Bool
parse_sock_data p conn id sock_in = sock_loop (suc sock_in.len) p conn id sock_in

-- The list without the client.
abbrev pub unlink : ℕ → List Client → List Client
unlink p [] = []
unlink p (c ∷ cs) = if c.id == p then cs else c ∷ unlink p cs

unfoldable pub close_client : Conn → ℕ → Conn
close_client conn p =
    let conn1 : Conn =
      if same_client conn.tx.client p
      then record conn { tx = record (conn.tx) { client = none } }
      else conn in
    let conn2 : Conn = if same_client conn1.rx.client p then rx_ack conn1 else conn1 in
    record conn2 { clients = unlink p conn2.clients }

abbrev pub no_counts : ClientCounts
no_counts = record {
  tx_attempts = 0;
  tx_success = 0;
  tx_fail = 0;
  sink_full = 0;
  msg_rx = 0;
  msg_reject = 0;
  msg_accept = 0;
  rx_timeouts = 0;
}

-- The name of a client that has not registered, "*!REG*", in an array of 17 characters.
abbrev pub unregistered : List ℕ
unregistered = b'*' ∷ b'!' ∷ b'R' ∷ b'E' ∷ b'G' ∷ b'*' ∷ replicate 11 0

-- `client_accept` once the new socket and the memory are there: the structure at `p`, zero but for
-- its buffers, its name and its state, goes to the end of the list.
unfoldable pub client_accept : Conn → ℕ → Buf → Buf → Conn
client_accept conn p df1_tx sock_out = record conn {
  clients =
      conn.clients
      ++ record {
        id = p;
        name = unregistered;
        state = connected;
        addr = 0;
        name_len = 0;
        name_len_rcvd = 0;
        new_msg_len = 0;
        df1_tx = df1_tx;
        sock_out = sock_out;
        dcnts = no_counts;
      }
        ∷ [];
}
