-- ===== src/Df1/Receive/Deliver.antt =====
-- df1d/client.c, `client_msg_rx` and `find_addr`: a message is passed on to a client.
use libpccc.Common.{
  ℕ, Bool, true, false, ◌&&◌, Option, none, some, List, [], ◌∷◌, ltb, ◌==◌, if◌then◌else◌, u8,
  add_size,
}
use libpccc.Buf.{Buf, buf_append_buf, buf_append_byte, buf_get_byte}
use libpccc.Df1.State.{Platform, Client, connected, reg_len, reg_name, Conn, inc, modify}
use libpccc.Df1.Receive.Answers.{rx_ack, rx_nak}

abbrev pub is_registered : Client → Bool
is_registered cl = elim cl.state [
  | connected ↦ false
  | reg_len ↦ false
  | reg_name ↦ false
  | _ ↦ true
]

unfoldable pub find_addr : List Client → ℕ → Option Client
find_addr [] addr = none
find_addr (c ∷ cs) addr = if is_registered c && c.addr == addr then some c else find_addr cs addr

-- The SOH, the length (as a byte) and the message are put behind what `sock_out` holds, also after
-- the test has found that they do not fit.
abbrev pub deliver : Platform → Buf → Client → Client
deliver p app cl = record cl {
  sock_out =
      (buf_append_buf (buf_append_byte (buf_append_byte cl.sock_out p.msg_soh).0 (u8 app.len)).0
        app).0;
  dcnts = record (cl.dcnts) { msg_rx = inc cl.dcnts.msg_rx };
}

unfoldable pub pass_on : Platform → Conn → Client → Conn
pass_on p conn cl =
    let refused : Conn =
      let c : Conn = rx_nak conn in
      record c {
        clients =
            modify cl.id
              (λ d. record d { dcnts = record (d.dcnts) { sink_full = inc d.dcnts.sink_full } })
              c.clients;
      } in
    let new_len : ℕ = add_size (add_size cl.sock_out.len conn.rx.app.len) 2 in
    let conn' : Conn = if ltb cl.sock_out.max new_len then refused else conn in
    record conn' {
      rx = record (conn'.rx) { client = some cl.id };
      clients = modify cl.id (deliver p conn'.rx.app) conn'.clients;
    }

-- `dst` keeps the uninitialised value `junk` if the message is empty.
unfoldable pub client_msg_rx : Platform → ℕ → Conn → Conn
client_msg_rx p junk conn =
    let (app, first) = buf_get_byte conn.rx.app in
    let dst : ℕ = elim first [ none ↦ junk | some x ↦ x ] in
    let conn' : Conn = record conn { rx = record (conn.rx) { app = app } } in
    let unknown : Conn =
      rx_ack (record conn' {
        dcnts = record (conn.dcnts) { unknown_dst = inc conn.dcnts.unknown_dst };
      }) in
    elim (find_addr conn.clients dst) [ none ↦ unknown | some cl ↦ pass_on p conn' cl ]
