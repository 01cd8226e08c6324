-- ===== src/Df1/Faults.antt =====
-- df1d/client.c: where the code does not do what it means to.
use libpccc.Common.{
  ℕ, zero, suc, ◌+◌, ◌≤◌, ◌<◌, ◌≡◌, refl, ap, ◌∙◌, true, false, Option, none, some, [], ◌∷◌, arith,
  ltb, ◌==◌, u8, add_size,
}
use libpccc.Buf.{Buf, buf_append_byte, buf_append_buf}
use libpccc.Buf.Invariant.{IsValid}
use libpccc.Buf.Encode.{Wrote, Wrote-trans, byte-Appends, Appends-room}
use libpccc.Df1.State.{
  Platform, Client, idle, msg_ready, msg_pend, Conn, tx_idle, tx_pend_msg_tx, rx_idle, inc,
  client_at, modify,
}
use libpccc.Df1.Transmit.{
  tx_busy, rx_set_nak, frame_msg, find_next_tx, find_next_tx_on, tx_msg_with, send_msg_with,
  flush_msg, fail_notice, next_ready, first_ready, start_at, submitted,
}
use libpccc.Df1.Receive.{rx_nak, deliver, pass_on}
use libpccc.Df1.Handover.{client_at-modify}

buf_append_full :
    (b s : Buf) → IsValid b → IsValid s → b.max < b.len + s.len → (buf_append_buf b s).0 ≡ b
unfolding buf_append_buf
buf_append_full b s v w h = ground (arith, v.filled, v.small, w.filled, w.small)

-- SOH and the length fit, and the message does not.
deliver-short :
    (p : Platform) (app : Buf) (cl : Client)
    → IsValid app
    → IsValid cl.sock_out
    → cl.sock_out.len + 2 ≤ cl.sock_out.max
    → cl.sock_out.max < cl.sock_out.len + app.len + 2
    → Wrote cl.sock_out (p.msg_soh ∷ u8 app.len ∷ []) (deliver p app cl).sock_out
deliver-short p app cl v w h k =
    let one =
      Appends-room (buf_append_byte cl.sock_out p.msg_soh) (byte-Appends w p.msg_soh)
        (omega arith) in
    let two =
      Appends-room _ (byte-Appends one.1.valid (u8 app.len))
        (omega (arith, one.1.new_len, one.1.same_max)) in
    let b : Buf = (buf_append_byte (buf_append_byte cl.sock_out p.msg_soh).0 (u8 app.len)).0 in
    let kept : (buf_append_buf b app).0 ≡ b =
      buf_append_full b app two.1.valid v
        (omega (arith, two.1.new_len, two.1.same_max, one.1.new_len, one.1.same_max)) in
    rw kept (Wrote-trans one.1 two.1)

-- When the client's buffer has room for SOH and the length, but not for the message, NAK has been
-- decided and the receiver is idle, yet SOH and the length are put into the buffer and the receiver
-- points to the client as if the message had been passed on.
pub pass_on-full :
    (p : Platform) (c : Conn) (cl : Client)
    → IsValid c.rx.app
    → IsValid cl.sock_out
    → cl.sock_out.len + 2 ≤ cl.sock_out.max
    → cl.sock_out.max < cl.sock_out.len + c.rx.app.len + 2
    → client_at cl.id c.clients ≡ some cl
    → let e = pass_on p c cl in
      (e.rx.state ≡ rx_idle)
      × (e.rx.last_was_ack ≡ false)
      × (e.rx.client ≡ some cl.id)
      × (s : Buf) × Wrote cl.sock_out (p.msg_soh ∷ u8 c.rx.app.len ∷ []) s
      × (client_at cl.id e.clients
          ≡ some (record cl {
            sock_out = s;
            dcnts = record (cl.dcnts) {
              sink_full = inc cl.dcnts.sink_full;
              msg_rx = inc cl.dcnts.msg_rx;
            };
          }))
unfolding pass_on rx_nak rx_set_nak
pass_on-full p c cl v w h k at_id =
    let full : ltb cl.sock_out.max (add_size (add_size cl.sock_out.len c.rx.app.len) 2) ≡ true =
      ground (arith, v.filled, v.small, w.filled, w.small) in
    rw full (
      refl,
      refl,
      refl,
      (deliver p c.rx.app cl).sock_out,
      deliver-short p c.rx.app cl v w h k,
      client_at-modify cl.id (deliver p c.rx.app) _ (λ d. refl)
          (client_at-modify cl.id
            (λ d. record d { dcnts = record (d.dcnts) { sink_full = inc d.dcnts.sink_full } })
            c.clients (λ d. refl) at_id),
    )

-- A round of `find_next_tx`, and `send_msg` without room.
module _ (p : Platform) (c : Conn) (cl : Client) where
  pub find_next_tx_on-submits :
      (fuel : ℕ) (start : Option ℕ)
      → c.tx.state ≡ tx_idle
      → next_ready c start ≡ some cl
      → find_next_tx_on (suc fuel) p c start ≡ (
          let sent = tx_msg_with (λ d. find_next_tx_on fuel p (fail_notice p d) none) p c cl in
          record sent { clients = modify cl.id submitted sent.clients })
  unfolding find_next_tx_on
  find_next_tx_on-submits fuel start s n = let free : tx_busy c.tx ≡ false = rw s in rw (free, n)

pub find_next_tx_on-none :
    (p : Platform) (c : Conn) (fuel : ℕ) (start : Option ℕ)
    → next_ready c start ≡ none
    → find_next_tx_on fuel p c start ≡ c
unfolding find_next_tx_on
find_next_tx_on-none p c zero start n = refl
find_next_tx_on-none p c (suc fuel) start n = ground arith

send_msg_with-full :
    (fail : Conn → Conn) (c : Conn)
    → (buf_append_buf c.tty_out c.tx.msg).1 ≡ true
    → send_msg_with fail c
      ≡ fail (record c { tx = flush_msg (record (c.tx) { state = tx_pend_msg_tx }) })
unfolding send_msg_with
send_msg_with-full fail c h = rw h

modify_one : (q : ℕ) (f : Client → Client) (d : Client) → d.id ≡ q → modify q f (d ∷ []) ≡ f d ∷ []
modify_one q f d e = let here : (d.id == q) ≡ true = ground arith in rw here

-- The connection when the frame has been made, and after the notice of failure, when no client is
-- ready any more.
module _ (p : Platform) (c : Conn) (cl : Client) where
  abbrev framed_client : Client
  framed_client = record cl { df1_tx = (frame_msg p c.use_crc c.tx.msg cl.df1_tx).0 }

  abbrev framed : Conn
  framed = record c {
    tx = record (c.tx) {
      msg = (frame_msg p c.use_crc c.tx.msg cl.df1_tx).1.0;
      client = some cl.id;
    };
    clients = framed_client ∷ [];
  }

  abbrev idled : Client
  idled = record framed_client {
    sock_out = (buf_append_byte cl.sock_out p.msg_nak).0;
    state = idle;
    dcnts = record (cl.dcnts) { tx_fail = inc cl.dcnts.tx_fail };
  }

  abbrev failed : Conn
  failed = record framed {
    tx = flush_msg (record (framed.tx) { state = tx_pend_msg_tx });
    clients = idled ∷ [];
  }

  nobody_ready : next_ready failed none ≡ none
  unfolding next_ready start_at first_ready flush_msg
  nobody_ready =
      let same_id : (cl.id == cl.id) ≡ true = ground arith in rw (next_ready, same_id) (rw same_id)

  notice :
      fail_notice p
        (record framed { tx = flush_msg (record (framed.tx) { state = tx_pend_msg_tx }) })
      ≡ failed
  unfolding fail_notice flush_msg
  notice = let same_id : (cl.id == cl.id) ≡ true = ground arith in rw same_id

  send_fails :
      (buf_append_buf c.tty_out (frame_msg p c.use_crc c.tx.msg cl.df1_tx).1.0).1 ≡ true
      → send_msg_with (λ d. find_next_tx_on 1 p (fail_notice p d) none) framed ≡ failed
  send_fails h =
      send_msg_with-full (λ d. find_next_tx_on 1 p (fail_notice p d) none) framed h
      ∙ ap (λ d. find_next_tx_on 1 p d none) notice
      ∙ find_next_tx_on-none p failed 1 none nobody_ready

abbrev pub attempted : Conn → Conn
attempted d = record d { dcnts = record (d.dcnts) { tx_attempts = inc d.dcnts.tx_attempts } }

tx_msg_fails :
    (p : Platform) (c : Conn) (cl : Client)
    → (buf_append_buf c.tty_out (frame_msg p c.use_crc c.tx.msg cl.df1_tx).1.0).1 ≡ true
    → tx_msg_with
        (λ d. find_next_tx_on 1 p (fail_notice p d) none)
        p
        (record c { clients = cl ∷ [] })
        cl
      ≡ attempted (failed p c cl)
unfolding tx_msg_with
tx_msg_fails p c cl h =
    let fail : Conn → Conn = λ d. find_next_tx_on 1 p (fail_notice p d) none in
    ap (λ l. attempted (send_msg_with fail (record (framed p c cl) { clients = l })))
      (modify_one cl.id (λ d. record d { df1_tx = (framed_client p c cl).df1_tx }) cl refl)
    ∙ ap attempted (send_fails p c cl h)

abbrev pub submits : ℕ → Conn → Conn
submits q d = record d { clients = modify q submitted d.clients }

-- When the only client has a message ready and its frame does not fit into the TTY's buffer, no
-- message is out when `find_next_tx` returns, but the client waits for one to be answered.
pub find_next_tx-stuck :
    (p : Platform) (c : Conn) (cl : Client)
    → c.tx.state ≡ tx_idle
    → cl.state ≡ msg_ready
    → (buf_append_buf c.tty_out (frame_msg p c.use_crc c.tx.msg cl.df1_tx).1.0).1 ≡ true
    → let e = find_next_tx p (record c { clients = cl ∷ [] }) (some cl.id) in
      (e.tx.state ≡ tx_idle)
      × (e.tty_out ≡ c.tty_out)
      × (d : Client) × (e.clients ≡ d ∷ [])
      × (d.id ≡ cl.id)
      × (d.state ≡ msg_pend)
unfolding find_next_tx next_ready start_at first_ready flush_msg
find_next_tx-stuck p c cl s r h =
    let same_id : (cl.id == cl.id) ≡ true = ground arith in
    let c1 : Conn = record c { clients = cl ∷ [] } in
    let here : next_ready c1 (some cl.id) ≡ some cl = rw (same_id, r) in
    let total : find_next_tx p c1 (some cl.id) ≡ submits cl.id (attempted (failed p c cl)) =
      find_next_tx_on-submits p c1 cl 1 (some cl.id) s here
      ∙ ap (submits cl.id) (tx_msg_fails p c cl h) in
    rw total (
      refl,
      refl,
      submitted (idled p c cl),
      modify_one cl.id submitted (idled p c cl) refl,
      refl,
      refl,
    )
