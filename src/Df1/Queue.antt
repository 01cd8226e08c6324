-- ===== src/Df1/Queue.antt =====
-- df1d/tx.c and `find_next_tx` of df1d/client.c: how a client's message goes out, is repeated and
-- is given up.
use libpccc.Common.{
  ℕ, ◌+◌, ◌≤◌, ◌≡◌, refl, ap, ◌∙◌, false, Option, none, some, List, [], ◌++◌, arith, length, take,
}
use libpccc.ByteOrder.{little_endian}
use libpccc.Buf.{Buf, unread, contents, buf_append_buf}
use libpccc.Buf.Invariant.{IsValid}
use libpccc.Buf.Encode.{Wrote, buf-Appends, Appends-room}
use libpccc.Df1.State.{Platform, Client, msg_pend, Conn, tx_idle, tx_pend_msg_tx, client_at, modify}
use libpccc.Df1.Transmit.{
  frame_msg, find_next_tx, find_next_tx_on, tx_msg_with, send_msg_with, fail_notice, next_ready,
  submitted,
}
use libpccc.Df1.Frame.{frame, frame_msg-Appends}
use libpccc.Df1.Handover.{client_at-modify}
use libpccc.Df1.Faults.{find_next_tx_on-submits, attempted, submits}

pub send_msg_with-room :
    (fail : Conn → Conn) (c : Conn)
    → (buf_append_buf c.tty_out c.tx.msg).1 ≡ false
    → send_msg_with fail c ≡ record c {
      tx = record (c.tx) { state = tx_pend_msg_tx };
      tty_out = (buf_append_buf c.tty_out c.tx.msg).0;
    }
unfolding send_msg_with
send_msg_with-room fail c h = rw h

contents_empty : (b : Buf) → b.len ≡ 0 → contents b ≡ []
contents_empty b e = rw e (take_zero b.cells)
  where
    take_zero : (xs : List ℕ) → take 0 xs ≡ []
    take_zero xs = refl

-- A message is on its way: its frame is in the TTY's buffer and is kept for repetitions, and the
-- client waits.
pub record Sends (c : Conn) (cl : Client) (bytes : List ℕ) (e : Conn) : Type 0 where
  pub state : e.tx.state ≡ tx_pend_msg_tx
  pub owner : e.tx.client ≡ some cl.id
  pub out : Wrote c.tty_out bytes e.tty_out
  pub kept : contents e.tx.msg ≡ bytes
  pub same_rx : e.rx ≡ c.rx
  pub target : Client
  pub waits : (client_at cl.id e.clients ≡ some target) × (target.state ≡ msg_pend)

-- A transmitter that is idle and whose buffer is empty sends, on a little-endian host, the message
-- of the first ready client from the given one on, if the frame fits its own buffer and what is
-- left of the TTY's buffer. The buffers are well-formed, and the client's number names that client.
pub find_next_tx-Sends :
    (p : Platform) (c : Conn) (start : Option ℕ) (cl : Client) (app : List ℕ)
    → p.endian ≡ little_endian
    → c.tx.state ≡ tx_idle
    → next_ready c start ≡ some cl
    → client_at cl.id c.clients ≡ some cl
    → IsValid c.tx.msg
    → c.tx.msg.len ≡ 0
    → IsValid c.tty_out
    → IsValid cl.df1_tx
    → unread cl.df1_tx ≡ app
    → length (frame c.use_crc app) ≤ c.tx.msg.max
    → c.tty_out.len + length (frame c.use_crc app) ≤ c.tty_out.max
    → Sends c cl (frame c.use_crc app) (find_next_tx p c start)
unfolding find_next_tx tx_msg_with
find_next_tx-Sends p c start cl app le s next at_id v empty vo vd text room out =
    let msg : Buf = (frame_msg p c.use_crc c.tx.msg cl.df1_tx).1.0 in
    let src : Buf = (frame_msg p c.use_crc c.tx.msg cl.df1_tx).0 in
    let r =
      Appends-room (frame_msg p c.use_crc c.tx.msg cl.df1_tx).1
        (frame_msg-Appends p c.use_crc app {msg = c.tx.msg} {src = cl.df1_tx} le v vd text)
        (omega arith) in
    let bytes : contents msg ≡ frame c.use_crc app =
      r.1.text ∙ ap (λ l. l ++ frame c.use_crc app) (contents_empty c.tx.msg empty) in
    let sent =
      Appends-room (buf_append_buf c.tty_out msg) (buf-Appends vo r.1.valid)
        (omega (arith, ap (length {0}) bytes)) in
    let fail : Conn → Conn = λ d. find_next_tx_on (length c.clients) p (fail_notice p d) none in
    let framed : Conn = record c {
      tx = record (c.tx) { msg = msg; client = some cl.id };
      clients = modify cl.id (λ d. record d { df1_tx = src }) c.clients;
    } in
    let gone : Conn = record framed {
      tx = record (framed.tx) { state = tx_pend_msg_tx };
      tty_out = (buf_append_buf c.tty_out msg).0;
    } in
    let total : find_next_tx p c start ≡ submits cl.id (attempted gone) =
      find_next_tx_on-submits p c cl (length c.clients) start s next
      ∙ ap (λ d. submits cl.id (attempted d)) (send_msg_with-room fail framed sent.0) in
    rw total (record {
      state = refl;
      owner = refl;
      out = rw bytes at sent.1;
      kept = bytes;
      same_rx = refl;
      target = submitted (record cl { df1_tx = src });
      waits = (
        client_at-modify cl.id submitted _ (λ d. refl)
            (client_at-modify cl.id (λ d. record d { df1_tx = src }) c.clients (λ d. refl) at_id),
        refl,
      );
    })
