-- ===== src/Df1/EndToEnd.antt =====
-- df1d/tx.c, df1d/conn.c, df1d/rx.c and df1d/client.c: from one service to a client of the other.
use libpccc.Common.{
  ℕ, ◌+◌, ◌≤◌, ◌≡◌, refl, ap, sym, ◌∙◌, false, some, List, [], ◌∷◌, length, append-nil, arith,
}
use libpccc.Buf.{Buf, unread}
use libpccc.Buf.Invariant.{IsValid}
use libpccc.Df1.State.{Platform, Client, Conn, rx_idle, client_at}
use libpccc.Df1.Receive.{find_addr, accept_msg}
use libpccc.Df1.Link.{parse_tty_data}
use libpccc.Df1.Frame.{frame}
use libpccc.Df1.Stream.Bytes.{link_bytes}
use libpccc.Df1.Stream.Parse.{parse_tty_data_lem}
use libpccc.Df1.Delivery.{Holds, link_bytes-frame}
use libpccc.Df1.Handover.{Delivered, accept_msg-delivers}

Delivered-Holds :
    (p : Platform) {c d e : Conn} {cl : Client} {app msg : List ℕ}
    → Holds c msg d
    → Delivered p d cl app e
    → Delivered p c cl app e
Delivered-Holds p h t = record {
  waits = t.waits;
  owner = t.owner;
  silent = t.silent ∙ h.same_out;
  same_tx = t.same_tx ∙ h.same_tx;
  counted = rw (h.same_counts) at t.counted;
  sock_out = t.sock_out;
  sent = t.sent;
  target = t.target;
}

link_bytes-nil : (p : Platform) (c : Conn) → link_bytes p c [] ≡ c
unfolding link_bytes
link_bytes-nil p c = refl

-- When the unread bytes of the input buffer are the frame that `tx_msg` makes of a message of at
-- least six bytes, the receiver is idle, no DLE came before, repetitions are not looked for, and
-- the receiver's buffer has room for the message, `parse_tty_data` puts SOH, the length and the
-- message into the buffer of the registered client whose address is the message's first byte, if
-- they fit there, and waits for that client, with nothing put out to the TTY. The buffers are
-- well-formed, and the client's number names that client.
pub parse_tty_data-frame :
    (p : Platform) (c : Conn) (x : ℕ) (app : List ℕ) (cl : Client) {tty_in : Buf}
    → IsValid tty_in
    → unread tty_in ≡ frame c.use_crc (x ∷ app)
    → c.rx.state ≡ rx_idle
    → c.read_sym ≡ false
    → c.rx.dup_detect ≡ false
    → IsValid c.rx.app
    → length app + 1 ≤ c.rx.app.max
    → 5 ≤ length app
    → find_addr c.clients x ≡ some cl
    → client_at cl.id c.clients ≡ some cl
    → IsValid cl.sock_out
    → cl.sock_out.len + length app + 3 ≤ cl.sock_out.max
    → Delivered p c cl (x ∷ app) (parse_tty_data p c tty_in).0
parse_tty_data-frame p c x app cl {tty_in} v u s r dup w h k f at_id o room =
    let (d, holds, runs) = link_bytes-frame p c (x ∷ app) [] s r w (omega arith) in
    let same : (parse_tty_data p c tty_in).0 ≡ accept_msg p d =
      (parse_tty_data_lem p c v).0
      ∙ ap (link_bytes p c) (u ∙ sym (append-nil (frame c.use_crc (x ∷ app))))
      ∙ runs
      ∙ link_bytes-nil p (accept_msg p d) in
    let clients = holds.same_clients in
    rw same (
      Delivered-Holds p holds (
        accept_msg-delivers p d x app cl holds.valid holds.text holds.whole k holds.good_cs
          (holds.same_dup.0 ∙ dup) (rw clients f) (rw clients at_id) o room))
