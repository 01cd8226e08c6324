-- ===== src/Df1/Delivery.antt =====
-- df1d/rx.c and df1d/client.c: a frame from the transmitter reaches the client that it is for.
use libpccc.Common.{
  ℕ, ◌≡◌, refl, ap, ◌∙◌, Bool, true, false, List, ◌∷◌, ◌++◌, arith, length, ◌≤◌, append_assoc,
}
use libpccc.Buf.{unread, contents}
use libpccc.Buf.Invariant.{IsValid}
use libpccc.Buf.Encode.{unread-Wrote}
use libpccc.Df1.State.{Platform, Conn, rx_idle, sym_stx, sym_etx, sym_dle}
use libpccc.Df1.Checksum.{cs_ok}
use libpccc.Df1.Receive.{accept_msg}
use libpccc.Df1.Frame.{escape, cs_bytes, frame}
use libpccc.Df1.Stream.Bytes.{link_bytes}
use libpccc.Df1.Loopback.{Taking, took_all}
use libpccc.Df1.Closing.{started, checked, link_bytes-stx, link_bytes-close, cs_ok-checked}

-- What `accept_msg` is given of a message: the connection as it was, but for the receiver.
pub record Holds (c : Conn) (app : List ℕ) (d : Conn) : Type 0 where
  pub text : unread d.rx.app ≡ app
  pub size : d.rx.app.len ≡ length app
  pub whole : contents d.rx.app ≡ app
  pub valid : IsValid d.rx.app
  pub same_crc : d.use_crc ≡ c.use_crc
  pub same_dup : (d.rx.dup_detect ≡ c.rx.dup_detect) × (d.rx.dup ≡ c.rx.dup)
  pub same_clients : d.clients ≡ c.clients
  pub same_out : d.tty_out ≡ c.tty_out
  pub same_tx : d.tx ≡ c.tx
  pub same_counts : d.dcnts ≡ c.dcnts
  pub good_cs : cs_ok d ≡ true

frame-append :
    (use_crc : Bool) (app rest : List ℕ)
    → frame use_crc app ++ rest
      ≡ sym_dle ∷ sym_stx ∷ (escape app ++ (sym_dle ∷ sym_etx ∷ (cs_bytes use_crc app ++ rest)))
frame-append use_crc app rest =
    ap (λ l. sym_dle ∷ sym_stx ∷ l)
      (append_assoc (escape app) (sym_dle ∷ sym_etx ∷ cs_bytes use_crc app) rest)

-- An idle receiver with a well-formed buffer, before which no DLE was read, that reads the frame
-- that `tx_msg` makes of a message, the message being no longer than its buffer, hands exactly that
-- message to `accept_msg`, with a checksum that is right, and goes on with the bytes behind the
-- frame. Clients, transmitter, output and counters are then as they were.
pub link_bytes-frame :
    (p : Platform) (c : Conn) (app rest : List ℕ)
    → c.rx.state ≡ rx_idle
    → c.read_sym ≡ false
    → IsValid c.rx.app
    → length app ≤ c.rx.app.max
    → (d : Conn) × Holds c app d
      × (link_bytes p c (frame c.use_crc app ++ rest) ≡ link_bytes p (accept_msg p d) rest)
unfolding checked
link_bytes-frame p c app rest s r v h =
    let t : Taking (started c) = record {
      state = refl;
      plain = refl;
      complete = refl;
      valid = record {
        storage = v.storage;
        small = v.small;
        filled = omega arith;
        read = omega arith;
      };
    } in
    let all = took_all p app t (omega arith) in
    (
      checked c all.0 app,
      record {
        text = unread-Wrote t.valid all.1;
        size = all.1.new_len ∙ (omega arith);
        whole = all.1.text;
        valid = all.1.valid;
        same_crc = refl;
        same_dup = (refl, refl);
        same_clients = refl;
        same_out = refl;
        same_tx = refl;
        same_counts = refl;
        good_cs = cs_ok-checked c all.0 app;
      },
      ap (link_bytes p c) (frame-append c.use_crc app rest)
          ∙ link_bytes-stx p c _ s r
          ∙ all.2 (sym_dle ∷ sym_etx ∷ (cs_bytes c.use_crc app ++ rest))
          ∙ link_bytes-close p c all.0 app rest,
    )
