-- ===== src/Df1/Handover.antt =====
-- df1d/rx.c and df1d/client.c: what happens to a message that has come in whole.
use libpccc.Common.{
  subst, not, ℕ, suc, ◌≡◌, refl, ap, sym, ◌∙◌, true, false, List, [], ◌∷◌, arith, none, some, inl,
  inr, Bool-cases, length, ◌==◌, ◌||◌, ◌+◌, ◌≤◌, ltb, u8,
}
use libpccc.Buf.{Buf, unread, contents, buf_append_byte, buf_get_byte, ◌or_else◌}
use libpccc.Buf.Invariant.{IsValid, length-contents}
use libpccc.Buf.Read.{advance, buf_get_byte-cons}
use libpccc.Buf.Encode.{
  or_else-Appends, Wrote, Wrote-trans, byte-Appends, buf-Appends, Appends-room,
}
use libpccc.Df1.State.{
  sym_dle, sym_ack, sym_nak, Platform, Client, Conn, rx_idle, rx_pend, inc, client_at, modify,
}
use libpccc.Df1.Checksum.{cs_ok}
use libpccc.Df1.Transmit.{rx_set_nak}
use libpccc.Df1.Receive.{
  dup_bytes, same_bytes, rx_ack, rx_nak, find_addr, deliver, pass_on, client_msg_rx, accept_unique,
  accept_msg, msg_dup,
}

pub client_at-modify :
    (q : ℕ) (f : Client → Client) (cs : List Client) {cl : Client}
    → ((c : Client) → (f c).id ≡ c.id)
    → client_at q cs ≡ some cl
    → client_at q (modify q f cs) ≡ some (f cl)
client_at-modify q f [] k e = cc
client_at-modify q f (c ∷ cs) k e = elim (Bool-cases (c.id == q)) [
  | inl h ↦ let same : (f c).id ≡ c.id = k c in grind arith
  | inr h ↦ let ih = client_at-modify q f cs k (rw h at e) in rw (h, h) ih
]

-- SOH, the length in a byte and the message, behind what the client's buffer holds.
deliver-Wrote :
    (p : Platform) (app : Buf) (cl : Client)
    → IsValid app
    → IsValid cl.sock_out
    → cl.sock_out.len + app.len + 2 ≤ cl.sock_out.max
    → Wrote cl.sock_out (p.msg_soh ∷ u8 app.len ∷ contents app) (deliver p app cl).sock_out
deliver-Wrote p app cl v w h =
    let one =
      Appends-room (buf_append_byte cl.sock_out p.msg_soh) (byte-Appends w p.msg_soh)
        (omega arith) in
    let two =
      Appends-room _ (byte-Appends one.1.valid (u8 app.len))
        (omega (arith, one.1.new_len, one.1.same_max)) in
    let all = Appends-room _ (buf-Appends two.1.valid v) (
      omega
        (arith, two.1.new_len, two.1.same_max, one.1.new_len, one.1.same_max, length-contents v)) in
    Wrote-trans one.1 (Wrote-trans two.1 all.1)

pub accept_msg-good :
    (p : Platform) (d : Conn)
    → 6 ≤ d.rx.app.len
    → cs_ok d ≡ true
    → accept_msg p d ≡ accept_unique p (msg_dup d)
unfolding accept_msg
accept_msg-good p d h k = ground arith

msg_dup-off : (d : Conn) → d.rx.dup_detect ≡ false → msg_dup d ≡ (d, false)
unfolding msg_dup
msg_dup-off d h = rw h

pub msg_dup-same :
    (d : Conn)
    → d.rx.dup_detect ≡ true
    → same_bytes (dup_bytes d.rx.app) d.rx.dup ≡ true
    → msg_dup d ≡ (
      record d {
        rx = record (d.rx) { dup = dup_bytes d.rx.app };
        dcnts = record (d.dcnts) { dups = inc d.dcnts.dups };
      },
      true,
    )
unfolding msg_dup
msg_dup-same d on same = ground arith

client_msg_rx-known :
    (p : Platform) (junk : ℕ) (c : Conn) (app : Buf) (x : ℕ) (cl : Client)
    → buf_get_byte c.rx.app ≡ (app, some x)
    → find_addr c.clients x ≡ some cl
    → client_msg_rx p junk c ≡ pass_on p (record c { rx = record (c.rx) { app = app } }) cl
unfolding client_msg_rx
client_msg_rx-known p junk c app x cl e f = ground arith

pass_on-room :
    (p : Platform) (c : Conn) (cl : Client)
    → IsValid c.rx.app
    → IsValid cl.sock_out
    → cl.sock_out.len + c.rx.app.len + 2 ≤ cl.sock_out.max
    → pass_on p c cl ≡ record c {
      rx = record (c.rx) { client = some cl.id };
      clients = modify cl.id (deliver p c.rx.app) c.clients;
    }
unfolding pass_on
pass_on-room p c cl v w h = ground (arith, v.filled, v.small, w.filled, w.small)

-- A message has gone to a client, which has to accept it before the link answers.
pub record Delivered (p : Platform) (d : Conn) (cl : Client) (app : List ℕ) (e : Conn)
    : Type 0 where
  pub waits : e.rx.state ≡ rx_pend
  pub owner : e.rx.client ≡ some cl.id
  pub silent : e.tty_out ≡ d.tty_out
  pub same_tx : e.tx ≡ d.tx
  pub counted : e.dcnts.msg_rx ≡ inc d.dcnts.msg_rx
  pub sock_out : Buf
  pub sent : Wrote cl.sock_out (p.msg_soh ∷ u8 (length app) ∷ app) sock_out
  pub target :
      client_at cl.id e.clients
      ≡ some (record cl {
        sock_out = sock_out;
        dcnts = record (cl.dcnts) { msg_rx = inc cl.dcnts.msg_rx };
      })

-- A message of six bytes or more, of which nothing was read, with a right checksum, when
-- repetitions are not looked for, goes to the registered client with the address in its first
-- byte, if SOH, the length and the message fit behind what that client's buffer holds: they are put
-- there. Nothing goes out to the TTY yet: the receiver waits for the client. The buffers are
-- well-formed, and the client's number names that client.
pub accept_msg-delivers :
    (p : Platform) (d : Conn) (x : ℕ) (app : List ℕ) (cl : Client)
    → IsValid d.rx.app
    → unread d.rx.app ≡ x ∷ app
    → contents d.rx.app ≡ x ∷ app
    → 5 ≤ length app
    → cs_ok d ≡ true
    → d.rx.dup_detect ≡ false
    → find_addr d.clients x ≡ some cl
    → client_at cl.id d.clients ≡ some cl
    → IsValid cl.sock_out
    → cl.sock_out.len + length app + 3 ≤ cl.sock_out.max
    → Delivered p d cl (x ∷ app) (accept_msg p d)
unfolding accept_unique
accept_msg-delivers p d x app cl v u t h k dup f at_id w room =
    let size : d.rx.app.len ≡ suc (length app) = sym (length-contents v) ∙ ap (length {0}) t in
    let got = buf_get_byte-cons v u in
    let c1 : Conn = record d {
      rx = record (d.rx) { state = rx_pend };
      dcnts = record (d.dcnts) { msg_rx = inc d.dcnts.msg_rx };
    } in
    let c2 : Conn = record c1 { rx = record (c1.rx) { app = advance 1 d.rx.app } } in
    let e : Conn = record c2 {
      rx = record (c2.rx) { client = some cl.id };
      clients = modify cl.id (deliver p c2.rx.app) c2.clients;
    } in
    let runs : accept_msg p d ≡ e =
      accept_msg-good p d (omega (arith, size)) k
      ∙ ap (accept_unique p) (msg_dup-off d dup)
      ∙ client_msg_rx-known p 0 c1 (advance 1 d.rx.app) x cl got.0 f
      ∙ pass_on-room p c2 cl got.2 w (omega (arith, size)) in
    let wrote = deliver-Wrote p (advance 1 d.rx.app) cl got.2 w (omega (arith, size)) in
    let block : p.msg_soh ∷ u8 d.rx.app.len ∷ contents d.rx.app
        ≡ p.msg_soh ∷ u8 (length (x ∷ app)) ∷ x ∷ app =
      ap (λ n. p.msg_soh ∷ u8 n ∷ contents d.rx.app) size
      ∙ ap (λ l. p.msg_soh ∷ u8 (length (x ∷ app)) ∷ l) t in
    rw runs (record {
      waits = refl;
      owner = refl;
      silent = refl;
      same_tx = refl;
      counted = refl;
      sock_out = (deliver p (advance 1 d.rx.app) cl).sock_out;
      sent =
          subst (λ l. Wrote cl.sock_out l (deliver p (advance 1 d.rx.app) cl).sock_out) block wrote;
      target = client_at-modify cl.id (deliver p (advance 1 d.rx.app)) d.clients (λ c. refl) at_id;
    })

-- What `rx_ack` and `rx_nak` put out: the symbol, if there is room for it.
pub symbol-Wrote :
    {b : Buf} (x y : ℕ)
    → IsValid b
    → b.len + 2 ≤ b.max
    → Wrote b (x ∷ y ∷ []) (buf_append_byte b x or_else (λ b'. buf_append_byte b' y)).0
symbol-Wrote {b} x y v h =
    let both =
      or_else-Appends (λ b'. buf_append_byte b' y) (buf_append_byte b x) (byte-Appends v x)
        (λ b' v'. byte-Appends v' y) in
    let r = Appends-room _ both h in r.1

-- The answer to a message that no client gets.
pub record Answered (d : Conn) (symbol : ℕ) (e : Conn) : Type 0 where
  pub idle : e.rx.state ≡ rx_idle
  pub remembered : e.rx.last_was_ack ≡ (symbol == sym_ack)
  pub nobody : e.rx.client ≡ none
  pub same_clients : e.clients ≡ d.clients
  pub sent : Wrote d.tty_out (sym_dle ∷ symbol ∷ []) e.tty_out

module _ (p : Platform) (d : Conn) (v : IsValid d.tty_out)
    (room : d.tty_out.len + 2 ≤ d.tty_out.max) where
  rx_nak-Answered :
      (e : Conn) → e.tty_out ≡ d.tty_out → e.clients ≡ d.clients → Answered d sym_nak (rx_nak e)
  unfolding rx_nak rx_set_nak
  rx_nak-Answered e o c = record {
    idle = refl;
    remembered = refl;
    nobody = refl;
    same_clients = c;
    sent = rw o (symbol-Wrote sym_dle sym_nak v room);
  }

  pub rx_ack-Answered :
      (e : Conn) → e.tty_out ≡ d.tty_out → e.clients ≡ d.clients → Answered d sym_ack (rx_ack e)
  unfolding rx_ack
  rx_ack-Answered e o c = record {
    idle = refl;
    remembered = refl;
    nobody = refl;
    same_clients = c;
    sent = rw o (symbol-Wrote sym_dle sym_ack v room);
  }

  -- A message that is shorter than six bytes or that has a wrong checksum is answered by NAK, if
  -- there is room for it, and reaches no client.
  pub accept_msg-bad :
      (ltb d.rx.app.len 6 || not (cs_ok d)) ≡ true → Answered d sym_nak (accept_msg p d)
  unfolding accept_msg
  accept_msg-bad h = elim (Bool-cases (ltb d.rx.app.len 6)) [
    | inl short ↦ rw short (rx_nak-Answered _ refl refl)
    | inr long ↦
        let wrong : cs_ok d ≡ false = ground arith in rw (long, wrong) (rx_nak-Answered _ refl refl)
  ]
