-- ===== src/Df1/Submission.antt =====
-- df1d/client.c: a message that a client sends is queued for the transmitter.
use libpccc.Common.{
  ℕ, zero, suc, ◌+◌, ◌-◌, ◌≤◌, ◌<◌, ◌≡◌, refl, ap, ◌∙◌, true, false, Option, none, some, List, [],
  ◌∷◌, arith, length, ◌==◌, inl, inr, Bool-cases,
}
use libpccc.Buf.{Buf, unread, buf_append_byte, buf_get_byte}
use libpccc.Buf.Invariant.{IsValid}
use libpccc.Buf.Read.{advance, buf_get_byte-cons, buf_get_byte-nil, length-unread}
use libpccc.Buf.Encode.{Wrote, Wrote-trans, byte-Appends, Appends-room}
use libpccc.Df1.State.{Platform, Client, idle, msg_len, msg, msg_ready, Conn, client_at, modify}
use libpccc.Df1.Transmit.{tx_busy, find_next_tx, find_next_tx_on}
use libpccc.Df1.Sockets.{rcv_app, set_state, sock_byte, sock_loop, parse_sock_data}
use libpccc.Df1.Handover.{client_at-modify}

client_at-id : (q : ℕ) (cs : List Client) {cl : Client} → client_at q cs ≡ some cl → cl.id ≡ q
client_at-id q [] e = cc
client_at-id q (c ∷ cs) {cl} e = elim (Bool-cases (c.id == q)) [
  | inl here ↦ let same : some c ≡ some cl = rw here at e in grind arith
  | inr there ↦ client_at-id q cs (rw there at e)
]

find_next_tx-busy :
    (p : Platform) (c : Conn) (start : Option ℕ) → tx_busy c.tx ≡ true → find_next_tx p c start ≡ c
unfolding find_next_tx find_next_tx_on
find_next_tx-busy p c start h = rw h

abbrev with_tx : Conn → Client → Buf → Conn
with_tx c cl b = record c { clients = modify cl.id (λ d. record d { df1_tx = b }) c.clients }

module _ (p : Platform) (c : Conn) (cl : Client) (x : ℕ) where
  rcv_app-more :
      (buf_append_byte cl.df1_tx x).1 ≡ false
      → ((buf_append_byte cl.df1_tx x).0.len == cl.new_msg_len) ≡ false
      → rcv_app p c cl x ≡ (with_tx c cl (buf_append_byte cl.df1_tx x).0, false)
  unfolding rcv_app
  rcv_app-more fits more = rw (fits, more)

  rcv_app-last :
      (buf_append_byte cl.df1_tx x).1 ≡ false
      → ((buf_append_byte cl.df1_tx x).0.len == cl.new_msg_len) ≡ true
      → tx_busy c.tx ≡ true
      → rcv_app p c cl x
        ≡ (set_state cl.id msg_ready (with_tx c cl (buf_append_byte cl.df1_tx x).0), false)
  unfolding rcv_app
  rcv_app-last fits last busy =
      rw (fits, last)
        (ap (λ d. (d, false))
          (find_next_tx-busy p
            (set_state cl.id msg_ready (with_tx c cl (buf_append_byte cl.df1_tx x).0)) (some cl.id)
            busy))

  sock_byte-msg : cl.state ≡ msg → sock_byte p c cl x ≡ rcv_app p c cl x
  unfolding sock_byte
  sock_byte-msg s = rw s

-- A round of the loop over the bytes from the socket.
module _ (fuel : ℕ) (p : Platform) (c : Conn) (q : ℕ) (b b' : Buf) where
  pub sock_loop_end : buf_get_byte b ≡ (b', none) → sock_loop (suc fuel) p c q b ≡ (c, b', false)
  unfolding sock_loop
  sock_loop_end e = ground arith

  pub sock_loop_byte :
      (x : ℕ) (cl : Client) (c' : Conn)
      → buf_get_byte b ≡ (b', some x)
      → client_at q c.clients ≡ some cl
      → sock_byte p c cl x ≡ (c', false)
      → sock_loop (suc fuel) p c q b ≡ sock_loop fuel p c' q b'
  unfolding sock_loop
  sock_loop_byte x cl c' e at_q r = ground arith

-- The message is complete and waits for the transmitter.
pub record Queued (c : Conn) (cl : Client) (app : List ℕ) (n : ℕ) (e : Conn) : Type 0 where
  pub same_tx : e.tx ≡ c.tx
  pub same_rx : e.rx ≡ c.rx
  pub buffer : Buf
  pub stored : Wrote cl.df1_tx app buffer
  pub target :
      client_at cl.id e.clients
      ≡ some (record cl { df1_tx = buffer; state = msg_ready; new_msg_len = n })

-- The bytes of the message, of which at least one is missing.
sock_loop-Queued :
    (z : ℕ) (zs : List ℕ) (fuel : ℕ) (p : Platform) (c : Conn) (cl : Client) {b : Buf}
    → length zs + 1 < fuel
    → IsValid b
    → unread b ≡ z ∷ zs
    → tx_busy c.tx ≡ true
    → client_at cl.id c.clients ≡ some cl
    → cl.state ≡ msg
    → IsValid cl.df1_tx
    → cl.df1_tx.len + suc (length zs) ≤ cl.df1_tx.max
    → cl.new_msg_len ≡ cl.df1_tx.len + suc (length zs)
    → (e : Conn) × (b' : Buf) × (sock_loop fuel p c cl.id b ≡ (e, b', false))
      × Queued c cl (z ∷ zs) cl.new_msg_len e
sock_loop-Queued z zs zero p c cl f v u busy at s w room n = absurd (omega arith)
sock_loop-Queued z zs (suc zero) p c cl f v u busy at s w room n = absurd (omega arith)
sock_loop-Queued z [] (suc (suc fuel)) p c cl {b} f v u busy at s w room n =
    let g = buf_get_byte-cons v u in
    let r = Appends-room (buf_append_byte cl.df1_tx z) (byte-Appends w z) (omega arith) in
    let b1 : Buf = (buf_append_byte cl.df1_tx z).0 in
    let e : Conn = set_state cl.id msg_ready (with_tx c cl b1) in
    let last : (b1.len == cl.new_msg_len) ≡ true = ground (arith, r.1.new_len) in
    let runs : sock_byte p c cl z ≡ (e, false) =
      sock_byte-msg p c cl z s ∙ rcv_app-last p c cl z r.0 last busy in
    (
      e,
      advance 1 b,
      sock_loop_byte (suc fuel) p c cl.id b (advance 1 b) z cl e g.0 at runs
          ∙ sock_loop_end fuel p e cl.id (advance 1 b) (advance 1 b) (buf_get_byte-nil g.2 g.1),
      record {
        same_tx = refl;
        same_rx = refl;
        buffer = b1;
        stored = r.1;
        target =
            client_at-modify cl.id (λ d. record d { state = msg_ready }) _ (λ d. refl)
              (client_at-modify cl.id (λ d. record d { df1_tx = b1 }) c.clients (λ d. refl) at);
      },
    )
sock_loop-Queued z (y ∷ zs) (suc (suc fuel)) p c cl {b} f v u busy at s w room n =
    let g = buf_get_byte-cons v u in
    let r = Appends-room (buf_append_byte cl.df1_tx z) (byte-Appends w z) (omega arith) in
    let b1 : Buf = (buf_append_byte cl.df1_tx z).0 in
    let c1 : Conn = with_tx c cl b1 in
    let cl1 : Client = record cl { df1_tx = b1 } in
    let more : (b1.len == cl.new_msg_len) ≡ false = ground (arith, r.1.new_len) in
    let runs : sock_byte p c cl z ≡ (c1, false) =
      sock_byte-msg p c cl z s ∙ rcv_app-more p c cl z r.0 more in
    let at1 : client_at cl.id c1.clients ≡ some cl1 =
      client_at-modify cl.id (λ d. record d { df1_tx = b1 }) c.clients (λ d. refl) at in
    let rest =
      sock_loop-Queued y zs (suc fuel) p c1 cl1 (omega arith) g.2 g.1 busy at1 s r.1.valid
        (omega (arith, r.1.new_len, r.1.same_max)) (omega (arith, r.1.new_len)) in
    (
      rest.0,
      rest.1,
      sock_loop_byte (suc fuel) p c cl.id b (advance 1 b) z cl c1 g.0 at runs ∙ rest.2,
      record {
        same_tx = rest.3.same_tx;
        same_rx = rest.3.same_rx;
        buffer = rest.3.buffer;
        stored = Wrote-trans r.1 rest.3.stored;
        target = rest.3.target;
      },
    )

sock_byte-soh :
    (p : Platform) (c : Conn) (cl : Client)
    → cl.state ≡ idle
    → sock_byte p c cl p.msg_soh ≡ (set_state cl.id msg_len c, false)
unfolding sock_byte
sock_byte-soh p c cl s = let is : (p.msg_soh == p.msg_soh) ≡ true = ground arith in rw (s, is)

sock_byte-len :
    (p : Platform) (c : Conn) (cl : Client) (n : ℕ)
    → cl.state ≡ msg_len
    → sock_byte p c cl n ≡ (
      record c {
        clients = modify cl.id (λ d. record d { new_msg_len = n; state = msg }) c.clients;
      },
      false,
    )
unfolding sock_byte
sock_byte-len p c cl n s = rw s

-- While the transmitter is busy, an idle client with an empty buffer that sends SOH, the message's
-- length and the message, which is not empty and fits that buffer, is not closed: its message then
-- stands in the buffer and waits for the transmitter.
pub parse_sock_data-Queued :
    (p : Platform) (c : Conn) (cl : Client) (z : ℕ) (zs : List ℕ) {sock_in : Buf}
    → IsValid sock_in
    → unread sock_in ≡ p.msg_soh ∷ suc (length zs) ∷ z ∷ zs
    → tx_busy c.tx ≡ true
    → client_at cl.id c.clients ≡ some cl
    → cl.state ≡ idle
    → IsValid cl.df1_tx
    → cl.df1_tx.len ≡ 0
    → suc (length zs) ≤ cl.df1_tx.max
    → (e : Conn) × (b' : Buf) × (parse_sock_data p c cl.id sock_in ≡ (e, b', false))
      × Queued c cl (z ∷ zs) (suc (length zs)) e
unfolding parse_sock_data
parse_sock_data-Queued p c cl z zs {sock_in = b} v u busy at s w empty room =
    let g0 = buf_get_byte-cons v u in
    let g1 = buf_get_byte-cons g0.2 g0.1 in
    let c1 : Conn = set_state cl.id msg_len c in
    let cl1 : Client = record cl { state = msg_len } in
    let at1 : client_at cl.id c1.clients ≡ some cl1 =
      client_at-modify cl.id (λ d. record d { state = msg_len }) c.clients (λ d. refl) at in
    let c2 : Conn = record c1 {
      clients =
          modify cl.id (λ d. record d { new_msg_len = suc (length zs); state = msg }) c1.clients;
    } in
    let cl2 : Client = record cl1 { new_msg_len = suc (length zs); state = msg } in
    let at2 : client_at cl.id c2.clients ≡ some cl2 =
      client_at-modify cl.id (λ d. record d { new_msg_len = suc (length zs); state = msg })
        c1.clients (λ d. refl) at1 in
    let k : ℕ = b.len - 2 in
    let rounds : b.len ≡ suc (suc k) = omega (arith, length-unread v, ap (length {0}) u) in
    let rest =
      sock_loop-Queued z zs (suc k) p c2 cl2 (omega (arith, length-unread v, ap (length {0}) u))
        g1.2 g1.1 busy at2 refl w (omega arith) (omega arith) in
    (
      rest.0,
      rest.1,
      ap (λ n. sock_loop (suc n) p c cl.id b) rounds
          ∙ sock_loop_byte (suc (suc k)) p c cl.id b (advance 1 b) p.msg_soh cl c1 g0.0 at
              (sock_byte-soh p c cl s)
          ∙ sock_loop_byte (suc k) p c1 cl.id (advance 1 b) (advance 1 (advance 1 b))
              (suc (length zs)) cl1 c2 g1.0 at1 (sock_byte-len p c1 cl1 (suc (length zs)) refl)
          ∙ rest.2,
      record {
        same_tx = rest.3.same_tx;
        same_rx = rest.3.same_rx;
        buffer = rest.3.buffer;
        stored = rest.3.stored;
        target = rest.3.target;
      },
    )
