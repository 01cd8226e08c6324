-- ===== src/Df1/Registration.antt =====
-- df1d/client.c: the bytes with which a client registers: its address, and its name.
use libpccc.Common.{
  ℕ, zero, suc, ◌+◌, ◌-◌, ◌≤◌, ◌<◌, ◌≡◌, refl, ap, sym, ◌∙◌, subst, true, false, not, ◌&&◌, none,
  some, List, [], ◌∷◌, ◌++◌, arith, length, length-set, set, set-eq-store, take, take-store, ◌==◌,
  if◌then◌else◌, inl, inr, Bool-cases, append_assoc, u8,
}
use libpccc.Buf.{Buf, unread, buf_get_byte}
use libpccc.Buf.Invariant.{IsValid}
use libpccc.Buf.Read.{advance, buf_get_byte-cons, buf_get_byte-nil, length-unread}
use libpccc.Df1.State.{
  Platform, Client, connected, reg_len, reg_name, idle, Conn, client_at, modify,
}
use libpccc.Df1.Receive.{find_addr, is_registered}
use libpccc.Df1.Sockets.{
  reg_client, write_name, count_name_byte, name_byte, set_state, sock_byte, sock_loop,
  parse_sock_data,
}
use libpccc.Df1.Handover.{client_at-modify}
use libpccc.Df1.Addresses.{write_name_in}
use libpccc.Df1.Submission.{sock_loop_end, sock_loop_byte}
use libpccc.Df1.Registration.Bytes.{
  Goes, Goes-modify, Registered, got, written, written-Goes, name_byte_more, sock_byte-named,
  take-set, last-Registered,
}
pub mod Bytes

-- The bytes of the name that are missing, of which there is at least one.
sock_loop-Registered :
    (z : ℕ) (zs : List ℕ) (fuel : ℕ) (p : Platform) (c : Conn) (cl : Client) {b : Buf}
    → length zs + 1 < fuel
    → IsValid b
    → unread b ≡ z ∷ zs
    → client_at cl.id c.clients ≡ some cl
    → cl.state ≡ reg_name
    → find_addr c.clients cl.addr ≡ none
    → cl.name_len ≡ cl.name_len_rcvd + suc (length zs)
    → cl.name_len < length cl.name
    → length cl.name ≤ 255
    → (e : Conn) × (b' : Buf) × (sock_loop fuel p c cl.id b ≡ (e, b', false))
      × Registered c cl (z ∷ zs) e
sock_loop-Registered z zs zero p c cl f v u at s free n k small = absurd (omega arith)
sock_loop-Registered z zs (suc zero) p c cl f v u at s free n k small = absurd (omega arith)
sock_loop-Registered z [] (suc (suc fuel)) p c cl {b} f v u at s free n k small =
    let g = buf_get_byte-cons v u in
    let r = last-Registered p c cl z at s free (omega arith) k small in
    (
      r.0,
      advance 1 b,
      sock_loop_byte (suc fuel) p c cl.id b (advance 1 b) z cl r.0 g.0 at
            (sock_byte-named p c cl z s ∙ r.1)
          ∙ sock_loop_end fuel p r.0 cl.id (advance 1 b) (advance 1 b) (buf_get_byte-nil g.2 g.1),
      r.2,
    )
sock_loop-Registered z (y ∷ zs) (suc (suc fuel)) p c cl {b} f v u at s free n k small =
    let g = buf_get_byte-cons v u in
    let h : cl.name_len_rcvd < length cl.name = omega arith in
    let more : (u8 (cl.name_len_rcvd + 1) == cl.name_len) ≡ false = ground arith in
    let one : u8 (cl.name_len_rcvd + 1) ≡ cl.name_len_rcvd + 1 = omega arith in
    let size1 = length-set cl.name cl.name_len_rcvd z in
    let w = written-Goes p c cl z at s free h in
    let rest =
      sock_loop-Registered y zs (suc fuel) p (written p c cl z at s free h) (got z cl) (omega arith)
        g.2 g.1 w.target s w.free (omega (arith, one)) (omega (arith, size1))
        (omega (arith, size1)) in
    (
      rest.0,
      rest.1,
      sock_loop_byte (suc fuel) p c cl.id b (advance 1 b) z cl (written p c cl z at s free h) g.0 at
            (sock_byte-named p c cl z s ∙ name_byte_more p c cl z at s free h more)
          ∙ rest.2,
      record {
        name = rest.3.name;
        named =
            rest.3.named
            ∙ ap (λ m. take m (got z cl).name ++ (y ∷ zs ++ (0 ∷ []))) one
            ∙ ap (λ l. l ++ (y ∷ zs ++ (0 ∷ []))) (take-set cl.name_len_rcvd z cl.name h)
            ∙ append_assoc (take cl.name_len_rcvd cl.name) (z ∷ []) (y ∷ zs ++ (0 ∷ []));
        size = rest.3.size ∙ size1;
        target = rest.3.target;
        same_tx = rest.3.same_tx ∙ w.same_tx;
        same_rx = rest.3.same_rx ∙ w.same_rx;
      },
    )

sock_byte-address :
    (p : Platform) (c : Conn) (cl : Client) (x : ℕ)
    → cl.state ≡ connected
    → sock_byte p c cl x ≡ (
      record c { clients = modify cl.id (λ d. record d { addr = x; state = reg_len }) c.clients },
      false,
    )
unfolding sock_byte
sock_byte-address p c cl x s = rw s

sock_byte-name_len :
    (p : Platform) (c : Conn) (cl : Client) (x : ℕ)
    → cl.state ≡ reg_len
    → sock_byte p c cl x ≡ (
      record c {
        clients = modify cl.id (λ d. record d { name_len = x; state = reg_name }) c.clients;
      },
      false,
    )
unfolding sock_byte
sock_byte-name_len p c cl x s = rw s

-- A client that has just connected and sends an address that no registered client has, the length
-- of its name and the name, of one character or more and at most 16, is not closed: it is
-- registered with that address, and its array holds the name and a zero. Nothing changes in the
-- transmitter and the receiver.
pub parse_sock_data-Registered :
    (p : Platform) (c : Conn) (cl : Client) (a z : ℕ) (zs : List ℕ) {sock_in : Buf}
    → IsValid sock_in
    → unread sock_in ≡ a ∷ suc (length zs) ∷ z ∷ zs
    → client_at cl.id c.clients ≡ some cl
    → cl.state ≡ connected
    → cl.name_len_rcvd ≡ 0
    → length cl.name ≡ 17
    → suc (length zs) ≤ 16
    → find_addr c.clients a ≡ none
    → (e : Conn) × (b' : Buf) × (parse_sock_data p c cl.id sock_in ≡ (e, b', false))
      × Registered c (record cl { addr = a; name_len = suc (length zs) }) (z ∷ zs) e
unfolding parse_sock_data
parse_sock_data-Registered p c cl a z zs {sock_in = b} v u at s none_yet array short free =
    let g0 = buf_get_byte-cons v u in
    let g1 = buf_get_byte-cons g0.2 g0.1 in
    let c1 : Conn = record c {
      clients = modify cl.id (λ d. record d { addr = a; state = reg_len }) c.clients;
    } in
    let cl1 : Client = record cl { addr = a; state = reg_len } in
    let w1 : Goes c cl.id a cl1 c1 =
      Goes-modify (λ d. record d { addr = a; state = reg_len })
        (record { target = at; free = free; same_tx = refl; same_rx = refl }) (λ d. refl) refl in
    let c2 : Conn = record c1 {
      clients =
          modify cl.id (λ d. record d { name_len = suc (length zs); state = reg_name }) c1.clients;
    } in
    let cl2 : Client = record cl1 { name_len = suc (length zs); state = reg_name } in
    let w2 : Goes c cl.id a cl2 c2 =
      Goes-modify (λ d. record d { name_len = suc (length zs); state = reg_name }) w1 (λ d. refl)
        refl in
    let k : ℕ = b.len - 2 in
    let rounds : b.len ≡ suc (suc k) = omega (arith, length-unread v, ap (length {0}) u) in
    let rest =
      sock_loop-Registered z zs (suc k) p c2 cl2 (omega (arith, length-unread v, ap (length {0}) u))
        g1.2 g1.1 w2.target refl w2.free (omega arith) (omega arith) (omega arith) in
    (
      rest.0,
      rest.1,
      ap (λ n. sock_loop (suc n) p c cl.id b) rounds
          ∙ sock_loop_byte (suc (suc k)) p c cl.id b (advance 1 b) a cl c1 g0.0 at
              (sock_byte-address p c cl a s)
          ∙ sock_loop_byte (suc k) p c1 cl.id (advance 1 b) (advance 1 (advance 1 b))
              (suc (length zs)) cl1 c2 g1.0 w1.target
              (sock_byte-name_len p c1 cl1 (suc (length zs)) refl)
          ∙ rest.2,
      record {
        name = rest.3.name;
        named = rest.3.named;
        size = rest.3.size;
        target = rest.3.target;
        same_tx = rest.3.same_tx;
        same_rx = rest.3.same_rx;
      },
    )
