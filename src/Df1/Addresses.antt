-- ===== src/Df1/Addresses.antt =====
-- df1d/client.c: a message finds one client, since no two registered clients have one address.
use libpccc.Common.{
  ℕ, ◌+◌, ◌≡◌, refl, Bool, true, false, not, ◌&&◌, none, some, List, ◌++◌, arith, ◌==◌,
  if◌then◌else◌, inl, inr, Bool-cases, Option-cases, u8, ◌<◌, length, length-set, set, ◌∙◌,
}
use libpccc.Buf.{Buf}
use libpccc.Df1.State.{
  Platform, Client, connected, reg_name, idle, rx_idle, Conn, client_at, modify,
}
use libpccc.Df1.Receive.{find_addr, is_registered, rx_ack}
use libpccc.Df1.Handover.{client_at-modify}
use libpccc.Df1.Sockets.{
  same_client, reg_client, write_name, count_name_byte, name_byte, unlink, no_counts, unregistered,
}
mod Lists
pub use Lists.*

-- `reg_client` refuses a client exactly if a registered client has its address; it leaves the
-- addresses of the registered clients distinct.
pub reg_client-distinct :
    (c : Conn) (cl : Client)
    → client_at cl.id c.clients ≡ some cl
    → is_registered cl ≡ false
    → distinct (addrs c.clients) ≡ true
    → let (c', refuses) = reg_client c cl in
      (refuses ≡ not (fresh cl.addr (addrs c.clients))) × (distinct (addrs c'.clients) ≡ true)
unfolding reg_client
reg_client-distinct c cl at_id u h = elim (Option-cases (find_addr c.clients cl.addr)) [
  | inl none_found ↦
      let free = fresh-find_addr c.clients cl.addr none_found in
      rw (reg_client, none_found, free)
        (
          refl,
          distinct-modify cl.id cl.addr (λ d. record d { state = idle }) c.clients cl at_id u refl
              free h,
        )
  | inr (other, found) ↦
      let taken = taken-find_addr c.clients cl.addr other found in
      rw (reg_client, found, taken) (refl, h)
]

-- A write to the name of a client in the list, in the array.
module _ (p : Platform) (c : Conn) (cl : Client) (i byte : ℕ) (h : i < length cl.name) where
  pub write_name_in :
      write_name p cl i byte c
      ≡ record c { clients = modify cl.id (λ d. record d { name = set d.name i byte }) c.clients }
  unfolding write_name
  write_name_in = ground arith

  addrs-write_name : addrs (write_name p cl i byte c).clients ≡ addrs c.clients
  addrs-write_name = rw write_name_in (
      addrs-modify cl.id (λ d. record d { name = set d.name i byte }) c.clients (λ d. refl)
        (λ d. refl))

  pub client_at-write_name :
      {d : Client}
      → client_at cl.id c.clients ≡ some d
      → client_at cl.id (write_name p cl i byte c).clients
        ≡ some (record d { name = set d.name i byte })
  client_at-write_name at =
      rw write_name_in (
        client_at-modify cl.id (λ d. record d { name = set d.name i byte }) c.clients (λ d. refl)
          at)

-- A byte of the name of a client in the list, with which it may register: it is refused exactly if
-- the name is complete and a registered client has its address, and if the addresses of the
-- registered clients were distinct, they stay so. The byte, and the zero behind a name of the
-- length that the client has announced, are in the array for the name: what a write beyond it does
-- is undefined.
pub name_byte-distinct :
    (p : Platform) (c : Conn) (cl : Client) (byte : ℕ)
    → client_at cl.id c.clients ≡ some cl
    → cl.state ≡ reg_name
    → distinct (addrs c.clients) ≡ true
    → cl.name_len_rcvd < length cl.name
    → cl.name_len < length cl.name
    → let (c', refuses) = name_byte p c cl byte in
      (refuses
        ≡ (u8 (cl.name_len_rcvd + 1) == cl.name_len) && not (fresh cl.addr (addrs c.clients)))
      × (distinct (addrs c'.clients) ≡ true)
unfolding name_byte
name_byte-distinct p c cl byte at_id s h within end_within =
    let counted : Conn = record c { clients = modify cl.id count_name_byte c.clients } in
    let written : Conn = write_name p cl cl.name_len_rcvd byte counted in
    let got : Client = record cl {
      name = set cl.name cl.name_len_rcvd byte;
      name_len_rcvd = u8 (cl.name_len_rcvd + 1);
    } in
    let un : is_registered cl ≡ false = rw s in
    let at1 = client_at-modify cl.id count_name_byte c.clients (λ d. refl) at_id in
    let at2 : client_at cl.id written.clients ≡ some got =
      client_at-write_name p counted cl cl.name_len_rcvd byte within at1 in
    let kept : addrs written.clients ≡ addrs c.clients =
      addrs-write_name p counted cl cl.name_len_rcvd byte within
      ∙ addrs-modify cl.id count_name_byte c.clients (λ d. refl) (λ d. refl) in
    let in_got : got.name_len < length got.name =
      omega (arith, length-set cl.name cl.name_len_rcvd byte) in
    let ended : Conn = write_name p got got.name_len 0 written in
    let all : Client = record got { name = set got.name got.name_len 0 } in
    let at3 : client_at cl.id ended.clients ≡ some all =
      client_at-write_name p written got got.name_len 0 in_got at2 in
    let kept_all : addrs ended.clients ≡ addrs c.clients =
      addrs-write_name p written got got.name_len 0 in_got ∙ kept in
    let done = reg_client-distinct ended all at3 un (rw kept_all h) in
    rw at2 (elim (Bool-cases (u8 (cl.name_len_rcvd + 1) == cl.name_len)) [
      | inl full ↦ rw (full, at3) (rw kept_all at done)
      | inr more ↦ rw more (refl, rw kept h)
    ])

-- The client `q` is gone from the list and from the transmitter and the receiver; the client `r`,
-- the other addresses and the message on its way stay. A message that waited for `q` is answered.
pub record Closed (c : Conn) (q r : ℕ) (d : Conn) : Type 0 where
  pub gone : client_at q d.clients ≡ none
  pub other : client_at r d.clients ≡ client_at r c.clients
  pub apart : distinct (addrs d.clients) ≡ true
  pub unsent : same_client d.tx.client q ≡ false
  pub unheard : same_client d.rx.client q ≡ false
  pub same_msg : d.tx.msg ≡ c.tx.msg
  pub same_state : d.tx.state ≡ c.tx.state
  pub answer : d.tty_out ≡ (if same_client c.rx.client q then (rx_ack c).tty_out else c.tty_out)
  pub answered : d.rx.state ≡ (if same_client c.rx.client q then rx_idle else c.rx.state)

-- The client `s` is in the list, with its buffers, connected but not registered; the client `r`
-- and the addresses of the registered clients stay.
pub record Accepted (c : Conn) (s r : ℕ) (df1_tx sock_out : Buf) (e : Conn) : Type 0 where
  pub client : Client
  pub present : client_at s e.clients ≡ some client
  pub fresh_state : client.state ≡ connected
  pub nothing_named : client.name_len_rcvd ≡ 0
  pub tx_buffer : client.df1_tx ≡ df1_tx
  pub out_buffer : client.sock_out ≡ sock_out
  pub other : client_at r e.clients ≡ client_at r c.clients
  pub same_addrs : addrs e.clients ≡ addrs c.clients
  pub same_tx : e.tx ≡ c.tx
  pub same_rx : e.rx ≡ c.rx

abbrev newcomer : ℕ → Buf → Buf → Client
newcomer s df1_tx sock_out = record {
  id = s;
  name = unregistered;
  state = connected;
  addr = 0;
  name_len = 0;
  name_len_rcvd = 0;
  new_msg_len = 0;
  df1_tx = df1_tx;
  sock_out = sock_out;
  dcnts = no_counts;
}
