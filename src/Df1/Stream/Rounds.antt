-- ===== src/Df1/Stream/Rounds.antt =====
-- df1d/rx.c: when a round of the loop of `rx_msg` leaves the receiver in the middle of a message.
use libpccc.Common.{not, ℕ, ◌≡◌, refl, Bool, true, false, arith}
use libpccc.Df1.State.{Platform, Conn, Client, rx_app, rx_pend}
use libpccc.Df1.Transmit.{rx_active, rx_set_nak}
use libpccc.Df1.Receive.{
  rx_ack, rx_nak, pass_on, client_msg_rx, accept_unique, accept_msg, add_byte, add_to_app,
  embed_rsp, rx_byte,
}
use libpccc.Df1.Checksum.{cs_add}
use libpccc.Df1.Untouched.{state-tx_ack, state-tx_nak}

state-pass_on :
    (p : Platform) (c : Conn) (cl : Client)
    → c.rx.state ≡ rx_pend
    → rx_active (pass_on p c cl).rx ≡ false
unfolding pass_on rx_nak
state-pass_on p c cl h = ground arith

state-client_msg_rx :
    (p : Platform) (junk : ℕ) (c : Conn)
    → c.rx.state ≡ rx_pend
    → rx_active (client_msg_rx p junk c).rx ≡ false
unfolding client_msg_rx rx_ack
state-client_msg_rx p junk c h = grind (arith, state-pass_on)

inactive-accept_unique : (p : Platform) (r : Conn × Bool) → rx_active (accept_unique p r).rx ≡ false
unfolding accept_unique rx_ack
inactive-accept_unique p (c, true) = refl
inactive-accept_unique p (c, false) = grind (arith, state-client_msg_rx)

-- A message that is complete is accepted or refused: the receiver waits for a client or is idle.
pub inactive-accept_msg : (p : Platform) (c : Conn) → rx_active (accept_msg p c).rx ≡ false
unfolding accept_msg rx_nak
inactive-accept_msg p c = grind (arith, inactive-accept_unique)

state-add_byte : (c : Conn) (x : ℕ) → (add_byte c x).rx.state ≡ c.rx.state
unfolding add_byte cs_add
state-add_byte c x = ground arith

state-embed_rsp : (p : Platform) (c : Conn) (x : ℕ) → (embed_rsp p c x).rx.state ≡ c.rx.state
unfolding embed_rsp
state-embed_rsp p c x = grind (arith, state-tx_ack, state-tx_nak)

active-add_to_app :
    (p : Platform) (c : Conn) (x : ℕ) → c.rx.state ≡ rx_app → rx_active (add_to_app p c x).rx ≡ true
unfolding add_to_app cs_add rx_set_nak
active-add_to_app p c x h = grind (arith, state-add_byte, state-embed_rsp)

-- A round that does not return leaves the receiver in a message, one that returns does not.
pub active-rx_byte :
    (p : Platform) (c : Conn) (x : ℕ)
    → rx_active c.rx ≡ true
    → let (c', done) = rx_byte p c x in rx_active c'.rx ≡ not done
unfolding rx_byte
active-rx_byte p c x h = grind (arith, inactive-accept_msg, active-add_to_app)
