-- ===== src/Df1/Untouched.antt =====
-- df1d/tx.c: what the transmitter leaves alone in the receiver.
use libpccc.Common.{
  ℕ, zero, suc, ◌≡◌, refl, ◌∙◌, arith, none, Option, inl, inr, Option-cases, Bool-cases,
}
use libpccc.Df1.State.{Platform, Conn, Client}
use libpccc.Df1.Transmit.{
  send_msg_with, tx_msg_with, find_next_tx_on, find_next_tx, fail_notice, ok_notice,
  client_msg_tx_ok, client_msg_tx_fail, tx_ack, tx_nak, naked, unexpected, send_msg, next_ready,
  tx_busy, rx_set_nak,
}

module _ (fail : Conn → Conn) (h : (c : Conn) → (fail c).rx ≡ c.rx) where
  rx-send_msg_with : (c : Conn) → (send_msg_with fail c).rx ≡ c.rx
  unfolding send_msg_with
  rx-send_msg_with c = grind (arith, h)

  rx-tx_msg_with : (p : Platform) (c : Conn) (cl : Client) → (tx_msg_with fail p c cl).rx ≡ c.rx
  unfolding tx_msg_with
  rx-tx_msg_with p c cl = rx-send_msg_with _

rx-fail_notice : (p : Platform) (c : Conn) → (fail_notice p c).rx ≡ c.rx
unfolding fail_notice
rx-fail_notice p c = refl

rx-find_next_tx_on :
    (fuel : ℕ) (p : Platform) (c : Conn) (start : Option ℕ)
    → (find_next_tx_on fuel p c start).rx ≡ c.rx
unfolding find_next_tx_on
rx-find_next_tx_on zero p c start = refl
rx-find_next_tx_on (suc fuel) p c start = elim (Bool-cases (tx_busy c.tx)) [
  | inl busy ↦ rw busy
  | inr free ↦ elim (Option-cases (next_ready c start)) [
    | inl e ↦ rw (free, e)
    | inr (cl, e) ↦
        rw (free, e)
          (rx-tx_msg_with _
            (λ c'. rx-find_next_tx_on fuel p (fail_notice p c') none ∙ rx-fail_notice p c') p c cl)
  ]
]

pub rx-find_next_tx :
    (p : Platform) (c : Conn) (start : Option ℕ) → (find_next_tx p c start).rx ≡ c.rx
unfolding find_next_tx
rx-find_next_tx p c start = rx-find_next_tx_on _ p c start

pub rx-client_msg_tx_ok : (p : Platform) (c : Conn) → (client_msg_tx_ok p c).rx ≡ c.rx
unfolding client_msg_tx_ok ok_notice
rx-client_msg_tx_ok p c = rx-find_next_tx p (ok_notice p c) none

pub rx-client_msg_tx_fail : (p : Platform) (c : Conn) → (client_msg_tx_fail p c).rx ≡ c.rx
unfolding client_msg_tx_fail fail_notice
rx-client_msg_tx_fail p c = rx-find_next_tx p (fail_notice p c) none

pub rx-send_msg : (p : Platform) (c : Conn) → (send_msg p c).rx ≡ c.rx
unfolding send_msg
rx-send_msg p c = rx-send_msg_with (client_msg_tx_fail p) (rx-client_msg_tx_fail p) c

-- An ACK or NAK changes at most the receiver's last response.
pub state-tx_ack : (p : Platform) (c : Conn) → (tx_ack p c).rx.state ≡ c.rx.state
unfolding tx_ack unexpected rx_set_nak
state-tx_ack p c = grind (arith, rx-client_msg_tx_ok)

pub state-tx_nak : (p : Platform) (c : Conn) → (tx_nak p c).rx.state ≡ c.rx.state
unfolding tx_nak naked unexpected rx_set_nak
state-tx_nak p c = grind (arith, rx-client_msg_tx_fail, rx-send_msg)
