-- ===== src/Library/Ledger/Steps.antt =====
-- lib/msg.c, lib/pccc.c: each step of the library serves what it owes.
use libpccc.Common.{ℕ, zero, suc, ◌≡◌, inl, inr, refl, Bool-cases, arith, false, ◌==◌, length}
use libpccc.Df1.State.{Platform}
use libpccc.Library.State.{Pccc, msg_at}
use libpccc.Library.Message.{frame, msg_send, send_next_loop, msg_send_next, next_msg}
use libpccc.Library.Pool.{IsPool}
use libpccc.Library.Ledger.Serve.{Serves, Serves-refl, Serves-trans, Serves-same, Serves-busy}

-- Only a message in use is sent.
pub msg_send-Serves :
    (p : Platform) (c : Pccc)
    → IsPool c
    → ((msg_at c c.cur_msg).state == 0) ≡ false
    → Serves c (msg_send p c).0
unfolding msg_send
msg_send-Serves p c h used = elim (Bool-cases (frame p (msg_at c c.cur_msg) c.sock_out).1) [
  | inl full ↦ rw full (Serves-same h refl refl h.in_pool)
  | inr fits ↦ rw fits (
      Serves-busy c.cur_msg (record (msg_at c c.cur_msg) { state = 2 }) h used refl (omega arith)
        refl refl refl refl refl refl refl)
]

pub next_msg-IsPool : (c : Pccc) → IsPool c → IsPool (next_msg c)
next_msg-IsPool c h = record { sound = h.sound; in_pool = ground (arith, h.in_pool) }

next_msg-Serves : (c : Pccc) → IsPool c → Serves c (next_msg c)
next_msg-Serves c h = Serves-same h refl refl (next_msg-IsPool c h).in_pool

send_next_loop-Serves :
    (n : ℕ) (p : Platform) (c : Pccc) → IsPool c → Serves c (send_next_loop n p c).0
unfolding send_next_loop
send_next_loop-Serves zero p c h = Serves-refl h
send_next_loop-Serves (suc n) p c h = elim (Bool-cases ((msg_at c c.cur_msg).state == 1)) [
  | inl pending ↦ rw pending (msg_send-Serves p c h (ground arith))
  | inr other ↦ rw other (
      Serves-trans (next_msg-Serves c h)
        (send_next_loop-Serves n p (next_msg c) (next_msg-IsPool c h)))
]

pub msg_send_next-Serves : (p : Platform) (c : Pccc) → IsPool c → Serves c (msg_send_next p c).0
unfolding msg_send_next
msg_send_next-Serves p c h = elim (Bool-cases ((msg_at c c.cur_msg).state == 2)) [
  | inl out ↦ rw out (Serves-refl h)
  | inr other ↦ rw other (
      Serves-trans (next_msg-Serves c h)
        (send_next_loop-Serves (length c.msgs) p (next_msg c) (next_msg-IsPool c h)))
]
