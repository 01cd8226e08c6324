-- ===== src/Library/Sending.antt =====
-- lib/msg.c: which message `msg_send_next` sends, and what it puts into the socket's buffer.
use libpccc.Common.{
  ℕ, zero, suc, ◌+◌, ◌-◌, ◌≤◌, ◌<◌, ◌≡◌, refl, true, false, ◌∷◌, ◌++◌, length, set, arith, ◌==◌,
  if◌then◌else◌, u8,
}
use libpccc.Buf.{Buf, contents}
use libpccc.Buf.Invariant.{IsValid, length-contents}
use libpccc.Buf.Encode.{Appends, Appends-room, byte-Appends, buf-Appends, or_else-Appends}
use libpccc.Ret.{Ret, success}
use libpccc.Df1.State.{Platform}
use libpccc.Library.State.{Pccc, Msg, msg_at}
use libpccc.Library.Message.{frame, msg_send, next_msg, send_next_loop, msg_send_next}
use libpccc.Library.Pool.{IsPool, IsSound-at}
use libpccc.Library.Ledger.Steps.{next_msg-IsPool}

-- The message `k` after the message `i` in a pool of `n`, in a ring.
abbrev pub ahead : ℕ → ℕ → ℕ → ℕ
ahead n zero i = i
ahead n (suc k) i = ahead n k (if i == n - 1 then 0 else i + 1)

-- The message `j` is on its way: it is the current one, and SOH, its length and its bytes are behind
-- what the socket's buffer held.
pub record HasSent (p : Platform) (c : Pccc) (j : ℕ) (r : Pccc × Ret) : Type 0 where
  pub done : r.1 ≡ success
  pub cur : r.0.cur_msg ≡ j
  pub msgs : r.0.msgs ≡ set c.msgs j (record (msg_at c j) { state = 2 })
  pub out :
      contents r.0.sock_out
      ≡ contents c.sock_out ++ (p.msg_soh ∷ (msg_at c j).buf.len ∷ contents (msg_at c j).buf)
  pub same_calls : r.0.calls ≡ c.calls

frame-Appends :
    (p : Platform) (m : Msg) {b : Buf}
    → IsValid b
    → IsValid m.buf
    → m.buf.len < 256
    → Appends b (p.msg_soh ∷ m.buf.len ∷ contents m.buf) (frame p m b)
unfolding frame
frame-Appends p m v w short =
    let byte : u8 m.buf.len ≡ m.buf.len = omega arith in
    rw byte (
      or_else-Appends _ _
        (or_else-Appends _ _ (byte-Appends v p.msg_soh) (λ b' v'. byte-Appends v' m.buf.len))
        (λ b' v'. buf-Appends v' w))

module _ (p : Platform) where
  -- The current message goes out.
  msg_send-HasSent :
      (c : Pccc)
      → IsPool c
      → IsValid c.sock_out
      → (msg_at c c.cur_msg).buf.len < 256
      → c.sock_out.len + ((msg_at c c.cur_msg).buf.len + 2) ≤ c.sock_out.max
      → HasSent p c c.cur_msg (msg_send p c)
  unfolding msg_send
  msg_send-HasSent c h v short room =
      let m : Msg = msg_at c c.cur_msg in
      let w : IsValid m.buf = (IsSound-at c.msgs c.cur_msg h.sound).valid in
      let r =
        Appends-room (frame p m c.sock_out) (frame-Appends p m v w short)
          (omega (arith, length-contents w)) in
      rw r.0 (record { done = refl; cur = refl; msgs = refl; out = r.1.text; same_calls = refl })

  -- The loop passes over the messages that do not wait.
  send_next_loop-HasSent :
      (n k : ℕ) (c : Pccc)
      → IsPool c
      → IsValid c.sock_out
      → k < n
      → let j = ahead (length c.msgs) k c.cur_msg in
        (msg_at c j).state ≡ 1
        → ((i : ℕ) → i < k → ((msg_at c (ahead (length c.msgs) i c.cur_msg)).state == 1) ≡ false)
        → (msg_at c j).buf.len < 256
        → c.sock_out.len + ((msg_at c j).buf.len + 2) ≤ c.sock_out.max
        → HasSent p c j (send_next_loop n p c)
  unfolding send_next_loop
  send_next_loop-HasSent zero k c h v l waits before short room = absurd (omega arith)
  send_next_loop-HasSent (suc n) zero c h v l waits before short room =
      let now : ((msg_at c c.cur_msg).state == 1) ≡ true = ground (arith, waits) in
      rw now (msg_send-HasSent c h v short room)
  send_next_loop-HasSent (suc n) (suc k) c h v l waits before short room =
      let s =
        send_next_loop-HasSent n k (next_msg c) (next_msg-IsPool c h) v (omega arith) waits
          (λ i b. before (suc i) (omega arith)) short room in
      rw (before 0 (omega arith)) (record {
        done = s.done;
        cur = s.cur;
        msgs = s.msgs;
        out = s.out;
        same_calls = s.same_calls;
      })

  -- If no message is on its way and one waits, in a sound pool, msg_send_next sends the first one that
  -- waits behind the current message, in the order of a ring: if it is shorter than 256 bytes and the
  -- socket's buffer, which is well-formed, has room, then the message is the current one, is on its
  -- way, and SOH, its length and its bytes stand behind what the buffer held; nothing else changes in
  -- the pool, and no one is called.
  pub msg_send_next-HasSent :
      (c : Pccc) (k : ℕ)
      → IsPool c
      → IsValid c.sock_out
      → ((msg_at c c.cur_msg).state == 2) ≡ false
      → k < length c.msgs
      → let j = ahead (length c.msgs) (suc k) c.cur_msg in
        (msg_at c j).state ≡ 1
        → ((i : ℕ)
            → i < k
            → ((msg_at c (ahead (length c.msgs) (suc i) c.cur_msg)).state == 1) ≡ false)
        → (msg_at c j).buf.len < 256
        → c.sock_out.len + ((msg_at c j).buf.len + 2) ≤ c.sock_out.max
        → HasSent p c j (msg_send_next p c)
  unfolding msg_send_next
  msg_send_next-HasSent c k h v idle l waits before short room =
      let s =
        send_next_loop-HasSent (length c.msgs) k (next_msg c) (next_msg-IsPool c h) v l waits before
          short room in
      rw idle (record {
        done = s.done;
        cur = s.cur;
        msgs = s.msgs;
        out = s.out;
        same_calls = s.same_calls;
      })
