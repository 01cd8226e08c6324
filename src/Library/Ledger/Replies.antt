-- ===== src/Library/Ledger/Replies.antt =====
-- lib/pccc.c: `parse_msg` serves what it owes, whatever the message that came in.
use libpccc.Common.{
  ℕ, ◌<◌, ◌≡◌, inl, inr, refl, ap, ◌∙◌, Bool-cases, Option, Option-cases, none, some, ◌∷◌, set,
  arith, false, ◌==◌, if◌then◌else◌,
}
use libpccc.Buf.{buf_append_byte}
use libpccc.Ret.{Ret}
use libpccc.Df1.State.{Platform}
use libpccc.Library.State.{Msg, Pccc, msg_at, put_msg}
use libpccc.Library.Message.{msg_flush, msg_is_reply, msg_find_cmd, msg_get_tns}
use libpccc.Library.Link.{
  is_error, check_reply, with_bit, settle_reply, reply_to, take_reply, parse_msg,
}
use libpccc.Library.Pool.{
  IsSound, IsSound-at, IsSound-as, IsPool, busy-IsSound, or_reply, set-set, find_cmd_from-awaits,
}
use libpccc.Library.Ledger.{told}
use libpccc.Library.Ledger.Serve.{
  Serves, Serves-refl, Serves-trans, Serves-same, Serves-put, Serves-busy, Serves-end, owes-used,
}
use libpccc.Library.Ledger.Reply.{check_reply-Keeps}

settle_reply-Serves :
    {c : Pccc} (i : ℕ) (m : Msg) (fn : ℕ) (r : Pccc × Ret)
    → IsPool c
    → ((msg_at c i).state == 0) ≡ false
    → IsSound m
    → (m.state == 0) ≡ false
    → m.notify ≡ (msg_at c i).notify
    → m.udata ≡ (msg_at c i).udata
    → (msg_at c i).notify ≡ some fn
    → ((n : Msg) → set r.0.msgs i n ≡ set c.msgs i n)
    → r.0.calls ≡ c.calls
    → r.0.cur_msg ≡ c.cur_msg
    → Serves c (settle_reply i m fn r)
unfolding settle_reply
settle_reply-Serves {c} i m fn (c', ret) h used s busy n u e put calls cur =
    let done : Msg = record m { result = ret } in
    let sound : IsSound done = IsSound-as s refl refl refl refl in
    elim (Bool-cases (m.state == 14)) [
      | inl all ↦ rw all (
          Serves-end i done h sound (put (msg_flush done))
            (rw (owes-used (msg_at c i) used, e, u)
              (ap (λ l. (fn, (msg_at c i).udata) ∷ told l) calls))
            cur)
      | inr waits ↦ rw waits (
          Serves-put i (if is_error ret then record done { errstr = c'.errstr } else done) h
            (ground arith) (ground arith) (put _) calls cur)
    ]

reply_to-Serves :
    (p : Platform) (junk : ℕ) {c : Pccc} (i : ℕ) (m : Msg) (told_by : Option ℕ)
    → IsPool c
    → ((msg_at c i).state == 0) ≡ false
    → (m.state == 0) ≡ false
    → m.state < 16
    → m.is_cmd ≡ (msg_at c i).is_cmd
    → m.buf ≡ (msg_at c i).buf
    → m.notify ≡ (msg_at c i).notify
    → m.udata ≡ (msg_at c i).udata
    → (msg_at c i).notify ≡ told_by
    → Serves c (reply_to p junk i m told_by c)
unfolding reply_to
reply_to-Serves p junk {c} i m none h used busy small cmd b n u e =
    Serves-busy i m h used busy small cmd b n u refl refl refl
reply_to-Serves p junk {c} i m (some fn) h used busy small cmd b n u e =
    let s : IsSound (msg_at c i) = IsSound-at c.msgs i h.sound in
    let asked : Pccc = record (put_msg c i m) { msg_in = record (c.msg_in) { index = 6 } } in
    let k = check_reply-Keeps p junk m asked in
    settle_reply-Serves i m fn (check_reply p junk m asked) h used
      (busy-IsSound s used busy small cmd b) busy n u e
      (λ v. ap (λ l. set l i v) k.msgs ∙ set-set c.msgs i m v) k.calls k.cur_msg

pub take_reply-Serves :
    (p : Platform) (junk : ℕ) {c : Pccc} (i : ℕ)
    → IsPool c
    → ((msg_at c i).state == 0) ≡ false
    → Serves c (take_reply p junk i c)
unfolding take_reply
take_reply-Serves p junk {c} i h used =
    let b = or_reply (msg_at c i).state (IsSound-at c.msgs i h.sound).small in
    reply_to-Serves p junk i (with_bit 8 (msg_at c i)) (msg_at c i).notify h used b.0 b.1 refl refl
      refl refl refl

pub msg_find_cmd-used :
    (p : Platform) (c : Pccc) {i : ℕ}
    → msg_find_cmd p c ≡ some i
    → ((msg_at c i).state == 0) ≡ false
unfolding msg_find_cmd
msg_find_cmd-used p c e =
    let f = find_cmd_from-awaits 0 (msg_get_tns p c.msg_in) c.msgs e in ground (arith, f)

-- Whatever message comes in, the pool stays sound, and a user is told only of a command that waited.
pub parse_msg-Serves :
    (p : Platform) (junk : ℕ) (c : Pccc) → IsPool c → Serves c (parse_msg p junk c)
unfolding parse_msg
parse_msg-Serves p junk c h =
    let acked : Pccc = record c { sock_out = (buf_append_byte c.sock_out p.msg_ack).0 } in
    let same : Serves c acked = Serves-same h refl refl h.in_pool in
    elim (Bool-cases (msg_is_reply c)) [
      | inr command ↦ rw command (Serves-refl h)
      | inl reply ↦ elim (Option-cases (msg_find_cmd p c)) [
        | inl stray ↦ rw (reply, stray) same
        | inr (i, found) ↦
            rw (reply, found)
              (Serves-trans same
                (take_reply-Serves p junk i same.pool (msg_find_cmd-used p c found)))
      ]
    ]
