-- ===== src/Library/Ledger/Acks.antt =====
-- lib/pccc.c: an ACK or a NAK of the message that is out serves what the library owes.
use libpccc.Common.{
  ℕ, ◌+◌, ◌<◌, ◌≡◌, refl, sym, ap, ◌∙◌, Bool, Bool-cases, inl, inr, Option, none, some, ◌++◌, set,
  true, false, ◌==◌,
}
use libpccc.Ret.{Ret, ecmd_nodeliver}
use libpccc.Df1.State.{Platform}
use libpccc.Library.State.{Msg, Pccc, msg_at, put_msg}
use libpccc.Library.Message.{msg_flush}
use libpccc.Library.Link.{
  is_error, with_bit, ack_done, ack_cmd, ack_msg, or_send_next, tell_cmd, rcv_link_ack,
  rcv_link_nak,
}
use libpccc.Library.Pool.{IsSound, IsSound-at, IsPool, busy-IsSound, used-is_cmd, or_ack}
use libpccc.Library.Ledger.{due_to, told}
use libpccc.Library.Ledger.Serve.{
  Serves, Serves-trans, Serves-busy, Serves-end, owes-used, told-call, told-tell, tell-msgs,
  tell-cur_msg,
}
use libpccc.Library.Ledger.Steps.{msg_send_next-Serves}

-- The message `m` stands for the message `i`, which is in use, and is in use.
record StandsFor (c : Pccc) (i : ℕ) (m : Msg) : Type 0 where
  used : ((msg_at c i).state == 0) ≡ false
  busy : (m.state == 0) ≡ false
  small : m.state < 16
  same_kind : m.is_cmd ≡ (msg_at c i).is_cmd
  same_buf : m.buf ≡ (msg_at c i).buf
  same_notify : m.notify ≡ (msg_at c i).notify
  same_udata : m.udata ≡ (msg_at c i).udata

module _ {c : Pccc} (i : ℕ) (h : IsPool c) where
  StandsFor-IsSound : {m : Msg} → StandsFor c i m → IsSound m
  StandsFor-IsSound f =
      let s : IsSound (msg_at c i) = IsSound-at c.msgs i h.sound in
      busy-IsSound s f.used f.busy f.small f.same_kind f.same_buf

  put-Serves :
      (m : Msg) {c' : Pccc}
      → StandsFor c i m
      → c'.msgs ≡ set c.msgs i m
      → c'.calls ≡ c.calls
      → c'.cur_msg ≡ c.cur_msg
      → Serves c c'
  put-Serves m f =
      Serves-busy i m h f.used f.busy f.small f.same_kind f.same_buf f.same_notify f.same_udata

  ack_done-Serves : (m : Msg) → StandsFor c i m → Serves c (ack_done i m c)
  unfolding ack_done
  ack_done-Serves m f = elim (Bool-cases (m.state == 14)) [
    | inr waits ↦ rw waits (put-Serves m f refl refl refl)
    | inl done ↦
        let said =
          told-call m.notify m.result m.udata c.calls
          ∙ ap (λ v. due_to v m.udata ++ told c.calls) f.same_notify
          ∙ ap (λ v. due_to (msg_at c i).notify v ++ told c.calls) f.same_udata
          ∙ ap (λ l. l ++ told c.calls) (sym (owes-used (msg_at c i) f.used)) in
        elim (Bool-cases (is_error m.result)) [
          | inl bad ↦ rw (done, bad) (Serves-end i m h (StandsFor-IsSound f) refl said refl)
          | inr good ↦ rw (done, good) (Serves-end i m h (StandsFor-IsSound f) refl said refl)
        ]
  ]

  ack_cmd-Serves :
      (now : Option ℕ) (m : Msg) (fn : Option ℕ)
      → StandsFor c i m
      → Serves c (ack_cmd now i m fn c).0
  unfolding ack_cmd
  ack_cmd-Serves now m none f = ack_done-Serves m f
  ack_cmd-Serves none m (some fn) f = put-Serves m f refl refl refl
  ack_cmd-Serves (some t) m (some fn) f =
      ack_done-Serves (record m { expires = t + c.timeout + 1 })
        (record {
          used = f.used;
          busy = f.busy;
          small = f.small;
          same_kind = f.same_kind;
          same_buf = f.same_buf;
          same_notify = f.same_notify;
          same_udata = f.same_udata;
        })

  ack_msg-Serves :
      (cmd : Bool) (now : Option ℕ) (m : Msg)
      → cmd ≡ true
      → StandsFor c i m
      → Serves c (ack_msg cmd now i m c).0
  unfolding ack_msg
  ack_msg-Serves true now m e f = ack_cmd-Serves now m m.notify f
  ack_msg-Serves false now m e f = cc

or_send_next-Serves :
    (p : Platform) {c : Pccc} (r : Pccc × Bool) → Serves c r.0 → Serves c (or_send_next p r).0
or_send_next-Serves p (c', true) s = s
or_send_next-Serves p (c', false) s = Serves-trans s (msg_send_next-Serves p c' s.pool)

tell_cmd-Serves :
    (cmd : Bool) {c : Pccc} (i : ℕ) (ret : Ret)
    → IsPool c
    → ((msg_at c i).state == 0) ≡ false
    → cmd ≡ true
    → let m = msg_at c i in Serves c (tell_cmd cmd m.notify ret m.udata (put_msg c i (msg_flush m)))
tell_cmd-Serves false i ret h used e = cc
tell_cmd-Serves true {c} i ret h used e =
    let m : Msg = msg_at c i in
    let flushed : Pccc = put_msg c i (msg_flush m) in
    Serves-end i m h (IsSound-at c.msgs i h.sound) (tell-msgs m.notify ret m.udata flushed)
      (told-tell m.notify ret m.udata flushed
        ∙ ap (λ l. l ++ told c.calls) (sym (owes-used m used)))
      (tell-cur_msg m.notify ret m.udata flushed)

-- While the current message is in use, an ACK or a NAK leaves the pool sound, and a user is told
-- only of a command that waited.
module _ (p : Platform) (c : Pccc) (h : IsPool c)
    (used : ((msg_at c c.cur_msg).state == 0) ≡ false) where
  pub rcv_link_ack-Serves : (now : Option ℕ) → Serves c (rcv_link_ack p now c).0
  unfolding rcv_link_ack
  rcv_link_ack-Serves now =
      let i : ℕ = c.cur_msg in
      let m : Msg = msg_at c i in
      let s : IsSound m = IsSound-at c.msgs i h.sound in
      let b = or_ack m.state s.small in
      or_send_next-Serves p (ack_msg m.is_cmd now i (with_bit 4 m) c) (
        ack_msg-Serves i h m.is_cmd now (with_bit 4 m) (used-is_cmd s used) (record {
          used = used;
          busy = b.0;
          small = b.1;
          same_kind = refl;
          same_buf = refl;
          same_notify = refl;
          same_udata = refl;
        }))

  pub rcv_link_nak-Serves : Serves c (rcv_link_nak p c)
  unfolding rcv_link_nak
  rcv_link_nak-Serves =
      let i : ℕ = c.cur_msg in
      let m : Msg = msg_at c i in
      let end =
        tell_cmd-Serves m.is_cmd i ecmd_nodeliver h used
          (used-is_cmd (IsSound-at c.msgs i h.sound) used) in
      Serves-trans end (msg_send_next-Serves p _ end.pool)
