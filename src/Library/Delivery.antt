-- ===== src/Library/Delivery.antt =====
-- lib/pccc.c, lib/reply.c: the reply to a read, from the message that came in to the user's memory.
use libpccc.Common.{
  ℕ, ◌≡◌, refl, sym, ap, subst, ◌∙◌, true, false, Option, none, some, List, [], ◌∷◌, ◌++◌, length,
  take, drop, arith, ◌==◌, if◌then◌else◌, append-nil, set, bit_or,
}
use libpccc.ByteOrder.{little_endian}
use libpccc.Buf.{Buf, unread, buf_append_byte}
use libpccc.Buf.Invariant.{IsValid}
use libpccc.Ret.{success}
use libpccc.Codec.Arrays.{FileType, Value, data_dec_array}
use libpccc.Codec.ArrayLaws.{All, AllTwo, InRange, Slot, Same, bytes_of, concat_bytes, supported}
use libpccc.Codec.Stored.{data_dec_array-reads}
use libpccc.Df1.State.{Platform}
use libpccc.Library.State.{Pccc, Msg, Datum, values, notified, msg_at, put_msg, to_ptl_read}
use libpccc.Library.Message.{msg_get_len, msg_get_sts, msg_is_reply, msg_find_cmd, msg_flush}
use libpccc.Library.Status.{sts_check}
use libpccc.Library.Reply.{
  as_values, poke, decoded, decode_values, reply_protected_typed_logical_read, run_reply,
}
use libpccc.Library.Link.{
  check_reply, reply_ret, settle_reply, reply_to, take_reply, parse_msg, with_bit,
}
use libpccc.Library.Assembly.{little}
use libpccc.Library.Pool.{set-set}

-- The values stand in the user's memory, before what the array held behind them, and nothing else that
-- the library keeps has changed.
record Stores (t : FileType) (n q : ℕ) (xs : List (Value t)) (c e : Pccc) : Type 0 where
  pub read : List (Value t)
  pub kept : e.mem q ≡ values t (read ++ drop n (as_values t (c.mem q)))
  pub same : AllTwo (Same t) read xs
  pub same_msgs : e.msgs ≡ c.msgs
  pub same_calls : e.calls ≡ c.calls
  pub same_out : e.sock_out ≡ c.sock_out

module _ (p : Platform) (junk : ℕ) (t : FileType) (n q : ℕ) (xs : List (Value t)) where
  -- What the reply and the array have to be.
  pub record Fits (c : Pccc) (b : Buf) : Type 0 where
    pub known : supported t ≡ true
    pub ranged : All (InRange t) xs
    pub as_many : length xs ≡ length (take n (as_values t (c.mem q)))
    pub slots : All (Slot t) (take n (as_values t (c.mem q)))
    pub valid : IsValid b
    pub bytes : unread b ≡ concat_bytes (bytes_of t) xs

  decode_values-Stores :
      (c : Pccc)
      → Fits c c.msg_in
      → (e : Pccc) × (decode_values (little p) junk t n (some q) c ≡ (e, false))
        × Stores t n q xs c e
  decode_values-Stores c f =
      let olds : List (Value t) = take n (as_values t (c.mem q)) in
      let r = data_dec_array little_endian junk t olds c.msg_in in
      let d =
        data_dec_array-reads t junk xs olds [] {b = c.msg_in} f.known f.as_many f.ranged f.slots
          f.valid (f.bytes ∙ sym (append-nil (concat_bytes (bytes_of t) xs))) in
      let after : Pccc =
        poke (some q) (values t (r.1 ++ drop n (as_values t (c.mem q))))
          (record c { msg_in = r.0 }) in
      let here : (q == q) ≡ true = ground arith in
      (
        after,
        ap (λ ret. decoded ret after) d.0,
        record {
          read = r.1;
          kept = rw here refl;
          same = d.1;
          same_msgs = refl;
          same_calls = refl;
          same_out = refl;
        },
      )

  -- The handler, on a reply of the length that was asked for.
  reply-Stores :
      (c : Pccc) (cmd : Msg)
      → Fits c c.msg_in
      → cmd.file_type ≡ t
      → cmd.elements ≡ n
      → cmd.udata ≡ some q
      → cmd.bytes ≡ msg_get_len c.msg_in
      → (e : Pccc) × (reply_protected_typed_logical_read (little p) junk c cmd ≡ (e, false))
        × Stores t n q xs c e
  unfolding reply_protected_typed_logical_read
  reply-Stores c cmd f ft el u len =
      let d = decode_values-Stores c f in
      let fits : (cmd.bytes == msg_get_len c.msg_in) ≡ true = ground (arith, len) in
      let args : decode_values (little p) junk cmd.file_type cmd.elements cmd.udata c
          ≡ (d.0, false) =
        ap (λ ft. decode_values (little p) junk ft cmd.elements cmd.udata c) ft
        ∙ ap (λ el. decode_values (little p) junk t el cmd.udata c) el
        ∙ ap (λ u. decode_values (little p) junk t n u c) u
        ∙ d.1 in
      (d.0, rw fits args, d.2)

  -- The status of the reply is looked at first.
  check_reply-Stores :
      (c : Pccc) (cmd : Msg)
      → Fits c c.msg_in
      → cmd.file_type ≡ t
      → cmd.elements ≡ n
      → cmd.udata ≡ some q
      → cmd.reply ≡ some to_ptl_read
      → cmd.bytes ≡ msg_get_len c.msg_in
      → msg_get_sts c.msg_in ≡ 0
      → (e : Pccc) × (check_reply (little p) junk cmd c ≡ (e, success)) × Stores t n q xs c e
  unfolding check_reply sts_check run_reply
  check_reply-Stores c cmd f ft el u r len sts =
      let d = reply-Stores c cmd f ft el u len in
      let good : (msg_get_sts c.msg_in == 0) ≡ true = ground (arith, sts) in
      let ran : reply_ret (run_reply (little p) junk cmd.reply c cmd) ≡ (d.0, success) =
        ap (λ h. reply_ret (run_reply (little p) junk h c cmd)) r ∙ ap reply_ret d.1 in
      (d.0, rw good ran, d.2)

  -- The user of command `i` is told of its success, once, with the values in place, and the message is
  -- free.
  pub record Delivered (fn i : ℕ) (c d : Pccc) : Type 0 where
    pub read : List (Value t)
    pub kept : d.mem q ≡ values t (read ++ drop n (as_values t (c.mem q)))
    pub same : AllTwo (Same t) read xs
    pub told : d.calls ≡ notified fn success (some q) ∷ c.calls
    pub left : Msg
    pub freed : left.state ≡ 0
    pub msgs : d.msgs ≡ set c.msgs i left
    pub acked : d.sock_out ≡ (buf_append_byte c.sock_out p.msg_ack).0

  -- The message that came in, to be read from its first byte of data on.
  abbrev pub data_of : Pccc → Buf
  data_of c = record (c.msg_in) { index = 6 }

  settle_reply-Delivered :
      (fn i : ℕ) (m : Msg) (c d e : Pccc)
      → m.state ≡ 14
      → m.udata ≡ some q
      → ((v : Msg) → set d.msgs i v ≡ set c.msgs i v)
      → d.mem ≡ c.mem
      → d.calls ≡ c.calls
      → d.sock_out ≡ (buf_append_byte c.sock_out p.msg_ack).0
      → Stores t n q xs d e
      → Delivered fn i c (settle_reply i m fn (e, success))
  unfolding settle_reply msg_flush
  settle_reply-Delivered fn i m c d e done u put mem calls out s =
      let all : (m.state == 14) ≡ true = ground (arith, done) in
      let left : Msg = msg_flush (record m { result = success }) in
      rw all (record {
        read = s.read;
        kept = s.kept ∙ ap (λ (f : ℕ → Datum). values t (s.read ++ drop n (as_values t (f q)))) mem;
        same = s.same;
        told =
            ap (λ v. notified fn success v ∷ e.calls) u
            ∙ ap (λ l. notified fn success (some q) ∷ l) (s.same_calls ∙ calls);
        left = left;
        freed = refl;
        msgs = ap (λ l. set l i left) s.same_msgs ∙ put left;
        acked = s.same_out ∙ out;
      })

  -- What the acknowledged reply comes to.
  abbrev answer : Pccc → Option ℕ → Pccc
  answer acked o = elim o [ none ↦ acked | some i ↦ take_reply (little p) junk i acked ]

  -- On a little-endian host: a reply with STS 0 comes in to the command `i`, a read that has a function
  -- to call and has been acknowledged, with the transaction number of that command. If the reply has
  -- as many bytes as the command asked for, which are those of values of the type, all in range, then
  -- the user's array holds these values, in front of what it held behind them, the function is called
  -- once, with success and the pointer, the message is free, and the reply is acknowledged.
  pub parse_msg-Delivered :
      (c : Pccc) (i fn : ℕ)
      → msg_is_reply c ≡ true
      → msg_find_cmd (little p) c ≡ some i
      → (msg_at c i).state ≡ 6
      → (msg_at c i).notify ≡ some fn
      → (msg_at c i).udata ≡ some q
      → (msg_at c i).reply ≡ some to_ptl_read
      → (msg_at c i).file_type ≡ t
      → (msg_at c i).elements ≡ n
      → (msg_at c i).bytes ≡ msg_get_len c.msg_in
      → msg_get_sts c.msg_in ≡ 0
      → Fits c (data_of c)
      → Delivered fn i c (parse_msg (little p) junk c)
  unfolding parse_msg take_reply reply_to msg_get_len msg_get_sts
  parse_msg-Delivered c i fn is_reply found st nt u r ft el len sts f =
      let acked : Pccc = record c { sock_out = (buf_append_byte c.sock_out p.msg_ack).0 } in
      let m : Msg = with_bit 8 (msg_at c i) in
      let asked : Pccc = record (put_msg acked i m) { msg_in = data_of c } in
      let ready : Fits asked asked.msg_in = record {
        known = f.known;
        ranged = f.ranged;
        as_many = f.as_many;
        slots = f.slots;
        valid = f.valid;
        bytes = f.bytes;
      } in
      let k = check_reply-Stores asked m ready ft el u r len sts in
      let done : m.state ≡ 14 = ap (λ s. bit_or s 8) st in
      let told : reply_to (little p) junk i m (msg_at c i).notify acked
          ≡ settle_reply i m fn (k.0, success) =
        ap (λ v. reply_to (little p) junk i m v acked) nt ∙ ap (settle_reply i m fn) k.1 in
      let answered : parse_msg (little p) junk c ≡ settle_reply i m fn (k.0, success) =
        ap (λ b. if b then answer acked (msg_find_cmd (little p) c) else c) is_reply
        ∙ ap (answer acked) found
        ∙ told in
      subst (λ d. Delivered fn i c d) (sym answered)
        (settle_reply-Delivered fn i m c asked k.0 done u (λ v. set-set c.msgs i m v) refl refl refl
          k.2)
