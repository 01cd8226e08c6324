-- ===== src/Library/Ledger/Reply.antt =====
-- lib/reply.c, lib/sts.c: what the parsing of a reply leaves alone.
use libpccc.Common.{
  ℕ, ◌≡◌, refl, true, false, Bool, Bool-cases, inl, inr, Option, none, some, arith, ◌∙◌,
}
use libpccc.Codec.Arrays.{FileType}
use libpccc.Df1.State.{Platform}
use libpccc.Library.State.{
  Pccc, Msg, Handler, to_echo, to_ptl_read, to_slc_file_info, to_link_param, to_dummy,
}
use libpccc.Library.Status.{sts_check}
use libpccc.Library.Reply.{
  poke, run_reply, reply_echo, reply_protected_typed_logical_read, decode_values,
  reply_read_slc_file_info, reply_read_link_param, reply_dummy,
}
use libpccc.Library.Link.{check_reply, reply_ret}

-- The same messages and calls, and the rest of what the link's state machine needs.
pub record Keeps (c c' : Pccc) : Type 0 where
  pub msgs : c'.msgs ≡ c.msgs
  pub calls : c'.calls ≡ c.calls
  pub cur_msg : c'.cur_msg ≡ c.cur_msg
  pub sock_in : c'.sock_in ≡ c.sock_in
  pub sock_out : c'.sock_out ≡ c.sock_out
  pub read_mode : c'.read_mode ≡ c.read_mode

Keeps-refl : (c : Pccc) → Keeps c c
Keeps-refl c = record {
  msgs = refl;
  calls = refl;
  cur_msg = refl;
  sock_in = refl;
  sock_out = refl;
  read_mode = refl;
}

Keeps-trans : {a b c : Pccc} → Keeps a b → Keeps b c → Keeps a c
Keeps-trans s t = record {
  msgs = t.msgs ∙ s.msgs;
  calls = t.calls ∙ s.calls;
  cur_msg = t.cur_msg ∙ s.cur_msg;
  sock_in = t.sock_in ∙ s.sock_in;
  sock_out = t.sock_out ∙ s.sock_out;
  read_mode = t.read_mode ∙ s.read_mode;
}

poke-Keeps : (udata : Option ℕ) (d : _) (c : Pccc) → Keeps c (poke udata d c)
poke-Keeps none d c = Keeps-refl c
poke-Keeps (some q) d c = record {
  msgs = refl;
  calls = refl;
  cur_msg = refl;
  sock_in = refl;
  sock_out = refl;
  read_mode = refl;
}

echo-Keeps : (c : Pccc) (cmd : Msg) → Keeps c (reply_echo c cmd).0
unfolding reply_echo
echo-Keeps c cmd = ground arith

link_param-Keeps : (c : Pccc) (cmd : Msg) → Keeps c (reply_read_link_param c cmd).0
unfolding reply_read_link_param
link_param-Keeps c cmd = ground arith

sts_check-Keeps : (c : Pccc) (b : _) → Keeps c (sts_check c b).0
unfolding sts_check
sts_check-Keeps c b = ground arith

slc-Keeps :
    (p : Platform) (junk : ℕ) (c : Pccc) (cmd : Msg)
    → Keeps c (reply_read_slc_file_info p junk c cmd).0
unfolding reply_read_slc_file_info
slc-Keeps p junk c cmd = ground arith

decode-Keeps :
    (p : Platform) (junk : ℕ) (t : FileType) (n : ℕ) (udata : Option ℕ) (c : Pccc)
    → Keeps c (decode_values p junk t n udata c).0
decode-Keeps p junk t n none c = ground arith
decode-Keeps p junk t n (some q) c = ground arith

ptl-Keeps :
    (p : Platform) (junk : ℕ) (c : Pccc) (cmd : Msg)
    → Keeps c (reply_protected_typed_logical_read p junk c cmd).0
unfolding reply_protected_typed_logical_read
ptl-Keeps p junk c cmd = ground (arith, decode-Keeps p junk cmd.file_type cmd.elements cmd.udata c)

run_reply-Keeps :
    (p : Platform) (junk : ℕ) (r : Option Handler) (c : Pccc) (cmd : Msg)
    → Keeps c (run_reply p junk r c cmd).0
unfolding run_reply
run_reply-Keeps p junk none c cmd = Keeps-refl c
run_reply-Keeps p junk (some to_echo) c cmd = echo-Keeps c cmd
run_reply-Keeps p junk (some to_ptl_read) c cmd = ptl-Keeps p junk c cmd
run_reply-Keeps p junk (some to_slc_file_info) c cmd = slc-Keeps p junk c cmd
run_reply-Keeps p junk (some to_link_param) c cmd = link_param-Keeps c cmd
run_reply-Keeps p junk (some to_dummy) c cmd = ground (arith, reply_dummy)

reply_ret-Keeps : {c : Pccc} (r : Pccc × Bool) → Keeps c r.0 → Keeps c (reply_ret r).0
reply_ret-Keeps (c, true) k = k
reply_ret-Keeps (c, false) k = k

pub check_reply-Keeps :
    (p : Platform) (junk : ℕ) (m : Msg) (c : Pccc) → Keeps c (check_reply p junk m c).0
unfolding check_reply
check_reply-Keeps p junk m c = elim (Bool-cases (sts_check c c.msg_in).1) [
  | inl bad ↦ rw bad (sts_check-Keeps c c.msg_in)
  | inr good ↦ rw good (
      reply_ret-Keeps (run_reply p junk m.reply (sts_check c c.msg_in).0 m) (
        Keeps-trans (sts_check-Keeps c c.msg_in)
          (run_reply-Keeps p junk m.reply (sts_check c c.msg_in).0 m)))
]
