-- ===== src/Library/Assembly.antt =====
-- lib/cmd_init.c: what a started command has put into the pool, on a little-endian host.
pub mod Init
pub mod Fill
pub mod Handles
pub mod Commands06
pub mod Commands0f
pub mod Typed
pub mod Areas
pub mod Fields
pub mod Modes
pub mod Bits
pub mod Requests
use libpccc.Common.{
  ℕ, zero, suc, ◌+◌, ◌^◌, ◌≤◌, ◌<◌, ◌≡◌, refl, sym, ap, ◌∙◌, Bool, true, false, not, ◌||◌, inl, inr,
  Bool-cases, Option, none, some, List, [], ◌∷◌, ◌++◌, get_or, set, length, length-append,
  length-set, get_or-set_self, take, arith, ltb, ◌==◌, if◌then◌else◌, u16, append_assoc, append-nil,
}
use Prim.Native.String.{String}
use libpccc.ByteOrder.{little_endian}
use libpccc.Buf.{Buf, contents, buf_append_byte}
use libpccc.Buf.Invariant.{IsValid}
use libpccc.Buf.Encode.{
  Wrote, Appends, fits, overflows, Appends-room, byte-Appends, or_else-Appends, and_also-Appends,
}
use libpccc.Addr.Element.{link16, link_word-Appends}
use libpccc.Df1.State.{Platform}
use libpccc.Codec.Arrays.{FileType}
use libpccc.Library.State.{Pccc, Msg, Text, no_msg, msg_at, put_msg, Handler, buf_size}
use libpccc.Library.Message.{free_from, taken, msg_get_free}
use libpccc.Ret.{Ret, success}
use libpccc.Ret.Encodes.{Encodes, Encodes-room}
use libpccc.Library.Action.{
  Outcome, ok, err, bound, never, Action, ◌>>=◌, ◌>>◌, fill, coded, fill_by,
}
use libpccc.Library.Command.{has_fnc, cmd_header, with_fnc, started, filled, begun, cmd_init}
use libpccc.Library.Pool.{IsSound, IsSound-at, IsPool, set-set, free_from-unused}

-- On a little-endian host.
abbrev pub little : Platform → Platform
little p = record p { endian = little_endian }

-- The bytes with which a command starts.
abbrev pub header : ℕ → ℕ → ℕ → ℕ → List ℕ
header dnode src_addr cmd tns = dnode ∷ src_addr ∷ cmd ∷ 0 ∷ link16 tns

abbrev pub fnc : ℕ → ℕ → List ℕ
fnc cmd func = if has_fnc cmd then func ∷ [] else []

-- What a message says beside its state, its buffer, its numbers and pointers.
pub record Desc : Type 0 where
  pub bytes : ℕ
  pub elements : ℕ
  pub usize : ℕ
  pub file_type : FileType
  pub expires : ℕ
  pub result : Ret
  pub errstr : Text

abbrev pub desc_of : Msg → Desc
desc_of m = record {
  bytes = m.bytes;
  elements = m.elements;
  usize = m.usize;
  file_type = m.file_type;
  expires = m.expires;
  result = m.result;
  errstr = m.errstr;
}

-- The message `i`, which was free, holds a command with these bytes that waits to be sent; the rest
-- of the connection is as it was, but for the next transaction number and the error text.
pub record Assembled (c : Pccc) (i : ℕ) (desc : Desc) (fn udata : Option ℕ) (reply : Option Handler)
    (bytes : List ℕ) (c' : Pccc) : Type 0 where
  pub inside : i < length c.msgs
  pub was_free : (msg_at c i).state ≡ 0
  pub message : Msg
  pub placed : c'.msgs ≡ set c.msgs i message
  pub pending : message.state ≡ 1
  pub is_cmd : message.is_cmd ≡ true
  pub tns : message.tns ≡ c.tns
  pub notifies : message.notify ≡ fn
  pub points : message.udata ≡ udata
  pub handler : message.reply ≡ reply
  pub valid : IsValid message.buf
  pub sized : message.buf.max ≡ buf_size
  pub text : contents message.buf ≡ bytes
  pub len : message.buf.len ≡ length bytes
  pub next_tns : c'.tns ≡ u16 (c.tns + 1)
  pub same_out : c'.sock_out ≡ c.sock_out
  pub same_cur : c'.cur_msg ≡ c.cur_msg
  pub same_link : c'.connected ≡ c.connected
  pub same_mem : c'.mem ≡ c.mem
  pub same_calls : c'.calls ≡ c.calls
  pub described : desc_of message ≡ desc
  pub at_start : message.buf.index ≡ 0
  pub same_addr : c'.src_addr ≡ c.src_addr
  pub same_timeout : c'.timeout ≡ c.timeout
  pub same_in : c'.sock_in ≡ c.sock_in
  pub same_msg_in : c'.msg_in ≡ c.msg_in
  pub same_mode : c'.read_mode ≡ c.read_mode
  pub same_in_len : c'.msg_in_len ≡ c.msg_in_len

pub >>=-ok :
    {A B : Type 0} (m : Action A) (f : A → Action B) {c c' : Pccc} {a : A}
    → m c ≡ (c', ok a)
    → (m >>= f) c ≡ f a c'
>>=-ok m f e = ap (λ r. bound r f) e

pub >>=-err :
    {A B : Type 0} (m : Action A) (f : A → Action B) {c c' : Pccc} {ret : Ret}
    → m c ≡ (c', err ret)
    → (m >>= f) c ≡ (c', err ret)
>>=-err m f e = ap (λ r. bound r f) e

module _ {c : Pccc} {i : ℕ} {desc : Desc} {fn udata : Option ℕ} {reply : Option Handler} where
  pub Assembled-at :
      {c' : Pccc} {xs : List ℕ} (a : Assembled c i desc fn udata reply xs c')
      → msg_at c' i ≡ a.message
  Assembled-at a =
      ap (λ l. get_or l i no_msg) a.placed ∙ get_or-set_self c.msgs i a.message no_msg a.inside

  pub Assembled-desc :
      {c' : Pccc} {xs : List ℕ}
      → Assembled c i desc fn udata reply xs c'
      → desc_of (msg_at c' i) ≡ desc
  Assembled-desc a = ap desc_of (Assembled-at a) ∙ a.described

  pub Assembled-IsSound :
      {c' : Pccc} {xs : List ℕ} (a : Assembled c i desc fn udata reply xs c') → IsSound a.message
  Assembled-IsSound a = record {
    small = omega (arith, a.pending);
    phase = inr (ground (arith, a.pending), a.is_cmd);
    valid = a.valid;
    sized = a.sized;
  }

  -- The message with another buffer that holds more.
  pub Assembled-put :
      {c' : Pccc} {xs ys : List ℕ} (b : Buf)
      → Assembled c i desc fn udata reply xs c'
      → Wrote (msg_at c' i).buf ys b
      → Assembled c i desc fn udata reply
          (xs ++ ys)
          (put_msg c' i (record (msg_at c' i) { buf = b }))
  Assembled-put {c'} {xs} {ys} b a w =
      let at = Assembled-at a in
      let m : Msg = record (msg_at c' i) { buf = b } in
      record {
        inside = a.inside;
        was_free = a.was_free;
        message = m;
        placed = ap (λ l. set l i m) a.placed ∙ set-set c.msgs i a.message m;
        pending = ap (λ (m : Msg). m.state) at ∙ a.pending;
        is_cmd = ap (λ (m : Msg). m.is_cmd) at ∙ a.is_cmd;
        tns = ap (λ (m : Msg). m.tns) at ∙ a.tns;
        notifies = ap (λ (m : Msg). m.notify) at ∙ a.notifies;
        points = ap (λ (m : Msg). m.udata) at ∙ a.points;
        handler = ap (λ (m : Msg). m.reply) at ∙ a.handler;
        valid = w.valid;
        sized = w.same_max ∙ ap (λ (m : Msg). m.buf.max) at ∙ a.sized;
        text = w.text ∙ ap (λ (m : Msg). contents m.buf ++ ys) at ∙ ap (λ l. l ++ ys) a.text;
        len = omega (arith, w.new_len, ap (λ (m : Msg). m.buf.len) at, a.len, length-append xs ys);
        next_tns = a.next_tns;
        same_out = a.same_out;
        same_cur = a.same_cur;
        same_link = a.same_link;
        same_mem = a.same_mem;
        same_calls = a.same_calls;
        described = ap desc_of at ∙ a.described;
        at_start = w.same_index ∙ ap (λ (m : Msg). m.buf.index) at ∙ a.at_start;
        same_addr = a.same_addr;
        same_timeout = a.same_timeout;
        same_in = a.same_in;
        same_msg_in = a.same_msg_in;
        same_mode = a.same_mode;
        same_in_len = a.same_in_len;
      }

  -- The message with other fields that say nothing of whom to tell or what to send.
  pub Assembled-as :
      {c' : Pccc} {xs : List ℕ} (m : Msg)
      → Assembled c i desc fn udata reply xs c'
      → m.state ≡ (msg_at c' i).state
      → m.is_cmd ≡ (msg_at c' i).is_cmd
      → m.tns ≡ (msg_at c' i).tns
      → m.notify ≡ (msg_at c' i).notify
      → m.udata ≡ (msg_at c' i).udata
      → m.reply ≡ (msg_at c' i).reply
      → m.buf ≡ (msg_at c' i).buf
      → Assembled c i (desc_of m) fn udata reply xs (put_msg c' i m)
  Assembled-as {c'} m a st cmd tns n u r b =
      let at = Assembled-at a in
      let e : m.buf ≡ a.message.buf = b ∙ ap (λ (v : Msg). v.buf) at in
      record {
        inside = a.inside;
        was_free = a.was_free;
        message = m;
        placed = ap (λ l. set l i m) a.placed ∙ set-set c.msgs i a.message m;
        pending = st ∙ ap (λ (v : Msg). v.state) at ∙ a.pending;
        is_cmd = cmd ∙ ap (λ (v : Msg). v.is_cmd) at ∙ a.is_cmd;
        tns = tns ∙ ap (λ (v : Msg). v.tns) at ∙ a.tns;
        notifies = n ∙ ap (λ (v : Msg). v.notify) at ∙ a.notifies;
        points = u ∙ ap (λ (v : Msg). v.udata) at ∙ a.points;
        handler = r ∙ ap (λ (v : Msg). v.reply) at ∙ a.handler;
        valid = rw e a.valid;
        sized = ap (λ (v : Buf). v.max) e ∙ a.sized;
        text = ap contents e ∙ a.text;
        len = ap (λ (v : Buf). v.len) e ∙ a.len;
        next_tns = a.next_tns;
        same_out = a.same_out;
        same_cur = a.same_cur;
        same_link = a.same_link;
        same_mem = a.same_mem;
        same_calls = a.same_calls;
        described = refl;
        at_start = ap (λ (v : Buf). v.index) e ∙ a.at_start;
        same_addr = a.same_addr;
        same_timeout = a.same_timeout;
        same_in = a.same_in;
        same_msg_in = a.same_msg_in;
        same_mode = a.same_mode;
        same_in_len = a.same_in_len;
      }
