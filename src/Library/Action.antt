-- ===== src/Library/Action.antt =====
-- lib/cmd_init.c and its two companions: a command function is an `Action`, which returns the
-- connection and how the call ends. Here are the steps that the commands share.
use Prim.Native.String.{String}
use libpccc.Common.{ℕ, Bool, true, false, Option, none, some, if◌then◌else◌}
use libpccc.Buf.{Buf}
use libpccc.Ret.{Ret, success, enocon, eparam, eoverflow}
use libpccc.Library.State.{Pccc, Msg, plain, from_callee, msg_at, put_msg}
use libpccc.Library.Message.{msg_flush}

-- How a call ends: with a value, with an error, with -1 (which is no PCCC_RET_T), or never.
pub data Outcome (A : Type 0) : Type 0 where
  ok : A → Outcome A
  err : Ret → Outcome A
  minus_one : Outcome A
  never : Outcome A

abbrev pub Action : Type 0 → Type 0
Action A = Pccc → Pccc × Outcome A

-- A call that ended with a value goes on with it.
abbrev pub bound : {A B : Type 0} → Pccc × Outcome A → (A → Action B) → Pccc × Outcome B
bound (c, ok a) f = f a c
bound (c, err e) f = (c, err e)
bound (c, minus_one) f = (c, minus_one)
bound (c, never) f = (c, never)

infixl 5 ◌>>=◌ ◌>>◌
abbrev pub ◌>>=◌ : {A B : Type 0} → Action A → (A → Action B) → Action B
◌>>=◌ m f c = bound (m c) f

abbrev pub ◌>>◌ : {A B : Type 0} → Action A → Action B → Action B
m >> k = m >>= λ _. k

-- A returned PCCC_RET_T.
abbrev pub returned : Ret → Outcome (Unit {0})
returned success = ok tt
returned ret = err ret

abbrev pub call_ret : (Pccc → Pccc × Ret) → Action (Unit {0})
call_ret f c = let (c', ret) = f c in (c', returned ret)

abbrev pub raise : {A : Type 0} → Ret → Action A
raise ret c = (c, err ret)

-- `strncpy(errstr, ...); return PCCC_EPARAM;`
abbrev pub refuse : {A : Type 0} → String → Action A
refuse text c = (record c { errstr = plain text }, err eparam)

abbrev pub refuse_if : Bool → String → Action (Unit {0})
refuse_if test text c = if test then refuse text c else (c, ok tt)

-- `if (buf_append_...(cmd->buf, ...)) { ...; msg_flush(cmd); return PCCC_EOVERFLOW; }`
unfoldable pub fill : ℕ → String → (Buf → Buf × Bool) → Action (Unit {0})
unfolding msg_flush
fill i text append c =
    let m : Msg = msg_at c i in
    let (b, overflow) = append m.buf in
    let filled : Msg = record m { buf = b } in
    if overflow
    then (record (put_msg c i (msg_flush filled)) { errstr = plain text }, err eoverflow)
    else (put_msg c i filled, ok tt)

-- `ret = encode(cmd->buf, ...); if (ret != PCCC_SUCCESS) { msg_flush(cmd); return ret; }`, where
-- the callee leaves its own text; `none` is -1.
abbrev pub coded : ℕ → Msg → Pccc → Buf × Option Ret → Pccc × Outcome (Unit {0})
coded i m c (b, some success) = (put_msg c i (record m { buf = b }), ok tt)
coded i m c (b, none) =
    (record (put_msg c i (msg_flush (record m { buf = b }))) { errstr = from_callee }, minus_one)
coded i m c (b, some ret) =
    (record (put_msg c i (msg_flush (record m { buf = b }))) { errstr = from_callee }, err ret)

unfoldable pub fill_by : ℕ → (Buf → Buf × Option Ret) → Action (Unit {0})
unfolding msg_flush
fill_by i encode c = coded i (msg_at c i) c (encode (msg_at c i).buf)

abbrev pub is_null : Option ℕ → Bool
is_null none = true
is_null (some q) = false

-- `if (con == NULL) return PCCC_ENOCON;`, with which each command function starts: the functions here
-- are on a connection, and this makes them functions on a pointer.
abbrev pub at_con : {A : Type 0} → Action A → Option Pccc → Option Pccc × Outcome A
at_con act none = (none, err enocon)
at_con act (some c) = let (c', out) = act c in (some c', out)
