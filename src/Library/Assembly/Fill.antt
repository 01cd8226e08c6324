-- ===== src/Library/Assembly/Fill.antt =====
-- lib/cmd_init.c: what is appended to the message of a started command.
use libpccc.Common.{ℕ, ◌+◌, ◌≤◌, ◌≡◌, ap, ◌∙◌, Bool, false, Option, some, List, ◌++◌, length, arith}
use Prim.Native.String.{String}
use libpccc.Buf.{Buf}
use libpccc.Buf.Invariant.{IsValid}
use libpccc.Buf.Encode.{Appends, Appends-room}
use libpccc.Library.State.{Pccc, Msg, msg_at, put_msg, Handler, buf_size}
use libpccc.Ret.{Ret, success}
use libpccc.Ret.Encodes.{Encodes, Encodes-room}
use libpccc.Library.Action.{ok, fill, coded, fill_by}
use libpccc.Library.Assembly.{Desc, Assembled, Assembled-at, Assembled-put}

fill-fits :
    (i : ℕ) (label : String) (append : Buf → Buf × Bool) (c : Pccc)
    → (append (msg_at c i).buf).1 ≡ false
    → fill i label append c
      ≡ (put_msg c i (record (msg_at c i) { buf = (append (msg_at c i).buf).0 }), ok tt)
unfolding fill
fill-fits i label append c e = rw (fill, e)

coded-fits :
    (i : ℕ) (m : Msg) (c : Pccc) (r : Buf × Ret)
    → r.1 ≡ success
    → coded i m c (r.0, some r.1) ≡ (put_msg c i (record m { buf = r.0 }), ok tt)
coded-fits i m c r e = ap (λ v. coded i m c (r.0, some v)) e

fill_by-fits :
    (i : ℕ) (encode : Buf → Buf × Option Ret) (c : Pccc) (r : Buf × Ret)
    → encode (msg_at c i).buf ≡ (r.0, some r.1)
    → r.1 ≡ success
    → fill_by i encode c ≡ (put_msg c i (record (msg_at c i) { buf = r.0 }), ok tt)
unfolding fill_by
fill_by-fits i encode c r e s = ap (coded i (msg_at c i) c) e ∙ coded-fits i (msg_at c i) c r s

module _ {c : Pccc} {i : ℕ} {desc : Desc} {fn udata : Option ℕ} {reply : Option Handler} where
  -- What is appended goes behind the bytes that are there, if there is room.
  pub fill-Assembled :
      {c' : Pccc} {xs ys : List ℕ} (label : String) (append : Buf → Buf × Bool)
      → Assembled c i desc fn udata reply xs c'
      → ((b : Buf) → IsValid b → Appends b ys (append b))
      → length xs + length ys ≤ buf_size
      → (d : Pccc) × (fill i label append c' ≡ (d, ok tt))
        × Assembled c i desc fn udata reply (xs ++ ys) d
  fill-Assembled {c'} {xs} {ys} label append a writes room =
      let at = Assembled-at a in
      let b : Buf = (msg_at c' i).buf in
      let v : IsValid b = rw at a.valid in
      let r = Appends-room (append b) (writes b v) (
        omega (
          arith,
          ap (λ (m : Msg). m.buf.max) at,
          a.sized,
          ap (λ (m : Msg). m.buf.len) at,
          a.len,
        )) in
      (
        put_msg c' i (record (msg_at c' i) { buf = (append b).0 }),
        fill-fits i label append c' r.0,
        Assembled-put (append b).0 a r.1,
      )

  -- The same of an encoder with a result of its own.
  pub fill_by-Assembled :
      {c' : Pccc} {xs ys : List ℕ} (encode : Buf → Buf × Option Ret)
      → Assembled c i desc fn udata reply xs c'
      → ((b : Buf) → IsValid b → (r : Buf × Ret) × (encode b ≡ (r.0, some r.1)) × Encodes b ys r)
      → length xs + length ys ≤ buf_size
      → (d : Pccc) × (fill_by i encode c' ≡ (d, ok tt))
        × Assembled c i desc fn udata reply (xs ++ ys) d
  fill_by-Assembled {c'} {xs} {ys} encode a writes room =
      let at = Assembled-at a in
      let b : Buf = (msg_at c' i).buf in
      let v : IsValid b = rw at a.valid in
      let w = writes b v in
      let r = Encodes-room w.0 w.2 (
        omega (
          arith,
          ap (λ (m : Msg). m.buf.max) at,
          a.sized,
          ap (λ (m : Msg). m.buf.len) at,
          a.len,
        )) in
      (
        put_msg c' i (record (msg_at c' i) { buf = w.0.0 }),
        fill_by-fits i encode c' w.0 w.1 r.0,
        Assembled-put w.0.0 a r.1,
      )
