-- ===== src/Library/Assembly/Init.antt =====
-- lib/cmd_init.c: `cmd_init` starts a command in the first free message.
use libpccc.Common.{
  ℕ, ◌+◌, ◌^◌, ◌≤◌, ◌<◌, ◌≡◌, refl, ap, ◌∙◌, Bool, true, false, not, inl, inr, Bool-cases, Option,
  some, List, ◌++◌, get_or, length, get_or-set_self, take, arith, if◌then◌else◌, u16, append-nil,
}
use libpccc.Buf.{Buf, buf_append_byte}
use libpccc.Buf.Invariant.{IsValid}
use libpccc.Buf.Encode.{Appends, Appends-room, byte-Appends, or_else-Appends, and_also-Appends}
use libpccc.Addr.Element.{link_word-Appends}
use libpccc.Df1.State.{Platform}
use libpccc.Library.State.{Pccc, Msg, no_msg, msg_at, put_msg, Handler, buf_size}
use libpccc.Library.Message.{free_from, taken, msg_get_free}
use libpccc.Library.Action.{ok}
use libpccc.Library.Command.{has_fnc, cmd_header, with_fnc, started, filled, begun, cmd_init}
use libpccc.Library.Pool.{IsSound, IsSound-at, IsPool, set-set, free_from-unused}
use libpccc.Library.Assembly.{little, header, fnc, desc_of, Assembled}

cmd_header-Appends :
    (p : Platform) (dnode src_addr cmd tns : ℕ) {b : Buf}
    → IsValid b
    → tns < 2 ^ 16
    → Appends b (header dnode src_addr cmd tns) (cmd_header (little p) dnode src_addr cmd tns b)
unfolding cmd_header
cmd_header-Appends p dnode src_addr cmd tns {b} v h =
    or_else-Appends _ _
      (or_else-Appends _ _
        (or_else-Appends _ _
          (or_else-Appends _ (buf_append_byte b dnode) (byte-Appends v dnode)
            (λ b' v'. byte-Appends v' src_addr))
          (λ b' v'. byte-Appends v' cmd))
        (λ b' v'. byte-Appends v' 0))
      (λ b' v'. link_word-Appends tns v' h)

with_fnc-Appends :
    (cmd func : ℕ) {b : Buf} {xs : List ℕ} (r : Buf × Bool)
    → Appends b xs r
    → Appends b (xs ++ fnc cmd func) (with_fnc cmd func r)
with_fnc-Appends cmd func r a = elim (Bool-cases (has_fnc cmd)) [
  | inl has ↦
      rw has (and_also-Appends (λ b'. buf_append_byte b' func) r a (λ b' v'. byte-Appends v' func))
  | inr not_has ↦ rw (not_has, append-nil) a
]

msg_get_free-some :
    (c : Pccc) {i : ℕ} → free_from 0 c.msgs ≡ some i → msg_get_free c ≡ taken c (some i)
unfolding msg_get_free
msg_get_free-some c e = ap (taken c) e

cmd_init-up :
    (p : Platform) (fn : Option ℕ) (reply : Option Handler) (dnode : ℕ) (udata : Option ℕ)
    (cmd func : ℕ) (c : Pccc)
    → c.connected ≡ true
    → cmd_init p fn reply dnode udata cmd func c
      ≡ begun p fn reply dnode udata cmd func (msg_get_free c)
unfolding cmd_init
cmd_init-up p fn reply dnode udata cmd func c up = if_up (not c.connected) _ (ap not up)
  where
    if_up : {A : Type 0} (b : Bool) (x : A) {y : A} → b ≡ false → (if b then x else y) ≡ y
    if_up true x e = cc
    if_up false x e = refl

filled-fits :
    (i : ℕ) (m : Msg) (c : Pccc) (r : Buf × Bool)
    → r.1 ≡ false
    → filled i m c r ≡ (put_msg c i (record m { buf = r.0 }), ok i)
filled-fits i m c (b, true) e = cc
filled-fits i m c (b, false) e = refl

unused-empty : {m : Msg} → IsSound m → m.state ≡ 0 → m.buf.len ≡ 0
unused-empty {m} s e = ground (arith, s.phase)

pub length-header :
    (dnode src_addr cmd tns func : ℕ) → length (header dnode src_addr cmd tns ++ fnc cmd func) ≤ 7
length-header dnode src_addr cmd tns func = elim (Bool-cases (has_fnc cmd)) [
  | inl has ↦ rw has (omega arith)
  | inr not_has ↦ rw not_has (omega arith)
]

module _ (p : Platform) (fn : Option ℕ) (reply : Option Handler) (dnode : ℕ) (udata : Option ℕ)
    (cmd func : ℕ) (c : Pccc) (h : IsPool c) (up : c.connected ≡ true)
    (small : c.tns < 2 ^ 16) where
  -- A command is started in the first free message, with its header.
  pub cmd_init-Assembled :
      (i : ℕ)
      → free_from 0 c.msgs ≡ some i
      → (d : Pccc) × (cmd_init (little p) fn reply dnode udata cmd func c ≡ (d, ok i))
        × Assembled c i
            (desc_of (msg_at c i))
            fn
            udata
            reply
            (header dnode c.src_addr cmd c.tns ++ fnc cmd func)
            d
  cmd_init-Assembled i free =
      let f = free_from-unused 0 c.msgs free in
      let s : IsSound (msg_at c i) = IsSound-at c.msgs i h.sound in
      let inside : i < length c.msgs = omega (arith, f.1, f.2) in
      let unused : (msg_at c i).state ≡ 0 =
        (let j : i ≡ f.0 = omega (arith, f.1) in
          ap (λ n. (get_or c.msgs n no_msg).state) j ∙ f.3) in
      let c1 : Pccc = (taken c (some i)).0 in
      let old : Msg = record (msg_at c i) { state = 1 } in
      let at : msg_at c1 i ≡ old = get_or-set_self c.msgs i old no_msg inside in
      let m : Msg = started fn reply udata c.tns (msg_at c1 i) in
      let empty : m.buf.len ≡ 0 = ap (λ (v : Msg). v.buf.len) at ∙ unused-empty s unused in
      let v : IsValid m.buf = rw at s.valid in
      let sized : m.buf.max ≡ buf_size = ap (λ (v : Msg). v.buf.max) at ∙ s.sized in
      let r =
        Appends-room (with_fnc cmd func (cmd_header (little p) dnode c.src_addr cmd c.tns m.buf))
          (with_fnc-Appends cmd func _ (cmd_header-Appends p dnode c.src_addr cmd c.tns v small))
          (omega (arith, sized, empty, length-header dnode c.src_addr cmd c.tns func)) in
      let b : Buf =
        (with_fnc cmd func (cmd_header (little p) dnode c.src_addr cmd c.tns m.buf)).0 in
      let d : Pccc = put_msg (record c1 { tns = u16 (c.tns + 1) }) i (record m { buf = b }) in
      (
        d,
        cmd_init-up (little p) fn reply dnode udata cmd func c up
            ∙ ap (begun (little p) fn reply dnode udata cmd func) (msg_get_free-some c free)
            ∙ filled-fits i m (record c1 { tns = u16 (c.tns + 1) }) _ r.0,
        record {
          inside = inside;
          was_free = unused;
          message = record m { buf = b };
          placed = set-set c.msgs i old (record m { buf = b });
          pending = ap (λ (v : Msg). v.state) at;
          is_cmd = refl;
          tns = refl;
          notifies = refl;
          points = refl;
          handler = refl;
          valid = r.1.valid;
          sized = r.1.same_max ∙ sized;
          text =
              r.1.text
              ∙ ap (λ n. take n m.buf.cells ++ (header dnode c.src_addr cmd c.tns ++ fnc cmd func))
                  empty;
          len = omega (arith, r.1.new_len, empty);
          next_tns = refl;
          same_out = refl;
          same_cur = refl;
          same_link = refl;
          same_mem = refl;
          same_calls = refl;
          described = ap desc_of at;
          at_start = r.1.same_index ∙ omega (arith, v.read, empty);
          same_addr = refl;
          same_timeout = refl;
          same_in = refl;
          same_msg_in = refl;
          same_mode = refl;
          same_in_len = refl;
        },
      )
