-- ===== src/Library/Assembly/Handles.antt =====
-- lib/cmd_init.c: what a command should do with a connection that can take one, and the steps that
-- commands are made of.
use libpccc.Common.{
  subst, ℕ, ◌^◌, ◌≤◌, ◌<◌, ◌≡◌, refl, sym, ap, ◌∙◌, Bool, true, false, Option, none, some, List, [],
  ◌∷◌, ◌++◌, length, set, arith, ◌==◌, if◌then◌else◌,
}
use Prim.Native.String.{String}
use libpccc.ByteOrder.{little_endian}
use libpccc.Buf.{Buf, buf_append_byte, buf_append_word, ◌or_else◌}
use libpccc.Buf.Invariant.{IsValid}
use libpccc.Buf.Encode.{Appends, byte-Appends, word-Appends, or_else-Appends}
use libpccc.Ret.{eparam}
use libpccc.Df1.State.{Platform}
use libpccc.Library.State.{Pccc, Msg, Text, plain, msg_at}
use libpccc.Library.Message.{free_from}
use libpccc.Library.Action.{Outcome, err, Action, ◌>>=◌, ◌>>◌, fill, refuse, refuse_if}
use libpccc.Library.Command.{cmd_init}
use libpccc.Library.Send.{Host, cmd_send}
use libpccc.Library.Pool.{IsPool, IsSound, IsSound-at, free_from-unused, set-get_or}
use libpccc.Library.Request.{Wire, Shape, unsized, sized, typed}
use libpccc.Library.Assembly.{little, header, fnc, Desc, desc_of, Assembled, >>=-ok}
use libpccc.Library.Assembly.Fill.{fill-Assembled}
use libpccc.Library.Assembly.Init.{cmd_init-Assembled, length-header}

-- The message of a request, from its first byte on.
abbrev pub message_bytes : ℕ → ℕ → ℕ → Wire → List ℕ
message_bytes dnode src_addr tns w = header dnode src_addr w.cmd tns ++ (w.func ∷ w.body)

-- What the message says of its data, where it said `old` before.
abbrev pub noted : Host → Desc → Shape → Desc
noted host old unsized = old
noted host old (sized n) = record old { bytes = n }
noted host old (typed t count n) = record old {
  bytes = n;
  elements = count;
  usize = host.sizeof t;
  file_type = t;
}

-- A connection that can take another command: the message `i` is the first free one.
pub record Ready (c : Pccc) (i : ℕ) : Type 0 where
  pub pool : IsPool c
  pub up : c.connected ≡ true
  pub small : c.tns < 2 ^ 16
  pub free : free_from 0 c.msgs ≡ some i

-- The call puts the message into the free slot and then sends it, as `cmd_send` does.
pub record Sends (p : Platform) (host : Host) (fn : Option ℕ) (dnode : ℕ) (c : Pccc) (i : ℕ)
    (w : Wire) (act : Action (Unit {0})) : Type 0 where
  pub assembled : Pccc
  pub holds :
      Assembled c i
        (noted host (desc_of (msg_at c i)) w.shape)
        fn
        w.udata
        w.reply
        (message_bytes dnode c.src_addr c.tns w)
        assembled
  pub sends : act c ≡ cmd_send (little p) host i assembled

-- The call fails with PCCC_EPARAM, takes no message, and changes no other.
pub record Refuses (c : Pccc) (i : ℕ) (act : Action (Unit {0})) : Type 0 where
  pub error : (act c).1 ≡ err eparam
  pub left : Msg
  pub placed : (act c).0.msgs ≡ set c.msgs i left
  pub unused : left.state ≡ 0
  pub sound : IsSound left
  pub same_cur : (act c).0.cur_msg ≡ c.cur_msg
  pub still_free : free_from 0 (act c).0.msgs ≡ some i
  pub others : (j : ℕ) → (i == j) ≡ false → msg_at (act c).0 j ≡ msg_at c j
  pub same_out : (act c).0.sock_out ≡ c.sock_out
  pub same_calls : (act c).0.calls ≡ c.calls

-- The free message of a connection that a call leaves alone.
pub Ready-unused : {c : Pccc} {i : ℕ} → Ready c i → (msg_at c i).state ≡ 0
Ready-unused {c} r =
    let f = free_from-unused 0 c.msgs r.free in
    ap (λ k. (msg_at c k).state) (omega (arith, f.1)) ∙ f.3

-- A call that fails before it takes a message.
pub Refuses-early :
    {c : Pccc} {i : ℕ} (r : Ready c i) (act : Action (Unit {0})) (t : Text)
    → act c ≡ (record c { errstr = t }, err eparam)
    → Refuses c i act
Refuses-early {c} {i} r act t all = record {
  error = ap (λ (x : Pccc × Outcome (Unit {0})). x.1) all;
  left = msg_at c i;
  placed = ap (λ (x : Pccc × Outcome (Unit {0})). x.0.msgs) all ∙ sym (set-get_or c.msgs i);
  unused = Ready-unused r;
  sound = IsSound-at c.msgs i r.pool.sound;
  same_cur = ap (λ (x : Pccc × Outcome (Unit {0})). x.0.cur_msg) all;
  still_free = ap (λ (x : Pccc × Outcome (Unit {0})). free_from 0 x.0.msgs) all ∙ r.free;
  others = λ j ne. ap (λ (x : Pccc × Outcome (Unit {0})). msg_at x.0 j) all;
  same_out = ap (λ (x : Pccc × Outcome (Unit {0})). x.0.sock_out) all;
  same_calls = ap (λ (x : Pccc × Outcome (Unit {0})). x.0.calls) all;
}

module _ {b : Buf} (v : IsValid b) where
  pub zero_word : Appends b (0 ∷ 0 ∷ []) (buf_append_word little_endian b 0)
  zero_word = word-Appends v little_endian 0

  pub bytes_2 :
      (x y : ℕ) → Appends b (x ∷ y ∷ []) (buf_append_byte b x or_else (λ b. buf_append_byte b y))
  bytes_2 x y =
      or_else-Appends _ (buf_append_byte b x) (byte-Appends v x) (λ b' v'. byte-Appends v' y)

  pub bytes_3 :
      (x y z : ℕ)
      → Appends b (x ∷ y ∷ z ∷ []) (
          buf_append_byte b x or_else (λ b. buf_append_byte b y) or_else (λ b. buf_append_byte b z))
  bytes_3 x y z = or_else-Appends _ _ (bytes_2 x y) (λ b' v'. byte-Appends v' z)

module _ (p : Platform) (host : Host) (fn : Option ℕ) (dnode : ℕ) {c : Pccc} {i : ℕ}
    (r : Ready c i) where
  -- What a call should do by what it should put on the wire.
  abbrev pub Handles : Option Wire → Action (Unit {0}) → Type 0
  Handles none act = Refuses c i act
  Handles (some w) act = length w.body ≤ 249 → Sends p host fn dnode c i w act

  pub refuse-Handles : (text : String) → Handles none (refuse text)
  refuse-Handles text = Refuses-early r (refuse text) (plain text) refl

  -- A command of one step: it is started, filled, and sent.
  pub simple-Handles :
      (w : Wire) (label : String) (append : Buf → Buf × Bool)
      → w.shape ≡ unsized
      → fnc w.cmd w.func ≡ w.func ∷ []
      → ((b : Buf) → IsValid b → Appends b w.body (append b))
      → Handles (some w) (do
        cmd ← cmd_init (little p) fn w.reply dnode w.udata w.cmd w.func
        fill cmd label append
        cmd_send (little p) host cmd)
  simple-Handles w label append plain_shape has writes short =
      let s =
        cmd_init-Assembled p fn w.reply dnode w.udata w.cmd w.func c r.pool r.up r.small i r.free in
      let f =
        fill-Assembled label append s.2 writes
          (omega (arith, length-header dnode c.src_addr w.cmd c.tns w.func)) in
      record {
        assembled = f.0;
        holds =
            subst
              (λ l.
                Assembled c i (noted host (desc_of (msg_at c i)) w.shape) fn w.udata w.reply
                  (header dnode c.src_addr w.cmd c.tns ++ l ++ w.body) f.0)
              has
              (subst
                (λ s.
                  Assembled c i (noted host (desc_of (msg_at c i)) s) fn w.udata w.reply
                    (header dnode c.src_addr w.cmd c.tns ++ fnc w.cmd w.func ++ w.body) f.0)
                (sym plain_shape) f.2);
        sends =
            >>=-ok (cmd_init (little p) fn w.reply dnode w.udata w.cmd w.func) _ s.1
            ∙ >>=-ok (fill i label append) _ f.1;
      }

  -- A first test that the arguments pass, or do not.
  pub refuse_if-Handles :
      (b : Bool) (text : String) (w : Option Wire) (act : Action (Unit {0}))
      → Handles w act
      → Handles (if b then none else w) (refuse_if b text >> act)
  refuse_if-Handles true text w act h = refuse-Handles text
  refuse_if-Handles false text none act h = h
  refuse_if-Handles false text (some w) act h = h

  pub refuse_if-none :
      (b : Bool) (text : String) (act : Action (Unit {0}))
      → Handles none act
      → Handles none (refuse_if b text >> act)
  refuse_if-none true text act h = refuse-Handles text
  refuse_if-none false text act h = h
