-- ===== src/Library/Assembly/Bits.antt =====
-- lib/cmd_init_0f.c: BitWrite assembles the message that it should.
use libpccc.Common.{
  ℕ, ◌+◌, ◌^◌, ◌<◌, ◌≡◌, refl, sym, subst, ap, ◌∙◌, false, not, Option, none, some, List, ◌++◌,
  length, length-append, get_or, set, arith, ◌==◌, if◌then◌else◌, bit_and,
}
use libpccc.ByteOrder.{little_endian, htols}
use libpccc.Buf.{Buf, buf_append_word, ◌or_else◌}
use libpccc.Buf.Invariant.{IsValid}
use libpccc.Buf.Encode.{Appends, or_else-Appends}
use libpccc.Ret.{Ret, eparam}
use libpccc.Ret.Encodes.{Encodes, Answers}
use libpccc.Addr.{PlcAddr, addr_enc_plc}
use libpccc.Addr.Element.{link16, link_word-Appends}
use libpccc.Addr.Plc.{plc_bytes, addr_enc_plc-Answers}
use libpccc.Df1.State.{Platform}
use libpccc.Library.State.{Pccc, Msg, no_msg, msg_at, put_msg, from_callee}
use libpccc.Library.Message.{free_from, msg_flush}
use libpccc.Library.Action.{Outcome, err, Action, ◌>>=◌, ◌>>◌, fill, coded, fill_by}
use libpccc.Library.Command.{cmd_init}
use libpccc.Library.Send.{Host, cmd_send}
use libpccc.Library.Pool.{msg_flush-IsSound, get_or-set_ne, set-set, free_from-set}
use libpccc.Library.Request.{Request, ask_bit_write, unsized, Wire, run, wire, bits_wire}
use libpccc.Library.Commands0f.{plc_addr, pccc_cmd_bit_write}
use libpccc.Library.Assembly.{
  little, header, fnc, Desc, Assembled, Assembled-at, Assembled-IsSound, >>=-ok, >>=-err,
}
use libpccc.Library.Assembly.Fill.{fill-Assembled, fill_by-Assembled}
use libpccc.Library.Assembly.Init.{cmd_init-Assembled}
use libpccc.Library.Assembly.Handles.{Ready, Refuses, Handles, refuse-Handles, refuse_if-Handles}

module _ (p : Platform) (host : Host) (fn : Option ℕ) (dnode : ℕ) {c : Pccc} {i : ℕ}
    (r : Ready c i) where
  abbrev Good : Request → Type 0
  Good q = Handles p host fn dnode r (wire c.mem q) (run (little p) host fn dnode q)

  -- The message that `addr_enc_plc` refused is free again.
  unencoded :
      {d : Pccc} {xs : List ℕ} {desc : Desc} (b : Buf)
      → Assembled c i desc fn none none xs d
      → let m = msg_flush (record (msg_at d i) { buf = b }) in
        let d' = record (put_msg d i m) { errstr = from_callee } in
        (free_from 0 d'.msgs ≡ some i) × ((j : ℕ) → (i == j) ≡ false → msg_at d' j ≡ msg_at c j)
  unfolding msg_flush
  unencoded {d} b a =
      let m : Msg = msg_flush (record (msg_at d i) { buf = b }) in
      let put : set d.msgs i m ≡ set c.msgs i m =
        ap (λ l. set l i m) a.placed ∙ set-set c.msgs i a.message m in
      (
        ap (free_from 0) put ∙ free_from-set 0 c.msgs i m r.free (omega arith) refl,
        λ j ne. ap (λ l. get_or l j no_msg) put ∙ get_or-set_ne c.msgs i j m ne,
      )

  -- The two masks.
  masks-Appends :
      (set reset : ℕ) (b : Buf)
      → IsValid b
      → set < 2 ^ 16
      → reset < 2 ^ 16
      → Appends b
          (link16 set ++ link16 reset)
          (buf_append_word little_endian b set or_else (λ b. buf_append_word little_endian b reset))
  unfolding htols
  masks-Appends set reset b v hs hr =
      or_else-Appends _ (buf_append_word little_endian b set) (link_word-Appends set v hs)
        (λ b' v'. link_word-Appends reset v' hr)

  module _ (addr : PlcAddr) (mask rst : ℕ) where
    abbrev bit_write : Action (Unit {0})
    bit_write = do
      cmd ← cmd_init (little p) fn none dnode none 0x0f 0x02
      fill_by cmd (plc_addr (little p) addr)
      fill cmd "pccc_cmd_BitWrite()" (λ b.
          buf_append_word little_endian b mask or_else (λ b. buf_append_word little_endian b rst))
      cmd_send (little p) host cmd

    bit_write-Refuses : plc_bytes addr ≡ none → Refuses c i bit_write
    unfolding fill_by msg_flush
    bit_write-Refuses e =
        let s = cmd_init-Assembled p fn none dnode none 0x0f 0x02 c r.pool r.up r.small i r.free in
        let d : Pccc = s.0 in
        let m : Msg = msg_at d i in
        let v : IsValid m.buf = rw (Assembled-at s.2) s.2.valid in
        let answer : addr_enc_plc little_endian m.buf addr ≡ (m.buf, eparam) =
          subst (λ o. Answers m.buf o (addr_enc_plc little_endian m.buf addr)) e
            (addr_enc_plc-Answers addr v) in
        let fails : fill_by i (plc_addr (little p) addr) d ≡ (
          record (put_msg d i (msg_flush (record m { buf = m.buf }))) { errstr = from_callee },
          err eparam,
        ) =
          ap (λ (a : Buf × Ret). coded i m d (a.0, some a.1)) answer in
        let all : bit_write c ≡ (
          record (put_msg d i (msg_flush (record m { buf = m.buf }))) { errstr = from_callee },
          err eparam,
        ) =
          >>=-ok (cmd_init (little p) fn none dnode none 0x0f 0x02) _ {c = c} s.1
          ∙ >>=-err (fill_by i (plc_addr (little p) addr)) _ {c = d} fails in
        let back = unencoded m.buf s.2 in
        record {
          error = ap (λ (x : Pccc × Outcome (Unit {0})). x.1) all;
          left = msg_flush m;
          placed =
              ap (λ (x : Pccc × Outcome (Unit {0})). x.0.msgs) all
              ∙ ap (λ l. set l i (msg_flush m)) s.2.placed
              ∙ set-set c.msgs i s.2.message (msg_flush m);
          unused = refl;
          sound = msg_flush-IsSound {m = m} (rw (Assembled-at s.2) (Assembled-IsSound s.2));
          same_cur = ap (λ (x : Pccc × Outcome (Unit {0})). x.0.cur_msg) all ∙ s.2.same_cur;
          still_free = ap (λ (x : Pccc × Outcome (Unit {0})). free_from 0 x.0.msgs) all ∙ back.0;
          others = λ j ne. ap (λ (x : Pccc × Outcome (Unit {0})). msg_at x.0 j) all ∙ back.1 j ne;
          same_out = ap (λ (x : Pccc × Outcome (Unit {0})). x.0.sock_out) all ∙ s.2.same_out;
          same_calls = ap (λ (x : Pccc × Outcome (Unit {0})). x.0.calls) all ∙ s.2.same_calls;
        }

    abbrev bits_of : List ℕ → Wire
    bits_of xs = record {
      cmd = 0x0f;
      func = 0x02;
      reply = none;
      udata = none;
      body = xs ++ (link16 mask ++ link16 rst);
      shape = unsized;
    }

    bit_write-Sends :
        (xs : List ℕ)
        → plc_bytes addr ≡ some xs
        → mask < 2 ^ 16
        → rst < 2 ^ 16
        → Handles p host fn dnode r (some (bits_of xs)) bit_write
    bit_write-Sends xs e hm hr short =
        let s = cmd_init-Assembled p fn none dnode none 0x0f 0x02 c r.pool r.up r.small i r.free in
        let writes : (b : Buf)
            → IsValid b
            → (q : Buf × Ret) × (plc_addr (little p) addr b ≡ (q.0, some q.1)) × Encodes b xs q =
          λ b v. (
            addr_enc_plc little_endian b addr,
            refl,
            subst (λ o. Answers b o (addr_enc_plc little_endian b addr)) e
                (addr_enc_plc-Answers addr v),
          ) in
        let two : length (xs ++ (link16 mask ++ link16 rst)) ≡ length xs + 4 =
          length-append xs (link16 mask ++ link16 rst) in
        let f = fill_by-Assembled (plc_addr (little p) addr) s.2 writes (omega (arith, two)) in
        let g =
          fill-Assembled "pccc_cmd_BitWrite()" _ f.2 (λ b v. masks-Appends mask rst b v hm hr)
            (omega (
              arith,
              two,
              length-append (header dnode c.src_addr 0x0f c.tns ++ fnc 0x0f 0x02) xs,
            )) in
        record {
          assembled = g.0;
          holds = g.2;
          sends =
              >>=-ok (cmd_init (little p) fn none dnode none 0x0f 0x02) _ {c = c} s.1
              ∙ >>=-ok (fill_by i (plc_addr (little p) addr)) _ {c = s.0} f.1
              ∙ >>=-ok (fill i "pccc_cmd_BitWrite()" _) _ {c = f.0} g.1;
        }

  bits-Handles :
      (addr : PlcAddr) (mask rst : ℕ) (code : Option (List ℕ))
      → mask < 2 ^ 16
      → rst < 2 ^ 16
      → plc_bytes addr ≡ code
      → Handles p host fn dnode r (bits_wire mask rst code) (bit_write addr mask rst)
  bits-Handles addr mask rst none hm hr e = bit_write-Refuses addr mask rst e
  bits-Handles addr mask rst (some xs) hm hr e = bit_write-Sends addr mask rst xs e hm hr

  pub bit_write-Good :
      (addr : Option PlcAddr) (mask rst : ℕ)
      → mask < 2 ^ 16
      → rst < 2 ^ 16
      → Good (ask_bit_write addr mask rst)
  unfolding pccc_cmd_bit_write
  bit_write-Good none mask rst hm hr =
      refuse-Handles p host fn dnode r "Address pointer cannot be NULL"
  bit_write-Good (some addr) mask rst hm hr =
      let w : Option Wire = bits_wire mask rst (plc_bytes addr) in
      let e : (if bit_and mask rst == 0 then w else none)
          ≡ (if not (bit_and mask rst == 0) then none else w) =
        ground arith in
      subst
        (λ o.
          Handles p host fn dnode r o
            (run (little p) host fn dnode (ask_bit_write (some addr) mask rst)))
        (sym e)
        (refuse_if-Handles p host fn dnode r (not (bit_and mask rst == 0))
          "Bits must be mutually exclusive in masks" _ _
          (bits-Handles addr mask rst (plc_bytes addr) hm hr refl))
