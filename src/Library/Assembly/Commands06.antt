-- ===== src/Library/Assembly/Commands06.antt =====
-- lib/cmd_init_06.c: each command assembles the message that it should.
use libpccc.Common.{
  ℕ, ◌≡◌, refl, sym, subst, ◌∙◌, Bool, Option, none, some, take, arith, ◌++◌, ltb, leb, ◌&&◌, ◌==◌,
  if◌then◌else◌,
}
use libpccc.Buf.{Buf, buf_append_blob}
use libpccc.Buf.Invariant.{IsValid}
use libpccc.Buf.Encode.{Appends, byte-Appends, blob-Appends, or_else-Appends}
use libpccc.Df1.State.{Platform}
use libpccc.Library.State.{Datum, Pccc, Msg, msg_at, put_msg, to_echo}
use libpccc.Library.Reply.{peek, as_raw}
use libpccc.Library.Action.{◌>>=◌, ◌>>◌, fill}
use libpccc.Library.Command.{cmd_init}
use libpccc.Library.Send.{Host, cmd_send}
use libpccc.Library.Request.{
  Request, ask_echo, ask_variables, ask_timeout, ask_naks, ask_enqs, ask_link_param,
  ask_set_link_param, sized, Wire, run, wire,
}
use libpccc.Library.Commands06.{
  set_bytes, pccc_cmd_echo, pccc_cmd_set_variables, pccc_cmd_set_timeout, pccc_cmd_set_naks,
  pccc_cmd_set_enqs, pccc_cmd_read_link_param, pccc_cmd_set_link_param,
}
use libpccc.Library.Assembly.{little, header, fnc, Assembled, Assembled-desc, Assembled-as, >>=-ok}
use libpccc.Library.Assembly.Fill.{fill-Assembled}
use libpccc.Library.Assembly.Init.{cmd_init-Assembled, length-header}
use libpccc.Library.Assembly.Handles.{
  Ready, Handles, refuse-Handles, simple-Handles, refuse_if-Handles, refuse_if-none, zero_word,
  bytes_3,
}

module _ (p : Platform) (host : Host) (fn : Option ℕ) (dnode : ℕ) {c : Pccc} {i : ℕ}
    (r : Ready c i) where
  abbrev Good : Request → Type 0
  Good q = Handles p host fn dnode r (wire c.mem q) (run (little p) host fn dnode q)

  pub variables-Good : (cycles naks enqs : ℕ) → Good (ask_variables cycles naks enqs)
  unfolding pccc_cmd_set_variables
  variables-Good cycles naks enqs =
      simple-Handles p host fn dnode r _ "pccc_cmd_SetVariables()" _ refl refl
        (λ b v. bytes_3 v cycles naks enqs)

  pub timeout-Good : (cycles : ℕ) → Good (ask_timeout cycles)
  unfolding pccc_cmd_set_timeout
  timeout-Good cycles =
      simple-Handles p host fn dnode r _ "pccc_cmd_SetTimeout()" _ refl refl
        (λ b v. byte-Appends v cycles)

  pub naks-Good : (naks : ℕ) → Good (ask_naks naks)
  unfolding pccc_cmd_set_naks
  naks-Good naks =
      simple-Handles p host fn dnode r _ "pccc_cmd_SetNAKs()" _ refl refl
        (λ b v. byte-Appends v naks)

  pub enqs-Good : (enqs : ℕ) → Good (ask_enqs enqs)
  unfolding pccc_cmd_set_enqs
  enqs-Good enqs =
      simple-Handles p host fn dnode r _ "pccc_cmd_ENQs()" _ refl refl (λ b v. byte-Appends v enqs)

  pub link_param-Good : (udata : Option ℕ) → Good (ask_link_param udata)
  unfolding pccc_cmd_read_link_param
  link_param-Good none = refuse-Handles p host fn dnode r "Udata cannot be NULL"
  link_param-Good (some q) =
      simple-Handles p host fn dnode r _ "pccc_cmd_ReadLinkParam()" _ refl refl
        (λ b v. or_else-Appends _ _ (zero_word v) (λ b' v'. byte-Appends v' 1))

  pub set_link_param-Good : (max : ℕ) → Good (ask_set_link_param max)
  unfolding pccc_cmd_set_link_param
  set_link_param-Good max =
      simple-Handles p host fn dnode r _ "pccc_cmd_SetLinkParam()" _ refl refl (λ b v.
        or_else-Appends _ _ (or_else-Appends _ _ (zero_word v) (λ b' v'. byte-Appends v' 1))
          (λ b' v'. byte-Appends v' max))

  abbrev echo_of : ℕ → ℕ → Wire
  echo_of q n = record {
    cmd = 0x06;
    func = 0;
    reply = some to_echo;
    udata = some q;
    body = take n (as_raw (c.mem q));
    shape = sized n;
  }

  -- The data to echo is read where the user keeps it.
  echo-Handles :
      (q n : ℕ)
      → Handles p host fn dnode r (some (echo_of q n)) (do
        cmd ← cmd_init (little p) fn (some to_echo) dnode (some q) 0x06 0x00
        λ c.
            fill cmd "pccc_cmd_Echo()"
              (λ b. buf_append_blob b (take n (as_raw (peek c (some q)))))
              c
        set_bytes cmd n
        cmd_send (little p) host cmd)
  echo-Handles q n short =
      let s =
        cmd_init-Assembled p fn (some to_echo) dnode (some q) 0x06 0x00 c r.pool r.up r.small i
          r.free in
      let append : Buf → Buf × Bool = λ b. buf_append_blob b (take n (as_raw (s.0.mem q))) in
      let writes : (b : Buf) → IsValid b → Appends b (echo_of q n).body (append b) = λ b v.
        subst
          (λ (m : ℕ → Datum).
            Appends b (take n (as_raw (c.mem q))) (buf_append_blob b (take n (as_raw (m q)))))
          (sym s.2.same_mem) (blob-Appends v (take n (as_raw (c.mem q))) (omega arith)) in
      let f =
        fill-Assembled "pccc_cmd_Echo()" append s.2 writes
          (omega (arith, length-header dnode c.src_addr 0x06 c.tns 0x00)) in
      let m : Msg = record (msg_at f.0 i) { bytes = n } in
      record {
        assembled = put_msg f.0 i m;
        holds =
            subst
              (λ d.
                Assembled c i (record d { bytes = n }) fn (some q) (some to_echo)
                  (header dnode c.src_addr 0x06 c.tns ++ fnc 0x06 0x00 ++ (echo_of q n).body)
                  (put_msg f.0 i m))
              (Assembled-desc f.2) (Assembled-as m f.2 refl refl refl refl refl refl refl);
        sends =
            >>=-ok (cmd_init (little p) fn (some to_echo) dnode (some q) 0x06 0x00) _ s.1
            ∙ >>=-ok (fill i "pccc_cmd_Echo()" append) _ f.1;
      }

  pub echo-Good : (udata : Option ℕ) (n : ℕ) → Good (ask_echo udata n)
  unfolding pccc_cmd_echo
  echo-Good none n = refuse_if-none p host fn dnode r (ltb 243 n) _ _ (
      refuse_if-none p host fn dnode r (n == 0) _ _
        (refuse-Handles p host fn dnode r "Udata cannot be NULL"))
  echo-Good (some q) n =
      let w : Option Wire = some (echo_of q n) in
      let e : (if ltb 0 n && leb n 243 then w else none)
          ≡ (if ltb 243 n then none else if n == 0 then none else w) =
        ground arith in
      subst (λ o. Handles p host fn dnode r o (run (little p) host fn dnode (ask_echo (some q) n)))
        (sym e)
        (refuse_if-Handles p host fn dnode r (ltb 243 n) "Number of bytes too large" _ _ (
          refuse_if-Handles p host fn dnode r (n == 0) "Number of bytes must not be zero" _ _
            (echo-Handles q n)))
