-- ===== src/Library/Assembly/Typed.antt =====
-- lib/cmd_init_0f.c: each command on typed data assembles the message that it should.
use libpccc.Common.{
  ℕ, ◌+◌, ◌*◌, ◌/◌, ◌^◌, ◌≤◌, ◌<◌, ◌≡◌, refl, subst, ap, ◌∙◌, true, false, not, inl, inr,
  Bool-cases, Option, none, some, List, ◌++◌, length, length-append, arith, leb, ◌==◌, append_assoc,
}
use libpccc.Ret.{eparam}
use libpccc.Codec.ArrayLaws.{supported}
use libpccc.Df1.State.{Platform}
use libpccc.Library.State.{Pccc, Msg, Text, max_elements, plain, msg_at, put_msg, buf_size}
use libpccc.Library.Action.{ok, err, Action, ◌>>=◌, fill, refuse_if, is_null}
use libpccc.Library.Command.{cmd_init}
use libpccc.Library.Send.{Host, cmd_send}
use libpccc.Library.Typed.{ptl_type, ptl_fields, ptl_size, ptl_init}
use libpccc.Library.Request.{Area, area_bytes, area_wire, typed, Wire}
use libpccc.Library.Assembly.{
  little, header, fnc, Desc, desc_of, Assembled, Assembled-desc, Assembled-as, >>=-ok, >>=-err,
}
use libpccc.Library.Assembly.Fill.{fill-Assembled}
use libpccc.Library.Assembly.Fields.{
  sub_bytes, reader, ptl_fields-Appends, ptl_type-small, ptl_size-fits, ptl_size-many,
  ptl_type-supported,
}
use libpccc.Library.Assembly.Init.{cmd_init-Assembled, length-header}
use libpccc.Library.Assembly.Handles.{noted, Ready, Refuses, Handles, Refuses-early}

module _ (p : Platform) (host : Host) (fn : Option ℕ) (dnode : ℕ) {c : Pccc} {i : ℕ} (r : Ready c i)
    (func : ℕ) (a : Area) where
  abbrev pub init : ℕ → Action ℕ
  init sub = ptl_init (little p) host fn dnode a.udata func a.type a.file a.element sub a.count

  -- What the message holds after `ptl_init`.
  abbrev prefix : ℕ × ℕ → List ℕ
  prefix t =
      header dnode c.src_addr 0x0f c.tns ++ fnc 0x0f func ++ (area_bytes a t ++ sub_bytes func)

  -- What it says of the elements.
  abbrev area_desc : ℕ → Desc
  area_desc size = noted host (desc_of (msg_at c i)) (typed a.type a.count (size * a.count))

  length-prefix : (t : ℕ × ℕ) → length (prefix t) ≤ 7 + length (area_bytes a t ++ sub_bytes func)
  length-prefix t = omega (
    arith,
    length-header dnode c.src_addr 0x0f c.tns func,
    length-append (header dnode c.src_addr 0x0f c.tns ++ fnc 0x0f func)
        (area_bytes a t ++ sub_bytes func),
  )

  ptl_init-Assembled :
      (q size code : ℕ)
      → a.udata ≡ some q
      → ptl_type a.type ≡ some (size, code)
      → a.file < 2 ^ 16
      → a.element < 2 ^ 16
      → size * a.count ≤ 236
      → length (area_bytes a (size, code) ++ sub_bytes func) ≤ 249
      → (d : Pccc) × (init 0 c ≡ (d, ok i))
        × Assembled c i (area_desc size) fn a.udata (reader func) (prefix (size, code)) d
  unfolding ptl_init
  ptl_init-Assembled q size code u t hf he few short =
      let s =
        cmd_init-Assembled p fn (reader func) dnode a.udata 0x0f func c r.pool r.up r.small i
          r.free in
      let f =
        fill-Assembled "ptl_init()"
          (ptl_fields (little p) func (size * a.count) code a.file a.element 0) s.2
          (λ b v. ptl_fields-Appends p func size code a v hf he few)
          (omega (arith, length-header dnode c.src_addr 0x0f c.tns func)) in
      let m : Msg = record (msg_at f.0 i) {
        elements = a.count;
        usize = host.sizeof a.type;
        bytes = size * a.count;
        file_type = a.type;
      } in
      let described : Desc → Desc = λ d. noted host d (typed a.type a.count (size * a.count)) in
      let sized : ptl_size a.count (ptl_type a.type) c ≡ (c, ok (size * a.count, code)) =
        ap (λ o. ptl_size a.count o c) t ∙ ptl_size-fits size code a.count c few in
      (
        put_msg f.0 i m,
        >>=-ok (refuse_if (is_null a.udata) "Udata cannot be NULL") _ {c = c}
              (ap (λ o. refuse_if (is_null o) "Udata cannot be NULL" c) u)
            ∙ >>=-ok (ptl_size a.count (ptl_type a.type)) _ {c = c} sized
            ∙ >>=-ok (cmd_init (little p) fn (reader func) dnode a.udata 0x0f func) _ {c = c} s.1
            ∙ >>=-ok
                (fill i "ptl_init()"
                  (ptl_fields (little p) func (size * a.count) code a.file a.element 0))
                _ {c = s.0} f.1,
        subst
            (λ d.
              Assembled c i (described d) fn a.udata (reader func) (prefix (size, code))
                (put_msg f.0 i m))
            (Assembled-desc f.2) (Assembled-as m f.2 refl refl refl refl refl refl refl),
      )

  -- The arguments that `ptl_init` refuses.
  abbrev pub InitFails : ℕ → Type 0
  InitFails sub = (t : Text) × (init sub c ≡ (record c { errstr = t }, err eparam))

  pub no_udata : (sub : ℕ) → a.udata ≡ none → InitFails sub
  unfolding ptl_init
  no_udata sub e = (
    plain "Udata cannot be NULL",
    >>=-err (refuse_if (is_null a.udata) "Udata cannot be NULL") _ {c = c}
        (ap (λ o. refuse_if (is_null o) "Udata cannot be NULL" c) e),
  )

  pub has_sub : (q sub : ℕ) → a.udata ≡ some q → (sub == 0) ≡ false → InitFails sub
  unfolding ptl_init
  has_sub q sub e s = (
    plain "Nonzero subelement values not supported",
    >>=-ok (refuse_if (is_null a.udata) "Udata cannot be NULL") _ {c = c}
          (ap (λ o. refuse_if (is_null o) "Udata cannot be NULL" c) e)
        ∙ >>=-err (refuse_if (not (sub == 0)) "Nonzero subelement values not supported") _ {c = c}
            (ap (λ b. refuse_if (not b) "Nonzero subelement values not supported" c) s),
  )

  no_size :
      (q : ℕ) (t : Text)
      → a.udata ≡ some q
      → ptl_size a.count (ptl_type a.type) c ≡ (record c { errstr = t }, err eparam)
      → InitFails 0
  unfolding ptl_init
  no_size q t e s = (
    t,
    >>=-ok (refuse_if (is_null a.udata) "Udata cannot be NULL") _ {c = c}
          (ap (λ o. refuse_if (is_null o) "Udata cannot be NULL" c) e)
        ∙ >>=-err (ptl_size a.count (ptl_type a.type)) _ {c = c} s,
  )

  pub InitFails-Refuses :
      (sub : ℕ) (k : ℕ → Action (Unit {0})) → InitFails sub → Refuses c i (init sub >>= k)
  InitFails-Refuses sub k f = Refuses-early r (init sub >>= k) f.0 (>>=-err (init sub) k f.1)

  -- What has to follow `ptl_init`: more bytes behind those that are there, and the sending.
  abbrev pub Follows : (ℕ → Action (Unit {0})) → List ℕ → Type 0
  Follows k more =
      (q : ℕ) (d : Pccc) (xs : List ℕ) (desc : Desc)
      → a.udata ≡ some q
      → supported a.type ≡ true
      → Assembled c i desc fn a.udata (reader func) xs d
      → length xs + length more ≤ buf_size
      → (e : Pccc) × (k i d ≡ cmd_send (little p) host i e)
        × Assembled c i desc fn a.udata (reader func) (xs ++ more) e

  abbrev area_of : ℕ → ℕ × ℕ → List ℕ → Wire
  area_of q t more = record {
    cmd = 0x0f;
    func = func;
    reply = reader func;
    udata = some q;
    body = area_bytes a t ++ (sub_bytes func ++ more);
    shape = typed a.type a.count (t.0 * a.count);
  }

  area-Sends :
      (k : ℕ → Action (Unit {0})) (more : List ℕ) (q size code : ℕ)
      → Follows k more
      → a.udata ≡ some q
      → ptl_type a.type ≡ some (size, code)
      → a.file < 2 ^ 16
      → a.element < 2 ^ 16
      → size * a.count ≤ 236
      → Handles p host fn dnode r (some (area_of q (size, code) more)) (init 0 >>= k)
  area-Sends k more q size code follows u t hf he few short =
      let area : List ℕ = area_bytes a (size, code) in
      let subs : List ℕ = sub_bytes func in
      let all = length-append area (subs ++ more) in
      let tail = length-append subs more in
      let one = length-append area subs in
      let d = ptl_init-Assembled q size code u t hf he few (omega arith) in
      let e =
        follows q d.0 _ (area_desc size) u (ptl_type-supported a.type t) d.2
          (omega (arith, length-prefix (size, code))) in
      record {
        assembled = e.0;
        holds =
            subst
              (λ l.
                Assembled c i (area_desc size) fn (some q) (reader func)
                  (header dnode c.src_addr 0x0f c.tns ++ fnc 0x0f func ++ l) e.0)
              (append_assoc area subs more)
              (subst
                (λ o.
                  Assembled c i (area_desc size) fn o (reader func) (prefix (size, code) ++ more)
                    e.0)
                u e.2);
        sends = >>=-ok (init 0) k {c = c} d.1 ∙ e.1;
      }

  -- The command is sent, or refused, as its arguments demand.
  pub area-Handles :
      (k : ℕ → Action (Unit {0})) (more : List ℕ)
      → Follows k more
      → a.file < 2 ^ 16
      → a.element < 2 ^ 16
      → a.count < 2 ^ 32
      → (u : Option ℕ) (t : Option (ℕ × ℕ)) → a.udata ≡ u
      → ptl_type a.type ≡ t
      → Handles p host fn dnode r
          (area_wire a func (reader func) (sub_bytes func ++ more) u t)
          (init 0 >>= k)
  area-Handles k more follows hf he hc none t eu et = InitFails-Refuses 0 k (no_udata 0 eu)
  area-Handles k more follows hf he hc (some q) none eu et =
      InitFails-Refuses 0 k
        (no_size q (plain "File type not supported") eu (ap (λ o. ptl_size a.count o c) et))
  area-Handles k more follows hf he hc (some q) (some (size, code)) eu et =
      elim (Bool-cases (leb (size * a.count) 236)) [
        | inl few ↦ rw few (area-Sends k more q size code follows eu et hf he (ground arith))
        | inr many ↦ rw many (
            InitFails-Refuses 0 k (
              no_size q (max_elements (236 / size)) eu (
                ap (λ o. ptl_size a.count o c) et
                ∙ ptl_size-many size code a.count c (ptl_type-small a.type et) hc (ground arith))))
      ]
