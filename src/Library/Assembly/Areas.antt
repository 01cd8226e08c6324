-- ===== src/Library/Assembly/Areas.antt =====
-- lib/cmd_init_0f.c: the five commands on typed data.
use libpccc.Common.{
  ℕ, ◌+◌, ◌^◌, ◌≤◌, ◌<◌, ◌≡◌, refl, sym, subst, ap, ◌∙◌, Bool, true, false, not, inl, inr,
  Bool-cases, Option, Option-cases, none, some, List, [], ◌++◌, length, length-append, take, arith,
  ◌&&◌, ◌==◌, if◌then◌else◌, append_assoc, append-nil,
}
use Prim.Native.String.{String}
use libpccc.ByteOrder.{little_endian, htols}
use libpccc.Buf.{Buf, buf_append_word}
use libpccc.Ret.{Ret}
use libpccc.Addr.Element.{link16, link_word-Appends}
use libpccc.Codec.Arrays.{Value, data_enc_array}
use libpccc.Codec.ArrayLaws.{supported}
use libpccc.Codec.Stored.{data_enc_array-Encodes}
use libpccc.Df1.State.{Platform}
use libpccc.Library.State.{Pccc, Datum, buf_size}
use libpccc.Library.Reply.{peek, as_values}
use libpccc.Library.Action.{ok, Action, ◌>>=◌, ◌>>◌, fill, fill_by, refuse_if}
use libpccc.Library.Send.{Host, cmd_send}
use libpccc.Library.Typed.{
  is_mask_type, fill_array, pccc_cmd_protected_typed_logical_read_3_address_fields,
  pccc_cmd_protected_typed_logical_read_2_address_fields,
  pccc_cmd_protected_typed_logical_write_3_address_fields,
  pccc_cmd_protected_typed_logical_write_2_address_fields,
  pccc_cmd_protected_typed_logical_write_with_mask,
}
use libpccc.Library.Codes.{type_code}
use libpccc.Library.Request.{
  Area, area_values, AreaInRange, ValuesInRange, Request, ask_read_3, ask_read_2, ask_write_3,
  ask_write_2, ask_write_mask, run, wire, Wire,
}
use libpccc.Library.Assembly.{little, Desc, Assembled, >>=-ok}
use libpccc.Library.Assembly.Fill.{fill-Assembled, fill_by-Assembled}
use libpccc.Library.Assembly.Handles.{Ready, Refuses, Handles, refuse-Handles}
use libpccc.Library.Assembly.Fields.{ptl_type-type_code, reader}
use libpccc.Library.Assembly.Typed.{
  init, Follows, no_udata, has_sub, InitFails-Refuses, area-Handles,
}

module _ (p : Platform) (host : Host) (fn : Option ℕ) (dnode : ℕ) {c : Pccc} {i : ℕ}
    (r : Ready c i) where
  abbrev Good : Request → Type 0
  Good q = Handles p host fn dnode r (wire c.mem q) (run (little p) host fn dnode q)

  module _ (func : ℕ) (a : Area) where
    read-Follows : Follows p host fn dnode r func a (cmd_send (little p) host) []
    read-Follows q d xs desc u s h room = (
      d,
      refl,
      subst (λ l. Assembled c i desc fn a.udata (reader func) l d) (sym (append-nil xs)) h,
    )

    -- The user's elements behind the bytes that are there.
    fill_array-Assembled :
        {d : Pccc} {xs : List ℕ} {desc : Desc} (q : ℕ)
        → a.udata ≡ some q
        → supported a.type ≡ true
        → ValuesInRange c.mem a (some q)
        → Assembled c i desc fn a.udata (reader func) xs d
        → length xs + length (area_values c.mem a (some q)) ≤ buf_size
        → (e : Pccc) × (fill_array (little p) host fn dnode a.udata i a.type a.count d ≡ (e, ok tt))
          × Assembled c i desc fn a.udata (reader func) (xs ++ area_values c.mem a (some q)) e
    unfolding fill_array
    fill_array-Assembled {d} {xs} q u s v h room =
        let vs : List (Value a.type) = take a.count (as_values a.type (c.mem q)) in
        let enc : Buf → Buf × Option Ret = data_enc_array little_endian a.type vs in
        let same : take a.count (as_values a.type (peek d a.udata)) ≡ vs =
          ap (λ o. take a.count (as_values a.type (peek d o))) u
          ∙ ap (λ (m : ℕ → Datum). take a.count (as_values a.type (m q))) h.same_mem in
        let f = fill_by-Assembled enc h (λ b w. data_enc_array-Encodes a.type vs s v w) room in
        (f.0, ap (λ xs. fill_by i (data_enc_array little_endian a.type xs) d) same ∙ f.1, f.2)

    write-Follows :
        ValuesInRange c.mem a a.udata
        → Follows p host fn dnode r func a
            (λ cmd.
              fill_array (little p) host fn dnode a.udata cmd a.type a.count
              >> cmd_send (little p) host cmd)
            (area_values c.mem a a.udata)
    write-Follows v q d xs desc u s h room =
        let f =
          fill_array-Assembled q u s (subst (ValuesInRange c.mem a) u v) h
            (subst (λ o. length xs + length (area_values c.mem a o) ≤ buf_size) u room) in
        (
          f.0,
          >>=-ok (fill_array (little p) host fn dnode a.udata i a.type a.count) _ {c = d} f.1,
          subst (λ o. Assembled c i desc fn a.udata (reader func) (xs ++ area_values c.mem a o) f.0)
              (sym u) f.2,
        )

    -- The mask goes before the elements.
    mask-Follows :
        (mask : ℕ)
        → mask < 2 ^ 16
        → ValuesInRange c.mem a a.udata
        → Follows p host fn dnode r func a
            (λ cmd.
              fill cmd "pccc_cmd_ProtectedTypedLogicalWriteWithMask()"
                (λ b. buf_append_word little_endian b (htols little_endian mask))
              >> (fill_array (little p) host fn dnode a.udata cmd a.type a.count
                  >> cmd_send (little p) host cmd))
            (link16 mask ++ area_values c.mem a a.udata)
    mask-Follows mask hm v q d xs desc u s h room =
        let label : String = "pccc_cmd_ProtectedTypedLogicalWriteWithMask()" in
        let append : Buf → Buf × Bool =
          λ b. buf_append_word little_endian b (htols little_endian mask) in
        let values : List ℕ = area_values c.mem a a.udata in
        let f =
          fill-Assembled label append h (λ b w. link_word-Appends mask w hm)
            (omega (arith, length-append (link16 mask) values)) in
        let g =
          write-Follows v q f.0 (xs ++ link16 mask) desc u s f.2
            (omega (arith, length-append xs (link16 mask), length-append (link16 mask) values)) in
        (
          g.0,
          >>=-ok (fill i label append) _ {c = d} f.1 ∙ g.1,
          subst (λ l. Assembled c i desc fn a.udata (reader func) l g.0)
              (append_assoc xs (link16 mask) values) g.2,
        )

  pub read_2-Good : (a : Area) → AreaInRange a → Good (ask_read_2 a)
  unfolding pccc_cmd_protected_typed_logical_read_2_address_fields
  read_2-Good a (hf, he, hc) =
      area-Handles p host fn dnode r 0xa1 a (cmd_send (little p) host) [] (read-Follows 0xa1 a) hf
        he hc a.udata (type_code a.type) refl (ptl_type-type_code a.type)

  pub write_2-Good :
      (a : Area) → AreaInRange a → ValuesInRange c.mem a a.udata → Good (ask_write_2 a)
  unfolding pccc_cmd_protected_typed_logical_write_2_address_fields
  write_2-Good a (hf, he, hc) v =
      area-Handles p host fn dnode r 0xa9 a _ (area_values c.mem a a.udata) (write-Follows 0xa9 a v)
        hf he hc a.udata (type_code a.type) refl (ptl_type-type_code a.type)

  -- A sub-element other than 0 is refused, after a NULL pointer is.
  sub_not_zero :
      (func : ℕ) (a : Area) (sub : ℕ) (k : ℕ → Action (Unit {0}))
      → (sub == 0) ≡ false
      → Refuses c i (init p host fn dnode r func a sub >>= k)
  sub_not_zero func a sub k s =
      InitFails-Refuses p host fn dnode r func a sub k (elim (Option-cases a.udata) [
        | inl e ↦ no_udata p host fn dnode r func a sub e
        | inr (q, e) ↦ has_sub p host fn dnode r func a q sub e s
      ])

  -- With a sub-element of 0 it is as `area-Handles` says.
  sub-Handles :
      (func : ℕ) (a : Area) (sub : ℕ) (k : ℕ → Action (Unit {0})) (w : Option Wire)
      → Handles p host fn dnode r w (init p host fn dnode r func a 0 >>= k)
      → Handles p host fn dnode r
          (if sub == 0 then w else none)
          (init p host fn dnode r func a sub >>= k)
  sub-Handles func a sub k w h = elim (Bool-cases (sub == 0)) [
    | inl zero_sub ↦
        let e : 0 ≡ sub = ground arith in
        rw zero_sub
          (subst (λ s. Handles p host fn dnode r w (init p host fn dnode r func a s >>= k)) e h)
    | inr not_zero ↦ rw not_zero (sub_not_zero func a sub k not_zero)
  ]

  pub read_3-Good : (a : Area) (sub : ℕ) → AreaInRange a → Good (ask_read_3 a sub)
  unfolding pccc_cmd_protected_typed_logical_read_3_address_fields
  read_3-Good a sub (hf, he, hc) = sub-Handles 0xa2 a sub _ _ (
      area-Handles p host fn dnode r 0xa2 a (cmd_send (little p) host) [] (read-Follows 0xa2 a) hf
        he hc a.udata (type_code a.type) refl (ptl_type-type_code a.type))

  pub write_3-Good :
      (a : Area) (sub : ℕ)
      → AreaInRange a
      → ValuesInRange c.mem a a.udata
      → Good (ask_write_3 a sub)
  unfolding pccc_cmd_protected_typed_logical_write_3_address_fields
  write_3-Good a sub (hf, he, hc) v = sub-Handles 0xaa a sub _ _ (
      area-Handles p host fn dnode r 0xaa a _ (area_values c.mem a a.udata) (write-Follows 0xaa a v)
        hf he hc a.udata (type_code a.type) refl (ptl_type-type_code a.type))

  -- The type is looked at before the sub-element is.
  masked-Handles :
      (b : Bool) (sub : ℕ) (text : String) (w : Option Wire) (act : Action (Unit {0}))
      → Handles p host fn dnode r (if sub == 0 then w else none) act
      → Handles p host fn dnode r
          (if sub == 0 && b then w else none)
          (refuse_if (not b) text >> act)
  masked-Handles true sub text w act h = elim (Bool-cases (sub == 0)) [
    | inl z ↦ rw z (subst (λ v. Handles p host fn dnode r (if v then w else none) act) z h)
    | inr n ↦ rw n (subst (λ v. Handles p host fn dnode r (if v then w else none) act) n h)
  ]
  masked-Handles false sub text w act h = elim (Bool-cases (sub == 0)) [
    | inl z ↦ rw z (refuse-Handles p host fn dnode r text)
    | inr n ↦ rw n (refuse-Handles p host fn dnode r text)
  ]

  pub write_mask-Good :
      (a : Area) (mask sub : ℕ)
      → AreaInRange a
      → mask < 2 ^ 16
      → ValuesInRange c.mem a a.udata
      → Good (ask_write_mask a mask sub)
  unfolding pccc_cmd_protected_typed_logical_write_with_mask
  write_mask-Good a mask sub (hf, he, hc) hm v =
      masked-Handles (is_mask_type a.type) sub "File type not supported" _ _ (
        sub-Handles 0xab a sub _ _ (
          area-Handles p host fn dnode r 0xab a _ (link16 mask ++ area_values c.mem a a.udata)
            (mask-Follows 0xab a mask hm v) hf he hc a.udata (type_code a.type) refl
            (ptl_type-type_code a.type)))
