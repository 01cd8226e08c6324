-- ===== src/Library/Assembly/Fields.antt =====
-- lib/cmd_init_0f.c: the fields of an address and the sizes of the types, before a message takes them.
use libpccc.Common.{
  ℕ, ◌*◌, ◌/◌, ◌%◌, ◌^◌, ◌≤◌, ◌<◌, ◌≡◌, refl, true, false, inl, inr, Bool-cases, Option, none, some,
  List, [], ◌∷◌, ◌++◌, arith, ltb, if◌then◌else◌, append-nil, u8,
}
use native.Mathlib.Nat.{mul-le-mul_right}
use libpccc.ByteOrder.{little_endian}
use libpccc.Buf.{Buf, buf_append_byte, ◌and_also◌}
use libpccc.Buf.Invariant.{IsValid}
use libpccc.Buf.Encode.{Appends, byte-Appends, and_also-Appends}
use libpccc.Ret.{eparam}
use libpccc.Addr.{addr_encode}
use libpccc.Addr.Element.{addr_encode-Appends}
use libpccc.Codec.Arrays.{
  FileType, stat, bin, timer, count, ctl, int, float, outp, inp, str, asc, bcd,
}
use libpccc.Codec.ArrayLaws.{supported}
use libpccc.Df1.State.{Platform}
use libpccc.Library.State.{Pccc, max_elements, Handler, to_ptl_read}
use libpccc.Library.Action.{ok, err}
use libpccc.Library.Typed.{ptl_type, is_read, has_sub_element, ptl_fields, ptl_size}
use libpccc.Library.Codes.{type_code}
use libpccc.Library.Request.{Area, area_bytes}
use libpccc.Library.Assembly.{little}

-- The three fields of an address, and the sub-element where the function has it.
abbrev pub sub_bytes : ℕ → List ℕ
sub_bytes func = if has_sub_element func then 0 ∷ [] else []

pub ptl_fields-Appends :
    (p : Platform) (func size code : ℕ) (a : Area) {b : Buf}
    → IsValid b
    → a.file < 2 ^ 16
    → a.element < 2 ^ 16
    → size * a.count ≤ 236
    → Appends b
        (area_bytes a (size, code) ++ sub_bytes func)
        (ptl_fields (little p) func (size * a.count) code a.file a.element 0 b)
unfolding ptl_fields
ptl_fields-Appends p func size code a {b} v hf he few =
    let byte : u8 (size * a.count) ≡ size * a.count = omega arith in
    let three : Appends b (area_bytes a (size, code)) (
        buf_append_byte b (u8 (size * a.count))
        and_also (λ b. addr_encode little_endian b a.file)
        and_also (λ b. buf_append_byte b code)
        and_also (λ b. addr_encode little_endian b a.element)) =
      rw byte (
        and_also-Appends _ _
          (and_also-Appends _ _
            (and_also-Appends _ _ (byte-Appends v (size * a.count))
              (λ b' v'. addr_encode-Appends a.file v' hf))
            (λ b' v'. byte-Appends v' code))
          (λ b' v'. addr_encode-Appends a.element v' he)) in
    elim (Bool-cases (has_sub_element func)) [
      | inl has ↦
          rw has (and_also-Appends _ _ three (λ b' v'. addr_encode-Appends 0 v' (omega arith)))
      | inr not_has ↦ rw (not_has, append-nil) three
    ]

-- Every size of the table is small.
pub ptl_type-small : (t : FileType) {size code : ℕ} → ptl_type t ≡ some (size, code) → size ≤ 84
ptl_type-small stat e = grind arith
ptl_type-small bin e = grind arith
ptl_type-small timer e = grind arith
ptl_type-small count e = grind arith
ptl_type-small ctl e = grind arith
ptl_type-small int e = grind arith
ptl_type-small float e = grind arith
ptl_type-small str e = grind arith
ptl_type-small outp e = cc
ptl_type-small inp e = cc
ptl_type-small asc e = cc
ptl_type-small bcd e = cc

pub ptl_size-fits :
    (size code n : ℕ) (c : Pccc)
    → size * n ≤ 236
    → ptl_size n (some (size, code)) c ≡ (c, ok (size * n, code))
ptl_size-fits size code n c few =
    let e : size * n % 2 ^ 64 ≡ size * n = omega arith in
    let fits : ltb 236 (size * n) ≡ false = ground arith in rw (e, fits)

pub ptl_size-many :
    (size code n : ℕ) (c : Pccc)
    → size ≤ 84
    → n < 2 ^ 32
    → 236 < size * n
    → ptl_size n (some (size, code)) c
      ≡ (record c { errstr = max_elements (236 / size) }, err eparam)
ptl_size-many size code n c small few many =
    let bound : size * n ≤ 84 * n = mul-le-mul_right n small in
    let e : size * n % 2 ^ 64 ≡ size * n = omega arith in
    let over : ltb 236 (size * n) ≡ true = ground arith in rw (e, over)

pub ptl_type-supported :
    (t : FileType) {size code : ℕ} → ptl_type t ≡ some (size, code) → supported t ≡ true
ptl_type-supported outp e = cc
ptl_type-supported inp e = cc
ptl_type-supported asc e = cc
ptl_type-supported bcd e = cc
ptl_type-supported stat e = refl
ptl_type-supported bin e = refl
ptl_type-supported timer e = refl
ptl_type-supported count e = refl
ptl_type-supported ctl e = refl
ptl_type-supported int e = refl
ptl_type-supported float e = refl
ptl_type-supported str e = refl

abbrev pub reader : ℕ → Option Handler
reader func = if is_read func then some to_ptl_read else none

pub ptl_type-type_code : (t : FileType) → ptl_type t ≡ type_code t
ptl_type-type_code stat = refl
ptl_type-type_code bin = refl
ptl_type-type_code timer = refl
ptl_type-type_code count = refl
ptl_type-type_code ctl = refl
ptl_type-type_code int = refl
ptl_type-type_code float = refl
ptl_type-type_code str = refl
ptl_type-type_code outp = refl
ptl_type-type_code inp = refl
ptl_type-type_code asc = refl
ptl_type-type_code bcd = refl
