-- ===== src/Codec/Elements.antt =====
-- lib/pccc.h, the element types, and lib/data.c, their encoders and decoders.
use libpccc.Common.{
  ℕ, Bool, true, false, not, ◌||◌, Option, none, some, ◌==◌, if◌then◌else◌, bit_and, bit_or,
}
use libpccc.ByteOrder.{Endian, htols, ltohs, htoll, ltohl}
use libpccc.Buf.{Buf, buf_append_word, buf_append_long, buf_get_word, buf_get_long, ◌or_else◌}
use libpccc.Ret.{Ret, success, eoverflow, or_overflow}

-- PCCC_TBASE_T
pub data TimeBase : Type 0 where
  tb1 tb100 : TimeBase

pub record Timer : Type 0 where
  pub pre : ℕ
  pub acc : ℕ
  pub base : TimeBase
  pub en : Bool
  pub tt : Bool
  pub dn : Bool

pub record Counter : Type 0 where
  pub pre : ℕ
  pub acc : ℕ
  pub cu : Bool
  pub cd : Bool
  pub dn : Bool
  pub ov : Bool
  pub un : Bool
  pub ua : Bool

-- The field `in` of the source is `inh` here.
pub record Control : Type 0 where
  pub pos : ℕ
  pub len : ℕ
  pub en : Bool
  pub eu : Bool
  pub dn : Bool
  pub em : Bool
  pub er : Bool
  pub ul : Bool
  pub inh : Bool
  pub fd : Bool

-- `if (flag) bits |= mask`
abbrev pub put : Bool → ℕ → ℕ → ℕ
put flag mask bits = if flag then bit_or bits mask else bits

-- `x & mask ? 1 : 0`
abbrev pub test : ℕ → ℕ → Bool
test x mask = not (bit_and x mask == 0)

abbrev pub is_tb1 : TimeBase → Bool
is_tb1 tb1 = true
is_tb1 tb100 = false

unfoldable pub timer_bits : Timer → ℕ
timer_bits t = put (is_tb1 t.base) 0x0200 (put t.dn 0x2000 (put t.tt 0x4000 (put t.en 0x8000 0)))

unfoldable pub counter_bits : Counter → ℕ
counter_bits c =
    put c.ua 0x0400
      (put c.un 0x0800 (put c.ov 0x1000 (put c.dn 0x2000 (put c.cd 0x4000 (put c.cu 0x8000 0)))))

unfoldable pub control_bits : Control → ℕ
control_bits c = put c.fd 0x0100 (
    put c.inh 0x0200 (
      put c.ul 0x0400 (
        put c.er 0x0800 (put c.em 0x1000 (put c.dn 0x2000 (put c.eu 0x4000 (put c.en 0x8000 0)))))))

-- Three words, as the encoders of the structures append them.
abbrev pub enc_words : Endian → Buf → ℕ → ℕ → ℕ → Buf × Ret
enc_words e dest a b c = or_overflow (
    buf_append_word e dest (htols e a)
    or_else (λ d. buf_append_word e d (htols e b))
    or_else (λ d. buf_append_word e d (htols e c)))

unfoldable pub enc_int : Endian → Buf → ℕ → Buf × Ret
enc_int e dest src = or_overflow (buf_append_word e dest (htols e src))

unfoldable pub enc_timer : Endian → Buf → Timer → Buf × Ret
enc_timer e dest tmr = enc_words e dest (timer_bits tmr) tmr.pre tmr.acc

unfoldable pub enc_counter : Endian → Buf → Counter → Buf × Ret
enc_counter e dest cnt = enc_words e dest (counter_bits cnt) cnt.pre cnt.acc

unfoldable pub enc_control : Endian → Buf → Control → Buf × Ret
enc_control e dest ctl = enc_words e dest (control_bits ctl) ctl.len ctl.pos

unfoldable pub enc_float : Endian → Buf → ℕ → Buf × Ret
enc_float e dest src = or_overflow (buf_append_long e dest (htoll e src))

-- `buf_get_word(src, &x)`: at the end of the buffer `x` keeps its value.
abbrev pub or_keep : ℕ → Buf × Option ℕ → Buf × ℕ × Bool
or_keep x (src, none) = (src, x, true)
or_keep x (src, some y) = (src, y, false)

abbrev pub overflow_ret : Bool → Ret
overflow_ret true = eoverflow
overflow_ret false = success

-- A decoder returns the buffer, the element at `dest` and what it returns. `dest` before the call
-- is an argument where the decoder may leave it as it was.
abbrev pub decoded {ℓ} : {A : Type ℓ} → (ℕ → A) → A → Buf × Option ℕ → Buf × A × Ret
decoded f dest (src, none) = (src, dest, eoverflow)
decoded f dest (src, some x) = (src, f x, success)

unfoldable pub dec_int : Endian → Buf → ℕ → Buf × ℕ × Ret
dec_int e src dest = decoded (ltohs e) dest (buf_get_word e src)

unfoldable pub dec_float : Endian → Buf → ℕ → Buf × ℕ × Ret
dec_float e src dest = decoded (ltohl e) dest (buf_get_long e src)

-- The three words of a structure, each from the variable `x`, which starts uninitialised: its
-- value then is the argument `junk`. All three are read in any case.
unfoldable pub dec_words : Endian → Buf → ℕ → Buf × ℕ × ℕ × ℕ × Bool
dec_words e src junk =
    let (s1, x1, o1) = or_keep junk (buf_get_word e src) in
    let bits : ℕ = ltohs e x1 in
    let (s2, x2, o2) = or_keep bits (buf_get_word e s1) in
    let (s3, x3, o3) = or_keep x2 (buf_get_word e s2) in
    (s3, bits, ltohs e x2, ltohs e x3, o1 || o2 || o3)

unfoldable pub dec_timer : Endian → Buf → ℕ → Buf × Timer × Ret
dec_timer e src junk =
    let (s, x, pre, acc, overflow) = dec_words e src junk in
    (
      s,
      record {
        pre = pre;
        acc = acc;
        base = if test x 0x0200 then tb1 else tb100;
        en = test x 0x8000;
        tt = test x 0x4000;
        dn = test x 0x2000;
      },
      overflow_ret overflow,
    )

unfoldable pub dec_counter : Endian → Buf → ℕ → Buf × Counter × Ret
dec_counter e src junk =
    let (s, x, pre, acc, overflow) = dec_words e src junk in
    (
      s,
      record {
        pre = pre;
        acc = acc;
        cu = test x 0x8000;
        cd = test x 0x4000;
        dn = test x 0x2000;
        ov = test x 0x1000;
        un = test x 0x0800;
        ua = test x 0x0400;
      },
      overflow_ret overflow,
    )

unfoldable pub dec_control : Endian → Buf → ℕ → Buf × Control × Ret
dec_control e src junk =
    let (s, x, len, pos, overflow) = dec_words e src junk in
    (
      s,
      record {
        pos = pos;
        len = len;
        en = test x 0x8000;
        eu = test x 0x4000;
        dn = test x 0x2000;
        em = test x 0x1000;
        er = test x 0x0800;
        ul = test x 0x0400;
        inh = test x 0x0200;
        fd = test x 0x0100;
      },
      overflow_ret overflow,
    )
