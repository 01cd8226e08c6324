-- ===== src/Codec/Records.antt =====
-- lib/data.c: what each encoder writes its decoder reads back, on a little-endian host.
use libpccc.Common.{
  ℕ, ◌^◌, ◌<◌, ◌≡◌, refl, Bool, true, false, List, ◌++◌, arith, if◌then◌else◌, not,
}
use libpccc.ByteOrder.{store32, little_endian, htols, htoll, ltohs, ltohl}
use libpccc.Buf.{Buf, unread, buf_append_word}
use libpccc.Buf.Invariant.{IsValid}
use libpccc.Buf.Read.{advance, buf_get_word-cons, buf_get_long-cons}
use libpccc.Buf.Encode.{long-Appends, or_else-Appends}
use libpccc.Ret.Encodes.{Encodes, or_overflow-Encodes}
use libpccc.Addr.Element.{link16, link_word-Appends}
use libpccc.Codec.Interface.{IsCodec}
use libpccc.Codec.Elements.{
  Timer, Counter, Control, tb1, tb100, test, timer_bits, counter_bits, control_bits, enc_words,
  enc_int, enc_timer, enc_counter, enc_control, enc_float, dec_int, dec_timer, dec_counter,
  dec_control, dec_float, dec_words,
}

-- The control word gives back each flag: checked for all of them.
abbrev eqb : Bool → Bool → Bool
eqb true b = b
eqb false b = not b

timer_bits_lem :
    (t : Timer)
    → (timer_bits t < 2 ^ 16)
      × (test (timer_bits t) 0x8000 ≡ t.en)
      × (test (timer_bits t) 0x4000 ≡ t.tt)
      × (test (timer_bits t) 0x2000 ≡ t.dn)
      × ((if test (timer_bits t) 0x0200 then tb1 else tb100) ≡ t.base)
unfolding timer_bits
timer_bits_lem t = ground arith

counter_bits_lem :
    (c : Counter)
    → (counter_bits c < 2 ^ 16)
      × (test (counter_bits c) 0x8000 ≡ c.cu)
      × (test (counter_bits c) 0x4000 ≡ c.cd)
      × (test (counter_bits c) 0x2000 ≡ c.dn)
      × (test (counter_bits c) 0x1000 ≡ c.ov)
      × (test (counter_bits c) 0x0800 ≡ c.un)
      × (test (counter_bits c) 0x0400 ≡ c.ua)
unfolding counter_bits
counter_bits_lem c = ground arith

abbrev pub three : ℕ → ℕ → ℕ → List ℕ
three a b c = link16 a ++ link16 b ++ link16 c

words-Encodes :
    {d : Buf} (a b c : ℕ)
    → IsValid d
    → a < 2 ^ 16
    → b < 2 ^ 16
    → c < 2 ^ 16
    → Encodes d (three a b c) (enc_words little_endian d a b c)
words-Encodes {d} a b c v ha hb hc = or_overflow-Encodes _ (
    or_else-Appends _ _
      (or_else-Appends _ (buf_append_word little_endian d (htols little_endian a))
        (link_word-Appends a v ha) (λ d' v'. link_word-Appends b v' hb))
      (λ d' v'. link_word-Appends c v' hc))

words-dec :
    {d : Buf} (a b c junk : ℕ) (rest : List ℕ)
    → IsValid d
    → unread d ≡ three a b c ++ rest
    → (d' : Buf) × (dec_words little_endian d junk ≡ (d', a, b, c, false))
      × IsValid d'
      × (unread d' ≡ rest)
unfolding dec_words ltohs
words-dec {d} a b c junk rest v h =
    let w1 = buf_get_word-cons little_endian v h in
    let w2 = buf_get_word-cons little_endian w1.2 w1.1 in
    let w3 = buf_get_word-cons little_endian w2.2 w2.1 in
    (advance 2 (advance 2 (advance 2 d)), rw (w1.0, w2.0, w3.0) (ground arith), w3.2, w3.1)

control_bits_lem :
    (c : Control)
    → (control_bits c < 2 ^ 16)
      × (test (control_bits c) 0x8000 ≡ c.en)
      × (test (control_bits c) 0x4000 ≡ c.eu)
      × (test (control_bits c) 0x2000 ≡ c.dn)
      × (test (control_bits c) 0x1000 ≡ c.em)
      × (test (control_bits c) 0x0800 ≡ c.er)
      × (test (control_bits c) 0x0400 ≡ c.ul)
      × (test (control_bits c) 0x0200 ≡ c.inh)
      × (test (control_bits c) 0x0100 ≡ c.fd)
unfolding control_bits
control_bits_lem c = ground arith

abbrev pub timer_bytes : Timer → List ℕ
timer_bytes t = three (timer_bits t) t.pre t.acc

abbrev pub counter_bytes : Counter → List ℕ
counter_bytes c = three (counter_bits c) c.pre c.acc

abbrev pub control_bytes : Control → List ℕ
control_bytes c = three (control_bits c) c.len c.pos

-- Timers: the flags, the time base, the preset and the accumulator come back as they were.
pub timer-IsCodec :
    (junk : ℕ)
    → IsCodec
        (enc_timer little_endian)
        (λ b old. dec_timer little_endian b junk)
        timer_bytes
        (λ t. (t.pre < 2 ^ 16) × (t.acc < 2 ^ 16))
        (λ _. Unit)
        ◌≡◌
unfolding enc_timer dec_timer
timer-IsCodec junk = record {
  writes = λ {b} t h v. words-Encodes (timer_bits t) t.pre t.acc v (timer_bits_lem t).0 h.0 h.1;
  reads = λ {b} t old rest h _ v e.
      let f = timer_bits_lem t in
      let (b', d, v', u) = words-dec (timer_bits t) t.pre t.acc junk rest v e in
      rw d (refl, ground (arith, f), v', u);
}

-- Counters: the flags, the preset and the accumulator come back as they were.
pub counter-IsCodec :
    (junk : ℕ)
    → IsCodec
        (enc_counter little_endian)
        (λ b old. dec_counter little_endian b junk)
        counter_bytes
        (λ c. (c.pre < 2 ^ 16) × (c.acc < 2 ^ 16))
        (λ _. Unit)
        ◌≡◌
unfolding enc_counter dec_counter
counter-IsCodec junk = record {
  writes = λ {b} c h v. words-Encodes (counter_bits c) c.pre c.acc v (counter_bits_lem c).0 h.0 h.1;
  reads = λ {b} c old rest h _ v e.
      let f = counter_bits_lem c in
      let (b', d, v', u) = words-dec (counter_bits c) c.pre c.acc junk rest v e in
      rw d (refl, ground (arith, f), v', u);
}

-- Control structures: the flags, the length and the position come back as they were.
pub control-IsCodec :
    (junk : ℕ)
    → IsCodec
        (enc_control little_endian)
        (λ b old. dec_control little_endian b junk)
        control_bytes
        (λ c. (c.len < 2 ^ 16) × (c.pos < 2 ^ 16))
        (λ _. Unit)
        ◌≡◌
unfolding enc_control dec_control
control-IsCodec junk = record {
  writes = λ {b} c h v. words-Encodes (control_bits c) c.len c.pos v (control_bits_lem c).0 h.0 h.1;
  reads = λ {b} c old rest h _ v e.
      let f = control_bits_lem c in
      let (b', d, v', u) = words-dec (control_bits c) c.len c.pos junk rest v e in
      rw d (refl, ground (arith, f), v', u);
}

-- Sixteen bit numbers come back as they were.
pub int-IsCodec :
    IsCodec (enc_int little_endian) (dec_int little_endian) link16 (λ w. w < 2 ^ 16) (λ _. Unit) ◌≡◌
unfolding enc_int dec_int ltohs
int-IsCodec = record {
  writes = λ {b} w h v. or_overflow-Encodes _ (link_word-Appends w v h);
  reads = λ {b} w old rest h _ v e.
      let r = buf_get_word-cons little_endian v e in rw r.0 (refl, omega arith, r.2, r.1);
}

-- Floats come back as they were, bit for bit.
pub float-IsCodec :
    IsCodec
      (enc_float little_endian)
      (dec_float little_endian)
      (store32 little_endian)
      (λ w. w < 2 ^ 32)
      (λ _. Unit)
      ◌≡◌
unfolding enc_float dec_float ltohl htoll
float-IsCodec = record {
  writes = λ {b} w h v. or_overflow-Encodes _ (long-Appends v little_endian w);
  reads = λ {b} w old rest h _ v e.
      let r = buf_get_long-cons little_endian v e in rw r.0 (refl, omega arith, r.2, r.1);
}
