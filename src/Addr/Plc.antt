-- ===== src/Addr/Plc.antt =====
-- lib/addr.c: PLC addresses on a little-endian host.
use libpccc.Common.{
  ℕ_discrete, ℕ, zero, suc, ◌+◌, ◌-◌, ◌/◌, ◌^◌, ◌≤◌, ◌<◌, ◌≡◌, refl, Bool, true, false, List, [],
  ◌∷◌, ◌++◌, arith, length, none, some, Bool-cases, inl, inr, ◌==◌, ltb, leb, if◌then◌else◌, Option,
  get_or, bit_and, bit_or, u8, passes_below, passes_below-at, ◌&&◌, ==_iff,
}
use libpccc.ByteOrder.{little_endian}
use libpccc.Buf.{Buf, buf_append_byte}
use libpccc.Buf.Invariant.{IsValid}
use libpccc.Buf.Encode.{Wrote-nil, Appends, fits, byte-Appends, str-Appends, or_else-Appends}
use libpccc.Ret.Encodes.{Answers, or_overflow-Encodes}
use libpccc.Addr.{
  Lba, PlcAddr, bin, ascii, other, addr_enc_plc, addr_encode, lba_mask, append_lvls_from,
  append_lvls, enc_plc_lba, enc_plc_laa,
}
use libpccc.Addr.Element.{element, addr_encode-Appends}

-- The mask that the loop builds when no level is illegal.
fill : ℕ → ℕ → ℕ
fill zero mask = mask
fill (suc i) mask = fill i (u8 (bit_or mask (2 ^ i)))

abbrev pub legal : ℕ → List ℕ → Bool
legal zero lvl = true
legal (suc i) lvl = leb (get_or lvl i 0) 999 && legal i lvl

lba_mask-legal :
    (n : ℕ) (lvl : List ℕ) (mask : ℕ)
    → lba_mask n lvl mask ≡ (if legal n lvl then some (fill n mask) else none)
unfolding lba_mask fill
lba_mask-legal zero lvl mask = refl
lba_mask-legal (suc n) lvl mask = ground (arith, lba_mask-legal n lvl (u8 (bit_or mask (2 ^ n))))

legal-le : (n : ℕ) (lvl : List ℕ) → legal n lvl ≡ true → (i : ℕ) → i < n → get_or lvl i 0 ≤ 999
legal-le zero lvl h i k = absurd (omega arith)
legal-le (suc n) lvl h i k = elim (ℕ_discrete i n) [
  | yes e ↦ rw e (ground arith)
  | no ne ↦ legal-le n lvl (ground arith) i (omega arith)
]

fill_table : passes_below 8 (λ n. fill n 0 == 2 ^ n - 1) ≡ true
unfolding passes_below fill
fill_table = refl

-- The masks of `suc n` levels: the lowest bit is set, and a shift leaves the mask of `n` levels.
mask_table :
    passes_below 7 (λ n.
      (bit_and (2 ^ suc n - 1) 1 == 1)
      && ltb 0 (2 ^ suc n - 1)
      && ((2 ^ suc n - 1) / 2 == 2 ^ n - 1))
    ≡ true
unfolding passes_below
mask_table = refl

-- The encodings of `n` levels from level `i` on.
abbrev pub elements : ℕ → ℕ → List ℕ → List ℕ
elements zero i lvl = []
elements (suc n) i lvl = element (get_or lvl i 0) ++ elements n (i + 1) lvl

append_lvls_from-Appends :
    (n fuel i : ℕ) (lvl : List ℕ) {b : Buf}
    → n < fuel
    → n < 8
    → IsValid b
    → ((j : ℕ) → j < i + n → get_or lvl j 0 ≤ 999)
    → Appends b (elements n i lvl) (append_lvls_from fuel little_endian i (2 ^ n - 1) lvl b)
unfolding append_lvls_from
append_lvls_from-Appends n zero i lvl h k v legal = absurd (omega arith)
append_lvls_from-Appends zero (suc fuel) i lvl h k v legal = fits refl (Wrote-nil v)
append_lvls_from-Appends (suc n) (suc fuel) i lvl {b} h k v legal =
    let t : _ ≡ true =
      passes_below-at 7
        (λ n.
          (bit_and (2 ^ suc n - 1) 1 == 1)
          && ltb 0 (2 ^ suc n - 1)
          && ((2 ^ suc n - 1) / 2 == 2 ^ n - 1))
        mask_table n (omega arith) in
    let odd : (bit_and (2 ^ suc n - 1) 1 == 1) ≡ true = ground arith in
    let more : (2 ^ suc n - 1 == 0) ≡ false = ground arith in
    let half : (2 ^ suc n - 1) / 2 ≡ 2 ^ n - 1 = ground arith in
    let small : get_or lvl i 0 ≤ 999 = legal i (omega arith) in
    rw (odd, more, half)
      (or_else-Appends _ (addr_encode little_endian b (get_or lvl i 0))
        (addr_encode-Appends (get_or lvl i 0) v (omega arith))
        (λ b' v'.
          append_lvls_from-Appends n fuel (i + 1) lvl (omega arith) (omega arith) v'
            (λ j hj. legal j (omega arith))))

-- The encoding of an address: a mask with a bit for each level and the levels; or the text between
-- zero, a dollar sign and a zero. The levels are 1 to 7 with values up to 999, the text has 1 to 15
-- characters.
abbrev pub plc_bytes : PlcAddr → Option (List ℕ)
plc_bytes (bin a) =
    if ltb 0 a.num_lvl && leb a.num_lvl 7 && legal a.num_lvl a.lvl
    then some ((2 ^ a.num_lvl - 1) ∷ elements a.num_lvl 0 a.lvl)
    else none
plc_bytes (ascii text) =
    if ltb 0 (length text) && leb (length text) 15
    then some ((0 ∷ b'$' ∷ []) ++ text ++ 0 ∷ [])
    else none
plc_bytes other = none

lba-Answers :
    (a : Lba) {b : Buf} → IsValid b → Answers b (plc_bytes (bin a)) (enc_plc_lba little_endian b a)
unfolding enc_plc_lba append_lvls
lba-Answers a {b} v =
    elim (Bool-cases (ltb 0 a.num_lvl && leb a.num_lvl 7 && legal a.num_lvl a.lvl)) [
      | inl ok ↦
          let full : fill a.num_lvl 0 ≡ 2 ^ a.num_lvl - 1 =
            (==_iff _ _).0 (
              passes_below-at 8 (λ n. fill n 0 == 2 ^ n - 1) fill_table a.num_lvl (ground arith)) in
          let some_level : (a.num_lvl == 0) ≡ false = ground arith in
          let few : ltb 7 a.num_lvl ≡ false = ground arith in
          let fine : legal a.num_lvl a.lvl ≡ true = ground arith in
          let mask : lba_mask a.num_lvl a.lvl 0 ≡ some (2 ^ a.num_lvl - 1) =
            rw (lba_mask-legal a.num_lvl a.lvl 0, fine, full) refl in
          rw (ok, some_level, few, mask)
            (or_overflow-Encodes _ (
              or_else-Appends _ (buf_append_byte b (2 ^ a.num_lvl - 1)) (byte-Appends v _) (λ b' v'.
                append_lvls_from-Appends a.num_lvl 8 0 a.lvl (ground arith) (ground arith) v'
                  (λ j h. legal-le a.num_lvl a.lvl fine j (omega arith)))))
      | inr bad ↦ rw bad (ground (arith, lba_mask-legal a.num_lvl a.lvl 0))
    ]

laa-Answers :
    (text : List ℕ) {b : Buf} → IsValid b → Answers b (plc_bytes (ascii text)) (enc_plc_laa b text)
unfolding enc_plc_laa
laa-Answers text {b} v = elim (Bool-cases (ltb 0 (length text) && leb (length text) 15)) [
  | inl ok ↦
      let short : leb 16 (length text) ≡ false = ground arith in
      let some_text : (length text == 0) ≡ false = ground arith in
      rw (ok, short, some_text)
        (or_overflow-Encodes _ (
          or_else-Appends _ _
            (or_else-Appends _ _
              (or_else-Appends _ (buf_append_byte b 0) (byte-Appends v 0)
                (λ b' v'. byte-Appends v' b'$'))
              (λ b' v'. str-Appends v' text (ground arith)))
            (λ b' v'. byte-Appends v' 0)))
  | inr bad ↦ rw bad (ground arith)
]

-- On a little-endian host, `addr_enc_plc` writes the encoding of an address that has one, or
-- fails with PCCC_EOVERFLOW if it does not fit; an address that has none it rejects with
-- PCCC_EPARAM, without a change of the buffer.
pub addr_enc_plc-Answers :
    (a : PlcAddr) {b : Buf} → IsValid b → Answers b (plc_bytes a) (addr_enc_plc little_endian b a)
unfolding addr_enc_plc
addr_enc_plc-Answers (bin lba) v = lba-Answers lba v
addr_enc_plc-Answers (ascii text) v = laa-Answers text v
addr_enc_plc-Answers other v = refl
